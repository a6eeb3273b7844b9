-- ===== src/Cli/Json/Totals.antt =====
-- src/main.rs: what `pfsnitch status --json` prints says what the status is.
use pfsnitch.Base.{
  ℕ, suc, ◌+◌, true, false, List, [], ◌∷◌, Option, none, some, ◌≡◌, refl, arith, All, if◌then◌else◌,
  ◌==◌, nat_eq, list_eq, length, contains, AreDistinct, eq_comm, list_beq_iff, on_test,
}
use pfsnitch.Cli.Json.Status.{count, status_json, summary, default_prompt, Reads-summary_json}
use pfsnitch.Cli.Json.Unique.{Says, Reads-Says}
use pfsnitch.Policy.Load.{File, load}
use pfsnitch.Policy.Manage.{Rule, kinds, rules, is_rule, filter}
use pfsnitch.Policy.{visibility, mode_of, prompt_bin}
use pfsnitch.Procinfo.Running.{Running, daemon_running}
use pfsnitch.Text.{Str, codes, Unicode}

abbrev pub sum_counts : List Rule → List Str → ℕ
sum_counts rs [] = 0
sum_counts rs (k ∷ ks) = count rs k + sum_counts rs ks

sum_counts-nil : (ks : List Str) → sum_counts [] ks ≡ 0
unfolding count filter
sum_counts-nil [] = refl
sum_counts-nil (k ∷ ks) = omega (arith, sum_counts-nil ks)

one_of : Str → List Str → ℕ
one_of k [] = 0
one_of k (j ∷ ks) = if k == j then suc (one_of k ks) else one_of k ks

sum_counts-cons :
    (r : Rule) (rs : List Rule) (ks : List Str)
    → sum_counts (r ∷ rs) ks ≡ one_of r.kind ks + sum_counts rs ks
unfolding count filter one_of
sum_counts-cons r rs [] = omega arith
sum_counts-cons r rs (k ∷ ks) = ground (arith, sum_counts-cons r rs ks)

one_of-absent : (k : Str) (ks : List Str) → contains k ks ≡ false → one_of k ks ≡ 0
unfolding one_of contains
one_of-absent k [] h = refl
one_of-absent k (j ∷ ks) h = ground (arith, h, eq_comm j k, one_of-absent k ks)

one_of-contains :
    (k : Str) (ks : List Str) → AreDistinct ks → contains k ks ≡ true → one_of k ks ≡ 1
unfolding one_of contains
one_of-contains k [] w h = cc
one_of-contains k (j ∷ ks) (n, w) h =
    ground (arith, h, n, list_beq_iff k j, eq_comm j k, one_of-absent k ks, one_of-contains k ks w)

kinds-AreDistinct : AreDistinct kinds
unfolding kinds contains
kinds-AreDistinct =
    (refl, (refl, (refl, (refl, (refl, (refl, (refl, (refl, (refl, (refl, tt))))))))))

abbrev AllRules : List Rule → Type 0
AllRules rs = All (λ r. is_rule r ≡ true) rs

filter-AllRules : (rs : List Rule) → AllRules (filter is_rule rs)
unfolding filter
filter-AllRules [] = tt
filter-AllRules (r ∷ rs) =
    on_test AllRules (is_rule r) _ _ (λ e. (e, filter-AllRules rs)) (λ _. filter-AllRules rs)

rules-AllRules : (file : File) → AllRules (rules file)
unfolding rules
rules-AllRules none = tt
rules-AllRules (some text) = filter-AllRules _

sum_counts-length : (rs : List Rule) → AllRules rs → sum_counts rs kinds ≡ length rs
sum_counts-length [] w = sum_counts-nil kinds
sum_counts-length (r ∷ rs) (h, w) = omega (
  arith,
  sum_counts-cons r rs kinds,
  one_of-contains r.kind kinds kinds-AreDistinct h,
  sum_counts-length rs w,
)

module _ ⦃u : Unicode⦄ where
  -- What `pfsnitch status --json` prints is a JSON text, whatever the policy file holds, and says
  -- exactly what the status is: whether the daemon runs, the mode, the paths, and for each kind the
  -- number of its rules, which add up to the total that is printed.
  pub status_json-Says :
      (me : ℕ) (processes : Option (List Running)) (variable : Option Str) (file : File)
      → Says
          (status_json me processes variable file)
          (summary
            (daemon_running me processes)
            (mode_of (load file) visibility)
            (prompt_bin (load file) variable default_prompt)
            (rules file))
          (codes "\n")
        × (sum_counts (rules file) kinds ≡ length (rules file))
  unfolding status_json
  status_json-Says me processes variable file = (
    Reads-Says _ _ _ (Reads-summary_json _ _ _ (rules file)),
    sum_counts-length (rules file) (rules-AllRules file),
  )
