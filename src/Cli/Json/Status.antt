-- ===== src/Cli/Json/Status.antt =====
-- src/main.rs: `cmd_status` with `--json`. The path of the policy file and the default prompt are the
-- constants of the source.
use mathlib.Core.List.{append_assoc}
use pfsnitch.Base.{
  ℕ, Bool, true, false, List, [], ◌∷◌, ◌++◌, Option, ◌≡◌, refl, All, ◌==◌, nat_eq, list_eq, length,
}
use pfsnitch.Cli.Json.Grammar.{
  Value, number, string, object, Members, no_members, member, one, entry, members, more_members,
  Reads, take_string, ends, onto_first, name, first_member, next_member, last_member, empty_object,
  Reads-quoted, begins_digit, IsBare, take_string-IsBare,
}
use pfsnitch.Cli.Json.{quoted, in_quotes, json_escape, escape_char, read_char}
use pfsnitch.Policy.Load.{File, load}
use pfsnitch.Policy.Manage.{Rule, kinds, rules, filter}
use pfsnitch.Policy.{Mode, visibility, enforcement, show_mode, mode_of, prompt_bin}
use pfsnitch.Procinfo.Running.{Running, daemon_running}
use pfsnitch.Text.Numbers.{show_decimal}
use pfsnitch.Text.{Str, codes, Unicode}

abbrev pub policy_path : Str
policy_path = codes "/usr/local/etc/pfsnitch/policy.conf"

abbrev pub default_prompt : Str
default_prompt = codes "/usr/local/libexec/pfsnitch-prompt"

-- `rs.iter().filter(|r| r.kind == k).count()`
unfoldable pub count : List Rule → Str → ℕ
count rs k = length (filter (λ r. r.kind == k) rs)

unfoldable pub count_json : List Rule → Str → Str
count_json rs k = in_quotes k ++ (b':' ∷ show_decimal (count rs k))

-- `join(",")`
unfoldable pub counts_json : List Rule → List Str → Str
counts_json rs [] = []
counts_json rs (k ∷ []) = count_json rs k
counts_json rs (k ∷ j ∷ ks) = count_json rs k ++ (b',' ∷ counts_json rs (j ∷ ks))

unfoldable pub daemon_word : Bool → Str
daemon_word true = codes "running"
daemon_word false = codes "stopped"

unfoldable pub summary_json : Bool → Mode → Str → List Rule → Str
summary_json running m prompt rs =
    codes "{\"daemon\":"
    ++ (in_quotes (daemon_word running)
        ++ (codes ",\"mode\":"
            ++ (in_quotes (show_mode m)
                ++ (codes ",\"policy\":"
                    ++ (quoted policy_path
                        ++ (codes ",\"prompt\":"
                            ++ (quoted prompt
                                ++ (codes ",\"rules\":{"
                                    ++ (counts_json rs kinds
                                        ++ (codes "},\"total\":"
                                            ++ (show_decimal (length rs) ++ codes "}\n")))))))))))

module _ ⦃u : Unicode⦄ where
  -- For a process, the processes, the variable PFSNITCH_PROMPT and the policy file.
  unfoldable pub status_json : ℕ → Option (List Running) → Option Str → File → Str
  status_json me processes variable file =
      summary_json (daemon_running me processes) (mode_of (load file) visibility)
        (prompt_bin (load file) variable default_prompt) (rules file)

kinds-IsBare : All IsBare kinds
unfolding kinds json_escape escape_char
kinds-IsBare = (refl, (refl, (refl, (refl, (refl, (refl, (refl, (refl, (refl, (refl, tt))))))))))

-- The kinds with their counts.
abbrev pub counts : List Rule → List Str → Members
counts rs [] = no_members
counts rs (k ∷ ks) = member k (number (count rs k)) (counts rs ks)

Reads-count_json :
    (rs : List Rule) (k r : Str)
    → IsBare k
    → begins_digit r ≡ false
    → Reads (count_json rs k ++ r) (entry k (number (count rs k))) r
unfolding count_json
Reads-count_json rs k r e d =
    simp (append_assoc) (name (take_string-IsBare k _ e) (number (count rs k) r d))

abbrev ReadsFirst : Str → List Rule → Str → List Str → Str → Type 0
ReadsFirst s rs k ks r =
    (t : Str) × Reads s (entry k (number (count rs k))) t × Reads t (more_members (counts rs ks)) r

counts_json-ReadsFirst :
    (rs : List Rule) (k : Str) (ks : List Str) (r : Str)
    → All IsBare (k ∷ ks)
    → ReadsFirst (counts_json rs (k ∷ ks) ++ b'}' ∷ r) rs k ks r
unfolding counts_json
counts_json-ReadsFirst rs k [] r (e, _) = (b'}' ∷ r, Reads-count_json rs k _ e refl, last_member r)
counts_json-ReadsFirst rs k (j ∷ ks) r (e, es) =
    let (t, first, more) = counts_json-ReadsFirst rs j ks r es in
    rw (append_assoc (count_json rs k) (b',' ∷ counts_json rs (j ∷ ks)) (b'}' ∷ r)) (
      b',' ∷ (counts_json rs (j ∷ ks) ++ b'}' ∷ r),
      Reads-count_json rs k _ e refl,
      next_member first more,
    )

Reads-counts_json :
    (rs : List Rule) (ks : List Str) (r : Str)
    → All IsBare ks
    → Reads (counts_json rs ks ++ b'}' ∷ r) (members (counts rs ks)) r
Reads-counts_json rs [] r e = unfold counts_json in empty_object r
Reads-counts_json rs (k ∷ ks) r e =
    let (t, first, more) = counts_json-ReadsFirst rs k ks r e in first_member first more

daemon_word-IsBare : (b : Bool) → IsBare (daemon_word b)
unfolding daemon_word json_escape escape_char
daemon_word-IsBare true = refl
daemon_word-IsBare false = refl

show_mode-IsBare : (m : Mode) → IsBare (show_mode m)
unfolding show_mode json_escape escape_char
show_mode-IsBare visibility = refl
show_mode-IsBare enforcement = refl

abbrev pub summary : Bool → Mode → Str → List Rule → Value
summary running m prompt rs = object (
    member (codes "daemon") (string (daemon_word running)) (
      member (codes "mode") (string (show_mode m)) (
        member (codes "policy") (string policy_path) (
          member (codes "prompt") (string prompt) (
            member (codes "rules") (object (counts rs kinds))
              (member (codes "total") (number (length rs)) no_members))))))

pub Reads-summary_json :
    (running : Bool) (m : Mode) (prompt : Str) (rs : List Rule)
    → Reads (summary_json running m prompt rs) (one (summary running m prompt rs)) (codes "\n")
unfolding summary_json take_string ends onto_first read_char
Reads-summary_json running m prompt rs = simp (append_assoc) (
    object (
      first_member (name refl (string (take_string-IsBare _ _ (daemon_word-IsBare running)))) (
        next_member (name refl (string (take_string-IsBare _ _ (show_mode-IsBare m)))) (
          next_member (name refl (Reads-quoted policy_path _)) (
            next_member (name refl (Reads-quoted prompt _)) (
              next_member (name refl (object (Reads-counts_json rs kinds _ kinds-IsBare))) (
                next_member (name refl (number (length rs) _ refl))
                  (last_member (codes "\n")))))))))
