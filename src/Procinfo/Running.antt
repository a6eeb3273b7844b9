-- ===== src/Procinfo/Running.antt =====
-- src/procinfo.rs: `daemon_running`, whether some other process is the daemon.
use pfsnitch.Base.{
  ℕ, Bool, false, not, ◌&&◌, List, [], ◌∷◌, map, Option, none, some, ◌==◌, nat_eq, list_eq, take,
  get_elem?, any, contains, on_some,
}
use pfsnitch.Text.{Str, codes, split_last, Unicode, from_utf8_lossy}

-- A process and the bytes of its arguments, if libprocstat gives them.
pub record Running : Type 0 where
  pub pid : ℕ
  pub argv : Option (List (List ℕ))

abbrev pub modes : List Str
modes = codes "visibility" ∷ codes "enforcement" ∷ codes "listen" ∷ codes "enforce" ∷ []

-- `a.rsplit('/').next()`
unfoldable pub program_of : Str → Str
program_of a = elim (split_last (λ c. c == b'/') a) [ some (dir, name) ↦ name | none ↦ a ]

unfoldable pub is_daemon : List Str → Bool
is_daemon words =
    let is_pfsnitch = on_some (get_elem? words 0) (λ a. program_of a == codes "pfsnitch") in
    let has_mode = on_some (get_elem? words 1) (λ m. contains m modes) in is_pfsnitch && has_mode

module _ ⦃u : Unicode⦄ where
  -- The first eight arguments.
  abbrev pub words_of : List (List ℕ) → List Str
  words_of argv = take 8 (map (λ a. from_utf8_lossy a) argv)

  unfoldable pub runs_daemon : ℕ → Running → Bool
  runs_daemon me p = not (p.pid == me) && on_some p.argv (λ argv. is_daemon (words_of argv))

  -- No list of processes where libprocstat cannot be opened or gives none.
  unfoldable pub daemon_running : ℕ → Option (List Running) → Bool
  daemon_running me none = false
  daemon_running me (some ps) = any (runs_daemon me) ps
