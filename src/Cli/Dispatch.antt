-- ===== src/Cli/Dispatch.antt =====
-- src/main.rs: `main`, which command a process runs.
use mathlib.Core.Path.{fun_ext}
use pfsnitch.Base.{
  ℕ, Bool, true, false, not, ◌&&◌, ◌||◌, List, [], ◌∷◌, map, Option, none, some, ◌≡◌, refl, sym,
  eq_comm, on_test, ap, ◌∙◌, arith, if◌then◌else◌, ◌==◌, nat_eq, list_eq, take, get_elem?, any,
  contains, on_some, unwrap_or,
}
use pfsnitch.Policy.{Mode, visibility, enforcement}
use pfsnitch.Procinfo.Running.{
  Running, program_of, is_daemon, words_of, modes, runs_daemon, daemon_running,
}
use pfsnitch.Text.{Str, codes, Unicode, from_utf8_lossy}

pub data Command : Type 0 where
  probe rules rm status mode attribution kernel_reset apps forget clear : Command
  run : Mode → Command
  add : Str → Command
  usage : ℕ → Command

-- The commands that end.
unfoldable pub short_command : Str → Command
short_command name =
    if name == codes "rules" || name == codes "list"
    then rules
    else if name == codes "allow"
    then add (codes "allow")
    else if name == codes "deny"
    then add (codes "deny")
    else if name == codes "rm" || name == codes "remove"
    then rm
    else if name == codes "status"
    then status
    else if name == codes "mode"
    then mode
    else if name == codes "attribution"
    then attribution
    else if name == codes "kernel-reset"
    then kernel_reset
    else if name == codes "apps"
    then apps
    else if name == codes "forget"
    then forget
    else if name == codes "clear"
    then clear
    else if name == codes "help" || name == codes "-h" || name == codes "--help"
    then usage 0
    else usage 64

unfoldable pub named_command : Str → Command
named_command name =
    if name == codes "probe"
    then probe
    else if name == codes "visibility" || name == codes "listen"
    then run visibility
    else if name == codes "enforcement" || name == codes "enforce"
    then run enforcement
    else short_command name

unfoldable pub dispatch : List Str → Command
dispatch args = named_command (unwrap_or (get_elem? args 1) (codes "help"))

unfoldable pub is_run : Command → Bool
is_run (run m) = true
is_run _ = false

-- The name of the program, and a command that is the daemon.
abbrev pub is_started : List Str → Bool
is_started args =
    on_some (get_elem? args 0) (λ a. program_of a == codes "pfsnitch") && is_run (dispatch args)

is_run-short_command : (name : Str) → is_run (short_command name) ≡ false
unfolding short_command is_run
is_run-short_command name = ground arith

no_probe : (name : Str) → (name == codes "probe") ≡ true → contains name modes ≡ false
unfolding contains
no_probe name h = rw ((list_eq.same_iff name (codes "probe")).0 h) refl

contains-modes :
    (name : Str)
    → contains name modes ≡ (
        (name == codes "visibility" || name == codes "listen")
        || (name == codes "enforcement" || name == codes "enforce"))
unfolding contains
contains-modes name =
    rw
      (
        eq_comm (codes "visibility") name,
        eq_comm (codes "enforcement") name,
        eq_comm (codes "listen") name,
        eq_comm (codes "enforce") name,
      )
      (ground arith)

is_run-named_command : (name : Str) → contains name modes ≡ is_run (named_command name)
unfolding named_command is_run
is_run-named_command name =
    let P : Command → Type 0 = λ c. contains name modes ≡ is_run c in
    on_test P (name == codes "probe") _ _ (no_probe name) (λ _.
      on_test P (name == codes "visibility" || name == codes "listen") _ _
        (λ e. contains-modes name ∙ rw e refl)
        (λ d.
          on_test P (name == codes "enforcement" || name == codes "enforce") _ _
            (λ e. contains-modes name ∙ rw (d, e) refl)
            (λ e. contains-modes name ∙ rw (d, e) (sym (is_run-short_command name)))))

is_daemon-is_started : (args : List Str) → is_daemon args ≡ is_started args
unfolding is_daemon dispatch named_command short_command is_run
is_daemon-is_started [] = refl
is_daemon-is_started (a ∷ []) = refl
is_daemon-is_started (a ∷ name ∷ args) =
    ap (λ b. program_of a == codes "pfsnitch" && b) (is_run-named_command name)

is_daemon-take : (args : List Str) → is_daemon (take 8 args) ≡ is_daemon args
unfolding is_daemon
is_daemon-take [] = refl
is_daemon-take (a ∷ []) = refl
is_daemon-take (a ∷ name ∷ args) = refl

module _ ⦃u : Unicode⦄ where
  -- Started by `main` as the daemon, by a process other than this one.
  abbrev pub is_other_daemon : ℕ → Running → Bool
  is_other_daemon me p =
      not (p.pid == me) && on_some p.argv (λ argv. is_started (map (λ a. from_utf8_lossy a) argv))

  runs_daemon-is_other_daemon : (me : ℕ) (p : Running) → runs_daemon me p ≡ is_other_daemon me p
  unfolding runs_daemon
  runs_daemon-is_other_daemon me p = ap (λ b. not (p.pid == me) && b) (daemon_argv p.argv)
    where
      daemon_argv :
          (argv : Option (List (List ℕ)))
          → on_some argv (λ l. is_daemon (words_of l))
            ≡ on_some argv (λ l. is_started (map (λ a. from_utf8_lossy a) l))
      daemon_argv none = refl
      daemon_argv (some l) = is_daemon-take _ ∙ is_daemon-is_started _

  -- Where the processes can be listed, the daemon is said to run if and only if some process other
  -- than the one that asks has the name of this program and arguments for which `main` runs the
  -- daemon: in either mode and by any name of the mode, and with no other command of the program.
  pub daemon_running-dispatch :
      (me : ℕ) (ps : List Running) → daemon_running me (some ps) ≡ any (is_other_daemon me) ps
  unfolding daemon_running
  daemon_running-dispatch me ps = ap (λ p. any p ps) (fun_ext (runs_daemon-is_other_daemon me))
