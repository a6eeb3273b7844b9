-- ===== src/Policy/Record.antt =====
-- src/policy.rs: `Policy::record`, `record_id`, `forget_id`, `expected_id`.
pub mod Effect
pub mod Decisions
pub mod Persist
use pfsnitch.Addr.{IpAddr, show_ip, addr_eq}
use pfsnitch.Base.{
  ℕ, Bool, true, false, List, [], ◌∷◌, ◌++◌, Option, none, some, if◌then◌else◌, ◌==◌, nat_eq,
  list_eq, option_eq, pair_eq, triple_eq, unwrap_or, insert, put, lookup, remove, is_some, ◌||◌,
}
use pfsnitch.Policy.Load.{File}
use pfsnitch.Policy.Target.{join_target}
use pfsnitch.Policy.{
  Policy, Answer, allow_conn, allow_app, block, block_app, timeout, Origin, adjective,
}
use pfsnitch.Text.{Str, codes, is_empty, Unicode, to_lowercase}

-- `!h.is_empty() && h != "-"`, as the guard of a `match` on the host.
unfoldable pub named : Option Str → Option Str
named none = none
named (some h) = if is_empty h || h == codes "-" then none else some h

-- `OpenOptions::new().create(true).append(true)` and `writeln!`; the flag tells whether the file
-- could be opened.
unfoldable pub append_line : Bool → File → Str → File
append_line false file line = file
append_line true file line = some (unwrap_or file [] ++ (line ++ (b'\n' ∷ [])))

module _ ⦃u : Unicode⦄ where
  -- `Answer::AllowConn`, on the binary and the name that was seen.
  unfoldable pub record_allow :
      Policy → Option Str → Option Str → IpAddr → ℕ → Origin → Policy × Str
  record_allow p (some e) (some h) dst dport origin = (
    record p { allow_host_from = insert (e, to_lowercase h, some dport) p.allow_host_from },
    codes "allow-host-from "
        ++ (join_target h (some dport)
            ++ (b'\t' ∷ (e ++ (codes "\t# " ++ (adjective origin ++ codes " for this app"))))),
  )
  record_allow p (some e) none dst dport origin = (
    record p { allow_dest_from = insert (e, dst, some dport) p.allow_dest_from },
    codes "allow-dest-from "
        ++ (join_target (show_ip dst) (some dport)
            ++ (b'\t'
                ∷ (e
                    ++ (codes "\t# no hostname seen; "
                        ++ (adjective origin ++ codes " for this app"))))),
  )
  record_allow p none (some h) dst dport origin = (
    record p { allow_host = insert (to_lowercase h, some dport) p.allow_host },
    codes "allow-host "
        ++ (join_target h (some dport)
            ++ (codes "\t# " ++ (adjective origin ++ codes "; unattributed connection"))),
  )
  record_allow p none none dst dport origin = (
    record p { allow_dest = insert (dst, some dport) p.allow_dest },
    codes "allow-dest "
        ++ (join_target (show_ip dst) (some dport)
            ++ (codes "\t# " ++ (adjective origin ++ codes "; unattributed, no hostname seen"))),
  )

  -- `Answer::Block`
  unfoldable pub record_block : Policy → Option Str → Option Str → IpAddr → ℕ → Policy × Str
  record_block p (some e) (some h) dst dport = (
    record p { deny_host_from = insert (e, to_lowercase h, some dport) p.deny_host_from },
    codes "deny-host-from "
        ++ (join_target h (some dport) ++ (b'\t' ∷ (e ++ codes "\t# blocked for this app only"))),
  )
  record_block p (some e) none dst dport = (
    record p { deny_dest_from = insert (e, dst, some dport) p.deny_dest_from },
    codes "deny-dest-from "
        ++ (join_target (show_ip dst) (some dport)
            ++ (b'\t' ∷ (e ++ codes "\t# no hostname seen; blocked for this app only"))),
  )
  record_block p none (some h) dst dport = (
    record p { deny_host = insert (to_lowercase h, some dport) p.deny_host },
    codes "deny-host "
        ++ (join_target h (some dport)
            ++ codes "\t# unattributed connection; blocked for every application"),
  )
  record_block p none none dst dport = (
    record p { deny_dest = insert (dst, some dport) p.deny_dest },
    codes "deny-dest "
        ++ (join_target (show_ip dst) (some dport)
            ++ codes "\t# unattributed, no hostname seen; blocked for every application"),
  )

  -- The policy in memory and the line for the file; none where the source returns early.
  unfoldable pub record_rule :
      Policy → Answer → Option Str → IpAddr → Option Str → ℕ → Origin → Option (Policy × Str)
  record_rule p allow_conn exe dst host dport origin =
      some (record_allow p exe (named host) dst dport origin)
  record_rule p allow_app (some e) dst host dport origin =
      some (record p { allow_app = insert e p.allow_app }, codes "allow-app " ++ e)
  record_rule p allow_app none dst host dport origin = none
  record_rule p block exe dst host dport origin = some (record_block p exe (named host) dst dport)
  record_rule p block_app (some e) dst host dport origin = some (
    record p { deny_app = insert e p.deny_app },
    codes "deny-app " ++ (e ++ codes "\t# every destination"),
  )
  record_rule p block_app none dst host dport origin = none
  record_rule p timeout exe dst host dport origin = none

  unfoldable pub record_decision :
      Policy → Bool → File → Answer → Option Str → IpAddr → Option Str → ℕ → Origin → Policy × File
  record_decision p writable file ans exe dst host dport origin =
      elim (record_rule p ans exe dst host dport origin) [
        | none ↦ (p, file)
        | some (p', line) ↦ (p', append_line writable file line)
      ]

  -- `record_id`: only a binary with no identity yet is pinned.
  unfoldable pub record_id : Policy → Bool → File → Str → Str → Policy × File
  record_id p writable file exe sha = if is_some (lookup exe p.app_id) then (p, file) else (
    record p { app_id = put exe (to_lowercase sha) p.app_id },
    append_line writable file
        (codes "app-id " ++ (sha ++ (b'\t' ∷ (exe ++ codes "\t# identity when approved")))),
  )

unfoldable pub expected_id : Policy → Str → Option Str
expected_id p exe = lookup exe p.app_id

unfoldable pub forget_id : Policy → Str → Policy
forget_id p exe = record p { app_id = remove exe p.app_id }
