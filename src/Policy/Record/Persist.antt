-- ===== src/Policy/Record/Persist.antt =====
-- What `record` keeps in memory is what the next `load` of the file it wrote gives.
pub mod Apply
pub mod Pinned
pub mod Written
use mathlib.Core.List.{append_assoc}
use pfsnitch.Addr.{IpAddr, parse_ip, show_ip, addr_eq}
use pfsnitch.Base.{
  ℕ, Bool, true, false, ◌||◌, List, [], ◌∷◌, ◌++◌, Option, none, some, ◌≡◌, ◌≢◌, refl, sym, ◌∙◌, ap,
  arith, if◌then◌else◌, ◌==◌, nat_eq, unwrap_or, All, not, ◌&&◌, Bool-cases, inl, inr, insert,
  list_eq, option_eq, pair_eq, triple_eq,
}
use pfsnitch.Policy.Load.Lines.{
  is_hash, IsTrimmed, IsTrimmed-pair, IsTrimmed-word, split_scoped-pair, load_line-bare,
  load_line-comment, load-append,
}
use pfsnitch.Policy.Load.{File, directive, apply_directive, load_line, load, if_scoped, if_ip}
use pfsnitch.Policy.Record.{
  named, append_line, record_allow, record_block, record_rule, record_decision,
}
use pfsnitch.Policy.Target.RoundTrip.{IsSpelled, join_target-word, split_target-join_target}
use pfsnitch.Policy.Target.{split_target, join_target, split_scoped}
use pfsnitch.Policy.{
  Policy, Answer, allow_conn, allow_app, block, block_app, timeout, Origin, approved, learned,
  adjective,
}
use pfsnitch.Text.Laws.{NoneOf, NoneOf-append, is_break, ends_line}
use pfsnitch.Text.{Str, codes, is_white, Unicode, to_lowercase}
use pfsnitch.Policy.Record.Persist.Apply.{
  IsPath, IsDest, IsStorable, NoneOf-white-break, IsTrimmed-scoped_value, apply-allow_host_from,
  apply-allow_dest_from, apply-allow_host, apply-allow_dest, apply-deny_host_from,
  apply-deny_dest_from, apply-deny_host, apply-deny_dest,
}
use pfsnitch.Policy.Record.Persist.Written.{
  all_clear, key, clear, load-comment, load-bare, load-scoped, load-target, adjective-clear,
}

module _ ⦃u : Unicode⦄ (file : File) (ends : ends_line (unwrap_or file []) ≡ true) where
  record_allow-load :
      (exe n : Option Str) (dst : IpAddr) (dport : ℕ) (origin : Origin)
      → IsStorable exe n dst dport
      → load (append_line true file (record_allow (load file) exe n dst dport origin).1)
        ≡ (record_allow (load file) exe n dst dport origin).0
  unfolding record_allow append_line all_clear is_white
  record_allow-load (some e) (some h) dst dport origin s =
      load-scoped file ends (codes "allow-host-from") h dport e _
        (key file ends (codes "allow-host-from") (λ e. cc) refl refl) (s.dest h refl)
        (s.path e refl)
        (adjective-clear file ends (codes " ") origin (codes " for this app") refl refl)
      ∙ apply-allow_host_from (load file) h dport e (s.dest h refl) (s.path e refl)
  record_allow-load (some e) none dst dport origin s =
      load-scoped file ends (codes "allow-dest-from") (show_ip dst) dport e _
        (key file ends (codes "allow-dest-from") (λ e. cc) refl refl) s.address (s.path e refl)
        (adjective-clear file ends (codes " no hostname seen; ") origin (codes " for this app") refl
          refl)
      ∙ apply-allow_dest_from (load file) dst dport e s.address (s.path e refl) s.parsed
  record_allow-load none (some h) dst dport origin s =
      load-target file ends (codes "allow-host") h dport _
        (key file ends (codes "allow-host") (λ e. cc) refl refl) (s.dest h refl)
        (adjective-clear file ends (codes " ") origin (codes "; unattributed connection") refl refl)
      ∙ apply-allow_host (load file) h dport (s.dest h refl)
  record_allow-load none none dst dport origin s =
      load-target file ends (codes "allow-dest") (show_ip dst) dport _
        (key file ends (codes "allow-dest") (λ e. cc) refl refl) s.address
        (adjective-clear file ends (codes " ") origin (codes "; unattributed, no hostname seen")
          refl refl)
      ∙ apply-allow_dest (load file) dst dport s.address s.parsed

  record_block-load :
      (exe n : Option Str) (dst : IpAddr) (dport : ℕ)
      → IsStorable exe n dst dport
      → load (append_line true file (record_block (load file) exe n dst dport).1)
        ≡ (record_block (load file) exe n dst dport).0
  unfolding record_block append_line all_clear is_white
  record_block-load (some e) (some h) dst dport s =
      load-scoped file ends (codes "deny-host-from") h dport e (codes " blocked for this app only")
        (key file ends (codes "deny-host-from") (λ e. cc) refl refl) (s.dest h refl) (s.path e refl)
        (clear file ends (codes " blocked for this app only") refl)
      ∙ apply-deny_host_from (load file) h dport e (s.dest h refl) (s.path e refl)
  record_block-load (some e) none dst dport s =
      load-scoped file ends (codes "deny-dest-from") (show_ip dst) dport e
        (codes " no hostname seen; blocked for this app only")
        (key file ends (codes "deny-dest-from") (λ e. cc) refl refl) s.address (s.path e refl)
        (clear file ends (codes " no hostname seen; blocked for this app only") refl)
      ∙ apply-deny_dest_from (load file) dst dport e s.address (s.path e refl) s.parsed
  record_block-load none (some h) dst dport s =
      load-target file ends (codes "deny-host") h dport
        (codes " unattributed connection; blocked for every application")
        (key file ends (codes "deny-host") (λ e. cc) refl refl) (s.dest h refl)
        (clear file ends (codes " unattributed connection; blocked for every application") refl)
      ∙ apply-deny_host (load file) h dport (s.dest h refl)
  record_block-load none none dst dport s =
      load-target file ends (codes "deny-dest") (show_ip dst) dport
        (codes " unattributed, no hostname seen; blocked for every application")
        (key file ends (codes "deny-dest") (λ e. cc) refl refl) s.address
        (clear file ends (codes " unattributed, no hostname seen; blocked for every application")
          refl)
      ∙ apply-deny_dest (load file) dst dport s.address s.parsed

  -- Where the file ends in a whole line and can be written, and binary, name and address can be
  -- spelled in it, the file that `record` leaves is read back as exactly the policy that `record`
  -- keeps in memory, for every answer.
  pub record_decision-load :
      (ans : Answer) (exe : Option Str) (dst : IpAddr) (name : Option Str) (dport : ℕ)
      (origin : Origin)
      → IsStorable exe (named name) dst dport
      → load (record_decision (load file) true file ans exe dst name dport origin).1
        ≡ (record_decision (load file) true file ans exe dst name dport origin).0
  unfolding record_decision record_rule append_line all_clear is_white directive apply_directive
  record_decision-load allow_conn exe dst name dport origin s =
      record_allow-load exe (named name) dst dport origin s
  record_decision-load allow_app (some e) dst name dport origin s =
      let x = s.path e refl in
      load-bare file ends (codes "allow-app") e
        (key file ends (codes "allow-app") (λ e. cc) refl refl) x.trimmed x.no_hash x.no_break
  record_decision-load allow_app none dst name dport origin s = refl
  record_decision-load block exe dst name dport origin s =
      record_block-load exe (named name) dst dport s
  record_decision-load block_app (some e) dst name dport origin s =
      let x = s.path e refl in
      load-comment file ends (codes "deny-app") e (codes " every destination")
        (key file ends (codes "deny-app") (λ e. cc) refl refl) x.trimmed x.no_hash x.no_break
        (clear file ends (codes " every destination") refl)
  record_decision-load block_app none dst name dport origin s = refl
  record_decision-load timeout exe dst name dport origin s = refl
