-- ===== src/Policy/Decide.antt =====
-- src/policy.rs: the matching functions and `Policy::decide`.
pub mod Spec
use pfsnitch.Addr.{IpAddr, addr_eq}
use pfsnitch.Base.{
  ℕ, Bool, true, false, ◌&&◌, ◌||◌, List, [], ◌∷◌, Option, none, some, if◌then◌else◌, ◌==◌, nat_eq,
  list_eq, on_some, unwrap_or, any, contains,
}
use pfsnitch.Policy.{Policy, Verdict, allow, deny, ask, Target, DestTarget, HostFrom, DestFrom}
use pfsnitch.Text.{Str, codes, strip_prefix, ends_with, Unicode, to_lowercase}

-- The `match` of `pattern_matches` on the pattern without its "*.".
unfoldable pub suffix_matches : Option Str → Str → Bool
suffix_matches none host = false
suffix_matches (some suffix) host = host == suffix || ends_with (b'.' ∷ suffix) host

unfoldable pub pattern_matches : Str → Str → Bool
pattern_matches rule host =
    if rule == host then true else suffix_matches (strip_prefix (codes "*.") rule) host

unfoldable pub port_ok : Option ℕ → ℕ → Bool
port_ok none dport = true
port_ok (some p) dport = p == dport

unfoldable pub scoped_host_hit : List HostFrom → Str → Str → ℕ → Bool
scoped_host_hit set exe host dport =
    any (λ r. r.0 == exe && port_ok r.2 dport && pattern_matches r.1 host) set

unfoldable pub scoped_dest_hit : List DestFrom → Str → IpAddr → ℕ → Bool
scoped_dest_hit set exe dst dport = any (λ r. r.0 == exe && r.1 == dst && port_ok r.2 dport) set

unfoldable pub dest_matches : List DestTarget → IpAddr → ℕ → Bool
dest_matches set dst dport = any (λ r. r.0 == dst && port_ok r.1 dport) set

module _ ⦃u : Unicode⦄ where
  unfoldable pub host_matches : List Target → Str → ℕ → Bool
  host_matches set host dport =
      let h = to_lowercase host in any (λ r. port_ok r.1 dport && pattern_matches r.0 h) set

  -- The tests stand in the order of the source's returns; `on_some` is an `if let` round a test.
  unfoldable pub decide : Policy → Option Str → IpAddr → Option Str → ℕ → Verdict
  decide pol exe dst host dport =
      if on_some exe (λ e. scoped_dest_hit pol.deny_dest_from e dst dport)
      then deny
      else if on_some exe
          (λ e. on_some host (λ h. scoped_host_hit pol.deny_host_from e (to_lowercase h) dport))
      then deny
      else if on_some host (λ h. host_matches pol.deny_host h dport)
      then deny
      else if dest_matches pol.deny_dest dst dport
      then deny
      else if on_some exe (λ e. contains e pol.deny_app)
      then deny
      else if on_some exe (λ e. scoped_dest_hit pol.allow_dest_from e dst dport)
      then allow
      else if on_some exe
          (λ e. on_some host (λ h. scoped_host_hit pol.allow_host_from e (to_lowercase h) dport))
      then allow
      else if on_some exe (λ e. contains e pol.allow_app)
      then allow
      else if on_some host (λ h. host_matches pol.allow_host h dport)
      then allow
      else if dest_matches pol.allow_dest dst dport
      then allow
      else unwrap_or pol.default ask
