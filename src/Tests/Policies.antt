-- ===== src/Tests/Policies.antt =====
-- Decisions and answers on a small policy.
use pfsnitch.Addr.{IpAddr, v4, addr_eq}
use pfsnitch.Base.{true, [], ◌∷◌, none, some, ◌≡◌, arith, any}
use pfsnitch.Policy.Decide.Spec.{decide-deny_overrides, covers, scope_covers, denials, approvals}
use pfsnitch.Policy.Decide.{decide, port_ok}
use pfsnitch.Policy.Record.Decisions.{
  decide-allow_conn, decide-block, decide-other_binary, decide-other_port,
}
use pfsnitch.Policy.Record.Effect.{record_decision-Extends, Extends, new_approval, new_denial}
use pfsnitch.Policy.Record.{record_decision}
use pfsnitch.Policy.{Policy, initial, allow, deny, allow_conn, block, block_app, approved}
use pfsnitch.Tests.{ascii}
use pfsnitch.Text.{Str, codes}

abbrev browser : Str
browser = codes "/usr/local/bin/browser"

abbrev player : Str
player = codes "/usr/local/bin/player"

abbrev site : IpAddr
site = v4 (203 ∷ 0 ∷ 113 ∷ 9 ∷ [])

-- The browser may connect anywhere, but nothing may reach the site's port 443.
abbrev policy : Policy
policy = record initial { allow_app = browser ∷ []; deny_dest = (site, some 443) ∷ [] }

decide-deny_overrides_example : decide policy (some browser) site none 443 ≡ deny
unfolding any covers scope_covers denials approvals port_ok
decide-deny_overrides_example = decide-deny_overrides policy (some browser) site none 443

decide-allow_conn_example :
    decide
      (record_decision policy true none allow_conn (some player) site none 80 approved).0
      (some player)
      site
      none
      80
    ≡ allow
unfolding any covers scope_covers denials approvals port_ok
decide-allow_conn_example = decide-allow_conn policy true none site none 80 approved (some player)

decide-block_example :
    decide
      (record_decision policy true none block (some browser) site none 80 approved).0
      (some browser)
      site
      none
      80
    ≡ deny
decide-block_example = decide-block policy true none site none 80 approved (some browser)

decide-other_binary_example :
    decide
      (record_decision policy true none block_app (some player) site none 80 approved).0
      (some browser)
      site
      none
      22
    ≡ decide policy (some browser) site none 22
decide-other_binary_example =
    decide-other_binary policy true none block_app player site none 80 approved (some browser) site
      none 22 (λ e. ground (arith, e))

decide-other_port_example :
    decide
      (record_decision policy true none block (some browser) site none 80 approved).0
      (some browser)
      site
      none
      22
    ≡ decide policy (some browser) site none 22
decide-other_port_example =
    decide-other_port policy true none block (some browser) site none 80 approved (some browser)
      site none 22 (λ e. cc) (λ e. cc) (λ e. omega (arith, e))

record_decision-Extends_example :
    Extends policy
      (record_decision policy true none block (some browser) site none 80 approved).0
      (new_approval block (some browser) none site 80)
      (new_denial block (some browser) none site 80)
record_decision-Extends_example =
    record_decision-Extends policy true none block (some browser) site none 80 approved
