-- ===== src/Daemon/Wire/Verdicts.antt =====
-- src/main.rs: in enforcement the rules decide what reaches the network.
use pfsnitch.Daemon.Wire.Off.{off-append, carry_out-IsOff}
use pfsnitch.Addr.{IpAddr}
use pfsnitch.Base.{
  on_bool, on_option, ℕ, Bool, true, false, ◌&&◌, ◌||◌, List, [], ◌∷◌, ◌++◌, Option, none, some,
  ◌≡◌, refl, sym, ◌∙◌, ap, ◌==◌, nat_eq, list_eq, lookup, any, Bool-cases, inl, inr, if◌then◌else◌,
  unwrap_or, pair_eq,
}
use pfsnitch.Daemon.Packet.{
  reset, deliver, judge, carry_out, fresh_flow, fresh_allow, rejects, outbound, handle_flow,
  handle_packet, flow_of, exe_of, attribute, attribute_by, scanned, check_exe,
}
use pfsnitch.Daemon.Run.Handlers.{on_parsed}
use pfsnitch.Daemon.Wire.{on_wire}
use pfsnitch.Daemon.{World, Daemon, Effect, reinject, check_binary, changed_from, verdict_on}
use pfsnitch.Divert.Rst.Protocol.{tcp_rst-other}
use pfsnitch.Divert.Rst.{tcp_rst}
use pfsnitch.Divert.{ok, Flow, parse}
use pfsnitch.Dns.Cache.{name_for}
use pfsnitch.Identity.{hash}
use pfsnitch.Kernattr.Calls.{query}
use pfsnitch.Kernattr.{KernAttr}
use pfsnitch.Policy.Decide.Spec.{covers, denials, approvals, connection, decide-deny_overrides}
use pfsnitch.Policy.Decide.{decide}
use pfsnitch.Policy.Record.{expected_id}
use pfsnitch.Policy.{Policy, Mode, enforcement, enforcing, Verdict, allow, deny, ask}
use pfsnitch.Procinfo.{Tuple, tuple_eq}
use pfsnitch.Text.{Str, Unicode}

-- What a verdict that is enforced does to the network: the packet is put back, reset, or held.
unfoldable delivered : List ℕ → ℕ → Verdict → List Effect
delivered pkt from allow = reinject pkt from ∷ []
delivered pkt from deny = reset pkt
delivered pkt from ask = []

-- The same by the flow of the packet. An allowed packet is put back. A denied one of TCP gets the
-- reset that `tcp_rst` builds for it, if it builds one; a denied one of UDP is dropped without a
-- word. One that is open is held without a word.
unfoldable pub enforced : Flow → List ℕ → ℕ → Verdict → List Effect
enforced f pkt from allow = reinject pkt from ∷ []
enforced f pkt from deny = if f.proto == 6 then reset pkt else []
enforced f pkt from ask = []

reset-other : (pkt : List ℕ) (f : Flow) → parse pkt ≡ ok f → (f.proto == 6) ≡ false → reset pkt ≡ []
unfolding reset
reset-other pkt f e other = rw (tcp_rst-other pkt f e other, reset) refl

delivered-enforced :
    (pkt : List ℕ) (from : ℕ) (f : Flow) (v : Verdict)
    → parse pkt ≡ ok f
    → delivered pkt from v ≡ enforced f pkt from v
unfolding delivered enforced
delivered-enforced pkt from f allow e = refl
delivered-enforced pkt from f ask e = refl
delivered-enforced pkt from f deny e = elim (Bool-cases (f.proto == 6)) [
  | inl tcp ↦ rw tcp refl
  | inr other ↦ rw other (reset-other pkt f e other)
]

on_wire-reset : (pkt : List ℕ) → on_wire (reset pkt ++ []) ≡ reset pkt
unfolding reset on_wire
on_wire-reset pkt =
    on_parsed (λ es. on_wire (es ++ []) ≡ es) (tcp_rst pkt) _ _ _ (λ r. refl) refl refl

deliver-delivered :
    (m : Mode) (pkt : List ℕ) (from : ℕ) (v : Verdict)
    → enforcing m ≡ true
    → on_wire (deliver m pkt from (fresh_allow m v) (rejects v)) ≡ delivered pkt from v
unfolding deliver delivered fresh_allow rejects on_wire
deliver-delivered m pkt from allow h = rw (h, deliver, fresh_allow) refl
deliver-delivered m pkt from deny h = rw (h, deliver, fresh_allow) (on_wire-reset pkt)
deliver-delivered m pkt from ask h = rw (h, deliver, fresh_allow) refl

module _ ⦃u : Unicode⦄ where
  -- Looking up the owner and the hash leaves the policy and the names alone.
  abbrev Knows {ℓ} : {A : Type ℓ} → Daemon → A × Daemon → Type 0
  Knows d r = (r.1.pol ≡ d.pol) × (r.1.names ≡ d.names)

  attribute_by-Knows :
      (w : World) (t : Tuple) (k : Option KernAttr) (d : Daemon) → Knows d (attribute_by w t k d)
  unfolding attribute_by scanned
  attribute_by-Knows w t none d = (refl, refl)
  attribute_by-Knows w t (some h) d =
      on_option (Knows d) (query w.kernel t h).0 _ _ (refl, refl) (λ a. (refl, refl))

  check_exe-Knows : (w : World) (exe : Option Str) (d : Daemon) → Knows d (check_exe w exe d)
  unfolding check_exe check_binary changed_from
  check_exe-Knows w none d = (refl, refl)
  check_exe-Knows w (some e) d =
      on_option (Knows d) (expected_id d.pol e) _ _ (refl, refl)
        (λ x.
          on_option (Knows d) (hash d.ident e (w.metadata e) (w.sha256 e)).0 _ _ (refl, refl)
            (λ h. on_bool (Knows d) (h == x) _ _ (refl, refl) (refl, refl)))

  judge-Knows :
      (w : World) (t : Tuple) (d : Daemon) → Knows d ((judge w t d).changed, (judge w t d).after)
  unfolding judge attribute
  judge-Knows w t d =
      let (p, n) = attribute_by-Knows w t d.kern d in
      let (p', n') =
        check_exe-Knows w (exe_of (attribute_by w t d.kern d).0) (attribute_by w t d.kern d).1 in
      (p' ∙ p, n' ∙ n)

  -- The verdict by the rules: a changed binary has none; a denial that covers the connection comes
  -- before an approval, and the default is last.
  unfoldable pub by_rules : Policy → Bool → Option Str → IpAddr → Option Str → ℕ → Verdict
  by_rules p changed exe dst name dport =
      let covered = any (covers (connection exe dst name dport)) in
      if changed
      then ask
      else if covered (denials p)
      then deny
      else if covered (approvals p)
      then allow
      else unwrap_or p.default ask

  verdict-by_rules :
      (d d' : Daemon) (c : Bool) (exe : Option Str) (dst : IpAddr) (dport : ℕ)
      → d'.pol ≡ d.pol
      → d'.names ≡ d.names
      → verdict_on d' c exe dst dport ≡ by_rules d.pol c exe dst (name_for d.names dst) dport
  unfolding verdict_on by_rules
  verdict-by_rules d d' c exe dst dport p n =
      ap (λ q. if c then ask else decide q exe dst (name_for d'.names dst) dport) p
      ∙ ap (λ m. if c then ask else decide d.pol exe dst (name_for m dst) dport) n
      ∙ ap (λ v. if c then ask else v)
          (decide-deny_overrides d.pol exe dst (name_for d.names dst) dport)

  pub judge-verdict :
      (w : World) (t : Tuple) (d : Daemon)
      → (judge w t d).verdict
        ≡ by_rules d.pol
            (judge w t d).changed
            (exe_of (judge w t d).att)
            t.dst
            (name_for d.names t.dst)
            t.dport
  judge-verdict w t d =
      let (p, n) = judge-Knows w t d in
      let j = judge w t d in
      let e : j.verdict ≡ verdict_on j.after j.changed (exe_of j.att) t.dst t.dport =
        unfold judge in refl in
      e ∙ verdict-by_rules d j.after j.changed (exe_of j.att) t.dst t.dport p n

  fresh_flow-delivered :
      (w : World) (pkt : List ℕ) (from : ℕ) (t : Tuple) (d : Daemon)
      → enforcing d.mode ≡ true
      → on_wire (fresh_flow w pkt from t d).1 ≡ delivered pkt from (judge w t d).verdict
  unfolding fresh_flow
  fresh_flow-delivered w pkt from t d h =
      let j = judge w t d in
      off-append (carry_out w t j).1 _ _ (carry_out-IsOff w t j)
        (deliver-delivered d.mode pkt from j.verdict h)

  outbound-fresh :
      (w : World) (pkt : List ℕ) (from : ℕ) (t : Tuple) (d : Daemon)
      → lookup t d.decided ≡ none
      → outbound w pkt from t d ≡ fresh_flow w pkt from t d
  unfolding outbound
  outbound-fresh w pkt from t d h = rw (h, outbound) refl

  handle_packet-outbound :
      (w : World) (pkt : List ℕ) (d : Daemon) (f : Flow)
      → parse pkt ≡ ok f
      → (f.proto == 17 && f.sport == 53) ≡ false
      → (f.syn_only || f.proto == 17) ≡ true
      → handle_packet w pkt 0 d ≡ outbound w pkt 0 (flow_of f) d
  unfolding handle_packet handle_flow
  handle_packet-outbound w pkt d f e notdns attempt =
      rw (e, handle_packet) (rw (notdns, handle_flow) (rw attempt refl))

  pub handle_packet-judged :
      (w : World) (pkt : List ℕ) (d : Daemon) (f : Flow)
      → d.mode ≡ enforcement
      → parse pkt ≡ ok f
      → (f.proto == 17 && f.sport == 53) ≡ false
      → (f.syn_only || f.proto == 17) ≡ true
      → lookup (flow_of f) d.decided ≡ none
      → on_wire (handle_packet w pkt 0 d).1 ≡ enforced f pkt 0 (judge w (flow_of f) d).verdict
  unfolding enforcing
  handle_packet-judged w pkt d f m e notdns attempt fresh =
      ap (λ o. on_wire o.1)
        (handle_packet-outbound w pkt d f e notdns attempt
          ∙ outbound-fresh w pkt 0 (flow_of f) d fresh)
      ∙ fresh_flow-delivered w pkt 0 (flow_of f) d (ap enforcing m)
      ∙ delivered-enforced pkt 0 f (judge w (flow_of f) d).verdict e

  pub judge-unchanged :
      (w : World) (t : Tuple) (d : Daemon)
      → (judge w t d).changed ≡ false
      → (judge w t d).verdict
        ≡ decide d.pol (exe_of (judge w t d).att) t.dst (name_for d.names t.dst) t.dport
  unfolding by_rules
  judge-unchanged w t d c =
      judge-verdict w t d
      ∙ rw c (
          sym (
            decide-deny_overrides d.pol (exe_of (judge w t d).att) t.dst (name_for d.names t.dst)
              t.dport))

  -- In enforcement the rules decide what becomes of a connection attempt that has no cached verdict,
  -- an outbound SYN or UDP packet that is no DNS answer, whatever the daemon's state is. It is put
  -- back if the rules allow it. If they deny it, a SYN gets the reset that `tcp_rst` builds for it, if
  -- it builds one, and nothing is sent for a UDP packet, which is dropped. If they leave it open, or if
  -- the binary is not the one that was approved, it is held without a word. A denial comes before an
  -- approval.
  pub handle_packet-enforced :
      (w : World) (pkt : List ℕ) (d : Daemon) (f : Flow)
      → d.mode ≡ enforcement
      → parse pkt ≡ ok f
      → (f.proto == 17 && f.sport == 53) ≡ false
      → (f.syn_only || f.proto == 17) ≡ true
      → lookup (flow_of f) d.decided ≡ none
      → on_wire (handle_packet w pkt 0 d).1
        ≡ enforced f pkt 0 (
            by_rules d.pol
              (judge w (flow_of f) d).changed
              (exe_of (judge w (flow_of f) d).att)
              f.dst
              (name_for d.names f.dst)
              f.dport)
  unfolding flow_of
  handle_packet-enforced w pkt d f m e notdns attempt fresh =
      handle_packet-judged w pkt d f m e notdns attempt fresh
      ∙ ap (λ v. enforced f pkt 0 v) (judge-verdict w (flow_of f) d)
