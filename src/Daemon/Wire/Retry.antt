-- ===== src/Daemon/Wire/Retry.antt =====
-- src/main.rs: an answer takes effect on the next try.
use pfsnitch.Addr.{addr_eq}
use pfsnitch.Base.{
  on_option, ℕ, Bool, true, false, ◌&&◌, ◌||◌, List, Option, none, some, ◌≡◌, refl, ◌∙◌, ap, arith,
  ◌==◌, nat_eq, list_eq, lookup, any, ◌⊎◌, if◌then◌else◌, pair_eq, remove, discard,
}
use pfsnitch.Daemon.Answers.{
  allows, resolve_all, resolve_waiting, pin, re_pin, write_rule, handle_answer,
}
use pfsnitch.Daemon.Packet.{handle_packet, judge, exe_of, flow_of}
use pfsnitch.Daemon.Wire.Verdicts.{enforced, handle_packet-judged, judge-unchanged}
use pfsnitch.Daemon.Wire.{on_wire}
use pfsnitch.Daemon.{World, Pending, Daemon, Outcome, key_of, on_kern, with_handle}
use pfsnitch.Divert.{ok, Flow, parse}
use pfsnitch.Dns.Cache.{name_for}
use pfsnitch.Identity.{hash}
use pfsnitch.Kernattr.{KernAttr, Ioctl}
use pfsnitch.Policy.Decide.Spec.{covers, denials, connection}
use pfsnitch.Policy.Decide.{decide}
use pfsnitch.Policy.Load.{File}
use pfsnitch.Policy.Record.Decisions.{decide-allow_conn, decide-block}
use pfsnitch.Policy.Record.{record_decision, record_id, forget_id}
use pfsnitch.Policy.{
  Policy, enforcement, Verdict, allow, deny, Answer, allow_conn, allow_app, block, block_app,
  timeout, approved,
}
use pfsnitch.Procinfo.{tuple_eq}
use pfsnitch.Text.{Str, Unicode}

-- What an answer leaves alone until it writes its rule: mode, names, cached verdicts, denials.
record Carries (d d' : Daemon) : Type 0 where
  same_mode : d'.mode ≡ d.mode
  same_names : d'.names ≡ d.names
  same_decided : d'.decided ≡ d.decided
  same_denials : denials d'.pol ≡ denials d.pol

Carries-trans : (d d' d'' : Daemon) → Carries d d' → Carries d' d'' → Carries d d''
Carries-trans d d' d'' p q = record {
  same_mode = q.same_mode ∙ p.same_mode;
  same_names = q.same_names ∙ p.same_names;
  same_decided = q.same_decided ∙ p.same_decided;
  same_denials = q.same_denials ∙ p.same_denials;
}

Carries-same :
    (d d' : Daemon)
    → d'.mode ≡ d.mode
    → d'.names ≡ d.names
    → d'.decided ≡ d.decided
    → denials d'.pol ≡ denials d.pol
    → Carries d d'
Carries-same d d' m n c s = record {
  same_mode = m;
  same_names = n;
  same_decided = c;
  same_denials = s;
}

with_handle-Carries :
    (f : KernAttr → KernAttr × List Ioctl) (k : Option KernAttr) (d : Daemon)
    → Carries d (with_handle f k d).0
unfolding with_handle
with_handle-Carries f none d = Carries-same d d refl refl refl refl
with_handle-Carries f (some h) d = Carries-same d _ refl refl refl refl

resolve_waiting-Carries :
    (w : World) (key : Str × Str) (a : Bool) (d : Daemon) → Carries d (resolve_waiting w key a d).0
unfolding resolve_waiting on_kern
resolve_waiting-Carries w key a d =
    let d' : Daemon = record d { pending_upcalls = remove key d.pending_upcalls } in
    on_option {C = Outcome} (λ o. Carries d o.0) (lookup key d.pending_upcalls) _ _
      (Carries-same d d refl refl refl refl)
      (λ ids.
        Carries-trans d d' _ (Carries-same d d' refl refl refl refl)
          (with_handle-Carries (resolve_all w.kernel a ids) d.kern d'))

record_id-denials :
    ⦃u : Unicode⦄ (p : Policy) (b : Bool) (file : File) (e sha : Str)
    → denials (record_id p b file e sha).0 ≡ denials p
unfolding record_id denials
record_id-denials p b file e sha = ground arith

module _ ⦃u : Unicode⦄ where
  re_pin-Carries :
      (w : World) (exe : Option Str) (a : Bool) (d : Daemon) → Carries d (re_pin w exe a d).0
  unfolding re_pin pin forget_id denials
  re_pin-Carries w none a d = Carries-same d d refl refl refl refl
  re_pin-Carries w (some e) false d = Carries-same d d refl refl refl refl
  re_pin-Carries w (some e) true d =
      on_option {C = Daemon × File} (λ r. Carries d r.0)
        (hash d.ident e (w.metadata e) (w.sha256 e)).0 _ _ (Carries-same d _ refl refl refl refl)
        (λ h.
          Carries-same d _ refl refl refl
            (record_id-denials (forget_id d.pol e) w.writable w.file e h))

  -- The state that the rule of an answer is written in.
  settled_state : World → Answer → Pending → Daemon → Daemon × File
  settled_state w ans p d =
      re_pin w p.exe (allows ans)
        (resolve_waiting w (key_of p) (allows ans)
          (record d { asking = discard (key_of p) d.asking })).0

  settled_state-Carries :
      (w : World) (ans : Answer) (p : Pending) (d : Daemon) → Carries d (settled_state w ans p d).0
  unfolding settled_state
  settled_state-Carries w ans p d =
      let d1 : Daemon = record d { asking = discard (key_of p) d.asking } in
      Carries-trans d d1 _ (Carries-same d d1 refl refl refl refl) (
        Carries-trans d1 _ _ (resolve_waiting-Carries w (key_of p) (allows ans) d1)
          (re_pin-Carries w p.exe (allows ans) _))

  answered : World → Answer → Pending → Daemon → Daemon
  answered w ans p d = (handle_answer w ans p d).0

  answered-Carries :
      (w : World) (ans : Answer) (p : Pending) (d : Daemon)
      → ((answered w ans p d).mode ≡ d.mode)
        × ((answered w ans p d).names ≡ d.names)
        × ((answered w ans p d).decided ≡ d.decided)
  unfolding answered handle_answer write_rule
  answered-Carries w ans p d =
      let c = settled_state-Carries w ans p d in
      unfold settled_state in (c.same_mode, c.same_names, c.same_decided)

  -- The policy that an answer leaves is what `record` makes of one with the same denials.
  answered-pol :
      (w : World) (ans : Answer) (p : Pending) (d : Daemon)
      → (answered w ans p d).pol
        ≡ (record_decision
            (settled_state w ans p d).0.pol
            w.writable
            (settled_state w ans p d).1
            ans
            p.exe
            p.dst
            p.host
            p.dport
            approved).0
  unfolding answered handle_answer write_rule settled_state
  answered-pol w ans p d = refl

  -- What an answer about one connection promises it, under the denials that stood before.
  unfoldable pub promised : Answer → Policy → Pending → Verdict
  promised allow_conn pol p =
      if any (covers (connection p.exe p.dst p.host p.dport)) (denials pol) then deny else allow
  promised _ pol p = deny

  decide-promised :
      (w : World) (ans : Answer) (p : Pending) (d : Daemon)
      → (ans ≡ allow_conn) ⊎ (ans ≡ block)
      → decide (answered w ans p d).pol p.exe p.dst p.host p.dport ≡ promised ans d.pol p
  unfolding promised
  decide-promised w allow_conn p d h =
      let s = settled_state w allow_conn p d in
      let c = settled_state-Carries w allow_conn p d in
      ap (λ q. decide q p.exe p.dst p.host p.dport) (answered-pol w allow_conn p d)
      ∙ decide-allow_conn s.0.pol w.writable s.1 p.dst p.host p.dport approved p.exe
      ∙ ap (λ l. if any (covers (connection p.exe p.dst p.host p.dport)) l then deny else allow)
          c.same_denials
  decide-promised w block p d h =
      let s = settled_state w block p d in
      ap (λ q. decide q p.exe p.dst p.host p.dport) (answered-pol w block p d)
      ∙ decide-block s.0.pol w.writable s.1 p.dst p.host p.dport approved p.exe
  decide-promised w allow_app p d h = absurd (ground (arith, h))
  decide-promised w block_app p d h = absurd (ground (arith, h))
  decide-promised w timeout p d h = absurd (ground (arith, h))

  -- An answer takes effect on the next try: in enforcement, after "allow connection" the packet that
  -- tries the connection again is put back, unless a denial that stood before covers it, and after
  -- "block" it is denied: a SYN gets the reset that `tcp_rst` builds for it, if it builds one, and
  -- nothing is sent for a UDP packet, which is dropped. The try is an outbound SYN or UDP packet that
  -- has no cached verdict and is no DNS answer; the daemon names the same binary for it, does not find
  -- it changed, and knows the same name.
  pub handle_packet-answered :
      (w w' : World) (ans : Answer) (p : Pending) (d : Daemon) (pkt : List ℕ) (f : Flow)
      → (ans ≡ allow_conn) ⊎ (ans ≡ block)
      → d.mode ≡ enforcement
      → parse pkt ≡ ok f
      → (f.proto == 17 && f.sport == 53) ≡ false
      → (f.syn_only || f.proto == 17) ≡ true
      → lookup (flow_of f) d.decided ≡ none
      → f.dst ≡ p.dst
      → f.dport ≡ p.dport
      → name_for d.names p.dst ≡ p.host
      → exe_of (judge w' (flow_of f) (handle_answer w ans p d).0).att ≡ p.exe
      → (judge w' (flow_of f) (handle_answer w ans p d).0).changed ≡ false
      → on_wire (handle_packet w' pkt 0 (handle_answer w ans p d).0).1
        ≡ enforced f pkt 0 (promised ans d.pol p)
  unfolding answered flow_of
  handle_packet-answered w w' ans p d pkt f h m e notdns attempt fresh dst dport host exe same =
      let d' = answered w ans p d in
      let (mode, names, decided) = answered-Carries w ans p d in
      handle_packet-judged w' pkt d' f (mode ∙ m) e notdns attempt
        (ap (λ c. lookup (flow_of f) c) decided ∙ fresh)
      ∙ ap (λ v. enforced f pkt 0 v)
          (judge-unchanged w' (flow_of f) d' same
            ∙ ap (λ x. decide d'.pol x f.dst (name_for d'.names f.dst) f.dport) exe
            ∙ ap (λ x. decide d'.pol p.exe x (name_for d'.names x) f.dport) dst
            ∙ ap (λ x. decide d'.pol p.exe p.dst (name_for d'.names p.dst) x) dport
            ∙ ap (λ x. decide d'.pol p.exe p.dst x p.dport)
                (ap (λ n. name_for n p.dst) names ∙ host)
            ∙ decide-promised w ans p d h)
