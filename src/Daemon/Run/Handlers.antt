-- ===== src/Daemon/Run/Handlers.antt =====
-- src/main.rs: every handler of `run` but the periodic work is quiet.
use pfsnitch.Base.{
  on_bool, on_option, ℕ, Bool, true, false, not, ◌&&◌, ◌||◌, List, [], ◌∷◌, Option, none, some, ◌≡◌,
  refl, sym, ◌∙◌, ap, arith, ◌==◌, length, ltb, lookup, put, is_some, nat_eq, list_eq, pair_eq,
}
use pfsnitch.Daemon.Packet.{
  check_exe, reset, deliver, scanned, attribute, attribute_by, room, push, settle, remember, learn,
  ask_or_learn, act_on, touched, note_contact, judge, Judged, carry_out, fresh_flow, fresh_allow,
  rejects, outbound, dns_answer, handle_flow, handle_packet, flow_of, exe_of,
}
use pfsnitch.Daemon.Run.Calm.{push_verdict-IsCalm, query-dead}
use pfsnitch.Daemon.Run.Quiet.{
  Silent, was_alive, asked_upcall-append, Quiet, Still, Quiet-refl, Quiet-same, Quiet-then,
  Quiet-after, on_kern-Quiet, raise_prompt-Quiet, check_binary-Quiet, udp_diverted-append,
}
use pfsnitch.Daemon.Run.{udp_diverted, asked_upcall, is_alive, is_ask}
use pfsnitch.Daemon.{World, Daemon, reinject}
use pfsnitch.Divert.Rst.{tcp_rst}
use pfsnitch.Divert.{Parsed, ok, refused, panic, parse, payload_offset}
use pfsnitch.Addr.{IpAddr}
use pfsnitch.Kernattr.Calls.{query}
use pfsnitch.Kernattr.{KernAttr}
use pfsnitch.Policy.{Mode, enforcing, Verdict, allow, deny, ask}
use pfsnitch.Procinfo.{Tuple, tuple_eq, Attribution}
use pfsnitch.Text.{Str, Unicode}
use pfsnitch.Daemon.Run.Settled.{room-IsCache}

pub on_parsed {ℓ κ ι} :
    {A : Type ℓ} {C : Type κ} (P : C → Type ι) (o : Parsed A) (f : A → C) (r c : C)
    → ((x : A) → P (f x))
    → P r
    → P c
    → P (elim o [ ok x ↦ f x | refused ↦ r | panic ↦ c ])
on_parsed P (ok x) f r c p q s = p x
on_parsed P refused f r c p q s = q
on_parsed P panic f r c p q s = s

reset-Silent : (pkt : List ℕ) → Silent (reset pkt)
unfolding reset udp_diverted asked_upcall
reset-Silent pkt =
    on_parsed Silent (tcp_rst pkt) _ _ _ (λ rst b. (refl, refl)) (λ b. (refl, refl))
      (λ b. (refl, refl))

deliver-Silent :
    (mode : Mode) (pkt : List ℕ) (from : ℕ) (a r : Bool) → Silent (deliver mode pkt from a r)
unfolding deliver udp_diverted asked_upcall
deliver-Silent mode pkt from a r b = (
  ground (
    arith,
    (reset-Silent pkt b).0,
    udp_diverted-append b (reset pkt) [],
    udp_diverted-append b (reset pkt) (reinject pkt from ∷ []),
  ),
  ground (
    arith,
    (reset-Silent pkt b).1,
    asked_upcall-append b (reset pkt) [],
    asked_upcall-append b (reset pkt) (reinject pkt from ∷ []),
  ),
)

deliver-Quiet :
    (d : Daemon) (mode : Mode) (pkt : List ℕ) (from : ℕ) (a r : Bool)
    → Quiet d (d, deliver mode pkt from a r)
deliver-Quiet d mode pkt from a r =
    Quiet-same d d _ refl refl refl refl refl refl (deliver-Silent mode pkt from a r)

push-Quiet :
    (w : World) (t : Tuple) (exe : Option Str) (a : Bool) (d : Daemon) → Quiet d (push w t exe a d)
unfolding push
push-Quiet w t none a d = Quiet-refl d
push-Quiet w t (some path) a d =
    on_kern-Quiet _ d (push_verdict-IsCalm w.kernel t.proto t.dst t.dport path a)

settle-Quiet :
    (w : World) (t : Tuple) (exe : Option Str) (v : Verdict) (a : Bool) (d : Daemon)
    → is_ask v ≡ false
    → Quiet d (settle w t exe v a d)
unfolding settle udp_diverted asked_upcall
settle-Quiet w t exe v a d k =
    let d' : Daemon = record d { decided = put t v (room d.decided) } in
    let kept : Quiet d (d', []) = record {
      hushed = record {
        same_mode = refl;
        same_upcall = refl;
        same_kern = refl;
        no_divert = λ b. refl;
        keeps = room-IsCache t v d.decided k;
        waits = λ h. h;
      };
      same_asked = λ b. refl;
      sticks = λ h. h;
    } in
    on_bool (Quiet d) (enforcing d.mode) _ _ (Quiet-after d d' _ kept (push-Quiet w t exe a d'))
      kept

pub remember-Quiet :
    (w : World) (t : Tuple) (exe : Option Str) (v : Verdict) (d : Daemon)
    → Quiet d (remember w t exe v d)
unfolding remember is_ask
remember-Quiet w t exe allow d = settle-Quiet w t exe allow true d refl
remember-Quiet w t exe deny d = settle-Quiet w t exe deny false d refl
remember-Quiet w t exe ask d = Quiet-refl d

module _ ⦃u : Unicode⦄ where
  check_exe-Quiet : (w : World) (exe : Option Str) (d : Daemon) → Still d (check_exe w exe d)
  unfolding check_exe
  check_exe-Quiet w none d = Quiet-refl d
  check_exe-Quiet w (some e) d = check_binary-Quiet w e d

  scanned-Quiet : (w : World) (t : Tuple) (d : Daemon) → Still d (scanned w t d)
  unfolding scanned udp_diverted asked_upcall
  scanned-Quiet w t d = Quiet-same d _ _ refl refl refl refl refl refl (λ b. (refl, refl))

  attribute_by-Quiet :
      (w : World) (t : Tuple) (k : Option KernAttr) (d : Daemon)
      → d.kern ≡ k
      → Still d (attribute_by w t k d)
  unfolding attribute_by udp_diverted asked_upcall
  attribute_by-Quiet w t none d e = scanned-Quiet w t d
  attribute_by-Quiet w t (some h) d e =
      let d' : Daemon = record d { kern = some (query w.kernel t h).1 } in
      let kept : Quiet d (d', []) = record {
        hushed = record {
          same_mode = refl;
          same_upcall = refl;
          same_kern = sym (ap is_some e);
          no_divert = λ b. refl;
          keeps = λ c. c;
          waits = λ a. a;
        };
        same_asked = λ b. refl;
        sticks = λ alive.
            ap is_alive e
            ∙ was_alive h.dead (query w.kernel t h).1.dead (query-dead w.kernel t h) alive;
      } in
      on_option (Still d) (query w.kernel t h).0 _ _
        (Quiet-after d d' _ kept (scanned-Quiet w t d')) (λ a. kept)

  pub judge-Quiet : (w : World) (t : Tuple) (d : Daemon) → Quiet d ((judge w t d).after, [])
  unfolding judge attribute
  judge-Quiet w t d =
      Quiet-after d _ _ (attribute_by-Quiet w t d.kern d refl) (check_exe-Quiet w _ _)

  learn-Quiet : (w : World) (t : Tuple) (exe : Option Str) (d : Daemon) → Quiet d (learn w t exe d)
  unfolding learn udp_diverted asked_upcall
  learn-Quiet w t exe d = Quiet-same d _ _ refl refl refl refl refl refl (λ b. (refl, refl))

  pub act_on-Quiet :
      (w : World) (t : Tuple) (att : Option Attribution) (c : Bool) (v : Verdict) (d : Daemon)
      → Quiet d (act_on w t att c v d)
  unfolding act_on ask_or_learn
  act_on-Quiet w t att c allow d = Quiet-refl d
  act_on-Quiet w t att c deny d = Quiet-refl d
  act_on-Quiet w t att c ask d =
      on_bool (Quiet d) (enforcing d.mode) _ _ (raise_prompt-Quiet _ d)
        (learn-Quiet w t (exe_of att) d)

  touched-Quiet :
      (w : World) (exe : Option Str) (dst : IpAddr) (d : Daemon) → Quiet d (touched w exe dst d, [])
  unfolding touched udp_diverted asked_upcall
  touched-Quiet w none dst d = Quiet-same d _ _ refl refl refl refl refl refl (λ b. (refl, refl))
  touched-Quiet w (some e) dst d =
      Quiet-same d _ _ refl refl refl refl refl refl (λ b. (refl, refl))

  note_contact-Quiet :
      (w : World) (t : Tuple) (exe : Option Str) (d : Daemon) → Quiet d (note_contact w t exe d)
  unfolding note_contact udp_diverted asked_upcall
  note_contact-Quiet w t exe d =
      let d' = touched w exe t.dst d in
      Quiet-after d d' _ (touched-Quiet w exe t.dst d)
        (Quiet-same d' _ _ refl refl refl refl refl refl (λ b. (refl, refl)))

  pub carry_out-Quiet : (w : World) (t : Tuple) (j : Judged) → Quiet j.after (carry_out w t j)
  unfolding carry_out
  carry_out-Quiet w t j =
      Quiet-then j.after _ (note_contact w t (exe_of j.att))
        (Quiet-then j.after _ (remember w t (exe_of j.att) j.verdict)
          (act_on-Quiet w t j.att j.changed j.verdict j.after)
          (remember-Quiet w t (exe_of j.att) j.verdict _))
        (note_contact-Quiet w t (exe_of j.att) _)

  outbound-Quiet :
      (w : World) (pkt : List ℕ) (from : ℕ) (t : Tuple) (d : Daemon)
      → Quiet d (outbound w pkt from t d)
  unfolding outbound fresh_flow
  outbound-Quiet w pkt from t d =
      on_option (Quiet d) (lookup t d.decided) _ _
        (let j = judge w t d in
          Quiet-then d (carry_out w t j)
            (λ d'. (d', deliver d.mode pkt from (fresh_allow d.mode j.verdict) (rejects j.verdict)))
            (Quiet-after d j.after (carry_out w t j) (judge-Quiet w t d) (carry_out-Quiet w t j))
            (deliver-Quiet _ d.mode pkt from _ _))
        (λ v. deliver-Quiet d d.mode pkt from _ _)

  reinject-Quiet : (d : Daemon) (pkt : List ℕ) (from : ℕ) → Quiet d (d, reinject pkt from ∷ [])
  unfolding udp_diverted asked_upcall
  reinject-Quiet d pkt from = Quiet-same d d _ refl refl refl refl refl refl (λ b. (refl, refl))

  dns_answer-Quiet :
      (w : World) (pkt : List ℕ) (from : ℕ) (d : Daemon) → Quiet d (dns_answer w pkt from d)
  unfolding dns_answer udp_diverted asked_upcall
  dns_answer-Quiet w pkt from d =
      on_parsed (Quiet d) (payload_offset pkt) _ _ _
        (λ off.
          on_bool (λ x. Quiet d (x, reinject pkt from ∷ [])) (ltb off (length pkt)) _ _
            (Quiet-same d _ _ refl refl refl refl refl refl (λ b. (refl, refl)))
            (reinject-Quiet d pkt from))
        (reinject-Quiet d pkt from)
        (Quiet-same d _ _ refl refl refl refl refl refl (λ b. (refl, refl)))

  pub handle_packet-Quiet :
      (w : World) (pkt : List ℕ) (from : ℕ) (d : Daemon) → Quiet d (handle_packet w pkt from d)
  unfolding handle_packet handle_flow udp_diverted asked_upcall
  handle_packet-Quiet w pkt from d =
      on_parsed (Quiet d) (parse pkt) _ _ _
        (λ f.
          on_bool (Quiet d) (f.proto == 17 && f.sport == 53) _ _ (dns_answer-Quiet w pkt from d) (
            on_bool (Quiet d) (not (from == 0)) _ _ (reinject-Quiet d pkt from) (
              on_bool (Quiet d) (f.syn_only || f.proto == 17) _ _
                (outbound-Quiet w pkt from (flow_of f) d)
                (deliver-Quiet d d.mode pkt from true false))))
        (deliver-Quiet d d.mode pkt from true false)
        (Quiet-same d _ _ refl refl refl refl refl refl (λ b. (refl, refl)))
