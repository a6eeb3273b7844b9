-- ===== src/Daemon/Wire/Visibility.antt =====
-- src/main.rs: visibility never drops.
use pfsnitch.Base.{
  on_bool, on_option, ℕ, Bool, true, false, not, ◌&&◌, ◌||◌, List, [], ◌∷◌, ◌++◌, Option, ◌≡◌, refl,
  ◌∙◌, ap, arith, ◌==◌, nat_eq, lookup,
}
use pfsnitch.Daemon.Packet.{
  deliver, settle, remember, learn, ask_or_learn, act_on, note_contact, judge, Judged, carry_out,
  fresh_flow, fresh_allow, rejects, outbound, dns_answer, handle_flow, handle_packet, flow_of,
  exe_of,
}
use pfsnitch.Daemon.Run.Handlers.{act_on-Quiet, judge-Quiet}
use pfsnitch.Daemon.Wire.{outward, outward-append}
use pfsnitch.Daemon.{World, Daemon, Outcome, Effect, reinject}
use pfsnitch.Divert.Safe.{parse-ne-panic, payload_offset-ne-panic}
use pfsnitch.Divert.{Parsed, ok, refused, panic, parse, payload_offset}
use pfsnitch.Policy.{Mode, visibility, enforcing, Verdict, allow, deny, ask}
use pfsnitch.Procinfo.{Tuple, tuple_eq, Attribution}
use pfsnitch.Text.{Str, Unicode}

-- The cases of a result that is no panic.
pub on_total {ℓ κ ι} :
    {A : Type ℓ} {C : Type κ} (P : C → Type ι) (o : Parsed A) (f : A → C) (r c : C)
    → ¬ (o ≡ panic)
    → ((x : A) → P (f x))
    → P r
    → P (elim o [ ok x ↦ f x | refused ↦ r | panic ↦ c ])
on_total P (ok x) f r c n p q = p x
on_total P refused f r c n p q = q
on_total P panic f r c n p q = absurd (n refl)

deliver-visible :
    (m : Mode) (pkt : List ℕ) (from : ℕ) (a r : Bool)
    → enforcing m ≡ false
    → outward (deliver m pkt from a r) ≡ reinject pkt from ∷ []
unfolding deliver outward
deliver-visible m pkt from a r h = ground (arith, h)

silent-append :
    (xs ys zs : List Effect) → outward xs ≡ [] → outward ys ≡ zs → outward (xs ++ ys) ≡ zs
silent-append xs ys zs h k = outward-append xs ys ∙ rw (h, k) refl

-- A step that does nothing outside but write files.
abbrev IsSilent : Outcome → Type 0
IsSilent o = outward o.1 ≡ []

settle-IsSilent :
    (w : World) (t : Tuple) (exe : Option Str) (v : Verdict) (a : Bool) (d : Daemon)
    → enforcing d.mode ≡ false
    → IsSilent (settle w t exe v a d)
unfolding settle outward
settle-IsSilent w t exe v a d h = ground (arith, h)

remember-IsSilent :
    (w : World) (t : Tuple) (exe : Option Str) (v : Verdict) (d : Daemon)
    → enforcing d.mode ≡ false
    → IsSilent (remember w t exe v d)
unfolding remember outward
remember-IsSilent w t exe allow d h = settle-IsSilent w t exe allow true d h
remember-IsSilent w t exe deny d h = settle-IsSilent w t exe deny false d h
remember-IsSilent w t exe ask d h = refl

module _ ⦃u : Unicode⦄ where
  act_on-IsSilent :
      (w : World) (t : Tuple) (att : Option Attribution) (c : Bool) (v : Verdict) (d : Daemon)
      → enforcing d.mode ≡ false
      → IsSilent (act_on w t att c v d)
  unfolding act_on ask_or_learn learn outward
  act_on-IsSilent w t att c allow d h = refl
  act_on-IsSilent w t att c deny d h = refl
  act_on-IsSilent w t att c ask d h = rw h refl

  carry_out-IsSilent :
      (w : World) (t : Tuple) (j : Judged)
      → enforcing j.after.mode ≡ false
      → IsSilent (carry_out w t j)
  unfolding carry_out note_contact outward
  carry_out-IsSilent w t j h =
      let o = act_on w t j.att j.changed j.verdict j.after in
      let q = act_on-Quiet w t j.att j.changed j.verdict j.after in
      let r = remember w t (exe_of j.att) j.verdict o.0 in
      silent-append (o.1 ++ r.1) [] []
        (silent-append o.1 r.1 [] (act_on-IsSilent w t j.att j.changed j.verdict j.after h) (
          remember-IsSilent w t (exe_of j.att) j.verdict o.0 (ap enforcing q.hushed.same_mode ∙ h)))
        refl

  fresh_flow-visible :
      (w : World) (pkt : List ℕ) (from : ℕ) (t : Tuple) (d : Daemon)
      → enforcing d.mode ≡ false
      → outward (fresh_flow w pkt from t d).1 ≡ reinject pkt from ∷ []
  unfolding fresh_flow
  fresh_flow-visible w pkt from t d h =
      let j = judge w t d in
      let q = judge-Quiet w t d in
      silent-append (carry_out w t j).1 _ _
        (carry_out-IsSilent w t j (ap enforcing q.hushed.same_mode ∙ h))
        (deliver-visible d.mode pkt from (fresh_allow d.mode j.verdict) (rejects j.verdict) h)

  -- The outcome is that the packet goes back, and nothing else but files.
  abbrev PutsBack : List ℕ → ℕ → Outcome → Type 0
  PutsBack pkt from o = outward o.1 ≡ reinject pkt from ∷ []

  dns_answer-PutsBack :
      (w : World) (pkt : List ℕ) (from : ℕ) (d : Daemon)
      → PutsBack pkt from (dns_answer w pkt from d)
  unfolding dns_answer outward
  dns_answer-PutsBack w pkt from d =
      on_total (PutsBack pkt from) (payload_offset pkt) _ _ _ (payload_offset-ne-panic pkt)
        (λ off. refl) refl

  -- Visibility never drops and never asks: for every packet, in every state of the daemon whose mode
  -- is visibility, exactly one thing is done to the network, the user and the kernel besides the
  -- queries for the owner, and that is to put the packet back as it came. No reset, no prompt, no
  -- verdict for the kernel, no crash.
  pub handle_packet-visibility :
      (w : World) (pkt : List ℕ) (from : ℕ) (d : Daemon)
      → d.mode ≡ visibility
      → outward (handle_packet w pkt from d).1 ≡ reinject pkt from ∷ []
  unfolding handle_packet handle_flow outbound outward enforcing
  handle_packet-visibility w pkt from d m =
      let h : enforcing d.mode ≡ false = ap enforcing m in
      on_total (PutsBack pkt from) (parse pkt) _ _ _ (parse-ne-panic pkt)
        (λ f.
          on_bool (PutsBack pkt from) (f.proto == 17 && f.sport == 53) _ _
            (dns_answer-PutsBack w pkt from d)
            (on_bool (PutsBack pkt from) (not (from == 0)) _ _ refl (
              on_bool (PutsBack pkt from) (f.syn_only || f.proto == 17) _ _
                (on_option (PutsBack pkt from) (lookup (flow_of f) d.decided) _ _
                  (fresh_flow-visible w pkt from (flow_of f) d h)
                  (λ v. deliver-visible d.mode pkt from _ _ h))
                (deliver-visible d.mode pkt from true false h))))
        (deliver-visible d.mode pkt from true false h)
