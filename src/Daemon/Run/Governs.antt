-- ===== src/Daemon/Run/Governs.antt =====
-- src/main.rs: the periodic work keeps UDP diverted while the upcall is off.
use pfsnitch.Base.{
  on_bool, on_test, ℕ, ◌-◌, Bool, true, false, not, ◌&&◌, ◌||◌, List, [], Option, none, some, ◌≡◌,
  refl, sym, ◌∙◌, ap, arith, if◌then◌else◌, any, length, ltb, leb, lookup, is_some, nat_eq, list_eq,
  pair_eq, option_eq,
}
use pfsnitch.Daemon.Run.Quiet.{
  Hushed, Quiet, Quiet-refl, Quiet-same, on_kern-Hushed, udp_diverted-append, udp_diverted-ioctls,
}
use pfsnitch.Daemon.Run.{udp_diverted, asked_upcall, IsCache, IsAsked}
use pfsnitch.Daemon.Tick.{
  flush_seen, clear_log, reopen, check_kern, upcall_off, switch_backend, forget_verdicts,
  upcall_on_now, want_upcall, reconcile, log_interval, log_capacity, note_off, note_on,
  take_backend,
}
use pfsnitch.Daemon.{
  Key, World, Daemon, Outcome, ◌▸◌, Effect, on_kern, open_kern, kern_backend, is_kernel,
}
use pfsnitch.Kernattr.Calls.{set_upcall, flush_verdicts}
use pfsnitch.Kernattr.{KernAttr, opened}
use pfsnitch.Policy.{Policy, attribution_of}

-- A step after which UDP is diverted exactly while the upcall is off, if it was so before.
pub record Governs (d : Daemon) (o : Outcome) : Type 0 where
  pub governed : udp_diverted (not d.upcall_on) o.1 ≡ not o.0.upcall_on
  pub keeps : IsCache d.decided → IsCache o.0.decided
  pub waits : IsAsked d → IsAsked o.0

pub Hushed-Governs : (d : Daemon) (o : Outcome) → Hushed d o → Governs d o
Hushed-Governs d o q = record {
  governed = q.no_divert (not d.upcall_on) ∙ ap (λ b. not b) (sym q.same_upcall);
  keeps = q.keeps;
  waits = q.waits;
}

pub Quiet-Governs : (d : Daemon) (o : Outcome) → Quiet d o → Governs d o
Quiet-Governs d o q = Hushed-Governs d o q.hushed

pub Governs-then :
    (d : Daemon) (o : Outcome) (f : Daemon → Outcome)
    → Governs d o
    → Governs o.0 (f o.0)
    → Governs d (o ▸ f)
Governs-then d o f p q = record {
  governed =
      udp_diverted-append (not d.upcall_on) o.1 (f o.0).1
      ∙ (ap (λ b. udp_diverted b (f o.0).1) p.governed ∙ q.governed);
  keeps = λ c. q.keeps (p.keeps c);
  waits = λ h. q.waits (p.waits h);
}

pub Governs-same :
    (d d' : Daemon) (es : List Effect)
    → d'.upcall_on ≡ d.upcall_on
    → IsCache d'.decided ≡ IsCache d.decided
    → (IsAsked d → IsAsked d')
    → ((b : Bool) → udp_diverted b es ≡ b)
    → Governs d (d', es)
Governs-same d d' es up c a n = record {
  governed = n (not d.upcall_on) ∙ ap (λ b. not b) (sym up);
  keeps = λ h. rw c h;
  waits = a;
}

open_kern-NoDivert : (w : World) (b : Bool) → udp_diverted b (open_kern w).1 ≡ b
unfolding open_kern udp_diverted asked_upcall
open_kern-NoDivert w b =
    on_bool {C = Option KernAttr × List Effect} (λ r. udp_diverted b r.1 ≡ b) w.device _ _
      (udp_diverted-ioctls b (flush_verdicts w.kernel opened).1) refl

pub kern_backend-NoDivert :
    (w : World) (p : Policy) (b : Bool) → udp_diverted b (kern_backend w p).1 ≡ b
unfolding kern_backend udp_diverted asked_upcall
kern_backend-NoDivert w p b =
    on_bool {C = Option KernAttr × List Effect} (λ r. udp_diverted b r.1 ≡ b)
      (is_kernel (attribution_of p)) _ _ (open_kern-NoDivert w b) refl

reopen-Governs : (w : World) (k : Option KernAttr) (d : Daemon) → Governs d (reopen w k d)
unfolding reopen udp_diverted asked_upcall
reopen-Governs w none d = Governs-same d _ _ refl refl (λ h. h) (open_kern-NoDivert w)
reopen-Governs w (some h) d =
    on_bool (Governs d) h.dead _ _ (Governs-same d _ _ refl refl (λ h. h) (λ b. refl))
      (Governs-same d _ _ refl refl (λ h. h) (λ b. refl))

pub check_kern-Governs : (w : World) (d : Daemon) → Governs d (check_kern w d)
unfolding check_kern udp_diverted asked_upcall
check_kern-Governs w d =
    on_bool (Governs d) (is_kernel (attribution_of d.pol)) _ _ (reopen-Governs w d.kern d)
      (Governs-same d _ _ refl refl (λ h. h) (λ b. refl))

pub no_waiting : (k : Key) → ¬ (is_some (lookup {K = Key} {V = List ℕ} k []) ≡ true)
unfolding lookup
no_waiting k = λ e. cc

upcall_off-Governs : (w : World) (d : Daemon) → Governs d (upcall_off w d)
unfolding upcall_off note_off udp_diverted asked_upcall
upcall_off-Governs w d =
    Governs-then d (on_kern (set_upcall w.kernel false) d) note_off
      (Hushed-Governs d _ (on_kern-Hushed _ d))
      (record { governed = refl; keeps = λ c. c; waits = λ h k l. absurd (no_waiting k l) })

pub switch_backend-Governs : (w : World) (d : Daemon) → Governs d (switch_backend w d)
unfolding switch_backend take_backend udp_diverted asked_upcall
switch_backend-Governs w d =
    Governs-then d (if d.upcall_on then upcall_off w d else (d, [])) (take_backend w)
      (on_bool (Governs d) d.upcall_on _ _ (upcall_off-Governs w d)
        (Governs-same d _ _ refl refl (λ h. h) (λ b. refl)))
      (Governs-same _ _ _ refl refl (λ h. h) (kern_backend-NoDivert w _))

pub no_verdicts-IsCache : IsCache []
unfolding any
no_verdicts-IsCache = record { settled = refl; bounded = omega arith }

pub forget_verdicts-Governs : (w : World) (d : Daemon) → Governs d (forget_verdicts w d)
unfolding forget_verdicts udp_diverted asked_upcall
forget_verdicts-Governs w d =
    let d' : Daemon = record d { decided = [] } in
    Governs-then d (d', []) (on_kern (flush_verdicts w.kernel))
      (record { governed = refl; keeps = λ c. no_verdicts-IsCache; waits = λ h. h })
      (Hushed-Governs d' _ (on_kern-Hushed _ d'))

upcall_on_now-Governs : (w : World) (d : Daemon) → Governs d (upcall_on_now w d)
unfolding upcall_on_now note_on udp_diverted asked_upcall
upcall_on_now-Governs w d =
    on_bool (Governs d) w.reader _ _
      (Governs-then d (on_kern (set_upcall w.kernel true) d) note_on
        (Hushed-Governs d _ (on_kern-Hushed _ d))
        (record { governed = refl; keeps = λ c. c; waits = λ h. h }))
      (Governs-same d _ _ refl refl (λ h. h) (λ b. refl))

pub reconcile-Governs : (w : World) (d : Daemon) → Governs d (reconcile w d)
unfolding reconcile udp_diverted asked_upcall
reconcile-Governs w d =
    on_bool (Governs d) (want_upcall d && not d.upcall_on) _ _ (upcall_on_now-Governs w d) (
      on_bool (Governs d) (not (want_upcall d) && d.upcall_on) _ _ (upcall_off-Governs w d)
        (Governs-same d _ _ refl refl (λ h. h) (λ b. refl)))

-- The upcall is on only with an open device and in enforcement.
abbrev pub IsBacked : Daemon → Type 0
IsBacked d = (not d.upcall_on || want_upcall d) ≡ true

pub Quiet-IsBacked : (d : Daemon) (o : Outcome) → Quiet d o → IsBacked d → IsBacked o.0
unfolding want_upcall
Quiet-IsBacked d o q h = rw (q.hushed.same_upcall, q.hushed.same_kern, q.hushed.same_mode) h

want-Hushed : (d : Daemon) (o : Outcome) → Hushed d o → want_upcall o.0 ≡ want_upcall d
unfolding want_upcall
want-Hushed d o q = rw (q.same_kern, q.same_mode) refl

abbrev GoodState : Outcome → Type 0
GoodState o = IsBacked o.0

-- `reconcile` backs the upcall, whatever went before.
pub reconcile-IsBacked : (w : World) (d : Daemon) → IsBacked (reconcile w d).0
unfolding reconcile want_upcall upcall_on_now upcall_off note_on note_off
reconcile-IsBacked w d =
    let o = on_kern (set_upcall w.kernel true) d in
    let q = on_kern-Hushed (set_upcall w.kernel true) d in
    on_test (GoodState) (want_upcall d && not d.upcall_on) _ _
      (λ t.
        on_bool (GoodState) w.reader _ _ (want-Hushed d o q ∙ ground (arith, t))
          (ground (arith, t)))
      (λ t.
        on_test (GoodState) (not (want_upcall d) && d.upcall_on) _ _ (λ s. refl)
          (λ s. ground (arith, t, s)))

pub flush_seen-Quiet : (w : World) (d : Daemon) → Quiet d (flush_seen w d)
unfolding flush_seen udp_diverted asked_upcall
flush_seen-Quiet w d = Quiet-same d _ _ refl refl refl refl refl refl (λ b. (refl, refl))

pub clear_log-Quiet : (w : World) (d : Daemon) → Quiet d (clear_log w d)
unfolding clear_log udp_diverted asked_upcall
clear_log-Quiet w d =
    on_bool (Quiet d)
      (leb log_interval (w.instant - d.logged_cleared) || ltb log_capacity (length d.logged)) _ _
      (Quiet-same d _ _ refl refl refl refl refl refl (λ b. (refl, refl))) (Quiet-refl d)
