-- ===== src/Daemon/Run/Requested.antt =====
-- src/main.rs: while the upcall is on by the daemon's flag and the device alive, the kernel was last
-- asked to have it on.
use mathlib.Core.Bool.{true≢false}
use pfsnitch.Base.{
  on_bool, on_test, Bool, true, false, not, ◌&&◌, [], map, Option, none, some, ◌≡◌, refl, sym, ◌∙◌,
  ap, arith, nat_eq, is_some, eq_self,
}
use pfsnitch.Daemon.Run.Calm.{flush_verdicts-IsCalm, set_upcall-dead}
use pfsnitch.Daemon.Run.Governs.{IsBacked}
use pfsnitch.Daemon.Run.Quiet.{Quiet, on_kern-Quiet, asked_upcall-append, was_alive}
use pfsnitch.Daemon.Run.{asked_upcall, is_alive}
use pfsnitch.Daemon.Tick.{
  reopen, check_kern, upcall_off, switch_backend, forget_verdicts, upcall_on_now, want_upcall,
  reconcile, note_off, note_on, take_backend,
}
use pfsnitch.Daemon.{World, Daemon, Outcome, ◌▸◌, ioctl, with_handle, on_kern, is_kernel}
use pfsnitch.Kernattr.Calls.{set_upcall, flush_verdicts, unless_dead, issue}
use pfsnitch.Kernattr.{Kernel, KernAttr, upcall_set_cmd}
use pfsnitch.Policy.{attribution_of}

-- What was last asked of the kernel is what the daemon relies on.
abbrev pub Requested : Bool → Daemon → Type 0
Requested b d = d.upcall_on ≡ true → is_alive d.kern ≡ true → b ≡ true

abbrev pub Asks : Daemon → Outcome → Type 0
Asks d o = (b : Bool) → Requested b d → Requested (asked_upcall b o.1) o.0

pub Quiet-Asks : (d : Daemon) (o : Outcome) → Quiet d o → Asks d o
Quiet-Asks d o q b r up alive = q.same_asked b ∙ r (sym q.hushed.same_upcall ∙ up) (q.sticks alive)

pub Asks-then :
    (d : Daemon) (o : Outcome) (f : Daemon → Outcome) → Asks d o → Asks o.0 (f o.0) → Asks d (o ▸ f)
Asks-then d o f p q b r up alive =
    asked_upcall-append b o.1 (f o.0).1 ∙ q (asked_upcall b o.1) (p b r) up alive

-- A change of other variables.
pub Asks-same : (d d' : Daemon) → d'.upcall_on ≡ d.upcall_on → d'.kern ≡ d.kern → Asks d (d', [])
unfolding asked_upcall
Asks-same d d' u k b r up alive = r (sym u ∙ up) (ap is_alive (sym k) ∙ alive)

-- Nothing is relied on while the upcall is off.
off-Asks : (d : Daemon) (o : Outcome) → o.0.upcall_on ≡ false → Asks d o
off-Asks d o off b r up alive = absurd (true≢false (sym up ∙ off))

reopen-Asks :
    (w : World) (k : Option KernAttr) (d : Daemon) → d.kern ≡ k → IsBacked d → Asks d (reopen w k d)
unfolding reopen want_upcall asked_upcall
reopen-Asks w none d e backed = off-Asks d (reopen w none d) (ground (arith, backed, ap is_some e))
reopen-Asks w (some h) d e backed =
    on_bool (Asks d) h.dead _ _ (λ b r up alive. absurd (true≢false (sym alive)))
      (Asks-same d d refl refl)

pub check_kern-Asks : (w : World) (d : Daemon) → IsBacked d → Asks d (check_kern w d)
unfolding check_kern
check_kern-Asks w d backed =
    on_bool (Asks d) (is_kernel (attribution_of d.pol)) _ _ (reopen-Asks w d.kern d refl backed)
      (Asks-same d d refl refl)

switch_backend-off : (w : World) (d : Daemon) → (switch_backend w d).0.upcall_on ≡ false
unfolding switch_backend take_backend upcall_off note_off
switch_backend-off w d =
    on_test {C = Outcome} (λ o. o.0.upcall_on ≡ false) d.upcall_on _ _ (λ e. refl) (λ e. e)

pub switch_backend-Asks : (w : World) (d : Daemon) → Asks d (switch_backend w d)
switch_backend-Asks w d = off-Asks d (switch_backend w d) (switch_backend-off w d)

pub forget_verdicts-Asks : (w : World) (d : Daemon) → Asks d (forget_verdicts w d)
unfolding forget_verdicts
forget_verdicts-Asks w d =
    let d' : Daemon = record d { decided = [] } in
    Asks-then d (d', []) (on_kern (flush_verdicts w.kernel)) (Asks-same d d' refl refl)
      (Quiet-Asks d' _ (on_kern-Quiet _ d' (flush_verdicts-IsCalm w.kernel)))

-- A live device is asked to switch the upcall on.
set_upcall-asked :
    (k : Kernel) (h : KernAttr) (b : Bool)
    → h.dead ≡ false
    → asked_upcall b (map ioctl (set_upcall k true h).1) ≡ true
unfolding set_upcall unless_dead issue asked_upcall
set_upcall-asked k h b live = rw live (rw (eq_self upcall_set_cmd) refl)

with_handle-asked :
    (w : World) (k : Option KernAttr) (d : Daemon) (b : Bool)
    → d.kern ≡ k
    → is_alive (with_handle (set_upcall w.kernel true) k d).0.kern ≡ true
    → asked_upcall b (with_handle (set_upcall w.kernel true) k d).1 ≡ true
unfolding with_handle
with_handle-asked w none d b e alive = absurd (true≢false (sym alive ∙ ap is_alive e))
with_handle-asked w (some h) d b e alive = set_upcall-asked w.kernel h b (
    live h.dead (
      was_alive h.dead (set_upcall w.kernel true h).0.dead (set_upcall-dead w.kernel true h) alive))
  where
    live : (x : Bool) → not x ≡ true → x ≡ false
    live x h = ground (arith, h)

upcall_on_now-Asks : (w : World) (d : Daemon) → Asks d (upcall_on_now w d)
unfolding upcall_on_now note_on on_kern asked_upcall
upcall_on_now-Asks w d =
    on_bool (Asks d) w.reader _ _
      (λ b r up alive.
        asked_upcall-append b (with_handle (set_upcall w.kernel true) d.kern d).1 _
        ∙ with_handle-asked w d.kern d b refl alive)
      (Asks-same d d refl refl)

pub reconcile-Asks : (w : World) (d : Daemon) → Asks d (reconcile w d)
unfolding reconcile upcall_off note_off
reconcile-Asks w d =
    on_bool (Asks d) (want_upcall d && not d.upcall_on) _ _ (upcall_on_now-Asks w d) (
      on_bool (Asks d) (not (want_upcall d) && d.upcall_on) _ _ (off-Asks d (upcall_off w d) refl)
        (Asks-same d d refl refl))
