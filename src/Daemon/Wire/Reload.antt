-- ===== src/Daemon/Wire/Reload.antt =====
-- src/main.rs: a packet after the policy was loaded again.
use mathlib.Core.Bool.{true≢false}
use pfsnitch.Base.{
  ℕ, ◌-◌, Bool, true, false, not, ◌&&◌, List, [], Option, none, some, ◌≡◌, refl, sym, ◌∙◌, ap,
  if◌then◌else◌, ◌||◌, lookup, ◌==◌, nat_eq, option_eq, leb, on_bool, on_test,
}
use pfsnitch.Daemon.Tick.{
  reopen, check_kern, upcall_off, note_off, switch_backend, take_backend, forget_verdicts,
  upcall_on_now, note_on, want_upcall, reconcile, reloaded, reload, check_policy, tick,
  check_interval,
}
use pfsnitch.Daemon.Packet.{handle_packet, judge, exe_of, flow_of}
use pfsnitch.Daemon.Wire.Verdicts.{handle_packet-enforced, enforced, by_rules}
use pfsnitch.Daemon.Wire.{on_wire}
use pfsnitch.Divert.{ok, Flow, parse}
use pfsnitch.Dns.Cache.{name_for}
use pfsnitch.Daemon.{Key, World, Daemon, Outcome, on_kern, with_handle, is_kernel, same_backend}
use pfsnitch.Kernattr.Calls.{set_upcall, flush_verdicts}
use pfsnitch.Kernattr.{KernAttr, Ioctl}
use pfsnitch.Policy.Load.{load}
use pfsnitch.Policy.{enforcement, mode_of, attribution_of}
use pfsnitch.Procinfo.{tuple_eq}
use pfsnitch.Text.{Unicode}

-- A step that leaves the policy, the mode, the cached verdicts and the watermark alone.
record Kept (d d' : Daemon) : Type 0 where
  same_pol : d'.pol ≡ d.pol
  same_mode : d'.mode ≡ d.mode
  same_decided : d'.decided ≡ d.decided
  same_mtime : d'.pol_mtime ≡ d.pol_mtime
  same_fallback : d'.fallback_mode ≡ d.fallback_mode

Kept-refl : (d : Daemon) → Kept d d
Kept-refl d = record {
  same_pol = refl;
  same_mode = refl;
  same_decided = refl;
  same_mtime = refl;
  same_fallback = refl;
}

Kept-trans : (d d' d'' : Daemon) → Kept d d' → Kept d' d'' → Kept d d''
Kept-trans d d' d'' p q = record {
  same_pol = q.same_pol ∙ p.same_pol;
  same_mode = q.same_mode ∙ p.same_mode;
  same_decided = q.same_decided ∙ p.same_decided;
  same_mtime = q.same_mtime ∙ p.same_mtime;
  same_fallback = q.same_fallback ∙ p.same_fallback;
}

-- The handle may change, and the upcall with what waits for it.
Kept-handle :
    (d : Daemon) (k : Option KernAttr) (up : Bool) (pending : List (Key × List ℕ))
    → Kept d (record d { kern = k; upcall_on = up; pending_upcalls = pending })
Kept-handle d k up pending = record {
  same_pol = refl;
  same_mode = refl;
  same_decided = refl;
  same_mtime = refl;
  same_fallback = refl;
}

abbrev KeptBy : Daemon → Outcome → Type 0
KeptBy d o = Kept d o.0

with_handle-Kept :
    (f : KernAttr → KernAttr × List Ioctl) (k : Option KernAttr) (d : Daemon)
    → KeptBy d (with_handle f k d)
unfolding with_handle
with_handle-Kept f none d = Kept-refl d
with_handle-Kept f (some h) d = Kept-handle d _ d.upcall_on d.pending_upcalls

on_kern-Kept : (f : KernAttr → KernAttr × List Ioctl) (d : Daemon) → KeptBy d (on_kern f d)
unfolding on_kern
on_kern-Kept f d = with_handle-Kept f d.kern d

reopen-Kept : (w : World) (k : Option KernAttr) (d : Daemon) → KeptBy d (reopen w k d)
unfolding reopen
reopen-Kept w none d = Kept-handle d _ d.upcall_on d.pending_upcalls
reopen-Kept w (some h) d =
    on_bool (KeptBy d) h.dead _ _ (Kept-handle d _ d.upcall_on d.pending_upcalls) (Kept-refl d)

check_kern-Kept : (w : World) (d : Daemon) → KeptBy d (check_kern w d)
unfolding check_kern
check_kern-Kept w d =
    on_bool (KeptBy d) (is_kernel (attribution_of d.pol)) _ _ (reopen-Kept w d.kern d) (Kept-refl d)

upcall_off-Kept : (w : World) (d : Daemon) → KeptBy d (upcall_off w d)
unfolding upcall_off note_off
upcall_off-Kept w d =
    Kept-trans d (on_kern (set_upcall w.kernel false) d).0 _ (on_kern-Kept _ d)
      (Kept-handle (on_kern (set_upcall w.kernel false) d).0 _ false [])

switch_backend-Kept : (w : World) (d : Daemon) → KeptBy d (switch_backend w d)
unfolding switch_backend take_backend
switch_backend-Kept w d =
    let o = if d.upcall_on then upcall_off w d else (d, []) in
    Kept-trans d o.0 _ (on_bool (KeptBy d) d.upcall_on _ _ (upcall_off-Kept w d) (Kept-refl d))
      (Kept-handle o.0 _ o.0.upcall_on o.0.pending_upcalls)

reconcile-Kept : (w : World) (d : Daemon) → KeptBy d (reconcile w d)
unfolding reconcile upcall_on_now note_on
reconcile-Kept w d =
    let o = on_kern (set_upcall w.kernel true) d in
    on_bool (KeptBy d) (want_upcall d && not d.upcall_on) _ _
      (on_bool (KeptBy d) w.reader _ _
        (Kept-trans d o.0 _ (on_kern-Kept _ d) (Kept-handle o.0 _ true o.0.pending_upcalls))
        (Kept-refl d))
      (on_bool (KeptBy d) (not (want_upcall d) && d.upcall_on) _ _ (upcall_off-Kept w d)
        (Kept-refl d))

module _ ⦃u : Unicode⦄ where
  -- The state is that of the file, with no cached verdict.
  abbrev IsOfFile : World → Daemon → Outcome → Type 0
  IsOfFile w d o =
      (o.0.pol ≡ load w.file)
      × (o.0.mode ≡ mode_of (load w.file) d.fallback_mode)
      × (o.0.decided ≡ [])

  reload-IsOfFile : (w : World) (d : Daemon) → IsOfFile w d (reload w d)
  unfolding reload reloaded forget_verdicts
  reload-IsOfFile w d =
      let d' = reloaded w d in
      let same = same_backend (attribution_of d'.pol) (attribution_of d.pol) in
      let o = if same then (d', []) else switch_backend w d' in
      let k : Kept d' o.0 =
        on_bool (KeptBy d') same _ _ (Kept-refl d') (switch_backend-Kept w d') in
      let c = on_kern-Kept (flush_verdicts w.kernel) (record o.0 { decided = [] }) in
      (c.same_pol ∙ k.same_pol, c.same_mode ∙ k.same_mode, c.same_decided)

  -- A tick that is due and finds the policy file changed.
  tick-IsOfFile :
      (w : World) (d : Daemon)
      → leb check_interval (w.instant - d.last_check) ≡ true
      → (w.mtime == d.pol_mtime) ≡ false
      → IsOfFile w d (tick w d)
  unfolding tick check_policy
  tick-IsOfFile w d due changed =
      let d1 : Daemon = record d { last_check = w.instant } in
      let o1 = check_kern w d1 in
      let k1 = check_kern-Kept w d1 in
      on_test (IsOfFile w d) (leb check_interval (w.instant - d.last_check)) _ _
        (λ e.
          let o2 = check_policy w o1.0 in
          let (p, m, c) : IsOfFile w o1.0 o2 =
            on_test (IsOfFile w o1.0) (w.mtime == o1.0.pol_mtime) _ _
              (λ e. absurd (true≢false (sym e ∙ ap (λ x. w.mtime == x) k1.same_mtime ∙ changed)))
              (λ e. reload-IsOfFile w o1.0) in
          let k3 = reconcile-Kept w o2.0 in
          (
            k3.same_pol ∙ p,
            k3.same_mode ∙ m ∙ ap (λ x. mode_of (load w.file) x) k1.same_fallback,
            k3.same_decided ∙ c,
          ))
        (λ e. absurd (true≢false (sym due ∙ e)))

  -- The daemon keeps none of its own verdicts over a reload: after a tick that is due and finds the
  -- policy file changed, where that file puts the daemon in enforcement, the rules of the file as it
  -- was loaded decide what becomes of any connection attempt that reaches the daemon, an outbound SYN
  -- or UDP packet that is no DNS answer, whatever the daemon had decided before. It is put back if
  -- those rules allow it. If they deny it, a SYN gets the reset that `tcp_rst` builds for it, if it
  -- builds one, and nothing is sent for a UDP packet, which is dropped. If they leave it open, or if
  -- the binary is not the one that was approved, it is held without a word. A denial comes before an
  -- approval.
  pub handle_packet-reloaded :
      (w w' : World) (pkt : List ℕ) (d : Daemon) (f : Flow)
      → leb check_interval (w.instant - d.last_check) ≡ true
      → (w.mtime == d.pol_mtime) ≡ false
      → mode_of (load w.file) d.fallback_mode ≡ enforcement
      → parse pkt ≡ ok f
      → (f.proto == 17 && f.sport == 53) ≡ false
      → (f.syn_only || f.proto == 17) ≡ true
      → on_wire (handle_packet w' pkt 0 (tick w d).0).1
        ≡ enforced f pkt 0 (
            by_rules
              (load w.file)
              (judge w' (flow_of f) (tick w d).0).changed
              (exe_of (judge w' (flow_of f) (tick w d).0).att)
              f.dst
              (name_for (tick w d).0.names f.dst)
              f.dport)
  unfolding lookup
  handle_packet-reloaded w w' pkt d f due changed m e notdns attempt =
      let d' = (tick w d).0 in
      let (p, n, c) = tick-IsOfFile w d due changed in
      let j = judge w' (flow_of f) d' in
      handle_packet-enforced w' pkt d' f (n ∙ m) e notdns attempt (ap (λ l. lookup (flow_of f) l) c)
      ∙ ap
          (λ q.
            enforced f pkt 0
              (by_rules q j.changed (exe_of j.att) f.dst (name_for d'.names f.dst) f.dport))
          p
