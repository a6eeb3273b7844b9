-- ===== src/Daemon/Tick.antt =====
-- src/main.rs: the periodic work of `run`, its start and its shutdown.
use pfsnitch.Base.{
  map, ◌++◌, List, ℕ, ◌-◌, Bool, true, false, not, ◌&&◌, ◌||◌, [], ◌∷◌, Option, none, some,
  if◌then◌else◌, ◌==◌, nat_eq, option_eq, length, ltb, leb, is_some,
}
use pfsnitch.Daemon.{
  ioctl, Effect, World, set_udp_divert, spawn_reader, seen_file, Daemon, Outcome, ◌▸◌, on_kern,
  same_backend, is_kernel, open_kern, kern_backend,
}
use pfsnitch.Kernattr.Calls.{set_upcall, flush_verdicts}
use pfsnitch.Kernattr.{KernAttr, opened}
use pfsnitch.Policy.Load.{load}
use pfsnitch.Policy.{Mode, enforcing, mode_of, attribution_of}
use pfsnitch.Procinfo.Resolver.{new}
use pfsnitch.Seen.{flush}
use pfsnitch.Text.{Unicode}

-- Milliseconds.
abbrev pub check_interval : ℕ
check_interval = 1000

abbrev pub flush_interval : ℕ
flush_interval = 10000

abbrev pub log_interval : ℕ
log_interval = 120000

abbrev pub log_capacity : ℕ
log_capacity = 8192

unfoldable pub flush_seen : World → Daemon → Outcome
flush_seen w d =
    let (s, file) = flush d.seen w.seen_write w.seen_file w.instant flush_interval in
    (record d { seen = s }, seen_file file ∷ [])

unfoldable pub clear_log : World → Daemon → Outcome
clear_log w d =
    if leb log_interval (w.instant - d.logged_cleared) || ltb log_capacity (length d.logged)
    then (record d { logged = []; logged_cleared = w.instant }, [])
    else (d, [])

-- A dead handle is dropped, and a missing one is opened again.
unfoldable pub reopen : World → Option KernAttr → Daemon → Outcome
reopen w (some h) d = if h.dead then (record d { kern = none }, []) else (d, [])
reopen w none d = (record d { kern = (open_kern w).0 }, (open_kern w).1)

unfoldable pub check_kern : World → Daemon → Outcome
check_kern w d = if is_kernel (attribution_of d.pol) then reopen w d.kern d else (d, [])

-- What is undone when the upcall goes off.
unfoldable pub note_off : Daemon → Outcome
note_off d = (record d { upcall_on = false; pending_upcalls = [] }, set_udp_divert true ∷ [])

unfoldable pub upcall_off : World → Daemon → Outcome
upcall_off w d = on_kern (set_upcall w.kernel false) d ▸ note_off

unfoldable pub take_backend : World → Daemon → Outcome
take_backend w d = (record d { kern = (kern_backend w d.pol).0 }, (kern_backend w d.pol).1)

unfoldable pub switch_backend : World → Daemon → Outcome
switch_backend w d = (if d.upcall_on then upcall_off w d else (d, [])) ▸ take_backend w

unfoldable pub forget_verdicts : World → Daemon → Outcome
forget_verdicts w d = on_kern (flush_verdicts w.kernel) (record d { decided = [] })

unfoldable pub note_on : Daemon → Outcome
note_on d = (record d { upcall_on = true }, spawn_reader ∷ set_udp_divert false ∷ [])

unfoldable pub upcall_on_now : World → Daemon → Outcome
upcall_on_now w d = if w.reader then (on_kern (set_upcall w.kernel true) d ▸ note_on) else (d, [])

-- The upcall is on only with the kernel backend, in enforcement.
unfoldable pub want_upcall : Daemon → Bool
want_upcall d = is_some d.kern && enforcing d.mode

unfoldable pub reconcile : World → Daemon → Outcome
reconcile w d =
    if want_upcall d && not d.upcall_on
    then upcall_on_now w d
    else if not (want_upcall d) && d.upcall_on
    then upcall_off w d
    else (d, [])

-- What a signal makes of the daemon before it exits.
unfoldable pub restore_divert : Daemon → Outcome
restore_divert d = (d, if d.upcall_on then set_udp_divert true ∷ [] else [])

unfoldable pub shutdown : World → Daemon → Outcome
shutdown w d =
    on_kern (set_upcall w.kernel false) d ▸ on_kern (flush_verdicts w.kernel) ▸ restore_divert

-- `cmd_kernel_reset`, which runs where no daemon does.
unfoldable pub kernel_reset : World → List Effect
kernel_reset w =
    let (h, off) = set_upcall w.kernel false opened in
    if w.device then map ioctl off ++ map ioctl (flush_verdicts w.kernel h).1 else []

module _ ⦃u : Unicode⦄ where
  unfoldable pub reloaded : World → Daemon → Daemon
  reloaded w d =
      let p = load w.file in
      record d { pol_mtime = w.mtime; pol = p; mode = mode_of p d.fallback_mode }

  unfoldable pub reload : World → Daemon → Outcome
  reload w d =
      let d' = reloaded w d in
      (if same_backend (attribution_of d'.pol) (attribution_of d.pol)
        then (d', [])
        else switch_backend w d')
      ▸ forget_verdicts w

  unfoldable pub check_policy : World → Daemon → Outcome
  check_policy w d = if w.mtime == d.pol_mtime then (d, []) else reload w d

  unfoldable pub tick : World → Daemon → Outcome
  tick w d =
      if leb check_interval (w.instant - d.last_check)
      then check_kern w (record d { last_check = w.instant }) ▸ check_policy w ▸ reconcile w
      else (d, [])

  -- The work of a round between the channels and the socket.
  unfoldable pub periodic : World → Daemon → Outcome
  periodic w d = flush_seen w d ▸ clear_log w ▸ tick w

  -- The variables before the loop.
  unfoldable pub start : World → Mode → Outcome
  start w fallback =
      let p = load w.file in
      (
        record {
          fallback_mode = fallback;
          pol = p;
          mode = mode_of p fallback;
          kern = (kern_backend w p).0;
          pol_mtime = w.mtime;
          last_check = w.instant;
          upcall_on = false;
          pending_upcalls = [];
          res = new;
          ident = [];
          seen = pfsnitch.Seen.new w.seen_file;
          id_warned = [];
          names = [];
          asking = [];
          logged = [];
          decided = [];
          logged_cleared = w.instant;
        },
        (kern_backend w p).1,
      )
