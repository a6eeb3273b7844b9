-- ===== src/Tests/Rounds.antt =====
-- Rounds of the daemon with the kernel's upcall.
use pfsnitch.Addr.{addr_eq}
use pfsnitch.Base.{
  true, false, [], ◌∷◌, ◌++◌, some, none, ◌≡◌, refl, list_eq, pair_eq, nat_eq, List, false,
}
use pfsnitch.Daemon.Run.Sound.{Reach-IsSound}
use pfsnitch.Daemon.Run.{
  udp_diverted, IsSound, Round, started, next, round, drain_answers, drain_events, receive,
}
use pfsnitch.Daemon.Tick.{
  start, shutdown, tick, periodic, flush_seen, clear_log, check_kern, reopen, check_policy,
  reconcile, want_upcall, upcall_on_now, note_on,
}
use pfsnitch.Daemon.{
  World, Daemon, Effect, on_kern, with_handle, is_kernel, kern_backend, open_kern,
}
use pfsnitch.Kernattr.Calls.{set_upcall, unless_dead, issue, flush_verdicts}
use pfsnitch.Policy.Load.{load, load_lines, load_line, load_body, apply_directive, directive}
use pfsnitch.Policy.{visibility, mode_of, attribution_of, parse_attribution, parse_mode, enforcing}
use pfsnitch.Procinfo.{tuple_eq}
use pfsnitch.Tests.Packets.{syn}
use pfsnitch.Tests.{ascii}
use pfsnitch.Text.{
  codes, lines, line_step, onto_first_line, is_empty, trim, trim_end, trim_start, split_first,
  is_white, trim_onto, begins_newline,
}
use pfsnitch.Tests.Daemon.{world, web}

-- The policy asks for the kernel's attribution, and the device is there. The first round switches
-- the upcall on; in the second an upcall of the kernel comes, and the packet.
abbrev with_kernel : World
with_kernel = record world {
  file = some (codes "mode enforcement\nattribution kernel\n");
  instant = 9000;
}

abbrev first_round : Round
first_round = record { replies = []; events = []; idle = with_kernel; packet = none }

abbrev second_round : Round
second_round = record {
  replies = [];
  events =
      (
        with_kernel,
        record {
          id = 7;
          proto = 17;
          dst = web;
          dport = 443;
          nonblock = false;
          pid = 300;
          uid = 0;
          path = codes "/bin/curl";
        },
      )
      ∷ [];
  idle = with_kernel;
  packet = some (with_kernel, syn, 0);
}

abbrev begun : Daemon
begun = (start (record with_kernel { instant = 5000 }) visibility).0

abbrev begun_by : List Effect
begun_by = (start (record with_kernel { instant = 5000 }) visibility).1

abbrev after_first : Daemon
after_first = (round first_round begun).0

abbrev after_round : Daemon
after_round = (round second_round after_first).0

after_first-upcall_on : after_first.upcall_on ≡ true
unfolding round drain_answers drain_events receive periodic flush_seen clear_log tick check_kern
    reopen check_policy reconcile want_upcall upcall_on_now note_on on_kern with_handle set_upcall
    unless_dead issue is_kernel attribution_of start kern_backend open_kern flush_verdicts load
    load_lines lines line_step onto_first_line begins_newline load_line load_body apply_directive
    directive parse_attribution parse_mode trim trim_start trim_end trim_onto split_first is_white
    is_empty mode_of enforcing
after_first-upcall_on = refl

Reach-IsSound_example :
    IsSound after_round
      ((begun_by ++ (round first_round begun).1) ++ (round second_round after_first).1)
    × (udp_diverted true (
          ((begun_by ++ (round first_round begun).1) ++ (round second_round after_first).1)
          ++ (shutdown world after_round).1)
        ≡ true)
Reach-IsSound_example =
    Reach-IsSound (record with_kernel { instant = 5000 }) visibility after_round _ world
      (next (next started first_round) second_round)
