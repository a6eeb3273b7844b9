-- ===== src/Tests/Daemon.antt =====
-- The daemon: curl tries 203.0.113.9:443, is asked about, and tries again.
use pfsnitch.Addr.{IpAddr, v4, show_ip, addr_eq}
use pfsnitch.Base.{
  true, false, [], ◌∷◌, map, some, none, ◌≡◌, refl, inr, lookup, contains, list_eq, pair_eq, nat_eq,
  insert, false,
}
use pfsnitch.Daemon.Answers.{handle_answer, allows, write_rule, re_pin, resolve_waiting}
use pfsnitch.Daemon.Packet.{
  handle_packet, judge, exe_of, flow_of, reset, attribute, attribute_by, scanned, check_exe,
}
use pfsnitch.Daemon.Run.Waiting.{ioctls, handle_answer-resolves}
use pfsnitch.Daemon.Tick.{tick}
use pfsnitch.Daemon.Wire.Reload.{handle_packet-reloaded}
use pfsnitch.Daemon.Wire.Retry.{handle_packet-answered, promised}
use pfsnitch.Daemon.Wire.Verdicts.{handle_packet-enforced, enforced, by_rules}
use pfsnitch.Daemon.Wire.Visibility.{handle_packet-visibility}
use pfsnitch.Daemon.Wire.{outward, on_wire}
use pfsnitch.Daemon.{World, Pending, Daemon, reinject, key_of, ask_key, check_binary}
use pfsnitch.Dns.Cache.{name_for}
use pfsnitch.Kernattr.Calls.{resolve_call}
use pfsnitch.Kernattr.{opened}
use pfsnitch.Policy.Load.{
  load, load_lines, load_line, load_body, apply_directive, directive, if_scoped,
}
use pfsnitch.Policy.Record.{
  expected_id, record_decision, record_rule, record_block, append_line, named,
}
use pfsnitch.Policy.{initial, Mode, visibility, enforcement, allow_conn, block, allow, mode_of}
use pfsnitch.Procinfo.Resolver.{new, resolve, retry, rescan, stale}
use pfsnitch.Procinfo.{Tuple, Owner, no_tables, get, tuple_eq, uncontested}
use pfsnitch.Seen.{not_created}
use pfsnitch.Tests.Device.{willing}
use pfsnitch.Tests.Packets.{syn, syn_flow, parse-syn}
use pfsnitch.Tests.{ascii}
use pfsnitch.Text.{
  codes, lines, line_step, onto_first_line, is_empty, trim, trim_end, trim_start, split_first,
  is_white, trim_onto, begins_newline,
}

abbrev pub web : IpAddr
web = v4 (203 ∷ 0 ∷ 113 ∷ 9 ∷ [])

abbrev pub try : Tuple
try = record { proto = 6; src = v4 (10 ∷ 0 ∷ 0 ∷ 2 ∷ []); sport = 49153; dst = web; dport = 443 }

abbrev pub curl : Owner
curl = record { pid = 300; command = codes "curl"; path = codes "/bin/curl" }

abbrev pub world : World
world = record {
  kernel = willing;
  device = true;
  reader = true;
  file = none;
  writable = true;
  mtime = none;
  metadata = λ p. none;
  sha256 = λ p. none;
  scan = record no_tables { exact = (try, curl) ∷ [] };
  instant = 5000;
  unix = 1700000000;
  seen_file = none;
  seen_write = not_created;
}

abbrev pub in_mode : Mode → Daemon
in_mode m = record {
  fallback_mode = m;
  pol = initial;
  mode = m;
  kern = none;
  pol_mtime = none;
  last_check = 0;
  upcall_on = false;
  pending_upcalls = [];
  res = new;
  ident = [];
  seen = record { map = []; dirty = false; last_flush = none };
  id_warned = [];
  names = [];
  asking = [];
  logged = [];
  decided = [];
  logged_cleared = 0;
}

abbrev question : Pending
question = record { host = none; exe = some (codes "/bin/curl"); dst = web; dport = 443 }

handle_packet-visibility_example :
    outward (handle_packet world syn 0 (in_mode visibility)).1 ≡ reinject syn 0 ∷ []
handle_packet-visibility_example = handle_packet-visibility world syn 0 (in_mode visibility) refl

-- A rule denies curl everything.
abbrev denying : Daemon
denying = record (in_mode enforcement) {
  pol = record initial { deny_app = codes "/bin/curl" ∷ [] };
}

handle_packet-enforced_example :
    on_wire (handle_packet world syn 0 denying).1
    ≡ enforced syn_flow syn 0 (
        by_rules denying.pol
          (judge world try denying).changed
          (exe_of (judge world try denying).att)
          web
          (name_for [] web)
          443)
unfolding flow_of lookup
handle_packet-enforced_example =
    handle_packet-enforced world syn denying _ refl parse-syn refl refl refl

-- The connection was allowed, and then the file is made to deny it.
abbrev outdated : Daemon
outdated = record (in_mode enforcement) { decided = (try, allow) ∷ [] }

abbrev edited : World
edited = record world { mtime = some 7; file = some (codes "deny-app /bin/curl\n") }

handle_packet-reloaded_example :
    on_wire (handle_packet world syn 0 (tick edited outdated).0).1
    ≡ enforced syn_flow syn 0 (
        by_rules
          (load edited.file)
          (judge world try (tick edited outdated).0).changed
          (exe_of (judge world try (tick edited outdated).0).att)
          web
          (name_for (tick edited outdated).0.names web)
          443)
unfolding flow_of mode_of load load_lines lines line_step onto_first_line load_line load_body
    is_empty trim trim_end trim_start split_first is_white trim_onto apply_directive directive
    begins_newline if_scoped insert contains
handle_packet-reloaded_example =
    handle_packet-reloaded edited world syn outdated _ refl refl refl parse-syn refl refl

handle_packet-answered_example :
    on_wire
      (handle_packet world syn 0 (handle_answer world block question (in_mode enforcement)).0).1
    ≡ reset syn
unfolding lookup name_for exe_of judge attribute attribute_by scanned resolve retry rescan get
    flow_of handle_answer write_rule re_pin allows resolve_waiting check_exe check_binary
    expected_id record_decision record_rule record_block append_line promised enforced uncontested
    contains stale named
handle_packet-answered_example =
    handle_packet-answered world world block question (in_mode enforcement) syn _ (inr refl) refl
      parse-syn refl refl refl refl refl refl refl refl

-- Two upcalls wait for the answer.
abbrev waiting : Daemon
waiting = record (in_mode enforcement) {
  kern = some opened;
  pending_upcalls = (key_of question, 7 ∷ 9 ∷ []) ∷ [];
  asking = key_of question ∷ [];
}

handle_answer-resolves_example :
    (ioctls (handle_answer world allow_conn question waiting).1
      ≡ map (λ id. resolve_call id true) (7 ∷ 9 ∷ []))
    × (lookup (key_of question) (handle_answer world allow_conn question waiting).0.pending_upcalls
        ≡ none)
    × (contains (key_of question) (handle_answer world allow_conn question waiting).0.asking
        ≡ false)
unfolding lookup key_of ask_key show_ip allows
handle_answer-resolves_example =
    handle_answer-resolves world allow_conn question waiting (7 ∷ 9 ∷ []) refl (λ io. refl) refl
