-- ===== src/Tests/Processes.antt =====
-- Two processes with UDP sockets, and the resolver over their tables.
use mathlib.Core.List.{Memᴰ}
use pfsnitch.Addr.{v4, addr_eq}
use pfsnitch.Base.{ℕ, true, List, [], ◌∷◌, none, some, ◌≡◌, refl, lookup, put, insert, contains}
use pfsnitch.Procinfo.Resolver.{
  Resolver, new, resolve, resolve-rate_limit, retry, miss, rescan, stale,
}
use pfsnitch.Procinfo.Unique.{get-port}
use pfsnitch.Procinfo.{
  Owner, Tuple, tuple_eq, Attribution, local, port, Tables, no_tables, inet, other_family, Socket,
  Process, owner_of, owner_path, held, all_held, snapshot, get, add_socket, add_sockets, add_ends,
  add_port, add_local, claim, uncontested, endpoint, bound, is_unspecified,
}
use pfsnitch.Text.{codes, is_empty}

-- ntpd holds port 123 at every address, and a client its own port at one.
abbrev any_123 : Socket
any_123 = record { proto = 17; here = inet 0 123 (0 ∷ 0 ∷ 0 ∷ 0 ∷ []); peer = inet 0 0 [] }

abbrev one_5000 : Socket
one_5000 = record { proto = 17; here = inet 19 136 (10 ∷ 0 ∷ 0 ∷ 2 ∷ []); peer = other_family }

abbrev ntpd : Process
ntpd = record {
  pid = 200;
  command = codes "ntpd";
  path = some (codes "/usr/sbin/ntpd");
  sockets = some (any_123 ∷ []);
}

abbrev client : Process
client = record { pid = 300; command = codes "client"; path = none; sockets = some (one_5000 ∷ []) }

abbrev processes : List Process
processes = ntpd ∷ client ∷ []

abbrev from : ℕ → Tuple
from p = record {
  proto = 17;
  src = v4 (10 ∷ 0 ∷ 0 ∷ 2 ∷ []);
  sport = p;
  dst = v4 (1 ∷ 2 ∷ 3 ∷ 4 ∷ []);
  dport = 123;
}

abbrev named_by_port : Attribution
named_by_port = record {
  owner = record { pid = 200; command = codes "ntpd"; path = codes "/usr/sbin/ntpd" };
  confidence = port;
}

abbrev named_by_local : Attribution
named_by_local = record {
  owner = record { pid = 300; command = codes "client"; path = codes "<unknown:client>" };
  confidence = local;
}

get-port_example : 200 ≡ named_by_port.owner.pid
unfolding get snapshot all_held held owner_of owner_path add_sockets add_socket add_ends add_port
    add_local claim uncontested endpoint bound is_unspecified lookup put insert contains is_empty
get-port_example =
    get-port processes (from 123) true named_by_port refl refl (owner_of ntpd) any_123
      (v4 (0 ∷ 0 ∷ 0 ∷ 0 ∷ [])) (Memᴰ.head refl) refl refl refl

abbrev web : Owner
web = record { pid = 9; command = codes "web"; path = codes "/bin/web" }

abbrev connected : Tables
connected = record no_tables { exact = (from 5000, web) ∷ [] }

abbrev after_miss : Resolver
after_miss = record { tables = no_tables; last_scan = some 1000; missed = from 5000 ∷ [] }

resolve-rate_limit_example : resolve after_miss connected 1700 (from 5000) true ≡ (none, after_miss)
unfolding resolve retry miss rescan stale get uncontested lookup contains insert
resolve-rate_limit_example =
    resolve-rate_limit new no_tables 1000 (from 5000) true after_miss refl connected 1700 refl

abbrev one_socket : Tables
one_socket = record no_tables {
  local = ((17, v4 (10 ∷ 0 ∷ 0 ∷ 2 ∷ []), 5000), web) ∷ [];
  port = ((17, 5000), web) ∷ [];
}
