-- ===== src/Procinfo/Unique.antt =====
-- The owner that src/procinfo.rs names is never the wrong one of two.
use pfsnitch.Addr.{IpAddr, addr_eq}
use pfsnitch.Base.{
  ℕ, Bool, false, List, [], ◌∷◌, Option, none, some, ◌≡◌, Bool-cases, inl, inr, arith, nat_eq,
  pair_eq, triple_eq, lookup,
}
use mathlib.Core.List.{Memᴰ}
use pfsnitch.Procinfo.Claims.{Agrees, claim-Agrees, claim-keeps, uncontested-Agrees}
use pfsnitch.Procinfo.{
  Owner, Tuple, tuple_eq, Attribution, exact, local, port, Tables, Socket, Process, all_held,
  snapshot, get, add_socket, add_sockets, no_tables, endpoint, is_unspecified, add_ends, add_local,
  add_port,
}

-- What the tables say once the unconnected socket has been added.
record IsSettled (o : Owner) (proto : ℕ) (a : IpAddr) (p : ℕ) (ts : Tables) : Type 0 where
  port : Agrees (proto, p) o ts.port ts.contested_port
  local : is_unspecified a ≡ false → Agrees (proto, a, p) o ts.local ts.contested_local

add_ends-IsSettled :
    (o : Owner) (proto : ℕ) (a : IpAddr) (p : ℕ) (ts : Tables)
    → IsSettled o proto a p (add_ends proto o (some (a, p)) none ts)
unfolding add_ends add_port add_local
add_ends-IsSettled o proto a p ts = elim (Bool-cases (is_unspecified a)) [
  | inl any ↦
      rw (any, add_ends)
        record {
          port = claim-Agrees (proto, p) o ts.port ts.contested_port;
          local = λ h. ground (arith, any);
        }
  | inr one ↦
      rw (one, add_ends)
        record {
          port = claim-Agrees (proto, p) o ts.port ts.contested_port;
          local = λ h. claim-Agrees (proto, a, p) o ts.local ts.contested_local;
        }
]

add_ends-keeps :
    (o : Owner) (proto : ℕ) (a : IpAddr) (p : ℕ) (o' : Owner) (proto' : ℕ)
    (here peer : Option (IpAddr × ℕ)) (ts : Tables)
    → IsSettled o proto a p ts
    → IsSettled o proto a p (add_ends proto' o' here peer ts)
unfolding add_ends add_port add_local
add_ends-keeps o proto a p o' proto' none peer ts s = s
add_ends-keeps o proto a p o' proto' (some (sa, sp)) (some (da, dp)) ts s = record {
  port = s.port;
  local = s.local;
}
add_ends-keeps o proto a p o' proto' (some (sa, sp)) none ts s =
    elim (Bool-cases (is_unspecified sa)) [
      | inl any ↦
          rw (any, add_ends)
            record {
              port = claim-keeps (proto, p) o (proto', sp) o' ts.port ts.contested_port s.port;
              local = s.local;
            }
      | inr one ↦
          rw (one, add_ends)
            record {
              port = claim-keeps (proto, p) o (proto', sp) o' ts.port ts.contested_port s.port;
              local = λ h.
                  claim-keeps (proto, a, p) o (proto', sa, sp) o' ts.local ts.contested_local
                    (s.local h);
            }
    ]

add_sockets-keeps :
    (o : Owner) (proto : ℕ) (a : IpAddr) (p : ℕ) (ss : List (Owner × Socket)) (ts : Tables)
    → IsSettled o proto a p ts
    → IsSettled o proto a p (add_sockets ss ts)
unfolding add_sockets add_socket
add_sockets-keeps o proto a p [] ts s = s
add_sockets-keeps o proto a p ((o', x) ∷ ss) ts s =
    add_sockets-keeps o proto a p ss _
      (add_ends-keeps o proto a p o' x.proto (endpoint x.here) (endpoint x.peer) ts s)

add_sockets-IsSettled :
    (o : Owner) (x : Socket) (a : IpAddr) (p : ℕ) (ss : List (Owner × Socket)) (ts : Tables)
    → Memᴰ (o, x) ss
    → endpoint x.here ≡ some (a, p)
    → endpoint x.peer ≡ none
    → IsSettled o x.proto a p (add_sockets ss ts)
unfolding add_sockets add_socket
add_sockets-IsSettled o x a p [] ts m hh hr = elim m [ ]
add_sockets-IsSettled o x a p (y ∷ ss) ts (Memᴰ.head e) hh hr =
    add_sockets-keeps o x.proto a p ss _
      (rw (← e) (rw (hh, hr) (add_ends-IsSettled o x.proto a p ts)))
add_sockets-IsSettled o x a p (y ∷ ss) ts (Memᴰ.tail m) hh hr =
    add_sockets-IsSettled o x a p ss (add_socket y ts) m hh hr

-- The owner that is named by local port alone is that of every unconnected socket on the port: if
-- the snapshot of the processes answers a flow from the port tier, then each unconnected socket of
-- the flow's protocol that is bound to the flow's source port, at any address, has the pid of the
-- answer.
pub get-port :
    (ps : List Process) (t : Tuple) (outbound : Bool) (x : Attribution)
    → get (snapshot (some ps)) t outbound ≡ some x
    → x.confidence ≡ port
    → (o : Owner) (s : Socket) (a : IpAddr) → Memᴰ (o, s) (all_held ps)
    → s.proto ≡ t.proto
    → endpoint s.here ≡ some (a, t.sport)
    → endpoint s.peer ≡ none
    → o.pid ≡ x.owner.pid
unfolding get snapshot
get-port ps t outbound x e c o s a m hp hh hr =
    let ts = snapshot (some ps) in
    let settled : Agrees (t.proto, t.sport) o ts.port ts.contested_port =
      rw (← hp) (add_sockets-IsSettled o s a t.sport (all_held ps) no_tables m hh hr).port in
    uncontested-Agrees (t.proto, t.sport) o x.owner ts.port ts.contested_port settled
      (ground (arith, e, c))

-- The owner that is named by local address and port is that of every unconnected socket there: if
-- the snapshot of the processes answers a flow from the local tier, then each unconnected socket of
-- the flow's protocol that is bound to the flow's source address and port, an address that is not
-- the unspecified one, has the pid of the answer.
get-local :
    (ps : List Process) (t : Tuple) (outbound : Bool) (x : Attribution)
    → get (snapshot (some ps)) t outbound ≡ some x
    → x.confidence ≡ local
    → (o : Owner) (s : Socket) → Memᴰ (o, s) (all_held ps)
    → s.proto ≡ t.proto
    → endpoint s.here ≡ some (t.src, t.sport)
    → endpoint s.peer ≡ none
    → is_unspecified t.src ≡ false
    → o.pid ≡ x.owner.pid
unfolding get snapshot
get-local ps t outbound x e c o s m hp hh hr hu =
    let ts = snapshot (some ps) in
    let settled : Agrees (t.proto, t.src, t.sport) o ts.local ts.contested_local =
      rw (← hp)
        ((add_sockets-IsSettled o s t.src t.sport (all_held ps) no_tables m hh hr).local hu) in
    uncontested-Agrees (t.proto, t.src, t.sport) o x.owner ts.local ts.contested_local settled
      (ground (arith, e, c))

-- An inbound packet is named by its whole tuple or not at all: every answer to one that is not
-- outbound has the confidence `exact` and the owner that the exact tier holds.
get-inbound :
    (ts : Tables) (t : Tuple) (x : Attribution)
    → get ts t false ≡ some x
    → (x.confidence ≡ exact) × (lookup t ts.exact ≡ some x.owner)
unfolding get
get-inbound ts t x e = ground (arith, e)
