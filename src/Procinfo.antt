-- ===== src/Procinfo.antt =====
-- src/procinfo.rs: from sockets to the process that owns them. libprocstat's walk over processes
-- and files is a parameter: the list of what it returns.
pub mod Claims
pub mod Unique
pub mod Resolver
pub mod Probe
pub mod Running
use pfsnitch.Addr.{IpAddr, v4, v6, addr_eq}
use pfsnitch.Base.{
  ℕ, zero, suc, Bool, true, false, not, ◌&&◌, ◌||◌, List, [], ◌∷◌, ◌++◌, map, Option, none, some,
  ◌↔◌, ◌≡◌, arith, if◌then◌else◌, PartialEq, ◌==◌, nat_eq, pair_eq, triple_eq, any, contains,
  insert, lookup, put, length,
}
use pfsnitch.Divert.{be16}
use pfsnitch.Text.{Str, codes, is_empty}

pub record Owner : Type 0 where
  pub pid : ℕ
  pub command : Str
  pub path : Str

pub record Tuple : Type 0 where
  pub proto : ℕ
  pub src : IpAddr
  pub sport : ℕ
  pub dst : IpAddr
  pub dport : ℕ

abbrev pub tuple_beq : Tuple → Tuple → Bool
tuple_beq t u =
    t.proto == u.proto
    && t.src == u.src
    && t.sport == u.sport
    && t.dst == u.dst
    && t.dport == u.dport

pub tuple_beq_iff : (t u : Tuple) → (tuple_beq t u ≡ true) ↔ (t ≡ u)
tuple_beq_iff t u = ground (arith, addr_eq.same_iff t.src u.src, addr_eq.same_iff t.dst u.dst)

instance abbrev pub tuple_eq : PartialEq Tuple
tuple_eq = record { same = tuple_beq; same_iff = tuple_beq_iff }

pub data Confidence : Type 0 where
  kernel exact local port : Confidence

-- `Confidence::as_str`
unfoldable pub show_confidence : Confidence → Str
show_confidence kernel = codes "kernel"
show_confidence exact = codes "exact"
show_confidence local = codes "local"
show_confidence port = codes "port"

pub record Attribution : Type 0 where
  pub owner : Owner
  pub confidence : Confidence

abbrev pub LocalKey : Type 0
LocalKey = ℕ × IpAddr × ℕ

abbrev pub PortKey : Type 0
PortKey = ℕ × ℕ

pub record Tables : Type 0 where
  pub exact : List (Tuple × Owner)
  pub local : List (LocalKey × Owner)
  pub port : List (PortKey × Owner)
  pub contested_local : List LocalKey
  pub contested_port : List PortKey

-- `Tables::default()`
abbrev pub no_tables : Tables
no_tables = record { exact = []; local = []; port = []; contested_local = []; contested_port = [] }

-- The `match` that `add_local` and `add_port` share: the first owner of a key stays, and a second
-- process makes the key contested.
unfoldable pub claim {ℓ} :
    {K : Type ℓ} ⦃e : PartialEq K⦄
    → K
    → Owner
    → List (K × Owner)
    → List K
    → List (K × Owner) × List K
claim k o m c = elim (lookup k m) [
  | none ↦ (put k o m, c)
  | some prev ↦ if prev.pid == o.pid then (m, c) else (m, insert k c)
]

unfoldable pub add_local : LocalKey → Owner → Tables → Tables
add_local k o t =
    let (m, c) = claim k o t.local t.contested_local in record t { local = m; contested_local = c }

unfoldable pub add_port : PortKey → Owner → Tables → Tables
add_port k o t =
    let (m, c) = claim k o t.port t.contested_port in record t { port = m; contested_port = c }

-- A weak tier: the owner of the key, unless the key is contested.
unfoldable pub uncontested {ℓ} :
    {K : Type ℓ} ⦃e : PartialEq K⦄ → K → List (K × Owner) → List K → Option Owner
uncontested k m c = if contains k c then none else lookup k m

unfoldable pub get : Tables → Tuple → Bool → Option Attribution
get ts t outbound = elim (lookup t ts.exact) [
  | some o ↦ some (record { owner = o; confidence = exact })
  | none ↦
      if not outbound
      then none
      else elim (uncontested (t.proto, t.src, t.sport) ts.local ts.contested_local) [
        | some o ↦ some (record { owner = o; confidence = local })
        | none ↦ elim (uncontested (t.proto, t.sport) ts.port ts.contested_port) [
          | some o ↦ some (record { owner = o; confidence = port })
          | none ↦ none
        ]
      ]
]

-- A socket address as the kernel gives it: the two bytes of the port, and the address.
pub data Sockaddr : Type 0 where
  inet : ℕ → ℕ → List ℕ → Sockaddr
  inet6 : ℕ → ℕ → List ℕ → Sockaddr
  other_family : Sockaddr

unfoldable pub bound : ℕ → IpAddr → Option (IpAddr × ℕ)
bound p a = if p == 0 then none else some (a, p)

unfoldable pub endpoint : Sockaddr → Option (IpAddr × ℕ)
endpoint (inet hi lo a) = bound (be16 hi lo) (v4 a)
endpoint (inet6 hi lo a) = bound (be16 hi lo) (v6 a)
endpoint other_family = none

pub record Socket : Type 0 where
  pub proto : ℕ
  pub here : Sockaddr
  pub peer : Sockaddr

abbrev pub all_zero : List ℕ → Bool
all_zero [] = true
all_zero (b ∷ bs) = b == 0 && all_zero bs

-- `is_unspecified`
unfoldable pub is_unspecified : IpAddr → Bool
is_unspecified (v4 o) = all_zero o
is_unspecified (v6 o) = all_zero o

-- A socket with a peer goes to the exact tier, one with none to the weak tiers.
unfoldable pub add_ends : ℕ → Owner → Option (IpAddr × ℕ) → Option (IpAddr × ℕ) → Tables → Tables
add_ends proto o none peer ts = ts
add_ends proto o (some (sa, sp)) (some (da, dp)) ts = record ts {
  exact = put (record { proto = proto; src = sa; sport = sp; dst = da; dport = dp }) o ts.exact;
}
add_ends proto o (some (sa, sp)) none ts =
    if is_unspecified sa
    then add_port (proto, sp) o ts
    else add_port (proto, sp) o (add_local (proto, sa, sp) o ts)

unfoldable pub add_socket : Owner × Socket → Tables → Tables
add_socket (o, s) ts = add_ends s.proto o (endpoint s.here) (endpoint s.peer) ts

unfoldable pub add_sockets : List (Owner × Socket) → Tables → Tables
add_sockets [] ts = ts
add_sockets (s ∷ ss) ts = add_sockets ss (add_socket s ts)

-- What libprocstat says of a process: no path if it cannot be told, no files if it is gone.
pub record Process : Type 0 where
  pub pid : ℕ
  pub command : Str
  pub path : Option Str
  pub sockets : Option (List Socket)

abbrev unknown_path : Str → Str
unknown_path command = codes "<unknown:" ++ (command ++ codes ">")

unfoldable pub owner_path : Str → Option Str → Str
owner_path command none = unknown_path command
owner_path command (some p) = if is_empty p then unknown_path command else p

unfoldable pub owner_of : Process → Owner
owner_of p = record { pid = p.pid; command = p.command; path = owner_path p.command p.path }

unfoldable pub held : Process → List (Owner × Socket)
held p = elim p.sockets [ some ss ↦ map (λ s. (owner_of p, s)) ss | none ↦ [] ]

-- Every socket with its owner, in the order of the two loops.
unfoldable pub all_held : List Process → List (Owner × Socket)
all_held [] = []
all_held (p ∷ ps) = held p ++ all_held ps

-- No list of processes where libprocstat cannot be opened or gives none.
unfoldable pub snapshot : Option (List Process) → Tables
snapshot none = no_tables
snapshot (some ps) = add_sockets (all_held ps) no_tables
