-- ===== src/Procinfo/Probe.antt =====
-- src/procinfo.rs: `Tables::entries`, the rows of `pfsnitch probe`. The order of the rows of a tier is
-- that of a hash map in the source.
use pfsnitch.Addr.{IpAddr, v4, addr_eq}
use pfsnitch.Base.{
  ℕ, Bool, true, false, ◌&&◌, ◌||◌, List, [], ◌∷◌, ◌++◌, Option, none, some, if◌then◌else◌, ◌==◌,
  nat_eq, pair_eq, triple_eq, any, contains, ◌≡◌, refl, arith, Bool-cases, inl, inr,
}
use pfsnitch.Procinfo.{Owner, Tuple, Confidence, exact, local, port, Tables, LocalKey, PortKey}

pub record ProbeEntry : Type 0 where
  pub proto : ℕ
  pub here : IpAddr
  pub lport : ℕ
  pub peer : Option (IpAddr × ℕ)
  pub owner : Owner
  pub confidence : Confidence

unfoldable pub exact_entries : List (Tuple × Owner) → List ProbeEntry
exact_entries [] = []
exact_entries ((t, o) ∷ m) =
    record {
      proto = t.proto;
      here = t.src;
      lport = t.sport;
      peer = some (t.dst, t.dport);
      owner = o;
      confidence = exact;
    }
    ∷ exact_entries m

unfoldable pub local_entries : List LocalKey → List (LocalKey × Owner) → List ProbeEntry
local_entries contested [] = []
local_entries contested ((k, o) ∷ m) =
    let rest = local_entries contested m in
    if contains k contested
    then rest
    else record { proto = k.0; here = k.1; lport = k.2; peer = none; owner = o; confidence = local }
      ∷ rest

-- `self.local.keys().any(…)`
unfoldable pub has_local : PortKey → List (LocalKey × Owner) → Bool
has_local k locals = any (λ e. e.0.0 == k.0 && e.0.2 == k.1) locals

abbrev unspecified : IpAddr
unspecified = v4 (0 ∷ 0 ∷ 0 ∷ 0 ∷ [])

unfoldable pub port_entries :
    List PortKey → List (LocalKey × Owner) → List (PortKey × Owner) → List ProbeEntry
port_entries contested locals [] = []
port_entries contested locals ((k, o) ∷ m) =
    let rest = port_entries contested locals m in
    if contains k contested || has_local k locals
    then rest
    else record {
      proto = k.0;
      here = unspecified;
      lport = k.1;
      peer = none;
      owner = o;
      confidence = port;
    }
      ∷ rest

unfoldable pub entries : Tables → List ProbeEntry
entries ts =
    exact_entries ts.exact
    ++ (local_entries ts.contested_local ts.local
        ++ port_entries ts.contested_port ts.local ts.port)

-- A row for the protocol and the port.
abbrev pub is_at : ℕ → ℕ → ProbeEntry → Bool
is_at p n e = e.proto == p && e.lport == n

local_entries-has_local :
    (contested : List LocalKey) (locals : List (LocalKey × Owner)) (p n : ℕ)
    → any (is_at p n) (local_entries contested locals) ≡ true
    → has_local (p, n) locals ≡ true
unfolding local_entries has_local any
local_entries-has_local contested [] p n h = h
local_entries-has_local contested ((k, o) ∷ m) p n h =
    ground (arith, h, local_entries-has_local contested m p n)

port_entries-has_local :
    (contested : List PortKey) (locals : List (LocalKey × Owner)) (m : List (PortKey × Owner))
    (p n : ℕ)
    → has_local (p, n) locals ≡ true
    → any (is_at p n) (port_entries contested locals m) ≡ false
unfolding port_entries any
port_entries-has_local contested locals [] p n h = refl
port_entries-has_local contested locals (((q, r), o) ∷ m) p n h =
    elim (Bool-cases (q == p && r == n)) [
      | inl same ↦
          let ep : q ≡ p = ground arith in
          let en : r ≡ n = ground arith in
          ground (arith, h, ep, en, port_entries-has_local contested locals m p n h)
      | inr differ ↦ ground (arith, differ, port_entries-has_local contested locals m p n h)
    ]

-- One socket is one row: where the rows of the local tier show a protocol and a port, no row of the
-- port tier does.
entries-once :
    (ts : Tables) (p n : ℕ)
    → any (is_at p n) (local_entries ts.contested_local ts.local) ≡ true
    → any (is_at p n) (port_entries ts.contested_port ts.local ts.port) ≡ false
entries-once ts p n h =
    port_entries-has_local ts.contested_port ts.local ts.port p n
      (local_entries-has_local ts.contested_local ts.local p n h)
