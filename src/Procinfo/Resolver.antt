-- ===== src/Procinfo/Resolver.antt =====
-- src/procinfo.rs: `Resolver`, the cached attribution. The clock and the snapshot that a scan would
-- take are arguments.
use pfsnitch.Base.{
  ℕ, ◌-◌, Bool, true, false, not, ◌||◌, List, [], Option, none, some, ◌≡◌, arith, if◌then◌else◌,
  ltb, contains, insert, contains-insert, eq_self,
}
use pfsnitch.Procinfo.{Tuple, tuple_eq, Attribution, Tables, no_tables, get}

pub record Resolver : Type 0 where
  pub tables : Tables
  pub last_scan : Option ℕ
  pub missed : List Tuple

-- Milliseconds.
abbrev pub ttl : ℕ
ttl = 750

-- `Resolver::new`
abbrev pub new : Resolver
new = record { tables = no_tables; last_scan = none; missed = [] }

unfoldable pub stale : Resolver → ℕ → Bool
stale r now = elim r.last_scan [ none ↦ true | some t ↦ ltb ttl (now - t) ]

unfoldable pub rescan : Tables → ℕ → Resolver
rescan scan now = record { tables = scan; last_scan = some now; missed = [] }

unfoldable pub miss : Tuple → Resolver → Option Attribution × Resolver
miss t r = (none, record r { missed = insert t r.missed })

unfoldable pub retry : Resolver → Tuple → Bool → Option Attribution × Resolver
retry r t outbound = elim (get r.tables t outbound) [ some a ↦ (some a, r) | none ↦ miss t r ]

unfoldable pub resolve : Resolver → Tables → ℕ → Tuple → Bool → Option Attribution × Resolver
resolve r scan now t outbound = elim (get r.tables t outbound) [
  | some a ↦ (some a, r)
  | none ↦
      if stale r now || not (contains t r.missed)
      then retry (rescan scan now) t outbound
      else miss t r
]

insert-again : (t : Tuple) (s : List Tuple) → insert t (insert t s) ≡ insert t s
unfolding insert
insert-again t s = ground (arith, contains-insert t t s, eq_self t)

-- A flow that missed is not scanned for again before the time to live has passed: whatever the next
-- scan would find, the resolver answers the same and its state does not change.
pub resolve-rate_limit :
    (r : Resolver) (scan : Tables) (now : ℕ) (t : Tuple) (outbound : Bool) (r' : Resolver)
    → resolve r scan now t outbound ≡ (none, r')
    → (scan' : Tables) (now' : ℕ) → stale r' now' ≡ false
    → resolve r' scan' now' t outbound ≡ (none, r')
unfolding resolve retry miss rescan
resolve-rate_limit r scan now t outbound r' e scan' now' fresh = ground (
  arith,
  insert-again t r.missed,
  insert-again t [],
  contains-insert t t r.missed,
  contains-insert t t [],
  eq_self t,
)
