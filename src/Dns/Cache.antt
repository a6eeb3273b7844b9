-- ===== src/Dns/Cache.antt =====
-- src/dns.rs: `DnsCache`. Instants are numbers of seconds.
use pfsnitch.Addr.{IpAddr, addr_eq}
use pfsnitch.Base.{
  ℕ, ◌-◌, ◌<◌, true, List, [], ◌∷◌, Option, none, some, ◌≡◌, refl, arith, if◌then◌else◌, length,
  ltb, lookup, put, lookup-put, ◌==◌, any,
}
use pfsnitch.Divert.{ok, refused, panic}
use pfsnitch.Dns.{parse_response}
use pfsnitch.Text.{Str, Unicode}

abbrev pub Entry : Type 0
Entry = Str × ℕ

-- `DnsCache`; its `ttl` is constant.
abbrev pub DnsCache : Type 0
DnsCache = List (IpAddr × Entry)

abbrev pub ttl : ℕ
ttl = 3600

abbrev pub capacity : ℕ
capacity = 4096

unfoldable pub name_for : DnsCache → IpAddr → Option Str
name_for c ip = elim (lookup ip c) [ some (n, t) ↦ some n | none ↦ none ]

unfoldable pub learn : Str → ℕ → List IpAddr → DnsCache → DnsCache
learn name now [] c = c
learn name now (ip ∷ ips) c = learn name now ips (put ip (name, now) c)

-- `retain` of the entries that have not expired.
unfoldable pub retain : ℕ → DnsCache → DnsCache
retain now [] = []
retain now ((ip, (n, t)) ∷ c) =
    let rest = retain now c in if ltb (now - t) ttl then (ip, (n, t)) ∷ rest else rest

unfoldable pub expire : ℕ → DnsCache → DnsCache
expire now c = if ltb capacity (length c) then retain now c else c

module _ ⦃u : Unicode⦄ where
  unfoldable pub observe : DnsCache → List ℕ → ℕ → DnsCache
  observe c payload now = elim (parse_response payload) [
    | ok (name, ips) ↦ expire now (learn name now ips c)
    | refused ↦ expire now c
    | panic ↦ c
  ]

pub lookup-learn :
    (name : Str) (now : ℕ) (ips : List IpAddr) (c : DnsCache) (ip : IpAddr)
    → lookup ip (learn name now ips c)
      ≡ (if any (λ a. a == ip) ips then some (name, now) else lookup ip c)
unfolding learn any
lookup-learn name now [] c ip = refl
lookup-learn name now (a ∷ ips) c ip =
    ground
      (arith, lookup-learn name now ips (put a (name, now) c) ip, lookup-put a ip (name, now) c)

-- Expiry keeps what has not expired.
lookup-retain :
    (now : ℕ) (c : DnsCache) (ip : IpAddr) (name : Str) (t : ℕ)
    → lookup ip c ≡ some (name, t)
    → now - t < ttl
    → lookup ip (retain now c) ≡ some (name, t)
unfolding lookup retain
lookup-retain now [] ip name t h k = ground (arith, h)
lookup-retain now ((a, (n, s)) ∷ c) ip name t h k = ground (arith, h, lookup-retain now c ip name t)

module _ ⦃u : Unicode⦄ where
  -- After an answer was observed, each address of it has the name that was asked for, whatever the
  -- cache held and whether or not it expires entries.
  pub name_for-observe :
      (c : DnsCache) (payload : List ℕ) (now : ℕ) (name : Str) (ips : List IpAddr) (ip : IpAddr)
      → parse_response payload ≡ ok (name, ips)
      → any (λ a. a == ip) ips ≡ true
      → name_for (observe c payload now) ip ≡ some name
  unfolding observe name_for expire
  name_for-observe c payload now name ips ip e h =
      let found : lookup ip (learn name now ips c) ≡ some (name, now) =
        ground (arith, lookup-learn name now ips c ip, h) in
      ground
        (arith, e, found, lookup-retain now (learn name now ips c) ip name now found (omega arith))
