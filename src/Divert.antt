-- ===== src/Divert.antt =====
-- src/divert.rs: the packet parser. A packet is the list of its bytes. A slice index out of range
-- panics in the source, so an index here gives `panic`; the source's `None` is `refused`. The
-- socket calls (`bind`, `recv`, `reinject`) are the kernel's.
pub mod Safe
pub mod Csum
pub mod Rst
use Prim.Native.Nat.{bit_and}
use pfsnitch.Addr.{IpAddr, v4, v6}
use pfsnitch.Base.{
  ℕ, zero, suc, ◌+◌, ◌*◌, ◌/◌, ◌%◌, Bool, true, false, not, ◌&&◌, ◌||◌, List, [], ◌∷◌, Option, none,
  some, if◌then◌else◌, ◌==◌, nat_eq, length, get_elem?, take, drop, ltb, leb,
}

pub data Parsed {ℓ} (A : Type ℓ) : Type ℓ where
  ok : A → Parsed A
  refused : Parsed A
  panic : Parsed A

infixl 5 ◌>>=◌ ◌>>◌
abbrev pub ◌>>=◌ {ℓ κ} : {A : Type ℓ} {B : Type κ} → Parsed A → (A → Parsed B) → Parsed B
ok a >>= f = f a
refused >>= f = refused
panic >>= f = panic

abbrev pub ◌>>◌ {ℓ} : {B : Type ℓ} → Parsed (Unit {0}) → Parsed B → Parsed B
m >> k = m >>= λ _. k

-- `if bad { return None; }`
abbrev pub refuse_if : Bool → Parsed (Unit {0})
refuse_if true = refused
refuse_if false = ok tt

-- `pkt[i]`
unfoldable pub index : List ℕ → ℕ → Parsed ℕ
index [] i = panic
index (b ∷ bs) zero = ok b
index (b ∷ bs) (suc i) = index bs i

-- `*pkt.get(i)?`
unfoldable pub get : List ℕ → ℕ → Parsed ℕ
get [] i = refused
get (b ∷ bs) zero = ok b
get (b ∷ bs) (suc i) = get bs i

-- `copy_from_slice(&pkt[from..from + n])`
unfoldable pub slice : List ℕ → ℕ → ℕ → Parsed (List ℕ)
slice pkt from n = if ltb (length pkt) (from + n) then panic else ok (take n (drop from pkt))

abbrev pub be16 : ℕ → ℕ → ℕ
be16 hi lo = hi * 256 + lo

-- `u16::from_be_bytes([pkt[i], pkt[i + 1]])`
unfoldable pub index16 : List ℕ → ℕ → Parsed ℕ
index16 pkt i = do hi ← index pkt i; lo ← index pkt (i + 1); ok (be16 hi lo)

pub record Flow : Type 0 where
  pub proto : ℕ
  pub src : IpAddr
  pub dst : IpAddr
  pub sport : ℕ
  pub dport : ℕ
  pub syn_only : Bool

pub record L3 : Type 0 where
  pub proto : ℕ
  pub src : IpAddr
  pub dst : IpAddr
  pub l4 : ℕ

-- The length of the extension header `nh` at `off`; none where `nh` is the upper layer.
unfoldable pub ext_len : List ℕ → ℕ → ℕ → Parsed (Option ℕ)
ext_len pkt nh off =
    if nh == 0 || nh == 43 || nh == 60
    then (do l ← get pkt (off + 1); ok (some ((l + 1) * 8)))
    else if nh == 44
    then (do
      hi ← get pkt (off + 2)
      lo ← get pkt (off + 3)
      refuse_if (not (be16 hi lo / 8 == 0))
      ok (some 8))
    else if nh == 51
    then (do l ← get pkt (off + 1); ok (some ((l + 2) * 4)))
    else ok none

-- `for _ in 0..8`, over the rounds that are left.
unfoldable pub skip_ext : ℕ → List ℕ → ℕ → ℕ → Parsed (ℕ × ℕ)
skip_ext zero pkt nh off = refused
skip_ext (suc rounds) pkt nh off = ext_len pkt nh off >>= elim [
  | none ↦ ok (nh, off)
  | some len ↦ do
    nh' ← get pkt off
    refuse_if (leb (length pkt) (off + len))
    skip_ext rounds pkt nh' (off + len)
]

abbrev pub max_ext : ℕ
max_ext = 8

unfoldable pub l3_v4 : List ℕ → Parsed L3
l3_v4 pkt = do
  refuse_if (ltb (length pkt) 20)
  b ← index pkt 0
  let ihl = b % 16 * 4
  refuse_if (ltb ihl 20 || ltb (length pkt) ihl)
  proto ← index pkt 9
  s0 ← index pkt 12
  s1 ← index pkt 13
  s2 ← index pkt 14
  s3 ← index pkt 15
  d0 ← index pkt 16
  d1 ← index pkt 17
  d2 ← index pkt 18
  d3 ← index pkt 19
  ok (record {
    proto = proto;
    src = v4 (s0 ∷ s1 ∷ s2 ∷ s3 ∷ []);
    dst = v4 (d0 ∷ d1 ∷ d2 ∷ d3 ∷ []);
    l4 = ihl;
  })

unfoldable pub l3_v6 : List ℕ → Parsed L3
l3_v6 pkt = do
  refuse_if (ltb (length pkt) 40)
  s ← slice pkt 8 16
  d ← slice pkt 24 16
  nh ← index pkt 6
  (proto, l4) ← skip_ext max_ext pkt nh 40
  ok (record { proto = proto; src = v6 s; dst = v6 d; l4 = l4 })

unfoldable pub l3 : List ℕ → Parsed L3
l3 pkt = do
  b ← get pkt 0
  if b / 16 == 4 then l3_v4 pkt else if b / 16 == 6 then l3_v6 pkt else refused

-- Bit `k` of a byte, at its weight: `flags & 0x02` and the like.
abbrev pub has_bit : ℕ → ℕ → Bool
has_bit weight b = not (b / weight % 2 == 0)

-- SYN set and ACK clear, in a TCP segment that is long enough to tell.
unfoldable pub syn_only : List ℕ → L3 → Parsed Bool
syn_only pkt h =
    if h.proto == 6 && leb (h.l4 + 14) (length pkt)
    then (do flags ← index pkt (h.l4 + 13); ok (has_bit 2 flags && not (has_bit 16 flags)))
    else ok false

unfoldable pub parse : List ℕ → Parsed Flow
parse pkt = do
  h ← l3 pkt
  refuse_if (ltb (length pkt) (h.l4 + 4))
  sport ← index16 pkt h.l4
  dport ← index16 pkt (h.l4 + 2)
  syn ← syn_only pkt h
  ok (record {
    proto = h.proto;
    src = h.src;
    dst = h.dst;
    sport = sport;
    dport = dport;
    syn_only = syn;
  })

unfoldable pub payload_of : List ℕ → L3 → Parsed ℕ
payload_of pkt h =
    if h.proto == 17
    then ok (h.l4 + 8)
    else if h.proto == 6
    then (do b ← get pkt (h.l4 + 12); ok (h.l4 + b / 16 * 4))
    else refused

unfoldable pub payload_offset : List ℕ → Parsed ℕ
payload_offset pkt = do h ← l3 pkt; payload_of pkt h
