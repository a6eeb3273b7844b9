-- ===== src/Divert/Rst.antt =====
-- src/divert.rs: `tcp_rst`. The vectors that the source fills byte by byte are written as lists.
pub mod Accepted
pub mod Route
pub mod Valid
pub mod Whole
pub mod Answer
pub mod Protocol
use pfsnitch.Addr.{IpAddr, v4, v6}
use pfsnitch.Base.{
  ℕ, ◌+◌, ◌*◌, ◌/◌, ◌%◌, ◌^◌, Bool, not, ◌||◌, List, [], ◌∷◌, ◌++◌, if◌then◌else◌, ◌==◌, nat_eq,
  length, ltb,
}
use pfsnitch.Divert.Csum.{csum}
use pfsnitch.Divert.{
  Parsed, ok, refused, panic, ◌>>=◌, ◌>>◌, refuse_if, index, index16, L3, l3, has_bit,
}

-- `to_be_bytes` of a `u16`, and of a `u32`.
abbrev pub bytes16 : ℕ → List ℕ
bytes16 n = (n / 256) ∷ (n % 256) ∷ []

abbrev pub bytes32 : ℕ → List ℕ
bytes32 n = (n / 2 ^ 24) ∷ (n / 2 ^ 16 % 256) ∷ (n / 2 ^ 8 % 256) ∷ (n % 256) ∷ []

-- The twenty bytes of the segment: ports swapped, sequence number 0, RST and ACK set, window 0,
-- and the checksum that is put in, which is 0 at first.
unfoldable pub segment : ℕ → ℕ → ℕ → ℕ → List ℕ
segment sport dport ack ck =
    bytes16 dport
    ++ (bytes16 sport
        ++ (0 ∷ 0 ∷ 0 ∷ 0 ∷ (bytes32 ack ++ (0x50 ∷ 0x14 ∷ 0 ∷ 0 ∷ (bytes16 ck ++ (0 ∷ 0 ∷ []))))))

unfoldable pub pseudo_v4 : List ℕ → List ℕ → List ℕ
pseudo_v4 so de = so ++ (de ++ (0 ∷ 6 ∷ 0 ∷ 20 ∷ []))

unfoldable pub header_v4 : List ℕ → List ℕ → ℕ → List ℕ
header_v4 so de ck = 0x45 ∷ 0 ∷ 0 ∷ 40 ∷ 0 ∷ 0 ∷ 0 ∷ 0 ∷ 64 ∷ 6 ∷ (bytes16 ck ++ (so ++ de))

unfoldable pub pseudo_v6 : List ℕ → List ℕ → List ℕ
pseudo_v6 so de = so ++ (de ++ (0 ∷ 0 ∷ 0 ∷ 20 ∷ 0 ∷ 0 ∷ 0 ∷ 6 ∷ []))

unfoldable pub header_v6 : List ℕ → List ℕ → List ℕ
header_v6 so de = 0x60 ∷ 0 ∷ 0 ∷ 0 ∷ 0 ∷ 20 ∷ 6 ∷ 64 ∷ (so ++ de)

-- The segment with its checksum over the pseudo-header.
unfoldable pub sealed : List ℕ → ℕ → ℕ → ℕ → List ℕ
sealed pseudo sport dport ack =
    segment sport dport ack (csum (pseudo ∷ segment sport dport ack 0 ∷ []))

unfoldable pub sealed_v4 : List ℕ → List ℕ → List ℕ
sealed_v4 so de = header_v4 so de (csum (header_v4 so de 0 ∷ []))

-- The `match` on the addresses; the reset goes from the destination to the source.
unfoldable pub build_rst : IpAddr → IpAddr → ℕ → ℕ → ℕ → Parsed (List ℕ)
build_rst (v4 s) (v4 d) sport dport ack =
    ok (sealed_v4 d s ++ sealed (pseudo_v4 d s) sport dport ack)
build_rst (v6 s) (v6 d) sport dport ack =
    ok (header_v6 d s ++ sealed (pseudo_v6 d s) sport dport ack)
build_rst _ _ sport dport ack = refused

-- A SYN consumes one sequence number.
unfoldable pub rst_ack : ℕ → ℕ → ℕ
rst_ack flags seq = (seq + (if has_bit 2 flags then 1 else 0)) % 2 ^ 32

unfoldable pub tcp_rst : List ℕ → Parsed (List ℕ)
tcp_rst pkt = do
  h ← l3 pkt
  refuse_if (not (h.proto == 6) || ltb (length pkt) (h.l4 + 20))
  flags ← index pkt (h.l4 + 13)
  refuse_if (has_bit 4 flags)
  sport ← index16 pkt h.l4
  dport ← index16 pkt (h.l4 + 2)
  high ← index16 pkt (h.l4 + 4)
  low ← index16 pkt (h.l4 + 6)
  build_rst h.src h.dst sport dport (rst_ack flags (high * 2 ^ 16 + low))
