-- ===== src/Divert/Rst/Accepted.antt =====
-- What a receiver asks of the reset that src/divert.rs builds, read off the whole packet at the
-- places that RFC 791, RFC 8200 and RFC 9293 give: that it is well formed, and that it resets.
use mathlib.Core.List.{append_assoc}
use pfsnitch.Addr.{IpAddr, v4, v6}
use pfsnitch.Base.{
  ℕ, zero, suc, ◌+◌, ◌-◌, ◌/◌, ◌%◌, ◌^◌, ◌<◌, nat_eq, if◌then◌else◌, List, [], ◌∷◌, ◌++◌, ◌≡◌, ◌∙◌,
  refl, ap, sym, arith, All, take, drop, length, length-append, take-append, drop-append,
}
use pfsnitch.Divert.{ok, index, index16, has_bit, be16}
use pfsnitch.Divert.Csum.{word_sum, IsEven}
use pfsnitch.Divert.Rst.Valid.{SumsUp}
use pfsnitch.Divert.Rst.{
  bytes16, bytes32, segment, header_v4, header_v6, pseudo_v4, pseudo_v6, sealed,
}

abbrev pub IsBytes : List ℕ → Type 0
IsBytes bs = All (λ b. b < 256) bs

-- Two addresses of one version, with the bytes they have.
abbrev pub IsRoute : IpAddr → IpAddr → Type 0
IsRoute (v4 s) (v4 d) = (length s ≡ 4) × (length d ≡ 4) × IsBytes s × IsBytes d
IsRoute (v6 s) (v6 d) = (length s ≡ 16) × (length d ≡ 16) × IsBytes s × IsBytes d
IsRoute _ _ = ⊥

-- The length that an IPv4 header gives is that of the packet, the words of the header add up, and so
-- do those of the segment behind its addresses, protocol and length.
abbrev pub IsAcceptedV4 : List ℕ → Type 0
IsAcceptedV4 pkt =
    (word_sum (take 2 (drop 2 pkt)) ≡ length pkt)
    × SumsUp (take 20 pkt)
    × SumsUp (
        take 8 (drop 12 pkt)
        ++ (0 ∷ (take 1 (drop 9 pkt) ++ (bytes16 (length pkt - 20) ++ drop 20 pkt))))

-- An IPv6 header has no checksum, and gives the length of what follows it.
abbrev pub IsAcceptedV6 : List ℕ → Type 0
IsAcceptedV6 pkt =
    (word_sum (take 2 (drop 4 pkt)) ≡ length pkt - 40)
    × SumsUp (
        take 32 (drop 8 pkt)
        ++ (bytes32 (length pkt - 40) ++ (0 ∷ 0 ∷ 0 ∷ (take 1 (drop 6 pkt) ++ drop 40 pkt))))

-- A packet from one address to another, both of one version, that is accepted.
abbrev pub IsAccepted : IpAddr → IpAddr → List ℕ → Type 0
IsAccepted (v4 from) (v4 to) pkt =
    (take 4 (drop 12 pkt) ≡ from) × (take 4 (drop 16 pkt) ≡ to) × IsAcceptedV4 pkt
IsAccepted (v6 from) (v6 to) pkt =
    (take 16 (drop 8 pkt) ≡ from) × (take 16 (drop 24 pkt) ≡ to) × IsAcceptedV6 pkt
IsAccepted _ _ pkt = ⊥

-- The segment of a packet that is sent from an address, behind the twenty bytes of an IPv4 header or
-- the forty of an IPv6 header.
abbrev pub segment_from : IpAddr → List ℕ → List ℕ
segment_from (v4 from) pkt = drop 20 pkt
segment_from (v6 from) pkt = drop 40 pkt

-- The sequence number behind a segment without data: a SYN takes one.
abbrev pub next_seq : ℕ → ℕ → ℕ
next_seq flags seq = (seq + (if has_bit 2 flags then 1 else 0)) % 2 ^ 32

-- The segment that resets the connection which a segment with these ports, flags and sequence number
-- opens (RFC 9293, 3.10.7.1): ports swapped, sequence number 0, the acknowledgement of what was sent,
-- no options, and of the flags RST and ACK.
pub record Resets (sport dport flags seq : ℕ) (seg : List ℕ) : Type 0 where
  pub from_port : index16 seg 0 ≡ ok dport
  pub to_port : index16 seg 2 ≡ ok sport
  pub seq_high : index16 seg 4 ≡ ok 0
  pub seq_low : index16 seg 6 ≡ ok 0
  pub ack_high : index16 seg 8 ≡ ok (next_seq flags seq / 2 ^ 16)
  pub ack_low : index16 seg 10 ≡ ok (next_seq flags seq % 2 ^ 16)
  pub data_offset : index seg 12 ≡ ok 0x50
  pub rst_and_ack : index seg 13 ≡ ok 0x14
  pub whole : length seg ≡ 20

pub IsEven-double : (k : ℕ) (xs : List ℕ) → length xs ≡ k + k → IsEven xs
IsEven-double k [] h = tt
IsEven-double zero (x ∷ xs) h = absurd (omega (arith, h))
IsEven-double (suc k) (x ∷ []) h = absurd (omega (arith, h))
IsEven-double (suc k) (x ∷ y ∷ xs) h = IsEven-double k xs (omega (arith, h))

take-at : (n : ℕ) (xs ys : List ℕ) → length xs ≡ n → take n (xs ++ ys) ≡ xs
take-at n xs ys h = ap (λ k. take k (xs ++ ys)) (sym h) ∙ take-append xs ys

drop-at : (n : ℕ) (xs ys : List ℕ) → length xs ≡ n → drop n (xs ++ ys) ≡ ys
drop-at n xs ys h = ap (λ k. drop k (xs ++ ys)) (sym h) ∙ drop-append xs ys

-- A segment is twenty bytes, whatever its checksum.
pub length-sealed :
    (pseudo : List ℕ) (sport dport ack : ℕ) → length (sealed pseudo sport dport ack) ≡ 20
unfolding sealed segment
length-sealed pseudo sport dport ack = refl

pub be16-bytes16 : (n : ℕ) → be16 (n / 256) (n % 256) ≡ n
be16-bytes16 n = omega arith

pub sealed-Resets :
    (pseudo : List ℕ) (sport dport flags seq : ℕ)
    → Resets sport dport flags seq (sealed pseudo sport dport (next_seq flags seq))
unfolding sealed segment index16 index
sealed-Resets pseudo sport dport flags seq = record {
  from_port = ap ok (be16-bytes16 dport);
  to_port = ap ok (be16-bytes16 sport);
  seq_high = refl;
  seq_low = refl;
  ack_high = ap ok (omega arith);
  ack_low = ap ok (omega arith);
  data_offset = refl;
  rst_and_ack = refl;
  whole = refl;
}

-- What the places of a packet hold whose bytes behind the first ones are two addresses and a segment.
module _ (n : ℕ) (a b seg : List ℕ) (la : length a ≡ n) (lb : length b ≡ n) where
  addresses : take (n + n) ((a ++ b) ++ seg) ≡ a ++ b
  addresses = take-at (n + n) (a ++ b) seg (length-append a b ∙ omega (arith, la, lb))

  behind : drop (n + n) ((a ++ b) ++ seg) ≡ seg
  behind = drop-at (n + n) (a ++ b) seg (length-append a b ∙ omega (arith, la, lb))

  first_address : take n ((a ++ b) ++ seg) ≡ a
  first_address = ap (take n) (append_assoc a b seg) ∙ take-at n a (b ++ seg) la

  second_address : take n (drop n ((a ++ b) ++ seg)) ≡ b
  second_address =
      ap (take n) (ap (drop n) (append_assoc a b seg) ∙ drop-at n a (b ++ seg) la)
      ∙ take-at n b seg lb

  length-packet : length seg ≡ 20 → length ((a ++ b) ++ seg) ≡ n + n + 20
  length-packet ls = length-append (a ++ b) seg ∙ omega (arith, length-append a b, la, lb, ls)

  regroup : (t : List ℕ) → (a ++ (b ++ t)) ++ seg ≡ (a ++ b) ++ (t ++ seg)
  regroup t =
      append_assoc a (b ++ t) seg
      ∙ (ap (λ u. a ++ u) (append_assoc b t seg) ∙ sym (append_assoc a b (t ++ seg)))

pub accept_v4 :
    (a b seg : List ℕ) (ck : ℕ)
    → length a ≡ 4
    → length b ≡ 4
    → length seg ≡ 20
    → SumsUp (header_v4 a b ck)
    → SumsUp (pseudo_v4 a b ++ seg)
    → IsAccepted (v4 a) (v4 b) (header_v4 a b ck ++ seg) × (drop 20 (header_v4 a b ck ++ seg) ≡ seg)
unfolding header_v4 pseudo_v4
accept_v4 a b seg ck la lb ls head tail =
    let len = length-packet 4 a b seg la lb ls in
    let at = addresses 4 a b seg la lb in
    (
      (
        first_address 4 a b seg la lb,
        second_address 4 a b seg la lb,
        (
          unfold word_sum in omega (arith, len),
          rw at head,
          rw (at, behind 4 a b seg la lb, len)
              (rw (sym (regroup 4 a b seg la lb (0 ∷ 6 ∷ 0 ∷ 20 ∷ []))) tail),
        ),
      ),
      behind 4 a b seg la lb,
    )

pub accept_v6 :
    (a b seg : List ℕ)
    → length a ≡ 16
    → length b ≡ 16
    → length seg ≡ 20
    → SumsUp (pseudo_v6 a b ++ seg)
    → IsAccepted (v6 a) (v6 b) (header_v6 a b ++ seg) × (drop 40 (header_v6 a b ++ seg) ≡ seg)
unfolding header_v6 pseudo_v6
accept_v6 a b seg la lb ls tail =
    let len = length-packet 16 a b seg la lb ls in
    let last : List ℕ = 0 ∷ 0 ∷ 0 ∷ 20 ∷ 0 ∷ 0 ∷ 0 ∷ 6 ∷ [] in
    (
      (
        first_address 16 a b seg la lb,
        second_address 16 a b seg la lb,
        (
          unfold word_sum in omega (arith, len),
          rw (addresses 16 a b seg la lb, behind 16 a b seg la lb, len)
              (rw (sym (regroup 16 a b seg la lb last)) tail),
        ),
      ),
      behind 16 a b seg la lb,
    )
