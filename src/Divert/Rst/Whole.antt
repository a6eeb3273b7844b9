-- ===== src/Divert/Rst/Whole.antt =====
-- src/divert.rs: `tcp_rst` as a whole, from the bytes of a packet to a reset that is accepted.
use mathlib.Core.List.{append_assoc}
use pfsnitch.Addr.{IpAddr, v4, v6}
use pfsnitch.Base.{
  ℕ, zero, suc, ◌+◌, ◌*◌, ◌^◌, ◌<◌, ◌≤◌, false, List, [], ◌∷◌, ◌++◌, ◌≡◌, ◌∙◌, refl, ap, sym, arith,
  ltb, nat_eq, length, length-append, All-append,
}
use pfsnitch.Divert.Csum.{csum, word_sum, IsEven, word_sum-append, word_sum-le}
use pfsnitch.Divert.Rst.Accepted.{
  IsBytes, IsRoute, IsAccepted, Resets, next_seq, segment_from, sealed-Resets, IsEven-double,
  length-sealed, accept_v4, accept_v6,
}
use pfsnitch.Divert.Rst.Route.{l3-HasRoute}
use pfsnitch.Divert.Rst.Valid.{sealed-SumsUp, sealed_v4-SumsUp}
use pfsnitch.Divert.Rst.{
  header_v4, header_v6, pseudo_v4, pseudo_v6, sealed, sealed_v4, build_rst, rst_ack, tcp_rst,
}
use pfsnitch.Divert.{ok, index, index16, L3, l3, has_bit, be16}

pair-word_sum :
    (a b : List ℕ) → IsBytes a → IsBytes b → word_sum (a ++ b) ≤ 65535 * (length a + length b)
pair-word_sum a b ba bb =
    let le = word_sum-le (a ++ b) (All-append (λ x. x < 256) a b ba bb) in
    omega (arith, le, length-append a b)

-- A pseudo-header has even length, and its words sum to few bits.
pseudo-fits :
    (n m : ℕ) (a b t : List ℕ)
    → n ≤ 16
    → length a ≡ n
    → length b ≡ n
    → length t ≡ m + m
    → word_sum t < 2 ^ 20
    → word_sum (a ++ b) ≤ 65535 * (length a + length b)
    → IsEven (a ++ (b ++ t)) × (word_sum (a ++ (b ++ t)) < 2 ^ 30)
pseudo-fits n m a b t small la lb lt st sum =
    let even = IsEven-double n (a ++ b) (length-append a b ∙ omega (arith, la, lb)) in
    let words = ap word_sum (sym (append_assoc a b t)) ∙ word_sum-append (a ++ b) t even in
    (
      IsEven-double (n + m) (a ++ (b ++ t))
          (length-append a (b ++ t) ∙ omega (arith, length-append b t, la, lb, lt)),
      omega (arith, words, sum, la, lb),
    )

-- What a reset is to be: accepted on its way back from `d` to `s`, and a segment that resets.
abbrev IsReset : IpAddr → IpAddr → ℕ → ℕ → ℕ → ℕ → List ℕ → Type 0
IsReset s d sport dport flags seq rst =
    IsAccepted d s rst × Resets sport dport flags seq (segment_from d rst)

build_rst-IsReset :
    (s d : IpAddr) (sport dport flags seq : ℕ)
    → IsRoute s d
    → sport < 65536
    → dport < 65536
    → (rst : List ℕ) × (build_rst s d sport dport (next_seq flags seq) ≡ ok rst)
      × IsReset s d sport dport flags seq rst
unfolding build_rst pseudo_v4 pseudo_v6 sealed_v4
build_rst-IsReset (v4 s) (v4 d) sport dport flags seq (ls, ld, bs, bd) hs hd =
    let sum = pair-word_sum d s bd bs in
    let seg = sealed (pseudo_v4 d s) sport dport (next_seq flags seq) in
    let pseudo =
      pseudo-fits 4 2 d s (0 ∷ 6 ∷ 0 ∷ 20 ∷ []) (omega arith) ld ls refl
        (unfold word_sum in omega arith) sum in
    let (accepted, behind) =
      accept_v4 d s seg (csum (header_v4 d s 0 ∷ [])) ld ls
        (length-sealed (pseudo_v4 d s) sport dport (next_seq flags seq))
        (sealed_v4-SumsUp d s (omega (arith, sum, ld, ls)))
        (sealed-SumsUp (pseudo_v4 d s) sport dport (next_seq flags seq) pseudo.0 pseudo.1 hs hd
          (omega arith)) in
    (
      sealed_v4 d s ++ seg,
      refl,
      (accepted, rw behind (sealed-Resets (pseudo_v4 d s) sport dport flags seq)),
    )
build_rst-IsReset (v6 s) (v6 d) sport dport flags seq (ls, ld, bs, bd) hs hd =
    let sum = pair-word_sum d s bd bs in
    let seg = sealed (pseudo_v6 d s) sport dport (next_seq flags seq) in
    let pseudo =
      pseudo-fits 16 4 d s (0 ∷ 0 ∷ 0 ∷ 20 ∷ 0 ∷ 0 ∷ 0 ∷ 6 ∷ []) (omega arith) ld ls refl
        (unfold word_sum in omega arith) sum in
    let (accepted, behind) =
      accept_v6 d s seg ld ls (length-sealed (pseudo_v6 d s) sport dport (next_seq flags seq)) (
        sealed-SumsUp (pseudo_v6 d s) sport dport (next_seq flags seq) pseudo.0 pseudo.1 hs hd
          (omega arith)) in
    (
      header_v6 d s ++ seg,
      refl,
      (accepted, rw behind (sealed-Resets (pseudo_v6 d s) sport dport flags seq)),
    )
build_rst-IsReset (v4 s) (v6 d) sport dport flags seq r hs hd = absurd r
build_rst-IsReset (v6 s) (v4 d) sport dport flags seq r hs hd = absurd r

index-byte :
    (pkt : List ℕ) (i : ℕ)
    → IsBytes pkt
    → i < length pkt
    → (b : ℕ) × (b < 256) × (index pkt i ≡ ok b)
unfolding index
index-byte [] i h lt = absurd (omega arith)
index-byte (b ∷ bs) zero h lt = (b, h.0, refl)
index-byte (b ∷ bs) (suc i) h lt = index-byte bs i h.1 (omega arith)

of_ok : (n m : ℕ) → ok n ≡ ok m → n ≡ m
of_ok n m e = cc

index16-byte :
    (pkt : List ℕ) (i : ℕ)
    → IsBytes pkt
    → i + 1 < length pkt
    → (n : ℕ) × (n < 65536) × (index16 pkt i ≡ ok n)
unfolding index16
index16-byte pkt i h lt =
    let (hi, hb, e) = index-byte pkt i h (omega arith) in
    let (lo, lb, e') = index-byte pkt (i + 1) h lt in (be16 hi lo, omega arith, rw (e, e') refl)

index16-lt :
    (pkt : List ℕ) (i n : ℕ) → IsBytes pkt → i + 1 < length pkt → index16 pkt i ≡ ok n → n < 65536
index16-lt pkt i n h lt e =
    let (m, small, e') = index16-byte pkt i h lt in
    let same : n ≡ m = of_ok n m (sym e ∙ e') in omega (arith, same, small)

-- Every segment of TCP that is no reset is answered with one: for a packet of bytes that is a whole TCP
-- segment over IPv4 or IPv6 without RST, `tcp_rst` builds a reset. It goes from the packet's
-- destination to its source, its IP header gives its length, and the checksum of the IPv4 header and
-- that of the segment, which covers the addresses and the length, are right. Its segment has the
-- packet's ports swapped, RST and ACK set and no other flag, no options and no data, and the sequence
-- number 0, and it acknowledges the packet's sequence number, or for a SYN the next one, modulo 2 ^ 32.
pub tcp_rst-IsReset :
    (pkt : List ℕ) (h : L3) (flags sport dport high low : ℕ)
    → IsBytes pkt
    → l3 pkt ≡ ok h
    → h.proto ≡ 6
    → h.l4 + 20 ≤ length pkt
    → index16 pkt h.l4 ≡ ok sport
    → index16 pkt (h.l4 + 2) ≡ ok dport
    → index16 pkt (h.l4 + 4) ≡ ok high
    → index16 pkt (h.l4 + 6) ≡ ok low
    → index pkt (h.l4 + 13) ≡ ok flags
    → has_bit 4 flags ≡ false
    → (rst : List ℕ) × (tcp_rst pkt ≡ ok rst)
      × IsAccepted h.dst h.src rst
      × Resets sport dport flags (high * 2 ^ 16 + low) (segment_from h.dst rst)
unfolding tcp_rst rst_ack
tcp_rst-IsReset pkt h flags sport dport high low bytes e tcp long es ed eh el ef no_rst =
    let (rst, built, (accepted, resets)) =
      build_rst-IsReset h.src h.dst sport dport flags (high * 2 ^ 16 + low)
        (l3-HasRoute pkt h bytes e) (index16-lt pkt h.l4 sport bytes (omega arith) es)
        (index16-lt pkt (h.l4 + 2) dport bytes (omega arith) ed) in
    let enough : ltb (length pkt) (h.l4 + 20) ≡ false = ground arith in
    (rst, rw (e, tcp, enough, ef, no_rst, es, ed, eh, el) built, accepted, resets)
