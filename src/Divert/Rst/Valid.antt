-- ===== src/Divert/Rst/Valid.antt =====
-- src/divert.rs: the checksums that `tcp_rst` fills in.
use pfsnitch.Base.{ℕ, ◌+◌, ◌-◌, ◌^◌, ◌<◌, List, [], ◌∷◌, ◌++◌, ◌≡◌, ◌∙◌, ap, sym, arith}
use mathlib.Core.List.{append-nil}
use pfsnitch.Divert.Csum.{csum, word_sum, ones, csum-word_sum, IsEven, word_sum-append}
use pfsnitch.Divert.Rst.{segment, header_v4, sealed, sealed_v4}

segment-word_sum :
    (sport dport ack ck : ℕ)
    → ck < 65536
    → word_sum (segment sport dport ack ck) ≡ word_sum (segment sport dport ack 0) + ck
unfolding segment word_sum
segment-word_sum sport dport ack ck h = omega arith

header_v4-word_sum :
    (so de : List ℕ) (ck : ℕ)
    → ck < 65536
    → word_sum (header_v4 so de ck) ≡ 34094 + ck + word_sum (so ++ de)
unfolding header_v4 word_sum
header_v4-word_sum so de ck h = omega arith

segment-bound :
    (sport dport ack ck : ℕ)
    → sport < 65536
    → dport < 65536
    → ack < 2 ^ 32
    → ck < 65536
    → word_sum (segment sport dport ack ck) < 2 ^ 20
unfolding segment word_sum
segment-bound sport dport ack ck hs hd ha hc = omega arith

one_part : (bs : List ℕ) → word_sum bs < 2 ^ 32 → csum (bs ∷ []) ≡ 65535 - ones (word_sum bs)
one_part bs h =
    let same : word_sum (bs ++ []) ≡ word_sum bs = ap word_sum (append-nil bs) in
    csum-word_sum (bs ∷ []) (omega (arith, same)) ∙ ap (λ n. 65535 - ones n) same

two_parts :
    (xs ys : List ℕ)
    → IsEven xs
    → word_sum xs + word_sum ys < 2 ^ 32
    → csum (xs ∷ ys ∷ []) ≡ 65535 - ones (word_sum xs + word_sum ys)
two_parts xs ys e h =
    let same : word_sum (xs ++ (ys ++ [])) ≡ word_sum xs + word_sum ys =
      word_sum-append xs (ys ++ []) e ∙ ap (λ t. word_sum xs + word_sum t) (append-nil ys) in
    csum-word_sum (xs ∷ ys ∷ []) (omega (arith, same)) ∙ ap (λ n. 65535 - ones n) same

csum-le : (parts : List (List ℕ)) → csum parts < 65536
unfolding csum
csum-le parts = omega arith

-- The words of a text add up, in ones-complement arithmetic, to all ones.
abbrev pub SumsUp : List ℕ → Type 0
SumsUp bs = ones (word_sum bs) ≡ 65535

ones-filled : (n : ℕ) → n < 2 ^ 31 → ones (n + (65535 - ones n)) ≡ 65535
ones-filled n h = ground arith

pub sealed-SumsUp :
    (pseudo : List ℕ) (sport dport ack : ℕ)
    → IsEven pseudo
    → word_sum pseudo < 2 ^ 30
    → sport < 65536
    → dport < 65536
    → ack < 2 ^ 32
    → SumsUp (pseudo ++ sealed pseudo sport dport ack)
unfolding sealed
sealed-SumsUp pseudo sport dport ack e hp hs hd ha =
    let seg = segment sport dport ack 0 in
    let ck = csum (pseudo ∷ seg ∷ []) in
    let n = word_sum pseudo + word_sum seg in
    let blank = segment-bound sport dport ack 0 hs hd ha (omega arith) in
    let first = two_parts pseudo seg e (omega (arith, blank)) in
    let filled = segment-word_sum sport dport ack ck (csum-le (pseudo ∷ seg ∷ [])) in
    let whole = word_sum-append pseudo (segment sport dport ack ck) e in
    ap ones (whole ∙ omega (arith, filled, first)) ∙ ones-filled n (omega (arith, blank))

pub sealed_v4-SumsUp : (so de : List ℕ) → word_sum (so ++ de) < 2 ^ 30 → SumsUp (sealed_v4 so de)
unfolding sealed_v4
sealed_v4-SumsUp so de h =
    let ck = csum (header_v4 so de 0 ∷ []) in
    let n = word_sum (header_v4 so de 0) in
    let blank = header_v4-word_sum so de 0 (omega arith) in
    let first = one_part (header_v4 so de 0) (omega (arith, blank)) in
    let filled = header_v4-word_sum so de ck (csum-le (header_v4 so de 0 ∷ [])) in
    ap ones (omega (arith, blank, filled, first)) ∙ ones-filled n (omega (arith, blank))

-- The reset's TCP segment, read behind its pseudo-header, has the checksum 0 that a receiver
-- accepts, for every pseudo-header of even length whose words sum to less than 2 ^ 30, and for
-- ports and an acknowledgement number that fit their fields.
sealed-csum :
    (pseudo : List ℕ) (sport dport ack : ℕ)
    → IsEven pseudo
    → word_sum pseudo < 2 ^ 30
    → sport < 65536
    → dport < 65536
    → ack < 2 ^ 32
    → csum (pseudo ∷ sealed pseudo sport dport ack ∷ []) ≡ 0
unfolding sealed
sealed-csum pseudo sport dport ack e hp hs hd ha =
    let ck = csum (pseudo ∷ segment sport dport ack 0 ∷ []) in
    let small = csum-le (pseudo ∷ segment sport dport ack 0 ∷ []) in
    let bound = segment-bound sport dport ack ck hs hd ha small in
    let whole = word_sum-append pseudo (segment sport dport ack ck) e in
    let up = sealed-SumsUp pseudo sport dport ack e hp hs hd ha in
    two_parts pseudo (segment sport dport ack ck) e (omega (arith, bound))
    ∙ ap (λ t. 65535 - t) (ap ones (sym whole) ∙ up)

-- The IPv4 header of the reset has the checksum 0 that a receiver accepts, for any addresses whose
-- words sum to less than 2 ^ 30.
sealed_v4-csum : (so de : List ℕ) → word_sum (so ++ de) < 2 ^ 30 → csum (sealed_v4 so de ∷ []) ≡ 0
unfolding sealed_v4
sealed_v4-csum so de h =
    let ck = csum (header_v4 so de 0 ∷ []) in
    let small = csum-le (header_v4 so de 0 ∷ []) in
    let filled = header_v4-word_sum so de ck small in
    one_part (header_v4 so de ck) (omega (arith, small, filled))
    ∙ ap (λ t. 65535 - t) (sealed_v4-SumsUp so de h)
