-- ===== src/Divert/Csum.antt =====
-- src/divert.rs: `csum`, the ones-complement sum of IP and TCP. The `u32` sum wraps.
use pfsnitch.Base.{
  ℕ, zero, suc, ◌+◌, ◌-◌, ◌*◌, ◌/◌, ◌%◌, ◌^◌, ◌<◌, ◌≤◌, List, [], ◌∷◌, ◌++◌, Option, none, some,
  ◌≡◌, refl, ◌∙◌, ap, arith, All, if◌then◌else◌, ◌==◌, nat_eq, length,
}
use pfsnitch.Divert.{be16}

abbrev add32 : ℕ → ℕ → ℕ
add32 a b = (a + b) % 2 ^ 32

-- `while i + 1 < part.len()`, and the byte that is left over.
unfoldable pub pairs : ℕ → List ℕ → ℕ × Option ℕ
pairs sum [] = (sum, none)
pairs sum (hi ∷ []) = (sum, some hi)
pairs sum (hi ∷ lo ∷ bs) = pairs (add32 sum (be16 hi lo)) bs

-- One part: an odd byte of the part before pairs with the first byte of this one.
unfoldable pub add_part : ℕ → Option ℕ → List ℕ → ℕ × Option ℕ
add_part sum none part = pairs sum part
add_part sum (some hi) [] = (sum, some hi)
add_part sum (some hi) (lo ∷ bs) = pairs (add32 sum (be16 hi lo)) bs

unfoldable pub add_parts : ℕ → Option ℕ → List (List ℕ) → ℕ × Option ℕ
add_parts sum carry [] = (sum, carry)
add_parts sum carry (part ∷ parts) =
    let (sum', carry') = add_part sum carry part in add_parts sum' carry' parts

unfoldable pub last_byte : ℕ → Option ℕ → ℕ
last_byte sum none = sum
last_byte sum (some hi) = add32 sum (be16 hi 0)

-- `while (sum >> 16) != 0`
unfoldable pub fold_carries : ℕ → ℕ → ℕ
fold_carries zero sum = sum
fold_carries (suc fuel) sum =
    let next = fold_carries fuel (sum % 2 ^ 16 + sum / 2 ^ 16) in
    if sum / 2 ^ 16 == 0 then sum else next

-- A 32-bit sum is folded in two rounds; the third sees that nothing is left.
unfoldable pub csum : List (List ℕ) → ℕ
csum parts =
    let (sum, carry) = add_parts 0 none parts in
    65535 - fold_carries 3 (last_byte sum carry) % 2 ^ 16

-- The sum of the 16-bit words of a text of bytes, an odd last byte in front of a zero.
unfoldable pub word_sum : List ℕ → ℕ
word_sum [] = 0
word_sum (hi ∷ []) = be16 hi 0
word_sum (hi ∷ lo ∷ bs) = be16 hi lo + word_sum bs

-- The residue by 65535 that ones-complement addition keeps: 0 only for 0.
abbrev pub ones : ℕ → ℕ
ones n = if n == 0 then 0 else (n - 1) % 65535 + 1

abbrev pub concat : List (List ℕ) → List ℕ
concat [] = []
concat (part ∷ parts) = part ++ concat parts

abbrev carried : Option ℕ → List ℕ → List ℕ
carried none bs = bs
carried (some hi) bs = hi ∷ bs

total : ℕ × Option ℕ → ℕ
total r = last_byte r.0 r.1

-- As long as the true sum fits 32 bits, the loop over the parts computes it.
pairs-word_sum :
    (bs : List ℕ) (sum : ℕ) (rest : List ℕ)
    → sum + word_sum (bs ++ rest) < 2 ^ 32
    → (pairs sum bs).0 + word_sum (carried (pairs sum bs).1 rest) ≡ sum + word_sum (bs ++ rest)
unfolding pairs word_sum
pairs-word_sum [] sum rest h = refl
pairs-word_sum (hi ∷ []) sum rest h = refl
pairs-word_sum (hi ∷ lo ∷ bs) sum rest h =
    omega (arith, pairs-word_sum bs (add32 sum (be16 hi lo)) rest (omega arith))

add_part-word_sum :
    (sum : ℕ) (carry : Option ℕ) (part rest : List ℕ)
    → sum + word_sum (carried carry (part ++ rest)) < 2 ^ 32
    → (add_part sum carry part).0 + word_sum (carried (add_part sum carry part).1 rest)
      ≡ sum + word_sum (carried carry (part ++ rest))
unfolding add_part word_sum
add_part-word_sum sum none part rest h = pairs-word_sum part sum rest h
add_part-word_sum sum (some hi) [] rest h = refl
add_part-word_sum sum (some hi) (lo ∷ bs) rest h =
    omega (arith, pairs-word_sum bs (add32 sum (be16 hi lo)) rest (omega arith))

add_parts-word_sum :
    (parts : List (List ℕ)) (sum : ℕ) (carry : Option ℕ)
    → sum + word_sum (carried carry (concat parts)) < 2 ^ 32
    → total (add_parts sum carry parts) ≡ sum + word_sum (carried carry (concat parts))
unfolding add_parts total last_byte word_sum
add_parts-word_sum [] sum none h = omega arith
add_parts-word_sum [] sum (some hi) h = omega arith
add_parts-word_sum (part ∷ parts) sum carry h =
    let step = add_part-word_sum sum carry part (concat parts) h in
    add_parts-word_sum parts (add_part sum carry part).0 (add_part sum carry part).1
      (omega (arith, step))
    ∙ step

fold_carries-ones : (n : ℕ) → n < 2 ^ 32 → fold_carries 3 n ≡ ones n
unfolding fold_carries
fold_carries-ones n h = ground arith

-- Whatever the parts are that a text is cut into, the checksum is the complement of the
-- ones-complement sum of the words of the whole text, if that sum fits 32 bits.
pub csum-word_sum :
    (parts : List (List ℕ))
    → word_sum (concat parts) < 2 ^ 32
    → csum parts ≡ 65535 - ones (word_sum (concat parts))
unfolding csum total
csum-word_sum parts h =
    let sum = add_parts-word_sum parts 0 none (omega arith) in
    let same : total (add_parts 0 none parts) ≡ word_sum (concat parts) = omega (arith, sum) in
    ap (λ t. 65535 - fold_carries 3 t % 2 ^ 16) same
    ∙ ground (arith, fold_carries-ones (word_sum (concat parts)) h)

-- A text of `n` bytes has a sum that fits, for every packet that a divert socket can hold.
pub word_sum-le : (bs : List ℕ) → All (λ b. b < 256) bs → word_sum bs ≤ 65535 * length bs
unfolding word_sum
word_sum-le [] h = omega arith
word_sum-le (b ∷ []) h = omega arith
word_sum-le (a ∷ b ∷ bs) h = omega (arith, word_sum-le bs h.1.1)

-- Words count apart where the first text has even length.
abbrev pub IsEven : List ℕ → Type 0
IsEven [] = Unit
IsEven (b ∷ []) = ⊥
IsEven (a ∷ b ∷ bs) = IsEven bs

pub word_sum-append : (xs ys : List ℕ) → IsEven xs → word_sum (xs ++ ys) ≡ word_sum xs + word_sum ys
unfolding word_sum
word_sum-append [] ys e = omega arith
word_sum-append (b ∷ []) ys e = absurd e
word_sum-append (a ∷ b ∷ xs) ys e = omega (arith, word_sum-append xs ys e)

-- Filling the checksum of a text into a zero word of it makes the text sum to all ones.
pub ones-complement : (n : ℕ) → n < 2 ^ 31 → 65535 - ones (n + (65535 - ones n)) ≡ 0
ones-complement n h = ground arith
