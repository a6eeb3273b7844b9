-- ===== src/Text/Numbers.antt =====
-- Decimal and hexadecimal numbers as Rust's `parse` and `Display` read and write them.
use pfsnitch.Base.{
  ℕ, zero, suc, ◌+◌, ◌-◌, ◌*◌, ◌/◌, ◌%◌, ◌<◌, ◌^◌, Bool, true, ◌&&◌, [], ◌∷◌, ◌++◌, Option, none,
  some, ◌≡◌, ◌∙◌, All, All-append_one, refl, ◌≢◌, ◌≤◌, arith, ltb, leb, if◌then◌else◌, ◌==◌, nat_eq,
  Bool-cases, inl, inr,
}
use mathlib.Core.List.{concat-ne-nil}
use native.Mathlib.Nat.{pow-suc}
use pfsnitch.Text.{Str}

abbrev pub is_digit : ℕ → Bool
is_digit c = leb b'0' c && leb c b'9'

-- The digits of a number from its highest, in `fuel` places at most.
unfoldable pub show_digits : ℕ → ℕ → Str
show_digits zero n = []
show_digits (suc fuel) n =
    let high = show_digits fuel (n / 10) in
    let low : ℕ = b'0' + n % 10 in if ltb n 10 then low ∷ [] else high ++ low ∷ []

-- The loop of an unsigned `from_str`: a value above `most` is an overflow. Once above, more digits
-- leave it above, so the test may wait for the end.
unfoldable pub read_digits : ℕ → Str → Option ℕ
read_digits acc [] = some acc
read_digits acc (c ∷ s) = if is_digit c then read_digits (acc * 10 + (c - b'0')) s else none

unfoldable pub bounded : ℕ → Option ℕ → Option ℕ
bounded most none = none
bounded most (some n) = if leb n most then some n else none

-- `parse::<uN>()`: an optional plus sign, then at least one digit.
unfoldable pub parse_unsigned : ℕ → Str → Option ℕ
parse_unsigned most [] = none
parse_unsigned most (c ∷ []) = if is_digit c then bounded most (read_digits 0 (c ∷ [])) else none
parse_unsigned most (c ∷ d ∷ s) =
    bounded most (if c == b'+' then read_digits 0 (d ∷ s) else read_digits 0 (c ∷ d ∷ s))

abbrev pub parse_u16 : Str → Option ℕ
parse_u16 = parse_unsigned 65535

abbrev pub parse_u64 : Str → Option ℕ
parse_u64 = parse_unsigned 18446744073709551615

-- Five places are enough for a `u16`, twenty for a `u64`.
abbrev pub show_u16 : ℕ → Str
show_u16 = show_digits 5

abbrev pub show_u64 : ℕ → Str
show_u64 = show_digits 20

-- A number of any size: no number has more digits than its own value and one.
unfoldable pub show_decimal : ℕ → Str
show_decimal n = show_digits (suc n) n

read_digits-append :
    (s : Str) (c acc n : ℕ)
    → is_digit c ≡ true
    → read_digits acc s ≡ some n
    → read_digits acc (s ++ c ∷ []) ≡ some (n * 10 + (c - b'0'))
unfolding read_digits
read_digits-append [] c acc n h k = ground arith
read_digits-append (d ∷ s) c acc n h k =
    ground (arith, read_digits-append s c (acc * 10 + (d - b'0')) n h)

is_digit-low : (n : ℕ) → is_digit (b'0' + n % 10) ≡ true
is_digit-low n = ground arith

-- What is written with enough places is read back.
pub read_digits-show_digits :
    (fuel n : ℕ) → n < 10 ^ suc fuel → read_digits 0 (show_digits (suc fuel) n) ≡ some n
unfolding read_digits show_digits
read_digits-show_digits zero n h = ground arith
read_digits-show_digits (suc fuel) n h =
    let upper : n / 10 < 10 ^ suc fuel = omega (arith, pow-suc 10 (suc fuel)) in
    let last =
      read_digits-append (show_digits (suc fuel) (n / 10)) (b'0' + n % 10) 0 (n / 10)
        (is_digit-low n) (read_digits-show_digits fuel (n / 10) upper) in
    elim (Bool-cases (ltb n 10)) [
      | inl small ↦ rw small (ground arith)
      | inr large ↦ rw large (last ∙ ground arith)
    ]

-- Only digits are written.
pub show_digits-All : (fuel n : ℕ) → All (λ d. is_digit d ≡ true) (show_digits fuel n)
unfolding show_digits
show_digits-All zero n = tt
show_digits-All (suc fuel) n = elim (Bool-cases (ltb n 10)) [
  | inl small ↦ rw small (is_digit-low n, tt)
  | inr large ↦ rw large (
      All-append_one (λ d. is_digit d ≡ true) (show_digits fuel (n / 10))
        (show_digits-All fuel (n / 10)) (is_digit-low n))
]

unsigned-many :
    (most c d : ℕ) (s : Str) (n : ℕ)
    → All (λ d. is_digit d ≡ true) (c ∷ d ∷ s)
    → read_digits 0 (c ∷ d ∷ s) ≡ some n
    → n ≤ most
    → parse_unsigned most (c ∷ d ∷ s) ≡ some n
unfolding parse_unsigned bounded
unsigned-many most c d s n h e k = ground (arith, h.0)

-- A text of digits alone is read as its digits.
parse_unsigned-read_digits :
    (most : ℕ) (s : Str) (n : ℕ)
    → s ≢ []
    → All (λ d. is_digit d ≡ true) s
    → read_digits 0 s ≡ some n
    → n ≤ most
    → parse_unsigned most s ≡ some n
unfolding parse_unsigned read_digits bounded
parse_unsigned-read_digits most [] n ne h e k = absurd (ne refl)
parse_unsigned-read_digits most (c ∷ []) n ne h e k = ground arith
parse_unsigned-read_digits most (c ∷ d ∷ s) n ne h e k = unsigned-many most c d s n h e k

show_digits-ne-nil : (fuel n : ℕ) → show_digits (suc fuel) n ≢ []
unfolding show_digits
show_digits-ne-nil fuel n e = elim (Bool-cases (ltb n 10)) [
  | inl small ↦ cc (rw small at e)
  | inr large ↦ concat-ne-nil _ (show_digits fuel (n / 10)) (rw large at e)
]

-- Every port is read back from its decimal form.
pub parse_u16-show_u16 : (p : ℕ) → p < 65536 → parse_u16 (show_u16 p) ≡ some p
parse_u16-show_u16 p h =
    parse_unsigned-read_digits 65535 (show_u16 p) p (show_digits-ne-nil 4 p) (show_digits-All 5 p)
      (read_digits-show_digits 4 p (omega arith)) (omega arith)

-- Every number of 64 bits is read back from its decimal form.
pub parse_u64-show_u64 : (t : ℕ) → t < 2 ^ 64 → parse_u64 (show_u64 t) ≡ some t
parse_u64-show_u64 t h =
    parse_unsigned-read_digits 18446744073709551615 (show_u64 t) t (show_digits-ne-nil 19 t)
      (show_digits-All 20 t) (read_digits-show_digits 19 t (omega arith)) (omega arith)

lt-pow : (n : ℕ) → n < 10 ^ suc n
lt-pow zero = omega arith
lt-pow (suc n) = omega (arith, lt-pow n, pow-suc 10 (suc n))

pub read_digits-show_decimal : (n : ℕ) → read_digits 0 (show_decimal n) ≡ some n
unfolding show_decimal
read_digits-show_decimal n = read_digits-show_digits n n (lt-pow n)

pub show_decimal-All : (n : ℕ) → All (λ d. is_digit d ≡ true) (show_decimal n)
unfolding show_decimal
show_decimal-All n = show_digits-All (suc n) n

pub show_decimal-ne-nil : (n : ℕ) → show_decimal n ≢ []
unfolding show_decimal
show_decimal-ne-nil n = show_digits-ne-nil n n
