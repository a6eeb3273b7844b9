-- ===== src/Text.antt =====
-- Texts as the source reads them: a `str` is the list of its Unicode scalar values, and the
-- operations are those of Rust's `str` that the source calls. Every place that the source slices
-- at is that of an ASCII character, so byte offsets and positions in this list cut alike.
pub mod Numbers
pub mod Laws
pub mod Whole
pub mod Bytes
use Prim.Native.Char.{code}
use Prim.Native.String.{String}
use pfsnitch.Base.{
  ℕ, ◌+◌, ◌-◌, ◌*◌, ◌<◌, Bool, true, false, ◌&&◌, ◌||◌, List, [], ◌∷◌, ◌++◌, map, Option, none,
  some, ◌≡◌, All, leb, ltb, if◌then◌else◌, ◌==◌, nat_eq, list_eq,
}

abbrev pub Str : Type 0
Str = List ℕ

-- A literal of the source.
abbrev pub codes : String → Str
codes String.[] = []
codes (String.◌∷◌ c s) = code c ∷ codes s

-- `char::is_whitespace`: the Unicode property White_Space.
unfoldable pub is_white : ℕ → Bool
is_white c =
    (leb 9 c && leb c 13)
    || c == 32
    || c == 0x85
    || c == 0xa0
    || c == 0x1680
    || (leb 0x2000 c && leb c 0x200a)
    || c == 0x2028
    || c == 0x2029
    || c == 0x202f
    || c == 0x205f
    || c == 0x3000

unfoldable pub trim_start : Str → Str
trim_start [] = []
trim_start (c ∷ s) = let rest = trim_start s in if is_white c then rest else c ∷ s

-- A character in front of what is left of the text behind it.
unfoldable pub trim_onto : ℕ → Str → Str
trim_onto c [] = if is_white c then [] else c ∷ []
trim_onto c (d ∷ s) = c ∷ d ∷ s

unfoldable pub trim_end : Str → Str
trim_end [] = []
trim_end (c ∷ s) = trim_onto c (trim_end s)

-- `str::trim`
unfoldable pub trim : Str → Str
trim s = trim_end (trim_start s)

-- What stands before the first character that passes the test, and what stands behind it if
-- there is one: `splitn(2, p)`, `split(p).next()` and `find(p)` with its slices.
unfoldable pub split_first : (ℕ → Bool) → Str → Str × Option Str
split_first p [] = ([], none)
split_first p (c ∷ s) =
    let (before, after) = split_first p s in if p c then ([], some s) else (c ∷ before, after)

-- The slices round the last character that passes: `rfind(p)`.
unfoldable pub split_last : (ℕ → Bool) → Str → Option (Str × Str)
split_last p [] = none
split_last p (c ∷ s) = elim (split_last p s) [
  | some (before, after) ↦ some (c ∷ before, after)
  | none ↦ if p c then some ([], s) else none
]

unfoldable pub begins_newline : Str → Bool
begins_newline [] = false
begins_newline (c ∷ s) = c == b'\n'

unfoldable pub onto_first_line : ℕ → List Str → List Str
onto_first_line c [] = (c ∷ []) ∷ []
onto_first_line c (l ∷ ls) = (c ∷ l) ∷ ls

-- One character in front of the lines behind it; the flag tells whether "\n" follows.
unfoldable pub line_step : ℕ → Bool → List Str → List Str
line_step c newline_next rest =
    if c == b'\n'
    then [] ∷ rest
    else if c == b'\r' && newline_next
    then rest
    else onto_first_line c rest

-- `str::lines`: a line ends at "\n" or "\r\n", and the last need not end.
unfoldable pub lines : Str → List Str
lines [] = []
lines (c ∷ s) = line_step c (begins_newline s) (lines s)

-- `strip_prefix`
unfoldable pub strip_prefix : Str → Str → Option Str
strip_prefix [] s = some s
strip_prefix (c ∷ p) [] = none
strip_prefix (c ∷ p) (d ∷ s) = if c == d then strip_prefix p s else none

-- `ends_with`
unfoldable pub ends_with : Str → Str → Bool
ends_with p [] = p == []
ends_with p (c ∷ s) = (p == (c ∷ s)) || ends_with p s

unfoldable pub is_empty : Str → Bool
is_empty [] = true
is_empty (c ∷ s) = false

abbrev pub ascii_lower : ℕ → ℕ
ascii_lower c = if leb b'A' c && leb c b'Z' then c + 32 else c

-- The Unicode tables of the standard library, which are data: case mapping, and the decoding of
-- bytes that need not be UTF-8. What is relied on is their behaviour on ASCII, and that lower
-- case is final.
pub record Unicode : Type 0 where
  pub to_lowercase : Str → Str
  pub from_utf8_lossy : List ℕ → Str
  pub lower_ascii : (s : Str) → All (λ c. c < 128) s → to_lowercase s ≡ map ascii_lower s
  pub lower_idem : (s : Str) → to_lowercase (to_lowercase s) ≡ to_lowercase s
  pub lossy_ascii : (s : List ℕ) → All (λ c. c < 128) s → from_utf8_lossy s ≡ s

abbrev pub to_lowercase : ⦃u : Unicode⦄ → Str → Str
to_lowercase ⦃u⦄ = u.to_lowercase

abbrev pub from_utf8_lossy : ⦃u : Unicode⦄ → List ℕ → Str
from_utf8_lossy ⦃u⦄ = u.from_utf8_lossy
