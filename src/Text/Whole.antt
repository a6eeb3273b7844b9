-- ===== src/Text/Whole.antt =====
-- The lines of a text without carriage returns are whole: none holds a line break, and writing them
-- one by one gives a text with the same lines.
use pfsnitch.Base.{ℕ, Bool, false, List, [], ◌∷◌, ◌≡◌, Bool-cases, inl, inr, All, ◌==◌, nat_eq}
use pfsnitch.Text.Laws.{NoneOf, is_break}
use pfsnitch.Text.{Str, lines, line_step, onto_first_line, begins_newline}

abbrev pub is_return : ℕ → Bool
is_return c = c == b'\r'

onto_first_line-whole :
    (c : ℕ) (ls : List Str)
    → is_break c ≡ false
    → All (NoneOf is_break) ls
    → All (NoneOf is_break) (onto_first_line c ls)
unfolding onto_first_line
onto_first_line-whole c [] h a = ((h, tt), tt)
onto_first_line-whole c (l ∷ ls) h a = ((h, a.0), a.1)

line_step-whole :
    (c : ℕ) (b : Bool) (ls : List Str)
    → is_return c ≡ false
    → All (NoneOf is_break) ls
    → All (NoneOf is_break) (line_step c b ls)
unfolding line_step
line_step-whole c b ls h a = elim (Bool-cases (c == b'\n')) [
  | inl newline ↦ rw newline (tt, a)
  | inr other ↦ rw (other, h) (onto_first_line-whole c ls (rw (other, h)) a)
]

pub lines-whole : (t : Str) → NoneOf is_return t → All (NoneOf is_break) (lines t)
unfolding lines
lines-whole [] h = tt
lines-whole (c ∷ t) h = line_step-whole c (begins_newline t) (lines t) h.0 (lines-whole t h.1)
