-- ===== src/Text/Laws.antt =====
-- Laws of the text operations: cutting at a character, trimming, lines.
use pfsnitch.Base.{
  ℕ, Bool, true, false, ◌||◌, List, [], ◌∷◌, ◌++◌, none, some, ◌≡◌, ◌≢◌, refl, ◌∙◌, ap, arith, All,
  ◌==◌, nat_eq,
}
use pfsnitch.Text.{
  Str, is_white, trim_start, trim_onto, trim_end, trim, split_first, split_last, begins_newline,
  onto_first_line, line_step, lines,
}

-- No character passes the test.
abbrev pub NoneOf : (ℕ → Bool) → Str → Type 0
NoneOf p = All (λ c. p c ≡ false)

pub NoneOf-append : (p : ℕ → Bool) (a b : Str) → NoneOf p a → NoneOf p b → NoneOf p (a ++ b)
NoneOf-append p [] b h k = k
NoneOf-append p (c ∷ a) b h k = (h.0, NoneOf-append p a b h.1 k)

-- A cut at the first character that passes.
pub split_first-append :
    (p : ℕ → Bool) (a : Str) (c : ℕ) (s : Str)
    → NoneOf p a
    → p c ≡ true
    → split_first p (a ++ c ∷ s) ≡ (a, some s)
unfolding split_first
split_first-append p [] c s h k = rw k
split_first-append p (d ∷ a) c s h k = rw (h.0, split_first-append p a c s h.1 k)

pub split_first-NoneOf : (p : ℕ → Bool) (a : Str) → NoneOf p a → split_first p a ≡ (a, none)
unfolding split_first
split_first-NoneOf p [] h = refl
split_first-NoneOf p (d ∷ a) h = rw (h.0, split_first-NoneOf p a h.1)

-- A cut at the last character that passes.
pub split_last-append :
    (p : ℕ → Bool) (a : Str) (c : ℕ) (s : Str)
    → p c ≡ true
    → NoneOf p s
    → split_last p (a ++ c ∷ s) ≡ some (a, s)
unfolding split_last
split_last-append p [] c s k h = rw (split_last-NoneOf p s h, k)
  where
    split_last-NoneOf : (p : ℕ → Bool) (s : Str) → NoneOf p s → split_last p s ≡ none
    split_last-NoneOf p [] h = refl
    split_last-NoneOf p (d ∷ s) h = rw (split_last-NoneOf p s h.1, h.0)
split_last-append p (d ∷ a) c s k h = rw (split_last-append p a c s k h)

pub trim_start-cons : (c : ℕ) (s : Str) → is_white c ≡ false → trim_start (c ∷ s) ≡ c ∷ s
unfolding trim_start
trim_start-cons c s h = rw h

trim_end-cons : (c : ℕ) (s t : Str) → trim_end s ≡ t → t ≢ [] → trim_end (c ∷ s) ≡ c ∷ t
unfolding trim_end trim_onto
trim_end-cons c s [] e ne = absurd (ne refl)
trim_end-cons c s (d ∷ t) e ne = rw e

-- What stands in front of a text that does not end in white space stays.
pub trim_end-append : (a s : Str) → trim_end s ≢ [] → trim_end (a ++ s) ≡ a ++ trim_end s
trim_end-append [] s ne = refl
trim_end-append (c ∷ a) s ne =
    trim_end-cons c (a ++ s) (a ++ trim_end s) (trim_end-append a s ne) (not-nil a)
  where
    not-nil : (a : Str) → a ++ trim_end s ≢ []
    not-nil [] = ne
    not-nil (c ∷ a) = λ e. cc

-- White space behind a text goes.
pub trim_end-white : (s : Str) (c : ℕ) → is_white c ≡ true → trim_end (s ++ c ∷ []) ≡ trim_end s
unfolding trim_end trim_onto
trim_end-white [] c h = rw h
trim_end-white (d ∷ s) c h = rw (trim_end-white s c h)

-- A text with no white space is its own trim.
pub trim_end-NoneOf : (s : Str) → NoneOf is_white s → trim_end s ≡ s
unfolding trim_end trim_onto
trim_end-NoneOf [] h = refl
trim_end-NoneOf (c ∷ []) h = rw h.0
trim_end-NoneOf (c ∷ d ∷ s) h = rw (trim_end-NoneOf (d ∷ s) h.1)

pub trim-NoneOf : (s : Str) → NoneOf is_white s → trim s ≡ s
unfolding trim trim_start
trim-NoneOf [] h = trim_end-NoneOf [] h
trim-NoneOf (c ∷ s) h = rw h.0 (trim_end-NoneOf (c ∷ s) h)

abbrev pub is_break : ℕ → Bool
is_break c = c == b'\n' || c == b'\r'

-- The text is empty, or its last line ends.
abbrev pub ends_line : Str → Bool
ends_line [] = true
ends_line (c ∷ []) = c == b'\n'
ends_line (c ∷ d ∷ s) = ends_line (d ∷ s)

-- One whole line in front of a text.
pub lines-cons : (l s : Str) → NoneOf is_break l → lines (l ++ b'\n' ∷ s) ≡ l ∷ lines s
unfolding lines line_step begins_newline onto_first_line
lines-cons [] s h = refl
lines-cons (c ∷ l) s h = rw (lines-cons l s h.1) (ground (arith, h.0))

lines-ne-nil : (c : ℕ) (s : Str) → lines (c ∷ s) ≢ []
unfolding lines line_step begins_newline onto_first_line
lines-ne-nil c [] = ground arith
lines-ne-nil c (d ∷ s) = ground (arith, lines-ne-nil d s)

line_step-append :
    (c : ℕ) (b : Bool) (xs ys : List Str)
    → xs ≢ []
    → line_step c b (xs ++ ys) ≡ line_step c b xs ++ ys
unfolding line_step onto_first_line
line_step-append c b [] ys ne = absurd (ne refl)
line_step-append c b (x ∷ xs) ys ne = ground arith

-- Behind a whole last line a text adds its own lines.
pub lines-append : (t s : Str) → ends_line t ≡ true → lines (t ++ s) ≡ lines t ++ lines s
unfolding lines begins_newline
lines-append [] s h = refl
lines-append (c ∷ []) s h = unfold line_step in ground arith
lines-append (c ∷ d ∷ t) s h =
    ap (line_step c (d == b'\n')) (lines-append (d ∷ t) s h)
    ∙ line_step-append c (d == b'\n') (lines (d ∷ t)) (lines s) (lines-ne-nil d t)
