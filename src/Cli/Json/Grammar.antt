-- ===== src/Cli/Json/Grammar.antt =====
-- JSON texts and what they say, by RFC 8259: a relation between a text, the value at its front and
-- what is left behind it. Signs, fractions and exponents, `true` and `false`, and white space round a
-- colon are left out, so that it holds of fewer texts than the RFC allows.
use pfsnitch.Base.{
  ℕ, Bool, true, false, ◌||◌, [], ◌∷◌, ◌++◌, Option, none, some, ◌≡◌, refl, sym, ◌∙◌, ap, arith,
  ◌==◌, nat_eq, Bool-cases, inl, inr,
}
use mathlib.Core.List.{append_assoc}
use pfsnitch.Cli.Json.{
  Reader, plain, escaped, hex, read_char, read_string, onto, json_escape, quoted,
  read_string-json_escape,
}
use pfsnitch.Text.Numbers.{is_digit, show_decimal}
use pfsnitch.Text.{Str, codes}

mutual
  pub data Value : Type 0 where
    null : Value
    number : ℕ → Value
    string : Str → Value
    array : Values → Value
    object : Members → Value

  pub data Values : Type 0 where
    no_values : Values
    value : Value → Values → Values

  pub data Members : Type 0 where
    no_members : Members
    member : Str → Value → Members → Members

-- The quote that ends a string.
unfoldable pub ends : Reader → ℕ → Bool
ends plain c = c == b'"'
ends _ c = false

unfoldable pub onto_first : Option ℕ → Option (Str × Str) → Option (Str × Str)
onto_first c none = none
onto_first none (some p) = some p
onto_first (some c) (some (s, r)) = some (c ∷ s, r)

-- The string that ends at the first quote that is not escaped, and what stands behind it.
unfoldable pub take_string : Reader → Str → Option (Str × Str)
take_string st [] = none
take_string st (c ∷ s) = elim (ends st c) [
  | true ↦ some ([], s)
  | false ↦ elim (read_char st c) [ none ↦ none | some (x, st') ↦ onto_first x (take_string st' s) ]
]

abbrev pub is_space : ℕ → Bool
is_space c = c == b' ' || c == b'\n'

abbrev pub begins_digit : Str → Bool
begins_digit [] = false
begins_digit (c ∷ s) = is_digit c

-- What a reader is looking for: a value; the values of an array, behind its bracket or behind one of
-- them; a name with its value; the members of an object, behind its brace or behind one of them.
pub data Form : Type 0 where
  one : Value → Form
  values more_values : Values → Form
  entry : Str → Value → Form
  members more_members : Members → Form

pub data Reads : Str → Form → Str → Type 0 where
  space :
      (c : ℕ) {s : Str} {f : Form} {r : Str} → is_space c ≡ true → Reads s f r → Reads (c ∷ s) f r
  null : (r : Str) → Reads (codes "null" ++ r) (one Value.null) r
  -- In decimal, with no leading zeros.
  number :
      (n : ℕ) (r : Str)
      → begins_digit r ≡ false
      → Reads (show_decimal n ++ r) (one (Value.number n)) r
  string :
      {s x r : Str} → take_string plain s ≡ some (x, r) → Reads (b'"' ∷ s) (one (Value.string x)) r
  array :
      {s : Str} {vs : Values} {r : Str}
      → Reads s (values vs) r
      → Reads (b'[' ∷ s) (one (Value.array vs)) r
  object :
      {s : Str} {ms : Members} {r : Str}
      → Reads s (members ms) r
      → Reads (b'{' ∷ s) (one (Value.object ms)) r
  empty_array : (r : Str) → Reads (b']' ∷ r) (values no_values) r
  first_value :
      {s t r : Str} {v : Value} {vs : Values}
      → Reads s (one v) t
      → Reads t (more_values vs) r
      → Reads s (values (value v vs)) r
  last_value : (r : Str) → Reads (b']' ∷ r) (more_values no_values) r
  next_value :
      {s t r : Str} {v : Value} {vs : Values}
      → Reads s (one v) t
      → Reads t (more_values vs) r
      → Reads (b',' ∷ s) (more_values (value v vs)) r
  name :
      {s k t r : Str} {v : Value}
      → take_string plain s ≡ some (k, b':' ∷ t)
      → Reads t (one v) r
      → Reads (b'"' ∷ s) (entry k v) r
  empty_object : (r : Str) → Reads (b'}' ∷ r) (members no_members) r
  first_member :
      {s t r k : Str} {v : Value} {ms : Members}
      → Reads s (entry k v) t
      → Reads t (more_members ms) r
      → Reads s (members (member k v ms)) r
  last_member : (r : Str) → Reads (b'}' ∷ r) (more_members no_members) r
  next_member :
      {s t r k : Str} {v : Value} {ms : Members}
      → Reads s (entry k v) t
      → Reads t (more_members ms) r
      → Reads (b',' ∷ s) (more_members (member k v ms)) r

onto_first-onto :
    (x : Option ℕ) (o : Option Str) (p : Option (Str × Str)) (v r : Str)
    → ((w : Str) → o ≡ some w → p ≡ some (w, r))
    → onto x o ≡ some v
    → onto_first x p ≡ some (v, r)
unfolding onto onto_first
onto_first-onto none none p v r f h = cc
onto_first-onto (some c) none p v r f h = cc
onto_first-onto none (some w) p v r f h = rw (f w refl) (ground (arith, h))
onto_first-onto (some c) (some w) p v r f h = rw (f w refl) (ground (arith, h))

-- One character of a string, in front of a text that is read alike.
step_alike :
    (m : Option (Option ℕ × Reader)) (t v r : Str)
    → ((st : Reader) (w : Str)
        → read_string st t ≡ some w
        → take_string st (t ++ b'"' ∷ r) ≡ some (w, r))
    → elim m [ none ↦ none | some (x, st) ↦ onto x (read_string st t) ] ≡ some v
    → elim m [ none ↦ none | some (x, st) ↦ onto_first x (take_string st (t ++ b'"' ∷ r)) ]
      ≡ some (v, r)
step_alike none t v r f h = cc
step_alike (some (x, st)) t v r f h = onto_first-onto x (read_string st t) _ v r (f st) h

no_quote : (c : ℕ) (t v : Str) → (c == b'"') ≡ true → ¬ (read_string plain (c ∷ t) ≡ some v)
unfolding read_string read_char
no_quote c t v e h = ground (arith, e, h)

-- A string that is read as a text by itself is taken from in front of a quote.
take_string-read_string :
    (st : Reader) (t v r : Str)
    → read_string st t ≡ some v
    → take_string st (t ++ b'"' ∷ r) ≡ some (v, r)
unfolding read_string take_string ends
take_string-read_string plain [] v r h = ground (arith, h)
take_string-read_string escaped [] v r h = cc
take_string-read_string (hex k n) [] v r h = cc
take_string-read_string plain (c ∷ t) v r h = elim (Bool-cases (c == b'"')) [
  | inl e ↦ absurd (no_quote c t v e h)
  | inr e ↦
      rw (e, take_string)
        (step_alike (read_char plain c) t v r (λ st w. take_string-read_string st t w r) h)
]
take_string-read_string escaped (c ∷ t) v r h =
    step_alike (read_char escaped c) t v r (λ st w. take_string-read_string st t w r) h
take_string-read_string (hex k n) (c ∷ t) v r h =
    step_alike (read_char (hex k n) c) t v r (λ st w. take_string-read_string st t w r) h

take_string-json_escape : (s r : Str) → take_string plain (json_escape s ++ b'"' ∷ r) ≡ some (s, r)
take_string-json_escape s r =
    take_string-read_string plain (json_escape s) s r (read_string-json_escape s)

-- What is quoted is read back, whatever stands behind it.
pub Reads-quoted : (s r : Str) → Reads (quoted s ++ r) (one (string s)) r
unfolding quoted
Reads-quoted s r =
    rw (append_assoc (json_escape s) (b'"' ∷ []) r) (string (take_string-json_escape s r))

-- A text with nothing to escape is read back as it is.
abbrev pub IsBare : Str → Type 0
IsBare w = json_escape w ≡ w

pub take_string-IsBare : (w r : Str) → IsBare w → take_string plain (w ++ b'"' ∷ r) ≡ some (w, r)
take_string-IsBare w r e =
    ap (λ v. take_string plain (v ++ b'"' ∷ r)) (sym e) ∙ take_string-json_escape w r
