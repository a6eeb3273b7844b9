-- ===== src/Policy/Target/RoundTrip.antt =====
-- What is written for a target is read back as that target.
use pfsnitch.Addr.{is_v6}
use pfsnitch.Base.{
  ℕ, ◌<◌, Bool, true, false, [], ◌∷◌, ◌++◌, none, some, ◌≡◌, ◌≢◌, ◌⊎◌, inl, inr, refl, arith, All,
  ◌==◌, nat_eq, Bool-cases,
}
use pfsnitch.Policy.Target.{
  is_colon, has_colon, bracket_port, split_bracket, split_port, split_trimmed, split_target,
  join_target,
}
use pfsnitch.Text.Laws.{NoneOf, NoneOf-append, split_first-append, split_last-append, trim-NoneOf}
use pfsnitch.Text.Numbers.{is_digit, show_u16, parse_u16-show_u16, show_digits-All}
use pfsnitch.Text.{Str, is_white}

abbrev pub is_open : ℕ → Bool
is_open c = c == b'['

abbrev pub is_close : ℕ → Bool
is_close c = c == b']'

-- A host or address that a rule can carry with the port: one word, and either a v6 literal, or a
-- text with no colon and no bracket. That such a text with a port is no v6 literal either is a
-- fact about the address syntax.
pub record IsSpelled (h : Str) (p : ℕ) : Type 0 where
  pub word : NoneOf is_white h
  pub not_empty : h ≢ []
  pub port : p < 65536
  pub form :
      ((is_v6 h ≡ true) × NoneOf is_close h)
      ⊎ ((is_v6 h ≡ false)
          × NoneOf is_colon h
          × NoneOf is_open h
          × (is_v6 (h ++ b':' ∷ show_u16 p) ≡ false))

pub digits-NoneOf :
    (q : ℕ → Bool) (s : Str)
    → ((c : ℕ) → is_digit c ≡ true → q c ≡ false)
    → All (λ c. is_digit c ≡ true) s
    → NoneOf q s
digits-NoneOf q [] h k = tt
digits-NoneOf q (c ∷ s) h k = (h c k.0, digits-NoneOf q s h k.1)

digit-not-white : (c : ℕ) → is_digit c ≡ true → is_white c ≡ false
unfolding is_white
digit-not-white c h = ground arith

has_colon-NoneOf : (s : Str) → NoneOf is_colon s → has_colon s ≡ false
unfolding has_colon
has_colon-NoneOf [] h = refl
has_colon-NoneOf (c ∷ s) h = rw (h.0, has_colon-NoneOf s h.1)

port-NoneOf-white : (p : ℕ) → NoneOf is_white (show_u16 p)
port-NoneOf-white p = digits-NoneOf is_white (show_u16 p) digit-not-white (show_digits-All 5 p)

colon-not-white : is_white b':' ≡ false
unfolding is_white
colon-not-white = refl

brackets-not-white : (is_white b'[' ≡ false) × (is_white b']' ≡ false)
unfolding is_white
brackets-not-white = (refl, refl)

-- The target as written is one word.
pub join_target-word :
    (h : Str) (p : ℕ) → NoneOf is_white h → NoneOf is_white (join_target h (some p))
unfolding join_target
join_target-word h p w =
    let plain =
      NoneOf-append is_white h (b':' ∷ show_u16 p) w (colon-not-white, port-NoneOf-white p) in
    elim (Bool-cases (is_v6 h)) [
      | inl six ↦ rw six (
        brackets-not-white.0,
        NoneOf-append is_white h (b']' ∷ b':' ∷ show_u16 p) w
            (brackets-not-white.1, (colon-not-white, port-NoneOf-white p)),
      )
      | inr other ↦ rw other plain
    ]

bracket-join :
    (h : Str) (p : ℕ)
    → p < 65536
    → NoneOf is_close h
    → split_bracket (b'[' ∷ (h ++ b']' ∷ b':' ∷ show_u16 p)) ≡ some (h, some p)
unfolding split_bracket bracket_port
bracket-join h p lt c =
    rw (split_first-append is_close h b']' (b':' ∷ show_u16 p) c refl, parse_u16-show_u16 p lt)

split-bracketed :
    (h : Str) (p : ℕ)
    → p < 65536
    → NoneOf is_close h
    → split_trimmed (b'[' ∷ (h ++ b']' ∷ b':' ∷ show_u16 p)) ≡ (h, some p)
unfolding split_trimmed
split-bracketed h p lt c = rw (bracket-join h p lt c, split_trimmed)

no-bracket : (h s : Str) → h ≢ [] → NoneOf is_open h → split_bracket (h ++ s) ≡ none
unfolding split_bracket
no-bracket [] s ne o = absurd (ne refl)
no-bracket (c ∷ h) s ne o = rw o.0

port-join :
    (h : Str) (p : ℕ)
    → p < 65536
    → NoneOf is_colon h
    → split_port (h ++ b':' ∷ show_u16 p) ≡ some (h, some p)
unfolding split_port
port-join h p lt c = rw (
  split_last-append is_colon h b':' (show_u16 p) refl
      (digits-NoneOf is_colon (show_u16 p) (λ c d. ground arith) (show_digits-All 5 p)),
  parse_u16-show_u16 p lt,
  has_colon-NoneOf h c,
)

split-plain :
    (h : Str) (p : ℕ)
    → p < 65536
    → h ≢ []
    → NoneOf is_colon h
    → NoneOf is_open h
    → is_v6 (h ++ b':' ∷ show_u16 p) ≡ false
    → split_trimmed (h ++ b':' ∷ show_u16 p) ≡ (h, some p)
unfolding split_trimmed
split-plain h p lt ne c o six =
    rw (no-bracket h (b':' ∷ show_u16 p) ne o, split_trimmed)
      (rw six (rw (port-join h p lt c, split_trimmed)))

-- For every host or address that can be spelled and every port, reading what `join_target` writes
-- gives the host and the port back.
pub split_target-join_target :
    (h : Str) (p : ℕ) → IsSpelled h p → split_target (join_target h (some p)) ≡ (h, some p)
unfolding split_target join_target
split_target-join_target h p s =
    rw (trim-NoneOf (join_target h (some p)) (join_target-word h p s.word)) (elim s.form [
      | inl (six, c) ↦ rw six (split-bracketed h p s.port c)
      | inr (plain, c, o, six) ↦ rw plain (split-plain h p s.port s.not_empty c o six)
    ])
