-- ===== src/Policy/Load/Lines.antt =====
-- Reading a file line by line: one more line at its end is one more step.
use mathlib.Core.List.{append_assoc}
use pfsnitch.Base.{
  ℕ, Bool, true, false, List, [], ◌∷◌, ◌++◌, none, some, ◌≡◌, ◌≢◌, refl, sym, ◌∙◌, ap, ◌==◌, nat_eq,
  unwrap_or,
}
use pfsnitch.Policy.Load.{File, directive, apply_directive, load_body, load_line, load_lines, load}
use pfsnitch.Policy.Target.{split_scoped, scoped_parts}
use pfsnitch.Policy.{Policy, initial}
use pfsnitch.Text.Laws.{
  NoneOf, NoneOf-append, split_first-append, split_first-NoneOf, trim_start-cons, trim_end-append,
  trim_end-white, trim_end-NoneOf, trim-NoneOf, is_break, ends_line, lines-cons, lines-append,
}
use pfsnitch.Text.{Str, is_white, trim_start, trim_end, trim, is_empty, lines, Unicode}

abbrev pub is_hash : ℕ → Bool
is_hash c = c == b'#'

-- A text that begins and ends with a character that is no white space.
pub record IsTrimmed (v : Str) : Type 0 where
  pub not_empty : v ≢ []
  pub starts : trim_start v ≡ v
  pub ends : trim_end v ≡ v

pub trim-IsTrimmed : (v : Str) → IsTrimmed v → trim v ≡ v
unfolding trim
trim-IsTrimmed v t = rw t.starts t.ends

white-tab : is_white b'\t' ≡ true
unfolding is_white
white-tab = refl

pub white-space : is_white b' ' ≡ true
unfolding is_white
white-space = refl

-- Of a word and a trimmed text, cut by a space or a tab, white space is trimmed at neither end.
trim_start-word : (k s : Str) → k ≢ [] → NoneOf is_white k → trim_start (k ++ s) ≡ k ++ s
trim_start-word [] s ne w = absurd (ne refl)
trim_start-word (c ∷ k) s ne w = trim_start-cons c (k ++ s) w.0

trim_end-pair : (k : Str) (c : ℕ) (v : Str) → IsTrimmed v → trim_end (k ++ c ∷ v) ≡ k ++ c ∷ v
trim_end-pair k c v t =
    ap trim_end (sym (append_assoc k (c ∷ []) v))
    ∙ trim_end-append (k ++ c ∷ []) v (λ e. t.not_empty (sym t.ends ∙ e))
    ∙ rw t.ends (append_assoc k (c ∷ []) v)

pub trim-tab :
    (k v : Str)
    → k ≢ []
    → NoneOf is_white k
    → IsTrimmed v
    → trim ((k ++ b' ' ∷ v) ++ b'\t' ∷ []) ≡ k ++ b' ' ∷ v
unfolding trim
trim-tab k v ne w t =
    let whole = append_assoc k (b' ' ∷ v) (b'\t' ∷ []) in
    ap trim_end
      (ap trim_start whole ∙ trim_start-word k ((b' ' ∷ v) ++ b'\t' ∷ []) ne w ∙ sym whole)
    ∙ trim_end-white (k ++ b' ' ∷ v) b'\t' white-tab
    ∙ trim_end-pair k b' ' v t

pub append-cons-ne-nil : (k : Str) (c : ℕ) (v : Str) → k ++ c ∷ v ≢ []
append-cons-ne-nil [] c v = λ e. cc
append-cons-ne-nil (d ∷ k) c v = λ e. cc

pub IsTrimmed-pair :
    (k : Str) (c : ℕ) (v : Str) → k ≢ [] → NoneOf is_white k → IsTrimmed v → IsTrimmed (k ++ c ∷ v)
IsTrimmed-pair k c v ne w t = record {
  not_empty = append-cons-ne-nil k c v;
  starts = trim_start-word k (c ∷ v) ne w;
  ends = trim_end-pair k c v t;
}

pub is_empty-IsTrimmed : (v : Str) → v ≢ [] → is_empty v ≡ false
unfolding is_empty
is_empty-IsTrimmed [] ne = absurd (ne refl)
is_empty-IsTrimmed (c ∷ v) ne = refl

pub IsTrimmed-word : (k : Str) → k ≢ [] → NoneOf is_white k → IsTrimmed k
unfolding trim_start
IsTrimmed-word [] ne w = absurd (ne refl)
IsTrimmed-word (c ∷ k) ne w = record {
  not_empty = ne;
  starts = trim_start-cons c k w.0;
  ends = trim_end-NoneOf (c ∷ k) w;
}

-- A destination and a binary, cut by one white space.
pub split_scoped-pair :
    (d : Str) (c : ℕ) (e : Str)
    → d ≢ []
    → NoneOf is_white d
    → is_white c ≡ true
    → IsTrimmed e
    → split_scoped (d ++ c ∷ e) ≡ some (d, e)
unfolding split_scoped scoped_parts
split_scoped-pair d c e ne w h t = rw (split_first-append is_white d c e w h) (
    rw (
      trim-NoneOf d w,
      trim-IsTrimmed e t,
      is_empty-IsTrimmed d ne,
      is_empty-IsTrimmed e t.not_empty,
    ))

module _ ⦃u : Unicode⦄ where
  load_body-pair :
      (p : Policy) (k v : Str)
      → k ≢ []
      → NoneOf is_white k
      → IsTrimmed v
      → load_body p (k ++ b' ' ∷ v) ≡ apply_directive (directive k) p v
  unfolding load_body
  load_body-pair p k v ne w t = rw (
    split_first-append is_white k b' ' v w white-space,
    is_empty-IsTrimmed (k ++ b' ' ∷ v) (append-cons-ne-nil k b' ' v),
    trim-IsTrimmed v t,
  )

  -- A line "key value", and the same with a comment behind a tab.
  pub load_line-bare :
      (p : Policy) (k v : Str)
      → k ≢ []
      → NoneOf is_white k
      → NoneOf is_hash (k ++ b' ' ∷ v)
      → IsTrimmed v
      → load_line p (k ++ b' ' ∷ v) ≡ apply_directive (directive k) p v
  unfolding load_line
  load_line-bare p k v ne w h t =
      rw (split_first-NoneOf is_hash (k ++ b' ' ∷ v) h)
        (rw (trim-IsTrimmed _ (IsTrimmed-pair k b' ' v ne w t)) (load_body-pair p k v ne w t))

  pub load_line-comment :
      (p : Policy) (k v comment : Str)
      → k ≢ []
      → NoneOf is_white k
      → NoneOf is_hash (k ++ b' ' ∷ v)
      → IsTrimmed v
      → load_line p ((k ++ b' ' ∷ v) ++ b'\t' ∷ b'#' ∷ comment) ≡ apply_directive (directive k) p v
  unfolding load_line
  load_line-comment p k v comment ne w h t =
      let body = k ++ b' ' ∷ v in
      let before = NoneOf-append is_hash body (b'\t' ∷ []) h (refl, tt) in
      ap (load_line p) (sym (append_assoc body (b'\t' ∷ []) (b'#' ∷ comment)))
      ∙ rw (split_first-append is_hash (body ++ b'\t' ∷ []) b'#' comment before refl)
          (rw (trim-tab k v ne w t) (load_body-pair p k v ne w t))

  load_lines-append :
      (p : Policy) (xs ys : List Str) → load_lines p (xs ++ ys) ≡ load_lines (load_lines p xs) ys
  unfolding load_lines
  load_lines-append p [] ys = refl
  load_lines-append p (x ∷ xs) ys = load_lines-append (load_line p x) xs ys

  load-text : (file : File) → load file ≡ load_lines initial (lines (unwrap_or file []))
  unfolding load load_lines lines
  load-text none = refl
  load-text (some text) = refl

  -- Behind whole lines, one more line is read as one more step.
  pub load-append :
      (file : File) (line : Str)
      → ends_line (unwrap_or file []) ≡ true
      → NoneOf is_break line
      → load (some (unwrap_or file [] ++ (line ++ (b'\n' ∷ [])))) ≡ load_line (load file) line
  load-append file line ends whole =
      let text = unwrap_or file [] in
      load-text _
      ∙ ap (load_lines initial) (
          lines-append text (line ++ b'\n' ∷ []) ends
          ∙ ap (λ ls. lines text ++ ls) (lines-cons line [] whole))
      ∙ load_lines-append initial (lines text) (line ∷ lines [])
      ∙ unfold load_lines lines in ap (λ q. load_line q line) (sym (load-text file))
