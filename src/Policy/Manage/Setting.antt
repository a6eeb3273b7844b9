-- ===== src/Policy/Manage/Setting.antt =====
-- src/policy.rs: `set_directive`, for any setting that one directive gives and that `load` keeps in
-- one field of the policy.
use pfsnitch.Base.{
  Bool, true, false, List, [], ◌∷◌, Option, none, some, ◌≡◌, ◌⊎◌, inl, inr, refl, ◌∙◌, ap, sym,
  arith, ◌==◌, nat_eq, list_eq, unwrap_or, on_some, All, Bool-cases,
}
use pfsnitch.Policy.Load.{
  Directive, directive, apply_directive, load_body, load_line, load_lines, load, File,
}
use pfsnitch.Policy.Manage.Edit.{
  Disk, Fault, not_opened, not_renamed, no_fault, cut_short, write_atomic, is_key, setting,
  set_lines, set_directive,
}
use pfsnitch.Policy.Manage.Removal.{push_line-lines}
use pfsnitch.Policy.Manage.{Rule, parse_line, parse_body, split_comment}
use pfsnitch.Policy.{Policy, initial}
use pfsnitch.Text.Laws.{NoneOf, is_break}
use pfsnitch.Text.Whole.{is_return, lines-whole}
use pfsnitch.Text.{Str, trim, split_first, is_white, is_empty, lines, Unicode}

-- `own` is the directive that `key` names, and only it changes the field `get`.
pub record IsField {ℓ} ⦃u : Unicode⦄ {B : Type ℓ} (key : Str) (own : Directive) (get : Policy → B)
    : Type ℓ where
  pub only :
      (d : Directive) (p : Policy) (v : Str)
      → (get (apply_directive d p v) ≡ get p) ⊎ ((d ≡ own) × (is_empty v ≡ false))
  pub keyed : (k : Str) → directive k ≡ own → (k == key) ≡ true
  pub same :
      (d : Directive) (p q : Policy) (v : Str)
      → get p ≡ get q
      → get (apply_directive d p v) ≡ get (apply_directive d q v)

module _ ⦃u : Unicode⦄ where
  -- No file and an empty one are the same policy.
  load-lines : (file : File) → load file ≡ load_lines initial (lines (unwrap_or file []))
  unfolding load load_lines lines
  load-lines none = refl
  load-lines (some text) = refl

  one_kind :
      (a b : Str) (r : Option Rule)
      → (a == b) ≡ false
      → on_some r (λ x. x.kind == a) ≡ true
      → on_some r (λ x. x.kind == b) ≡ false
  one_kind a b none differ h = refl
  one_kind a b (some r) differ h = ap (λ k. k == b) ((list_eq.same_iff r.kind a).0 h) ∙ differ

  -- A line sets one key.
  is_key-one : (a b raw : Str) → (a == b) ≡ false → is_key a raw ≡ true → is_key b raw ≡ false
  unfolding is_key
  is_key-one a b raw differ h = one_kind a b (parse_line raw) differ h

module _ {ℓ} ⦃u : Unicode⦄ {B : Type ℓ} (key : Str) (own : Directive) (get : Policy → B)
    (f : IsField key own get) where
  load_body-kept :
      (p : Policy) (body : Str) (comment : Option Str)
      → on_some (parse_body body comment) (λ r. r.kind == key) ≡ false
      → get (load_body p body) ≡ get p
  unfolding load_body parse_body
  load_body-kept p body comment h =
      let k = (split_first is_white body).0 in
      let v = trim (unwrap_or (split_first is_white body).1 []) in
      ground (arith, f.only (directive k) p v, f.keyed k)

  -- A line that does not set the key leaves the field as it is.
  pub load_line-kept :
      (p : Policy) (raw : Str) → is_key key raw ≡ false → get (load_line p raw) ≡ get p
  unfolding load_line is_key parse_line split_comment
  load_line-kept p raw h =
      load_body-kept p (trim (split_first (λ c. c == b'#') raw).0) (split_comment raw).1 h

  load_line-same :
      (p q : Policy) (raw : Str) → get p ≡ get q → get (load_line p raw) ≡ get (load_line q raw)
  unfolding load_line load_body
  load_line-same p q raw h =
      let body = trim (split_first (λ c. c == b'#') raw).0 in
      let k = (split_first is_white body).0 in
      let v = trim (unwrap_or (split_first is_white body).1 []) in
      ground (arith, f.same (directive k) p q v h, h)

  -- The line that is written sets the field.
  module _ (value : Str) (result : B)
      (given : (p : Policy) → get (load_line p (setting key value)) ≡ result)
      (whole : NoneOf is_break (setting key value)) where
    set_lines-given :
        (p : Policy) (written : Bool) (ls : List Str)
        → All (NoneOf is_break) ls
        → (written ≡ true → get p ≡ result)
        → get (load_lines p (lines (set_lines key value written ls))) ≡ result
    unfolding load_lines set_lines
    set_lines-given p true [] h w = unfold lines in w refl
    set_lines-given p false [] h w =
        rw (push_line-lines (setting key value) [] whole) (unfold lines in given p)
    set_lines-given p true (raw ∷ ls) h w = elim (Bool-cases (is_key key raw)) [
      | inl mine ↦ rw mine (set_lines-given p true ls h.1 w)
      | inr other ↦ rw other (
          rw (push_line-lines raw (set_lines key value true ls) h.0)
            (set_lines-given (load_line p raw) true ls h.1 (λ e. load_line-kept p raw other ∙ w e)))
    ]
    set_lines-given p false (raw ∷ ls) h w = elim (Bool-cases (is_key key raw)) [
      | inl mine ↦
          let line = setting key value in
          rw mine (
            rw (push_line-lines line (set_lines key value true ls) whole)
              (set_lines-given (load_line p line) true ls h.1 (λ e. given p)))
      | inr other ↦ rw other (
          rw (push_line-lines raw (set_lines key value false ls) h.0)
            (set_lines-given (load_line p raw) false ls h.1 (λ e. ground (arith, e))))
    ]

    -- If the write succeeds on a file without carriage returns, or on none, then the field of the
    -- policy that is loaded from the file is what was set, whatever lines the file had.
    pub set_directive-given :
        (fault : Fault) (disk : Disk)
        → NoneOf is_return (unwrap_or disk.policy [])
        → (set_directive fault disk key value).0 ≡ true
        → get (load (set_directive fault disk key value).1.policy) ≡ result
    unfolding set_directive load write_atomic
    set_directive-given not_opened disk h k = ground (arith, k)
    set_directive-given not_renamed disk h k = ground (arith, k)
    set_directive-given (cut_short n) disk h k = ground (arith, k)
    set_directive-given no_fault disk h k =
        set_lines-given initial false _ (lines-whole (unwrap_or disk.policy []) h)
          (λ e. ground (arith, e))

  -- The line of another key does not touch the field.
  module _ (key' value : Str) (differ : (key' == key) ≡ false)
      (aside : (p : Policy) → get (load_line p (setting key' value)) ≡ get p)
      (whole : NoneOf is_break (setting key' value)) where
    dropped-kept : (p : Policy) (raw : Str) → is_key key' raw ≡ true → get (load_line p raw) ≡ get p
    dropped-kept p raw h = load_line-kept p raw (is_key-one key' key raw differ h)

    set_lines-aside :
        (p q : Policy) (written : Bool) (ls : List Str)
        → All (NoneOf is_break) ls
        → get p ≡ get q
        → get (load_lines p (lines (set_lines key' value written ls))) ≡ get (load_lines q ls)
    unfolding load_lines set_lines
    set_lines-aside p q true [] h e = unfold lines in e
    set_lines-aside p q false [] h e =
        rw (push_line-lines (setting key' value) [] whole) (unfold lines in aside p ∙ e)
    set_lines-aside p q true (raw ∷ ls) h e = elim (Bool-cases (is_key key' raw)) [
      | inl mine ↦
          rw mine
            (set_lines-aside p (load_line q raw) true ls h.1 (e ∙ sym (dropped-kept q raw mine)))
      | inr other ↦ rw other (
          rw (push_line-lines raw (set_lines key' value true ls) h.0) (
            set_lines-aside (load_line p raw) (load_line q raw) true ls h.1
              (load_line-same p q raw e)))
    ]
    set_lines-aside p q false (raw ∷ ls) h e = elim (Bool-cases (is_key key' raw)) [
      | inl mine ↦
          let line = setting key' value in
          rw mine (
            rw (push_line-lines line (set_lines key' value true ls) whole) (
              set_lines-aside (load_line p line) (load_line q raw) true ls h.1
                (aside p ∙ (e ∙ sym (dropped-kept q raw mine)))))
      | inr other ↦ rw other (
          rw (push_line-lines raw (set_lines key' value false ls) h.0) (
            set_lines-aside (load_line p raw) (load_line q raw) false ls h.1
              (load_line-same p q raw e)))
    ]

    -- Whether the write succeeds or not, the field of the policy that is loaded stays the same.
    pub set_directive-aside :
        (fault : Fault) (disk : Disk)
        → NoneOf is_return (unwrap_or disk.policy [])
        → get (load (set_directive fault disk key' value).1.policy) ≡ get (load disk.policy)
    unfolding set_directive load write_atomic
    set_directive-aside not_opened disk h = refl
    set_directive-aside not_renamed disk h = refl
    set_directive-aside (cut_short n) disk h = refl
    set_directive-aside no_fault disk h =
        set_lines-aside initial initial false _ (lines-whole (unwrap_or disk.policy []) h) refl
        ∙ ap get (sym (load-lines disk.policy))
