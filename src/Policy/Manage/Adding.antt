-- ===== src/Policy/Manage/Adding.antt =====
-- src/policy.rs: `add_rule` puts a rule in once.
use mathlib.Core.List.{append_assoc, append-nil}
use pfsnitch.Base.{
  Bool, true, false, List, [], ◌∷◌, ◌++◌, Option, none, some, ◌≡◌, ◌≢◌, refl, sym, ◌∙◌, ap, arith,
  nat_eq, list_eq, unwrap_or, any, contains, Bool-cases, inl, inr, eq_self,
}
use pfsnitch.Policy.Load.Lines.{
  is_hash, IsTrimmed, IsTrimmed-pair, white-space, trim-IsTrimmed, is_empty-IsTrimmed,
  append-cons-ne-nil, trim-tab,
}
use pfsnitch.Policy.Load.{File}
use pfsnitch.Policy.Manage.{
  Rule, is_rule, parse_line, parse_body, parse_lines, filter, rules, matches, normalise,
  split_comment, kinds, check_rule, present, added, noted, add_rule,
}
use pfsnitch.Policy.Record.{append_line}
use pfsnitch.Text.Laws.{
  NoneOf, NoneOf-append, is_break, ends_line, lines-cons, lines-append, split_first-append,
  split_first-NoneOf,
}
use pfsnitch.Text.{Str, trim, is_white, lines, Unicode}

parse_body-pair :
    (k v : Str) (comment : Option Str)
    → k ≢ []
    → NoneOf is_white k
    → IsTrimmed v
    → parse_body (k ++ b' ' ∷ v) comment ≡ some (record { kind = k; value = v; comment = comment })
unfolding parse_body
parse_body-pair k v comment ne w t = rw (
  split_first-append is_white k b' ' v w white-space,
  is_empty-IsTrimmed (k ++ b' ' ∷ v) (append-cons-ne-nil k b' ' v),
  trim-IsTrimmed v t,
  is_empty-IsTrimmed v t.not_empty,
)

split_comment-bare : (s : Str) → NoneOf is_hash s → split_comment s ≡ (s, none)
unfolding split_comment
split_comment-bare s h =
    ap (λ r. (r.0, elim r.1 [ some t ↦ some (trim t) | none ↦ none ]))
      (split_first-NoneOf is_hash s h)

split_comment-noted :
    (s rest : Str) → NoneOf is_hash s → split_comment (s ++ b'#' ∷ rest) ≡ (s, some (trim rest))
unfolding split_comment
split_comment-noted s rest h =
    ap (λ r. (r.0, elim r.1 [ some t ↦ some (trim t) | none ↦ none ]))
      (split_first-append is_hash s b'#' rest h refl)

-- A line that `add_rule` writes is read back as the rule.
parse_line-noted :
    (k v : Str) (text : Option Str)
    → k ≢ []
    → NoneOf is_white k
    → NoneOf is_hash (k ++ b' ' ∷ v)
    → IsTrimmed v
    → (c : Option Str) × (parse_line (k ++ b' ' ∷ (v ++ noted text))
        ≡ some (record { kind = k; value = v; comment = c }))
unfolding parse_line noted
parse_line-noted k v none ne w h t =
    let body = k ++ b' ' ∷ v in
    (
      none,
      ap (λ s. parse_line (k ++ b' ' ∷ s)) (append-nil v)
          ∙ ap (λ r. parse_body (trim r.0) r.1) (split_comment-bare body h)
          ∙ ap (λ s. parse_body s none) (trim-IsTrimmed body (IsTrimmed-pair k b' ' v ne w t))
          ∙ parse_body-pair k v none ne w t,
    )
parse_line-noted k v (some n) ne w h t =
    let body = k ++ b' ' ∷ v in
    let rest = b' ' ∷ n in
    let before = NoneOf-append is_hash body (b'\t' ∷ []) h (refl, tt) in
    (
      some (trim rest),
      ap parse_line (
            sym (append_assoc k (b' ' ∷ v) (b'\t' ∷ b'#' ∷ rest))
            ∙ sym (append_assoc body (b'\t' ∷ []) (b'#' ∷ rest)))
          ∙ ap (λ r. parse_body (trim r.0) r.1)
              (split_comment-noted (body ++ b'\t' ∷ []) rest before)
          ∙ ap (λ s. parse_body s (some (trim rest))) (trim-tab k v ne w t)
          ∙ parse_body-pair k v (some (trim rest)) ne w t,
    )

any-last :
    (q : Rule → Bool) (ls : List Str) (line : Str) (r : Rule)
    → parse_line line ≡ some r
    → is_rule r ≡ true
    → q r ≡ true
    → any q (filter is_rule (parse_lines (ls ++ line ∷ []))) ≡ true
unfolding any filter parse_lines
any-last q [] line r e i h = rw (e, parse_lines) (rw i (rw h))
any-last q (l ∷ ls) line r e i h = ground (arith, any-last q ls line r e i h)

-- The rules of a file to which a line with a rule is appended.
rules-last :
    (ls : List Str) (line : Str) (r : Rule)
    → parse_line line ≡ some r
    → is_rule r ≡ true
    → filter is_rule (parse_lines (ls ++ line ∷ [])) ≡ filter is_rule (parse_lines ls) ++ r ∷ []
unfolding filter parse_lines
rules-last [] line r e i = rw (e, parse_lines) (rw i refl)
rules-last (l ∷ ls) line r e i = ground (arith, rules-last ls line r e i)

rules-lines : (file : File) → rules file ≡ filter is_rule (parse_lines (lines (unwrap_or file [])))
unfolding rules lines filter parse_lines
rules-lines none = refl
rules-lines (some text) = refl

rules-append :
    (file : File) (line : Str)
    → ends_line (unwrap_or file []) ≡ true
    → NoneOf is_break line
    → rules (append_line true file line)
      ≡ filter is_rule (parse_lines (lines (unwrap_or file []) ++ line ∷ []))
unfolding rules append_line
rules-append file line ends whole =
    ap (λ ls. filter is_rule (parse_lines ls))
      (lines-append (unwrap_or file []) (line ++ b'\n' ∷ []) ends
        ∙ ap (λ ls. lines (unwrap_or file []) ++ ls)
            (lines-cons line [] whole ∙ unfold lines in refl))

module _ ⦃u : Unicode⦄ where
  add_rule-present :
      (writable : Bool) (file : File) (kind value : Str) (text : Option Str)
      → check_rule kind value ≡ none
      → any (matches kind (normalise kind value)) (rules file) ≡ true
      → add_rule writable file kind value text ≡ (present, file)
  unfolding add_rule
  add_rule-present writable file kind value text h k = rw (h, add_rule) (rw k)

  add_rule-added :
      (file : File) (kind value : Str) (text : Option Str)
      → check_rule kind value ≡ none
      → any (matches kind (normalise kind value)) (rules file) ≡ false
      → add_rule true file kind value text
        ≡ (added, append_line true file (kind ++ b' ' ∷ (normalise kind value ++ noted text)))
  unfolding add_rule
  add_rule-added file kind value text h k = rw (h, add_rule) (rw k)

  -- A rule that is not there yet comes behind the others, in its normal form.
  pub add_rule-rules :
      (file : File) (kind value : Str) (text : Option Str)
      → check_rule kind value ≡ none
      → any (matches kind (normalise kind value)) (rules file) ≡ false
      → contains kind kinds ≡ true
      → kind ≢ []
      → NoneOf is_white kind
      → ends_line (unwrap_or file []) ≡ true
      → IsTrimmed (normalise kind value)
      → NoneOf is_hash (kind ++ b' ' ∷ normalise kind value)
      → NoneOf is_break (kind ++ b' ' ∷ (normalise kind value ++ noted text))
      → (c : Option Str) × (rules (add_rule true file kind value text).1
          ≡ rules file ++ record { kind = kind; value = normalise kind value; comment = c } ∷ [])
  add_rule-rules file kind value text ok missing kd ne w ends t h whole =
      let norm = normalise kind value in
      let line = kind ++ b' ' ∷ (norm ++ noted text) in
      let (c, e) = parse_line-noted kind norm text ne w h t in
      (
        c,
        ap (λ r. rules r.1) (add_rule-added file kind value text ok missing)
            ∙ rules-append file line ends whole
            ∙ rules-last (lines (unwrap_or file [])) line _ e kd
            ∙ ap (λ rs. rs ++ record { kind = kind; value = norm; comment = c } ∷ [])
                (sym (rules-lines file)),
      )

  -- A rule that can be written down is put in once: where the file ends in a whole line, the kind is
  -- a word of the list, the normal form of the value is its own normal form and can stand in a line
  -- with the note, adding the rule and adding it again says that it is present, and leaves the file
  -- that the first call left.
  pub add_rule-again :
      (writable : Bool) (file : File) (kind value : Str) (text remark : Option Str)
      → check_rule kind value ≡ none
      → contains kind kinds ≡ true
      → kind ≢ []
      → NoneOf is_white kind
      → ends_line (unwrap_or file []) ≡ true
      → IsTrimmed (normalise kind value)
      → NoneOf is_hash (kind ++ b' ' ∷ normalise kind value)
      → NoneOf is_break (kind ++ b' ' ∷ (normalise kind value ++ noted text))
      → normalise kind (normalise kind value) ≡ normalise kind value
      → add_rule writable (add_rule true file kind value text).1 kind value remark
        ≡ (present, (add_rule true file kind value text).1)
  add_rule-again writable file kind value text remark ok kd ne w ends t h whole again =
      let norm = normalise kind value in
      let line = kind ++ b' ' ∷ (norm ++ noted text) in
      let q = matches kind norm in
      let file' = (add_rule true file kind value text).1 in
      let found : any q (rules file') ≡ true = elim (Bool-cases (any q (rules file))) [
        | inl there ↦
            ap (λ r. any q (rules r.1)) (add_rule-present true file kind value text ok there)
            ∙ there
        | inr missing ↦
            let (c, e) = parse_line-noted kind norm text ne w h t in
            ap (λ r. any q (rules r.1)) (add_rule-added file kind value text ok missing)
            ∙ ap (any q) (rules-append file line ends whole)
            ∙ any-last q (lines (unwrap_or file [])) line _ e kd
                (rw (eq_self kind, again, eq_self norm))
      ] in
      add_rule-present writable file' kind value remark ok found
