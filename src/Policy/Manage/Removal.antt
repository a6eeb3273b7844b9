-- ===== src/Policy/Manage/Removal.antt =====
-- src/policy.rs: removing rules from the file takes those that match, and no other line.
use pfsnitch.Base.{
  ℕ, ◌+◌, Bool, false, not, List, [], ◌∷◌, none, some, ◌≡◌, refl, sym, ◌∙◌, ap, arith, nat_eq,
  list_eq, unwrap_or, length, All,
}
use pfsnitch.Policy.Load.{File}
use pfsnitch.Policy.Manage.{Rule, parse_line, parse_lines, filter, matches, normalise}
use pfsnitch.Policy.Manage.Edit.{
  Disk, Fault, write_atomic, push_line, is_hit, keep_lines, write_kept, with_text, remove_rule,
}
use pfsnitch.Text.Laws.{NoneOf, is_break, lines-cons}
use pfsnitch.Text.Whole.{is_return, lines-whole}
use pfsnitch.Text.{Str, lines, Unicode}

-- Every rule and setting of a file, in its order.
abbrev pub entries : File → List Rule
entries file = parse_lines (lines (unwrap_or file []))

abbrev pub line_test : (Rule → Bool) → Str → Bool
line_test p raw = elim (parse_line raw) [ some r ↦ p r | none ↦ false ]

-- A line that is kept is read back as it was.
pub push_line-lines :
    (raw rest : Str) → NoneOf is_break raw → lines (push_line raw rest) ≡ raw ∷ lines rest
unfolding push_line
push_line-lines raw rest h = lines-cons raw rest h

abbrev pub dropped : (Rule → Bool) → Rule → Bool
dropped p r = not (p r)

keep_lines-entries :
    (p : Rule → Bool) (ls : List Str)
    → All (NoneOf is_break) ls
    → parse_lines (lines (keep_lines (line_test p) ls).0) ≡ filter (dropped p) (parse_lines ls)
unfolding keep_lines parse_lines filter
keep_lines-entries p [] h = unfold lines in refl
keep_lines-entries p (raw ∷ ls) h =
    let ih = keep_lines-entries p ls h.1 in
    let line = push_line-lines raw (keep_lines (line_test p) ls).0 h.0 in ground (arith, ih, line)

keep_lines-count :
    (p : Rule → Bool) (ls : List Str)
    → length (parse_lines ls)
      ≡ (keep_lines (line_test p) ls).1 + length (filter (dropped p) (parse_lines ls))
unfolding keep_lines parse_lines filter
keep_lines-count p [] = refl
keep_lines-count p (raw ∷ ls) = ground (arith, keep_lines-count p ls)

-- Where no line goes, no rule goes.
keep_lines-none :
    (p : Rule → Bool) (ls : List Str)
    → (keep_lines (line_test p) ls).1 ≡ 0
    → filter (dropped p) (parse_lines ls) ≡ parse_lines ls
unfolding keep_lines parse_lines filter
keep_lines-none p [] h = refl
keep_lines-none p (raw ∷ ls) h = ground (arith, h, keep_lines-none p ls)

pub write_kept-entries :
    (p : Rule → Bool) (fault : Fault) (disk : Disk) (text : Str) (n : ℕ)
    → disk.policy ≡ some text
    → NoneOf is_return text
    → (write_kept fault disk (keep_lines (line_test p) (lines text))).0 ≡ some n
    → (entries (write_kept fault disk (keep_lines (line_test p) (lines text))).1.policy
        ≡ filter (dropped p) (parse_lines (lines text)))
      × (n ≡ (keep_lines (line_test p) (lines text)).1)
unfolding write_kept write_atomic
write_kept-entries p fault disk text n e h k =
    let whole = keep_lines-entries p (lines text) (lines-whole text h) in
    let same = keep_lines-none p (lines text) in ground (arith, e, k, whole, same)

module _ ⦃u : Unicode⦄ where
  -- Removing a rule from a file without carriage returns: when it reports that `n` lines went, what
  -- is left of the entries of the file are those that do not match, in their order, and `n` is the
  -- number of the others. The rules match whose kind and normal form are those asked for.
  pub remove_rule-entries :
      (fault : Fault) (disk : Disk) (kind value text : Str) (n : ℕ)
      → disk.policy ≡ some text
      → NoneOf is_return text
      → (remove_rule fault disk kind value).0 ≡ some n
      → (entries (remove_rule fault disk kind value).1.policy
          ≡ filter (λ r. not (matches kind (normalise kind value) r)) (entries disk.policy))
        × (length (entries disk.policy)
            ≡ n + length (entries (remove_rule fault disk kind value).1.policy))
  unfolding remove_rule is_hit with_text
  remove_rule-entries fault disk kind value text n e h k =
      let p = matches kind (normalise kind value) in
      let kept = keep_lines (line_test p) (lines text) in
      let ran : remove_rule fault disk kind value ≡ write_kept fault disk kept =
        ap (λ f. with_text f disk (λ t. write_kept fault disk (keep_lines (line_test p) (lines t))))
          e in
      let before : entries disk.policy ≡ parse_lines (lines text) = rw e refl in
      let (left, count) =
        write_kept-entries p fault disk text n e h (sym (ap (λ r. r.0) ran) ∙ k) in
      let left' = ap (λ r. entries r.1.policy) ran ∙ left in
      (
        left' ∙ ap (filter (dropped p)) (sym before),
        ap length before ∙ keep_lines-count p (lines text) ∙ omega (arith, count, ap length left'),
      )
