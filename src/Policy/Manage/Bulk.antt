-- ===== src/Policy/Manage/Bulk.antt =====
-- src/policy.rs: `remove_app` and `clear_rules` take the lines that they name, and keep a backup.
use pfsnitch.Base.{
  ℕ, Bool, true, not, List, [], ◌∷◌, Option, none, some, ◌≡◌, refl, sym, ◌∙◌, ap, arith, nat_eq,
  list_eq,
}
use pfsnitch.Policy.Load.{File}
use pfsnitch.Policy.Manage.{Rule, parse_lines, filter, rules, is_rule}
use pfsnitch.Policy.Manage.Edit.{
  Disk, Fault, write_atomic, keep_lines, write_kept, with_text, is_cleared, clear_rules, remove_app,
  is_of_app, is_app_line, backed_up, back_up, is_rule_line,
}
use pfsnitch.Text.Laws.{NoneOf}
use pfsnitch.Text.Whole.{is_return}
use pfsnitch.Text.{Str, lines}
use pfsnitch.Policy.Manage.Removal.{entries, line_test, dropped, write_kept-entries}

filter-disjoint :
    (p q : Rule → Bool) (rs : List Rule)
    → ((r : Rule) → p r ≡ true → q r ≡ true)
    → filter p (filter (dropped q) rs) ≡ []
unfolding filter
filter-disjoint p q [] h = refl
filter-disjoint p q (r ∷ rs) h = ground (arith, filter-disjoint p q rs h, h r)

rules-entries : (file : File) → rules file ≡ filter is_rule (entries file)
unfolding rules
rules-entries none = unfold lines parse_lines filter in refl
rules-entries (some text) = refl

write_kept-backup :
    (fault : Fault) (disk : Disk) (k : Str × ℕ) → (write_kept fault disk k).1.backup ≡ disk.backup
unfolding write_kept write_atomic
write_kept-backup fault disk k = ground arith

backed_up-entries :
    (p : Rule → Bool) (cut : Option ℕ) (fault : Fault) (disk : Disk) (text : Str) (n : ℕ)
    → disk.policy ≡ some text
    → NoneOf is_return text
    → (backed_up (line_test p) cut fault disk).0 ≡ some n
    → (entries (backed_up (line_test p) cut fault disk).1.policy
        ≡ filter (dropped p) (entries disk.policy))
      × ((backed_up (line_test p) cut fault disk).1.backup ≡ some text)
unfolding backed_up with_text back_up
backed_up-entries p (some m) fault disk text n e h k =
    let ran : (backed_up (line_test p) (some m) fault disk).0 ≡ none =
      ap (λ f. (with_text f disk (λ t. (none, back_up (some m) t disk))).0) e in
    ground (arith, sym ran ∙ k)
backed_up-entries p none fault disk text n e h k =
    let saved = back_up none text disk in
    let kept = keep_lines (line_test p) (lines text) in
    let ran : backed_up (line_test p) none fault disk ≡ write_kept fault saved kept =
      ap
        (λ f.
          with_text f disk
            (λ t. write_kept fault (back_up none t disk) (keep_lines (line_test p) (lines t))))
        e in
    let before : entries disk.policy ≡ parse_lines (lines text) = rw e refl in
    let (left, count) = write_kept-entries p fault saved text n e h (sym (ap (λ r. r.0) ran) ∙ k) in
    (
      ap (λ r. entries r.1.policy) ran ∙ left ∙ ap (filter (dropped p)) (sym before),
      ap (λ r. r.1.backup) ran ∙ write_kept-backup fault saved kept,
    )

-- Clearing the rules of a file without carriage returns: when it reports success, the file lists no
-- rule any more, its other entries but the pinned identities are those it had, in their order, and
-- the text it had is the backup.
pub clear_rules-entries :
    (cut : Option ℕ) (fault : Fault) (disk : Disk) (text : Str) (n : ℕ)
    → disk.policy ≡ some text
    → NoneOf is_return text
    → (clear_rules cut fault disk).0 ≡ some n
    → (rules (clear_rules cut fault disk).1.policy ≡ [])
      × (entries (clear_rules cut fault disk).1.policy
          ≡ filter (λ r. not (is_cleared r)) (entries disk.policy))
      × ((clear_rules cut fault disk).1.backup ≡ some text)
unfolding clear_rules is_rule_line
clear_rules-entries cut fault disk text n e h k =
    let (left, saved) = backed_up-entries is_cleared cut fault disk text n e h k in
    (
      rules-entries _
          ∙ ap (filter is_rule) left
          ∙ filter-disjoint is_rule is_cleared (entries disk.policy) (λ r h'. rw h' refl),
      left,
      saved,
    )

-- Removing a binary from a file without carriage returns: when it reports success, the entries of
-- the file are those it had that do not speak of the binary, in their order, and the text it had is
-- the backup. An entry speaks of it that allows or denies it, pins its identity, or is scoped to it.
pub remove_app-entries :
    (cut : Option ℕ) (fault : Fault) (disk : Disk) (exe text : Str) (n : ℕ)
    → disk.policy ≡ some text
    → NoneOf is_return text
    → (remove_app cut fault disk exe).0 ≡ some n
    → (entries (remove_app cut fault disk exe).1.policy
        ≡ filter (λ r. not (is_of_app exe r)) (entries disk.policy))
      × ((remove_app cut fault disk exe).1.backup ≡ some text)
unfolding remove_app is_app_line
remove_app-entries cut fault disk exe text n e h k =
    backed_up-entries (is_of_app exe) cut fault disk text n e h k
