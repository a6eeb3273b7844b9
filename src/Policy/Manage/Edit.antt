-- ===== src/Policy/Manage/Edit.antt =====
-- src/policy.rs: rewriting the policy file. A write may fail or be cut short at every point.
use pfsnitch.Base.{
  ℕ, suc, Bool, true, false, ◌||◌, List, [], ◌∷◌, ◌++◌, Option, none, some, if◌then◌else◌, ◌==◌,
  nat_eq, list_eq, unwrap_or, take, is_some, on_some,
}
use pfsnitch.Policy.Load.{File, if_scoped}
use pfsnitch.Policy.{Mode, AttributionMode, show_mode, show_attribution}
use pfsnitch.Text.{Str, codes, lines, Unicode}
use pfsnitch.Policy.Manage.{Rule, is_rule, parse_line, matches, normalise}

-- The policy, the temporary file and the backup beside it.
pub record Disk : Type 0 where
  pub policy : File
  pub temporary : File
  pub backup : File

-- How a write ends: it may fail or the machine may stop after some characters of the temporary
-- file, or behind it, before the rename.
pub data Fault : Type 0 where
  not_opened not_renamed no_fault : Fault
  cut_short : ℕ → Fault

unfoldable pub write_atomic : Fault → Disk → Str → Bool × Disk
write_atomic not_opened disk text = (false, disk)
write_atomic (cut_short n) disk text = (false, record disk { temporary = some (take n text) })
write_atomic not_renamed disk text = (false, record disk { temporary = some text })
write_atomic no_fault disk text = (true, record disk { policy = some text; temporary = none })

-- `push_str(raw)` and `push('\n')`
unfoldable pub push_line : Str → Str → Str
push_line raw rest = raw ++ (b'\n' ∷ rest)

module _ ⦃u : Unicode⦄ where
  unfoldable pub is_hit : Str → Str → Str → Bool
  is_hit kind want raw = elim (parse_line raw) [ some r ↦ matches kind want r | none ↦ false ]

-- What is kept of the lines, and how many are not: the loop that `remove_rule`, `remove_app` and
-- `clear_rules` share.
unfoldable pub keep_lines : (Str → Bool) → List Str → Str × ℕ
keep_lines hit [] = ([], 0)
keep_lines hit (raw ∷ ls) =
    let (kept, removed) = keep_lines hit ls in
    if hit raw then (kept, suc removed) else (push_line raw kept, removed)

-- The file is only written if a line goes. Whether it succeeds, how many lines went, and the files.
unfoldable pub write_kept : Fault → Disk → Str × ℕ → Option ℕ × Disk
write_kept fault disk (kept, removed) =
    let (done, after) = write_atomic fault disk kept in
    if removed == 0 then (some 0, disk) else (if done then some removed else none, after)

-- `fs::read_to_string(path)?`
unfoldable pub with_text : File → Disk → (Str → Option ℕ × Disk) → Option ℕ × Disk
with_text none disk k = (none, disk)
with_text (some text) disk k = k text

module _ ⦃u : Unicode⦄ where
  unfoldable pub remove_rule : Fault → Disk → Str → Str → Option ℕ × Disk
  remove_rule fault disk kind value =
      with_text disk.policy disk (λ text.
        write_kept fault disk (keep_lines (is_hit kind (normalise kind value)) (lines text)))

-- `fs::write` of the backup; it may stop after some characters.
unfoldable pub back_up : Option ℕ → Str → Disk → Disk
back_up none text disk = record disk { backup = some text }
back_up (some n) text disk = record disk { backup = some (take n text) }

-- Backup first, then the loop; a backup that fails ends the operation.
unfoldable pub backed_up : (Str → Bool) → Option ℕ → Fault → Disk → Option ℕ × Disk
backed_up hit cut fault disk = with_text disk.policy disk (λ text.
    if is_some cut
    then (none, back_up cut text disk)
    else write_kept fault (back_up cut text disk) (keep_lines hit (lines text)))

-- A rule of the binary, or its identity.
unfoldable pub is_of_app : Str → Rule → Bool
is_of_app exe r =
    if r.kind == codes "allow-app" || r.kind == codes "deny-app"
    then r.value == exe
    else if r.kind == codes "app-id"
        || r.kind == codes "allow-host-from"
        || r.kind == codes "deny-host-from"
        || r.kind == codes "allow-dest-from"
        || r.kind == codes "deny-dest-from"
    then if_scoped r.value false (λ d e. e == exe)
    else false

unfoldable pub is_app_line : Str → Str → Bool
is_app_line exe raw = elim (parse_line raw) [ some r ↦ is_of_app exe r | none ↦ false ]

unfoldable pub remove_app : Option ℕ → Fault → Disk → Str → Option ℕ × Disk
remove_app cut fault disk exe = backed_up (is_app_line exe) cut fault disk

abbrev pub is_cleared : Rule → Bool
is_cleared r = is_rule r || r.kind == codes "app-id"

unfoldable pub is_rule_line : Str → Bool
is_rule_line raw = elim (parse_line raw) [ some r ↦ is_cleared r | none ↦ false ]

unfoldable pub clear_rules : Option ℕ → Fault → Disk → Option ℕ × Disk
clear_rules cut fault disk = backed_up is_rule_line cut fault disk

-- A line that sets the key.
unfoldable pub is_key : Str → Str → Bool
is_key key raw = on_some (parse_line raw) (λ r. r.kind == key)

unfoldable pub setting : Str → Str → Str
setting key value = key ++ (b' ' ∷ value)

-- The first line that sets the key is replaced, the others go; the flag tells whether one was
-- written.
unfoldable pub set_lines : Str → Str → Bool → List Str → Str
set_lines key value written [] = if written then [] else push_line (setting key value) []
set_lines key value written (raw ∷ ls) =
    let same = set_lines key value written ls in
    let rest = set_lines key value true ls in
    if is_key key raw
    then (if written then rest else push_line (setting key value) rest)
    else push_line raw same

unfoldable pub set_directive : Fault → Disk → Str → Str → Bool × Disk
set_directive fault disk key value =
    write_atomic fault disk (set_lines key value false (lines (unwrap_or disk.policy [])))

unfoldable pub set_mode : Fault → Disk → Mode → Bool × Disk
set_mode fault disk m = set_directive fault disk (codes "mode") (show_mode m)

unfoldable pub set_attribution : Fault → Disk → AttributionMode → Bool × Disk
set_attribution fault disk a = set_directive fault disk (codes "attribution") (show_attribution a)
