-- ===== src/Policy/Manage/Atomic.antt =====
-- src/policy.rs: an operation on the file that is cut short leaves the policy as it was.
use pfsnitch.Base.{ℕ, Bool, true, Option, none, some, ◌≡◌, ◌≢◌, ◌⊎◌, inl, inr, refl, arith, nat_eq}
use pfsnitch.Policy.Load.{File}
use pfsnitch.Policy.Manage.Edit.{
  Disk, Fault, not_opened, not_renamed, no_fault, cut_short, write_atomic, keep_lines, write_kept,
  with_text, remove_rule, back_up, backed_up, remove_app, clear_rules, set_directive, set_mode,
  set_attribution,
}
use pfsnitch.Policy.{Mode, AttributionMode}
use pfsnitch.Text.{Str, lines, Unicode}

-- The policy is untouched, or the operation says that it is done.
abbrev pub Untouched : Disk → Option ℕ × Disk → Type 0
Untouched disk r = (r.1.policy ≡ disk.policy) ⊎ (r.0 ≢ none)

write_kept-Untouched :
    (fault : Fault) (disk : Disk) (k : Str × ℕ) → Untouched disk (write_kept fault disk k)
unfolding write_kept write_atomic
write_kept-Untouched not_opened disk k = inl (ground arith)
write_kept-Untouched not_renamed disk k = inl (ground arith)
write_kept-Untouched no_fault disk k = inr (ground arith)
write_kept-Untouched (cut_short n) disk k = inl (ground arith)

with_text-Untouched :
    (file : File) (disk : Disk) (k : Str → Option ℕ × Disk)
    → file ≡ disk.policy
    → ((text : Str) → Untouched disk (k text))
    → Untouched disk (with_text file disk k)
unfolding with_text
with_text-Untouched none disk k e h = inl refl
with_text-Untouched (some text) disk k e h = h text

backed_up-Untouched :
    (hit : Str → Bool) (cut : Option ℕ) (fault : Fault) (disk : Disk)
    → Untouched disk (backed_up hit cut fault disk)
unfolding backed_up back_up
backed_up-Untouched hit none fault disk =
    with_text-Untouched disk.policy disk _ refl
      (λ text. write_kept-Untouched fault (back_up none text disk) (keep_lines hit (lines text)))
backed_up-Untouched hit (some n) fault disk =
    with_text-Untouched disk.policy disk _ refl (λ text. inl refl)

remove_rule-Untouched :
    ⦃u : Unicode⦄ (fault : Fault) (disk : Disk) (kind value : Str)
    → Untouched disk (remove_rule fault disk kind value)
unfolding remove_rule
remove_rule-Untouched fault disk kind value =
    with_text-Untouched disk.policy disk _ refl (λ text. write_kept-Untouched fault disk _)

-- Whatever fault a removal meets, in the backup or in the write, the policy file is untouched or the
-- removal reports success: for one rule, for all rules of a binary, and for all rules.
pub removal-Untouched :
    ⦃u : Unicode⦄ (cut : Option ℕ) (fault : Fault) (disk : Disk) (kind value exe : Str)
    → Untouched disk (remove_rule fault disk kind value)
      × Untouched disk (remove_app cut fault disk exe)
      × Untouched disk (clear_rules cut fault disk)
unfolding remove_app clear_rules
removal-Untouched cut fault disk kind value exe = (
  remove_rule-Untouched fault disk kind value,
  backed_up-Untouched _ cut fault disk,
  backed_up-Untouched _ cut fault disk,
)

-- Whatever fault the write of a setting meets, the policy file is untouched or the operation reports
-- success: for the mode, and for the attribution.
setting-Untouched :
    (fault : Fault) (disk : Disk) (m : Mode) (a : AttributionMode)
    → (((set_mode fault disk m).1.policy ≡ disk.policy) ⊎ ((set_mode fault disk m).0 ≡ true))
      × (((set_attribution fault disk a).1.policy ≡ disk.policy)
          ⊎ ((set_attribution fault disk a).0 ≡ true))
unfolding set_mode set_attribution set_directive write_atomic
setting-Untouched not_opened disk m a = (inl refl, inl refl)
setting-Untouched not_renamed disk m a = (inl refl, inl refl)
setting-Untouched no_fault disk m a = (inr refl, inr refl)
setting-Untouched (cut_short n) disk m a = (inl refl, inl refl)
