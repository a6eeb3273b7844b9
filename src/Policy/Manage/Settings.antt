-- ===== src/Policy/Manage/Settings.antt =====
-- src/policy.rs: `set_mode` and `set_attribution` take effect on the policy that is loaded next.
use pfsnitch.Base.{true, [], some, ◌≡◌, refl, ap, nat_eq, list_eq, unwrap_or}
use pfsnitch.Policy.Load.{mode, attribution, load}
use pfsnitch.Policy.Manage.Edit.{Disk, Fault, set_mode, set_attribution}
use pfsnitch.Policy.Manage.Setting.{set_directive-given, set_directive-aside}
use pfsnitch.Policy.{Mode, show_mode, AttributionMode, show_attribution}
use pfsnitch.Text.Laws.{NoneOf}
use pfsnitch.Text.Whole.{is_return}
use pfsnitch.Text.{codes, Unicode}
use pfsnitch.Policy.Manage.Fields.{
  load_line-mode, load_line-attribution, mode-IsField, attribution-IsField, setting-mode-whole,
  setting-attribution-whole,
}

module _ ⦃u : Unicode⦄ where
  -- Setting the mode takes effect, and leaves the attribution: if the write of `set_mode`
  -- succeeds on a file without carriage returns, or on none, then the policy that is loaded from the
  -- file has that mode, whatever lines the file had, and the attribution that it had before.
  pub set_mode-load :
      (fault : Fault) (disk : Disk) (m : Mode)
      → NoneOf is_return (unwrap_or disk.policy [])
      → (set_mode fault disk m).0 ≡ true
      → ((load (set_mode fault disk m).1.policy).mode ≡ some m)
        × ((load (set_mode fault disk m).1.policy).attribution ≡ (load disk.policy).attribution)
  unfolding set_mode
  set_mode-load fault disk m h k = (
    set_directive-given (codes "mode") mode (λ p. p.mode) mode-IsField (show_mode m) (some m)
        (λ p. ap (λ q. q.mode) (load_line-mode p m)) (setting-mode-whole m) fault disk h k,
    set_directive-aside (codes "attribution") attribution (λ p. p.attribution) attribution-IsField
        (codes "mode") (show_mode m) refl (λ p. ap (λ q. q.attribution) (load_line-mode p m))
        (setting-mode-whole m) fault disk h,
  )

  -- Setting the attribution takes effect, and leaves the mode: if the write of `set_attribution`
  -- succeeds on a file without carriage returns, or on none, then the policy that is loaded from the
  -- file has that attribution, whatever lines the file had, and the mode that it had before.
  pub set_attribution-load :
      (fault : Fault) (disk : Disk) (a : AttributionMode)
      → NoneOf is_return (unwrap_or disk.policy [])
      → (set_attribution fault disk a).0 ≡ true
      → ((load (set_attribution fault disk a).1.policy).attribution ≡ some a)
        × ((load (set_attribution fault disk a).1.policy).mode ≡ (load disk.policy).mode)
  unfolding set_attribution
  set_attribution-load fault disk a h k = (
    set_directive-given (codes "attribution") attribution (λ p. p.attribution) attribution-IsField
        (show_attribution a) (some a) (λ p. ap (λ q. q.attribution) (load_line-attribution p a))
        (setting-attribution-whole a) fault disk h k,
    set_directive-aside (codes "mode") mode (λ p. p.mode) mode-IsField (codes "attribution")
        (show_attribution a) refl (λ p. ap (λ q. q.mode) (load_line-attribution p a))
        (setting-attribution-whole a) fault disk h,
  )
