-- ===== src/Cli.antt =====
-- src/main.rs: the commands that change the policy file. The arguments are those of the process,
-- with its name in front; what is printed is left out.
pub mod Json
pub mod Apps
pub mod Dispatch
use pfsnitch.Base.{
  ℕ, Bool, true, false, not, ◌&&◌, ◌||◌, List, [], ◌∷◌, ◌++◌, Option, none, some, if◌then◌else◌,
  ◌==◌, nat_eq, list_eq, contains, get_elem?, drop, is_some, zero, suc,
}
use pfsnitch.Policy.Load.{File}
use pfsnitch.Policy.Manage.Edit.{
  Disk, Fault, remove_rule, remove_app, clear_rules, set_mode, set_attribution,
}
use pfsnitch.Policy.Manage.{kinds, Added, invalid, io_error, present, added, add_rule}
use pfsnitch.Policy.{parse_mode, parse_attribution}
use pfsnitch.Text.{Str, codes, is_empty, ends_with, Unicode}

-- How a command ends: its exit status is 0, 1 or 64.
pub data Exit : Type 0 where
  success failure usage : Exit

-- `args.iter().position(|a| a == flag).and_then(|i| args.get(i + 1))`
unfoldable pub arg_after : Str → List Str → Option Str
arg_after flag [] = none
arg_after flag (a ∷ args) =
    let rest = arg_after flag args in if a == flag then get_elem? args 0 else rest

-- The kind of the rule that a verb, what it is about, and `--from` ask for.
unfoldable pub kind_of : Str → Str → Bool → Option Str
kind_of verb what scoped =
    let is_dest = what == codes "dest" || what == codes "ip" in
    if verb == codes "allow" && what == codes "host" && not scoped
    then some (codes "allow-host")
    else if verb == codes "allow" && what == codes "host" && scoped
    then some (codes "allow-host-from")
    else if verb == codes "allow" && is_dest && scoped
    then some (codes "allow-dest-from")
    else if verb == codes "allow" && what == codes "app"
    then some (codes "allow-app")
    else if verb == codes "allow" && is_dest && not scoped
    then some (codes "allow-dest")
    else if verb == codes "deny" && what == codes "host" && not scoped
    then some (codes "deny-host")
    else if verb == codes "deny" && what == codes "host" && scoped
    then some (codes "deny-host-from")
    else if verb == codes "deny" && is_dest && scoped
    then some (codes "deny-dest-from")
    else if verb == codes "deny" && what == codes "app"
    then some (codes "deny-app")
    else if verb == codes "deny" && is_dest && not scoped
    then some (codes "deny-dest")
    else none

abbrev pub is_scoped : Str → Bool
is_scoped kind = ends_with (codes "-from") kind

-- Scoped rules carry both halves in the value, destination first.
unfoldable pub scoped_value : Str → Str → Option Str → Str
scoped_value kind value none = value
scoped_value kind value (some e) = if is_scoped kind then value ++ (b' ' ∷ e) else value

-- `args[3..].join(" ")`
unfoldable pub join_words : List Str → Str
join_words [] = []
join_words (w ∷ []) = w
join_words (w ∷ v ∷ ws) = w ++ (b' ' ∷ join_words (v ∷ ws))

unfoldable pub exit_of : Added → Exit
exit_of (invalid e) = failure
exit_of io_error = failure
exit_of present = success
exit_of added = success

-- A removal that found none, or could not be written, fails.
unfoldable pub exit_of_count : Option ℕ → Exit
exit_of_count none = failure
exit_of_count (some zero) = failure
exit_of_count (some (suc n)) = success

unfoldable pub exit_of_write : Bool → Exit
exit_of_write true = success
exit_of_write false = failure

module _ ⦃u : Unicode⦄ where
  unfoldable pub add_kind : Bool → File → List Str → Option Str → Str → Option Str → Exit × File
  add_kind writable file args none value from = (usage, file)
  add_kind writable file args (some kind) value from =
      let (r, file') =
        add_rule writable file kind (scoped_value kind value from)
          (arg_after (codes "--note") args) in
      (exit_of r, file')

  unfoldable pub cmd_add : Bool → File → List Str → Str → Exit × File
  cmd_add writable file args verb =
      let from = arg_after (codes "--from") args in
      elim (get_elem? args 2) [
        | none ↦ (usage, file)
        | some what ↦ elim (get_elem? args 3) [
          | none ↦ (usage, file)
          | some value ↦
              if contains (codes "--from") args && not (is_some from)
              then (usage, file)
              else add_kind writable file args (kind_of verb what (is_some from)) value from
        ]
      ]

  unfoldable pub rm_kind : Fault → Disk → List Str → Str → Str → Exit × Disk
  rm_kind fault disk args kind value =
      let wanted = if is_scoped kind then join_words (drop 3 args) else value in
      if contains kind kinds
      then (
        exit_of_count (remove_rule fault disk kind wanted).0,
        (remove_rule fault disk kind wanted).1,
      )
      else (usage, disk)

  unfoldable pub cmd_rm : Fault → Disk → List Str → Exit × Disk
  cmd_rm fault disk args = elim (get_elem? args 2) [
    | none ↦ (usage, disk)
    | some kind ↦ elim (get_elem? args 3) [
      | none ↦ (usage, disk)
      | some value ↦ rm_kind fault disk args kind value
    ]
  ]

  unfoldable pub cmd_mode : Fault → Disk → List Str → Exit × Disk
  cmd_mode fault disk args = elim (get_elem? args 2) [
    | none ↦ (success, disk)
    | some want ↦ elim (parse_mode want) [
      | none ↦ (usage, disk)
      | some m ↦ (exit_of_write (set_mode fault disk m).0, (set_mode fault disk m).1)
    ]
  ]

  unfoldable pub cmd_attribution : Fault → Disk → List Str → Exit × Disk
  cmd_attribution fault disk args = elim (get_elem? args 2) [
    | none ↦ (success, disk)
    | some want ↦ elim (parse_attribution want) [
      | none ↦ (usage, disk)
      | some a ↦ (exit_of_write (set_attribution fault disk a).0, (set_attribution fault disk a).1)
    ]
  ]

-- The empty text and "-" are no binary.
unfoldable pub cmd_forget : Option ℕ → Fault → Disk → List Str → Exit × Disk
cmd_forget stamp fault disk args = elim (get_elem? args 2) [
  | none ↦ (usage, disk)
  | some exe ↦
      if is_empty exe || exe == codes "-"
      then (usage, disk)
      else (exit_of_count (remove_app stamp fault disk exe).0, (remove_app stamp fault disk exe).1)
]

-- Nothing to clear is no failure here.
unfoldable pub exit_of_clear : Option ℕ → Exit
exit_of_clear none = failure
exit_of_clear (some n) = success

unfoldable pub cmd_clear : Option ℕ → Fault → Disk → List Str → Exit × Disk
cmd_clear stamp fault disk args =
    if contains (codes "--yes") args
    then (exit_of_clear (clear_rules stamp fault disk).0, (clear_rules stamp fault disk).1)
    else (failure, disk)
