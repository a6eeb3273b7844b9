-- ===== src/Policy/Manage.antt =====
-- src/policy.rs: managing the rules of the policy file, which the command line and the daemon do
-- without a loaded policy.
pub mod Edit
pub mod Atomic
pub mod Removal
pub mod Bulk
pub mod Adding
pub mod Setting
pub mod Fields
pub mod Settings
use pfsnitch.Addr.{IpAddr, parse_ip, show_ip}
use pfsnitch.Base.{
  ℕ, zero, suc, ◌+◌, Bool, true, false, not, ◌&&◌, ◌||◌, List, [], ◌∷◌, ◌++◌, Option, none, some,
  if◌then◌else◌, PartialEq, ◌==◌, nat_eq, list_eq, unwrap_or, any, contains, take, is_some, on_some,
}
use pfsnitch.Policy.Load.{File, if_ip, if_scoped}
use pfsnitch.Policy.Record.{append_line}
use pfsnitch.Policy.Target.{split_target, join_target, split_scoped}
use pfsnitch.Policy.{Mode, AttributionMode, show_mode, show_attribution}
use pfsnitch.Text.{
  Str, codes, trim, split_first, is_white, is_empty, ends_with, lines, Unicode, to_lowercase,
}

pub record Rule : Type 0 where
  pub kind : Str
  pub value : Str
  pub comment : Option Str

unfoldable pub kinds : List Str
kinds =
    codes "allow-app"
    ∷ codes "deny-app"
    ∷ codes "allow-host"
    ∷ codes "deny-host"
    ∷ codes "allow-dest"
    ∷ codes "deny-dest"
    ∷ codes "allow-host-from"
    ∷ codes "allow-dest-from"
    ∷ codes "deny-host-from"
    ∷ codes "deny-dest-from"
    ∷ []

unfoldable pub split_comment : Str → Str × Option Str
split_comment raw =
    let (body, rest) = split_first (λ c. c == b'#') raw in
    (body, elim rest [ some s ↦ some (trim s) | none ↦ none ])

-- A line whose body is trimmed: the kind, and the value if there is one.
unfoldable pub parse_body : Str → Option Str → Option Rule
parse_body body comment =
    let (k, v) = split_first is_white body in
    let value = trim (unwrap_or v []) in
    if is_empty body || is_empty value
    then none
    else some (record { kind = k; value = value; comment = comment })

unfoldable pub parse_line : Str → Option Rule
parse_line raw = let (body, comment) = split_comment raw in parse_body (trim body) comment

-- The rules that the lines hold, of every kind and directives too.
unfoldable pub parse_lines : List Str → List Rule
parse_lines [] = []
parse_lines (l ∷ ls) = elim (parse_line l) [ some r ↦ r ∷ parse_lines ls | none ↦ parse_lines ls ]

unfoldable pub filter {ℓ} : {A : Type ℓ} → (A → Bool) → List A → List A
filter p [] = []
filter p (x ∷ xs) = let rest = filter p xs in if p x then x ∷ rest else rest

abbrev pub is_rule : Rule → Bool
is_rule r = contains r.kind kinds

-- Every rule in the file, in its order.
unfoldable pub rules : File → List Rule
rules none = []
rules (some text) = filter is_rule (parse_lines (lines text))

module _ ⦃u : Unicode⦄ where
  unfoldable pub lower_target : Str → Str
  lower_target s = let (h, p) = split_target s in join_target (to_lowercase h) p

  -- The address as it is printed; none if it is not one.
  unfoldable pub canonical_target : Str → Option Str
  canonical_target s =
      let (a, p) = split_target s in if_ip a none (λ addr. some (join_target (show_ip addr) p))

  abbrev beside : Str → Str → Str
  beside d e = d ++ (b' ' ∷ e)

  unfoldable pub normalise : Str → Str → Str
  normalise kind value =
      if kind == codes "allow-host" || kind == codes "deny-host"
      then lower_target value
      else if kind == codes "allow-host-from" || kind == codes "deny-host-from"
      then if_scoped value value (λ h e. beside (lower_target h) e)
      else if kind == codes "allow-dest-from" || kind == codes "deny-dest-from"
      then if_scoped value value
          (λ a e. elim (canonical_target a) [ some d ↦ beside d e | none ↦ value ])
      else if kind == codes "allow-dest" || kind == codes "deny-dest"
      then unwrap_or (canonical_target value) value
      else value

  -- A rule that `add_rule` and `remove_rule` take for the same.
  abbrev pub matches : Str → Str → Rule → Bool
  matches kind want r = r.kind == kind && normalise r.kind r.value == want

-- What `add_rule` refuses with `InvalidInput`.
pub data Invalid : Type 0 where
  unknown_kind not_an_address_scoped needs_pair not_an_address : Invalid

unfoldable pub is_address : Str → Bool
is_address s = if_ip (split_target s).0 false (λ addr. true)

unfoldable pub check_scoped : Str → Str → Option Invalid
check_scoped kind value = if_scoped value (some needs_pair) (λ d e.
    if ends_with (codes "dest-from") kind && not (is_address d)
    then some not_an_address_scoped
    else none)

unfoldable pub check_rule : Str → Str → Option Invalid
check_rule kind value =
    if not (contains kind kinds)
    then some unknown_kind
    else if kind == codes "allow-host-from"
        || kind == codes "allow-dest-from"
        || kind == codes "deny-host-from"
        || kind == codes "deny-dest-from"
    then check_scoped kind value
    else if (kind == codes "allow-dest" || kind == codes "deny-dest") && not (is_address value)
    then some not_an_address
    else none

pub data Added : Type 0 where
  invalid : Invalid → Added
  io_error present added : Added

unfoldable pub noted : Option Str → Str
noted none = []
noted (some n) = codes "\t# " ++ n

module _ ⦃u : Unicode⦄ where
  -- The flag tells whether the file could be opened.
  unfoldable pub add_rule : Bool → File → Str → Str → Option Str → Added × File
  add_rule writable file kind value note = elim (check_rule kind value) [
    | some e ↦ (invalid e, file)
    | none ↦
        let norm = normalise kind value in
        if any (matches kind norm) (rules file) then (present, file) else (
          if writable then added else io_error,
          append_line writable file (kind ++ (b' ' ∷ (norm ++ noted note))),
        )
  ]
