-- ===== src/Policy/Load.antt =====
-- src/policy.rs: `Policy::load`. The messages for lines that are not understood are not modelled.
pub mod Lines
use pfsnitch.Addr.{IpAddr, parse_ip, addr_eq}
use pfsnitch.Base.{
  ℕ, Bool, true, false, List, [], ◌∷◌, Option, none, some, if◌then◌else◌, ◌==◌, nat_eq, list_eq,
  option_eq, pair_eq, triple_eq, unwrap_or, insert, put, ◌>>=◌,
}
use pfsnitch.Policy.Target.{split_target, split_scoped}
use pfsnitch.Policy.{
  Policy, initial, Verdict, allow, deny, ask, parse_mode, parse_attribution, Mode, AttributionMode,
}
use pfsnitch.Text.{Str, codes, trim, split_first, is_white, is_empty, lines, Unicode, to_lowercase}

-- A policy file; none if it cannot be read.
abbrev pub File : Type 0
File = Option Str

-- The first word of a line, as the `match` reads it.
pub data Directive : Type 0 where
  default allow_app deny_app allow_host deny_host prompt app_id mode attribution : Directive
  allow_host_from allow_dest_from deny_host_from deny_dest_from allow_dest deny_dest : Directive
  unknown : Directive

unfoldable pub directive : Str → Directive
directive k =
    if k == codes "default"
    then default
    else if k == codes "allow-app"
    then allow_app
    else if k == codes "deny-app"
    then deny_app
    else if k == codes "allow-host"
    then allow_host
    else if k == codes "deny-host"
    then deny_host
    else if k == codes "prompt"
    then prompt
    else if k == codes "app-id"
    then app_id
    else if k == codes "mode"
    then mode
    else if k == codes "attribution"
    then attribution
    else if k == codes "allow-host-from"
    then allow_host_from
    else if k == codes "allow-dest-from"
    then allow_dest_from
    else if k == codes "deny-host-from"
    then deny_host_from
    else if k == codes "deny-dest-from"
    then deny_dest_from
    else if k == codes "allow-dest"
    then allow_dest
    else if k == codes "deny-dest"
    then deny_dest
    else unknown

-- A bad default leaves the one that stands.
unfoldable pub parse_default : Str → Option Verdict → Option Verdict
parse_default v old =
    if v == codes "allow"
    then some allow
    else if v == codes "deny"
    then some deny
    else if v == codes "ask"
    then some ask
    else old

unfoldable pub if_ip {ℓ} : {A : Type ℓ} → Str → A → (IpAddr → A) → A
if_ip s bad good = elim (parse_ip s) [ some a ↦ good a | none ↦ bad ]

unfoldable pub if_scoped {ℓ} : {A : Type ℓ} → Str → A → (Str → Str → A) → A
if_scoped v bad good = elim (split_scoped v) [ some (d, e) ↦ good d e | none ↦ bad ]

module _ ⦃u : Unicode⦄ where
  -- The `match` on the first word, with the rest of the line.
  unfoldable pub apply_directive : Directive → Policy → Str → Policy
  apply_directive default p v = record p { default = parse_default v p.default }
  apply_directive allow_app p v = record p { allow_app = insert v p.allow_app }
  apply_directive deny_app p v = record p { deny_app = insert v p.deny_app }
  apply_directive allow_host p v =
      let (h, pt) = split_target v in
      record p { allow_host = insert (to_lowercase h, pt) p.allow_host }
  apply_directive deny_host p v =
      let (h, pt) = split_target v in
      record p { deny_host = insert (to_lowercase h, pt) p.deny_host }
  apply_directive prompt p v = record p { prompt = some v }
  apply_directive app_id p v =
      if_scoped v p (λ sha exe. record p { app_id = put exe (to_lowercase sha) p.app_id })
  apply_directive mode p v = elim (parse_mode v) [ some m ↦ record p { mode = some m } | none ↦ p ]
  apply_directive attribution p v = elim (parse_attribution v) [
    | some a ↦ record p { attribution = some a }
    | none ↦ p
  ]
  apply_directive allow_host_from p v = if_scoped v p (λ d e.
      let (h, pt) = split_target d in
      record p { allow_host_from = insert (e, to_lowercase h, pt) p.allow_host_from })
  apply_directive allow_dest_from p v = if_scoped v p (λ d e.
      let (a, pt) = split_target d in
      if_ip a p (λ addr. record p { allow_dest_from = insert (e, addr, pt) p.allow_dest_from }))
  apply_directive deny_host_from p v = if_scoped v p (λ d e.
      let (h, pt) = split_target d in
      record p { deny_host_from = insert (e, to_lowercase h, pt) p.deny_host_from })
  apply_directive deny_dest_from p v = if_scoped v p (λ d e.
      let (a, pt) = split_target d in
      if_ip a p (λ addr. record p { deny_dest_from = insert (e, addr, pt) p.deny_dest_from }))
  apply_directive allow_dest p v =
      let (a, pt) = split_target v in
      if_ip a p (λ addr. record p { allow_dest = insert (addr, pt) p.allow_dest })
  apply_directive deny_dest p v =
      let (a, pt) = split_target v in
      if_ip a p (λ addr. record p { deny_dest = insert (addr, pt) p.deny_dest })
  apply_directive unknown p v = p

  -- One line, its comment gone.
  unfoldable pub load_body : Policy → Str → Policy
  load_body p line =
      let (k, v) = split_first is_white line in
      if is_empty line then p else apply_directive (directive k) p (trim (unwrap_or v []))

  unfoldable pub load_line : Policy → Str → Policy
  load_line p raw = load_body p (trim (split_first (λ c. c == b'#') raw).0)

  unfoldable pub load_lines : Policy → List Str → Policy
  load_lines p [] = p
  load_lines p (l ∷ ls) = load_lines (load_line p l) ls

  unfoldable pub load : File → Policy
  load none = initial
  load (some text) = load_lines initial (lines text)
