-- ===== src/Policy/Target.antt =====
-- src/policy.rs: `split_target`, `join_target`, `split_scoped`.
pub mod RoundTrip
use pfsnitch.Addr.{is_v6}
use pfsnitch.Base.{
  ℕ, Bool, true, false, ◌||◌, List, [], ◌∷◌, ◌++◌, Option, none, some, ◌>>=◌, if◌then◌else◌, ◌==◌,
  nat_eq,
}
use pfsnitch.Policy.{Target}
use pfsnitch.Text.Numbers.{parse_u16, show_u16}
use pfsnitch.Text.{Str, is_white, trim, split_first, split_last, is_empty}

abbrev pub is_colon : ℕ → Bool
is_colon c = c == b':'

unfoldable pub has_colon : Str → Bool
has_colon [] = false
has_colon (c ∷ s) = is_colon c || has_colon s

-- What stands behind the bracket: a port if it is ":" and a number.
unfoldable pub bracket_port : Str → Option ℕ
bracket_port [] = none
bracket_port (c ∷ s) = if c == b':' then parse_u16 s else none

-- "[host]" or "[host]:port"; none where no bracket opens, or none closes.
unfoldable pub split_bracket : Str → Option Target
split_bracket [] = none
split_bracket (c ∷ rest) =
    let (host, after) = split_first (λ d. d == b']') rest in
    if c == b'[' then (after >>= λ a. some (host, bracket_port a)) else none

-- "host:port", where the host has no colon of its own.
unfoldable pub split_port : Str → Option Target
split_port s = split_last is_colon s >>= λ cut.
    parse_u16 cut.1 >>= λ p. if has_colon cut.0 then none else some (cut.0, some p)

-- The source's early returns, on the trimmed text.
unfoldable pub split_trimmed : Str → Target
split_trimmed s = elim (split_bracket s) [
  | some t ↦ t
  | none ↦ if is_v6 s then (s, none) else elim (split_port s) [ some t ↦ t | none ↦ (s, none) ]
]

unfoldable pub split_target : Str → Target
split_target s = split_trimmed (trim s)

unfoldable pub join_target : Str → Option ℕ → Str
join_target host none = host
join_target host (some p) =
    if is_v6 host then b'[' ∷ (host ++ (b']' ∷ b':' ∷ show_u16 p)) else host ++ (b':' ∷ show_u16 p)

unfoldable pub scoped_parts : Str → Option Str → Option (Str × Str)
scoped_parts dest none = none
scoped_parts dest (some exe) =
    if is_empty (trim dest) || is_empty (trim exe) then none else some (trim dest, trim exe)

-- (destination, binary), cut at the first white space.
unfoldable pub split_scoped : Str → Option (Str × Str)
split_scoped v = let (dest, exe) = split_first is_white v in scoped_parts dest exe
