-- ===== src/Cli/Apps.antt =====
-- src/main.rs: the rules by application.
pub mod Listing
pub mod Grouping
pub mod Printed
pub mod Added
use pfsnitch.Base.{
  length-drop, ℕ, ◌-◌, ◌≤◌, ◌<◌, Bool, true, false, ◌&&◌, ◌||◌, List, [], ◌∷◌, ◌++◌, Option, none,
  some, ◌≡◌, refl, arith, if◌then◌else◌, ◌==◌, nat_eq, list_eq, pair_eq, length, drop, ltb, leb,
  lookup, put, unwrap_or, ◌⊎◌, inl, inr,
}
use pfsnitch.Cli.{kind_of, scoped_value}
use pfsnitch.Policy.Manage.{Rule}
use pfsnitch.Policy.Target.{split_target}
use pfsnitch.Seen.{Stamps}
use pfsnitch.Text.Laws.{NoneOf, split_first-append}
use pfsnitch.Text.{
  Str, codes, trim, is_white, is_empty, split_first, split_last, strip_prefix, ends_with, Unicode,
  to_lowercase,
}

-- A rule as its binary, or nothing, what it is about, and its effect.
pub record Split : Type 0 where
  pub app : Str
  pub dest : Str
  pub effect : Str

unfoldable pub starts_with : Str → Str → Bool
starts_with p s = elim (strip_prefix p s) [ some rest ↦ true | none ↦ false ]

abbrev pub effect_of : Str → Str
effect_of kind = if starts_with (codes "deny") kind then codes "deny" else codes "allow"

unfoldable pub split_rule : Str → Str → Split
split_rule kind value =
    if kind == codes "allow-app" || kind == codes "deny-app"
    then record { app = value; dest = codes "all destinations"; effect = effect_of kind }
    else if kind == codes "allow-host-from"
        || kind == codes "allow-dest-from"
        || kind == codes "deny-host-from"
        || kind == codes "deny-dest-from"
    then (let (dest, rest) = split_first is_white value in
        record { app = trim (unwrap_or rest []); dest = dest; effect = effect_of kind })
    else record { app = []; dest = value; effect = effect_of kind }

-- The groups, each with its rules in the order of the file, in the order in which they are first seen.
abbrev pub Groups : Type 0
Groups = List (Str × List (Rule × Split))

unfoldable pub group : List Rule → Groups → Groups
group [] g = g
group (r ∷ rs) g =
    let s = split_rule r.kind r.value in
    group rs (put s.app (unwrap_or (lookup s.app g) [] ++ ((r, s) ∷ [])) g)

unfoldable pub text_less : Str → Str → Bool
text_less [] [] = false
text_less [] (c ∷ t) = true
text_less (c ∷ s) [] = false
text_less (c ∷ s) (d ∷ t) = ltb c d || (c == d && text_less s t)

unfoldable pub base_of : Str → Str
base_of a = elim (split_last (λ c. c == b'/') a) [ some (dir, name) ↦ name | none ↦ a ]

-- The directory with its slash, and the name, as the JSON shows them.
unfoldable pub dir_and_name : Str → Str × Str
dir_and_name app =
    if is_empty app then ([], codes "any application") else elim (split_last (λ c. c == b'/') app) [
      | some (dir, name) ↦ (dir ++ (b'/' ∷ []), name)
      | none ↦ ([], app)
    ]

-- `&tail[i..]` from the first slash, or all of it.
unfoldable pub from_slash : Str → Option Str → Str
from_slash tail none = tail
from_slash tail (some after) = b'/' ∷ after

unfoldable pub short_dir : Str → ℕ → Str
short_dir dir max =
    let n = length dir in
    let tail = drop (n - (max - 1)) dir in
    if leb n max then dir else 0x2026 ∷ from_slash tail (split_first (λ c. c == b'/') tail).1

-- `max` of an iterator.
unfoldable pub latest : Stamps → Option ℕ
latest [] = none
latest ((k, t) ∷ m) = elim (latest m) [ none ↦ some t | some s ↦ some (if ltb s t then t else s) ]

unfoldable pub keep : (Str × Str → Bool) → Stamps → Stamps
keep p [] = []
keep p ((k, t) ∷ m) = let rest = keep p m in if p k then (k, t) ∷ rest else rest

module _ ⦃u : Unicode⦄ where
  -- `(a.is_empty(), base)` in order: named applications first, by name.
  unfoldable pub before : Str → Str → Bool
  before a b =
      let less = text_less (to_lowercase (base_of a)) (to_lowercase (base_of b)) in
      if is_empty a then is_empty b && less else is_empty b || less

  unfoldable pub place : Str → List Str → List Str
  place a [] = a ∷ []
  place a (b ∷ bs) = let rest = place a bs in if before b a then b ∷ rest else a ∷ b ∷ bs

  -- `sort_by_key`, which is stable.
  unfoldable pub sort_apps : List Str → List Str
  sort_apps [] = []
  sort_apps (a ∷ as') = place a (sort_apps as')

  -- When a rule was last used, by the table of contacts.
  unfoldable pub rule_seen : Stamps → Str → Split → Option ℕ
  rule_seen last app s =
      let host = to_lowercase (split_target s.dest).0 in
      if is_empty app
      then latest (keep (λ k. k.1 == host) last)
      else if s.dest == codes "all destinations"
      then latest (keep (λ k. k.0 == app) last)
      else lookup (app, host) last

same_word : (v w : Str) → (v == w) ≡ true → v ≡ w
same_word v w h = (list_eq.same_iff v w).0 h

-- The kinds that `--from` makes scoped, with their verbs.
pub data IsScopedKind : Str → Str → Type 0 where
  allow_host : IsScopedKind (codes "allow") (codes "allow-host-from")
  allow_dest : IsScopedKind (codes "allow") (codes "allow-dest-from")
  deny_host : IsScopedKind (codes "deny") (codes "deny-host-from")
  deny_dest : IsScopedKind (codes "deny") (codes "deny-dest-from")

pub split_rule-IsScopedKind :
    (verb kind value e : Str)
    → IsScopedKind verb kind
    → NoneOf is_white value
    → trim e ≡ e
    → split_rule kind (scoped_value kind value (some e))
      ≡ record { app = e; dest = value; effect = verb }
unfolding split_rule scoped_value starts_with strip_prefix ends_with is_white
split_rule-IsScopedKind _ _ value e allow_host n t =
    rw (split_first-append is_white value b' ' e n refl, t) refl
split_rule-IsScopedKind _ _ value e allow_dest n t =
    rw (split_first-append is_white value b' ' e n refl, t) refl
split_rule-IsScopedKind _ _ value e deny_host n t =
    rw (split_first-append is_white value b' ' e n refl, t) refl
split_rule-IsScopedKind _ _ value e deny_dest n t =
    rw (split_first-append is_white value b' ' e n refl, t) refl

kind_of-cases :
    (verb what kind : Str)
    → kind_of verb what true ≡ some kind
    → (what == codes "app") ≡ false
    → (((verb == codes "allow") ≡ true) × (kind ≡ codes "allow-host-from"))
      ⊎ (((verb == codes "allow") ≡ true) × (kind ≡ codes "allow-dest-from"))
      ⊎ (((verb == codes "deny") ≡ true) × (kind ≡ codes "deny-host-from"))
      ⊎ (((verb == codes "deny") ≡ true) × (kind ≡ codes "deny-dest-from"))
unfolding kind_of
kind_of-cases verb what kind e h = ground (arith, e, h)

pub kind_of-IsScopedKind :
    (verb what kind : Str)
    → kind_of verb what true ≡ some kind
    → (what == codes "app") ≡ false
    → IsScopedKind verb kind
kind_of-IsScopedKind verb what kind e h = elim (kind_of-cases verb what kind e h) [
  | inl (v, k) ↦ rw (same_word verb _ v, k) allow_host
  | inr (inl (v, k)) ↦ rw (same_word verb _ v, k) allow_dest
  | inr (inr (inl (v, k))) ↦ rw (same_word verb _ v, k) deny_host
  | inr (inr (inr (v, k))) ↦ rw (same_word verb _ v, k) deny_dest
]

from_slash-length : (p : ℕ → Bool) (s : Str) → length (from_slash s (split_first p s).1) ≤ length s
unfolding from_slash split_first
from_slash-length p [] = omega arith
from_slash-length p (c ∷ s) = ground (arith, from_slash-length p s)

-- A directory is shortened to the width that is asked for, of at least one character.
short_dir-length : (dir : Str) (max : ℕ) → 0 < max → length (short_dir dir max) ≤ max
unfolding short_dir
short_dir-length dir max h = ground (
  arith,
  h,
  from_slash-length (λ c. c == b'/') (drop (length dir - (max - 1)) dir),
  length-drop (length dir - (max - 1)) dir,
)
