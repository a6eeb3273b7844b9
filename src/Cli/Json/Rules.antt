-- ===== src/Cli/Json/Rules.antt =====
-- src/main.rs: what `pfsnitch rules --json` prints says what the rules are.
use pfsnitch.Base.{All, List, [], ◌∷◌, ◌++◌, Option, none, some, refl}
use mathlib.Core.List.{append_assoc}
use pfsnitch.Cli.Json.Unique.{Says, Reads-Says}
use pfsnitch.Cli.Json.{comment_json, rows, rule_json, rules_json, read_char}
use pfsnitch.Cli.Json.Grammar.{
  Value, null, string, array, object, Values, no_values, value, no_members, member, one, values,
  more_values, Reads, take_string, ends, onto_first, space, name, first_member, next_member,
  last_member, first_value, next_value, last_value, empty_array, Reads-quoted,
}
use pfsnitch.Policy.Manage.{Rule}
use pfsnitch.Text.{Str, codes}

abbrev pub values_of {ℓ} : {A : Type ℓ} → (A → Value) → List A → Values
values_of g [] = no_values
values_of g (x ∷ xs) = value (g x) (values_of g xs)

-- A first value, and more behind it.
abbrev ReadsSome : Str → Value → Values → Str → Type 0
ReadsSome s v vs r = (t : Str) × Reads s (one v) t × Reads t (more_values vs) r

-- If each row is read as its value, the rows are read as the values, with what closes the array
-- behind them.
module _ {ℓ κ} {A : Type ℓ} (P : A → Type κ) (f : A → Str) (g : A → Value)
    (row : (a : A) (r : Str) → P a → Reads (f a ++ r) (one (g a)) r) (t r : Str) where
  rows-ReadsSome :
      Reads t (more_values no_values) r
      → (x : A) (xs : List A) → All P (x ∷ xs)
      → ReadsSome (rows f (x ∷ xs) ++ t) (g x) (values_of g xs) r
  unfolding rows
  rows-ReadsSome end x [] (p, _) =
      rw (append_assoc (f x) (codes "\n") t) (codes "\n" ++ t, row x _ p, space b'\n' refl end)
  rows-ReadsSome end x (y ∷ xs) (p, ps) =
      let (u, v, more) = rows-ReadsSome end y xs ps in
      rw (append_assoc (f x) (codes ",\n" ++ rows f (y ∷ xs)) t)
        (codes ",\n" ++ (rows f (y ∷ xs) ++ t), row x _ p, next_value (space b'\n' refl v) more)

  pub rows-Reads :
      Reads t (values no_values) r
      → Reads t (more_values no_values) r
      → (xs : List A) → All P xs
      → Reads (rows f xs ++ t) (values (values_of g xs)) r
  rows-Reads none_left end [] _ = unfold rows in none_left
  rows-Reads none_left end (x ∷ xs) ps =
      let (u, v, more) = rows-ReadsSome end x xs ps in first_value v more

abbrev pub optional : Option Str → Value
optional none = null
optional (some c) = string c

pub Reads-comment_json :
    (c : Option Str) (r : Str) → Reads (comment_json c ++ r) (one (optional c)) r
unfolding comment_json
Reads-comment_json none r = Reads.null r
Reads-comment_json (some c) r = Reads-quoted c r

pub All-Unit {ℓ} : {A : Type ℓ} (rs : List A) → All (λ _. Unit {0}) rs
All-Unit [] = tt
All-Unit (r ∷ rs) = (tt, All-Unit rs)

abbrev pub rule_value : Rule → Value
rule_value r = object (
    member (codes "kind") (string r.kind) (
      member (codes "value") (string r.value)
        (member (codes "comment") (optional r.comment) no_members)))

rule_json-Reads :
    (rule : Rule) (r : Str) → Unit {0} → Reads (rule_json rule ++ r) (one (rule_value rule)) r
unfolding rule_json take_string ends onto_first read_char
rule_json-Reads rule r _ = simp (append_assoc) (
    space b' ' refl (
      space b' ' refl (
        Reads.object (
          first_member (name refl (Reads-quoted rule.kind _)) (
            next_member (name refl (Reads-quoted rule.value _))
              (next_member (name refl (Reads-comment_json rule.comment _)) (last_member r)))))))

-- What `pfsnitch rules --json` prints is a JSON text, whatever the rules hold, and says exactly what
-- the rules are: it is read as an array that has for each of them, in order, its kind, its value and
-- its comment, or null if it has none, and as nothing else.
pub rules_json-Says :
    (rs : List Rule) → Says (rules_json rs) (array (values_of rule_value rs)) (codes "\n")
unfolding rules_json
rules_json-Says rs = Reads-Says _ _ _ (
    Reads.array (
      space b'\n' refl (
        rows-Reads (λ _. Unit {0}) rule_json rule_value rule_json-Reads (codes "]\n") (codes "\n")
          (empty_array _) (last_value _) rs (All-Unit rs))))
