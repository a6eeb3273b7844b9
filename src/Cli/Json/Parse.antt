-- ===== src/Cli/Json/Parse.antt =====
-- A reader of JSON texts, on fuel, as an independent account of the grammar.
use pfsnitch.Base.{
  ℕ, zero, suc, true, false, [], ◌∷◌, ◌++◌, Option, none, some, ◌≡◌, ◌≢◌, refl, ◌∙◌, ap, arith, All,
  if◌then◌else◌, nat_beq_iff, Bool-cases, inl, inr, ◌==◌, nat_eq, ◌>>=◌,
}
use pfsnitch.Cli.Json.Grammar.{
  Value, null, number, string, array, object, Values, no_values, value, Members, no_members, member,
  Form, one, values, more_values, entry, members, more_members, take_string, is_space, begins_digit,
}
use pfsnitch.Cli.Json.{plain}
use pfsnitch.Text.Numbers.{is_digit, read_digits}
use pfsnitch.Text.{Str, codes, strip_prefix}

pub data Kind : Type 0 where
  a_value first_values later_values a_member first_members later_members : Kind

unfoldable pub form_kind : Form → Kind
form_kind (one v) = a_value
form_kind (values vs) = first_values
form_kind (more_values vs) = later_values
form_kind (entry k v) = a_member
form_kind (members ms) = first_members
form_kind (more_members ms) = later_members

abbrev pub Result : Type 0
Result = Option (Form × Str)

-- The digits in front.
unfoldable pub digits : Str → Str × Str
digits [] = ([], [])
digits (c ∷ s) = let (ds, r) = digits s in if is_digit c then (c ∷ ds, r) else ([], c ∷ s)

-- What each kind makes of the forms that were read for it.
unfoldable pub to_array : Form × Str → Result
to_array (values vs, r) = some (one (array vs), r)
to_array _ = none

unfoldable pub to_object : Form × Str → Result
to_object (members ms, r) = some (one (object ms), r)
to_object _ = none

unfoldable pub read_null : Str → Result
read_null s = strip_prefix (codes "null") s >>= λ r. some (one null, r)

unfoldable pub read_number : Str → Result
read_number s = let (ds, r) = digits s in read_digits 0 ds >>= λ n. some (one (number n), r)

unfoldable pub read_quoted : Str → Result
read_quoted s = take_string plain s >>= λ (x, r). some (one (string x), r)

unfoldable pub skip : Str → Str
skip [] = []
skip (c ∷ s) = if is_space c then skip s else c ∷ s

abbrev pub Rec : Type 0
Rec = Kind → Str → Result

unfoldable pub with_value : (Values → Form) → Value → Form × Str → Result
with_value build v (more_values vs, r) = some (build (value v vs), r)
with_value build v _ = none

unfoldable pub with_member : (Members → Form) → Str → Value → Form × Str → Result
with_member build k v (more_members ms, r) = some (build (member k v ms), r)
with_member build k v _ = none

unfoldable pub after_value : Rec → (Values → Form) → Form × Str → Result
after_value rec build (one v, t) = rec later_values t >>= with_value build v
after_value rec build _ = none

unfoldable pub after_member : Rec → (Members → Form) → Form × Str → Result
after_member rec build (entry k v, t) = rec later_members t >>= with_member build k v
after_member rec build _ = none

unfoldable pub named_value : Str → Form × Str → Result
named_value k (one v, r) = some (entry k v, r)
named_value k _ = none

unfoldable pub after_name : Rec → Str × Str → Result
after_name rec (k, []) = none
after_name rec (k, c ∷ t) = if c == b':' then rec a_value t >>= named_value k else none

unfoldable pub token : Rec → Kind → Str → Result
token rec k [] = none
token rec a_value (c ∷ s) =
    if c == b'"'
    then read_quoted s
    else if c == b'['
    then rec first_values s >>= to_array
    else if c == b'{'
    then rec first_members s >>= to_object
    else if is_digit c
    then read_number (c ∷ s)
    else read_null (c ∷ s)
token rec first_values (c ∷ s) =
    if c == b']' then some (values no_values, s) else rec a_value (c ∷ s) >>= after_value rec values
token rec later_values (c ∷ s) =
    if c == b']'
    then some (more_values no_values, s)
    else if c == b','
    then rec a_value s >>= after_value rec more_values
    else none
token rec a_member (c ∷ s) = if c == b'"' then take_string plain s >>= after_name rec else none
token rec first_members (c ∷ s) =
    if c == b'}'
    then some (members no_members, s)
    else rec a_member (c ∷ s) >>= after_member rec members
token rec later_members (c ∷ s) =
    if c == b'}'
    then some (more_members no_members, s)
    else if c == b','
    then rec a_member s >>= after_member rec more_members
    else none

-- The reader, on fuel.
unfoldable pub run : ℕ → Kind → Str → Result
run zero k s = none
run (suc n) k s = token (run n) k (skip s)

skip_idem : (s : Str) → skip (skip s) ≡ skip s
unfolding skip
skip_idem [] = refl
skip_idem (c ∷ s) = ground (arith, skip_idem s)

pub run-skip : (n : ℕ) (k : Kind) (s : Str) → run n k (skip s) ≡ run n k s
unfolding run
run-skip zero k s = refl
run-skip (suc n) k s = ap (token (run n) k) (skip_idem s)

pub run-space :
    (n : ℕ) (k : Kind) (c : ℕ) (s : Str) → is_space c ≡ true → run n k (c ∷ s) ≡ run n k s
unfolding run
run-space zero k c s h = refl
run-space (suc n) k c s h = ap (token (run n) k) (unfold skip in rw h refl)

digits-append :
    (ds r : Str)
    → All (λ d. is_digit d ≡ true) ds
    → begins_digit r ≡ false
    → digits (ds ++ r) ≡ (ds, r)
unfolding digits
digits-append [] [] h d = refl
digits-append [] (c ∷ r) h d = rw d refl
digits-append (c ∷ ds) r (e, h) d = rw (e, digits-append ds r h d) refl

token-digit :
    (rec : Rec) (c : ℕ) (s : Str)
    → is_digit c ≡ true
    → token rec a_value (skip (c ∷ s)) ≡ read_number (c ∷ s)
unfolding token skip
token-digit rec c s h = ground (arith, h)

pub token-number :
    (rec : Rec) (n : ℕ) (ds r : Str)
    → ds ≢ []
    → All (λ d. is_digit d ≡ true) ds
    → begins_digit r ≡ false
    → read_digits 0 ds ≡ some n
    → token rec a_value (skip (ds ++ r)) ≡ some (one (number n), r)
unfolding read_number
token-number rec n [] r ne h d e = absurd (ne refl)
token-number rec n (c ∷ ds) r ne h d e =
    token-digit rec c (ds ++ r) h.0 ∙ rw (digits-append (c ∷ ds) r h d) (rw e refl)

no_token-nil : (rec : Rec) (k : Kind) → token rec k [] ≡ none
unfolding token
no_token-nil rec k = refl

no_value-bracket :
    (rec : Rec) (c : ℕ) (s : Str) → (c == b']') ≡ true → token rec a_value (c ∷ s) ≡ none
unfolding token read_null strip_prefix
no_value-bracket rec c s e = rw ((nat_beq_iff c b']').0 e) refl

pub token-first_values :
    (rec : Rec) (s : Str) (p : Form × Str)
    → token rec a_value s ≡ some p
    → token rec first_values s ≡ (rec a_value s >>= after_value rec values)
token-first_values rec [] p h = cc (no_token-nil rec a_value)
token-first_values rec (c ∷ s) p h = elim (Bool-cases (c == b']')) [
  | inl e ↦ cc (no_value-bracket rec c s e)
  | inr e ↦ unfold token in rw e refl
]

no_member-brace :
    (rec : Rec) (c : ℕ) (s : Str) → (c == b'}') ≡ true → token rec a_member (c ∷ s) ≡ none
unfolding token
no_member-brace rec c s e = rw ((nat_beq_iff c b'}').0 e) refl

pub token-first_members :
    (rec : Rec) (s : Str) (p : Form × Str)
    → token rec a_member s ≡ some p
    → token rec first_members s ≡ (rec a_member s >>= after_member rec members)
token-first_members rec [] p h = cc (no_token-nil rec a_member)
token-first_members rec (c ∷ s) p h = elim (Bool-cases (c == b'}')) [
  | inl e ↦ cc (no_member-brace rec c s e)
  | inr e ↦ unfold token in rw e refl
]
