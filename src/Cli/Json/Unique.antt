-- ===== src/Cli/Json/Unique.antt =====
-- A JSON text says one thing: the reader finds whatever the grammar allows.
use pfsnitch.Base.{ℕ, zero, suc, ◌+◌, ◌≤◌, ◌∷◌, some, ◌≡◌, refl, ◌∙◌, ap, arith, ◌>>=◌}
use pfsnitch.Cli.Json.Grammar.{
  Value, Values, Members, Form, one, values, more_values, entry, members, more_members, Reads,
  space, empty_array, first_value, last_value, next_value, name, empty_object, first_member,
  last_member, next_member, member, value,
}
use pfsnitch.Cli.Json.Parse.{
  Rec, Kind, a_value, later_values, a_member, later_members, form_kind, to_array, to_object,
  read_null, read_quoted, with_value, with_member, after_value, after_member, named_value,
  after_name, token, run, skip, run-skip, run-space, token-number, token-first_values,
  token-first_members,
}
use pfsnitch.Text.Numbers.{
  show_decimal, show_decimal-All, show_decimal-ne-nil, read_digits-show_decimal,
}
use pfsnitch.Text.{Str, strip_prefix}

-- What is found with this much fuel or more.
abbrev Finds : Str → Form → Str → Type 0
Finds s f r = (n : ℕ) × ((m : ℕ) → n ≤ m → run m (form_kind f) s ≡ some (f, r))

-- Fuel above a bound is a successor.
spend {ℓ} : {n : ℕ} (P : ℕ → Type ℓ) → ((m : ℕ) → n ≤ m → P (suc m)) → (m : ℕ) → suc n ≤ m → P m
spend P h zero le = absurd (omega arith)
spend P h (suc m) le = h m (omega arith)

-- A value and what is found behind it.
after-value :
    (rec : Rec) (build : Values → Form) (s t r : Str) (v : Value) (vs : Values)
    → rec a_value s ≡ some (one v, t)
    → rec later_values t ≡ some (more_values vs, r)
    → (rec a_value s >>= after_value rec build) ≡ some (build (value v vs), r)
unfolding after_value with_value
after-value rec build s t r v vs e e' =
    ap (λ o. o >>= after_value rec build) e ∙ ap (λ o. o >>= with_value build v) e'

after-member :
    (rec : Rec) (build : Members → Form) (s t r k : Str) (v : Value) (ms : Members)
    → rec a_member s ≡ some (entry k v, t)
    → rec later_members t ≡ some (more_members ms, r)
    → (rec a_member s >>= after_member rec build) ≡ some (build (member k v ms), r)
unfolding after_member with_member
after-member rec build s t r k v ms e e' =
    ap (λ o. o >>= after_member rec build) e ∙ ap (λ o. o >>= with_member build k v) e'

after-name :
    (rec : Rec) (k t r : Str) (v : Value)
    → rec a_value t ≡ some (one v, r)
    → after_name rec (k, b':' ∷ t) ≡ some (entry k v, r)
unfolding after_name named_value
after-name rec k t r v e = ap (λ o. o >>= named_value k) e

-- The first of an array or an object is found both behind white space and with it.
first_found :
    (k : Kind) (s : Str) (p : Form × Str) (n m : ℕ)
    → ((m' : ℕ) → n ≤ m' → run m' k s ≡ some p)
    → n ≤ m
    → (token (run m) k (skip s) ≡ some p) × (run m k (skip s) ≡ some p)
unfolding run
first_found k s p n m g le = (g (suc m) (omega arith), run-skip m k s ∙ g m le)

Reads-Finds : {s r : Str} {f : Form} → Reads s f r → Finds s f r
unfolding form_kind run skip token
Reads-Finds (space c e d) = let (n, g) = Reads-Finds d in (n, λ m le. run-space m _ c _ e ∙ g m le)
Reads-Finds (Reads.null r) = (1, spend _ (λ m _. unfold read_null strip_prefix in refl))
Reads-Finds (Reads.number n r d) = (
  1,
  spend _ (λ m _.
      token-number (run m) n (show_decimal n) r (show_decimal-ne-nil n) (show_decimal-All n) d
        (read_digits-show_decimal n)),
)
Reads-Finds (Reads.string e) = (1, spend _ (λ m _. unfold read_quoted in rw e refl))
Reads-Finds (Reads.array d) =
    let (n, g) = Reads-Finds d in
    (suc n, spend _ (λ m le. ap (λ o. o >>= to_array) (g m le) ∙ unfold to_array in refl))
Reads-Finds (Reads.object d) =
    let (n, g) = Reads-Finds d in
    (suc n, spend _ (λ m le. ap (λ o. o >>= to_object) (g m le) ∙ unfold to_object in refl))
Reads-Finds (empty_array r) = (1, spend _ (λ m _. refl))
Reads-Finds (last_value r) = (1, spend _ (λ m _. refl))
Reads-Finds (empty_object r) = (1, spend _ (λ m _. refl))
Reads-Finds (last_member r) = (1, spend _ (λ m _. refl))
Reads-Finds (first_value {s} {t} {r} {v} {vs} d e) =
    let (n, g) = Reads-Finds d in
    let (n', g') = Reads-Finds e in
    (
      suc (n + n'),
      spend _ (λ m le.
          let (h, h') = first_found a_value s (one v, t) n m g (omega arith) in
          token-first_values (run m) (skip s) (one v, t) h
          ∙ after-value (run m) values (skip s) t r v vs h' (g' m (omega arith))),
    )
Reads-Finds (next_value {s} {t} {r} {v} {vs} d e) =
    let (n, g) = Reads-Finds d in
    let (n', g') = Reads-Finds e in
    (
      suc (n + n'),
      spend _ (λ m le.
          after-value (run m) more_values s t r v vs (g m (omega arith)) (g' m (omega arith))),
    )
Reads-Finds (name {s} {k} {t} {r} {v} e d) =
    let (n, g) = Reads-Finds d in
    (
      suc n,
      spend _ (λ m le. ap (λ o. o >>= after_name (run m)) e ∙ after-name (run m) k t r v (g m le)),
    )
Reads-Finds (first_member {s} {t} {r} {k} {v} {ms} d e) =
    let (n, g) = Reads-Finds d in
    let (n', g') = Reads-Finds e in
    (
      suc (n + n'),
      spend _ (λ m le.
          let (h, h') = first_found a_member s (entry k v, t) n m g (omega arith) in
          token-first_members (run m) (skip s) (entry k v, t) h
          ∙ after-member (run m) members (skip s) t r k v ms h' (g' m (omega arith))),
    )
Reads-Finds (next_member {s} {t} {r} {k} {v} {ms} d e) =
    let (n, g) = Reads-Finds d in
    let (n', g') = Reads-Finds e in
    (
      suc (n + n'),
      spend _ (λ m le.
          after-member (run m) more_members s t r k v ms (g m (omega arith)) (g' m (omega arith))),
    )

-- A text is read as one value at most.
Reads-unique :
    (s r r' : Str) (v v' : Value) → Reads s (one v) r → Reads s (one v') r' → (v ≡ v') × (r ≡ r')
unfolding form_kind
Reads-unique s r r' v v' d d' =
    let (n, g) = Reads-Finds d in
    let (n', g') = Reads-Finds d' in
    let e = g (n + n') (omega arith) in let e' = g' (n + n') (omega arith) in (cc, cc)

-- The text is read as the value, which leaves `r` of it, and as no other.
abbrev pub Says : Str → Value → Str → Type 0
Says s v r =
    Reads s (one v) r × ((v' : Value) (r' : Str) → Reads s (one v') r' → (v' ≡ v) × (r' ≡ r))

pub Reads-Says : (s r : Str) (v : Value) → Reads s (one v) r → Says s v r
Reads-Says s r v d = (d, λ v' r' d'. Reads-unique s r' r v' v d' d)
