-- ===== src/Base/Keys.antt =====
-- Decidable equality as an instance, and the hash sets and hash maps of the source as lists: a set
-- holds a value once, and a map gives a key one value. Their iteration order is never observed.
use mathlib.Core.Bool.{Bool, true, false, ◌&&◌, ◌||◌}
use mathlib.Core.List.{List, [], ◌∷◌}
use mathlib.Core.Logic.{◌↔◌}
use mathlib.Core.Option.{Option, none, some}
use mathlib.Core.Path.{◌≡◌, refl}
use native.Mathlib.Omega.{arith}
use Prim.Native.Nat.{ℕ}
use pfsnitch.Base.Tests.{nat_beq, nat_beq_iff, if◌then◌else◌}

pub record PartialEq {ℓ} (A : Type ℓ) : Type ℓ where
  pub same : A → A → Bool
  pub same_iff : (x y : A) → (same x y ≡ true) ↔ (x ≡ y)

abbrev pub ◌==◌ {ℓ} : {T : Type ℓ} ⦃eq : PartialEq T⦄ → T → T → Bool
◌==◌ ⦃eq⦄ x y = eq.same x y

infix 50 ◌==◌
instance abbrev pub nat_eq : PartialEq ℕ
nat_eq = record { same = nat_beq; same_iff = nat_beq_iff }

module _ {ℓ} {A : Type ℓ} ⦃e : PartialEq A⦄ where
  pub eq_self : (a : A) → (a == a) ≡ true
  eq_self a = (e.same_iff a a).1 refl

  pub eq_comm : (a b : A) → (a == b) ≡ (b == a)
  eq_comm a b = ground (arith, e.same_iff a b, e.same_iff b a)

  abbrev pub list_beq : List A → List A → Bool
  list_beq [] [] = true
  list_beq (x ∷ xs) (y ∷ ys) = x == y && list_beq xs ys
  list_beq _ _ = false

  pub list_beq_iff : (xs ys : List A) → (list_beq xs ys ≡ true) ↔ (xs ≡ ys)
  list_beq_iff (x ∷ xs) (y ∷ ys) = ground (arith, e.same_iff x y, list_beq_iff xs ys)
  list_beq_iff _ _ = ground arith

  abbrev pub option_beq : Option A → Option A → Bool
  option_beq none none = true
  option_beq (some x) (some y) = x == y
  option_beq _ _ = false

  pub option_beq_iff : (x y : Option A) → (option_beq x y ≡ true) ↔ (x ≡ y)
  option_beq_iff (some x) (some y) = ground (arith, e.same_iff x y)
  option_beq_iff _ _ = ground arith

  instance abbrev pub list_eq : PartialEq (List A)
  list_eq = record { same = list_beq; same_iff = list_beq_iff }

  instance abbrev pub option_eq : PartialEq (Option A)
  option_eq = record { same = option_beq; same_iff = option_beq_iff }

module _ {ℓ κ} {A : Type ℓ} {B : Type κ} ⦃a : PartialEq A⦄ ⦃b : PartialEq B⦄ where
  abbrev pub pair_beq : A × B → A × B → Bool
  pair_beq x y = x.0 == y.0 && x.1 == y.1

  pub pair_beq_iff : (x y : A × B) → (pair_beq x y ≡ true) ↔ (x ≡ y)
  pair_beq_iff x y = ground (arith, a.same_iff x.0 y.0, b.same_iff x.1 y.1)

  instance abbrev pub pair_eq : PartialEq (A × B)
  pair_eq = record { same = pair_beq; same_iff = pair_beq_iff }

module _ {ℓ κ ι} {A : Type ℓ} {B : Type κ} {C : Type ι} ⦃a : PartialEq A⦄ ⦃b : PartialEq B⦄
    ⦃c : PartialEq C⦄ where
  abbrev pub triple_beq : A × B × C → A × B × C → Bool
  triple_beq x y = x.0 == y.0 && x.1 == y.1 && x.2 == y.2

  pub triple_beq_iff : (x y : A × B × C) → (triple_beq x y ≡ true) ↔ (x ≡ y)
  triple_beq_iff x y = ground (arith, a.same_iff x.0 y.0, b.same_iff x.1 y.1, c.same_iff x.2 y.2)

  instance abbrev pub triple_eq : PartialEq (A × B × C)
  triple_eq = record { same = triple_beq; same_iff = triple_beq_iff }

-- `iter().any(p)`
unfoldable pub any {ℓ} : {A : Type ℓ} → (A → Bool) → List A → Bool
any p [] = false
any p (x ∷ xs) = p x || any p xs

module _ {ℓ} {A : Type ℓ} ⦃e : PartialEq A⦄ where
  unfoldable pub contains : A → List A → Bool
  contains a [] = false
  contains a (x ∷ xs) = x == a || contains a xs

  -- No element stands twice.
  abbrev pub AreDistinct : List A → Type 0
  AreDistinct [] = Unit
  AreDistinct (x ∷ xs) = (contains x xs ≡ false) × AreDistinct xs

  unfoldable pub insert : A → List A → List A
  insert a s = if contains a s then s else a ∷ s

  any_of_contains :
      (p : A → Bool) (a : A) (s : List A) → contains a s ≡ true → p a ≡ true → any p s ≡ true
  unfolding any contains
  any_of_contains p a [] h k = cc
  any_of_contains p a (x ∷ xs) h k = ground (arith, e.same_iff x a, any_of_contains p a xs)

  -- Membership tests see an insertion as one more element, whether or not it was there.
  pub any-insert : (p : A → Bool) (a : A) (s : List A) → any p (insert a s) ≡ (p a || any p s)
  unfolding insert any
  any-insert p a s = ground (arith, any_of_contains p a s)

  pub contains-any : (a : A) (s : List A) → contains a s ≡ any (λ x. x == a) s
  unfolding contains any
  contains-any a [] = refl
  contains-any a (x ∷ xs) = ground (arith, contains-any a xs)

  pub contains-insert : (a b : A) (s : List A) → contains b (insert a s) ≡ (a == b || contains b s)
  contains-insert a b s =
      ground (arith, contains-any b (insert a s), contains-any b s, any-insert (λ x. x == b) a s)

  -- `HashSet::remove`
  unfoldable pub discard : A → List A → List A
  discard a [] = []
  discard a (x ∷ xs) = let rest = discard a xs in if x == a then rest else x ∷ rest

  pub contains-discard :
      (a b : A) (s : List A) → contains b (discard a s) ≡ (if a == b then false else contains b s)
  unfolding contains discard
  contains-discard a b [] = ground arith
  contains-discard a b (x ∷ xs) =
      ground (arith, e.same_iff a b, e.same_iff x a, e.same_iff x b, contains-discard a b xs)

module _ {ℓ κ} {K : Type ℓ} {V : Type κ} ⦃e : PartialEq K⦄ where
  unfoldable pub lookup : K → List (K × V) → Option V
  lookup k [] = none
  lookup k ((j, v) ∷ m) = if j == k then some v else lookup k m

  -- `HashMap::insert`: the key's value is replaced, or the key is added.
  unfoldable pub put : K → V → List (K × V) → List (K × V)
  put k v [] = (k, v) ∷ []
  put k v ((j, w) ∷ m) = if j == k then (j, v) ∷ m else (j, w) ∷ put k v m

  unfoldable pub remove : K → List (K × V) → List (K × V)
  remove k [] = []
  remove k ((j, w) ∷ m) = let rest = remove k m in if j == k then rest else (j, w) ∷ rest

  pub lookup-put :
      (k j : K) (v : V) (m : List (K × V))
      → lookup j (put k v m) ≡ (if k == j then some v else lookup j m)
  unfolding lookup put
  lookup-put k j v [] = refl
  lookup-put k j v ((i, w) ∷ m) =
      ground (arith, e.same_iff k j, e.same_iff i k, e.same_iff i j, lookup-put k j v m)

  pub lookup-remove :
      (k j : K) (m : List (K × V)) → lookup j (remove k m) ≡ (if k == j then none else lookup j m)
  unfolding lookup remove
  lookup-remove k j [] = ground arith
  lookup-remove k j ((i, w) ∷ m) =
      ground (arith, e.same_iff k j, e.same_iff i k, e.same_iff i j, lookup-remove k j m)
