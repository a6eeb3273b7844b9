-- ===== src/Base/Tests.antt =====
-- Boolean tests on the native numbers, the conditional, and case lemmas.
use Prim.Native.Nat.{ℕ, ◌<◌, compare, Ordering}
use mathlib.Core.Bool.{Bool, true, false}
use mathlib.Core.Logic.{◌↔◌, ◌⊎◌, inl, inr}
use mathlib.Core.Option.{Option, none, some}
use mathlib.Core.Path.{◌≡◌, refl}
use native.Mathlib.Omega.{arith}

abbrev pub ltb : ℕ → ℕ → Bool
ltb a b = elim (compare a b) [ Ordering.lt ↦ true | _ ↦ false ]

abbrev pub leb : ℕ → ℕ → Bool
leb a b = elim (compare a b) [ Ordering.gt ↦ false | _ ↦ true ]

-- Equality of two numbers; `==` is that of a `PartialEq` instance.
abbrev pub nat_beq : ℕ → ℕ → Bool
nat_beq a b = elim (compare a b) [ Ordering.eq ↦ true | _ ↦ false ]

infix 1 if◌then◌else◌
abbrev pub if◌then◌else◌ {ℓ} : {A : Type ℓ} → Bool → A → A → A
if true then x else y = x
if false then x else y = y

pub nat_beq_iff : (a b : ℕ) → (nat_beq a b ≡ true) ↔ (a ≡ b)
nat_beq_iff a b = ground arith

pub ltb→lt : (a b : ℕ) → ltb a b ≡ true → a < b
ltb→lt a b h = ground arith

pub Bool-cases : (b : Bool) → (b ≡ true) ⊎ (b ≡ false)
Bool-cases true = inl refl
Bool-cases false = inr refl

pub Option-cases {ℓ} : {A : Type ℓ} (o : Option A) → (o ≡ none) ⊎ ((a : A) × (o ≡ some a))
Option-cases none = inl refl
Option-cases (some a) = inr (a, refl)

-- `if let Some(x) = o { … }` where the branch only tests.
abbrev pub on_some {ℓ} : {A : Type ℓ} → Option A → (A → Bool) → Bool
on_some none p = false
on_some (some a) p = p a

abbrev pub unwrap_or {ℓ} : {A : Type ℓ} → Option A → A → A
unwrap_or none d = d
unwrap_or (some a) d = a

abbrev pub is_some {ℓ} : {A : Type ℓ} → Option A → Bool
is_some none = false
is_some (some a) = true

-- The `?` of the source and `and_then`.
infixl 5 ◌>>=◌
abbrev pub ◌>>=◌ {ℓ κ} : {A : Type ℓ} {B : Type κ} → Option A → (A → Option B) → Option B
none >>= f = none
some a >>= f = f a

-- A predicate of a test or of an `Option` that is taken apart holds if it holds of each case.
module _ {ℓ κ ι} {A : Type ℓ} {C : Type κ} (P : C → Type ι) where
  pub on_option :
      (o : Option A) (a : C) (f : A → C)
      → P a
      → ((x : A) → P (f x))
      → P (elim o [ none ↦ a | some x ↦ f x ])
  on_option none a f p q = p
  on_option (some x) a f p q = q x

  pub on_lookup :
      (o : Option A) (a : C) (f : A → C)
      → (o ≡ none → P a)
      → ((x : A) → o ≡ some x → P (f x))
      → P (elim o [ none ↦ a | some x ↦ f x ])
  on_lookup none a f p q = p refl
  on_lookup (some x) a f p q = q x refl

module _ {κ ι} {C : Type κ} (P : C → Type ι) where
  pub on_bool : (b : Bool) (x y : C) → P x → P y → P (if b then x else y)
  on_bool true x y p q = p
  on_bool false x y p q = q

  pub on_test : (b : Bool) (x y : C) → (b ≡ true → P x) → (b ≡ false → P y) → P (if b then x else y)
  on_test true x y p q = p refl
  on_test false x y p q = q refl
