-- ===== src/Cli/Apps/Grouping.antt =====
-- src/main.rs: every rule is listed once, under its application.
use mathlib.Core.List.{append_assoc, append-nil}
use pfsnitch.Base.{
  Bool, true, false, ◌||◌, List, [], ◌∷◌, ◌++◌, map, ◌≡◌, refl, sym, ◌∙◌, ap, arith, if◌then◌else◌,
  ◌==◌, nat_eq, list_eq, list_beq_iff, lookup, put, lookup-put, unwrap_or, any, contains, eq_comm,
  on_test, on_bool, AreDistinct,
}
use pfsnitch.Cli.Apps.Listing.{rules_of, order}
use pfsnitch.Cli.Apps.{Split, Groups, split_rule, group, before, place, sort_apps}
use pfsnitch.Policy.Manage.{Rule, filter}
use pfsnitch.Text.{Str, Unicode}

abbrev pub with_split : Rule → Rule × Split
with_split r = (r, split_rule r.kind r.value)

abbrev pub is_under : Str → Rule × Split → Bool
is_under app (r, s) = s.app == app

rules_of-put :
    (app key : Str) (rs : List (Rule × Split)) (g : Groups)
    → rules_of app (put key rs g) ≡ (if key == app then rs else rules_of app g)
unfolding rules_of
rules_of-put app key rs g = ground (arith, lookup-put key app rs g)

-- What is added where the test holds stands in front of what follows.
append-if {ℓ} :
    {A : Type ℓ} (b : Bool) (before added after : List A) (x : A)
    → (b ≡ true → added ≡ before ++ x ∷ [])
    → (if b then added else before) ++ after ≡ before ++ (if b then x ∷ after else after)
append-if true before added after x h =
    ap (λ l. l ++ after) (h refl) ∙ append_assoc before (x ∷ []) after
append-if false before added after x h = refl

rules_of-group_onto :
    (app : Str) (rs : List Rule) (g : Groups)
    → rules_of app (group rs g) ≡ rules_of app g ++ filter (is_under app) (map with_split rs)
unfolding group filter rules_of
rules_of-group_onto app [] g = sym (append-nil _)
rules_of-group_onto app (r ∷ rs) g =
    let s = split_rule r.kind r.value in
    let under = rules_of s.app g ++ with_split r ∷ [] in
    rules_of-group_onto app rs (put s.app under g)
    ∙ ap (λ l. l ++ filter (is_under app) (map with_split rs)) (rules_of-put app s.app under g)
    ∙ append-if (s.app == app) (rules_of app g) under _ (with_split r)
        (λ e. ap (λ a. rules_of a g ++ with_split r ∷ []) ((list_beq_iff s.app app).0 e))

pub rules_of-group :
    (app : Str) (rs : List Rule)
    → rules_of app (group rs []) ≡ filter (is_under app) (map with_split rs)
rules_of-group app rs = unfold rules_of lookup in rules_of-group_onto app rs []

abbrev keys : Groups → List Str
keys g = map (λ e. e.0) g

contains-put :
    (app key : Str) (rs : List (Rule × Split)) (g : Groups)
    → contains app (keys (put key rs g)) ≡ (key == app || contains app (keys g))
unfolding put contains
contains-put app key rs [] = refl
contains-put app key rs ((j, v) ∷ g) = ground (arith, list_beq_iff j key, contains-put app key rs g)

module _ ⦃u : Unicode⦄ where
  contains-place : (x a : Str) (bs : List Str) → contains x (place a bs) ≡ (a == x || contains x bs)
  unfolding place contains
  contains-place x a [] = refl
  contains-place x a (b ∷ bs) = ground (arith, contains-place x a bs)

  contains-sort_apps : (x : Str) (as' : List Str) → contains x (sort_apps as') ≡ contains x as'
  unfolding sort_apps contains
  contains-sort_apps x [] = refl
  contains-sort_apps x (a ∷ as') =
      ground (arith, contains-place x a (sort_apps as'), contains-sort_apps x as')

  listed-keys :
      (app : Str) (rs : List Rule) (g : Groups)
      → contains app (keys (group rs g))
        ≡ (any (λ r. is_under app (with_split r)) rs || contains app (keys g))
  unfolding group any
  listed-keys app [] g = refl
  listed-keys app (r ∷ rs) g =
      let s = split_rule r.kind r.value in
      let under = unwrap_or (lookup s.app g) [] ++ with_split r ∷ [] in
      ground (arith, listed-keys app rs (put s.app under g), contains-put app s.app under g)

  put-AreDistinct :
      (key : Str) (rs : List (Rule × Split)) (g : Groups)
      → AreDistinct (keys g)
      → AreDistinct (keys (put key rs g))
  unfolding put
  put-AreDistinct key rs [] d = (unfold contains in refl, tt)
  put-AreDistinct key rs ((j, v) ∷ g) (n, d) =
      on_test (λ (m : Groups). AreDistinct (keys m)) (j == key) _ _ (λ _. (n, d))
        (λ e. (contains-put j key rs g ∙ rw (eq_comm key j, e, n) refl, put-AreDistinct key rs g d))

  group-AreDistinct :
      (rs : List Rule) (g : Groups) → AreDistinct (keys g) → AreDistinct (keys (group rs g))
  unfolding group
  group-AreDistinct [] g d = d
  group-AreDistinct (r ∷ rs) g d = group-AreDistinct rs _ (put-AreDistinct _ _ g d)

  place-AreDistinct :
      (a : Str) (bs : List Str) → contains a bs ≡ false → AreDistinct bs → AreDistinct (place a bs)
  unfolding place contains
  place-AreDistinct a [] n d = (refl, tt)
  place-AreDistinct a (b ∷ bs) n (m, d) =
      on_bool AreDistinct (before b a) _ _
        (
          contains-place b a bs ∙ ground (arith, n, m, eq_comm a b),
          place-AreDistinct a bs (ground (arith, n)) d,
        )
        (n, (m, d))

  sort_apps-AreDistinct : (as' : List Str) → AreDistinct as' → AreDistinct (sort_apps as')
  unfolding sort_apps
  sort_apps-AreDistinct [] d = tt
  sort_apps-AreDistinct (a ∷ as') (n, d) =
      place-AreDistinct a (sort_apps as') (contains-sort_apps a as' ∙ n)
        (sort_apps-AreDistinct as' d)

  -- The listing by application shows every rule once: no application stands in it twice, each stands
  -- in it if and only if some rule is about it, and under it stand exactly the rules about it, in the
  -- order of the file.
  pub order-group :
      (app : Str) (rs : List Rule)
      → AreDistinct (order rs)
        × (contains app (order rs) ≡ any (λ r. is_under app (with_split r)) rs)
        × (rules_of app (group rs []) ≡ filter (is_under app) (map with_split rs))
  unfolding order
  order-group app rs = (
    sort_apps-AreDistinct (keys (group rs [])) (group-AreDistinct rs [] tt),
    contains-sort_apps app (keys (group rs []))
        ∙ listed-keys app rs []
        ∙ unfold contains in ground arith,
    rules_of-group app rs,
  )
