-- ===== src/Policy/Decide/Spec.antt =====
-- The meaning of `decide`: the policy as one list of denials and one of approvals, where a denial
-- that covers the connection wins, then an approval, then the default.
use pfsnitch.Addr.{IpAddr, addr_eq}
use pfsnitch.Base.{
  ℕ, Bool, true, false, ◌&&◌, ◌||◌, List, [], ◌∷◌, ◌++◌, map, Option, none, some, ◌≡◌, refl, ◌∙◌,
  ap, arith, if◌then◌else◌, ◌==◌, nat_eq, list_eq, on_some, unwrap_or, any, contains, contains-any,
  sym, any-insert, insert, PartialEq,
}
use pfsnitch.Policy.Decide.{
  pattern_matches, port_ok, scoped_host_hit, scoped_dest_hit, host_matches, dest_matches, decide,
}
use pfsnitch.Policy.{Policy, allow, deny, ask, Target, DestTarget, HostFrom, DestFrom}
use pfsnitch.Text.{Str, Unicode, to_lowercase}

-- What a rule speaks of.
pub data Scope : Type 0 where
  everything : Scope
  host : Str → Option ℕ → Scope
  address : IpAddr → Option ℕ → Scope

-- A rule for one binary, or for all.
pub record Rule : Type 0 where
  pub app : Option Str
  pub scope : Scope

-- A connection as it is judged: with its binary and its name, where these are known.
pub record Connection : Type 0 where
  pub exe : Option Str
  pub dst : IpAddr
  pub name : Option Str
  pub dport : ℕ

abbrev pub for_app : Option Str → Option Str → Bool
for_app none exe = true
for_app (some a) exe = on_some exe (λ e. a == e)

module _ ⦃u : Unicode⦄ where
  unfoldable pub scope_covers : Scope → Connection → Bool
  scope_covers everything c = true
  scope_covers (host pat port) c =
      on_some c.name (λ h. port_ok port c.dport && pattern_matches pat (to_lowercase h))
  scope_covers (address a port) c = a == c.dst && port_ok port c.dport

  unfoldable pub covers : Connection → Rule → Bool
  covers c r = for_app r.app c.exe && scope_covers r.scope c

abbrev pub of_app : Str → Rule
of_app a = record { app = some a; scope = everything }

abbrev pub of_host : Target → Rule
of_host t = record { app = none; scope = host t.0 t.1 }

abbrev pub of_dest : DestTarget → Rule
of_dest t = record { app = none; scope = address t.0 t.1 }

abbrev pub of_host_from : HostFrom → Rule
of_host_from t = record { app = some t.0; scope = host t.1 t.2 }

abbrev pub of_dest_from : DestFrom → Rule
of_dest_from t = record { app = some t.0; scope = address t.1 t.2 }

unfoldable pub denials : Policy → List Rule
denials p =
    map of_dest_from p.deny_dest_from
    ++ (map of_host_from p.deny_host_from
        ++ (map of_host p.deny_host ++ (map of_dest p.deny_dest ++ map of_app p.deny_app)))

unfoldable pub approvals : Policy → List Rule
approvals p =
    map of_dest_from p.allow_dest_from
    ++ (map of_host_from p.allow_host_from
        ++ (map of_app p.allow_app ++ (map of_host p.allow_host ++ map of_dest p.allow_dest)))

and_assoc : (a b c : Bool) → (a && b && c) ≡ (a && (b && c))
and_assoc true b c = refl
and_assoc false b c = refl

and_false : (a : Bool) → (a && false) ≡ false
and_false true = refl
and_false false = refl

and_true : (a : Bool) → (a && true) ≡ a
and_true true = refl
and_true false = refl

pub any-append {ℓ} :
    {A : Type ℓ} (q : A → Bool) (xs ys : List A) → any q (xs ++ ys) ≡ (any q xs || any q ys)
unfolding any
any-append q [] ys = refl
any-append q (x ∷ xs) ys = ground (arith, any-append q xs ys)

-- `any` over mapped rules is a test of the set.
pub any-map {ℓ κ} :
    {A : Type ℓ} {B : Type κ} (q : B → Bool) (f : A → B) (g : A → Bool) (xs : List A)
    → ((a : A) → q (f a) ≡ g a)
    → any q (map f xs) ≡ any g xs
unfolding any
any-map q f g [] h = refl
any-map q f g (x ∷ xs) h = ground (arith, h x, any-map q f g xs h)

any-never {ℓ} :
    {A : Type ℓ} (q : A → Bool) (xs : List A) → ((a : A) → q a ≡ false) → any q xs ≡ false
unfolding any
any-never q [] h = refl
any-never q (x ∷ xs) h = ground (arith, h x, any-never q xs h)

abbrev pub connection : Option Str → IpAddr → Option Str → ℕ → Connection
connection exe dst name dport = record { exe = exe; dst = dst; name = name; dport = dport }

if_or {ℓ} :
    {A : Type ℓ} (a b : Bool) (x y : A)
    → (if a || b then x else y) ≡ (if a then x else if b then x else y)
if_or true b x y = refl
if_or false b x y = refl

pub any-map-insert {ℓ κ} :
    {A : Type ℓ} {B : Type κ} ⦃e : PartialEq A⦄ (q : B → Bool) (f : A → B) (a : A) (xs : List A)
    → any q (map f (insert a xs)) ≡ (q (f a) || any q (map f xs))
any-map-insert q f a xs =
    any-map q f (λ x. q (f x)) (insert a xs) (λ x. refl)
    ∙ any-insert (λ x. q (f x)) a xs
    ∙ ap (λ b. q (f a) || b) (sym (any-map q f (λ x. q (f x)) xs (λ x. refl)))

module _ ⦃u : Unicode⦄ (dst : IpAddr) (dport : ℕ) where
  any-of_dest_from :
      (exe name : Option Str) (s : List DestFrom)
      → any (covers (connection exe dst name dport)) (map of_dest_from s)
        ≡ on_some exe (λ e. scoped_dest_hit s e dst dport)
  unfolding covers scope_covers scoped_dest_hit
  any-of_dest_from none name s =
      any-map _ of_dest_from (λ _. false) s (λ a. refl) ∙ any-never (λ _. false) s (λ a. refl)
  any-of_dest_from (some e) name s =
      any-map _ of_dest_from _ s (λ a. sym (and_assoc (a.0 == e) (a.1 == dst) (port_ok a.2 dport)))

  any-of_host_from :
      (exe name : Option Str) (s : List HostFrom)
      → any (covers (connection exe dst name dport)) (map of_host_from s)
        ≡ on_some exe (λ e. on_some name (λ h. scoped_host_hit s e (to_lowercase h) dport))
  unfolding covers scope_covers scoped_host_hit
  any-of_host_from none name s =
      any-map _ of_host_from (λ _. false) s (λ a. refl) ∙ any-never (λ _. false) s (λ a. refl)
  any-of_host_from (some e) none s =
      any-map _ of_host_from (λ _. false) s (λ a. and_false (a.0 == e))
      ∙ any-never (λ _. false) s (λ a. refl)
  any-of_host_from (some e) (some h) s =
      any-map _ of_host_from _ s
        (λ a. sym (and_assoc (a.0 == e) (port_ok a.2 dport) (pattern_matches a.1 (to_lowercase h))))

  any-of_host :
      (exe name : Option Str) (s : List Target)
      → any (covers (connection exe dst name dport)) (map of_host s)
        ≡ on_some name (λ h. host_matches s h dport)
  unfolding covers scope_covers host_matches
  any-of_host exe none s =
      any-map _ of_host (λ _. false) s (λ a. refl) ∙ any-never (λ _. false) s (λ a. refl)
  any-of_host exe (some h) s = any-map _ of_host _ s (λ a. refl)

  any-of_dest :
      (exe name : Option Str) (s : List DestTarget)
      → any (covers (connection exe dst name dport)) (map of_dest s) ≡ dest_matches s dst dport
  unfolding covers scope_covers dest_matches
  any-of_dest exe name s = any-map _ of_dest _ s (λ a. refl)

  any-of_app :
      (exe name : Option Str) (s : List Str)
      → any (covers (connection exe dst name dport)) (map of_app s)
        ≡ on_some exe (λ e. contains e s)
  unfolding covers scope_covers
  any-of_app none name s =
      any-map _ of_app (λ _. false) s (λ a. refl) ∙ any-never (λ _. false) s (λ a. refl)
  any-of_app (some e) name s =
      any-map _ of_app (λ a. a == e) s (λ a. and_true (a == e)) ∙ sym (contains-any e s)

  any-denials :
      (p : Policy) (exe name : Option Str)
      → any (covers (connection exe dst name dport)) (denials p) ≡ (
          on_some exe (λ e. scoped_dest_hit p.deny_dest_from e dst dport)
          || (on_some exe
                (λ e. on_some name (λ h. scoped_host_hit p.deny_host_from e (to_lowercase h) dport))
              || (on_some name (λ h. host_matches p.deny_host h dport)
                  || (dest_matches p.deny_dest dst dport
                      || on_some exe (λ e. contains e p.deny_app)))))
  unfolding denials
  any-denials p exe name =
      simp (any-append, any-of_dest_from, any-of_host_from, any-of_host, any-of_dest, any-of_app)

  any-approvals :
      (p : Policy) (exe name : Option Str)
      → any (covers (connection exe dst name dport)) (approvals p) ≡ (
          on_some exe (λ e. scoped_dest_hit p.allow_dest_from e dst dport)
          || (on_some exe (λ e.
                on_some name (λ h. scoped_host_hit p.allow_host_from e (to_lowercase h) dport))
              || (on_some exe (λ e. contains e p.allow_app)
                  || (on_some name (λ h. host_matches p.allow_host h dport)
                      || dest_matches p.allow_dest dst dport))))
  unfolding approvals
  any-approvals p exe name =
      simp (any-append, any-of_dest_from, any-of_host_from, any-of_host, any-of_dest, any-of_app)

-- The order of the tests in `decide` does not matter: for every policy and every connection it
-- denies where a denial covers the connection, else allows where an approval covers it, and else
-- gives the default, or asks where there is none.
pub decide-deny_overrides :
    ⦃u : Unicode⦄ (p : Policy) (exe : Option Str) (dst : IpAddr) (name : Option Str) (dport : ℕ)
    → decide p exe dst name dport ≡ (
        if any (covers (connection exe dst name dport)) (denials p)
        then deny
        else if any (covers (connection exe dst name dport)) (approvals p)
        then allow
        else unwrap_or p.default ask)
unfolding decide
decide-deny_overrides p exe dst name dport = rw (any-denials, any-approvals) (simp if_or)
