-- ===== src/Daemon/Run/Quiet.antt =====
-- src/main.rs: answers, upcalls and packets leave the mode, the upcall and the divert of UDP alone.
use pfsnitch.Base.{
  on_bool, on_option, Bool, true, not, List, [], ◌∷◌, ◌++◌, map, Option, none, some, ◌≡◌, refl, sym,
  ◌∙◌, ap, arith, ◌==◌, is_some, contains, nat_eq, list_eq, pair_eq,
}
use pfsnitch.Daemon.Run.{udp_diverted, asked_upcall, after_call, is_alive, IsCache, IsAsked}
use pfsnitch.Daemon.{
  Key, World, Daemon, Outcome, ◌▸◌, Effect, ioctl, on_kern, with_handle, Question, raise_prompt,
  key_of, pending_of, check_binary, changed_from,
}
use pfsnitch.Identity.{hash}
use pfsnitch.Policy.Record.{expected_id}
use pfsnitch.Text.{Unicode, Str}
use pfsnitch.Kernattr.{KernAttr, Ioctl}

-- A step that changes neither the mode nor the upcall, keeps an open device open, sets no divert of
-- UDP, and keeps the cache well formed.
pub record Hushed (d : Daemon) (o : Outcome) : Type 0 where
  pub same_mode : o.0.mode ≡ d.mode
  pub same_upcall : o.0.upcall_on ≡ d.upcall_on
  pub same_kern : is_some o.0.kern ≡ is_some d.kern
  pub no_divert : (b : Bool) → udp_diverted b o.1 ≡ b
  pub keeps : IsCache d.decided → IsCache o.0.decided
  pub waits : IsAsked d → IsAsked o.0

-- It also asks nothing about the upcall, and does not bring a dead device to life.
pub record Quiet (d : Daemon) (o : Outcome) : Type 0 where
  pub hushed : Hushed d o
  pub same_asked : (b : Bool) → asked_upcall b o.1 ≡ b
  pub sticks : is_alive o.0.kern ≡ true → is_alive d.kern ≡ true

-- What is done sets no divert of UDP and asks nothing about the upcall.
abbrev pub Silent : List Effect → Type 0
Silent es = (b : Bool) → (udp_diverted b es ≡ b) × (asked_upcall b es ≡ b)

pub asked_upcall-append :
    (b : Bool) (xs ys : List Effect)
    → asked_upcall b (xs ++ ys) ≡ asked_upcall (asked_upcall b xs) ys
unfolding asked_upcall
asked_upcall-append b [] ys = refl
asked_upcall-append b (Effect.ioctl q ∷ xs) ys = asked_upcall-append (after_call b q) xs ys
asked_upcall-append b (Effect.set_udp_divert x ∷ xs) ys = asked_upcall-append b xs ys
asked_upcall-append b (Effect.reinject p f ∷ xs) ys = asked_upcall-append b xs ys
asked_upcall-append b (Effect.reinject_inbound p ∷ xs) ys = asked_upcall-append b xs ys
asked_upcall-append b (Effect.spawn_prompt q ∷ xs) ys = asked_upcall-append b xs ys
asked_upcall-append b (Effect.spawn_reader ∷ xs) ys = asked_upcall-append b xs ys
asked_upcall-append b (Effect.policy_file q ∷ xs) ys = asked_upcall-append b xs ys
asked_upcall-append b (Effect.seen_file q ∷ xs) ys = asked_upcall-append b xs ys
asked_upcall-append b (Effect.crash ∷ xs) ys = asked_upcall-append b xs ys

pub udp_diverted-append :
    (b : Bool) (xs ys : List Effect)
    → udp_diverted b (xs ++ ys) ≡ udp_diverted (udp_diverted b xs) ys
unfolding udp_diverted
udp_diverted-append b [] ys = refl
udp_diverted-append b (Effect.set_udp_divert x ∷ xs) ys = udp_diverted-append x xs ys
udp_diverted-append b (Effect.reinject p f ∷ xs) ys = udp_diverted-append b xs ys
udp_diverted-append b (Effect.reinject_inbound p ∷ xs) ys = udp_diverted-append b xs ys
udp_diverted-append b (Effect.spawn_prompt q ∷ xs) ys = udp_diverted-append b xs ys
udp_diverted-append b (Effect.ioctl q ∷ xs) ys = udp_diverted-append b xs ys
udp_diverted-append b (Effect.spawn_reader ∷ xs) ys = udp_diverted-append b xs ys
udp_diverted-append b (Effect.policy_file q ∷ xs) ys = udp_diverted-append b xs ys
udp_diverted-append b (Effect.seen_file q ∷ xs) ys = udp_diverted-append b xs ys
udp_diverted-append b (Effect.crash ∷ xs) ys = udp_diverted-append b xs ys

pub udp_diverted-ioctls : (b : Bool) (ios : List Ioctl) → udp_diverted b (map ioctl ios) ≡ b
unfolding udp_diverted
udp_diverted-ioctls b [] = refl
udp_diverted-ioctls b (io ∷ ios) = udp_diverted-ioctls b ios

pub Hushed-then :
    (d : Daemon) (o : Outcome) (f : Daemon → Outcome)
    → Hushed d o
    → Hushed o.0 (f o.0)
    → Hushed d (o ▸ f)
Hushed-then d o f p q = record {
  same_mode = q.same_mode ∙ p.same_mode;
  same_upcall = q.same_upcall ∙ p.same_upcall;
  same_kern = q.same_kern ∙ p.same_kern;
  no_divert = λ b.
      udp_diverted-append b o.1 (f o.0).1
      ∙ (ap (λ x. udp_diverted x (f o.0).1) (p.no_divert b) ∙ q.no_divert b);
  keeps = λ c. q.keeps (p.keeps c);
  waits = λ h. q.waits (p.waits h);
}

pub Quiet-then :
    (d : Daemon) (o : Outcome) (f : Daemon → Outcome)
    → Quiet d o
    → Quiet o.0 (f o.0)
    → Quiet d (o ▸ f)
Quiet-then d o f p q = record {
  hushed = Hushed-then d o f p.hushed q.hushed;
  same_asked = λ b.
      asked_upcall-append b o.1 (f o.0).1
      ∙ (ap (λ x. asked_upcall x (f o.0).1) (p.same_asked b) ∙ q.same_asked b);
  sticks = λ h. p.sticks (q.sticks h);
}

-- A state that differs only in what `Hushed` does not speak of.
Hushed-same :
    (d d' : Daemon) (es : List Effect)
    → d'.mode ≡ d.mode
    → d'.upcall_on ≡ d.upcall_on
    → is_some d'.kern ≡ is_some d.kern
    → d'.decided ≡ d.decided
    → d'.pending_upcalls ≡ d.pending_upcalls
    → d'.asking ≡ d.asking
    → ((b : Bool) → udp_diverted b es ≡ b)
    → Hushed d (d', es)
Hushed-same d d' es m up k c p a n = record {
  same_mode = m;
  same_upcall = up;
  same_kern = k;
  no_divert = n;
  keeps = λ h. rw c h;
  waits = λ h. rw (p, a) h;
}

-- A state that differs only in what `Quiet` does not speak of.
pub Quiet-same :
    (d d' : Daemon) (es : List Effect)
    → d'.mode ≡ d.mode
    → d'.upcall_on ≡ d.upcall_on
    → d'.kern ≡ d.kern
    → d'.decided ≡ d.decided
    → d'.pending_upcalls ≡ d.pending_upcalls
    → d'.asking ≡ d.asking
    → Silent es
    → Quiet d (d', es)
Quiet-same d d' es m up k c p a n = record {
  hushed = Hushed-same d d' es m up (ap is_some k) c p a (λ b. (n b).0);
  same_asked = λ b. (n b).1;
  sticks = λ h. ap is_alive (sym k) ∙ h;
}

-- A quiet step after a quiet change of state.
pub Quiet-after : (d d' : Daemon) (o : Outcome) → Quiet d (d', []) → Quiet d' o → Quiet d o
Quiet-after d d' o p q = Quiet-then d (d', []) (λ _. o) p q

-- The same of a step that gives a value and does nothing outside.
abbrev pub Still {ℓ} : {A : Type ℓ} → Daemon → A × Daemon → Type 0
Still d r = Quiet d (r.1, [])

pub Quiet-refl : (d : Daemon) → Quiet d (d, [])
unfolding udp_diverted asked_upcall
Quiet-refl d = Quiet-same d d [] refl refl refl refl refl refl (λ b. (refl, refl))

with_handle-Hushed :
    (f : KernAttr → KernAttr × List Ioctl) (k : Option KernAttr) (d : Daemon)
    → is_some d.kern ≡ is_some k
    → Hushed d (with_handle f k d)
unfolding with_handle
with_handle-Hushed f none d e = (Quiet-refl d).hushed
with_handle-Hushed f (some h) d e =
    Hushed-same d _ _ refl refl (sym e) refl refl refl (λ b. udp_diverted-ioctls b (f h).1)

pub on_kern-Hushed : (f : KernAttr → KernAttr × List Ioctl) (d : Daemon) → Hushed d (on_kern f d)
unfolding on_kern
on_kern-Hushed f d = with_handle-Hushed f d.kern d refl

-- A call of the device that asks nothing about the upcall and does not bring it to life.
pub record IsCalm (f : KernAttr → KernAttr × List Ioctl) : Type 0 where
  pub asks_nothing : (h : KernAttr) (b : Bool) → asked_upcall b (map ioctl (f h).1) ≡ b
  pub stays_dead : (h : KernAttr) → h.dead ≡ true → (f h).0.dead ≡ true

pub was_alive : (x y : Bool) → (x ≡ true → y ≡ true) → not y ≡ true → not x ≡ true
was_alive x y h k = ground (arith, h, k)

with_handle-Quiet :
    (f : KernAttr → KernAttr × List Ioctl) (k : Option KernAttr) (d : Daemon)
    → IsCalm f
    → d.kern ≡ k
    → Quiet d (with_handle f k d)
unfolding with_handle
with_handle-Quiet f none d c e = Quiet-refl d
with_handle-Quiet f (some h) d c e = record {
  hushed = unfold with_handle in with_handle-Hushed f (some h) d (ap is_some e);
  same_asked = λ b. c.asks_nothing h b;
  sticks = λ alive. ap is_alive e ∙ was_alive h.dead (f h).0.dead (c.stays_dead h) alive;
}

pub on_kern-Quiet :
    (f : KernAttr → KernAttr × List Ioctl) (d : Daemon) → IsCalm f → Quiet d (on_kern f d)
unfolding on_kern
on_kern-Quiet f d c = with_handle-Quiet f d.kern d c refl

contains-cons : (k j : Key) (s : List Key) → contains k s ≡ true → contains k (j ∷ s) ≡ true
unfolding contains
contains-cons k j s h = ground (arith, h)

module _ ⦃u : Unicode⦄ where
  pub raise_prompt-Quiet : (q : Question) (d : Daemon) → Quiet d (raise_prompt q d)
  unfolding raise_prompt udp_diverted asked_upcall
  raise_prompt-Quiet q d =
      on_bool (Quiet d) (contains (key_of (pending_of q)) d.asking) _ _ (Quiet-refl d) (record {
        hushed = record {
          same_mode = refl;
          same_upcall = refl;
          same_kern = refl;
          no_divert = λ b. refl;
          keeps = λ c. c;
          waits = λ h k l. contains-cons k _ d.asking (h k l);
        };
        same_asked = λ b. refl;
        sticks = λ h. h;
      })

  changed_from-Quiet :
      (w : World) (exe expected : Str) (d : Daemon) → Still d (changed_from w exe expected d)
  unfolding changed_from udp_diverted asked_upcall
  changed_from-Quiet w exe expected d =
      on_option (Still d) (hash d.ident exe (w.metadata exe) (w.sha256 exe)).0 _ _
        (Quiet-same d _ _ refl refl refl refl refl refl (λ b. (refl, refl)))
        (λ h.
          on_bool (Still d) (h == expected) _ _
            (Quiet-same d _ _ refl refl refl refl refl refl (λ b. (refl, refl)))
            (Quiet-same d _ _ refl refl refl refl refl refl (λ b. (refl, refl))))

  pub check_binary-Quiet : (w : World) (exe : Str) (d : Daemon) → Still d (check_binary w exe d)
  unfolding check_binary
  check_binary-Quiet w exe d =
      on_option (Still d) (expected_id d.pol exe) _ _ (Quiet-refl d)
        (λ expected. changed_from-Quiet w exe expected d)
