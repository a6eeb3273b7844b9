-- ===== src/Daemon/Run/Waiting.antt =====
-- src/main.rs: an answer reaches every upcall that waits under its key.
use pfsnitch.Base.{
  on_option, ℕ, Bool, true, false, List, [], ◌∷◌, ◌++◌, map, Option, none, some, ◌≡◌, refl, ◌∙◌, ap,
  arith, nat_eq, list_eq, pair_eq, lookup, remove, contains, discard, contains-discard,
  lookup-remove, eq_self, unwrap_or,
}
use pfsnitch.Daemon.Answers.{
  allows, resolve_all, resolve_waiting, pin, re_pin, write_rule, handle_answer,
}
use pfsnitch.Daemon.{
  Key, World, Pending, Daemon, Effect, ioctl, policy_file, on_kern, with_handle, key_of,
}
use pfsnitch.Identity.{hash}
use pfsnitch.Kernattr.Calls.{resolve, resolve_call, unless_dead, issue}
use pfsnitch.Kernattr.{Kernel, KernAttr, Ioctl, opened}
use pfsnitch.Policy.Load.{File}
use pfsnitch.Policy.{Answer}
use pfsnitch.Text.{Str, Unicode}

-- The calls of the kernel among what was done.
unfoldable pub ioctls : List Effect → List Ioctl
ioctls [] = []
ioctls (ioctl io ∷ es) = io ∷ ioctls es
ioctls (_ ∷ es) = ioctls es

ioctls-map : (ios : List Ioctl) (f : File) → ioctls (map ioctl ios ++ (policy_file f ∷ [])) ≡ ios
unfolding ioctls
ioctls-map [] f = refl
ioctls-map (io ∷ ios) f = ap (λ l. io ∷ l) (ioctls-map ios f)

-- Every id gets its call, in order, on a live handle whose calls succeed.
resolve_all-map :
    (k : Kernel) (a : Bool) (ids : List ℕ)
    → ((io : Ioctl) → k.control io ≡ none)
    → resolve_all k a ids opened ≡ (opened, map (λ id. resolve_call id a) ids)
unfolding resolve_all resolve unless_dead issue
resolve_all-map k a [] fine = refl
resolve_all-map k a (id ∷ ids) fine = rw fine (rw (resolve_all-map k a ids fine) refl)

resolve_waiting-some :
    (w : World) (key : Key) (a : Bool) (d : Daemon) (ids : List ℕ)
    → lookup key d.pending_upcalls ≡ some ids
    → resolve_waiting w key a d
      ≡ on_kern
          (resolve_all w.kernel a ids)
          (record d { pending_upcalls = remove key d.pending_upcalls })
unfolding resolve_waiting
resolve_waiting-some w key a d ids e = rw (e, resolve_waiting) refl

on_kern-opened :
    (k : Kernel) (a : Bool) (ids : List ℕ) (o : Option KernAttr) (d : Daemon)
    → o ≡ some opened
    → ((io : Ioctl) → k.control io ≡ none)
    → (with_handle (resolve_all k a ids) o d).1 ≡ map ioctl (map (λ id. resolve_call id a) ids)
unfolding with_handle
on_kern-opened k a ids none d e fine = absurd (ground (arith, e))
on_kern-opened k a ids (some h) d e fine =
    ap (λ x. map ioctl (resolve_all k a ids x).1) (ap (λ o. unwrap_or o opened) e)
    ∙ ap (λ r. map ioctl r.1) (resolve_all-map k a ids fine)

-- What is open after a step: the waiting upcalls and the questions.
abbrev Leaves : List (Key × List ℕ) → List Key → Daemon → Type 0
Leaves pending asking d = (d.pending_upcalls ≡ pending) × (d.asking ≡ asking)

with_handle-Leaves :
    (f : KernAttr → KernAttr × List Ioctl) (k : Option KernAttr) (d : Daemon)
    → Leaves d.pending_upcalls d.asking (with_handle f k d).0
unfolding with_handle
with_handle-Leaves f none d = (refl, refl)
with_handle-Leaves f (some h) d = (refl, refl)

module _ ⦃u : Unicode⦄ where
  re_pin-Leaves :
      (w : World) (exe : Option Str) (a : Bool) (d : Daemon)
      → Leaves d.pending_upcalls d.asking (re_pin w exe a d).0
  unfolding re_pin pin
  re_pin-Leaves w none a d = (refl, refl)
  re_pin-Leaves w (some e) false d = (refl, refl)
  re_pin-Leaves w (some e) true d =
      on_option {C = Daemon × File} (λ r. Leaves d.pending_upcalls d.asking r.0)
        (hash d.ident e (w.metadata e) (w.sha256 e)).0 _ _ (refl, refl) (λ h. (refl, refl))

  write_rule-ioctls :
      (w : World) (ans : Answer) (p : Pending) (r : Daemon × File) (es : List Effect)
      (ios : List Ioctl)
      → es ≡ map ioctl ios
      → ioctls (es ++ (write_rule w ans p r).1) ≡ ios
  unfolding write_rule
  write_rule-ioctls w ans p (d, file) es ios e = rw e (ioctls-map ios _)

  -- An answer reaches every upcall that waits under its key, which is the binary and the destination
  -- without its port: on an open device whose calls succeed, each id that waits there is resolved, in
  -- the order in which they came, as allowed after an approval and as denied after any other answer,
  -- "timeout" included, and nothing else is asked of the kernel; then none waits under the key any
  -- more, and the question is closed.
  pub handle_answer-resolves :
      (w : World) (ans : Answer) (p : Pending) (d : Daemon) (ids : List ℕ)
      → d.kern ≡ some opened
      → ((io : Ioctl) → w.kernel.control io ≡ none)
      → lookup (key_of p) d.pending_upcalls ≡ some ids
      → (ioctls (handle_answer w ans p d).1 ≡ map (λ id. resolve_call id (allows ans)) ids)
        × (lookup (key_of p) (handle_answer w ans p d).0.pending_upcalls ≡ none)
        × (contains (key_of p) (handle_answer w ans p d).0.asking ≡ false)
  unfolding handle_answer write_rule on_kern
  handle_answer-resolves w ans p d ids k fine e =
      let key = key_of p in
      let d1 : Daemon = record d { asking = discard key d.asking } in
      let d2 : Daemon = record d1 { pending_upcalls = remove key d.pending_upcalls } in
      let o = resolve_waiting w key (allows ans) d1 in
      let is : o ≡ on_kern (resolve_all w.kernel (allows ans) ids) d2 =
        resolve_waiting-some w key (allows ans) d1 ids e in
      let (q, r) = with_handle-Leaves (resolve_all w.kernel (allows ans) ids) d2.kern d2 in
      let (q', r') = re_pin-Leaves w p.exe (allows ans) o.0 in
      (
        write_rule-ioctls w ans p (re_pin w p.exe (allows ans) o.0) o.1 _
            (ap (λ x. x.1) is ∙ on_kern-opened w.kernel (allows ans) ids d2.kern d2 k fine),
        ap (λ m. lookup key m) (q' ∙ ap (λ x. x.0.pending_upcalls) is ∙ q)
            ∙ lookup-remove key key d.pending_upcalls
            ∙ rw (eq_self key) refl,
        ap (λ s. contains key s) (r' ∙ ap (λ x. x.0.asking) is ∙ r)
            ∙ contains-discard key key d.asking
            ∙ rw (eq_self key) refl,
      )
