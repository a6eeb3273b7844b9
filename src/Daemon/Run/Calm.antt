-- ===== src/Daemon/Run/Calm.antt =====
-- src/kernattr.rs: the calls of the device that ask nothing about the upcall.
use pfsnitch.Addr.{IpAddr}
use pfsnitch.Base.{
  on_bool, on_option, ℕ, Bool, true, false, List, [], ◌∷◌, ◌++◌, map, Option, none, some, ◌≡◌, refl,
  ◌∙◌, ap, ◌==◌, nat_eq,
}
use pfsnitch.Daemon.Answers.{resolve_all}
use pfsnitch.Daemon.Run.Quiet.{IsCalm}
use pfsnitch.Daemon.Run.{asked_upcall, after_call}
use pfsnitch.Daemon.{ioctl}
use pfsnitch.Kernattr.Calls.{
  note_errno, issue, unless_dead, set_upcall, send_verdict, push_request, push_verdict,
  flush_verdicts, resolve, resolve_call, query, attr_request,
}
use pfsnitch.Kernattr.{
  Errno, enotty, enxio, ebadf, enodev, other_errno, Ioctl, KernAttr, Kernel, PfsnitchAttr,
  PfsnitchVerdict, Queried, failed, answered, upcall_set_cmd, verdict_push_cmd, verdict_flush_cmd,
  resolve_cmd, attr_query_cmd, ioc, size_of, size_from, verdict_layout, resolve_layout, verdict_arg,
}
use pfsnitch.Procinfo.{Tuple, Attribution}
use pfsnitch.Text.{Str, Unicode}

note_errno-dead : (e : Errno) (h : KernAttr) → h.dead ≡ true → (note_errno e h).dead ≡ true
unfolding note_errno
note_errno-dead other_errno h d = d
note_errno-dead enotty h d = refl
note_errno-dead enxio h d = refl
note_errno-dead ebadf h d = refl
note_errno-dead enodev h d = refl

issue-dead : (k : Kernel) (io : Ioctl) (h : KernAttr) → h.dead ≡ true → (issue k io h).0.dead ≡ true
unfolding issue
issue-dead k io h d =
    on_option (λ (x : KernAttr). x.dead ≡ true) (k.control io) _ _ d (λ e. note_errno-dead e h d)

pub set_upcall-dead :
    (k : Kernel) (on : Bool) (h : KernAttr) → h.dead ≡ true → (set_upcall k on h).0.dead ≡ true
unfolding set_upcall unless_dead
set_upcall-dead k on h d =
    on_bool {C = KernAttr × List Ioctl} (λ r. r.0.dead ≡ true) h.dead _ _ d (issue-dead k _ h d)

after_call-other :
    (b : Bool) (io : Ioctl) → (io.cmd == upcall_set_cmd) ≡ false → after_call b io ≡ b
after_call-other b io other = rw other refl

-- Any call but that of the upcall.
unless_dead-IsCalm :
    (k : Kernel) (io : Ioctl) → (io.cmd == upcall_set_cmd) ≡ false → IsCalm (unless_dead k io)
unfolding unless_dead issue asked_upcall
unless_dead-IsCalm k io other = record {
  asks_nothing = λ h b.
      on_bool {C = KernAttr × List Ioctl} (λ r. asked_upcall b (map ioctl r.1) ≡ b) h.dead _ _ refl
        (after_call-other b io other);
  stays_dead = λ h d.
      on_bool {C = KernAttr × List Ioctl} (λ r. r.0.dead ≡ true) h.dead _ _ d (issue-dead k io h d);
}

pub flush_verdicts-IsCalm : (k : Kernel) → IsCalm (flush_verdicts k)
unfolding flush_verdicts
flush_verdicts-IsCalm k =
    unless_dead-IsCalm k _ (unfold upcall_set_cmd verdict_flush_cmd ioc in refl)

pub resolve-IsCalm : (k : Kernel) (id : ℕ) (a : Bool) → IsCalm (resolve k id a)
unfolding resolve resolve_call
resolve-IsCalm k id a =
    unless_dead-IsCalm k _
      (unfold upcall_set_cmd resolve_cmd ioc size_of size_from resolve_layout in refl)

push_call-other :
    (v : PfsnitchVerdict)
    → (Ioctl.cmd (record { cmd = verdict_push_cmd; arg = verdict_arg v }) == upcall_set_cmd) ≡ false
unfolding upcall_set_cmd verdict_push_cmd ioc size_of size_from verdict_layout
push_call-other v = refl

send_verdict-IsCalm : (k : Kernel) (v : Option PfsnitchVerdict) → IsCalm (send_verdict k v)
unfolding send_verdict asked_upcall
send_verdict-IsCalm k none = record { asks_nothing = λ h b. refl; stays_dead = λ h d. d }
send_verdict-IsCalm k (some v) =
    let c =
      unless_dead-IsCalm k (record { cmd = verdict_push_cmd; arg = verdict_arg v })
        (push_call-other v) in
    record { asks_nothing = c.asks_nothing; stays_dead = c.stays_dead }

pub push_verdict-IsCalm :
    (k : Kernel) (proto : ℕ) (dst : IpAddr) (dport : ℕ) (path : Str) (a : Bool)
    → IsCalm (push_verdict k proto dst dport path a)
unfolding push_verdict
push_verdict-IsCalm k proto dst dport path a =
    let c = send_verdict-IsCalm k (push_request proto dst dport path a) in
    record { asks_nothing = c.asks_nothing; stays_dead = c.stays_dead }

calls-append :
    (b : Bool) (xs ys : List Ioctl)
    → asked_upcall b (map ioctl (xs ++ ys))
      ≡ asked_upcall (asked_upcall b (map ioctl xs)) (map ioctl ys)
unfolding asked_upcall
calls-append b [] ys = refl
calls-append b (x ∷ xs) ys = calls-append (after_call b x) xs ys

pub resolve_all-IsCalm : (k : Kernel) (a : Bool) (ids : List ℕ) → IsCalm (resolve_all k a ids)
unfolding resolve_all asked_upcall
resolve_all-IsCalm k a [] = record { asks_nothing = λ h b. refl; stays_dead = λ h d. d }
resolve_all-IsCalm k a (id ∷ ids) =
    let c = resolve-IsCalm k id a in
    let cs = resolve_all-IsCalm k a ids in
    record {
      asks_nothing = λ h b.
          let h1 = (resolve k id a h).0 in
          calls-append b (resolve k id a h).1 (resolve_all k a ids h1).1
          ∙ ap (λ x. asked_upcall x (map ioctl (resolve_all k a ids h1).1)) (c.asks_nothing h b)
          ∙ cs.asks_nothing h1 b;
      stays_dead = λ h d. cs.stays_dead (resolve k id a h).0 (c.stays_dead h d);
    }

on_queried {ℓ κ} :
    {C : Type ℓ} (P : C → Type κ) (r : Queried) (f : Errno → C) (g : PfsnitchAttr → C)
    → ((e : Errno) → P (f e))
    → ((q : PfsnitchAttr) → P (g q))
    → P (elim r [ failed e ↦ f e | answered q ↦ g q ])
on_queried P (failed e) f g p q = p e
on_queried P (answered x) f g p q = q x

pub query-dead :
    ⦃u : Unicode⦄ (k : Kernel) (t : Tuple) (h : KernAttr)
    → h.dead ≡ true
    → (query k t h).1.dead ≡ true
unfolding query
query-dead k t h d =
    on_option {C = Option Attribution × KernAttr} (λ r. r.1.dead ≡ true) (attr_request t) _ _ d
      (λ q.
        on_queried {C = Option Attribution × KernAttr} (λ r. r.1.dead ≡ true)
          (k.query_ioctl attr_query_cmd q) _ _ (λ e. note_errno-dead e h d) (λ q'. d))
