-- ===== src/Daemon/Run/Channels.antt =====
-- src/main.rs: answers, upcalls and the packet of a round are quiet.
use pfsnitch.Base.{
  on_bool, on_lookup, on_option, on_test, ℕ, Bool, true, false, List, [], ◌∷◌, Option, none, some,
  ◌≡◌, refl, arith, lookup, put, remove, is_some, discard, contains, contains-discard,
  lookup-remove, lookup-put, PartialEq, eq_self, nat_eq, list_eq, pair_eq, option_eq,
}
use pfsnitch.Daemon.Answers.{
  allows, resolve_all, resolve_waiting, pin, re_pin, write_rule, handle_answer,
}
use pfsnitch.Daemon.Run.Calm.{resolve-IsCalm, resolve_all-IsCalm}
use pfsnitch.Daemon.Run.Handlers.{handle_packet-Quiet}
use pfsnitch.Daemon.Run.Quiet.{
  Quiet, Quiet-refl, Quiet-same, Quiet-then, Quiet-after, on_kern-Quiet, raise_prompt-Quiet,
  check_binary-Quiet,
}
use pfsnitch.Daemon.Run.{udp_diverted, asked_upcall, IsAsked, drain_answers, drain_events, receive}
use pfsnitch.Daemon.Upcall.{answer_event, decide_event, handle_event, wait_for, event_question}
use pfsnitch.Daemon.{
  World, Pending, Daemon, Outcome, raise_prompt, key_of, pending_of, Key, Question,
}
use pfsnitch.Identity.{hash}
use pfsnitch.Kernattr.{KernEvent}
use pfsnitch.Policy.Load.{File}
use pfsnitch.Policy.{Answer, Verdict, allow, deny, ask}
use pfsnitch.Text.{Str, is_empty, Unicode}

module _ {ℓ κ} {K : Type ℓ} {V : Type κ} ⦃e : PartialEq K⦄ (key k : K) (m : List (K × V))
    (s : List K) where
  discard-asked :
      lookup key m ≡ none
      → is_some (lookup k m) ≡ true
      → contains k s ≡ true
      → contains k (discard key s) ≡ true
  discard-asked h l c = ground (arith, e.same_iff key k, contains-discard key k s)

  remove-asked :
      (is_some (lookup k m) ≡ true → contains k s ≡ true)
      → is_some (lookup k (remove key m)) ≡ true
      → contains k (discard key s) ≡ true
  remove-asked c l = ground (arith, contains-discard key k s, lookup-remove key k m, c)

  put-asked :
      (v : V)
      → contains key s ≡ true
      → (is_some (lookup k m) ≡ true → contains k s ≡ true)
      → is_some (lookup k (put key v m)) ≡ true
      → contains k s ≡ true
  put-asked v q c l = ground (arith, e.same_iff key k, lookup-put key k v m, q, c)

contains_self : (k : Key) (s : List Key) → contains k (k ∷ s) ≡ true
unfolding contains
contains_self k s = rw (eq_self k) refl

-- A change to the open questions and the waiting upcalls that keeps the upcalls asked.
Quiet-asked :
    (d : Daemon) (pending : List (Key × List ℕ)) (asking : List Key)
    → (IsAsked d → IsAsked (record d { pending_upcalls = pending; asking = asking }))
    → Quiet d (record d { pending_upcalls = pending; asking = asking }, [])
unfolding udp_diverted asked_upcall
Quiet-asked d pending asking a = record {
  hushed = record {
    same_mode = refl;
    same_upcall = refl;
    same_kern = refl;
    no_divert = λ b. refl;
    keeps = λ c. c;
    waits = a;
  };
  same_asked = λ b. refl;
  sticks = λ h. h;
}

-- The question is closed, and the upcalls that waited for it go with it.
resolve_waiting-Quiet :
    (w : World) (key : Key) (a : Bool) (d : Daemon)
    → Quiet d (resolve_waiting w key a (record d { asking = discard key d.asking }))
unfolding resolve_waiting
resolve_waiting-Quiet w key a d =
    on_lookup (Quiet d) (lookup key d.pending_upcalls) _ _
      (λ e.
        Quiet-asked d d.pending_upcalls (discard key d.asking)
          (λ h k l. discard-asked key k d.pending_upcalls d.asking e l (h k l)))
      (λ ids e.
        let d' : Daemon = record d {
          pending_upcalls = remove key d.pending_upcalls;
          asking = discard key d.asking;
        } in
        Quiet-after d d' _
          (Quiet-asked d (remove key d.pending_upcalls) (discard key d.asking)
            (λ h k. remove-asked key k d.pending_upcalls d.asking (h k)))
          (on_kern-Quiet (resolve_all w.kernel a ids) d' (resolve_all-IsCalm w.kernel a ids)))

module _ ⦃u : Unicode⦄ where
  pin-Quiet : (w : World) (e : Str) (file : File) (d : Daemon) → Quiet d ((pin w e file d).0, [])
  unfolding pin udp_diverted asked_upcall
  pin-Quiet w e file d =
      on_option {C = Daemon × File} (λ r. Quiet d (r.0, []))
        (hash d.ident e (w.metadata e) (w.sha256 e)).0 _ _
        (Quiet-same d _ _ refl refl refl refl refl refl (λ b. (refl, refl)))
        (λ h. Quiet-same d _ _ refl refl refl refl refl refl (λ b. (refl, refl)))

  re_pin-Quiet :
      (w : World) (exe : Option Str) (a : Bool) (d : Daemon) → Quiet d ((re_pin w exe a d).0, [])
  unfolding re_pin
  re_pin-Quiet w (some e) true d = pin-Quiet w e w.file d
  re_pin-Quiet w (some e) false d = Quiet-refl d
  re_pin-Quiet w none a d = Quiet-refl d

  write_rule-Quiet :
      (w : World) (ans : Answer) (p : Pending) (r : Daemon × File)
      → Quiet r.0 (write_rule w ans p r)
  unfolding write_rule udp_diverted asked_upcall
  write_rule-Quiet w ans p (d, file) =
      Quiet-same d _ _ refl refl refl refl refl refl (λ b. (refl, refl))

  handle_answer-Quiet :
      (w : World) (ans : Answer) (p : Pending) (d : Daemon) → Quiet d (handle_answer w ans p d)
  unfolding handle_answer udp_diverted asked_upcall
  handle_answer-Quiet w ans p d =
      let o1 =
        resolve_waiting w (key_of p) (allows ans)
          (record d { asking = discard (key_of p) d.asking }) in
      Quiet-then d o1 (λ d'. write_rule w ans p (re_pin w p.exe (allows ans) d'))
        (resolve_waiting-Quiet w (key_of p) (allows ans) d)
        (Quiet-after _ _ _ (re_pin-Quiet w p.exe (allows ans) o1.0) (write_rule-Quiet w ans p _))

  wait_for-Quiet :
      (key : Key) (id : ℕ) (d : Daemon) → contains key d.asking ≡ true → Quiet d (wait_for key id d)
  unfolding wait_for
  wait_for-Quiet key id d c =
      Quiet-asked d _ d.asking (λ h k. put-asked key k d.pending_upcalls d.asking _ c (h k))

  raise_prompt-asking :
      (q : Question) (d : Daemon)
      → contains (key_of (pending_of q)) (raise_prompt q d).0.asking ≡ true
  unfolding raise_prompt
  raise_prompt-asking q d =
      on_test {C = Outcome} (λ o. contains (key_of (pending_of q)) o.0.asking ≡ true)
        (contains (key_of (pending_of q)) d.asking) _ _ (λ h. h)
        (λ h. contains_self (key_of (pending_of q)) d.asking)

  answer_event-Quiet :
      (w : World) (ev : KernEvent) (c : Bool) (v : Verdict) (d : Daemon)
      → Quiet d (answer_event w ev c v d)
  unfolding answer_event
  answer_event-Quiet w ev c allow d = on_kern-Quiet _ d (resolve-IsCalm w.kernel ev.id true)
  answer_event-Quiet w ev c deny d = on_kern-Quiet _ d (resolve-IsCalm w.kernel ev.id false)
  answer_event-Quiet w ev c ask d =
      let q = event_question ev c d in
      Quiet-then d _ (wait_for (key_of (pending_of q)) ev.id) (raise_prompt-Quiet q d)
        (wait_for-Quiet _ ev.id _ (raise_prompt-asking q d))

  handle_event-Quiet : (w : World) (ev : KernEvent) (d : Daemon) → Quiet d (handle_event w ev d)
  unfolding handle_event decide_event
  handle_event-Quiet w ev d =
      on_bool (Quiet d) (is_empty ev.path) _ _
        (on_kern-Quiet _ d (resolve-IsCalm w.kernel ev.id true))
        (Quiet-after d _ _ (check_binary-Quiet w ev.path d) (answer_event-Quiet w ev _ _ _))

  pub drain_answers-Quiet :
      (as' : List (World × Answer × Pending)) (d : Daemon) → Quiet d (drain_answers as' d)
  unfolding drain_answers
  drain_answers-Quiet [] d = Quiet-refl d
  drain_answers-Quiet ((w, ans, p) ∷ rest) d =
      Quiet-then d _ (drain_answers rest) (handle_answer-Quiet w ans p d)
        (drain_answers-Quiet rest _)

  pub drain_events-Quiet :
      (es : List (World × KernEvent)) (d : Daemon) → Quiet d (drain_events es d)
  unfolding drain_events
  drain_events-Quiet [] d = Quiet-refl d
  drain_events-Quiet ((w, ev) ∷ rest) d =
      Quiet-then d _ (drain_events rest) (handle_event-Quiet w ev d) (drain_events-Quiet rest _)

  pub receive-Quiet : (p : Option (World × List ℕ × ℕ)) (d : Daemon) → Quiet d (receive p d)
  unfolding receive
  receive-Quiet none d = Quiet-refl d
  receive-Quiet (some (w, pkt, from)) d = handle_packet-Quiet w pkt from d
