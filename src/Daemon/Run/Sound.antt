-- ===== src/Daemon/Run/Sound.antt =====
-- src/main.rs: what holds of the daemon and of all it has done, after every round.
use pfsnitch.Daemon.Run.Governs.{
  Governs, IsBacked, Quiet-Governs, Governs-then, Governs-same, kern_backend-NoDivert,
  check_kern-Governs, switch_backend-Governs, no_verdicts-IsCache, forget_verdicts-Governs,
  reconcile-Governs, Quiet-IsBacked, reconcile-IsBacked, flush_seen-Quiet, clear_log-Quiet,
  no_waiting,
}
use pfsnitch.Base.{
  on_bool, ◌-◌, Bool, true, false, not, List, [], ◌∷◌, ◌++◌, ◌≡◌, refl, sym, ◌∙◌, ap, if◌then◌else◌,
  ◌==◌, leb, nat_eq, list_eq, pair_eq, option_eq,
}
use pfsnitch.Daemon.Run.Channels.{drain_answers-Quiet, drain_events-Quiet, receive-Quiet}
use pfsnitch.Daemon.Run.Quiet.{
  Hushed, Hushed-then, on_kern-Hushed, Quiet, Quiet-refl, Quiet-then, udp_diverted-append,
  asked_upcall-append,
}
use pfsnitch.Daemon.Run.Requested.{
  Asks, Asks-then, Asks-same, Quiet-Asks, check_kern-Asks, switch_backend-Asks,
  forget_verdicts-Asks, reconcile-Asks,
}
use mathlib.Core.Bool.{true≢false}
use pfsnitch.Daemon.Run.{
  udp_diverted, asked_upcall, IsSound, Round, Reach, started, next, round, drain_answers,
  drain_events, receive,
}
use pfsnitch.Daemon.Tick.{
  flush_seen, clear_log, check_kern, switch_backend, forget_verdicts, reconcile, want_upcall,
  reloaded, reload, check_policy, tick, periodic, start, check_interval, shutdown, restore_divert,
  check_interval,
}
use pfsnitch.Daemon.{World, Daemon, Outcome, ◌▸◌, Effect, on_kern, same_backend, set_udp_divert}
use pfsnitch.Kernattr.Calls.{set_upcall, flush_verdicts}
use pfsnitch.Policy.{Mode, attribution_of}
use pfsnitch.Text.{Unicode}

-- What a shutdown does leaves UDP diverted.
shutdown-diverted :
    (w : World) (d : Daemon) → udp_diverted (not d.upcall_on) (shutdown w d).1 ≡ true
unfolding shutdown restore_divert udp_diverted
shutdown-diverted w d =
    let o = on_kern (set_upcall w.kernel false) d ▸ on_kern (flush_verdicts w.kernel) in
    let q : Hushed d o =
      Hushed-then d (on_kern (set_upcall w.kernel false) d) (on_kern (flush_verdicts w.kernel))
        (on_kern-Hushed _ d) (on_kern-Hushed _ _) in
    udp_diverted-append (not d.upcall_on) o.1 (restore_divert o.0).1
    ∙ ap (λ b. udp_diverted b (restore_divert o.0).1)
        (q.no_divert (not d.upcall_on) ∙ ap (λ b. not b) (sym q.same_upcall))
    ∙ restored o.0.upcall_on
  where
    restored : (b : Bool) → udp_diverted (not b) (if b then set_udp_divert true ∷ [] else []) ≡ true
    restored true = refl
    restored false = refl

module _ ⦃u : Unicode⦄ where
  reload-Governs : (w : World) (d : Daemon) → Governs d (reload w d)
  unfolding reload reloaded udp_diverted
  reload-Governs w d =
      let d' = reloaded w d in
      Governs-then d
        (if same_backend (attribution_of d'.pol) (attribution_of d.pol)
          then (d', [])
          else switch_backend w d')
        (forget_verdicts w)
        (on_bool (Governs d) (same_backend (attribution_of d'.pol) (attribution_of d.pol)) _ _
          (Governs-same d d' _ refl refl (λ h. h) (λ b. refl))
          (Governs-then d (d', []) (switch_backend w)
            (Governs-same d d' _ refl refl (λ h. h) (λ b. refl)) (switch_backend-Governs w d')))
        (forget_verdicts-Governs w _)

  check_policy-Governs : (w : World) (d : Daemon) → Governs d (check_policy w d)
  unfolding check_policy udp_diverted
  check_policy-Governs w d =
      on_bool (Governs d) (w.mtime == d.pol_mtime) _ _ (Quiet-Governs d _ (Quiet-refl d))
        (reload-Governs w d)

  reload-Asks : (w : World) (d : Daemon) → Asks d (reload w d)
  unfolding reload reloaded
  reload-Asks w d =
      let d' = reloaded w d in
      let same = same_backend (attribution_of d'.pol) (attribution_of d.pol) in
      Asks-then d (if same then (d', []) else switch_backend w d') (forget_verdicts w)
        (on_bool (Asks d) same _ _ (Asks-same d d' refl refl) (
          Asks-then d (d', []) (switch_backend w) (Asks-same d d' refl refl)
            (switch_backend-Asks w d')))
        (forget_verdicts-Asks w _)

  check_policy-Asks : (w : World) (d : Daemon) → Asks d (check_policy w d)
  unfolding check_policy
  check_policy-Asks w d =
      on_bool (Asks d) (w.mtime == d.pol_mtime) _ _ (Asks-same d d refl refl) (reload-Asks w d)

  -- A step that governs the divert, keeps the upcall backed and asks the kernel for what it needs.
  record IsGood (d : Daemon) (o : Outcome) : Type 0 where
    governs : Governs d o
    keeps_backed : IsBacked d → IsBacked o.0
    asks : IsBacked d → Asks d o

  Quiet-IsGood : (d : Daemon) (o : Outcome) → Quiet d o → IsGood d o
  Quiet-IsGood d o q = record {
    governs = Quiet-Governs d o q;
    keeps_backed = Quiet-IsBacked d o q;
    asks = λ h. Quiet-Asks d o q;
  }

  tick-IsGood : (w : World) (d : Daemon) → IsGood d (tick w d)
  unfolding tick udp_diverted want_upcall
  tick-IsGood w d =
      let d1 : Daemon = record d { last_check = w.instant } in
      let o2 = check_kern w d1 ▸ check_policy w in
      on_bool (IsGood d) (leb check_interval (w.instant - d.last_check)) _ _
        (record {
          governs =
              Governs-then d o2 (reconcile w)
                (Governs-then d (check_kern w d1) (check_policy w)
                  (Governs-then d (d1, []) (check_kern w)
                    (Governs-same d d1 _ refl refl (λ h. h) (λ b. refl)) (check_kern-Governs w d1))
                  (check_policy-Governs w _))
                (reconcile-Governs w _);
          keeps_backed = λ h. reconcile-IsBacked w _;
          asks = λ h.
              Asks-then d o2 (reconcile w)
                (Asks-then d (check_kern w d1) (check_policy w)
                  (Asks-then d (d1, []) (check_kern w) (Asks-same d d1 refl refl)
                    (check_kern-Asks w d1 h))
                  (check_policy-Asks w _))
                (reconcile-Asks w _);
        })
        (Quiet-IsGood d _ (Quiet-refl d))

  IsGood-then :
      (d : Daemon) (o : Outcome) (f : Daemon → Outcome)
      → IsGood d o
      → IsGood o.0 (f o.0)
      → IsGood d (o ▸ f)
  IsGood-then d o f p q = record {
    governs = Governs-then d o f p.governs q.governs;
    keeps_backed = λ h. q.keeps_backed (p.keeps_backed h);
    asks = λ h. Asks-then d o f (p.asks h) (q.asks (p.keeps_backed h));
  }

  periodic-IsGood : (w : World) (d : Daemon) → IsGood d (periodic w d)
  unfolding periodic
  periodic-IsGood w d =
      let o = flush_seen w d ▸ clear_log w in
      let q : Quiet d o =
        Quiet-then d (flush_seen w d) (clear_log w) (flush_seen-Quiet w d) (clear_log-Quiet w _) in
      IsGood-then d o (tick w) (Quiet-IsGood d o q) (tick-IsGood w o.0)

  round-IsGood : (r : Round) (d : Daemon) → IsGood d (round r d)
  unfolding round
  round-IsGood r d =
      let o1 = drain_answers r.replies d in
      let o2 = o1 ▸ drain_events r.events in
      let o3 = o2 ▸ periodic r.idle in
      IsGood-then d o3 (receive r.packet)
        (IsGood-then d o2 (periodic r.idle)
          (IsGood-then d o1 (drain_events r.events)
            (Quiet-IsGood d _ (drain_answers-Quiet r.replies d))
            (Quiet-IsGood _ _ (drain_events-Quiet r.events _)))
          (periodic-IsGood r.idle _))
        (Quiet-IsGood _ _ (receive-Quiet r.packet _))

  start-IsSound : (w : World) (m : Mode) → IsSound (start w m).0 (start w m).1
  unfolding start
  start-IsSound w m = record {
    governed = kern_backend-NoDivert w _ true;
    requested = λ up. absurd (true≢false (sym up));
    backed = refl;
    cache = no_verdicts-IsCache;
    asked = λ k l. absurd (no_waiting k l);
  }

  rounds-IsSound :
      (w : World) (m : Mode) (d : Daemon) (es : List Effect) → Reach w m d es → IsSound d es
  rounds-IsSound w m _ _ started = start-IsSound w m
  rounds-IsSound w m _ _ (next {d} {es} reach r) =
      let s = rounds-IsSound w m d es reach in
      let good = round-IsGood r d in
      record {
        governed =
            udp_diverted-append true es (round r d).1
            ∙ (ap (λ x. udp_diverted x (round r d).1) s.governed ∙ good.governs.governed);
        requested = λ up alive.
            asked_upcall-append false es (round r d).1
            ∙ good.asks s.backed (asked_upcall false es) s.requested up alive;
        backed = good.keeps_backed s.backed;
        cache = good.governs.keeps s.cache;
        asked = good.governs.waits s.asked;
      }

  -- After every round that the daemon makes from its start, whatever it meets, and by its own flag
  -- `upcall_on`: UDP is diverted exactly while the flag is off, by all that was asked of pf on the way,
  -- where it was diverted at the start; while the flag is on and the device has not been found dead,
  -- the last that the kernel was asked about its upcall is to have it on, whether or not it did so;
  -- the flag is on only while the daemon holds a device and is in enforcement. The cache of verdicts
  -- holds settled verdicts only, at most 16,385 of them; every upcall that waits, waits for a question
  -- that is open; and by what a shutdown from there asks of pf, UDP is left diverted.
  pub Reach-IsSound :
      (w : World) (m : Mode) (d : Daemon) (es : List Effect) (w' : World)
      → Reach w m d es
      → IsSound d es × (udp_diverted true (es ++ (shutdown w' d).1) ≡ true)
  Reach-IsSound w m d es w' reach =
      let s = rounds-IsSound w m d es reach in
      (
        s,
        udp_diverted-append true es (shutdown w' d).1
            ∙ ap (λ b. udp_diverted b (shutdown w' d).1) s.governed
            ∙ shutdown-diverted w' d,
      )
