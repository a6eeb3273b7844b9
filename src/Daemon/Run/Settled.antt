-- ===== src/Daemon/Run/Settled.antt =====
-- src/main.rs: the cache of verdicts stays well formed when a verdict is settled.
use pfsnitch.Base.{
  ◌≤◌, suc, Bool, false, List, [], ◌∷◌, ◌≡◌, refl, arith, any, length, put, nat_eq, list_eq,
  pair_eq,
}
use pfsnitch.Daemon.Packet.{room}
use pfsnitch.Daemon.Run.{is_ask, IsCache}
use pfsnitch.Policy.{Verdict}
use pfsnitch.Procinfo.{Tuple, tuple_eq}

-- A settled verdict keeps the cache well formed.
any-put :
    (p : Verdict → Bool) (t : Tuple) (v : Verdict) (c : List (Tuple × Verdict))
    → any (λ e. p e.1) c ≡ false
    → p v ≡ false
    → any (λ e. p e.1) (put t v c) ≡ false
unfolding any put
any-put p t v [] h k = rw k refl
any-put p t v ((s, x) ∷ c) h k = ground (arith, any-put p t v c)

length-put :
    (t : Tuple) (v : Verdict) (c : List (Tuple × Verdict)) → length (put t v c) ≤ suc (length c)
unfolding put
length-put t v [] = omega arith
length-put t v ((s, x) ∷ c) = ground (arith, length-put t v c)

pub room-IsCache :
    (t : Tuple) (v : Verdict) (c : List (Tuple × Verdict))
    → is_ask v ≡ false
    → IsCache c
    → IsCache (put t v (room c))
unfolding room any
room-IsCache t v c k h = record {
  settled = ground (arith, any-put is_ask t v c, any-put is_ask t v [], h.settled, k);
  bounded = ground (arith, length-put t v c, length-put t v [], h.bounded);
}
