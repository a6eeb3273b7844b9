-- ===== src/Daemon/Run.antt =====
-- src/main.rs: the rounds of the loop of `run`, and the states and traces they reach.
pub mod Quiet
pub mod Calm
pub mod Settled
pub mod Handlers
pub mod Channels
pub mod Governs
pub mod Requested
pub mod Sound
pub mod Waiting
use pfsnitch.Base.{
  ℕ, ◌≤◌, suc, Bool, true, false, not, ◌||◌, List, [], ◌∷◌, ◌++◌, Option, none, some, ◌≡◌, any,
  length, lookup, contains, is_some, if◌then◌else◌, ◌==◌, list_eq, pair_eq, nat_eq,
}
use pfsnitch.Daemon.Answers.{handle_answer}
use pfsnitch.Daemon.Packet.{handle_packet, capacity}
use pfsnitch.Daemon.Tick.{periodic, start, want_upcall}
use pfsnitch.Daemon.Upcall.{handle_event}
use pfsnitch.Daemon.{Key, World, Pending, Daemon, Outcome, ◌▸◌, Effect, set_udp_divert, ioctl}
use pfsnitch.Kernattr.{KernEvent, KernAttr, Ioctl, Arg, int_arg, upcall_set_cmd}
use pfsnitch.Policy.{Answer, Mode, Verdict, ask}
use pfsnitch.Procinfo.{Tuple}
use pfsnitch.Text.{Unicode}

-- What one round of the loop meets: the answers and the upcalls that wait in its channels, and a
-- packet unless the socket times out.
pub record Round : Type 0 where
  pub replies : List (World × Answer × Pending)
  pub events : List (World × KernEvent)
  pub idle : World
  pub packet : Option (World × List ℕ × ℕ)

module _ ⦃u : Unicode⦄ where
  unfoldable pub drain_answers : List (World × Answer × Pending) → Daemon → Outcome
  drain_answers [] d = (d, [])
  drain_answers ((w, ans, p) ∷ rest) d = handle_answer w ans p d ▸ drain_answers rest

  unfoldable pub drain_events : List (World × KernEvent) → Daemon → Outcome
  drain_events [] d = (d, [])
  drain_events ((w, ev) ∷ rest) d = handle_event w ev d ▸ drain_events rest

  unfoldable pub receive : Option (World × List ℕ × ℕ) → Daemon → Outcome
  receive none d = (d, [])
  receive (some (w, pkt, from)) d = handle_packet w pkt from d

  unfoldable pub round : Round → Daemon → Outcome
  round r d = drain_answers r.replies d ▸ drain_events r.events ▸ periodic r.idle ▸ receive r.packet

  -- The states that rounds reach from a start, with all that was done to the outside on the way.
  pub data Reach (w : World) (m : Mode) : Daemon → List Effect → Type 0 where
    started : Reach w m (start w m).0 (start w m).1
    next :
        {d : Daemon} {es : List Effect}
        → Reach w m d es
        → (r : Round) → Reach w m (round r d).0 (es ++ (round r d).1)

-- Whether UDP is diverted after a trace.
unfoldable pub udp_diverted : Bool → List Effect → Bool
udp_diverted b [] = b
udp_diverted b (set_udp_divert x ∷ es) = udp_diverted x es
udp_diverted b (_ ∷ es) = udp_diverted b es

-- Whether the upcall has been asked to be on, after a call and what was asked before.
abbrev pub is_on : Bool → Arg → Bool
is_on b (int_arg n) = not (n == 0)
is_on b _ = b

abbrev pub after_call : Bool → Ioctl → Bool
after_call b io = if io.cmd == upcall_set_cmd then is_on b io.arg else b

-- What the kernel was last asked about its upcall, in a trace.
unfoldable pub asked_upcall : Bool → List Effect → Bool
asked_upcall b [] = b
asked_upcall b (ioctl io ∷ es) = asked_upcall (after_call b io) es
asked_upcall b (_ ∷ es) = asked_upcall b es

abbrev pub is_alive : Option KernAttr → Bool
is_alive none = false
is_alive (some h) = not h.dead

unfoldable pub is_ask : Verdict → Bool
is_ask ask = true
is_ask _ = false

-- The cache of verdicts holds no question, and is bounded.
pub record IsCache (c : List (Tuple × Verdict)) : Type 0 where
  pub settled : any (λ e. is_ask e.1) c ≡ false
  pub bounded : length c ≤ suc capacity

-- Every upcall that waits, waits for the answer to a question that is open.
abbrev pub IsAsked : Daemon → Type 0
IsAsked d = (k : Key) → is_some (lookup k d.pending_upcalls) ≡ true → contains k d.asking ≡ true

-- By the flag `upcall_on` of the daemon, UDP is diverted exactly while the upcall is off; while the
-- upcall is on by it and the device alive, the kernel was last asked to have it on; the upcall is on
-- only with an open device and in enforcement; the cache of verdicts is well formed; and waiting
-- upcalls wait for an open question.
pub record IsSound (d : Daemon) (es : List Effect) : Type 0 where
  pub governed : udp_diverted true es ≡ not d.upcall_on
  pub requested : d.upcall_on ≡ true → is_alive d.kern ≡ true → asked_upcall false es ≡ true
  pub backed : (not d.upcall_on || want_upcall d) ≡ true
  pub cache : IsCache d.decided
  pub asked : IsAsked d
