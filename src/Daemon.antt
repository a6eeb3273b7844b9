-- ===== src/Daemon.antt =====
-- src/main.rs: the state of the daemon, what its steps do to the outside, and the helpers that the
-- steps share. What the outside answers during a step is a parameter, `World`.
pub mod Packet
pub mod Answers
pub mod Upcall
pub mod Tick
pub mod Run
pub mod Wire
pub mod Pinned
use pfsnitch.Addr.{IpAddr, show_ip}
use pfsnitch.Base.{
  ℕ, ◌+◌, ◌≤◌, Bool, true, false, not, ◌&&◌, ◌||◌, List, [], ◌∷◌, ◌++◌, map, Option, none, some,
  if◌then◌else◌, ◌==◌, nat_eq, list_eq, pair_eq, contains, insert, put, lookup, unwrap_or, is_some,
  length,
}
use pfsnitch.Dns.Cache.{DnsCache, name_for}
use pfsnitch.Identity.{Metadata, Cache, hash}
use pfsnitch.Kernattr.Calls.{flush_verdicts}
use pfsnitch.Kernattr.{Kernel, KernAttr, Ioctl, opened}
use pfsnitch.Policy.Decide.{decide}
use pfsnitch.Policy.Load.{File}
use pfsnitch.Policy.Record.{expected_id}
use pfsnitch.Policy.{
  Policy, Verdict, allow, deny, ask, Answer, timeout, parse_answer, Mode, AttributionMode, procstat,
  attribution_of,
}
use pfsnitch.Procinfo.Resolver.{Resolver}
use pfsnitch.Procinfo.{Tables, Tuple, Owner}
use pfsnitch.Seen.{Seen, Write}
use pfsnitch.Text.Numbers.{show_u64}
use pfsnitch.Text.{Str, codes, is_empty, Unicode, to_lowercase, from_utf8_lossy}

-- What one step finds outside: the kernel, whether the device can be opened for queries and for
-- reading, the policy file and its time, the files and sha256(1), the sockets, and the clocks in
-- milliseconds and in seconds since 1970.
pub record World : Type 0 where
  pub kernel : Kernel
  pub device : Bool
  pub reader : Bool
  pub file : File
  pub writable : Bool
  pub mtime : Option ℕ
  pub metadata : Str → Option Metadata
  pub sha256 : Str → Option (List ℕ)
  pub scan : Tables
  pub instant : ℕ
  pub unix : ℕ
  pub seen_file : File
  pub seen_write : Write

-- What is being asked about a binary, if one is known, and a destination.
pub record Pending : Type 0 where
  pub host : Option Str
  pub exe : Option Str
  pub dst : IpAddr
  pub dport : ℕ

-- The arguments of `spawn_prompt`.
pub record Question : Type 0 where
  pub id_changed : Bool
  pub exe : Option Str
  pub pid : ℕ
  pub cmd : Str
  pub dst : IpAddr
  pub dport : ℕ
  pub host : Str
  pub scope : Str

-- What a step does to the outside. A packet goes back with the `sin_addr` it came with; a file is
-- what the step leaves of it.
pub data Effect : Type 0 where
  reinject : List ℕ → ℕ → Effect
  reinject_inbound : List ℕ → Effect
  spawn_prompt : Question → Effect
  ioctl : Ioctl → Effect
  set_udp_divert : Bool → Effect
  spawn_reader : Effect
  policy_file : File → Effect
  seen_file : File → Effect
  crash : Effect

-- A binary, or nothing, and what `ask_key` makes of the destination.
abbrev pub Key : Type 0
Key = Str × Str

-- The variables of `run` that change, with the fallback mode. A flow is the tuple of its ends.
pub record Daemon : Type 0 where
  pub fallback_mode : Mode
  pub pol : Policy
  pub mode : Mode
  pub kern : Option KernAttr
  pub pol_mtime : Option ℕ
  pub last_check : ℕ
  pub upcall_on : Bool
  pub pending_upcalls : List (Key × List ℕ)
  pub res : Resolver
  pub ident : Cache
  pub seen : Seen
  pub id_warned : List Str
  pub names : DnsCache
  pub asking : List Key
  pub logged : List Tuple
  pub decided : List (Tuple × Verdict)
  pub logged_cleared : ℕ

abbrev pub Outcome : Type 0
Outcome = Daemon × List Effect

-- A step, then another from the state it leaves.
infixl 4 ◌▸◌
abbrev pub ◌▸◌ : Outcome → (Daemon → Outcome) → Outcome
o ▸ f = ((f o.0).0, o.1 ++ (f o.0).1)

-- `if let Some(k) = kern.as_ref() { … }`
unfoldable pub with_handle : (KernAttr → KernAttr × List Ioctl) → Option KernAttr → Daemon → Outcome
with_handle f none d = (d, [])
with_handle f (some h) d = (record d { kern = some (f h).0 }, map ioctl (f h).1)

unfoldable pub on_kern : (KernAttr → KernAttr × List Ioctl) → Daemon → Outcome
on_kern f d = with_handle f d.kern d

unfoldable pub same_backend : AttributionMode → AttributionMode → Bool
same_backend procstat procstat = true
same_backend AttributionMode.kernel AttributionMode.kernel = true
same_backend _ _ = false

unfoldable pub is_kernel : AttributionMode → Bool
is_kernel procstat = false
is_kernel AttributionMode.kernel = true

-- `KernAttr::open` where the device is there, and the flush that both callers do first.
unfoldable pub open_kern : World → Option KernAttr × List Effect
open_kern w =
    if w.device
    then (some (flush_verdicts w.kernel opened).0, map ioctl (flush_verdicts w.kernel opened).1)
    else (none, [])

unfoldable pub kern_backend : World → Policy → Option KernAttr × List Effect
kern_backend w pol = if is_kernel (attribution_of pol) then open_kern w else (none, [])

-- `spawn_prompt`: the arguments of the program.
unfoldable pub prompt_args : Question → List Str
prompt_args q =
    unwrap_or q.exe (codes "<unknown>")
    ∷ show_u64 q.pid
    ∷ (if is_empty q.cmd then codes "<unknown>" else q.cmd)
    ∷ show_ip q.dst
    ∷ show_u64 q.dport
    ∷ (if is_empty q.host then codes "-" else q.host)
    ∷ (if q.id_changed then codes "changed" else codes "ok")
    ∷ q.scope
    ∷ []

-- `if host.is_empty() { None } else { Some(host) }`
unfoldable pub some_host : Str → Option Str
some_host h = if is_empty h then none else some h

unfoldable pub pending_of : Question → Pending
pending_of q = record { host = some_host q.host; exe = q.exe; dst = q.dst; dport = q.dport }

module _ ⦃u : Unicode⦄ where
  unfoldable pub ask_key : Option Str → IpAddr → Str
  ask_key none dst = show_ip dst
  ask_key (some h) dst =
      if not (is_empty h) && not (h == codes "-") then to_lowercase h else show_ip dst

  -- The answer of the program, from what it printed if it could be run.
  unfoldable pub answer_of : Option (List ℕ) → Answer
  answer_of none = timeout
  answer_of (some out) = unwrap_or (parse_answer (from_utf8_lossy out)) timeout

  unfoldable pub key_of : Pending → Key
  key_of p = (unwrap_or p.exe [], ask_key p.host p.dst)

  -- `if asking.insert(key) { spawn_prompt(…) }`
  unfoldable pub raise_prompt : Question → Daemon → Outcome
  raise_prompt q d =
      let key = key_of (pending_of q) in
      if contains key d.asking
      then (d, [])
      else (record d { asking = key ∷ d.asking }, spawn_prompt q ∷ [])

  -- Whether the binary at a path is not the one that was approved, with the hash that is cached.
  unfoldable pub changed_from : World → Str → Str → Daemon → Bool × Daemon
  changed_from w exe expected d =
      let (actual, c) = hash d.ident exe (w.metadata exe) (w.sha256 exe) in
      let d' = record d { ident = c } in
      elim actual [
        | none ↦ (false, d')
        | some h ↦
            if h == expected
            then (false, d')
            else (true, record d' { id_warned = insert exe d.id_warned })
      ]

  unfoldable pub check_binary : World → Str → Daemon → Bool × Daemon
  check_binary w exe d = elim (expected_id d.pol exe) [
    | none ↦ (false, d)
    | some expected ↦ changed_from w exe expected d
  ]

  -- The verdict on a destination, where rules of a changed binary do not count.
  unfoldable pub verdict_on : Daemon → Bool → Option Str → IpAddr → ℕ → Verdict
  verdict_on d changed exe dst dport =
      if changed then ask else decide d.pol exe dst (name_for d.names dst) dport
