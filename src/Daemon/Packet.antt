-- ===== src/Daemon/Packet.antt =====
-- src/main.rs: what `run` does with a packet.
use pfsnitch.Addr.{IpAddr, show_ip, addr_eq}
use pfsnitch.Base.{
  ℕ, ◌/◌, Bool, true, false, not, ◌&&◌, ◌||◌, List, [], ◌∷◌, ◌++◌, Option, none, some,
  if◌then◌else◌, ◌==◌, nat_eq, list_eq, pair_eq, insert, put, lookup, unwrap_or, length, ltb, drop,
}
use pfsnitch.Daemon.{
  World, Effect, reinject, reinject_inbound, policy_file, crash, Daemon, Outcome, ◌▸◌, on_kern,
  raise_prompt, check_binary, verdict_on,
}
use pfsnitch.Divert.Rst.{tcp_rst}
use pfsnitch.Divert.{Flow, parse, payload_offset, ok, refused, panic}
use pfsnitch.Dns.Cache.{name_for, observe}
use pfsnitch.Kernattr.Calls.{query, push_verdict}
use pfsnitch.Kernattr.{KernAttr}
use pfsnitch.Policy.Record.{record_decision}
use pfsnitch.Policy.{Verdict, allow, deny, ask, allow_conn, Mode, enforcing, learned}
use pfsnitch.Procinfo.Resolver.{resolve}
use pfsnitch.Procinfo.{Tuple, tuple_eq, Attribution, show_confidence}
use pfsnitch.Seen.{touch}
use pfsnitch.Text.{Str, codes, Unicode}

unfoldable pub flow_of : Flow → Tuple
flow_of f = record { proto = f.proto; src = f.src; sport = f.sport; dst = f.dst; dport = f.dport }

unfoldable pub reset : List ℕ → List Effect
reset pkt = elim (tcp_rst pkt) [
  | ok rst ↦ reinject_inbound rst ∷ []
  | refused ↦ []
  | panic ↦ crash ∷ []
]

-- The two tests at the end of the loop, on the flags `allow` and `reject`.
unfoldable pub deliver : Mode → List ℕ → ℕ → Bool → Bool → List Effect
deliver mode pkt from allowed rejected =
    (if enforcing mode && rejected then reset pkt else [])
    ++ (if not (enforcing mode) || allowed then reinject pkt from ∷ [] else [])

-- The flags that a cached verdict sets; an `Ask` would leave them as they were.
unfoldable pub cached_allow : Verdict → Bool
cached_allow allow = true
cached_allow deny = false
cached_allow ask = true

unfoldable pub rejects : Verdict → Bool
rejects deny = true
rejects _ = false

-- The flag `allow` after a fresh verdict.
unfoldable pub fresh_allow : Mode → Verdict → Bool
fresh_allow mode allow = true
fresh_allow mode deny = false
fresh_allow mode ask = not (enforcing mode)

-- The kernel first, where it is asked, and the scan of the processes behind it.
unfoldable pub scanned : World → Tuple → Daemon → Option Attribution × Daemon
scanned w t d = let (att, r) = resolve d.res w.scan w.instant t true in (att, record d { res = r })

unfoldable pub capacity : ℕ
capacity = 16384

unfoldable pub room : List (Tuple × Verdict) → List (Tuple × Verdict)
room c = if ltb capacity (length c) then [] else c

unfoldable pub exe_of : Option Attribution → Option Str
exe_of none = none
exe_of (some a) = some a.owner.path

unfoldable pub pid_of : Option Attribution → ℕ
pid_of none = 0
pid_of (some a) = a.owner.pid

unfoldable pub command_of : Option Attribution → Str
command_of none = []
command_of (some a) = a.owner.command

unfoldable pub scope_of : Option Attribution → Str
scope_of none = codes "none"
scope_of (some a) = show_confidence a.confidence

-- `push_verdict` for a flow whose binary is known.
unfoldable pub push : World → Tuple → Option Str → Bool → Daemon → Outcome
push w t none allowed d = (d, [])
push w t (some path) allowed d =
    on_kern (push_verdict w.kernel t.proto t.dst t.dport path allowed) d

-- A settled verdict is remembered, and told to the kernel while enforcing.
unfoldable pub settle : World → Tuple → Option Str → Verdict → Bool → Daemon → Outcome
settle w t exe v allowed d =
    let d' = record d { decided = put t v (room d.decided) } in
    if enforcing d.mode then push w t exe allowed d' else (d', [])

unfoldable pub remember : World → Tuple → Option Str → Verdict → Daemon → Outcome
remember w t exe allow d = settle w t exe allow true d
remember w t exe deny d = settle w t exe deny false d
remember w t exe ask d = (d, [])

-- Everything that is found out about a flow with no cached verdict.
pub record Judged : Type 0 where
  pub att : Option Attribution
  pub changed : Bool
  pub verdict : Verdict
  pub after : Daemon

module _ ⦃u : Unicode⦄ where
  unfoldable pub attribute_by :
      World → Tuple → Option KernAttr → Daemon → Option Attribution × Daemon
  attribute_by w t none d = scanned w t d
  attribute_by w t (some h) d =
      let (att, h') = query w.kernel t h in
      let d' = record d { kern = some h' } in
      elim att [ some a ↦ (some a, d') | none ↦ scanned w t d' ]

  unfoldable pub attribute : World → Tuple → Daemon → Option Attribution × Daemon
  attribute w t d = attribute_by w t d.kern d

  unfoldable pub check_exe : World → Option Str → Daemon → Bool × Daemon
  check_exe w none d = (false, d)
  check_exe w (some e) d = check_binary w e d

  -- Visibility writes the rule instead of asking, and moves its watermark past the write.
  unfoldable pub learn : World → Tuple → Option Str → Daemon → Outcome
  learn w t exe d =
      let (p, file) =
        record_decision d.pol w.writable w.file allow_conn exe t.dst (name_for d.names t.dst)
          t.dport learned in
      (record d { pol = p; pol_mtime = w.mtime }, policy_file file ∷ [])

  -- The two arms for `Ask`.
  unfoldable pub ask_or_learn : World → Tuple → Option Attribution → Bool → Daemon → Outcome
  ask_or_learn w t att changed d =
      if enforcing d.mode
      then raise_prompt
          (record {
            id_changed = changed;
            exe = exe_of att;
            pid = pid_of att;
            cmd = command_of att;
            dst = t.dst;
            dport = t.dport;
            host = unwrap_or (name_for d.names t.dst) [];
            scope = scope_of att;
          })
          d
      else learn w t (exe_of att) d

  unfoldable pub act_on : World → Tuple → Option Attribution → Bool → Verdict → Daemon → Outcome
  act_on w t att changed allow d = (d, [])
  act_on w t att changed deny d = (d, [])
  act_on w t att changed ask d = ask_or_learn w t att changed d

  unfoldable pub touched : World → Option Str → IpAddr → Daemon → Daemon
  touched w none dst d = d
  touched w (some e) dst d =
      let host = unwrap_or (name_for d.names dst) (codes "-") in
      let dest = if host == codes "-" then show_ip dst else host in
      record d { seen = touch d.seen e dest w.unix }

  -- The contact is noted, and the flow is logged.
  unfoldable pub note_contact : World → Tuple → Option Str → Daemon → Outcome
  note_contact w t exe d =
      let d' = touched w exe t.dst d in (record d' { logged = insert t d'.logged }, [])

  unfoldable pub judge : World → Tuple → Daemon → Judged
  judge w t d =
      let (att, d1) = attribute w t d in
      let (changed, d2) = check_exe w (exe_of att) d1 in
      record {
        att = att;
        changed = changed;
        verdict = verdict_on d2 changed (exe_of att) t.dst t.dport;
        after = d2;
      }

  unfoldable pub carry_out : World → Tuple → Judged → Outcome
  carry_out w t j =
      act_on w t j.att j.changed j.verdict j.after
      ▸ remember w t (exe_of j.att) j.verdict
      ▸ note_contact w t (exe_of j.att)

  unfoldable pub fresh_flow : World → List ℕ → ℕ → Tuple → Daemon → Outcome
  fresh_flow w pkt from t d =
      let j = judge w t d in
      carry_out w t j ▸ λ d'.
      (d', deliver d.mode pkt from (fresh_allow d.mode j.verdict) (rejects j.verdict))

  unfoldable pub outbound : World → List ℕ → ℕ → Tuple → Daemon → Outcome
  outbound w pkt from t d = elim (lookup t d.decided) [
    | some v ↦ (d, deliver d.mode pkt from (cached_allow v) (rejects v))
    | none ↦ fresh_flow w pkt from t d
  ]

  unfoldable pub dns_answer : World → List ℕ → ℕ → Daemon → Outcome
  dns_answer w pkt from d = elim (payload_offset pkt) [
    | ok off ↦ (
      if ltb off (length pkt)
          then record d { names = observe d.names (drop off pkt) (w.instant / 1000) }
          else d,
      reinject pkt from ∷ [],
    )
    | refused ↦ (d, reinject pkt from ∷ [])
    | panic ↦ (d, crash ∷ [])
  ]

  unfoldable pub handle_flow : World → List ℕ → ℕ → Flow → Daemon → Outcome
  handle_flow w pkt from f d =
      if f.proto == 17 && f.sport == 53
      then dns_answer w pkt from d
      else if not (from == 0)
      then (d, reinject pkt from ∷ [])
      else if f.syn_only || f.proto == 17
      then outbound w pkt from (flow_of f) d
      else (d, deliver d.mode pkt from true false)

  unfoldable pub handle_packet : World → List ℕ → ℕ → Daemon → Outcome
  handle_packet w pkt from d = elim (parse pkt) [
    | ok f ↦ handle_flow w pkt from f d
    | refused ↦ (d, deliver d.mode pkt from true false)
    | panic ↦ (d, crash ∷ [])
  ]
