-- ===== src/Daemon/Answers.antt =====
-- src/main.rs: what `run` does with the answer of a prompt.
use pfsnitch.Base.{
  ℕ, Bool, true, false, List, [], ◌∷◌, ◌++◌, Option, none, some, nat_eq, list_eq, pair_eq, lookup,
  remove, discard,
}
use pfsnitch.Daemon.{World, Pending, policy_file, Key, Daemon, Outcome, ◌▸◌, on_kern, key_of}
use pfsnitch.Identity.{hash}
use pfsnitch.Kernattr.Calls.{resolve}
use pfsnitch.Kernattr.{Kernel, KernAttr, Ioctl}
use pfsnitch.Policy.Load.{File}
use pfsnitch.Policy.Record.{record_decision, record_id, forget_id}
use pfsnitch.Policy.{Answer, allow_conn, allow_app, approved}
use pfsnitch.Text.{Str, Unicode}

unfoldable pub allows : Answer → Bool
allows allow_conn = true
allows allow_app = true
allows _ = false

-- `for id in ids { k.resolve(id, allow); }`
unfoldable pub resolve_all : Kernel → Bool → List ℕ → KernAttr → KernAttr × List Ioctl
resolve_all k allowed [] h = (h, [])
resolve_all k allowed (id ∷ ids) h =
    let (h1, first) = resolve k id allowed h in
    let (h2, rest) = resolve_all k allowed ids h1 in (h2, first ++ rest)

-- The upcalls that wait for a question get its answer.
unfoldable pub resolve_waiting : World → Key → Bool → Daemon → Outcome
resolve_waiting w key allowed d = elim (lookup key d.pending_upcalls) [
  | none ↦ (d, [])
  | some ids ↦
      on_kern (resolve_all w.kernel allowed ids)
        (record d { pending_upcalls = remove key d.pending_upcalls })
]

module _ ⦃u : Unicode⦄ where
  -- The identity of a binary that is approved is forgotten, and pinned again where it can be hashed.
  unfoldable pub pin : World → Str → File → Daemon → Daemon × File
  pin w e file d =
      let (sha, c) = hash d.ident e (w.metadata e) (w.sha256 e) in
      let p = forget_id d.pol e in
      let d' = record d { pol = p; id_warned = discard e d.id_warned; ident = c } in
      elim sha [
        | none ↦ (d', file)
        | some h ↦
            let (p', file') = record_id p w.writable file e h in (record d' { pol = p' }, file')
      ]

  unfoldable pub re_pin : World → Option Str → Bool → Daemon → Daemon × File
  re_pin w (some e) true d = pin w e w.file d
  re_pin w _ _ d = (d, w.file)

  unfoldable pub write_rule : World → Answer → Pending → Daemon × File → Outcome
  write_rule w ans p (d, file) =
      let (pol, file') =
        record_decision d.pol w.writable file ans p.exe p.dst p.host p.dport approved in
      (record d { pol = pol }, policy_file file' ∷ [])

  unfoldable pub handle_answer : World → Answer → Pending → Daemon → Outcome
  handle_answer w ans p d =
      resolve_waiting w (key_of p) (allows ans) (record d { asking = discard (key_of p) d.asking })
      ▸ λ d'. write_rule w ans p (re_pin w p.exe (allows ans) d')
