-- ===== src/Daemon/Upcall.antt =====
-- src/main.rs: what `run` does with an upcall of the kernel.
use pfsnitch.Addr.{addr_eq}
use pfsnitch.Base.{
  ℕ, Bool, true, false, [], ◌∷◌, ◌++◌, none, some, if◌then◌else◌, ◌==◌, nat_eq, list_eq, pair_eq,
  lookup, put, unwrap_or,
}
use pfsnitch.Daemon.{
  World, Question, Key, Daemon, Outcome, ◌▸◌, on_kern, raise_prompt, pending_of, key_of,
  check_binary, verdict_on,
}
use pfsnitch.Dns.Cache.{name_for}
use pfsnitch.Kernattr.Calls.{resolve}
use pfsnitch.Kernattr.{KernEvent}
use pfsnitch.Policy.{Verdict, allow, deny, ask}
use pfsnitch.Text.{Str, codes, is_empty, split_last, Unicode}

-- `rsplit('/').next()`
unfoldable pub base_name : Str → Str
base_name path = elim (split_last (λ c. c == b'/') path) [ none ↦ path | some (dir, name) ↦ name ]

-- `pending_upcalls.entry(key).or_default().push(id)`
unfoldable pub wait_for : Key → ℕ → Daemon → Outcome
wait_for key id d = (
  record d {
    pending_upcalls =
        put key (unwrap_or (lookup key d.pending_upcalls) [] ++ (id ∷ [])) d.pending_upcalls;
  },
  [],
)

unfoldable pub event_question : KernEvent → Bool → Daemon → Question
event_question ev changed d = record {
  id_changed = changed;
  exe = some ev.path;
  pid = ev.pid;
  cmd = base_name ev.path;
  dst = ev.dst;
  dport = ev.dport;
  host = unwrap_or (name_for d.names ev.dst) [];
  scope = codes "kernel";
}

module _ ⦃u : Unicode⦄ where
  unfoldable pub answer_event : World → KernEvent → Bool → Verdict → Daemon → Outcome
  answer_event w ev changed allow d = on_kern (resolve w.kernel ev.id true) d
  answer_event w ev changed deny d = on_kern (resolve w.kernel ev.id false) d
  answer_event w ev changed ask d =
      let q = event_question ev changed d in
      raise_prompt q d ▸ wait_for (key_of (pending_of q)) ev.id

  unfoldable pub decide_event : World → KernEvent → Daemon → Outcome
  decide_event w ev d =
      let (changed, d') = check_binary w ev.path d in
      answer_event w ev changed (verdict_on d' changed (some ev.path) ev.dst ev.dport) d'

  unfoldable pub handle_event : World → KernEvent → Daemon → Outcome
  handle_event w ev d =
      if is_empty ev.path then on_kern (resolve w.kernel ev.id true) d else decide_event w ev d
