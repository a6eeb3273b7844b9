-- ===== src/Kernattr/Calls.antt =====
-- src/kernattr.rs: the calls of an open device, and the events that are read.
use pfsnitch.Kernattr.{
  Errno, Ioctl, KernAttr, KernEvent, Kernel, PfsnitchAttr, PfsnitchEvent, PfsnitchVerdict, answered,
  attr_query_cmd, attr_version, event_layout, failed, int_arg, miss, nothing, other_errno,
  resolve_arg, resolve_cmd, size_of, upcall_set_cmd, v_allow, v_deny, verdict_arg,
  verdict_flush_cmd, verdict_push_cmd,
}
use pfsnitch.Addr.{IpAddr, v4, v6}
use pfsnitch.Base.{
  ℕ, zero, suc, Bool, true, not, ◌||◌, List, [], ◌∷◌, ◌++◌, Option, none, some, if◌then◌else◌, ◌==◌,
  nat_eq, length, take, leb,
}
use pfsnitch.Divert.Rst.{bytes16}
use pfsnitch.Divert.{be16}
use pfsnitch.Procinfo.{Tuple, Attribution, kernel}
use pfsnitch.Text.Bytes.{as_bytes}
use pfsnitch.Text.{Str, codes, is_empty, split_first, Unicode, from_utf8_lossy}

unfoldable pub note_errno : Errno → KernAttr → KernAttr
note_errno other_errno h = h
note_errno _ h = record { dead = true }

-- `copy_from_slice` to the front of a zeroed array of `n` bytes.
unfoldable pub fill : ℕ → List ℕ → List ℕ
fill zero bs = []
fill (suc n) [] = 0 ∷ fill n []
fill (suc n) (b ∷ bs) = b ∷ fill n bs

-- What stands before the first NUL byte, if there is one.
unfoldable pub c_bytes : List ℕ → List ℕ
c_bytes bs = (split_first (λ c. c == 0) bs).0

-- The family and the address field of an address.
unfoldable pub family : IpAddr → ℕ
family (v4 o) = 4
family (v6 o) = 6

unfoldable pub octets : IpAddr → List ℕ
octets (v4 o) = o
octets (v6 o) = o

-- The `match` on the family of an event.
unfoldable pub address_of : ℕ → List ℕ → Option IpAddr
address_of af faddr =
    if af == 4 then some (v4 (take 4 faddr)) else if af == 6 then some (v6 faddr) else none

unfoldable pub from_be : List ℕ → ℕ
from_be (hi ∷ lo ∷ []) = be16 hi lo
from_be _ = 0

-- How `read` ends, and what `read_event` makes of it.
pub data ReadReply : Type 0 where
  read_error : ReadReply
  read_bytes : ℕ → PfsnitchEvent → ReadReply

pub data EventRead : Type 0 where
  event : KernEvent → EventRead
  eof : EventRead
  os_error short_event bad_af : EventRead

unfoldable pub same_family : IpAddr → IpAddr → Bool
same_family a b = family a == family b

unfoldable pub is_flow_proto : ℕ → Bool
is_flow_proto p = p == 6 || p == 17

-- The query for a flow; none for other protocols, and for ends of different families.
unfoldable pub attr_request : Tuple → Option PfsnitchAttr
attr_request t =
    if not (is_flow_proto t.proto) || not (same_family t.src t.dst)
    then none
    else some (record {
      version = attr_version;
      af = family t.src;
      proto = t.proto;
      lport = bytes16 t.sport;
      fport = bytes16 t.dport;
      laddr = fill 16 (octets t.src);
      faddr = fill 16 (octets t.dst);
      found = 0;
      pid = 0;
      uid = 0;
      comm = fill 24 [];
      path = fill 1024 [];
    })

abbrev pub allow_code : Bool → ℕ
allow_code allow = if allow then v_allow else v_deny

-- The message of `push_verdict`; none where it returns before the ioctl.
unfoldable pub push_request : ℕ → IpAddr → ℕ → Str → Bool → Option PfsnitchVerdict
push_request proto dst dport path allow =
    let pb = as_bytes path in
    if not (is_flow_proto proto) || is_empty pb || leb 1024 (length pb)
    then none
    else some (record {
      version = attr_version;
      af = family dst;
      proto = proto;
      fport = bytes16 dport;
      faddr = fill 16 (octets dst);
      verdict = allow_code allow;
      path = fill 1024 pb;
    })

-- One sending ioctl: the handle after it, and the call.
unfoldable pub issue : Kernel → Ioctl → KernAttr → KernAttr × List Ioctl
issue k io h = (elim (k.control io) [ none ↦ h | some e ↦ note_errno e h ], io ∷ [])

-- `if self.dead.get() { return; }`
unfoldable pub unless_dead : Kernel → Ioctl → KernAttr → KernAttr × List Ioctl
unless_dead k io h = if h.dead then (h, []) else issue k io h

unfoldable pub send_verdict : Kernel → Option PfsnitchVerdict → KernAttr → KernAttr × List Ioctl
send_verdict k none h = (h, [])
send_verdict k (some v) h = unless_dead k (record { cmd = verdict_push_cmd; arg = verdict_arg v }) h

unfoldable pub push_verdict :
    Kernel → ℕ → IpAddr → ℕ → Str → Bool → KernAttr → KernAttr × List Ioctl
push_verdict k proto dst dport path allow h =
    send_verdict k (push_request proto dst dport path allow) h

unfoldable pub flush_verdicts : Kernel → KernAttr → KernAttr × List Ioctl
flush_verdicts k h = unless_dead k (record { cmd = verdict_flush_cmd; arg = nothing }) h

unfoldable pub resolve_call : ℕ → Bool → Ioctl
resolve_call id allow = record {
  cmd = resolve_cmd;
  arg = resolve_arg (record { version = attr_version; verdict = allow_code allow; id = id });
}

unfoldable pub resolve : Kernel → ℕ → Bool → KernAttr → KernAttr × List Ioctl
resolve k id allow h = unless_dead k (resolve_call id allow) h

unfoldable pub set_upcall : Kernel → Bool → KernAttr → KernAttr × List Ioctl
set_upcall k on h =
    unless_dead k (record { cmd = upcall_set_cmd; arg = int_arg (if on then 1 else 0) }) h

module _ ⦃u : Unicode⦄ where
  -- The closure `cstr` of the source.
  unfoldable pub cstr : List ℕ → Str
  cstr bs = from_utf8_lossy (c_bytes bs)

  unfoldable pub read_event : ReadReply → EventRead
  read_event read_error = os_error
  read_event (read_bytes n ev) =
      if n == 0
      then eof
      else if not (n == size_of event_layout)
      then short_event
      else elim (address_of ev.af ev.faddr) [
        | none ↦ bad_af
        | some dst ↦ event (record {
          id = ev.id;
          proto = ev.proto;
          dst = dst;
          dport = from_be ev.fport;
          nonblock = not (ev.nonblock == 0);
          pid = ev.pid;
          uid = ev.uid;
          path = cstr ev.path;
        })
      ]

  -- The owner that an answered query names.
  unfoldable pub named_owner : PfsnitchAttr → Option Attribution
  named_owner q =
      let command = cstr q.comm in
      let path = cstr q.path in
      if q.found == miss
      then none
      else some (record {
        owner = record {
          pid = q.pid;
          command = command;
          path = if is_empty path then codes "<unknown:" ++ (command ++ codes ">") else path;
        };
        confidence = kernel;
      })

  unfoldable pub query : Kernel → Tuple → KernAttr → Option Attribution × KernAttr
  query k t h = elim (attr_request t) [
    | none ↦ (none, h)
    | some q ↦ elim (k.query_ioctl attr_query_cmd q) [
      | failed e ↦ (none, note_errno e h)
      | answered q' ↦ (named_owner q', h)
    ]
  ]
