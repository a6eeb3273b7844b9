-- ===== src/Tests/Device.antt =====
-- The device: the sizes and commands that the source's own tests pin, events and pushed verdicts.
use pfsnitch.Addr.{v4}
use pfsnitch.Base.{ℕ, true, false, [], ◌∷◌, none, ◌≡◌, refl, arith, All}
use pfsnitch.Kernattr.Push.{Names, IsWhole, push_verdict-Names}
use pfsnitch.Kernattr.Calls.{
  read_event, read_bytes, event, short_event, bad_af, address_of, cstr, c_bytes, from_be,
  push_verdict,
}
use pfsnitch.Kernattr.{
  size_of, size_from, attr_layout, verdict_layout, event_layout, resolve_layout, ioc,
  attr_query_cmd, verdict_push_cmd, verdict_flush_cmd, resolve_cmd, upcall_set_cmd, Kernel, failed,
  enotty, opened, PfsnitchEvent,
}
use pfsnitch.Tests.{ascii}
use pfsnitch.Text.{codes, split_first}

attr_layout-size : size_of attr_layout ≡ 1108
unfolding size_of size_from attr_layout
attr_layout-size = refl

verdict_layout-size : size_of verdict_layout ≡ 1052
unfolding size_of size_from verdict_layout
verdict_layout-size = refl

event_layout-size : size_of event_layout ≡ 1064
unfolding size_of size_from event_layout
event_layout-size = refl

resolve_layout-size : size_of resolve_layout ≡ 16
unfolding size_of size_from resolve_layout
resolve_layout-size = refl

attr_query_cmd-value : attr_query_cmd ≡ 0xC4544601
unfolding attr_query_cmd ioc size_of size_from attr_layout
attr_query_cmd-value = refl

verdict_push_cmd-value : verdict_push_cmd ≡ 0x841C4602
unfolding verdict_push_cmd ioc size_of size_from verdict_layout
verdict_push_cmd-value = refl

verdict_flush_cmd-value : verdict_flush_cmd ≡ 0x20004603
unfolding verdict_flush_cmd ioc
verdict_flush_cmd-value = refl

resolve_cmd-value : resolve_cmd ≡ 0x80104604
unfolding resolve_cmd ioc size_of size_from resolve_layout
resolve_cmd-value = refl

upcall_set_cmd-value : upcall_set_cmd ≡ 0x80044605
unfolding upcall_set_cmd ioc
upcall_set_cmd-value = refl

abbrev an_event : ℕ → PfsnitchEvent
an_event family = record {
  id = 7;
  af = family;
  proto = 17;
  fport = 0 ∷ 53 ∷ [];
  faddr = 9 ∷ 9 ∷ 9 ∷ 9 ∷ 0 ∷ 0 ∷ 0 ∷ 0 ∷ 0 ∷ 0 ∷ 0 ∷ 0 ∷ 0 ∷ 0 ∷ 0 ∷ 0 ∷ [];
  nonblock = 1;
  pid = 300;
  uid = 1001;
  path = b'/' ∷ b'a' ∷ 0 ∷ b'b' ∷ [];
}

read_event-event :
    read_event (read_bytes 1064 (an_event 4))
    ≡ event (record {
      id = 7;
      proto = 17;
      dst = v4 (9 ∷ 9 ∷ 9 ∷ 9 ∷ []);
      dport = 53;
      nonblock = true;
      pid = 300;
      uid = 1001;
      path = codes "/a";
    })
unfolding read_event size_of size_from event_layout address_of cstr c_bytes split_first from_be
read_event-event = refl

read_event-bad_af : read_event (read_bytes 1064 (an_event 5)) ≡ bad_af
unfolding read_event size_of size_from event_layout address_of
read_event-bad_af = refl

read_event-short : read_event (read_bytes 12 (an_event 4)) ≡ short_event
unfolding read_event size_of size_from event_layout
read_event-short = refl

-- A module that answers no query and takes every call.
abbrev pub willing : Kernel
willing = record { query_ioctl = λ c q. failed enotty; control = λ io. none }

push_verdict-Names_example :
    All
      (Names 6 (v4 (203 ∷ 0 ∷ 113 ∷ 9 ∷ [])) 443 (codes "/bin/a") false opened)
      (push_verdict willing 6 (v4 (203 ∷ 0 ∷ 113 ∷ 9 ∷ [])) 443 (codes "/bin/a") false opened).1
unfolding IsWhole
push_verdict-Names_example =
    push_verdict-Names willing 6 (v4 (203 ∷ 0 ∷ 113 ∷ 9 ∷ [])) 443 (codes "/bin/a") false opened
      (ground arith) refl
