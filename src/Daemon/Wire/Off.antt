-- ===== src/Daemon/Wire/Off.antt =====
-- src/main.rs: all that is done about a fresh flow before its packet is off the network.
use pfsnitch.Base.{
  on_bool, Bool, true, false, List, [], ◌++◌, Option, none, some, ◌≡◌, refl, ◌∙◌, nat_eq, list_eq,
  contains, pair_eq,
}
use pfsnitch.Daemon.Packet.{
  push, settle, remember, learn, ask_or_learn, act_on, note_contact, Judged, carry_out, exe_of,
}
use pfsnitch.Daemon.Wire.{on_wire, on_wire-append, on_wire-ioctls}
use pfsnitch.Daemon.{
  World, Daemon, Outcome, Effect, on_kern, with_handle, raise_prompt, key_of, pending_of, Question,
}
use pfsnitch.Kernattr.{KernAttr, Ioctl}
use pfsnitch.Policy.{enforcing, Verdict, allow, deny, ask}
use pfsnitch.Procinfo.{Tuple, tuple_eq, Attribution}
use pfsnitch.Text.{Str, Unicode}

-- A step that does nothing to the network.
abbrev pub IsOff : Outcome → Type 0
IsOff o = on_wire o.1 ≡ []

with_handle-IsOff :
    (f : KernAttr → KernAttr × List Ioctl) (k : Option KernAttr) (d : Daemon)
    → IsOff (with_handle f k d)
unfolding with_handle on_wire
with_handle-IsOff f none d = refl
with_handle-IsOff f (some h) d = on_wire-ioctls (f h).1

push-IsOff :
    (w : World) (t : Tuple) (exe : Option Str) (a : Bool) (d : Daemon) → IsOff (push w t exe a d)
unfolding push on_kern on_wire
push-IsOff w t none a d = refl
push-IsOff w t (some path) a d = with_handle-IsOff _ d.kern d

remember-IsOff :
    (w : World) (t : Tuple) (exe : Option Str) (v : Verdict) (d : Daemon)
    → IsOff (remember w t exe v d)
unfolding remember settle on_wire
remember-IsOff w t exe allow d =
    on_bool IsOff (enforcing d.mode) _ _ (push-IsOff w t exe true _) refl
remember-IsOff w t exe deny d =
    on_bool IsOff (enforcing d.mode) _ _ (push-IsOff w t exe false _) refl
remember-IsOff w t exe ask d = refl

pub off-append :
    (xs ys zs : List Effect) → on_wire xs ≡ [] → on_wire ys ≡ zs → on_wire (xs ++ ys) ≡ zs
off-append xs ys zs h k = on_wire-append xs ys ∙ rw (h, k) refl

module _ ⦃u : Unicode⦄ where
  raise_prompt-IsOff : (q : Question) (d : Daemon) → IsOff (raise_prompt q d)
  unfolding raise_prompt on_wire
  raise_prompt-IsOff q d = on_bool IsOff (contains (key_of (pending_of q)) d.asking) _ _ refl refl

  act_on-IsOff :
      (w : World) (t : Tuple) (att : Option Attribution) (c : Bool) (v : Verdict) (d : Daemon)
      → IsOff (act_on w t att c v d)
  unfolding act_on ask_or_learn learn on_wire
  act_on-IsOff w t att c allow d = refl
  act_on-IsOff w t att c deny d = refl
  act_on-IsOff w t att c ask d = on_bool IsOff (enforcing d.mode) _ _ (raise_prompt-IsOff _ d) refl

  pub carry_out-IsOff : (w : World) (t : Tuple) (j : Judged) → IsOff (carry_out w t j)
  unfolding carry_out note_contact on_wire
  carry_out-IsOff w t j =
      let o = act_on w t j.att j.changed j.verdict j.after in
      let r = remember w t (exe_of j.att) j.verdict o.0 in
      off-append (o.1 ++ r.1) [] []
        (off-append o.1 r.1 [] (act_on-IsOff w t j.att j.changed j.verdict j.after)
          (remember-IsOff w t (exe_of j.att) j.verdict o.0))
        refl
