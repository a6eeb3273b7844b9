-- ===== src/Daemon/Wire.antt =====
-- src/main.rs: what a packet leads to outside the daemon.
pub mod Visibility
pub mod Off
pub mod Verdicts
pub mod Retry
pub mod Reload
use pfsnitch.Base.{Bool, true, false, List, [], ◌∷◌, ◌++◌, map, ◌≡◌, refl, ap, arith, if◌then◌else◌}
use pfsnitch.Daemon.{
  Effect, reinject, reinject_inbound, spawn_prompt, ioctl, set_udp_divert, spawn_reader,
  policy_file, seen_file, crash,
}
use pfsnitch.Kernattr.{Ioctl}

-- What is done to the network, the user and the kernel: all but the files that are written.
unfoldable pub outward : List Effect → List Effect
outward [] = []
outward (policy_file f ∷ es) = outward es
outward (seen_file f ∷ es) = outward es
outward (e ∷ es) = e ∷ outward es

-- What is done to the network.
unfoldable pub on_wire : List Effect → List Effect
on_wire [] = []
on_wire (reinject p from ∷ es) = reinject p from ∷ on_wire es
on_wire (reinject_inbound p ∷ es) = reinject_inbound p ∷ on_wire es
on_wire (crash ∷ es) = crash ∷ on_wire es
on_wire (e ∷ es) = on_wire es

pub outward-append : (xs ys : List Effect) → outward (xs ++ ys) ≡ outward xs ++ outward ys
unfolding outward
outward-append [] ys = refl
outward-append (policy_file f ∷ xs) ys = outward-append xs ys
outward-append (seen_file f ∷ xs) ys = outward-append xs ys
outward-append (reinject p f ∷ xs) ys = ap (λ l. reinject p f ∷ l) (outward-append xs ys)
outward-append (reinject_inbound p ∷ xs) ys =
    ap (λ l. reinject_inbound p ∷ l) (outward-append xs ys)
outward-append (spawn_prompt q ∷ xs) ys = ap (λ l. spawn_prompt q ∷ l) (outward-append xs ys)
outward-append (ioctl io ∷ xs) ys = ap (λ l. ioctl io ∷ l) (outward-append xs ys)
outward-append (set_udp_divert b ∷ xs) ys = ap (λ l. set_udp_divert b ∷ l) (outward-append xs ys)
outward-append (spawn_reader ∷ xs) ys = ap (λ l. spawn_reader ∷ l) (outward-append xs ys)
outward-append (crash ∷ xs) ys = ap (λ l. crash ∷ l) (outward-append xs ys)

pub on_wire-append : (xs ys : List Effect) → on_wire (xs ++ ys) ≡ on_wire xs ++ on_wire ys
unfolding on_wire
on_wire-append [] ys = refl
on_wire-append (policy_file f ∷ xs) ys = on_wire-append xs ys
on_wire-append (seen_file f ∷ xs) ys = on_wire-append xs ys
on_wire-append (reinject p f ∷ xs) ys = ap (λ l. reinject p f ∷ l) (on_wire-append xs ys)
on_wire-append (reinject_inbound p ∷ xs) ys =
    ap (λ l. reinject_inbound p ∷ l) (on_wire-append xs ys)
on_wire-append (spawn_prompt q ∷ xs) ys = on_wire-append xs ys
on_wire-append (ioctl io ∷ xs) ys = on_wire-append xs ys
on_wire-append (set_udp_divert b ∷ xs) ys = on_wire-append xs ys
on_wire-append (spawn_reader ∷ xs) ys = on_wire-append xs ys
on_wire-append (crash ∷ xs) ys = ap (λ l. crash ∷ l) (on_wire-append xs ys)

pub on_wire-ioctls : (ios : List Ioctl) → on_wire (map ioctl ios) ≡ []
unfolding on_wire
on_wire-ioctls [] = refl
on_wire-ioctls (io ∷ ios) = on_wire-ioctls ios
