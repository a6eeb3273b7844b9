-- ===== src/Tests.antt =====
-- Tests, and for each result with conditions an example where they hold. The Unicode tables are
-- those of ASCII.
mod Addresses
mod Policies
mod Files
mod Listings
mod Tables
mod Packets
mod Processes
mod Device
mod Daemon
mod Rounds
mod Approval
mod Commands
use pfsnitch.Base.{
  ℕ, List, [], ◌∷◌, map, ◌≡◌, refl, ap, ◌∙◌, arith, if◌then◌else◌, Bool, true, false, ◌&&◌, leb,
}
use pfsnitch.Text.{Str, Unicode, ascii_lower}

ascii_lower-again : (c : ℕ) → ascii_lower (ascii_lower c) ≡ ascii_lower c
ascii_lower-again c = ground arith

pub lower-again : (s : Str) → map ascii_lower (map ascii_lower s) ≡ map ascii_lower s
lower-again [] = refl
lower-again (c ∷ s) = cc (ascii_lower-again c, lower-again s)

instance abbrev pub ascii : Unicode
ascii = record {
  to_lowercase = map ascii_lower;
  from_utf8_lossy = λ s. s;
  lower_ascii = λ s h. refl;
  lower_idem = lower-again;
  lossy_ascii = λ s h. refl;
}
