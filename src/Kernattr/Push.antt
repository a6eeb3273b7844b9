-- ===== src/Kernattr/Push.antt =====
-- src/kernattr.rs: what `push_verdict` sends to the kernel.
use pfsnitch.Addr.{IpAddr, v4, v6}
use pfsnitch.Base.{
  ℕ, zero, suc, ◌<◌, ◌≤◌, Bool, false, List, [], ◌∷◌, Option, none, some, ◌≡◌, refl, ap, arith,
  ◌==◌, nat_eq, length, take, All, Bool-cases, inl, inr,
}
use pfsnitch.Divert.Rst.{bytes16}
use pfsnitch.Kernattr.Calls.{
  fill, c_bytes, family, octets, address_of, from_be, push_request, allow_code, push_verdict,
  unless_dead, issue, send_verdict,
}
use pfsnitch.Kernattr.{
  PfsnitchVerdict, attr_version, Kernel, KernAttr, Ioctl, verdict_arg, verdict_push_cmd,
}
use pfsnitch.Text.Bytes.{as_bytes, encode_char}
use pfsnitch.Text.Laws.{NoneOf, NoneOf-append}
use pfsnitch.Text.{Str, split_first}

abbrev pub is_nul : ℕ → Bool
is_nul c = c == 0

encode_char-NoneOf : (c : ℕ) → is_nul c ≡ false → NoneOf is_nul (encode_char c)
unfolding encode_char
encode_char-NoneOf c h = ground arith

as_bytes-NoneOf : (s : Str) → NoneOf is_nul s → NoneOf is_nul (as_bytes s)
unfolding as_bytes
as_bytes-NoneOf [] h = tt
as_bytes-NoneOf (c ∷ s) h =
    NoneOf-append is_nul (encode_char c) (as_bytes s) (encode_char-NoneOf c h.0)
      (as_bytes-NoneOf s h.1)

-- A text that is shorter than the array and holds no NUL is read back from it.
c_bytes-fill : (n : ℕ) (bs : List ℕ) → NoneOf is_nul bs → length bs < n → c_bytes (fill n bs) ≡ bs
unfolding c_bytes fill split_first
c_bytes-fill zero bs h l = absurd (omega (arith, l))
c_bytes-fill (suc n) [] h l = refl
c_bytes-fill (suc n) (b ∷ bs) h l =
    rw (h.0, c_bytes, split_first) (ap (λ t. b ∷ t) (c_bytes-fill n bs h.1 (omega (arith, l))))

-- An address as std has it: four octets, or sixteen.
unfoldable pub IsWhole : IpAddr → Type 0
IsWhole (v4 o) = length o ≡ 4
IsWhole (v6 o) = length o ≡ 16

take-fill : (n m : ℕ) (bs : List ℕ) → length bs ≡ n → n ≤ m → take n (fill m bs) ≡ bs
unfolding fill
take-fill zero m [] h l = refl
take-fill zero m (b ∷ bs) h l = absurd (omega (arith, h))
take-fill (suc n) m [] h l = absurd (omega (arith, h))
take-fill (suc n) zero (b ∷ bs) h l = absurd (omega (arith, l))
take-fill (suc n) (suc m) (b ∷ bs) h l =
    ap (λ t. b ∷ t) (take-fill n m bs (omega (arith, h)) (omega (arith, l)))

fill-whole : (n : ℕ) (bs : List ℕ) → length bs ≡ n → fill n bs ≡ bs
unfolding fill
fill-whole zero [] h = refl
fill-whole zero (b ∷ bs) h = absurd (omega (arith, h))
fill-whole (suc n) [] h = absurd (omega (arith, h))
fill-whole (suc n) (b ∷ bs) h = ap (λ t. b ∷ t) (fill-whole n bs (omega (arith, h)))

address_of-octets : (a : IpAddr) → IsWhole a → address_of (family a) (fill 16 (octets a)) ≡ some a
unfolding address_of family octets IsWhole
address_of-octets (v4 o) h = rw (take-fill 4 16 o h (omega arith))
address_of-octets (v6 o) h = rw (fill-whole 16 o h)

from_be-bytes16 : (n : ℕ) → from_be (bytes16 n) ≡ n
unfolding from_be
from_be-bytes16 n = omega arith

-- A call that carries a verdict on exactly this binary, address and port: the path field holds the
-- whole path up to its NUL, and address and port are read back as `read_event` reads them.
pub record Names (proto : ℕ) (dst : IpAddr) (dport : ℕ) (path : Str) (allow : Bool) (h : KernAttr)
    (io : Ioctl) : Type 0 where
  pub alive : h.dead ≡ false
  pub fits : length (as_bytes path) < 1024
  pub message : PfsnitchVerdict
  pub is_message : io.arg ≡ verdict_arg message
  pub same_proto : message.proto ≡ proto
  pub same_path : c_bytes message.path ≡ as_bytes path
  pub same_address : address_of message.af message.faddr ≡ some dst
  pub same_port : from_be message.fport ≡ dport
  pub same_verdict : message.verdict ≡ allow_code allow

module _ (k : Kernel) (h : KernAttr) where
  unless_dead-All :
      (P : Ioctl → Type 0) (io : Ioctl) → (h.dead ≡ false → P io) → All P (unless_dead k io h).1
  unfolding unless_dead issue
  unless_dead-All P io p = elim (Bool-cases h.dead) as (λ _. All P (unless_dead k io h).1) [
    | inl d ↦ rw (d, unless_dead, All) tt
    | inr d ↦ rw (d, unless_dead, All) (p d, tt)
  ]

  send_verdict-All :
      (P : Ioctl → Type 0) (r : Option PfsnitchVerdict)
      → ((v : PfsnitchVerdict)
          → r ≡ some v
          → h.dead ≡ false
          → P (record { cmd = verdict_push_cmd; arg = verdict_arg v }))
      → All P (send_verdict k r h).1
  unfolding send_verdict
  send_verdict-All P none p = tt
  send_verdict-All P (some v) p = unless_dead-All P _ (p v refl)

module _ (proto : ℕ) (dst : IpAddr) (dport : ℕ) (path : Str) (allow : Bool) (h : KernAttr) where
  message_of : PfsnitchVerdict
  message_of = record {
    version = attr_version;
    af = family dst;
    proto = proto;
    fport = bytes16 dport;
    faddr = fill 16 (octets dst);
    verdict = allow_code allow;
    path = fill 1024 (as_bytes path);
  }

  push_request-message_of :
      (v : PfsnitchVerdict)
      → push_request proto dst dport path allow ≡ some v
      → (v ≡ message_of) × (length (as_bytes path) < 1024)
  unfolding push_request message_of
  push_request-message_of v e = ground (arith, e)

  push_request-Names :
      NoneOf is_nul path
      → IsWhole dst
      → (v : PfsnitchVerdict) → push_request proto dst dport path allow ≡ some v
      → h.dead ≡ false
      → Names proto dst dport path allow h (record { cmd = verdict_push_cmd; arg = verdict_arg v })
  unfolding message_of
  push_request-Names n w v e alive =
      let (is, fits) = push_request-message_of v e in
      record {
        message = message_of;
        alive = alive;
        fits = fits;
        is_message = ap (λ m. verdict_arg m) is;
        same_proto = refl;
        same_path = c_bytes-fill 1024 (as_bytes path) (as_bytes-NoneOf path n) fits;
        same_address = address_of-octets dst w;
        same_port = from_be-bytes16 dport;
        same_verdict = refl;
      }

-- Whatever `push_verdict` sends, it sends on a live handle, and it is a verdict on exactly the
-- binary, the address and the port that it was called for, never on a path that was cut short: for
-- every path without NUL, every address of four or sixteen octets and whatever the kernel answers.
pub push_verdict-Names :
    (k : Kernel) (proto : ℕ) (dst : IpAddr) (dport : ℕ) (path : Str) (allow : Bool) (h : KernAttr)
    → NoneOf is_nul path
    → IsWhole dst
    → All (Names proto dst dport path allow h) (push_verdict k proto dst dport path allow h).1
unfolding push_verdict
push_verdict-Names k proto dst dport path allow h n w =
    send_verdict-All k h (Names proto dst dport path allow h) _
      (push_request-Names proto dst dport path allow h n w)
