-- ===== src/Dns.antt =====
-- src/dns.rs: names learnt from DNS answers. As in src/divert.rs, an index out of range would panic.
pub mod Safe
pub mod Cache
use pfsnitch.Addr.{IpAddr, v4, v6}
use pfsnitch.Base.{
  ℕ, zero, suc, ◌+◌, ◌-◌, ◌*◌, ◌/◌, ◌%◌, Bool, true, false, not, ◌&&◌, ◌||◌, List, [], ◌∷◌, ◌++◌,
  Option, none, some, if◌then◌else◌, ◌==◌, nat_eq, length, ltb, leb, unwrap_or,
}
use pfsnitch.Divert.{Parsed, ok, refused, panic, ◌>>=◌, ◌>>◌, refuse_if, index, index16, slice}
use pfsnitch.Text.{Str, is_empty, Unicode, from_utf8_lossy}

-- The two top bits of a length byte mark a pointer.
abbrev pub is_pointer : ℕ → Bool
is_pointer len = leb 192 len

abbrev pub max_hops : ℕ
max_hops = 16

unfoldable pub dotted : Str → Str → Str
dotted out label = if is_empty out then label else out ++ (b'.' ∷ label)

unfoldable pub no_ips : List IpAddr → Bool
no_ips [] = true
no_ips (a ∷ as') = false

-- What stands at an offset of a name: a pointer, the empty label that ends it, or a label and the
-- offset behind it.
pub data Label : Type 0 where
  pointer : ℕ → Label
  root : Label
  label : Str → ℕ → Label

module _ ⦃u : Unicode⦄ where
  unfoldable pub next_label : List ℕ → ℕ → Parsed Label
  next_label b off = do
    refuse_if (leb (length b) off)
    len ← index b off
    if is_pointer len
        then (refuse_if (leb (length b) (off + 1)) >> index b (off + 1) >>= λ low.
            ok (pointer (len % 64 * 256 + low)))
        else if len == 0
        then ok root
        else (refuse_if (ltb (length b) (off + 1 + len)) >> slice b (off + 1) len >>= λ text.
            ok (label (from_utf8_lossy text) (off + 1 + len)))

  -- The loop of `read_name`. A run that is out of fuel is told from every run of the source: it
  -- gives `panic`.
  unfoldable pub read_labels : ℕ → List ℕ → ℕ → Option ℕ → Str → ℕ → Parsed (Str × ℕ)
  read_labels zero b off after out hops = panic
  read_labels (suc fuel) b off after out hops = next_label b off >>= elim [
    | root ↦ ok (out, unwrap_or after (off + 1))
    | label text next ↦ read_labels fuel b next after (dotted out text) hops
    | pointer ptr ↦
        refuse_if (ltb max_hops (hops + 1) || leb (length b) ptr)
        >> read_labels fuel b ptr (some (unwrap_or after (off + 2))) out (hops + 1)
  ]

  -- Sixteen pointers, and between two of them every label takes a byte at least.
  abbrev pub name_fuel : List ℕ → ℕ
  name_fuel b = 17 * (length b + 1)

  unfoldable pub read_name : List ℕ → ℕ → Parsed (Str × ℕ)
  read_name b start = read_labels (name_fuel b) b start none [] 0

  -- `for _ in 1..qd`, over the questions that are left.
  unfoldable pub skip_questions : ℕ → List ℕ → ℕ → Parsed ℕ
  skip_questions zero b off = ok off
  skip_questions (suc n) b off = read_name b off >>= λ r. skip_questions n b (r.1 + 4)

  -- The `match` on the type and the length of a record.
  unfoldable pub address : List ℕ → ℕ → ℕ → ℕ → Parsed (List IpAddr)
  address b rtype rdlen off =
      if rtype == 1 && rdlen == 4
      then (index b off >>= λ b0. index b (off + 1) >>= λ b1. index b (off + 2) >>= λ b2.
          index b (off + 3) >>= λ b3. ok (v4 (b0 ∷ b1 ∷ b2 ∷ b3 ∷ []) ∷ []))
      else if rtype == 28 && rdlen == 16
      then (slice b off 16 >>= λ a. ok (v6 a ∷ []))
      else ok []

  -- A record behind its name; `rest` reads the records behind it. The addresses read so far stand
  -- where the loop breaks.
  unfoldable pub answer : (ℕ → Parsed (List IpAddr)) → List ℕ → ℕ → Parsed (List IpAddr)
  answer rest b off = do
    rtype ← index16 b off
    rdlen ← index16 b (off + 8)
    if ltb (length b) (off + 10 + rdlen)
        then ok []
        else (address b rtype rdlen (off + 10) >>= λ ips.
            rest (off + 10 + rdlen) >>= λ more. ok (ips ++ more))

  unfoldable pub answers : ℕ → List ℕ → ℕ → Parsed (List IpAddr)
  answers zero b off = ok []
  answers (suc n) b start = do
    r ← read_name b start
    if ltb (length b) (r.1 + 10) then ok [] else answer (answers n b) b r.1

  unfoldable pub parse_response : List ℕ → Parsed (Str × List IpAddr)
  parse_response b = do
    refuse_if (ltb (length b) 12)
    flags ← index16 b 2
    refuse_if (flags / 0x8000 % 2 == 0)
    qd ← index16 b 4
    an ← index16 b 6
    refuse_if (qd == 0 || an == 0)
    first ← read_name b 12
    off ← skip_questions (qd - 1) b (first.1 + 4)
    ips ← answers an b off
    if no_ips ips then refused else ok (first.0, ips)
