-- ===== src/Addr.antt =====
-- `std::net::IpAddr` with its `parse` and `Display`, which the policy file is written in.
-- An address is its octets in network order: four, or sixteen.
use pfsnitch.Base.{
  ℕ, zero, suc, ◌+◌, ◌-◌, ◌*◌, ◌/◌, ◌%◌, Bool, true, false, ◌&&◌, ◌||◌, List, [], ◌∷◌, ◌++◌, Option,
  none, some, ◌≡◌, ◌↔◌, arith, leb, ltb, if◌then◌else◌, ◌==◌, nat_eq, list_eq, PartialEq,
  list_beq_iff, length, take, drop, ◌>>=◌, is_some,
}
use pfsnitch.Text.{Str, codes}
use pfsnitch.Text.Numbers.{is_digit, read_digits, show_digits}

pub data IpAddr : Type 0 where
  v4 : List ℕ → IpAddr
  v6 : List ℕ → IpAddr

abbrev pub addr_beq : IpAddr → IpAddr → Bool
addr_beq (v4 a) (v4 b) = a == b
addr_beq (v6 a) (v6 b) = a == b
addr_beq _ _ = false

pub addr_beq_iff : (a b : IpAddr) → (addr_beq a b ≡ true) ↔ (a ≡ b)
addr_beq_iff (v4 a) (v4 b) = ground (arith, list_beq_iff a b)
addr_beq_iff (v6 a) (v6 b) = ground (arith, list_beq_iff a b)
addr_beq_iff (v4 a) (v6 b) = ground arith
addr_beq_iff (v6 a) (v4 b) = ground arith

instance abbrev pub addr_eq : PartialEq IpAddr
addr_eq = record { same = addr_beq; same_iff = addr_beq_iff }

-- The longest run of characters that pass, and the rest.
unfoldable pub span : (ℕ → Bool) → Str → Str × Str
span p [] = ([], [])
span p (c ∷ s) = let (run, rest) = span p s in if p c then (c ∷ run, rest) else ([], c ∷ s)

-- A decimal octet: one to three digits, no zero in front.
unfoldable pub octet : Str → Option ℕ
octet [] = none
octet (c ∷ s) =
    if leb (length s) 2 && (s == [] || (if c == b'0' then false else true))
    then (read_digits 0 (c ∷ s) >>= λ n. if leb n 255 then some n else none)
    else none

unfoldable pub read_octet : Str → Option (ℕ × Str)
unfolding span octet read_digits
read_octet s = let (run, rest) = span is_digit s in octet run >>= λ n. some (n, rest)

unfoldable pub expect : ℕ → Str → Option Str
expect c [] = none
expect c (d ∷ s) = if c == d then some s else none

unfoldable pub read_v4 : Str → Option (List ℕ × Str)
unfolding read_octet expect
read_v4 s = read_octet s >>= λ a. expect b'.' a.1 >>= λ s. read_octet s >>= λ b.
    expect b'.' b.1 >>= λ s. read_octet s >>= λ c.
    expect b'.' c.1 >>= λ s. read_octet s >>= λ d. some (a.0 ∷ b.0 ∷ c.0 ∷ d.0 ∷ [], d.1)

abbrev hex_value : ℕ → ℕ
hex_value c = if leb c b'9' then c - b'0' else if leb b'a' c then c - 87 else c - 55

abbrev is_hex : ℕ → Bool
is_hex c = is_digit c || (leb b'a' c && leb c b'f') || (leb b'A' c && leb c b'F')

read_hex : ℕ → Str → ℕ
read_hex acc [] = acc
read_hex acc (c ∷ s) = read_hex (acc * 16 + hex_value c) s

-- A group of a v6 address: one to four hexadecimal digits.
read_group : Str → Option (ℕ × Str)
unfolding span read_hex
read_group s =
    let (run, rest) = span is_hex s in
    if leb 1 (length run) && leb (length run) 4 then some (read_hex 0 run, rest) else none

abbrev separator : Bool → Str → Option Str
separator true s = some s
separator false s = expect b':' s

v4_groups : List ℕ → List ℕ
v4_groups (a ∷ b ∷ c ∷ d ∷ []) = (a * 256 + b) ∷ (c * 256 + d) ∷ []
v4_groups _ = []

-- `read_groups`: at most `room` groups, the last two of which may be a v4 address; whether they
-- were, and the rest of the text.
read_groups : ℕ → Bool → Str → List ℕ × Bool × Str
unfolding read_v4 read_group v4_groups expect
read_groups zero first s = ([], false, s)
read_groups (suc room) first s =
    let last_two = if leb 1 room then separator first s >>= read_v4 else none in
    elim last_two [
      | some (octets, rest) ↦ (v4_groups octets, true, rest)
      | none ↦ elim (separator first s >>= read_group) [
        | some (g, rest) ↦
            let (gs, ended, rest') = read_groups room false rest in (g ∷ gs, ended, rest')
        | none ↦ ([], false, s)
      ]
    ]

zeros : ℕ → List ℕ
zeros zero = []
zeros (suc n) = 0 ∷ zeros n

-- The groups on both sides of "::".
join_groups : List ℕ → Option Str → Option (List ℕ × Str)
unfolding read_groups zeros
join_groups head none = none
join_groups head (some s) =
    let (tail, _, rest) = read_groups (8 - (length head + 1)) true s in
    some (head ++ (zeros (8 - length head - length tail) ++ tail), rest)

read_v6 : Str → Option (List ℕ × Str)
unfolding read_groups join_groups expect
read_v6 s =
    let (head, ended, rest) = read_groups 8 true s in
    if length head == 8
    then some (head, rest)
    else if ended
    then none
    else join_groups head (expect b':' rest >>= expect b':')

group_octets : List ℕ → List ℕ
group_octets [] = []
group_octets (g ∷ gs) = (g / 256) ∷ (g % 256) ∷ group_octets gs

whole : Option (List ℕ × Str) → Option (List ℕ)
whole none = none
whole (some (octets, [])) = some octets
whole (some (octets, _)) = none

-- `parse::<Ipv4Addr>()`: at most fifteen characters, all of them read.
unfoldable pub parse_v4 : Str → Option IpAddr
unfolding read_v4 whole
parse_v4 s = if leb (length s) 15 then (whole (read_v4 s) >>= λ o. some (v4 o)) else none

-- `parse::<Ipv6Addr>()`
unfoldable pub parse_v6 : Str → Option IpAddr
unfolding read_v6 whole group_octets
parse_v6 s = whole (read_v6 s) >>= λ gs. some (v6 (group_octets gs))

-- `parse::<IpAddr>()`: v4 first.
unfoldable pub parse_ip : Str → Option IpAddr
unfolding parse_v4 parse_v6
parse_ip s = elim (parse_v4 s) [ some a ↦ some a | none ↦ parse_v6 s ]

dotted : List ℕ → Str
dotted [] = []
dotted (a ∷ []) = show_digits 3 a
dotted (a ∷ b ∷ os) = show_digits 3 a ++ b'.' ∷ dotted (b ∷ os)

hex_digit : ℕ → ℕ
hex_digit n = if ltb n 10 then b'0' + n else 87 + n

show_hex : ℕ → ℕ → Str
unfolding hex_digit
show_hex zero n = []
show_hex (suc fuel) n =
    let high = show_hex fuel (n / 16) in
    if ltb n 16 then hex_digit n ∷ [] else high ++ hex_digit (n % 16) ∷ []

colons : List ℕ → Str
unfolding show_hex
colons [] = []
colons (g ∷ []) = show_hex 4 g
colons (g ∷ h ∷ gs) = show_hex 4 g ++ b':' ∷ colons (h ∷ gs)

octet_groups : List ℕ → List ℕ
octet_groups (a ∷ b ∷ os) = (a * 256 + b) ∷ octet_groups os
octet_groups _ = []

-- The first longest run of zero groups: its start and length.
longest : ℕ → ℕ × ℕ → ℕ × ℕ → List ℕ → ℕ × ℕ
longest i current best [] = best
longest i current best (g ∷ gs) =
    let run : ℕ × ℕ =
      if g == 0 then (if current.1 == 0 then (i, 1) else (current.0, current.1 + 1)) else (0, 0) in
    longest (i + 1) run (if ltb best.1 run.1 then run else best) gs

show_groups : List ℕ → Str
unfolding longest colons
show_groups gs =
    let (start, len) = longest 0 (0, 0) (0, 0) gs in
    if ltb 1 len
    then colons (take start gs) ++ (b':' ∷ b':' ∷ colons (drop (start + len) gs))
    else colons gs

-- `Display`: a v4-mapped address keeps its dots.
unfoldable pub show_ip : IpAddr → Str
unfolding dotted octet_groups show_digits show_groups colons
show_ip (v4 octets) = dotted octets
show_ip (v6 octets) =
    if take 12 octets == (0 ∷ 0 ∷ 0 ∷ 0 ∷ 0 ∷ 0 ∷ 0 ∷ 0 ∷ 0 ∷ 0 ∷ 255 ∷ 255 ∷ [])
    then codes "::ffff:" ++ dotted (drop 12 octets)
    else show_groups (octet_groups octets)

-- `is_ok()` of a parse as a v6 address.
unfoldable pub is_v6 : Str → Bool
unfolding parse_v6
is_v6 s = is_some (parse_v6 s)
