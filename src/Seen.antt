-- ===== src/Seen.antt =====
-- src/seen.rs: when a binary last talked to a destination. Times are seconds since 1970, instants
-- milliseconds.
pub mod Restart
use pfsnitch.Base.{
  ◌<◌, ℕ, suc, ◌-◌, ◌/◌, ◌≤◌, Bool, true, false, not, ◌&&◌, ◌||◌, List, [], ◌∷◌, ◌++◌, Option, none,
  some, ◌≡◌, ◌∙◌, arith, if◌then◌else◌, ◌==◌, nat_eq, list_eq, pair_eq, length, ltb, lookup, put,
  lookup-put, eq_self, ◌>>=◌,
}
use pfsnitch.Policy.Load.{File}
use pfsnitch.Text.Numbers.{parse_u64, show_u64}
use pfsnitch.Text.{Str, codes, is_empty, split_first, lines, Unicode, to_lowercase}

-- A binary and a destination.
abbrev pub Pair : Type 0
Pair = Str × Str

abbrev pub Stamps : Type 0
Stamps = List (Pair × ℕ)

pub record Seen : Type 0 where
  pub map : Stamps
  pub dirty : Bool
  pub last_flush : Option ℕ

abbrev pub capacity : ℕ
capacity = 4096

unfoldable pub room : Stamps → Stamps
room m = if ltb capacity (length m) then [] else m

unfoldable pub line_of : Pair × ℕ → Str
line_of ((exe, dest), ts) = show_u64 ts ++ (b'\t' ∷ (dest ++ (b'\t' ∷ exe)))

unfoldable pub text_of : Stamps → Str
text_of [] = []
text_of (e ∷ m) = line_of e ++ (b'\n' ∷ text_of m)

-- How the write of the table ends; only `renamed` changes the file.
pub data Write : Type 0 where
  not_created cut_short renamed : Write

unfoldable pub write : Write → File → Str → File
write not_created file text = file
write cut_short file text = file
write renamed file text = some text

unfoldable pub due : Seen → ℕ → ℕ → Bool
due s now every = s.dirty && elim s.last_flush [ none ↦ true | some t ↦ not (ltb (now - t) every) ]

unfoldable pub flush : Seen → Write → File → ℕ → ℕ → Seen × File
flush s w file now every =
    if due s now every
    then (record s { dirty = false; last_flush = some now }, write w file (text_of s.map))
    else (s, file)

abbrev pub is_tab : ℕ → Bool
is_tab c = c == b'\t'

module _ ⦃u : Unicode⦄ where
  unfoldable pub touch : Seen → Str → Str → ℕ → Seen
  touch s exe dest now =
      if is_empty exe || is_empty dest || dest == codes "-"
      then s
      else record s { map = put (exe, to_lowercase dest) now (room s.map); dirty = true }

  -- `splitn(3, '\t')` with all three parts, and a number in front.
  unfoldable pub parse_stamp : Str → Option (Pair × ℕ)
  parse_stamp line =
      let (ts, rest) = split_first is_tab line in
      rest >>= λ r.
      let (dest, exe) = split_first is_tab r in
      exe >>= λ x. parse_u64 ts >>= λ t. some ((x, to_lowercase dest), t)

  unfoldable pub load_stamps : Stamps → List Str → Stamps
  load_stamps m [] = m
  load_stamps m (l ∷ ls) = elim (parse_stamp l) [
    | some (k, t) ↦ load_stamps (put k t m) ls
    | none ↦ load_stamps m ls
  ]

  unfoldable pub load : File → Stamps
  load none = []
  load (some text) = load_stamps [] (lines text)

  -- `Seen::new`
  unfoldable pub new : File → Seen
  new file = record { map = load file; dirty = false; last_flush = none }

unfoldable pub aged : ℕ → Str
aged d =
    if ltb d 60
    then show_u64 d ++ codes "s ago"
    else if ltb d 3600
    then show_u64 (d / 60) ++ codes "m ago"
    else if ltb d 86400
    then show_u64 (d / 3600) ++ codes "h ago"
    else show_u64 (d / 86400) ++ codes "d ago"

unfoldable pub ago : Option ℕ → ℕ → Str
ago none n = codes "never"
ago (some t) n =
    if t == 0 then codes "never" else if ltb n t then codes "just now" else aged (n - t)

put-length : (k : Pair) (v : ℕ) (m : Stamps) → length (put k v m) ≤ suc (length m)
unfolding put
put-length k v [] = omega arith
put-length k v ((j, w) ∷ m) = ground (arith, put-length k v m)

module _ ⦃u : Unicode⦄ where
  -- A contact that is noted is found under the lower-cased destination, and the table stays bounded:
  -- of at most 4,097 entries, if it had at most that many.
  pub touch-lookup :
      (s : Seen) (exe dest : Str) (now : ℕ)
      → is_empty exe ≡ false
      → is_empty dest ≡ false
      → (dest == codes "-") ≡ false
      → length s.map ≤ suc capacity
      → (lookup (exe, to_lowercase dest) (touch s exe dest now).map ≡ some now)
        × (length (touch s exe dest now).map ≤ suc capacity)
  unfolding touch room
  touch-lookup s exe dest now he hd hn h =
      let key : Pair = (exe, to_lowercase dest) in
      rw (he, hd, hn)
        (
          lookup-put key key now (room s.map) ∙ rw (eq_self key),
          ground (arith, h, put-length key now (room s.map)),
        )

module _ ⦃u : Unicode⦄ where
  not-due :
      (s : Seen) (now now' every : ℕ) (exe dest : Str) (t : ℕ)
      → now' - now < every
      → due (touch (record s { dirty = false; last_flush = some now }) exe dest t) now' every
        ≡ false
  unfolding due touch
  not-due s now now' every exe dest t h = ground (arith, h)

  -- The file is written at most once in each interval: after a flush that was due, a flush less than
  -- `every` later writes nothing and changes nothing, however the first write ended and whatever
  -- contact was noted in between.
  flush-rate_limit :
      (s : Seen) (w : Write) (file : File) (now every : ℕ) (exe dest : Str) (t : ℕ) (w' : Write)
      (now' : ℕ)
      → due s now every ≡ true
      → now' - now < every
      → flush
          (touch (flush s w file now every).0 exe dest t)
          w'
          (flush s w file now every).1
          now'
          every
        ≡ (touch (flush s w file now every).0 exe dest t, (flush s w file now every).1)
  unfolding flush
  flush-rate_limit s w file now every exe dest t w' now' d h =
      rw (d, flush) (rw (not-due s now now' every exe dest t h))
