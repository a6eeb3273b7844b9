-- ===== src/Seen/Restart.antt =====
-- src/seen.rs: the table of contacts is read back from its file.
use pfsnitch.Base.{
  ℕ, ◌<◌, ◌^◌, Bool, true, false, ◌||◌, [], ◌∷◌, ◌++◌, some, ◌≡◌, refl, sym, ◌∙◌, ap, arith, All,
  All-weaken, All-append_one, map, ◌==◌, nat_eq, list_eq, pair_eq, put, on_bool, on_test, eq_comm,
}
use mathlib.Core.List.{append_assoc, append-nil}
use pfsnitch.Policy.Load.{File}
use pfsnitch.Seen.{
  Pair, Stamps, Seen, room, line_of, text_of, renamed, due, flush, is_tab, touch, parse_stamp,
  load_stamps, load, new, write,
}
use pfsnitch.Text.Laws.{NoneOf, is_break, NoneOf-append, split_first-append, lines-cons}
use pfsnitch.Text.Numbers.{show_u64, show_digits-All, is_digit, parse_u64-show_u64}
use pfsnitch.Text.{Str, lines, Unicode, to_lowercase}

-- A tab or the end of a line.
abbrev pub is_cut : ℕ → Bool
is_cut c = is_tab c || is_break c

-- The key is none of a table's.
abbrev pub IsNew : Pair → Stamps → Type 0
IsNew k = All (λ e. (e.0 == k) ≡ false)

no_tab : (c : ℕ) → is_cut c ≡ false → is_tab c ≡ false
no_tab c h = ground (arith, h)

no_break : (c : ℕ) → is_cut c ≡ false → is_break c ≡ false
no_break c h = ground (arith, h)

digit_no_break : (c : ℕ) → is_digit c ≡ true → is_break c ≡ false
digit_no_break c h = ground (arith, h)

digit_no_tab : (c : ℕ) → is_digit c ≡ true → is_tab c ≡ false
digit_no_tab c h = ground (arith, h)

no_tab-show_u64 : (t : ℕ) → NoneOf is_tab (show_u64 t)
no_tab-show_u64 t = All-weaken (show_u64 t) digit_no_tab (show_digits-All 20 t)

module _ ⦃u : Unicode⦄ where
  -- What a line can hold: a binary on one line, a destination in lower case with no tab, and a time of
  -- 64 bits.
  abbrev pub Fits : Pair × ℕ → Type 0
  Fits ((exe, dest), t) =
      NoneOf is_break exe × NoneOf is_cut dest × (to_lowercase dest ≡ dest) × (t < 2 ^ 64)

  -- Each key once, and every entry fits.
  abbrev pub IsTable : Stamps → Type 0
  IsTable [] = Unit {0}
  IsTable (e ∷ m) = Fits e × IsNew e.0 m × IsTable m

  parse_stamp-line_of : (e : Pair × ℕ) → Fits e → parse_stamp (line_of e) ≡ some e
  unfolding parse_stamp line_of
  parse_stamp-line_of ((exe, dest), t) (x, d, l, h) =
      rw
        (split_first-append is_tab (show_u64 t) b'\t' (dest ++ b'\t' ∷ exe) (no_tab-show_u64 t)
          refl)
        (rw (split_first-append is_tab dest b'\t' exe (All-weaken dest no_tab d) refl)
          (rw (parse_u64-show_u64 t h, l) refl))

  line_of-is_break : (e : Pair × ℕ) → Fits e → NoneOf is_break (line_of e)
  unfolding line_of
  line_of-is_break ((exe, dest), t) (x, d, l, h) =
      NoneOf-append is_break (show_u64 t) _
        (All-weaken (show_u64 t) digit_no_break (show_digits-All 20 t))
        (refl, NoneOf-append is_break dest _ (All-weaken dest no_break d) (refl, x))

  lines-text_of : (m : Stamps) → IsTable m → lines (text_of m) ≡ map line_of m
  unfolding text_of
  lines-text_of [] w = unfold lines in refl
  lines-text_of (e ∷ m) (f, n, w) =
      lines-cons (line_of e) (text_of m) (line_of-is_break e f)
      ∙ ap (λ ls. line_of e ∷ ls) (lines-text_of m w)

  -- An entry with a new key goes to the end.
  put-IsNew : (k : Pair) (v : ℕ) (m : Stamps) → IsNew k m → put k v m ≡ m ++ (k, v) ∷ []
  unfolding put
  put-IsNew k v [] n = refl
  put-IsNew k v ((j, w) ∷ m) (n, ns) = rw (n, put-IsNew k v m ns)

  -- Lines that are read behind a table whose keys are others are added to it.
  abbrev AllNew : Stamps → Stamps → Type 0
  AllNew m before = All (λ e. IsNew e.0 before) m

  AllNew-append :
      (m before : Stamps) (e : Pair × ℕ)
      → AllNew m before
      → IsNew e.0 m
      → AllNew m (before ++ e ∷ [])
  AllNew-append [] before e a n = tt
  AllNew-append (f ∷ m) before e (a, as') (n, ns) = (
    All-append_one (λ g. (g.0 == f.0) ≡ false) before a (eq_comm e.0 f.0 ∙ n),
    AllNew-append m before e as' ns,
  )

  load_stamps-line_of :
      (before m : Stamps)
      → IsTable m
      → AllNew m before
      → load_stamps before (map line_of m) ≡ before ++ m
  unfolding load_stamps
  load_stamps-line_of before [] w a = sym (append-nil before)
  load_stamps-line_of before (e ∷ m) (f, n, w) (a, as') =
      rw (parse_stamp-line_of e f, load_stamps)
        (rw (put-IsNew e.0 e.1 before a) (
          load_stamps-line_of (before ++ e ∷ []) m w (AllNew-append m before e as' n)
          ∙ append_assoc before (e ∷ []) m))

  AllNew-empty : (m : Stamps) → AllNew m []
  AllNew-empty [] = tt
  AllNew-empty (e ∷ m) = (tt, AllNew-empty m)

  load-text_of : (m : Stamps) → IsTable m → load (some (text_of m)) ≡ m
  unfolding load
  load-text_of m w =
      ap (λ ls. load_stamps [] ls) (lines-text_of m w) ∙ load_stamps-line_of [] m w (AllNew-empty m)

  IsNew-put : (j k : Pair) (v : ℕ) (m : Stamps) → (k == j) ≡ false → IsNew j m → IsNew j (put k v m)
  unfolding put
  IsNew-put j k v [] d n = (d, tt)
  IsNew-put j k v ((i, x) ∷ m) d (h, n) =
      on_bool (IsNew j) (i == k) _ _ (h, n) (h, IsNew-put j k v m d n)

  -- An entry that is there keeps its key, whose text fits.
  put-IsTable : (k : Pair) (v : ℕ) (m : Stamps) → Fits (k, v) → IsTable m → IsTable (put k v m)
  unfolding put
  put-IsTable k v [] f w = (f, tt, tt)
  put-IsTable k v ((j, x) ∷ m) (a, b, c, h) (g, n, w) =
      on_test IsTable (j == k) _ _ (λ _. ((g.0, g.1, g.2, h), n, w))
        (λ e. (g, IsNew-put j k v m (eq_comm k j ∙ e) n, put-IsTable k v m (a, b, c, h) w))

  room-IsTable : (m : Stamps) → IsTable m → IsTable (room m)
  unfolding room
  room-IsTable m w = on_bool IsTable _ [] m tt w

  touch-IsTable :
      (s : Seen) (exe dest : Str) (t : ℕ)
      → IsTable s.map
      → NoneOf is_break exe
      → NoneOf is_cut (to_lowercase dest)
      → t < 2 ^ 64
      → IsTable (touch s exe dest t).map
  unfolding touch
  touch-IsTable s exe dest t w x d h =
      on_bool (λ (s' : Seen). IsTable s'.map) _ _ _ w
        (put-IsTable (exe, to_lowercase dest) t (room s.map) (x, d, u.lower_idem dest, h)
          (room-IsTable s.map w))

  -- A restart forgets no contact: where the table held each key once, with texts that fit on a line
  -- and times of 64 bits, so does the table after another contact is noted, and once it is written, a
  -- daemon that starts reads back exactly that table.
  pub new-flush :
      (s : Seen) (exe dest : Str) (t : ℕ) (file : File) (now every : ℕ)
      → IsTable s.map
      → NoneOf is_break exe
      → NoneOf is_cut (to_lowercase dest)
      → t < 2 ^ 64
      → due (touch s exe dest t) now every ≡ true
      → IsTable (touch s exe dest t).map
        × ((new (flush (touch s exe dest t) renamed file now every).1).map
            ≡ (touch s exe dest t).map)
  unfolding new flush write
  new-flush s exe dest t file now every w x d h e =
      let w' = touch-IsTable s exe dest t w x d h in
      (w', rw (e, flush) (load-text_of (touch s exe dest t).map w'))
