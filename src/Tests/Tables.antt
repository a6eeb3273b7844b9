-- ===== src/Tests/Tables.antt =====
-- The tables of last contacts and of hashes.
use pfsnitch.Addr.{addr_eq}
use pfsnitch.Base.{
  ◌≤◌, false, [], none, some, ◌≡◌, refl, arith, length, lookup, list_eq, pair_eq, nat_eq,
}
use pfsnitch.Seen.Restart.{IsTable, new-flush}
use pfsnitch.Seen.{Seen, due, touch, touch-lookup, flush, renamed, new}
use pfsnitch.Tests.{ascii}
use pfsnitch.Text.{Str, codes, is_empty, to_lowercase}

abbrev browser : Str
browser = codes "/bin/web"

touch-lookup_example :
    (lookup
        (browser, to_lowercase (codes "A.example"))
        (touch
          (record { map = []; dirty = false; last_flush = none })
          browser
          (codes "A.example")
          7).map
      ≡ some 7)
    × (length
          (touch
            (record { map = []; dirty = false; last_flush = none })
            browser
            (codes "A.example")
            7).map
        ≤ 4097)
unfolding is_empty
touch-lookup_example =
    touch-lookup (record { map = []; dirty = false; last_flush = none }) browser (codes "A.example")
      7 refl refl refl (omega arith)

abbrev nothing_seen : Seen
nothing_seen = record { map = []; dirty = false; last_flush = none }

-- The contact of `touch-lookup_example`, written and read back.
new-flush_example :
    IsTable (touch nothing_seen browser (codes "A.example") 7).map
    × ((new (flush (touch nothing_seen browser (codes "A.example") 7) renamed none 1000 5000).1).map
        ≡ (touch nothing_seen browser (codes "A.example") 7).map)
unfolding is_empty due touch
new-flush_example =
    new-flush nothing_seen browser (codes "A.example") 7 none 1000 5000 tt (ground arith)
      (ground arith) (omega arith) refl
