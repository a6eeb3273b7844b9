-- ===== src/Identity.antt =====
-- src/identity.rs: the cache of content hashes. The file system and sha256(1) are parameters: the
-- metadata, and what the program printed if it succeeded.
use pfsnitch.Base.{
  ℕ, suc, ◌≤◌, ◌&&◌, List, [], ◌∷◌, Option, none, some, ◌≡◌, arith, if◌then◌else◌, ◌==◌, nat_eq,
  list_eq, length, ltb, lookup, put, lookup-put, eq_self,
}
use pfsnitch.Text.{Str, trim, is_empty, Unicode, from_utf8_lossy}

-- The time of the last change in seconds, and the size.
pub record Metadata : Type 0 where
  pub mtime : ℕ
  pub size : ℕ

abbrev pub Hashed : Type 0
Hashed = ℕ × ℕ × Str

abbrev pub Cache : Type 0
Cache = List (Str × Hashed)

abbrev pub capacity : ℕ
capacity = 2048

unfoldable pub room : Cache → Cache
room c = if ltb capacity (length c) then [] else c

unfoldable pub fresh : Hashed → Metadata → Option Str
fresh (m, s, h) md = if m == md.mtime && s == md.size then some h else none

unfoldable pub cached : Cache → Str → Metadata → Option Str
cached c path md = elim (lookup path c) [ some e ↦ fresh e md | none ↦ none ]

unfoldable pub store : Cache → Str → Metadata → Str → Option Str × Cache
store c path md h =
    if is_empty h then (none, c) else (some h, put path (md.mtime, md.size, h) (room c))

module _ ⦃u : Unicode⦄ where
  -- No metadata where the file cannot be read.
  unfoldable pub hash : Cache → Str → Option Metadata → Option (List ℕ) → Option Str × Cache
  hash c path none out = (none, c)
  hash c path (some md) out = elim (cached c path md) [
    | some h ↦ (some h, c)
    | none ↦ elim out [
      | none ↦ (none, c)
      | some bytes ↦ store c path md (trim (from_utf8_lossy bytes))
    ]
  ]

  -- What is stored is found again for the same metadata.
  store-cached :
      (c c' : Cache) (path text h : Str) (md : Metadata)
      → store c path md text ≡ (some h, c')
      → cached c' path md ≡ some h
  unfolding store cached fresh
  store-cached c c' path text h md e =
      ground (arith, e, lookup-put path path (md.mtime, md.size, text) (room c), eq_self path)

  hash-cached :
      (c c' : Cache) (path h : Str) (md : Metadata) (out : Option (List ℕ))
      → hash c path (some md) out ≡ (some h, c')
      → cached c' path md ≡ some h
  unfolding hash
  hash-cached c c' path h md none e = ground (arith, e)
  hash-cached c c' path h md (some bytes) e =
      ground (arith, e, store-cached c c' path (trim (from_utf8_lossy bytes)) h md)

  -- A binary is hashed once: after a hash was given, the same metadata give the same hash again and
  -- leave the cache as it is, whatever sha256 would print.
  hash-again :
      (c c' : Cache) (path h : Str) (md : Metadata) (out : Option (List ℕ))
      → hash c path (some md) out ≡ (some h, c')
      → (out' : Option (List ℕ)) → hash c' path (some md) out' ≡ (some h, c')
  unfolding hash
  hash-again c c' path h md out e out' = rw (hash-cached c c' path h md out e, hash)

put-length : (k : Str) (v : Hashed) (c : Cache) → length (put k v c) ≤ suc (length c)
unfolding put
put-length k v [] = omega arith
put-length k v ((j, w) ∷ c) = ground (arith, put-length k v c)

module _ ⦃u : Unicode⦄ where
  -- The cache is bounded: from one of at most 2,049 entries every call leaves one of at most 2,049.
  hash-length :
      (c : Cache) (path : Str) (md : Option Metadata) (out : Option (List ℕ))
      → length c ≤ suc capacity
      → length (hash c path md out).1 ≤ suc capacity
  unfolding hash store room
  hash-length c path none out h = h
  hash-length c path (some md) none h = ground (arith, h)
  hash-length c path (some md) (some bytes) h =
      ground (arith, h, put-length path (md.mtime, md.size, trim (from_utf8_lossy bytes)) (room c))
