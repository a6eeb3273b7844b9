-- ===== src/Daemon/Pinned.antt =====
-- src/main.rs: what is pinned when a binary is approved is what it is held to.
use pfsnitch.Base.{
  Bool, true, false, not, [], ◌⊎◌, inl, inr, Option, none, some, ◌≡◌, refl, sym, ◌∙◌, ap, arith,
  ◌==◌, list_eq, nat_eq, lookup, put, remove, lookup-put, lookup-remove, is_some, unwrap_or,
  if◌then◌else◌, eq_self,
}
use pfsnitch.Daemon.Answers.{pin}
use pfsnitch.Daemon.{World, Daemon, check_binary, changed_from}
use pfsnitch.Identity.{hash}
use pfsnitch.Policy.Load.{load}
use pfsnitch.Policy.Record.Persist.Apply.{IsPath}
use pfsnitch.Policy.Record.Persist.Pinned.{IsHash, record_id-load}
use pfsnitch.Policy.Record.{expected_id, record_id, forget_id}
use pfsnitch.Policy.{Policy}
use pfsnitch.Text.Laws.{ends_line}
use pfsnitch.Text.{Str, Unicode, to_lowercase}

-- The binary is changed if it can be hashed and has another hash.
abbrev pub differs : Option Str → Str → Bool
differs none expected = false
differs (some h) expected = not (h == expected)

module _ ⦃u : Unicode⦄ where
  check_binary-differs :
      (w : World) (e h : Str) (d : Daemon)
      → expected_id d.pol e ≡ some h
      → (check_binary w e d).0 ≡ differs (hash d.ident e (w.metadata e) (w.sha256 e)).0 h
  unfolding check_binary changed_from
  check_binary-differs w e h d p = ground (arith, p)

  expected_id-put :
      (p : Policy) (e j h : Str)
      → expected_id (record p { app_id = put e h p.app_id }) j
        ≡ (if e == j then some h else expected_id p j)
  unfolding expected_id
  expected_id-put p e j h = lookup-put e j h p.app_id

  forget_id-none : (p : Policy) (e : Str) → is_some (lookup e (forget_id p e).app_id) ≡ false
  unfolding forget_id
  forget_id-none p e = rw (lookup-remove e e p.app_id, eq_self e) refl

  -- Nothing is forgotten but the pin of the binary itself.
  pin-memory :
      (w : World) (d : Daemon) (e j h : Str)
      → (hash d.ident e (w.metadata e) (w.sha256 e)).0 ≡ some h
      → expected_id (pin w e w.file d).0.pol j
        ≡ (if e == j then some (to_lowercase h) else expected_id d.pol j)
  unfolding pin forget_id record_id expected_id
  pin-memory w d e j h s =
      let ids = d.pol.app_id in
      ground (
        arith,
        s,
        lookup-put e j (to_lowercase h) (remove e ids),
        lookup-remove e j ids,
        lookup-remove e e ids,
        eq_self e,
      )

  pin-file :
      (w : World) (d : Daemon) (e j h : Str)
      → d.pol ≡ load w.file
      → w.writable ≡ true
      → ends_line (unwrap_or w.file []) ≡ true
      → IsHash h
      → IsPath e
      → (hash d.ident e (w.metadata e) (w.sha256 e)).0 ≡ some h
      → expected_id (load (pin w e w.file d).1) j
        ≡ (if e == j then some (to_lowercase h) else expected_id d.pol j)
  unfolding pin
  pin-file w d e j h l b ends sh x s =
      rw (s, pin)
        (rw b (
          ap (λ p. expected_id p j)
            (record_id-load (forget_id d.pol e) w.file e h ends sh x (forget_id-none d.pol e))
          ∙ expected_id-put (load w.file) e j (to_lowercase h)
          ∙ ap (λ p. if e == j then some (to_lowercase h) else expected_id p j) (sym l)))

  -- An approval is for the binary as it is: where the policy is that of the file, the file ends in a
  -- whole line and can be written, and the hash and the path can be written in it, then after the
  -- identity is pinned, with the hash in lower case, both the policy in memory and the one that is
  -- loaded from the file hold the binary to that hash, and every other binary to what it was held to
  -- before. With either, whenever the binary is checked later, it is found changed if and only if it
  -- can be hashed and its hash is another one.
  pub check_binary-pin :
      (w w' : World) (d d' : Daemon) (e h : Str)
      → d.pol ≡ load w.file
      → w.writable ≡ true
      → ends_line (unwrap_or w.file []) ≡ true
      → IsHash h
      → IsPath e
      → (hash d.ident e (w.metadata e) (w.sha256 e)).0 ≡ some h
      → (d'.pol ≡ (pin w e w.file d).0.pol) ⊎ (d'.pol ≡ load (pin w e w.file d).1)
      → ((check_binary w' e d').0
          ≡ differs (hash d'.ident e (w'.metadata e) (w'.sha256 e)).0 (to_lowercase h))
        × ((j : Str) → (e == j) ≡ false → expected_id d'.pol j ≡ expected_id d.pol j)
  check_binary-pin w w' d d' e h l b ends sh x s where_from =
      let pinned : (j : Str)
          → expected_id d'.pol j ≡ (if e == j then some (to_lowercase h) else expected_id d.pol j) =
        λ j. elim where_from [
          | inl m ↦ ap (λ p. expected_id p j) m ∙ pin-memory w d e j h s
          | inr f ↦ ap (λ p. expected_id p j) f ∙ pin-file w d e j h l b ends sh x s
        ] in
      (
        check_binary-differs w' e (to_lowercase h) d' (pinned e ∙ rw (eq_self e) refl),
        λ j ne. pinned j ∙ rw ne refl,
      )
