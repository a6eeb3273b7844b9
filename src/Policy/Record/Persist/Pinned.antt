-- ===== src/Policy/Record/Persist/Pinned.antt =====
-- src/policy.rs: an identity that is recorded is read back.
use mathlib.Core.List.{append_assoc}
use pfsnitch.Base.{
  true, false, [], ◌∷◌, ◌++◌, some, ◌≡◌, ◌≢◌, refl, ◌∙◌, ap, list_eq, nat_eq, lookup, put, is_some,
  unwrap_or,
}
use pfsnitch.Policy.Load.Lines.{is_hash, IsTrimmed-pair, split_scoped-pair}
use pfsnitch.Policy.Load.{File, directive, apply_directive, load, if_scoped}
use pfsnitch.Policy.Record.Persist.Apply.{IsPath, NoneOf-white-break}
use pfsnitch.Policy.Record.Persist.Written.{load-comment, key, clear, all_clear}
use pfsnitch.Policy.Record.{record_id, append_line}
use pfsnitch.Policy.{Policy}
use pfsnitch.Text.Laws.{NoneOf, NoneOf-append, is_break, ends_line}
use pfsnitch.Text.{Str, codes, is_white, Unicode, to_lowercase}

-- A hash that a line can hold: a word with no "#".
pub record IsHash (sha : Str) : Type 0 where
  pub not_empty : sha ≢ []
  pub word : NoneOf is_white sha
  pub no_hash : NoneOf is_hash sha

app_id-line :
    (sha e : Str)
    → codes "app-id " ++ (sha ++ (b'\t' ∷ (e ++ codes "\t# identity when approved")))
      ≡ (codes "app-id" ++ b' ' ∷ (sha ++ b'\t' ∷ e))
        ++ b'\t' ∷ b'#' ∷ codes " identity when approved"
app_id-line sha e = simp (append_assoc)

module _ ⦃u : Unicode⦄ where
  apply-app_id :
      (p : Policy) (sha e : Str)
      → IsHash sha
      → IsPath e
      → apply_directive (directive (codes "app-id")) p (sha ++ b'\t' ∷ e)
        ≡ record p { app_id = put e (to_lowercase sha) p.app_id }
  unfolding directive apply_directive if_scoped is_white
  apply-app_id p sha e s x =
      rw (split_scoped-pair sha b'\t' e s.not_empty s.word refl x.trimmed, if_scoped) refl

  -- The line that `record_id` writes sets the identity.
  pub record_id-load :
      (p : Policy) (file : File) (e sha : Str)
      → ends_line (unwrap_or file []) ≡ true
      → IsHash sha
      → IsPath e
      → is_some (lookup e p.app_id) ≡ false
      → load (record_id p true file e sha).1
        ≡ record (load file) { app_id = put e (to_lowercase sha) (load file).app_id }
  unfolding record_id append_line all_clear is_white
  record_id-load p file e sha ends s x h =
      let v = sha ++ b'\t' ∷ e in
      let text = unwrap_or file [] in
      rw h (
        ap (λ l. load (some (text ++ (l ++ b'\n' ∷ [])))) (app_id-line sha e)
        ∙ load-comment file ends (codes "app-id") v (codes " identity when approved")
            (key file ends (codes "app-id") (λ e. cc) refl refl)
            (IsTrimmed-pair sha b'\t' e s.not_empty s.word x.trimmed)
            (NoneOf-append is_hash sha (b'\t' ∷ e) s.no_hash (refl, x.no_hash))
            (NoneOf-append is_break sha (b'\t' ∷ e) (NoneOf-white-break sha s.word)
              (refl, x.no_break))
            (clear file ends (codes " identity when approved") refl)
        ∙ apply-app_id (load file) sha e s x)
