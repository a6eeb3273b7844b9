-- ===== src/Policy/Record/Persist/Written.antt =====
-- src/policy.rs: a line that `record` appends to a whole file is the last that `load` applies.
use mathlib.Core.List.{append_assoc}
use pfsnitch.Addr.{addr_eq}
use pfsnitch.Base.{
  ℕ, Bool, true, false, [], ◌∷◌, ◌++◌, some, ◌≡◌, ◌≢◌, refl, sym, ◌∙◌, ap, nat_eq, unwrap_or, not,
  ◌&&◌, Bool-cases, inl, inr, list_eq, option_eq, pair_eq, triple_eq,
}
use pfsnitch.Policy.Load.Lines.{
  is_hash, IsTrimmed, IsTrimmed-word, load_line-bare, load_line-comment, load-append,
}
use pfsnitch.Policy.Load.{File, directive, apply_directive, load}
use pfsnitch.Policy.Target.RoundTrip.{join_target-word}
use pfsnitch.Policy.Target.{join_target}
use pfsnitch.Policy.{Origin, approved, learned, adjective}
use pfsnitch.Text.Laws.{NoneOf, NoneOf-append, is_break, ends_line}
use pfsnitch.Text.{Str, codes, is_white, Unicode}
use pfsnitch.Policy.Record.Persist.Apply.{
  IsPath, IsDest, NoneOf-white-break, IsTrimmed-scoped_value,
}

unfoldable pub all_clear : (ℕ → Bool) → Str → Bool
all_clear q [] = true
all_clear q (c ∷ s) = not (q c) && all_clear q s

NoneOf-all_clear : (q : ℕ → Bool) (s : Str) → all_clear q s ≡ true → NoneOf q s
unfolding all_clear
NoneOf-all_clear q [] h = tt
NoneOf-all_clear q (c ∷ s) h = elim (Bool-cases (q c)) [
  | inl bad ↦ cc (rw bad at h)
  | inr good ↦ (good, NoneOf-all_clear q s (rw good at h))
]

-- The first word of a line that `record` writes.
pub record IsKey (k : Str) : Type 0 where
  not_empty : k ≢ []
  word : NoneOf is_white k
  no_hash : NoneOf is_hash k

NoneOf-key :
    (q : ℕ → Bool) (k v : Str) → NoneOf q k → q b' ' ≡ false → NoneOf q v → NoneOf q (k ++ b' ' ∷ v)
NoneOf-key q k v hk hs hv = NoneOf-append q k (b' ' ∷ v) hk (hs, hv)

module _ ⦃u : Unicode⦄ (file : File) (ends : ends_line (unwrap_or file []) ≡ true) where
  -- A line with a comment behind its value, at the end of the file.
  pub load-comment :
      (k v comment : Str)
      → IsKey k
      → IsTrimmed v
      → NoneOf is_hash v
      → NoneOf is_break v
      → NoneOf is_break comment
      → load
          (some (unwrap_or file [] ++ (((k ++ b' ' ∷ v) ++ b'\t' ∷ b'#' ∷ comment) ++ b'\n' ∷ [])))
        ≡ apply_directive (directive k) (load file) v
  load-comment k v comment x t h b c =
      load-append file _ ends (
        NoneOf-append is_break (k ++ b' ' ∷ v) (b'\t' ∷ b'#' ∷ comment)
          (NoneOf-key is_break k v (NoneOf-white-break k x.word) refl b) (refl, (refl, c)))
      ∙ load_line-comment (load file) k v comment x.not_empty x.word
          (NoneOf-key is_hash k v x.no_hash refl h) t

  pub load-bare :
      (k v : Str)
      → IsKey k
      → IsTrimmed v
      → NoneOf is_hash v
      → NoneOf is_break v
      → load (some (unwrap_or file [] ++ ((k ++ b' ' ∷ v) ++ b'\n' ∷ [])))
        ≡ apply_directive (directive k) (load file) v
  load-bare k v x t h b =
      load-append file _ ends (NoneOf-key is_break k v (NoneOf-white-break k x.word) refl b)
      ∙ load_line-bare (load file) k v x.not_empty x.word (NoneOf-key is_hash k v x.no_hash refl h)
          t

  -- The same for a destination and a binary.
  pub load-scoped :
      (k h : Str) (dport : ℕ) (e comment : Str)
      → IsKey k
      → IsDest h dport
      → IsPath e
      → NoneOf is_break comment
      → load (
          some (
            unwrap_or file []
            ++ ((k
                  ++ b' '
                    ∷ (join_target h (some dport) ++ (b'\t' ∷ (e ++ (b'\t' ∷ b'#' ∷ comment)))))
                ++ b'\n' ∷ [])))
        ≡ apply_directive (directive k) (load file) (join_target h (some dport) ++ b'\t' ∷ e)
  load-scoped k h dport e comment x d y c =
      let t = join_target h (some dport) in
      let tail = b'\t' ∷ b'#' ∷ comment in
      ap (λ s. load (some (unwrap_or file [] ++ (s ++ b'\n' ∷ []))))
        (ap (λ s. k ++ b' ' ∷ s) (sym (append_assoc t (b'\t' ∷ e) tail))
          ∙ sym (append_assoc k (b' ' ∷ (t ++ b'\t' ∷ e)) tail))
      ∙ load-comment k (t ++ b'\t' ∷ e) comment x (IsTrimmed-scoped_value (load file) h dport e d y)
          (NoneOf-append is_hash t (b'\t' ∷ e) d.no_hash (refl, y.no_hash))
          (NoneOf-append is_break t (b'\t' ∷ e)
            (NoneOf-white-break t (join_target-word h dport d.spelled.word)) (refl, y.no_break))
          c

  pub load-target :
      (k h : Str) (dport : ℕ) (comment : Str)
      → IsKey k
      → IsDest h dport
      → NoneOf is_break comment
      → load (
          some (
            unwrap_or file []
            ++ ((k ++ b' ' ∷ (join_target h (some dport) ++ (b'\t' ∷ b'#' ∷ comment)))
                ++ b'\n' ∷ [])))
        ≡ apply_directive (directive k) (load file) (join_target h (some dport))
  load-target k h dport comment x d c =
      let t = join_target h (some dport) in
      ap (λ s. load (some (unwrap_or file [] ++ (s ++ b'\n' ∷ []))))
        (sym (append_assoc k (b' ' ∷ t) (b'\t' ∷ b'#' ∷ comment)))
      ∙ load-comment k t comment x
          (IsTrimmed-word t d.not_empty (join_target-word h dport d.spelled.word)) d.no_hash
          (NoneOf-white-break t (join_target-word h dport d.spelled.word)) c

  pub key :
      (k : Str) → (k ≢ []) → all_clear is_white k ≡ true → all_clear is_hash k ≡ true → IsKey k
  key k ne w h = record {
    not_empty = ne;
    word = NoneOf-all_clear is_white k w;
    no_hash = NoneOf-all_clear is_hash k h;
  }

  pub clear : (s : Str) → all_clear is_break s ≡ true → NoneOf is_break s
  clear s h = NoneOf-all_clear is_break s h

  pub adjective-clear :
      (before : Str) (origin : Origin) (after : Str)
      → all_clear is_break before ≡ true
      → all_clear is_break after ≡ true
      → NoneOf is_break (before ++ (adjective origin ++ after))
  unfolding adjective all_clear
  adjective-clear before approved after b a = NoneOf-append is_break before _ (clear before b) (
      NoneOf-append is_break (codes "approved") after (clear (codes "approved") refl)
        (clear after a))
  adjective-clear before learned after b a = NoneOf-append is_break before _ (clear before b) (
      NoneOf-append is_break (codes "learned") after (clear (codes "learned") refl) (clear after a))
