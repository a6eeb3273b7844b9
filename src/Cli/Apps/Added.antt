-- ===== src/Cli/Apps/Added.antt =====
-- src/main.rs: a rule that `pfsnitch allow` or `pfsnitch deny` adds, as the listing shows it.
use mathlib.Core.Path.{subst}
use pfsnitch.Base.{
  true, false, [], ◌∷◌, ◌++◌, Option, none, some, ◌≡◌, ◌≢◌, refl, ◌∙◌, ap, sym, arith, any,
  contains, ◌==◌, nat_eq, list_eq, unwrap_or, if◌then◌else◌,
}
use pfsnitch.Cli.Apps.{
  split_rule, IsScopedKind, allow_host, allow_dest, deny_host, deny_dest, kind_of-IsScopedKind,
  split_rule-IsScopedKind,
}
use pfsnitch.Cli.{kind_of, scoped_value}
use pfsnitch.Policy.Load.Lines.{
  IsTrimmed, IsTrimmed-pair, trim-IsTrimmed, is_hash, split_scoped-pair,
}
use pfsnitch.Policy.Load.{File, if_scoped}
use pfsnitch.Policy.Manage.Adding.{add_rule-rules}
use pfsnitch.Policy.Manage.{
  Rule, rules, matches, kinds, check_rule, noted, add_rule, normalise, lower_target,
  canonical_target,
}
use pfsnitch.Policy.Target.{split_scoped}
use pfsnitch.Text.Laws.{NoneOf, is_break, ends_line}
use pfsnitch.Text.{Str, codes, is_white, ends_with, strip_prefix, Unicode}

module _ ⦃u : Unicode⦄ where
  -- The destination as a rule of a kind is written with it: the host in lower case, and the address,
  -- if it is one, as it is printed.
  unfoldable pub written_dest : Str → Str → Str
  written_dest kind value =
      if ends_with (codes "host-from") kind
      then lower_target value
      else unwrap_or (canonical_target value) value

  canonical-beside :
      (o : Option Str) (value e : Str)
      → elim o [ some d ↦ d ++ b' ' ∷ e | none ↦ value ++ b' ' ∷ e ] ≡ unwrap_or o value ++ b' ' ∷ e
  canonical-beside none value e = refl
  canonical-beside (some d) value e = refl

  scoped-beside :
      (verb kind value e : Str)
      → IsScopedKind verb kind
      → scoped_value kind value (some e) ≡ value ++ b' ' ∷ e
  unfolding scoped_value ends_with strip_prefix
  scoped-beside _ _ value e allow_host = refl
  scoped-beside _ _ value e allow_dest = refl
  scoped-beside _ _ value e deny_host = refl
  scoped-beside _ _ value e deny_dest = refl

  if_scoped-some :
      (v bad d e : Str) (good : Str → Str → Str)
      → split_scoped v ≡ some (d, e)
      → if_scoped v bad good ≡ good d e
  unfolding if_scoped
  if_scoped-some v bad d e good p = rw (p, if_scoped) refl

  -- A scoped value is normalised in its destination.
  normalise-beside :
      (verb kind value e : Str)
      → IsScopedKind verb kind
      → split_scoped (value ++ b' ' ∷ e) ≡ some (value, e)
      → normalise kind (value ++ b' ' ∷ e) ≡ written_dest kind value ++ b' ' ∷ e
  unfolding normalise written_dest ends_with strip_prefix
  normalise-beside _ _ value e allow_host p = if_scoped-some (value ++ b' ' ∷ e) _ value e _ p
  normalise-beside _ _ value e allow_dest p =
      if_scoped-some (value ++ b' ' ∷ e) _ value e _ p
      ∙ canonical-beside (canonical_target value) value e
  normalise-beside _ _ value e deny_host p = if_scoped-some (value ++ b' ' ∷ e) _ value e _ p
  normalise-beside _ _ value e deny_dest p =
      if_scoped-some (value ++ b' ' ∷ e) _ value e _ p
      ∙ canonical-beside (canonical_target value) value e

  normalise-scoped :
      (verb kind value e : Str)
      → IsScopedKind verb kind
      → value ≢ []
      → NoneOf is_white value
      → IsTrimmed e
      → normalise kind (scoped_value kind value (some e)) ≡ written_dest kind value ++ b' ' ∷ e
  unfolding is_white
  normalise-scoped verb kind value e s ne n t =
      ap (normalise kind) (scoped-beside verb kind value e s)
      ∙ normalise-beside verb kind value e s (split_scoped-pair value b' ' e ne n refl t)

  -- The kinds are words that the list of kinds has.
  IsScopedKind-word :
      (verb kind : Str)
      → IsScopedKind verb kind
      → (contains kind kinds ≡ true) × (kind ≢ []) × NoneOf is_white kind
  unfolding contains kinds is_white
  IsScopedKind-word _ _ allow_host = (refl, (λ e. cc), ground arith)
  IsScopedKind-word _ _ allow_dest = (refl, (λ e. cc), ground arith)
  IsScopedKind-word _ _ deny_host = (refl, (λ e. cc), ground arith)
  IsScopedKind-word _ _ deny_dest = (refl, (λ e. cc), ground arith)

  -- A rule that the command line scopes to a binary is listed under that binary: for every kind of
  -- rule about a host or an address that `--from` makes, a destination that has no white space as it
  -- is given and as it is written, and a binary without white space at its ends, where the rule passes
  -- the checks, is not there yet and can stand in a line of a file that ends in a whole line and can
  -- be written, adding it puts one rule behind those of the file. The listing splits that rule into
  -- the binary, the destination as it is written, with the host in lower case or the address as it is
  -- printed, and the verb as its effect.
  pub split_rule-add_rule :
      (file : File) (verb what kind value e : Str) (text : Option Str)
      → kind_of verb what true ≡ some kind
      → (what == codes "app") ≡ false
      → value ≢ []
      → NoneOf is_white value
      → IsTrimmed e
      → written_dest kind value ≢ []
      → NoneOf is_white (written_dest kind value)
      → check_rule kind (scoped_value kind value (some e)) ≡ none
      → any (matches kind (written_dest kind value ++ b' ' ∷ e)) (rules file) ≡ false
      → ends_line (unwrap_or file []) ≡ true
      → NoneOf is_hash (kind ++ b' ' ∷ (written_dest kind value ++ b' ' ∷ e))
      → NoneOf is_break (kind ++ b' ' ∷ ((written_dest kind value ++ b' ' ∷ e) ++ noted text))
      → (r : Rule) × (rules (add_rule true file kind (scoped_value kind value (some e)) text).1
          ≡ rules file ++ r ∷ [])
        × (split_rule r.kind r.value
            ≡ record { app = e; dest = written_dest kind value; effect = verb })
  unfolding is_white
  split_rule-add_rule file verb what kind value e text k app ne n t ne' n' ok missing ends h whole =
      let s = kind_of-IsScopedKind verb what kind k app in
      let (kd, kne, kw) = IsScopedKind-word verb kind s in
      let norm = normalise-scoped verb kind value e s ne n t in
      let back : (P : Str → Type 0)
          → P (written_dest kind value ++ b' ' ∷ e)
          → P (normalise kind (scoped_value kind value (some e))) =
        λ P. subst P (sym norm) in
      let (c, added) =
        add_rule-rules file kind (scoped_value kind value (some e)) text ok
          (back (λ v. any (matches kind v) (rules file) ≡ false) missing) kd kne kw ends
          (back IsTrimmed (IsTrimmed-pair (written_dest kind value) b' ' e ne' n' t))
          (back (λ v. NoneOf is_hash (kind ++ b' ' ∷ v)) h)
          (back (λ v. NoneOf is_break (kind ++ b' ' ∷ (v ++ noted text))) whole) in
      (
        record {
          kind = kind;
          value = normalise kind (scoped_value kind value (some e));
          comment = c;
        },
        added,
        ap (split_rule kind) (norm ∙ sym (scoped-beside verb kind (written_dest kind value) e s))
            ∙ split_rule-IsScopedKind verb kind (written_dest kind value) e s n'
                (trim-IsTrimmed e t),
      )
