-- ===== src/Policy/Manage/Fields.antt =====
-- src/policy.rs: the lines of the mode and of the attribution, written and read.
use pfsnitch.Base.{
  true, false, [], ◌∷◌, ◌<◌, none, some, ◌≡◌, ◌≢◌, ◌⊎◌, inl, inr, refl, ◌∙◌, arith, ◌==◌, nat_eq,
  list_eq, All,
}
use pfsnitch.Policy.Load.Lines.{load_line-bare, is_hash, IsTrimmed-word}
use pfsnitch.Policy.Load.{
  Directive, default, allow_app, deny_app, allow_host, deny_host, prompt, mode, attribution,
  unknown, directive, apply_directive, load_line, if_ip, if_scoped,
}
use pfsnitch.Policy.Manage.Edit.{setting}
use pfsnitch.Policy.Manage.Setting.{IsField}
use pfsnitch.Policy.{
  Policy, Mode, visibility, enforcement, show_mode, parse_mode, AttributionMode, procstat, kernel,
  show_attribution, parse_attribution,
}
use pfsnitch.Text.Laws.{NoneOf, is_break}
use pfsnitch.Text.{Str, codes, is_white, is_empty, trim, trim_start, trim_end, trim_onto, Unicode}

-- A value that is one word of ASCII.
record IsWord (v : Str) : Type 0 where
  not_empty : v ≢ []
  word : NoneOf is_white v
  no_hash : NoneOf is_hash v
  no_break : NoneOf is_break v
  ascii : All (λ c. c < 128) v

show_mode-IsWord : (m : Mode) → IsWord (show_mode m)
unfolding show_mode is_white
show_mode-IsWord visibility = record {
  not_empty = λ e. cc;
  word = ground arith;
  no_hash = ground arith;
  no_break = ground arith;
  ascii = ground arith;
}
show_mode-IsWord enforcement = record {
  not_empty = λ e. cc;
  word = ground arith;
  no_hash = ground arith;
  no_break = ground arith;
  ascii = ground arith;
}

show_attribution-IsWord : (a : AttributionMode) → IsWord (show_attribution a)
unfolding show_attribution is_white
show_attribution-IsWord procstat = record {
  not_empty = λ e. cc;
  word = ground arith;
  no_hash = ground arith;
  no_break = ground arith;
  ascii = ground arith;
}
show_attribution-IsWord kernel = record {
  not_empty = λ e. cc;
  word = ground arith;
  no_hash = ground arith;
  no_break = ground arith;
  ascii = ground arith;
}

module _ ⦃u : Unicode⦄ where
  parse_mode-show_mode : (m : Mode) → parse_mode (show_mode m) ≡ some m
  unfolding parse_mode show_mode trim trim_start trim_end trim_onto is_white
  parse_mode-show_mode visibility = rw (u.lower_ascii (codes "visibility") (ground arith))
  parse_mode-show_mode enforcement = rw (u.lower_ascii (codes "enforcement") (ground arith))

  parse_attribution-show_attribution :
      (a : AttributionMode) → parse_attribution (show_attribution a) ≡ some a
  unfolding parse_attribution show_attribution trim trim_start trim_end trim_onto is_white
  parse_attribution-show_attribution procstat = rw (u.lower_ascii (codes "procstat") (ground arith))
  parse_attribution-show_attribution kernel = rw (u.lower_ascii (codes "kernel") (ground arith))

  parse_mode-empty : parse_mode [] ≡ none
  unfolding parse_mode trim trim_start trim_end
  parse_mode-empty = rw (u.lower_ascii [] tt)

  parse_attribution-empty : parse_attribution [] ≡ none
  unfolding parse_attribution trim trim_start trim_end
  parse_attribution-empty = rw (u.lower_ascii [] tt)

  -- The line that is written is read as the setting, and nothing else.
  pub load_line-mode :
      (p : Policy) (m : Mode)
      → load_line p (setting (codes "mode") (show_mode m)) ≡ record p { mode = some m }
  unfolding setting
  load_line-mode p m =
      let w = show_mode-IsWord m in
      load_line-bare p (codes "mode") (show_mode m) (λ e. cc) (unfold is_white in ground arith)
        (unfold is_white in ground (arith, w.no_hash))
        (IsTrimmed-word (show_mode m) w.not_empty w.word)
      ∙ unfold directive apply_directive in rw (parse_mode-show_mode m, apply_directive) refl

  pub load_line-attribution :
      (p : Policy) (a : AttributionMode)
      → load_line p (setting (codes "attribution") (show_attribution a))
        ≡ record p { attribution = some a }
  unfolding setting
  load_line-attribution p a =
      let w = show_attribution-IsWord a in
      load_line-bare p (codes "attribution") (show_attribution a) (λ e. cc)
        (unfold is_white in ground arith) (unfold is_white in ground (arith, w.no_hash))
        (IsTrimmed-word (show_attribution a) w.not_empty w.word)
      ∙ unfold directive apply_directive in
        rw (parse_attribution-show_attribution a, apply_directive) refl

  only_mode :
      (d : Directive) (p : Policy) (v : Str)
      → ((apply_directive d p v).mode ≡ p.mode) ⊎ ((d ≡ mode) × (is_empty v ≡ false))
  unfolding apply_directive if_scoped if_ip
  only_mode mode p [] = inl (rw (parse_mode-empty, apply_directive))
  only_mode mode p (c ∷ v) = unfold is_empty in inr (refl, refl)
  only_mode default p v = inl refl
  only_mode allow_app p v = inl refl
  only_mode deny_app p v = inl refl
  only_mode allow_host p v = inl refl
  only_mode deny_host p v = inl refl
  only_mode prompt p v = inl refl
  only_mode unknown p v = inl refl
  only_mode _ p v = inl (ground arith)

  only_attribution :
      (d : Directive) (p : Policy) (v : Str)
      → ((apply_directive d p v).attribution ≡ p.attribution)
        ⊎ ((d ≡ attribution) × (is_empty v ≡ false))
  unfolding apply_directive if_scoped if_ip
  only_attribution attribution p [] = inl (rw (parse_attribution-empty, apply_directive))
  only_attribution attribution p (c ∷ v) = unfold is_empty in inr (refl, refl)
  only_attribution default p v = inl refl
  only_attribution allow_app p v = inl refl
  only_attribution deny_app p v = inl refl
  only_attribution allow_host p v = inl refl
  only_attribution deny_host p v = inl refl
  only_attribution prompt p v = inl refl
  only_attribution unknown p v = inl refl
  only_attribution _ p v = inl (ground arith)

  same_mode :
      (d : Directive) (p q : Policy) (v : Str)
      → p.mode ≡ q.mode
      → (apply_directive d p v).mode ≡ (apply_directive d q v).mode
  unfolding apply_directive if_scoped if_ip
  same_mode default p q v e = e
  same_mode allow_app p q v e = e
  same_mode deny_app p q v e = e
  same_mode allow_host p q v e = e
  same_mode deny_host p q v e = e
  same_mode prompt p q v e = e
  same_mode unknown p q v e = e
  same_mode _ p q v e = ground (arith, e)

  same_attribution :
      (d : Directive) (p q : Policy) (v : Str)
      → p.attribution ≡ q.attribution
      → (apply_directive d p v).attribution ≡ (apply_directive d q v).attribution
  unfolding apply_directive if_scoped if_ip
  same_attribution default p q v e = e
  same_attribution allow_app p q v e = e
  same_attribution deny_app p q v e = e
  same_attribution allow_host p q v e = e
  same_attribution deny_host p q v e = e
  same_attribution prompt p q v e = e
  same_attribution unknown p q v e = e
  same_attribution _ p q v e = ground (arith, e)

  directive-mode : (k : Str) → directive k ≡ mode → (k == codes "mode") ≡ true
  unfolding directive
  directive-mode k h = ground (arith, h)

  directive-attribution : (k : Str) → directive k ≡ attribution → (k == codes "attribution") ≡ true
  unfolding directive
  directive-attribution k h = ground (arith, h)

  pub mode-IsField : IsField (codes "mode") mode (λ p. p.mode)
  mode-IsField = record { only = only_mode; keyed = directive-mode; same = same_mode }

  pub attribution-IsField : IsField (codes "attribution") attribution (λ p. p.attribution)
  attribution-IsField = record {
    only = only_attribution;
    keyed = directive-attribution;
    same = same_attribution;
  }

  pub setting-mode-whole : (m : Mode) → NoneOf is_break (setting (codes "mode") (show_mode m))
  unfolding setting
  setting-mode-whole m = ground (arith, (show_mode-IsWord m).no_break)

  pub setting-attribution-whole :
      (a : AttributionMode) → NoneOf is_break (setting (codes "attribution") (show_attribution a))
  unfolding setting
  setting-attribution-whole a = ground (arith, (show_attribution-IsWord a).no_break)
