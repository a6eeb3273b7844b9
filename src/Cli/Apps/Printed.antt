-- ===== src/Cli/Apps/Printed.antt =====
-- src/main.rs: what `pfsnitch apps --json` prints says what the listing is.
use mathlib.Core.List.{append_assoc}
use pfsnitch.Base.{
  ℕ, ◌-◌, Bool, false, List, [], ◌∷◌, ◌++◌, map, Option, none, some, ◌≡◌, refl, arith, All, list_eq,
  nat_eq, length, on_bool,
}
use pfsnitch.Cli.Apps.Grouping.{with_split, is_under, rules_of-group}
use pfsnitch.Cli.Apps.Listing.{
  rules_of, allowed, stamp_json, app_names, app_counts, order, app_seen, app_rule_json, app_json,
  apps_json, cmd_apps,
}
use pfsnitch.Cli.Apps.{
  Split, Groups, group, split_rule, effect_of, starts_with, dir_and_name, short_dir, rule_seen,
}
use pfsnitch.Cli.Json.Grammar.{
  Value, null, number, string, array, object, no_members, member, Form, one, values, Reads,
  take_string, ends, onto_first, space, name, first_member, next_member, last_member, last_value,
  empty_array, begins_digit, IsBare, take_string-IsBare, Reads-quoted,
}
use pfsnitch.Cli.Json.Rules.{values_of, optional, rows-Reads, Reads-comment_json, All-Unit}
use pfsnitch.Cli.Json.Unique.{Says, Reads-Says}
use pfsnitch.Cli.Json.{rows, read_char, json_escape, escape_char}
use pfsnitch.Policy.Load.{File}
use pfsnitch.Policy.Manage.{Rule, rules, filter}
use pfsnitch.Seen.{Stamps, ago, load}
use pfsnitch.Text.{Str, codes, Unicode}

abbrev pub stamp : Option ℕ → Value
stamp none = null
stamp (some t) = number t

Reads-stamp_json :
    (o : Option ℕ) (r : Str) → begins_digit r ≡ false → Reads (stamp_json o ++ r) (one (stamp o)) r
unfolding stamp_json
Reads-stamp_json none r d = Reads.null r
Reads-stamp_json (some t) r d = Reads.number t r d

-- The effect is a word of the source.
abbrev HasEffect : Rule × Split → Type 0
HasEffect (r, s) = IsBare s.effect

effect_of-IsBare : (kind : Str) → IsBare (effect_of kind)
unfolding json_escape escape_char
effect_of-IsBare kind = on_bool IsBare (starts_with (codes "deny") kind) _ _ refl refl

split_rule-effect : (kind value : Str) → (split_rule kind value).effect ≡ effect_of kind
unfolding split_rule
split_rule-effect kind value = ground arith

with_split-HasEffect : (r : Rule) → HasEffect (with_split r)
with_split-HasEffect r = rw (split_rule-effect r.kind r.value) (effect_of-IsBare r.kind)

filter-HasEffect :
    (p : Rule × Split → Bool) (rs : List Rule) → All HasEffect (filter p (map with_split rs))
unfolding filter
filter-HasEffect p [] = tt
filter-HasEffect p (r ∷ rs) =
    on_bool (All HasEffect) (p (with_split r)) _ _ (with_split-HasEffect r, filter-HasEffect p rs)
      (filter-HasEffect p rs)

rules_of-HasEffect : (app : Str) (rs : List Rule) → All HasEffect (rules_of app (group rs []))
rules_of-HasEffect app rs = rw (rules_of-group app rs) (filter-HasEffect (is_under app) rs)

four_places : {s r : Str} {f : Form} → Reads s f r → Reads (codes "    " ++ s) f r
four_places h = space b' ' refl (space b' ' refl (space b' ' refl (space b' ' refl h)))

indented : {s r : Str} {f : Form} → Reads s f r → Reads (codes "\n    " ++ s) f r
indented h = space b'\n' refl (four_places h)

module _ ⦃u : Unicode⦄ where
  abbrev pub app_rule_value : ℕ → Stamps → Str → Rule × Split → Value
  app_rule_value now last app (r, s) = object (
      member (codes "kind") (string r.kind) (
        member (codes "value") (string r.value) (
          member (codes "dest") (string s.dest) (
            member (codes "effect") (string s.effect) (
              member (codes "last_seen") (stamp (rule_seen last app s)) (
                member (codes "last_seen_ago") (string (ago (rule_seen last app s) now))
                  (member (codes "comment") (optional r.comment) no_members)))))))

  app_rule_json-Reads :
      (now : ℕ) (last : Stamps) (app : Str) (e : Rule × Split) (t : Str)
      → HasEffect e
      → Reads (app_rule_json now last app e ++ t) (one (app_rule_value now last app e)) t
  unfolding app_rule_json take_string ends onto_first read_char
  app_rule_json-Reads now last app (r, s) t h = simp (append_assoc) (
      space b' ' refl (
        space b' ' refl (
          space b' ' refl (
            space b' ' refl (
              space b' ' refl (
                space b' ' refl (
                  Reads.object (
                    first_member (name refl (Reads-quoted r.kind _)) (
                      next_member (name refl (Reads-quoted r.value _)) (
                        next_member (name refl (Reads-quoted s.dest _)) (
                          next_member (name refl (Reads.string (take_string-IsBare _ _ h))) (
                            next_member (name refl (Reads-stamp_json (rule_seen last app s) _ refl))
                              (next_member
                                (name refl (Reads-quoted (ago (rule_seen last app s) now) _))
                                (next_member (name refl (Reads-comment_json r.comment _))
                                  (last_member t)))))))))))))))

  abbrev pub app_value : ℕ → Stamps → Groups → Str → Value
  app_value now last g app =
      let rs = rules_of app g in
      let seen = app_seen last app rs in
      object (
        member (codes "app") (string app) (
          member (codes "dir") (string (dir_and_name app).0) (
            member (codes "dir_short") (string (short_dir (dir_and_name app).0 15)) (
              member (codes "name") (string (dir_and_name app).1) (
                member (codes "allow") (number (allowed rs)) (
                  member (codes "deny") (number (length rs - allowed rs)) (
                    member (codes "total") (number (length rs)) (
                      member (codes "last_seen") (stamp seen) (
                        member (codes "last_seen_ago") (string (ago seen now)) (
                          member (codes "rules")
                            (array (values_of (app_rule_value now last app) rs))
                            no_members))))))))))

  rules_Reads :
      (now : ℕ) (last : Stamps) (app : Str) (under : List (Rule × Split)) (t : Str)
      → All HasEffect under
      → Reads
          (rows (app_rule_json now last app) under ++ (codes "    ]\n  }" ++ t))
          (values (values_of (app_rule_value now last app) under))
          (codes "\n  }" ++ t)
  rules_Reads now last app under t h =
      rows-Reads HasEffect (app_rule_json now last app) (app_rule_value now last app)
        (app_rule_json-Reads now last app) (codes "    ]\n  }" ++ t) (codes "\n  }" ++ t)
        (four_places (empty_array _)) (four_places (last_value _)) under h

  app_json-Reads :
      (now : ℕ) (last : Stamps) (rs : List Rule) (app t : Str)
      → Unit {0}
      → Reads
          (app_json now last (group rs []) app ++ t)
          (one (app_value now last (group rs []) app))
          t
  unfolding app_json app_names app_counts take_string ends onto_first read_char
  app_json-Reads now last rs app t _ =
      let under = rules_of app (group rs []) in
      let seen = app_seen last app under in
      let names = dir_and_name app in
      let rules_end : Str = codes "\n  }" ++ t in
      simp (append_assoc) (
        space b' ' refl (
          space b' ' refl (
            object (
              indented (
                first_member (name refl (Reads-quoted app _)) (
                  next_member (indented (name refl (Reads-quoted names.0 _))) (
                    next_member (indented (name refl (Reads-quoted (short_dir names.0 15) _))) (
                      next_member (indented (name refl (Reads-quoted names.1 _))) (
                        next_member (indented (name refl (number (allowed under) _ refl))) (
                          next_member (name refl (number (length under - allowed under) _ refl)) (
                            next_member (name refl (number (length under) _ refl)) (
                              next_member (indented (name refl (Reads-stamp_json seen _ refl))) (
                                next_member (name refl (Reads-quoted (ago seen now) _)) (
                                  next_member
                                    (indented (
                                      name refl (
                                        array (
                                          space b'\n' refl (
                                            rules_Reads now last app under t
                                              (rules_of-HasEffect app rs))))))
                                    (space b'\n' refl (
                                      space b' ' refl
                                        (space b' ' refl (last_member t))))))))))))))))))

  abbrev pub apps_value : ℕ → Stamps → List Rule → Value
  apps_value now last rs = object (
      member (codes "apps") (array (values_of (app_value now last (group rs [])) (order rs)))
        no_members)

  -- What `pfsnitch apps --json` prints is a JSON text, whatever the policy file and the file of last
  -- contacts hold, and says exactly what the listing is: for each application, in order, its names,
  -- its numbers of rules, its last contact, and its rules in the order of the file, each with what it
  -- is about, its effect, its last contact and its comment.
  pub cmd_apps-Says :
      (now : ℕ) (file seen_file : File)
      → Says
          (cmd_apps now file seen_file)
          (apps_value now (load seen_file) (rules file))
          (codes "\n")
  unfolding cmd_apps apps_json take_string ends onto_first read_char
  cmd_apps-Says now file seen_file =
      let rs = rules file in
      let last = load seen_file in
      Reads-Says _ _ _ (
        object (
          first_member
            (name refl (
              array (
                space b'\n' refl (
                  rows-Reads (λ _. Unit {0}) (app_json now last (group rs []))
                    (app_value now last (group rs [])) (app_json-Reads now last rs) (codes "]}\n")
                    (codes "}\n") (empty_array _) (last_value _) (order rs)
                    (All-Unit (order rs))))))
            (last_member (codes "\n"))))
