-- ===== src/Cli/Apps/Listing.antt =====
-- src/main.rs: `cmd_apps` with `--json`. The clock is read once.
use pfsnitch.Base.{
  ℕ, ◌-◌, Bool, List, [], ◌∷◌, ◌++◌, map, Option, none, some, ◌==◌, nat_eq, list_eq, if◌then◌else◌,
  length, lookup, unwrap_or, ltb,
}
use pfsnitch.Cli.Apps.{
  Split, Groups, group, dir_and_name, short_dir, latest, keep, rule_seen, sort_apps,
}
use pfsnitch.Cli.Json.{quoted, in_quotes, comment_json, rows}
use pfsnitch.Policy.Load.{File}
use pfsnitch.Policy.Manage.{Rule, rules, filter}
use pfsnitch.Seen.{Stamps, ago, load}
use pfsnitch.Text.Numbers.{show_decimal}
use pfsnitch.Text.{Str, codes, is_empty, Unicode}

unfoldable pub rules_of : Str → Groups → List (Rule × Split)
rules_of app g = unwrap_or (lookup app g) []

abbrev pub is_allowed : Rule × Split → Bool
is_allowed (r, s) = s.effect == codes "allow"

unfoldable pub allowed : List (Rule × Split) → ℕ
allowed rs = length (filter is_allowed rs)

-- `max` of two that may be missing.
unfoldable pub newer : Option ℕ → Option ℕ → Option ℕ
newer none b = b
newer (some a) none = some a
newer (some a) (some b) = some (if ltb a b then b else a)

unfoldable pub stamp_json : Option ℕ → Str
stamp_json none = codes "null"
stamp_json (some t) = show_decimal t

unfoldable pub app_names : Str → Str × Str → Str
app_names app (dir, name) =
    codes "  {\n    \"app\":"
    ++ (quoted app
        ++ (codes ",\n    \"dir\":"
            ++ (quoted dir
                ++ (codes ",\n    \"dir_short\":"
                    ++ (quoted (short_dir dir 15) ++ (codes ",\n    \"name\":" ++ quoted name))))))

unfoldable pub app_counts : List (Rule × Split) → Str
app_counts rs =
    codes ",\n    \"allow\":"
    ++ (show_decimal (allowed rs)
        ++ (codes ",\"deny\":"
            ++ (show_decimal (length rs - allowed rs)
                ++ (codes ",\"total\":" ++ show_decimal (length rs)))))

module _ ⦃u : Unicode⦄ where
  -- The applications, sorted.
  unfoldable pub order : List Rule → List Str
  order rs = sort_apps (map (λ e. e.0) (group rs []))

  unfoldable pub newest : Stamps → Str → List (Rule × Split) → Option ℕ
  newest last app [] = none
  newest last app ((r, s) ∷ rs) = newer (rule_seen last app s) (newest last app rs)

  unfoldable pub app_seen : Stamps → Str → List (Rule × Split) → Option ℕ
  app_seen last app rs =
      if is_empty app then newest last app rs else latest (keep (λ k. k.0 == app) last)

  unfoldable pub app_rule_json : ℕ → Stamps → Str → Rule × Split → Str
  app_rule_json now last app (r, s) =
      let seen = rule_seen last app s in
      codes "      {\"kind\":"
      ++ (quoted r.kind
          ++ (codes ",\"value\":"
              ++ (quoted r.value
                  ++ (codes ",\"dest\":"
                      ++ (quoted s.dest
                          ++ (codes ",\"effect\":"
                              ++ (in_quotes s.effect
                                  ++ (codes ",\"last_seen\":"
                                      ++ (stamp_json seen
                                          ++ (codes ",\"last_seen_ago\":"
                                              ++ (quoted (ago seen now)
                                                  ++ (codes ",\"comment\":"
                                                      ++ (comment_json r.comment
                                                          ++ codes "}")))))))))))))

  unfoldable pub app_json : ℕ → Stamps → Groups → Str → Str
  app_json now last g app =
      let rs = rules_of app g in
      let seen = app_seen last app rs in
      app_names app (dir_and_name app)
      ++ (app_counts rs
          ++ (codes ",\n    \"last_seen\":"
              ++ (stamp_json seen
                  ++ (codes ",\"last_seen_ago\":"
                      ++ (quoted (ago seen now)
                          ++ (codes ",\n    \"rules\":[\n"
                              ++ (rows (app_rule_json now last app) rs ++ codes "    ]\n  }")))))))

  unfoldable pub apps_json : ℕ → Stamps → List Rule → Str
  apps_json now last rs =
      codes "{\"apps\":[\n" ++ (rows (app_json now last (group rs [])) (order rs) ++ codes "]}\n")

  -- What is printed for the policy file and the file of last contacts.
  unfoldable pub cmd_apps : ℕ → File → File → Str
  cmd_apps now file seen_file = apps_json now (load seen_file) (rules file)
