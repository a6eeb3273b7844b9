-- ===== src/Tests/Listings.antt =====
-- The JSON that the command line prints.
use pfsnitch.Base.{
  [], ◌∷◌, some, none, ◌≡◌, refl, any, contains, length, AreDistinct, map, list_eq, nat_eq,
}
use pfsnitch.Cli.Apps.Grouping.{order-group, with_split, is_under}
use pfsnitch.Cli.Apps.Listing.{order, rules_of, cmd_apps}
use pfsnitch.Cli.Apps.Printed.{cmd_apps-Says, apps_value}
use pfsnitch.Cli.Apps.{group}
use pfsnitch.Cli.Json.Grammar.{array}
use pfsnitch.Cli.Json.Rules.{rules_json-Says, values_of, rule_value}
use pfsnitch.Cli.Json.Status.{status_json, summary, default_prompt}
use pfsnitch.Cli.Json.Totals.{status_json-Says, sum_counts}
use pfsnitch.Cli.Json.Unique.{Says}
use pfsnitch.Cli.Json.{rules_json, rows, rule_json, quoted, json_escape, escape_char, comment_json}
use pfsnitch.Policy.Load.{load}
use pfsnitch.Policy.Manage.{Rule, rules, kinds, filter}
use pfsnitch.Policy.{visibility, mode_of, prompt_bin}
use pfsnitch.Procinfo.Running.{daemon_running}
use pfsnitch.Seen
use pfsnitch.Tests.{ascii}
use pfsnitch.Text.{Str, codes}

abbrev commented : Rule
commented = record {
  kind = codes "allow-app";
  value = codes "/bin/a\"b";
  comment = some (codes "mine");
}

abbrev bare : Rule
bare = record { kind = codes "deny-host"; value = codes "a.b"; comment = none }

rules_json-text :
    rules_json (commented ∷ bare ∷ [])
    ≡ codes
        "[\n  {\"kind\":\"allow-app\",\"value\":\"/bin/a\\\"b\",\"comment\":\"mine\"},\n  {\"kind\":\"deny-host\",\"value\":\"a.b\",\"comment\":null}\n]\n"
unfolding rules_json rows rule_json quoted json_escape escape_char comment_json
rules_json-text = refl

rules_json-Says_example :
    Says
      (rules_json (commented ∷ bare ∷ []))
      (array (values_of rule_value (commented ∷ bare ∷ [])))
      (codes "\n")
rules_json-Says_example = rules_json-Says (commented ∷ bare ∷ [])

abbrev policy_text : Str
policy_text = codes "allow-app /bin/web\ndeny-host-from a.b /bin/web\n"

status_json-Says_example :
    Says
      (status_json 7 (some []) none (some policy_text))
      (summary
        (daemon_running 7 (some []))
        (mode_of (load (some policy_text)) visibility)
        (prompt_bin (load (some policy_text)) none default_prompt)
        (rules (some policy_text)))
      (codes "\n")
    × (sum_counts (rules (some policy_text)) kinds ≡ length (rules (some policy_text)))
status_json-Says_example = status_json-Says 7 (some []) none (some policy_text)

order-group_example :
    AreDistinct (order (commented ∷ bare ∷ []))
    × (contains (codes "/bin/a\"b") (order (commented ∷ bare ∷ []))
        ≡ any (λ r. is_under (codes "/bin/a\"b") (with_split r)) (commented ∷ bare ∷ []))
    × (rules_of (codes "/bin/a\"b") (group (commented ∷ bare ∷ []) [])
        ≡ filter (is_under (codes "/bin/a\"b")) (map with_split (commented ∷ bare ∷ [])))
order-group_example = order-group (codes "/bin/a\"b") (commented ∷ bare ∷ [])

cmd_apps-Says_example :
    Says
      (cmd_apps 1700000000 (some policy_text) (some (codes "1699999999\ta.b\t/bin/web\n")))
      (apps_value 1700000000
        (Seen.load (some (codes "1699999999\ta.b\t/bin/web\n")))
        (rules (some policy_text)))
      (codes "\n")
cmd_apps-Says_example =
    cmd_apps-Says 1700000000 (some policy_text) (some (codes "1699999999\ta.b\t/bin/web\n"))
