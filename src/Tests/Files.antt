-- ===== src/Tests/Files.antt =====
-- Policy files that are written and read.
use mathlib.Core.Path.{subst}
use pfsnitch.Addr.{IpAddr, v4, addr_eq, is_v6, parse_ip, show_ip}
use pfsnitch.Base.{
  ◌+◌, true, [], ◌∷◌, none, some, ◌≡◌, inr, refl, arith, not, length, list_eq, pair_eq, nat_eq,
  contains,
}
use pfsnitch.Policy.Load.Lines.{IsTrimmed-word}
use pfsnitch.Policy.Load.{load}
use pfsnitch.Policy.Manage.Atomic.{Untouched, removal-Untouched}
use pfsnitch.Policy.Manage.Adding.{add_rule-again}
use pfsnitch.Policy.Manage.Bulk.{clear_rules-entries, remove_app-entries}
use pfsnitch.Policy.Manage.Removal.{remove_rule-entries, entries}
use pfsnitch.Policy.Manage.Settings.{set_mode-load, set_attribution-load}
use pfsnitch.Policy.Manage.{
  add_rule, present, check_rule, noted, rules, filter, matches, normalise, lower_target, parse_line,
  parse_body, split_comment, kinds,
}
use pfsnitch.Policy.Manage.Edit.{
  Disk, no_fault, cut_short, remove_rule, remove_app, clear_rules, is_of_app, is_app_line, set_mode,
  set_attribution, is_cleared, set_directive, with_text, write_kept, write_atomic, keep_lines,
  push_line, is_hit, backed_up, back_up, is_rule_line,
}
use pfsnitch.Policy.Record.Persist.{record_decision-load}
use pfsnitch.Policy.Record.Persist.Apply.{IsPath, IsDest, IsStorable}
use pfsnitch.Policy.Record.{record_decision, named}
use pfsnitch.Policy.Target.RoundTrip.{IsSpelled, split_target-join_target}
use pfsnitch.Policy.Target.{
  split_target, join_target, split_trimmed, split_bracket, split_port, has_colon,
}
use pfsnitch.Policy.{block, approved, enforcement, kernel}
use pfsnitch.Tests.{ascii}
use pfsnitch.Text.Numbers.{show_digits, parse_unsigned, bounded}
use pfsnitch.Text.{
  Str, codes, is_white, is_empty, lines, line_step, begins_newline, onto_first_line, split_first,
  split_last, trim, trim_start, trim_end, trim_onto,
}

abbrev browser : Str
browser = codes "/bin/web"

abbrev site : IpAddr
site = v4 (203 ∷ 0 ∷ 113 ∷ 9 ∷ [])

name-IsSpelled : IsSpelled (codes "a.example") 443
unfolding is_white is_v6
name-IsSpelled = record {
  word = ground arith;
  not_empty = λ e. cc;
  port = omega arith;
  form = inr (ground arith);
}

split_target-join_target_example :
    split_target (codes "a.example:443") ≡ (codes "a.example", some 443)
unfolding join_target is_v6 show_digits
split_target-join_target_example = split_target-join_target (codes "a.example") 443 name-IsSpelled

site-IsSpelled : IsSpelled (codes "203.0.113.9") 443
unfolding is_white is_v6
site-IsSpelled = record {
  word = ground arith;
  not_empty = λ e. cc;
  port = omega arith;
  form = inr (ground arith);
}

abbrev text : Str
text = codes "default ask # mine\nmode enforcement\nallow-host A.example:443\nallow-app /bin/web\n"

abbrev disk : Disk
disk = record { policy = some text; temporary = none; backup = none }

set_mode-load_example :
    ((load (set_mode no_fault disk enforcement).1.policy).mode ≡ some enforcement)
    × ((load (set_mode no_fault disk enforcement).1.policy).attribution
        ≡ (load disk.policy).attribution)
unfolding set_mode set_directive write_atomic
set_mode-load_example = set_mode-load no_fault disk enforcement (ground arith) refl

set_attribution-load_example :
    ((load (set_attribution no_fault disk kernel).1.policy).attribution ≡ some kernel)
    × ((load (set_attribution no_fault disk kernel).1.policy).mode ≡ (load disk.policy).mode)
unfolding set_attribution set_directive write_atomic
set_attribution-load_example = set_attribution-load no_fault disk kernel (ground arith) refl

-- Rules of the same host in another spelling match.
remove_rule-entries_example :
    (entries (remove_rule no_fault disk (codes "allow-host") (codes "a.EXAMPLE:443")).1.policy
      ≡ filter
          (λ r. not (
            matches
              (codes "allow-host")
              (normalise (codes "allow-host") (codes "a.EXAMPLE:443"))
              r))
          (entries disk.policy))
    × (length (entries disk.policy)
        ≡ 1
          + length (
              entries
                (remove_rule no_fault disk (codes "allow-host") (codes "a.EXAMPLE:443")).1.policy))
unfolding remove_rule with_text write_kept write_atomic keep_lines push_line is_hit lines line_step
    begins_newline onto_first_line parse_line parse_body split_comment split_first trim trim_start
    trim_end trim_onto is_white is_empty normalise lower_target split_target split_trimmed
    split_bracket split_port split_last has_colon join_target is_v6 show_digits parse_unsigned
    bounded
remove_rule-entries_example =
    remove_rule-entries no_fault disk (codes "allow-host") (codes "a.EXAMPLE:443") text 1 refl
      (ground arith) refl

clear_rules-entries_example :
    (rules (clear_rules none no_fault disk).1.policy ≡ [])
    × (entries (clear_rules none no_fault disk).1.policy
        ≡ filter (λ r. not (is_cleared r)) (entries disk.policy))
    × ((clear_rules none no_fault disk).1.backup ≡ some text)
unfolding clear_rules backed_up back_up is_rule_line kinds contains with_text write_kept
    write_atomic keep_lines push_line is_hit lines line_step begins_newline onto_first_line
    parse_line parse_body split_comment split_first trim trim_start trim_end trim_onto is_white
    is_empty
clear_rules-entries_example = clear_rules-entries none no_fault disk text 2 refl (ground arith) refl

removal-Untouched_example :
    Untouched disk (remove_rule (cut_short 3) disk (codes "allow-app") browser)
    × Untouched disk (remove_app none (cut_short 3) disk browser)
    × Untouched disk (clear_rules none (cut_short 3) disk)
removal-Untouched_example =
    removal-Untouched none (cut_short 3) disk (codes "allow-app") browser browser

browser-IsPath : IsPath browser
unfolding is_white
browser-IsPath = record {
  trimmed = IsTrimmed-word browser (λ e. cc) (ground arith);
  no_hash = ground arith;
  no_break = ground arith;
}

site-IsDest : IsDest (show_ip site) 443
unfolding join_target show_digits is_v6 show_ip
site-IsDest = record { spelled = site-IsSpelled; no_hash = ground arith; not_empty = λ e. cc }

name-IsDest : IsDest (codes "a.example") 443
unfolding join_target show_digits is_v6
name-IsDest = record { spelled = name-IsSpelled; no_hash = ground arith; not_empty = λ e. cc }

site-IsStorable : IsStorable (some browser) (named (some (codes "a.example"))) site 443
unfolding named is_empty parse_ip show_ip
site-IsStorable = record {
  path = λ e h. subst IsPath (cc h) browser-IsPath;
  dest = λ n h. subst (λ x. IsDest x 443) (cc h) name-IsDest;
  address = site-IsDest;
  parsed = refl;
}

record_decision-load_example :
    load
      (record_decision
        (load (some text))
        true
        (some text)
        block
        (some browser)
        site
        (some (codes "a.example"))
        443
        approved).1
    ≡ (record_decision
        (load (some text))
        true
        (some text)
        block
        (some browser)
        site
        (some (codes "a.example"))
        443
        approved).0
record_decision-load_example =
    record_decision-load (some text) refl block (some browser) site (some (codes "a.example")) 443
      approved site-IsStorable

remove_app-entries_example :
    (entries (remove_app none no_fault disk browser).1.policy
      ≡ filter (λ r. not (is_of_app browser r)) (entries disk.policy))
    × ((remove_app none no_fault disk browser).1.backup ≡ some text)
unfolding remove_app backed_up back_up is_app_line is_of_app kinds contains with_text write_kept
    write_atomic keep_lines push_line is_hit lines line_step begins_newline onto_first_line
    parse_line parse_body split_comment split_first trim trim_start trim_end trim_onto is_white
    is_empty
remove_app-entries_example =
    remove_app-entries none no_fault disk browser text 1 refl (ground arith) refl

-- The browser is allowed in the file already, the player is not.
add_rule-again_example :
    add_rule true
      (add_rule true (some text) (codes "allow-app") (codes "/bin/play") (some (codes "new"))).1
      (codes "allow-app")
      (codes "/bin/play")
      none
    ≡ (
      present,
      (add_rule true (some text) (codes "allow-app") (codes "/bin/play") (some (codes "new"))).1,
    )
unfolding check_rule contains kinds normalise is_white noted
add_rule-again_example =
    add_rule-again true (some text) (codes "allow-app") (codes "/bin/play") (some (codes "new"))
      none refl refl (λ e. cc) (ground arith) refl
      (IsTrimmed-word (codes "/bin/play") (λ e. cc) (ground arith)) (ground arith) (ground arith)
      refl
