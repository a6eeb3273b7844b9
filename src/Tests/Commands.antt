-- ===== src/Tests/Commands.antt =====
-- The command line: rules that are added and listed, the JSON of a comment, and a short directory.
use pfsnitch.Base.{
  ℕ, List, any, true, [], ◌∷◌, ◌++◌, some, none, ◌≡◌, ◌≢◌, sym, ◌∙◌, refl, arith, list_eq, nat_eq,
  contains,
}
use pfsnitch.Cli.Apps.{split_rule, short_dir, from_slash}
use pfsnitch.Cli.Apps.Added.{split_rule-add_rule, written_dest}
use pfsnitch.Policy.Load.{File, if_scoped}
use pfsnitch.Policy.Load.Lines.{IsTrimmed-word}
use pfsnitch.Policy.Manage.{
  Rule, rules, add_rule, check_rule, check_scoped, parse_lines, noted, kinds, lower_target,
  parse_line, parse_body, split_comment, filter,
}
use pfsnitch.Policy.Target.{
  split_target, join_target, split_trimmed, split_bracket, split_port, has_colon, split_scoped,
  scoped_parts,
}
use pfsnitch.Addr.{is_v6}
use pfsnitch.Cli.Dispatch.{
  daemon_running-dispatch, is_other_daemon, dispatch, named_command, short_command, is_run,
}
use pfsnitch.Cli.Json.{json_escape, escape_char}
use pfsnitch.Cli.{kind_of, scoped_value, arg_after, cmd_add, usage}
use pfsnitch.Procinfo.Running.{Running, daemon_running, program_of}
use pfsnitch.Tests.{ascii}
use pfsnitch.Text.{
  ends_with, lines, line_step, begins_newline, onto_first_line, is_empty, Str, split_last, codes,
  is_white, trim, trim_start, trim_end, trim_onto, split_first,
}

json_escape-quote : json_escape (codes "a\"\n") ≡ codes "a\\\"\\n"
unfolding json_escape escape_char
json_escape-quote = refl

json_escape-control : json_escape (0x1f ∷ []) ≡ codes "\\u001f"
unfolding json_escape escape_char
json_escape-control = refl

short_dir-share :
    short_dir (codes "/usr/local/share/chromium/lib/") 15 ≡ 0x2026 ∷ codes "/chromium/lib/"
unfolding short_dir split_first from_slash
short_dir-share = refl

arg_after-last : arg_after (codes "--from") (codes "--from" ∷ []) ≡ none
unfolding arg_after
arg_after-last = refl

-- `--from` with nothing behind it is refused, and never widened to a rule for every binary.
cmd_add-bare_from :
    cmd_add true none
      (codes "pfsnitch" ∷ codes "deny" ∷ codes "host" ∷ codes "a.b" ∷ codes "--from" ∷ [])
      (codes "deny")
    ≡ (usage, none)
unfolding cmd_add arg_after contains
cmd_add-bare_from = refl

-- A host in capitals is denied to one binary, in a file with a rule for another host.
abbrev denying_file : File
denying_file = some (codes "mode enforcement\nallow-host c.d\n")

written_dest-lower : written_dest (codes "deny-host-from") (codes "A.b") ≡ codes "a.b"
unfolding written_dest lower_target split_target join_target split_trimmed split_bracket split_port
    has_colon trim trim_start trim_end trim_onto is_empty split_last split_first is_white is_v6
    ends_with
written_dest-lower = refl

lower-not_empty : (codes "a.b") ≢ []
lower-not_empty e = cc

split_rule-add_rule_example :
    (r : Rule) × (rules
        (add_rule true denying_file
          (codes "deny-host-from")
          (scoped_value (codes "deny-host-from") (codes "A.b") (some (codes "/bin/a")))
          none).1
      ≡ rules denying_file ++ r ∷ [])
    × (split_rule r.kind r.value ≡ record {
      app = codes "/bin/a";
      dest = written_dest (codes "deny-host-from") (codes "A.b");
      effect = codes "deny";
    })
unfolding kind_of is_white written_dest lower_target split_target join_target split_trimmed
    split_bracket split_port has_colon trim trim_start trim_end trim_onto is_empty split_last
    split_first is_v6 rules check_rule scoped_value noted kinds contains lines begins_newline
    onto_first_line line_step parse_line parse_body split_comment filter ends_with check_scoped
    if_scoped split_scoped scoped_parts any parse_lines
split_rule-add_rule_example =
    split_rule-add_rule denying_file (codes "deny") (codes "host") (codes "deny-host-from")
      (codes "A.b") (codes "/bin/a") none refl refl (λ e. cc) (ground arith)
      (IsTrimmed-word (codes "/bin/a") (λ e. cc) (ground arith))
      (λ e. lower-not_empty (sym written_dest-lower ∙ e)) (ground arith) refl refl refl
      (ground arith) (ground arith)

abbrev process : ℕ → Str → Running
process pid command = record { pid = pid; argv = some (codes "/sbin/pfsnitch" ∷ command ∷ []) }

-- The process that asks, a listing, and the daemon.
abbrev processes : List Running
processes =
    process 7 (codes "enforcement") ∷ process 8 (codes "rules") ∷ process 9 (codes "listen") ∷ []

daemon_running-dispatch_example :
    daemon_running 7 (some processes) ≡ any (is_other_daemon 7) processes
daemon_running-dispatch_example = daemon_running-dispatch 7 processes

daemon_running-found : any (is_other_daemon 7) processes ≡ true
unfolding any program_of split_last dispatch named_command short_command is_run
daemon_running-found = refl
