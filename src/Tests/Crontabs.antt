-- ===== src/Tests/Crontabs.antt =====
-- internal/cron on concrete rows and tables.
use serverkit_agent.Base.{
  some, none, ◌++◌, true, not, List, [], ◌∷◌, none, contains, has_prefix, trim_space, trim_left,
  trim_right_by, fields, is_space, join, trim_prefix, Text, codes, text_eq, select, All, ◌≡◌, refl,
}
use serverkit_agent.Cron.{
  Hash, entry_id, parse_line, parse_fields, row, validate_command, validate_schedule, first_blocked,
  blocked_shell_patterns, first_field, invalid_in, schedule_field, schedule_char, all_chars,
}
use serverkit_agent.Cron.Rows.{parse_line-row, entry_of}
use serverkit_agent.Cron.Table.{list_lines, remove_lines, toggle_lines, Host, add, AddRequest}
use serverkit_agent.Cron.Listing.{
  has_id, toggle_each, list_lines-remove_lines, list_lines-toggle_lines,
}
use serverkit_agent.Cron.Update.{UpdateRequest}
use serverkit_agent.Cron.{newline}
use serverkit_agent.Cron.Checks.{validate_command_safe, IsAbsent, forbidden, Added, add-Added}

abbrev plain : Hash
plain s = s

-- A row that is commented out, with more spaces than it needs.
abbrev backup : Text
backup = codes "#  0 3 * * *   /usr/bin/backup  -q"

backup_entry : (parse_line backup).is_entry ≡ true
unfolding parse_line parse_fields trim_space trim_left trim_right_by is_space has_prefix trim_prefix
    fields text_eq join validate_schedule invalid_in schedule_field schedule_char all_chars
backup_entry = refl

parse_line-row_example :
    parse_line (row true (parse_line backup))
    ≡ entry_of (row true (parse_line backup)) true (parse_line backup)
parse_line-row_example = parse_line-row backup true backup_entry

abbrev rows : List Text
rows = codes "# ServerKit: nightly" ∷ backup ∷ codes "* * * * * /bin/true" ∷ []

abbrev backup_id : Text
backup_id = entry_id plain (codes "0 3 * * *") (codes "/usr/bin/backup -q")

list_lines-remove_lines_example :
    list_lines plain (remove_lines plain backup_id rows)
    ≡ select (λ e. not (has_id backup_id e)) (list_lines plain rows)
list_lines-remove_lines_example = list_lines-remove_lines plain backup_id rows

list_lines-toggle_lines_example :
    list_lines plain (toggle_lines plain backup_id true rows)
    ≡ toggle_each backup_id true (list_lines plain rows)
list_lines-toggle_lines_example = list_lines-toggle_lines plain backup_id true rows

validate_command_safe_example :
    All (IsAbsent (trim_space (codes " /bin/true -x "))) forbidden
    × ((rest : Text) × (first_field (fields (trim_space (codes " /bin/true -x "))) ≡ b'/' ∷ rest))
unfolding validate_command trim_space trim_left trim_right_by is_space has_prefix fields text_eq
    first_blocked contains blocked_shell_patterns
validate_command_safe_example = validate_command_safe (codes " /bin/true -x ") refl

-- A single `&` starts a second command, and passes.
background_passes : validate_command (codes "/bin/true & reboot") ≡ none
unfolding validate_command trim_space trim_left trim_right_by is_space has_prefix fields text_eq
    first_blocked contains blocked_shell_patterns
background_passes = refl

abbrev works : Host
works = record { read_error = none; write_error = none }

abbrev request : AddRequest
request = record { schedule = codes "0 4 * * *"; command = codes "/bin/true"; name = codes "t" }

abbrev table : Text
table = backup ++ newline ∷ []

add-Added_example : Added works plain request table (add works plain request table)
add-Added_example = add-Added works plain request table

abbrev later : UpdateRequest
later = record { id = backup_id; schedule = some (codes "30 3 * * *"); command = none; name = none }
