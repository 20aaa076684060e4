-- ===== src/Cron.antt =====
-- internal/cron: the crontab's rows, their checks, and the operations on the table.
pub mod Words
pub mod Rows
pub mod Table
pub mod Listing
pub mod Checks
pub mod Update
pub mod Rewriting
pub mod Updating
use serverkit_agent.Base.{Dict, lookup}
use serverkit_agent.Base.{
  ℕ, zero, suc, ◌+◌, ◌==◌, ltb, leb, if◌then◌else◌, Bool, true, false, ◌&&◌, ◌||◌, not, List, [],
  ◌∷◌, ◌++◌, Option, none, some, Text, codes, text_eq, length, take, drop, trim_space,
  trim_right_by, has_prefix, trim_prefix, contains, split, join, fields,
}

-- The errors. `read_failed` and `write_failed` carry the error of crontab(1).
pub data Error : Type 0 where
  empty_command : Error
  blocked_operator : Text → Error
  relative_path : Error
  field_count : ℕ → Error
  invalid_field : Text → Error
  duplicate_entry : Error
  missing_id : Error
  not_found : Text → Error
  read_failed : Text → Error
  write_failed : Text → Error

abbrev pub newline : ℕ
newline = 10

abbrev pub space : Text
space = codes " "

unfoldable pub blocked_shell_patterns : List Text
blocked_shell_patterns =
    codes ";"
    ∷ codes "&&"
    ∷ codes "||"
    ∷ codes "|"
    ∷ codes "`"
    ∷ codes "$("
    ∷ codes ">"
    ∷ codes "<"
    ∷ (10 ∷ [])
    ∷ (13 ∷ [])
    ∷ []

-- The loop over the patterns.
unfoldable pub first_blocked : Text → List Text → Option Text
first_blocked cmd [] = none
first_blocked cmd (p ∷ ps) =
    let rest = first_blocked cmd ps in if contains cmd p then some p else rest

-- `strings.Fields(cmd)[0]` of a command that is not blank.
abbrev pub first_field : List Text → Text
first_field [] = []
first_field (f ∷ fs) = f

abbrev checked_command : Text → Option Text → Option Error
checked_command cmd (some p) = some (blocked_operator p)
checked_command cmd none =
    if has_prefix (first_field (fields cmd)) (codes "/") then none else some relative_path

-- validateCommand; `none` is nil.
unfoldable pub validate_command : Text → Option Error
unfolding first_blocked
validate_command text =
    let cmd = trim_space text in
    if text_eq cmd []
    then some empty_command
    else checked_command cmd (first_blocked cmd blocked_shell_patterns)

-- The characters of scheduleRegex: digits, `*`, `,`, `-` and `/`.
unfoldable pub schedule_char : ℕ → Bool
schedule_char c = (leb 48 c && leb c 57) || (c == 42) || (c == 44) || (c == 45) || (c == 47)

unfoldable pub all_chars : (ℕ → Bool) → Text → Bool
all_chars p [] = true
all_chars p (c ∷ s) = p c && all_chars p s

-- scheduleRegex.MatchString.
unfoldable pub schedule_field : Text → Bool
unfolding all_chars
schedule_field s = not (text_eq s []) && all_chars schedule_char s

unfoldable pub invalid_in : List Text → Option Error
unfolding schedule_field
invalid_in [] = none
invalid_in (p ∷ ps) =
    let rest = invalid_in ps in if schedule_field p then rest else some (invalid_field p)

-- validateSchedule.
unfoldable pub validate_schedule : Text → Option Error
unfolding invalid_in
validate_schedule schedule =
    let parts = fields schedule in
    if length parts == 5 then invalid_in parts else some (field_count (length parts))

pub record ParsedLine : Type 0 where
  pub raw : Text
  pub schedule : Text
  pub command : Text
  pub enabled : Bool
  pub is_entry : Bool

abbrev pub no_entry : Text → ParsedLine
no_entry raw = record { raw = raw; schedule = []; command = []; enabled = false; is_entry = false }

abbrev as_entry : Text → Bool → List Text → Option Error → ParsedLine
as_entry raw enabled fs (some err) = no_entry raw
as_entry raw enabled fs none = record {
  raw = raw;
  schedule = join space (take 5 fs);
  command = join space (drop 5 fs);
  enabled = enabled;
  is_entry = true;
}

-- What follows the look at the comment sign.
unfoldable pub parse_fields : Text → Bool → List Text → ParsedLine
unfolding validate_schedule
parse_fields raw enabled fs =
    if ltb (length fs) 6
    then no_entry raw
    else as_entry raw enabled fs (validate_schedule (join space (take 5 fs)))

-- parseLine.
unfoldable pub parse_line : Text → ParsedLine
unfolding parse_fields
parse_line line =
    let body = trim_space line in
    if text_eq body []
    then no_entry line
    else if has_prefix body (codes "#")
    then parse_fields line false (fields (trim_space (trim_prefix body (codes "#"))))
    else parse_fields line true (fields body)

-- The hex form of the first six bytes of SHA-256.
abbrev pub Hash : Type 0
Hash = Text → Text

unfoldable pub entry_id : Hash → Text → Text → Text
entry_id hash schedule command = codes "cron_" ++ hash (schedule ++ 0 ∷ command)

-- The row that stands for an entry.
unfoldable pub row : Bool → ParsedLine → Text
row enabled p =
    let text = p.schedule ++ space ++ p.command in if enabled then text else codes "# " ++ text

-- The test that the loops make.
unfoldable pub is_target : Hash → Text → Text → Bool
unfolding entry_id
is_target hash id line =
    let p = parse_line line in p.is_entry && text_eq (entry_id hash p.schedule p.command) id

-- The labels of describeSchedule.
unfoldable pub labels : Dict Text
labels =
    (codes "* * * * *", codes "Every minute")
    ∷ (codes "*/5 * * * *", codes "Every 5 minutes")
    ∷ (codes "*/15 * * * *", codes "Every 15 minutes")
    ∷ (codes "*/30 * * * *", codes "Every 30 minutes")
    ∷ (codes "0 * * * *", codes "Hourly")
    ∷ (codes "0 0 * * *", codes "Daily at midnight")
    ∷ (codes "0 12 * * *", codes "Daily at noon")
    ∷ (codes "0 0 * * 0", codes "Weekly (Sunday)")
    ∷ (codes "0 0 1 * *", codes "Monthly (1st)")
    ∷ (codes "0 0 1 1 *", codes "Yearly (Jan 1)")
    ∷ []

-- describeSchedule.
unfoldable pub describe_schedule : Text → Text
describe_schedule schedule = elim (lookup schedule labels) [ some label ↦ label | none ↦ schedule ]
