-- ===== src/Cron/Checks.antt =====
-- What the checks of internal/cron/cron_parse.go let through to the crontab.
use serverkit_agent.Base.Parts.{
  contains-append, has_prefix_sound, trim_right_by-split, trim_right_by-last,
}
use mathlib.Core.Path.{ap₂}
use serverkit_agent.Base.{
  ◌==◌, ==_iff, ◌++◌, ◌≢◌, All, trim_right_by, refl, some, Bool, true, false, ◌&&◌, List, [], ◌∷◌,
  none, contains, has_prefix, trim_space, fields, length, Text, codes, text_eq, Bool-cases,
  Option-cases, inl, inr, ◌≡◌, ◌↔◌, sym, ap, ◌∙◌, arith,
}
use serverkit_agent.Cron.{
  Hash, Error, entry_id, validate_command, validate_schedule, newline, first_blocked,
  blocked_shell_patterns, first_field, invalid_in, schedule_field, duplicate_entry, read_failed,
  write_failed,
}
use serverkit_agent.Cron.Table.{
  Entry, any_target, list_lines, Host, Result, done, failed, add, AddRequest, scan_lines, extended,
  name_line, ended, new_entry,
}
use serverkit_agent.Cron.Listing.{any_entry, any_target-list_lines}

-- What no command may have in it: `;`, `&&`, `||`, `|`, a backquote, `$(`, `>`, `<`, and the two characters that end lines.
abbrev pub forbidden : List Text
forbidden =
    codes ";"
    ∷ codes "&&"
    ∷ codes "||"
    ∷ codes "|"
    ∷ codes "`"
    ∷ codes "$("
    ∷ codes ">"
    ∷ codes "<"
    ∷ (10 ∷ [])
    ∷ (13 ∷ [])
    ∷ []

-- A text that is nowhere in another.
abbrev pub IsAbsent : Text → Text → Type 0
IsAbsent text part = (before after : Text) → text ≢ before ++ (part ++ after)

first_blocked-IsAbsent :
    (text : Text) (parts : List Text) → first_blocked text parts ≡ none → All (IsAbsent text) parts
unfolding first_blocked
first_blocked-IsAbsent text [] h = tt
first_blocked-IsAbsent text (p ∷ ps) h = (
  λ before after e.
      let found : contains text p ≡ true =
        ap (λ t. contains t p) e ∙ contains-append before p after in
      absurd (ground arith),
  first_blocked-IsAbsent text ps (ground arith),
)

-- A command that passes the check has none of `;`, `&&`, `||`, `|`, backquotes, `$(`, `>`, `<` and line ends in it, its outer
-- spaces aside, and its first field starts with a slash. A single `&` is not among these.
pub validate_command_safe :
    (cmd : Text)
    → validate_command cmd ≡ none
    → All (IsAbsent (trim_space cmd)) forbidden
      × ((rest : Text) × (first_field (fields (trim_space cmd)) ≡ b'/' ∷ rest))
unfolding validate_command blocked_shell_patterns
validate_command_safe cmd h =
    let (allowed, absolute) : (first_blocked (trim_space cmd) forbidden ≡ none)
        × (has_prefix (first_field (fields (trim_space cmd))) (codes "/") ≡ true) =
      (ground arith, ground arith) in
    (
      first_blocked-IsAbsent (trim_space cmd) forbidden allowed,
      has_prefix_sound (first_field (fields (trim_space cmd))) (codes "/") absolute,
    )

-- Whether each field matches the regular expression.
abbrev pub all_valid : List Text → Bool
all_valid [] = true
all_valid (p ∷ ps) = schedule_field p && all_valid ps

invalid_in_iff : (ps : List Text) → (invalid_in ps ≡ none) ↔ (all_valid ps ≡ true)
unfolding invalid_in
invalid_in_iff [] = ground arith
invalid_in_iff (p ∷ ps) = ground (arith, invalid_in_iff ps)

-- A schedule passes the check exactly if it has five fields and each is made of digits and `*,-/` only.
pub validate_schedule_iff :
    (schedule : Text)
    → (validate_schedule schedule ≡ none)
      ↔ ((length (fields schedule) ≡ 5) × (all_valid (fields schedule) ≡ true))
unfolding validate_schedule
validate_schedule_iff schedule = ground (arith, invalid_in_iff (fields schedule))

abbrev pub line_of : Text → Text
line_of [] = []
line_of (c ∷ s) = c ∷ (s ++ 10 ∷ [])

abbrev pub comment_of : Text → Text
comment_of [] = []
comment_of (c ∷ name) = codes "# ServerKit: " ++ (c ∷ name)

only_newlines : (s : Text) → All (λ c. (c == newline) ≡ true) s → All (λ c. c ≡ 10) s
only_newlines [] h = tt
only_newlines (c ∷ s) (h, hs) = ((==_iff c newline).0 h, only_newlines s hs)

-- A table with a row at its end: the text before without the newlines that it ended in, the name's comment if there is a
-- name, and the row, each as a line.
abbrev pub Appended : AddRequest → Text → Text → Type 0
Appended req table new =
    (stem ends : Text) × (table ≡ stem ++ ends)
    × All (λ c. c ≡ 10) ends
    × ((before : Text) → stem ≢ before ++ 10 ∷ [])
    × (new
        ≡ line_of stem
          ++ line_of (comment_of req.name)
          ++ (req.schedule ++ codes " " ++ req.command ++ 10 ∷ []))

ended_line : (s : Text) → ended s ≡ line_of s
ended_line [] = refl
ended_line (c ∷ s) = refl

name_line_lem : (name : Text) → name_line name ≡ line_of (comment_of name)
unfolding text_eq
name_line_lem [] = refl
name_line_lem (c ∷ name) = refl

extended-Appended : (req : AddRequest) (table : Text) → Appended req table (extended req table)
extended-Appended req table =
    let (ends, e, h) = trim_right_by-split (λ c. c == newline) table in
    (
      trim_right_by (λ c. c == newline) table,
      ends,
      e,
      only_newlines ends h,
      λ before f.
          let no = trim_right_by-last (λ c. c == newline) table before 10 f in absurd (cc no),
      ap₂ (λ x y. x ++ y ++ (req.schedule ++ codes " " ++ req.command ++ 10 ∷ []))
          (ended_line (trim_right_by (λ c. c == newline) table)) (name_line_lem req.name),
    )

-- What Add may do: fail with the table as it was, for one of five reasons, or add an entry that passed
-- both checks, and that no entry of the table has the id of, at the end of the table.
pub data Added (host : Host) (hash : Hash) (req : AddRequest) (table : Text)
    : Result Entry × Text → Type 0 where
  bad_schedule :
      (err : Error)
      → validate_schedule req.schedule ≡ some err
      → Added host hash req table (failed err, table)
  bad_command :
      (err : Error)
      → validate_command req.command ≡ some err
      → Added host hash req table (failed err, table)
  unreadable :
      (err : Text)
      → host.read_error ≡ some err
      → Added host hash req table (failed (read_failed err), table)
  duplicate :
      any_entry (entry_id hash req.schedule req.command) (list_lines hash (scan_lines table)) ≡ true
      → Added host hash req table (failed duplicate_entry, table)
  unwritable :
      (err : Text)
      → host.write_error ≡ some err
      → Added host hash req table (failed (write_failed err), table)
  extends :
      validate_schedule req.schedule ≡ none
      → validate_command req.command ≡ none
      → any_entry (entry_id hash req.schedule req.command) (list_lines hash (scan_lines table))
        ≡ false
      → (entry : Entry) (new : Text)
      → (entry.id ≡ entry_id hash req.schedule req.command)
        × (entry.schedule ≡ req.schedule)
        × (entry.command ≡ req.command)
        × (entry.enabled ≡ true)
      → Appended req table new
      → Added host hash req table (done entry, new)

-- Add always has one of these outcomes: it fails without a change for a reason that holds; or the schedule and the command
-- pass the checks, no entry has their id, and the table has the row at its end, after a comment with the name as it is
-- given, and otherwise what it had, less the newlines that it ended in but one.
pub add-Added :
    (host : Host) (hash : Hash) (req : AddRequest) (table : Text)
    → Added host hash req table (add host hash req table)
unfolding add
add-Added host hash req table =
    let id = entry_id hash req.schedule req.command in
    elim (Option-cases (validate_schedule req.schedule)) [
      | inr (err, e) ↦ rw e (bad_schedule err e)
      | inl s ↦ elim (Option-cases (validate_command req.command)) [
        | inr (err, e) ↦ rw (s, e) (bad_command err e)
        | inl c ↦ elim (Option-cases host.read_error) [
          | inr (err, e) ↦ rw (s, c, e) (unreadable err refl)
          | inl r ↦ elim (Bool-cases (any_target hash id (scan_lines table))) [
            | inl e ↦
                rw (s, c, r, e)
                  (duplicate (sym (any_target-list_lines hash id (scan_lines table)) ∙ e))
            | inr e ↦ elim (Option-cases host.write_error) [
              | inr (err, w) ↦ rw (s, c, r, e, w) (unwritable err refl)
              | inl w ↦
                  rw (s, c, r, e, w)
                    (extends s c (sym (any_target-list_lines hash id (scan_lines table)) ∙ e)
                      (new_entry hash req) (extended req table) (refl, refl, refl, refl)
                      (extended-Appended req table))
            ]
          ]
        ]
      ]
    ]
