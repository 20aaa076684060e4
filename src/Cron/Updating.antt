-- ===== src/Cron/Updating.antt =====
-- What applyUpdate of internal/cron/cron_parse.go may do.
use serverkit_agent.Base.{
  true, false, List, [], ◌∷◌, Option, none, some, Text, split, trim_space, All, ◌++◌, ◌≢◌, ◌⊎◌, ◌≡◌,
}
use serverkit_agent.Cron.{
  Error, duplicate_entry, missing_id, not_found, newline, validate_command, validate_schedule,
  ParsedLine, row, Hash, entry_id,
}
use serverkit_agent.Cron.Table.{
  Entry, Result, done, failed, list_lines, write_lines, close_table, name_line,
}
use serverkit_agent.Cron.Listing.{any_entry}
use serverkit_agent.Cron.Rewriting.{Located, IsOther}
use serverkit_agent.Cron.Update.{UpdateRequest, Target}

-- What a request makes of a value: the given one without its outer spaces, or the old one.
abbrev pub Chosen : Text → Option Text → Text → Type 0
Chosen old none new = new ≡ old
Chosen old (some given) new = new ≡ trim_space given

-- The row that a request asks for.
pub record IsWanted (req : UpdateRequest) (old : Target) (line : ParsedLine) (name : Text)
    : Type 0 where
  pub schedule_chosen : Chosen old.line.schedule req.schedule line.schedule
  pub command_chosen : Chosen old.line.command req.command line.command
  pub name_chosen : Chosen old.name req.name name
  pub same_state : line.enabled ≡ old.line.enabled

-- A row that is found, with the lines before and after it, and what the request asks for in its place.
abbrev pub Asked : Hash → Text → UpdateRequest → List Text → List Text → ParsedLine → Text → Type 0
Asked hash content req before after line name =
    (old : Target) × Located hash req.id (split newline content) old before after
    × IsWanted req old line name

-- What an update may do: fail for one of five reasons, or write the table with the row of an entry that has the requested
-- id replaced, its name's comment with it, and all other lines as they were.
pub data Updated (hash : Hash) (content : Text) (req : UpdateRequest)
    : Result (Text × Entry) → Type 0 where
  without_id : req.id ≡ [] → Updated hash content req (failed missing_id)
  absent :
      All (IsOther hash req.id) (split newline content)
      → Updated hash content req (failed (not_found req.id))
  bad_schedule :
      (before after : List Text) (line : ParsedLine) (name : Text) (err : Error)
      → Asked hash content req before after line name
      → validate_schedule line.schedule ≡ some err
      → Updated hash content req (failed err)
  bad_command :
      (before after : List Text) (line : ParsedLine) (name : Text) (err : Error)
      → Asked hash content req before after line name
      → validate_command line.command ≡ some err
      → Updated hash content req (failed err)
  collision :
      (before after : List Text) (line : ParsedLine) (name : Text)
      → Asked hash content req before after line name
      → entry_id hash line.schedule line.command ≢ req.id
      → any_entry
          (entry_id hash line.schedule line.command)
          (list_lines hash (split newline content))
        ≡ true
      → Updated hash content req (failed duplicate_entry)
  renewed :
      (before after : List Text) (line : ParsedLine) (name : Text) (new : Text) (entry : Entry)
      → Asked hash content req before after line name
      → validate_schedule line.schedule ≡ none
      → validate_command line.command ≡ none
      → (entry_id hash line.schedule line.command ≡ req.id)
        ⊎ (any_entry
              (entry_id hash line.schedule line.command)
              (list_lines hash (split newline content))
            ≡ false)
      → new
        ≡ close_table (
            write_lines before
            ++ ((name_line name ++ row line.enabled line ++ newline ∷ []) ++ write_lines after))
      → (entry.id ≡ entry_id hash line.schedule line.command)
        × (entry.schedule ≡ line.schedule)
        × (entry.command ≡ line.command)
        × (entry.enabled ≡ line.enabled)
        × (entry.name ≡ name)
      → Updated hash content req (done (new, entry))
