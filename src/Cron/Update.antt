-- ===== src/Cron/Update.antt =====
-- applyUpdate of internal/cron/cron_parse.go: the rewrite of the whole table behind Update.
use serverkit_agent.Base.{
  ℕ, suc, ◌==◌, if◌then◌else◌, Bool, false, ◌&&◌, not, List, [], ◌∷◌, ◌++◌, Option, none, some,
  Text, codes, text_eq, split, trim_space, trim_prefix, has_prefix,
}
use serverkit_agent.Cron.{
  Error, duplicate_entry, missing_id, not_found, newline, validate_command, validate_schedule,
  describe_schedule, ParsedLine, parse_line, Hash, entry_id, row, is_target,
}
use serverkit_agent.Cron.Table.{Entry, any_target, close_table, Result, done, failed, name_line}

-- The pointers that are nil are `none`.
pub record UpdateRequest : Type 0 where
  pub id : Text
  pub schedule : Option Text
  pub command : Option Text
  pub name : Option Text

-- The entry that the first pass finds: its line, its name and the line of its name's comment.
pub record Target : Type 0 where
  pub index : ℕ
  pub line : ParsedLine
  pub name : Text
  pub comment_index : Option ℕ

-- The first pass: the name comment that the line before was, and the entry found last.
pub record Search : Type 0 where
  pub pending : Option (Text × ℕ)
  pub target : Option Target

abbrev pub name_sign : Text
name_sign = codes "# ServerKit:"

abbrev pub named : ParsedLine → ℕ → Option (Text × ℕ) → Target
named p i none = record { index = i; line = p; name = []; comment_index = none }
named p i (some (name, at)) = record { index = i; line = p; name = name; comment_index = some at }

unfoldable pub search_line : Hash → Text → ℕ → Text → Search → Search
search_line hash id i raw s =
    let trimmed = trim_space raw in
    if has_prefix trimmed name_sign
    then record s { pending = some (trim_space (trim_prefix trimmed name_sign), i) }
    else record {
      pending = none;
      target =
          if is_target hash id raw then some (named (parse_line raw) i s.pending) else s.target;
    }

unfoldable pub search : Hash → Text → ℕ → List Text → Search → Search
unfolding search_line
search hash id i [] s = s
search hash id i (l ∷ ls) s = search hash id (suc i) ls (search_line hash id i l s)

abbrev pub at_index : ℕ → Option ℕ → Bool
at_index i none = false
at_index i (some j) = i == j

-- What the second pass writes for a line.
abbrev pub rewritten : Target → Text → Text → ℕ → Text → Text
rewritten t name text i raw =
    if at_index i t.comment_index
    then []
    else if i == t.index
    then name_line name ++ text ++ newline ∷ []
    else raw ++ newline ∷ []

unfoldable pub rewrite : Target → Text → Text → ℕ → List Text → Text
rewrite t name text i [] = []
rewrite t name text i (l ∷ ls) = rewritten t name text i l ++ rewrite t name text (suc i) ls

abbrev pub updated : Text → Option Text → Text
updated old none = old
updated old (some new) = trim_space new

-- The target with the changes that the request makes.
abbrev pub changed : UpdateRequest → Target → Target
changed req t = record t {
  line = record t.line {
    schedule = updated t.line.schedule req.schedule;
    command = updated t.line.command req.command;
  };
  name = updated t.name req.name;
}

abbrev pub updated_entry : Hash → Target → Entry
updated_entry hash t = record {
  id = entry_id hash t.line.schedule t.line.command;
  schedule = t.line.schedule;
  command = t.line.command;
  enabled = t.line.enabled;
  name = t.name;
  description = describe_schedule t.line.schedule;
}

abbrev pub updated_table : Target → List Text → Text
updated_table t ls = close_table (rewrite t t.name (row t.line.enabled t.line) 0 ls)

abbrev pub collides : Hash → Text → Text → List Text → Bool
collides hash new_id id ls = not (text_eq new_id id) && any_target hash new_id ls

abbrev by_checks :
    Hash → Text → List Text → Target → Option Error → Option Error → Result (Text × Entry)
by_checks hash id ls t (some err) command = failed err
by_checks hash id ls t none (some err) = failed err
by_checks hash id ls t none none =
    if collides hash (entry_id hash t.line.schedule t.line.command) id ls
    then failed duplicate_entry
    else done (updated_table t ls, updated_entry hash t)

abbrev by_target : Hash → UpdateRequest → List Text → Option Target → Result (Text × Entry)
by_target hash req ls none = failed (not_found req.id)
by_target hash req ls (some t) =
    let t' = changed req t in
    by_checks hash req.id ls t' (validate_schedule t'.line.schedule)
      (validate_command t'.line.command)

abbrev pub targeted : Hash → Text → List Text → Option Target
unfolding search
targeted hash id ls = (search hash id 0 ls (record { pending = none; target = none })).target

-- applyUpdate: the new table and the fresh entry.
unfoldable pub apply_update : Hash → Text → UpdateRequest → Result (Text × Entry)
unfolding any_target rewrite search
apply_update hash content req =
    if text_eq req.id []
    then failed missing_id
    else by_target hash req (split newline content) (targeted hash req.id (split newline content))
