-- ===== src/Cron/Table.antt =====
-- The operations of internal/cron/cron_linux.go on the crontab, as a list of rows and as a text.
use serverkit_agent.Base.{
  ℕ, ◌+◌, ◌==◌, ltb, if◌then◌else◌, Bool, true, false, ◌||◌, List, [], ◌∷◌, ◌++◌, Option, none,
  some, Text, codes, text_eq, split, trim_right_by,
}
use serverkit_agent.Cron.{describe_schedule}
use serverkit_agent.Cron.{
  Error, duplicate_entry, not_found, read_failed, write_failed, newline, space, validate_command,
  validate_schedule, ParsedLine, parse_line, Hash, entry_id, row, is_target,
}

-- The number of bytes of a code point in UTF-8, and of a text.
abbrev bytes_of : ℕ → ℕ
bytes_of c = if ltb c 128 then 1 else if ltb c 2048 then 2 else if ltb c 65536 then 3 else 4

unfoldable pub byte_length : Text → ℕ
byte_length [] = 0
byte_length (c ∷ s) = bytes_of c + byte_length s

-- bufio.ScanLines drops one carriage return at the end of a line.
unfoldable pub strip_cr : Text → Text
strip_cr [] = []
strip_cr (c ∷ []) = if c == 13 then [] else c ∷ []
strip_cr (c ∷ d ∷ s) = c ∷ strip_cr (d ∷ s)

-- What a bufio.Scanner reads: the lines up to the first that its buffer of 64 KiB cannot hold.
unfoldable pub scanned : List Text → List Text
unfolding byte_length strip_cr
scanned [] = []
scanned (l ∷ []) =
    if text_eq l [] then [] else if ltb (byte_length l) 65536 then strip_cr l ∷ [] else []
scanned (l ∷ m ∷ ls) =
    let rest = scanned (m ∷ ls) in if ltb (byte_length l) 65536 then strip_cr l ∷ rest else []

unfoldable pub scan_lines : Text → List Text
unfolding scanned
scan_lines content = scanned (split newline content)

unfoldable pub write_lines : List Text → Text
write_lines [] = []
write_lines (l ∷ ls) = l ++ newline ∷ write_lines ls

-- `strings.TrimRight(s, "\n") + "\n"`.
abbrev pub close_table : Text → Text
close_table s = trim_right_by (λ c. c == newline) s ++ newline ∷ []

pub record Entry : Type 0 where
  pub id : Text
  pub schedule : Text
  pub command : Text
  pub enabled : Bool
  pub name : Text
  pub description : Text

-- An entry as List reports it, which is without a name.
abbrev pub entry : Hash → ParsedLine → Entry
entry hash p = record {
  id = entry_id hash p.schedule p.command;
  schedule = p.schedule;
  command = p.command;
  enabled = p.enabled;
  name = [];
  description = describe_schedule p.schedule;
}

-- The loop of List.
unfoldable pub list_lines : Hash → List Text → List Entry
list_lines hash [] = []
list_lines hash (l ∷ ls) =
    let rest = list_lines hash ls in
    if (parse_line l).is_entry then entry hash (parse_line l) ∷ rest else rest

-- The loop of Remove: the lines kept.
unfoldable pub remove_lines : Hash → Text → List Text → List Text
remove_lines hash id [] = []
remove_lines hash id (l ∷ ls) =
    let rest = remove_lines hash id ls in if is_target hash id l then rest else l ∷ rest

-- The loop of Toggle: the rows of the entry are written anew.
unfoldable pub toggle_lines : Hash → Text → Bool → List Text → List Text
toggle_lines hash id enabled [] = []
toggle_lines hash id enabled (l ∷ ls) =
    let rest = toggle_lines hash id enabled ls in
    if is_target hash id l then row enabled (parse_line l) ∷ rest else l ∷ rest

-- Whether some row is the entry's, which is what `removed`, `matched` and the look for duplicates find.
unfoldable pub any_target : Hash → Text → List Text → Bool
any_target hash id [] = false
any_target hash id (l ∷ ls) = is_target hash id l || any_target hash id ls

-- What crontab(1) returns: the error of `crontab -l`, other than that there is no table yet, and that of
-- `crontab -`, which then leaves the table as it was.
pub record Host : Type 0 where
  pub read_error : Option Text
  pub write_error : Option Text

pub data Result {ℓ} (A : Type ℓ) : Type ℓ where
  done : A → Result A
  failed : Error → Result A

-- writeCrontab, and the table after it.
abbrev install {ℓ} : {A : Type ℓ} → Option Text → Text → Text → A → Result A × Text
install none table content value = (done value, content)
install (some err) table content value = (failed (write_failed err), table)

abbrev with_table {ℓ} : {A : Type ℓ} → Option Text → Text → Result A × Text → Result A × Text
with_table none table outcome = outcome
with_table (some err) table outcome = (failed (read_failed err), table)

-- Remove and Toggle, with the table before and after.
unfoldable pub remove : Host → Hash → Text → Text → Result (Unit {0}) × Text
unfolding scan_lines any_target remove_lines write_lines
remove host hash id table =
    let ls = scan_lines table in
    with_table host.read_error table (
      if any_target hash id ls
      then install host.write_error table (close_table (write_lines (remove_lines hash id ls))) tt
      else (failed (not_found id), table))

unfoldable pub toggle : Host → Hash → Text → Bool → Text → Result (Unit {0}) × Text
unfolding scan_lines any_target toggle_lines write_lines
toggle host hash id enabled table =
    let ls = scan_lines table in
    with_table host.read_error table (
      if any_target hash id ls
      then install host.write_error table
          (close_table (write_lines (toggle_lines hash id enabled ls))) tt
      else (failed (not_found id), table))

pub record AddRequest : Type 0 where
  pub schedule : Text
  pub command : Text
  pub name : Text

abbrev pub name_line : Text → Text
name_line name = if text_eq name [] then [] else codes "# ServerKit: " ++ name ++ newline ∷ []

abbrev pub ended : Text → Text
ended [] = []
ended (c ∷ s) = c ∷ s ++ newline ∷ []

-- The table with the new rows.
abbrev pub extended : AddRequest → Text → Text
extended req table =
    ended (trim_right_by (λ c. c == newline) table)
    ++ name_line req.name
    ++ (req.schedule ++ space ++ req.command ++ newline ∷ [])

abbrev pub new_entry : Hash → AddRequest → Entry
new_entry hash req = record {
  id = entry_id hash req.schedule req.command;
  schedule = req.schedule;
  command = req.command;
  enabled = true;
  name = req.name;
  description = describe_schedule req.schedule;
}

abbrev checked {ℓ} :
    {A : Type ℓ} → Option Error → Option Error → Text → Result A × Text → Result A × Text
checked (some err) command table outcome = (failed err, table)
checked none (some err) table outcome = (failed err, table)
checked none none table outcome = outcome

-- Add.
unfoldable pub add : Host → Hash → AddRequest → Text → Result Entry × Text
unfolding scan_lines any_target
add host hash req table =
    checked (validate_schedule req.schedule) (validate_command req.command) table (
      with_table host.read_error table (
        if any_target hash (entry_id hash req.schedule req.command) (scan_lines table)
        then (failed duplicate_entry, table)
        else install host.write_error table (extended req table) (new_entry hash req)))
