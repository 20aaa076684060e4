-- ===== src/Tests/KeyFiles.antt =====
-- The keys of a user, on concrete lines.
use serverkit_agent.Base.{
  ◌&&◌, not, Bool, true, false, List, [], ◌∷◌, none, some, Text, codes, text_eq, mem_text,
  trim_space, trim_left, trim_right_by, is_space, fields, join, ◌≡◌, refl, inr,
}
use serverkit_agent.Base.Matching.{all_chars}
use serverkit_agent.Base.Results.{success}
use serverkit_agent.Base.Steps.{Adds}
use serverkit_agent.SshKeys.{
  SshKey, material, is_key_type, parse_public_key, public_key_of, valid_blob, blob_rest,
  validate_options, valid_option, option_rest, quoted_value, value_rest, first_is_type, format_line,
  parse_line, upsert_lines, remove_lines,
}
use serverkit_agent.SshKeys.Lines.{count}
use serverkit_agent.SshKeys.Materials.{materials, materials-remove_lines}
use serverkit_agent.SshKeys.Format.{parse_line-format_line}
use serverkit_agent.SshKeys.Adding.{upsert_lines_once}
use serverkit_agent.SshKeys.Machine.{Machine, root, home, done}
use serverkit_agent.SshKeys.Handling.{SshKeysIo, io_write}
use serverkit_agent.SshKeys.Safety.{AsUser, io_write-AsUser}

abbrev any_blob : Text → Bool
any_blob t = true

abbrev source : Text
source = codes " ssh-rsa AAA+/= me at home"

abbrev key : SshKey
key = record { kind = codes "ssh-rsa"; blob = codes "AAA+/="; comment = codes "me at home" }

abbrev options : List Text
options = codes "no-pty" ∷ codes "permitopen=\"a b\"" ∷ []

source_parsed : parse_public_key any_blob source ≡ success key
unfolding parse_public_key public_key_of is_key_type mem_text text_eq valid_blob blob_rest
    trim_space trim_left trim_right_by is_space fields join all_chars
source_parsed = refl

options_valid : validate_options options ≡ none
unfolding validate_options valid_option option_rest quoted_value value_rest
options_valid = refl

options_first : first_is_type (fields (format_line key options)) ≡ false
unfolding format_line fields is_space join is_key_type mem_text text_eq
options_first = refl

parse_line-format_line_example :
    parse_line (format_line key options) ≡ some (key, join (codes ",") options)
parse_line-format_line_example =
    parse_line-format_line any_blob source key options source_parsed options_valid
      (inr options_first)

abbrev lines : List Text
lines = codes "# keys" ∷ codes "ssh-rsa AAA+/= old" ∷ codes "ssh-rsa BBB= other" ∷ []

upsert_lines_once_example :
    (count key (upsert_lines key (format_line key options) false lines).0 ≡ 1)
    × (remove_lines key (upsert_lines key (format_line key options) false lines).0
        ≡ remove_lines key lines)
upsert_lines_once_example =
    upsert_lines_once any_blob source key options lines source_parsed options_valid
      (inr options_first)

materials-remove_lines_example :
    mem_text (material key) (materials (remove_lines key lines))
    ≡ (mem_text (material key) (materials lines) && not (text_eq (material key) (material key)))
materials-remove_lines_example = materials-remove_lines (material key) key lines

abbrev machine : Machine
machine = record {
  linux = true;
  mode = root;
  runs = λ log c. done (codes "/home/me/.ssh/tmp");
  lookup_user = λ log name. home (codes "/home/me");
  is_abs = λ p. true;
  join_path = λ a b. a;
  lowered = λ t. t;
  decodes = any_blob;
  fingerprint = λ k. [];
  ssh_version = none;
  expiry_time = λ t. [];
}

abbrev io : SshKeysIo
io = record {
  name = codes "me";
  dir = codes "/home/me/.ssh";
  file = codes "/home/me/.ssh/authorized_keys";
}

not_root : text_eq io.name (codes "root") ≡ false
unfolding text_eq
not_root = refl

io_write-AsUser_example : Adds (AsUser machine io) [] (io_write machine io (codes "x") [])
io_write-AsUser_example = io_write-AsUser machine io not_root (codes "x") []
