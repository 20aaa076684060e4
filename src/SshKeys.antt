-- ===== src/SshKeys.antt =====
-- internal/agent/sshkeys.go: the lines of an authorized_keys file.
pub mod Lines
pub mod Materials
pub mod Format
pub mod Adding
pub mod Machine
pub mod Handling
pub mod Safety
use serverkit_agent.Base.{
  ℕ, zero, suc, ◌+◌, ◌==◌, ltb, leb, if◌then◌else◌, Bool, true, false, ◌&&◌, ◌||◌, not, List, [],
  ◌∷◌, ◌++◌, Option, none, some, Text, codes, text_eq, mem_text, length, trim_space, trim_right_by,
  has_prefix, split, join, fields,
}
use serverkit_agent.Base.Results.{Result, success, failure}
use serverkit_agent.Base.Matching.{all_chars, letter, digit, lower}

abbrev pub key_types : List Text
key_types =
    codes "ssh-ed25519"
    ∷ codes "ssh-rsa"
    ∷ codes "ecdsa-sha2-nistp256"
    ∷ codes "ecdsa-sha2-nistp384"
    ∷ codes "ecdsa-sha2-nistp521"
    ∷ codes "sk-ssh-ed25519@openssh.com"
    ∷ codes "sk-ecdsa-sha2-nistp256@openssh.com"
    ∷ []

unfoldable pub is_key_type : Text → Bool
is_key_type t = mem_text t key_types

pub record SshKey : Type 0 where
  pub kind : Text
  pub blob : Text
  pub comment : Text

-- Two keys with one material.
abbrev pub material : SshKey → Text
material k = k.kind ++ 32 ∷ k.blob

pub data KeyError : Type 0 where
  invalid_username : Text → KeyError
  not_single_line : KeyError
  not_a_key : KeyError
  unsupported_type : Text → KeyError
  not_base64 : KeyError
  invalid_option : Text → KeyError
  long_comment : KeyError
  invalid_params : KeyError
  expiry_option : KeyError
  only_linux : KeyError
  sudo_required : KeyError
  user_missing : Text → KeyError
  lookup_failed : Text → KeyError
  not_created : KeyError → KeyError
  no_home : Text → KeyError
  command_failed : List Text → Text → KeyError
  command_exited : List Text → ℕ → Text → KeyError
  unexpected_temp : Text → KeyError

-- sshUsernameRe.
abbrev pub username_start : ℕ → Bool
username_start c = lower c || (c == b'_')

abbrev pub username_char : ℕ → Bool
username_char c = lower c || digit c || (c == b'_') || (c == b'-')

unfoldable pub validate_username : Text → Bool
validate_username [] = false
validate_username (c ∷ s) = username_start c && all_chars username_char s && leb (length s) 31

-- sshBlobRe.
abbrev pub blob_char : ℕ → Bool
blob_char c = letter c || digit c || (c == b'+') || (c == b'/')

abbrev pub equals : ℕ → Bool
equals c = c == b'='

unfoldable pub blob_rest : Text → Bool
blob_rest [] = true
blob_rest (c ∷ s) =
    let rest = blob_rest s in
    if blob_char c then rest else all_chars equals (c ∷ s) && leb (length (c ∷ s)) 2

unfoldable pub valid_blob : Text → Bool
unfolding blob_rest
valid_blob [] = false
valid_blob (c ∷ s) = blob_char c && blob_rest s

abbrev pub line_end : ℕ → Bool
line_end c = (c == 10) || (c == 13)

-- sshOptionRe: a name, and a quoted value or none.
abbrev pub option_char : ℕ → Bool
option_char c = letter c || digit c || (c == b'-')

abbrev pub ends : Text → Bool
ends [] = true
ends (c ∷ s) = false

unfoldable pub value_rest : Text → Bool
value_rest [] = false
value_rest (c ∷ s) =
    let rest = value_rest s in if c == b'"' then ends s else not (line_end c) && rest

unfoldable pub quoted_value : Text → Bool
quoted_value [] = false
quoted_value (c ∷ s) = (c == b'"') && value_rest s

unfoldable pub option_rest : Text → Bool
unfolding quoted_value
option_rest [] = true
option_rest (c ∷ s) =
    let rest = option_rest s in if option_char c then rest else (c == b'=') && quoted_value s

unfoldable pub valid_option : Text → Bool
unfolding option_rest
valid_option [] = false
valid_option (c ∷ s) = letter c && option_rest s

-- validateSSHOptions; `none` is no error.
unfoldable pub validate_options : List Text → Option KeyError
unfolding valid_option
validate_options [] = none
validate_options (o ∷ os) =
    let rest = validate_options os in if valid_option o then rest else some (invalid_option o)

-- parsePublicKey. The argument is the test of base64.StdEncoding.DecodeString.
unfoldable pub public_key_of : (Text → Bool) → List Text → Result KeyError SshKey
public_key_of decodes (t ∷ b ∷ ws) =
    if not (is_key_type t)
    then failure (unsupported_type t)
    else if not (valid_blob b)
    then failure not_base64
    else if not (decodes b)
    then failure not_base64
    else success record { kind = t; blob = b; comment = join (32 ∷ []) ws }
public_key_of decodes _ = failure not_a_key

-- The line has no line ends.
abbrev pub single_line : Text → Bool
single_line s = all_chars (λ c. not (line_end c)) s

unfoldable pub parse_public_key : (Text → Bool) → Text → Result KeyError SshKey
unfolding public_key_of
parse_public_key decodes line =
    if text_eq (trim_space line) [] || not (single_line (trim_space line))
    then failure not_single_line
    else public_key_of decodes (fields (trim_space line))

abbrev pub push_char : ℕ → Option (Text × Text) → Option (Text × Text)
push_char c none = none
push_char c (some (front, rest)) = some (c ∷ front, rest)

-- The options field, up to the first blank outside quotes, and the rest; `none` where there is no blank.
unfoldable pub cut_options : Bool → Text → Option (Text × Text)
cut_options in_quote [] = none
cut_options in_quote (c ∷ s) =
    let toggled = cut_options (not in_quote) s in
    let rest = cut_options in_quote s in
    if c == b'"'
    then push_char c toggled
    else if not in_quote && ((c == 32) || (c == 9))
    then some ([], c ∷ s)
    else push_char c rest

abbrev pub key_of : Text → List Text → Option (SshKey × Text)
key_of options (t ∷ b ∷ ws) =
    if is_key_type t
    then some (record { kind = t; blob = b; comment = join (32 ∷ []) ws }, options)
    else none
key_of options _ = none

abbrev pub after_options : Option (Text × Text) → Option (SshKey × Text)
after_options none = none
after_options (some (options, rest)) = key_of options (fields (trim_space rest))

abbrev pub first_is_type : List Text → Bool
first_is_type [] = false
first_is_type (w ∷ ws) = is_key_type w

-- parseAuthorizedKeysLine: the key and the options; `none` for any other line.
unfoldable pub parse_line : Text → Option (SshKey × Text)
unfolding cut_options
parse_line line =
    let trimmed = trim_space line in
    if text_eq trimmed [] || has_prefix trimmed (codes "#")
    then none
    else if first_is_type (fields trimmed)
    then key_of [] (fields trimmed)
    else after_options (cut_options false trimmed)

abbrev pub options_part : List Text → Text
options_part [] = []
options_part (o ∷ os) = join (codes ",") (o ∷ os) ++ 32 ∷ []

abbrev pub comment_part : Text → Text
comment_part [] = []
comment_part (c ∷ s) = 32 ∷ c ∷ s

-- formatAuthorizedKeysLine.
unfoldable pub format_line : SshKey → List Text → Text
format_line k options = options_part options ++ (material k ++ comment_part k.comment)

abbrev pub same_key : Option (SshKey × Text) → SshKey → Bool
same_key none k = false
same_key (some (found, options)) k = text_eq (material found) (material k)

-- The line carries the key.
unfoldable pub carries : SshKey → Text → Bool
unfolding parse_line
carries k line = same_key (parse_line line) k

-- The loop of authorizedKeysUpsert: what is kept, and whether it differs.
unfoldable pub upsert_lines : SshKey → Text → Bool → List Text → List Text × Bool
unfolding carries
upsert_lines k new_line true [] = ([], false)
upsert_lines k new_line false [] = (new_line ∷ [], true)
upsert_lines k new_line found (l ∷ ls) =
    let others = upsert_lines k new_line found ls in
    let after = upsert_lines k new_line true ls in
    if carries k l
    then if found
      then (after.0, true)
      else (new_line ∷ after.0, not (text_eq l new_line) || after.1)
    else (l ∷ others.0, others.1)

unfoldable pub drop_crs : Text → Text
drop_crs [] = []
drop_crs (c ∷ []) = c ∷ []
drop_crs (c ∷ d ∷ s) =
    let rest = drop_crs (d ∷ s) in if (c == 13) && (d == 10) then rest else c ∷ rest

abbrev pub newline : ℕ → Bool
newline c = c == 10

abbrev lines_of : Text → List Text
lines_of [] = []
lines_of (c ∷ s) = split 10 (c ∷ s)

-- splitLines.
unfoldable pub split_lines : Text → List Text
unfolding drop_crs
split_lines content = lines_of (trim_right_by newline (drop_crs content))

-- joinLines.
unfoldable pub join_lines : List Text → Text
join_lines [] = []
join_lines (l ∷ ls) = join (10 ∷ []) (l ∷ ls) ++ 10 ∷ []

unfoldable pub authorized_keys_upsert : Text → SshKey → Text → Text × Bool
unfolding upsert_lines split_lines join_lines
authorized_keys_upsert content k new_line =
    let out = upsert_lines k new_line false (split_lines content) in (join_lines out.0, out.1)

-- The lines without those that carry the key.
unfoldable pub remove_lines : SshKey → List Text → List Text
unfolding carries
remove_lines k [] = []
remove_lines k (l ∷ ls) = let rest = remove_lines k ls in if carries k l then rest else l ∷ rest

unfoldable pub authorized_keys_remove : Text → SshKey → Text × Bool
unfolding remove_lines split_lines join_lines
authorized_keys_remove content k =
    let out = remove_lines k (split_lines content) in
    if length out == length (split_lines content) then (content, false) else (join_lines out, true)

-- supportsExpiryTime.
unfoldable pub supports_expiry_time : ℕ → ℕ → Bool
supports_expiry_time major minor = ltb 8 major || ((major == 8) && leb 2 minor)
