-- ===== src/SshKeys/Handling.antt =====
-- The handlers of ssh:keys:* (internal/agent/sshkeys_handlers.go).
use serverkit_agent.Base.{
  ℕ, ◌==◌, leb, if◌then◌else◌, Bool, true, false, ◌&&◌, ◌||◌, not, List, [], ◌∷◌, ◌++◌, Option,
  none, some, Text, codes, text_eq, length, trim_space, has_prefix,
}
use serverkit_agent.Base.Int.{ℤ, pos, ltb_ℤ}
use serverkit_agent.Base.Results.{Result, success, failure}
use serverkit_agent.Base.Steps.{pure, ◌>>=◌, ◌>>◌, lift, check_that}
use serverkit_agent.SshKeys.{
  SshKey, KeyError, invalid_username, invalid_params, expiry_option, long_comment, only_linux,
  sudo_required, user_missing, lookup_failed, not_created, no_home, command_exited, unexpected_temp,
  validate_username, validate_options, parse_public_key, parse_line, format_line, single_line,
  authorized_keys_upsert, authorized_keys_remove, split_lines, supports_expiry_time,
}
use serverkit_agent.SshKeys.Machine.{
  SudoMode, unavailable, Command, Lookup, home, unknown, lookup_error, KeyLog, Machine, K,
  sudo_command, reported,
}

pub record SshKeysParams : Type 0 where
  pub user : Text
  pub key : Text
  pub options : List Text
  pub expires_at : ℤ
  pub ensure_user : Bool

-- What the handlers return.
pub data KeyAnswer : Type 0 where
  added : Text → Text → Bool → Text → Bool → KeyAnswer
  removed : Text → Text → Bool → KeyAnswer
  no_user : Text → KeyAnswer
  listed : Text → Text → List (Text × Text × Text × Text) → KeyAnswer

-- sshKeysIO.
pub record SshKeysIo : Type 0 where
  pub name : Text
  pub dir : Text
  pub file : Text

abbrev pub no_key : SshKey
no_key = record { kind = []; blob = []; comment = [] }

abbrev short_comment : SshKey → Bool
short_comment k = leb (length k.comment) 200 && single_line k.comment

module _ (m : Machine) where
  abbrev logged : KeyLog → Command → List Text → Result KeyError Text × KeyLog
  logged log c words = (reported m.lowered words (m.runs log c), log ++ c ∷ [])

  -- runPrivileged.
  unfoldable pub run_privileged : Option Text → List Text → K Text
  unfolding sudo_command reported
  run_privileged stdin words log = elim (sudo_command m.mode words) [
    | success full ↦ logged log (stdin, full) words
    | failure e ↦ (failure e, log)
  ]

  -- parseSSHKeysParams; `none` is a payload that does not parse.
  unfoldable pub parse_params :
      Option SshKeysParams → Bool → Result KeyError (SshKeysParams × SshKey)
  parse_params none need_key = failure invalid_params
  parse_params (some p) need_key =
      if not m.linux
      then failure only_linux
      else if not (validate_username p.user)
      then failure (invalid_username p.user)
      else if not need_key
      then success (p, no_key)
      else elim (parse_public_key m.decodes p.key) [
        | success k ↦ if short_comment k then success (p, k) else failure long_comment
        | failure e ↦ failure e
      ]

  abbrev escalates : SudoMode → Bool
  escalates unavailable = false
  escalates _ = true

  abbrev usable : Text → Bool
  usable h = not (text_eq h []) && not (text_eq h (codes "/")) && m.is_abs h

  -- The io of a user that was looked up.
  unfoldable pub io_of : Text → Lookup → Result KeyError SshKeysIo
  io_of name unknown = failure (user_missing name)
  io_of name (lookup_error e) = failure (lookup_failed e)
  io_of name (home h) =
      if usable h
      then success record {
        name = name;
        dir = m.join_path h (codes ".ssh");
        file = m.join_path (m.join_path h (codes ".ssh")) (codes "authorized_keys");
      }
      else failure (no_home name)

  abbrev useradd_words : Text → List Text
  useradd_words name = codes "useradd" ∷ codes "-m" ∷ codes "-s" ∷ codes "/bin/bash" ∷ name ∷ []

  abbrev looked_up : Text → K SshKeysIo
  looked_up name log = (io_of name (m.lookup_user log name), log)

  abbrev created : Text → Result KeyError Text × KeyLog → Result KeyError SshKeysIo × KeyLog
  created name (success out, log) = looked_up name log
  created name (failure e, log) = (failure (not_created e), log)

  abbrev ensured : Text → Bool → Lookup → K SshKeysIo
  unfolding run_privileged
  ensured name true unknown log = created name (run_privileged none (useradd_words name) log)
  ensured name ensure found log = (io_of name found, log)

  abbrev found_io : Text → Bool → K SshKeysIo
  unfolding ensured
  found_io name ensure log = ensured name ensure (m.lookup_user log name) log

  -- newSSHKeysIO.
  unfoldable pub new_ssh_keys_io : Text → Bool → K SshKeysIo
  unfolding found_io
  new_ssh_keys_io name ensure = do check_that (escalates m.mode) sudo_required; found_io name ensure

  -- A command as the target user.
  abbrev pub as_user : SshKeysIo → List Text → List Text
  as_user io words =
      if text_eq io.name (codes "root")
      then words
      else codes "runuser" ∷ codes "-u" ∷ io.name ∷ codes "--" ∷ words

  unfoldable pub io_run : SshKeysIo → Option Text → List Text → K Text
  unfolding run_privileged
  io_run io stdin words = run_privileged stdin (as_user io words)

  -- Exit status 1 of `test -e` is a missing file.
  abbrev pub is_missing : KeyError → Bool
  is_missing (command_exited words code stderr) = code == 1
  is_missing _ = false

  unfoldable pub read_after :
      SshKeysIo → Result KeyError Text × KeyLog → Result KeyError Text × KeyLog
  unfolding io_run
  read_after io (success out, log) = io_run io none (codes "cat" ∷ io.file ∷ []) log
  read_after io (failure e, log) = if is_missing e then (success [], log) else (failure e, log)

  unfoldable pub io_read : SshKeysIo → K Text
  unfolding read_after io_run
  io_read io log = read_after io (io_run io none (codes "test" ∷ codes "-e" ∷ io.file ∷ []) log)

  unfoldable pub cleaned :
      SshKeysIo → Text → Result KeyError Text × KeyLog → Result KeyError Text × KeyLog
  unfolding io_run
  cleaned io tmp (success out, log) = (success out, log)
  cleaned io tmp (failure e, log) =
      (failure e, (io_run io none (codes "rm" ∷ codes "-f" ∷ tmp ∷ []) log).1)

  -- A step whose error takes the temporary file away.
  unfoldable pub or_clean : SshKeysIo → Text → Option Text → List Text → K Text
  unfolding cleaned io_run
  or_clean io tmp stdin words log = cleaned io tmp (io_run io stdin words log)

  unfoldable pub io_write : SshKeysIo → Text → K Text
  unfolding or_clean io_run
  io_write io content = do
    _ ← io_run io none (codes "mkdir" ∷ codes "-p" ∷ codes "-m" ∷ codes "700" ∷ io.dir ∷ [])
    _ ← io_run io none (codes "chmod" ∷ codes "700" ∷ io.dir ∷ [])
    out ←
        io_run io none (codes "mktemp" ∷ m.join_path io.dir (codes ".authorized_keys.XXXXXX") ∷ [])
    let tmp = trim_space out
    check_that (has_prefix tmp (io.dir ++ codes "/")) (unexpected_temp tmp)
    _ ← or_clean io tmp (some content) (codes "tee" ∷ tmp ∷ [])
    _ ← or_clean io tmp none (codes "chmod" ∷ codes "600" ∷ tmp ∷ [])
    or_clean io tmp none (codes "mv" ∷ codes "-f" ∷ tmp ∷ io.file ∷ [])

  unfoldable pub names_expiry : List Text → Bool
  names_expiry [] = false
  names_expiry (o ∷ os) = has_prefix o (codes "expiry-time") || names_expiry os

  abbrev options_error : List Text → Option KeyError → Result KeyError (Unit {0})
  options_error os (some e) = failure e
  options_error os none = if names_expiry os then failure expiry_option else success tt

  abbrev wants_expiry : ℤ → Option (ℕ × ℕ) → Bool
  wants_expiry at none = false
  wants_expiry at (some (major, minor)) = ltb_ℤ (pos 0) at && supports_expiry_time major minor

  abbrev all_options : SshKeysParams → List Text
  all_options p =
      if wants_expiry p.expires_at m.ssh_version
      then p.options ++ m.expiry_time p.expires_at ∷ []
      else p.options

  abbrev write_if : SshKeysIo → Text × Bool → K (Unit {0})
  unfolding io_write
  write_if io (updated, false) = pure tt
  write_if io (updated, true) = do _ ← io_write io updated; pure tt

  unfoldable pub handle_ssh_keys_add : Option SshKeysParams → K KeyAnswer
  unfolding parse_params write_if new_ssh_keys_io io_read names_expiry
  handle_ssh_keys_add params = do
    asked ← lift (parse_params params true)
    let p = asked.0
    lift (options_error p.options (validate_options p.options))
    io ← new_ssh_keys_io p.user p.ensure_user
    content ← io_read io
    let out = authorized_keys_upsert content asked.1 (format_line asked.1 (all_options p))
    write_if io out
    pure (
        added p.user io.file out.1 (m.fingerprint asked.1)
          (wants_expiry p.expires_at m.ssh_version))

  abbrev removed_from : SshKey → SshKeysIo → K KeyAnswer
  unfolding io_read write_if
  removed_from k io = do
    content ← io_read io
    let out = authorized_keys_remove content k
    write_if io out
    pure (removed io.name io.file out.1)

  -- A missing user has no keys.
  abbrev after_lookup :
      SshKey → Result KeyError SshKeysIo × KeyLog → Result KeyError KeyAnswer × KeyLog
  unfolding removed_from
  after_lookup k (success io, log) = removed_from k io log
  after_lookup k (failure (user_missing name), log) = (success (no_user name), log)
  after_lookup k (failure e, log) = (failure e, log)

  unfoldable pub handle_ssh_keys_remove : Option SshKeysParams → K KeyAnswer
  unfolding after_lookup parse_params new_ssh_keys_io
  handle_ssh_keys_remove params = do
    asked ← lift (parse_params params true)
    λ log. after_lookup asked.1 (new_ssh_keys_io asked.0.user false log)

  abbrev entry : Option (SshKey × Text) → List (Text × Text × Text × Text)
  entry none = []
  entry (some (k, options)) = (k.kind, m.fingerprint k, k.comment, options) ∷ []

  unfoldable pub entries : List Text → List (Text × Text × Text × Text)
  entries [] = []
  entries (l ∷ ls) = entry (parse_line l) ++ entries ls

  unfoldable pub handle_ssh_keys_list : Option SshKeysParams → K KeyAnswer
  unfolding parse_params new_ssh_keys_io io_read entries
  handle_ssh_keys_list params = do
    asked ← lift (parse_params params false)
    io ← new_ssh_keys_io asked.0.user false
    content ← io_read io
    pure (listed asked.0.user io.file (entries (split_lines content)))
