-- ===== src/SshKeys/Machine.antt =====
-- The host of the ssh:keys:* handlers, and the escalation of internal/agent/sudo.go.
use serverkit_agent.Base.{
  ℕ, if◌then◌else◌, Bool, ◌||◌, List, ◌∷◌, Option, Text, codes, trim_space, contains,
}
use serverkit_agent.Base.Int.{ℤ}
use serverkit_agent.Base.Results.{Result, success, failure}
use serverkit_agent.Base.Steps.{Steps}
use serverkit_agent.SshKeys.{SshKey, KeyError, sudo_required, command_failed, command_exited}

pub data SudoMode : Type 0 where
  root : SudoMode
  passwordless : SudoMode
  unavailable : SudoMode

-- A command: its standard input, if it has one, and its words.
abbrev pub Command : Type 0
Command = Option Text × List Text

-- How a command ends: its output, an exit status with what it wrote to stderr, or no start.
pub data Ending : Type 0 where
  done : Text → Ending
  exited : ℕ → Text → Ending
  not_run : Text → Ending

-- What user.Lookup answers.
pub data Lookup : Type 0 where
  home : Text → Lookup
  unknown : Lookup
  lookup_error : Text → Lookup

abbrev pub KeyLog : Type 0
KeyLog = List Command

-- The host: what a command does after the commands before it, its users, and what is used of path, strings.ToLower,
-- base64, `ssh -V` and the local time.
pub record Machine : Type 0 where
  pub linux : Bool
  pub mode : SudoMode
  pub runs : KeyLog → Command → Ending
  pub lookup_user : KeyLog → Text → Lookup
  pub is_abs : Text → Bool
  pub join_path : Text → Text → Text
  pub lowered : Text → Text
  pub decodes : Text → Bool
  pub fingerprint : SshKey → Text
  pub ssh_version : Option (ℕ × ℕ)
  pub expiry_time : ℤ → Text

abbrev pub K : Type 0 → Type 0
K = Steps KeyError KeyLog

-- classifySudoError.
unfoldable pub classify_sudo_error : (Text → Text) → Text → Bool
classify_sudo_error lowered stderr =
    let low = lowered stderr in
    contains low (codes "a password is required")
    || contains low (codes "a terminal is required")
    || contains low (codes "sudo: not allowed")
    || contains low (codes "sudo: must be setuid root")

-- sudoCommandContext: the words that are run.
unfoldable pub sudo_command : SudoMode → List Text → Result KeyError (List Text)
sudo_command root words = success words
sudo_command passwordless words = success (codes "sudo" ∷ codes "-n" ∷ words)
sudo_command unavailable words = failure sudo_required

-- The end of a command, as runPrivileged reports it.
unfoldable pub reported : (Text → Text) → List Text → Ending → Result KeyError Text
unfolding classify_sudo_error
reported lowered words (done out) = success out
reported lowered words (exited code stderr) =
    if classify_sudo_error lowered (trim_space stderr)
    then failure sudo_required
    else failure (command_exited words code (trim_space stderr))
reported lowered words (not_run e) = failure (command_failed words e)
