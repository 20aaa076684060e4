-- ===== src/Updater/Installing.antt =====
-- Putting a new binary in place on Unix (installUnix of internal/updater/updater.go).
use serverkit_agent.Base.{
  if◌then◌else◌, Bool, true, false, ◌&&◌, Option, none, some, Text, ◌≡◌, refl,
}

-- The two files: the binary that runs, and the backup. A file is named by what it holds.
pub record Slots : Type 0 where
  pub current : Option Text
  pub backup : Option Text

-- What copying the new binary does: all of it, or an error that leaves what there is by then.
pub data Copying : Type 0 where
  copied : Copying
  broken : Option Text → Copying

-- What the system calls do, in the order of the code: the first rename, the copy, the change of mode, the rename that
-- restores the backup, and whether the host has systemd, and the agent's own restart.
pub record Calls : Type 0 where
  pub renames : Bool
  pub copies : Copying
  pub chmods : Bool
  pub restores : Bool
  pub systemd : Bool
  pub restarts : Bool

pub data InstallError : Type 0 where
  not_backed_up not_copied not_executable not_restarted : InstallError

-- The rename of the backup over the binary; its error is ignored.
unfoldable pub restore : Calls → Slots → Slots
restore calls s = if calls.restores then record { current = s.backup; backup = none } else s

abbrev restarted : Calls → Option InstallError
restarted calls =
    if calls.systemd then none else if calls.restarts then none else some not_restarted

-- The change of mode and the restart.
unfoldable pub finish : Calls → Slots → Slots × Option InstallError
unfolding restore
finish calls s =
    if calls.chmods then (s, restarted calls) else (restore calls s, some not_executable)

abbrev pub after_copy : Calls → Copying → Text → Slots → Slots × Option InstallError
unfolding finish restore
after_copy calls copied new s = finish calls (record s { current = some new })
after_copy calls (broken left) new s =
    (restore calls (record s { current = left }), some not_copied)

-- installUnix.
unfoldable pub install_unix : Calls → Text → Slots → Slots × Option InstallError
unfolding after_copy
install_unix calls new s =
    if calls.renames
    then after_copy calls calls.copies new (record { current = none; backup = s.current })
    else (record s { backup = none }, some not_backed_up)

-- Whether the first rename, the copy and the change of mode all succeed.
abbrev pub in_place : Bool → Copying → Bool → Bool
in_place renames copied chmods = renames && chmods
in_place renames (broken left) chmods = false

-- How an install ends, for whether the new binary got in place.
pub data Installing (calls : Calls) (new : Text) (old : Slots) (placed : Bool)
    : Slots × Option InstallError → Type 0 where
  installed :
      placed ≡ true
      → Installing calls new old placed
          (record { current = some new; backup = old.current }, restarted calls)
  kept :
      (e : InstallError) (backup : Option Text)
      → placed ≡ false
      → Installing calls new old placed (record { current = old.current; backup = backup }, some e)
  stranded :
      (e : InstallError) (left : Option Text)
      → placed ≡ false
      → calls.restores ≡ false
      → Installing calls new old placed (record { current = left; backup = old.current }, some e)

module _ (calls : Calls) (new : Text) (old : Slots) where
  restore-Installing :
      (left : Option Text) (e : InstallError) (b : Bool)
      → calls.restores ≡ b
      → Installing calls new old false (
        if b
            then record { current = old.current; backup = none }
            else record { current = left; backup = old.current },
        some e,
      )
  restore-Installing left e true h = kept e none refl
  restore-Installing left e false h = stranded e left refl h

  finish-Installing :
      (b : Bool)
      → Installing calls new old b (
          if b then (record { current = some new; backup = old.current }, restarted calls) else (
            restore calls (record { current = some new; backup = old.current }),
            some not_executable,
          ))
  unfolding restore
  finish-Installing true = installed refl
  finish-Installing false = restore-Installing (some new) not_executable calls.restores refl

  -- Where the rename, the copy and the change of mode succeed, an install leaves the new binary in place and the old one
  -- as its backup, and returns what the restart does; otherwise it returns an error, and the old binary is where it was,
  -- unless the rename that restores it fails too, which leaves it in the backup.
  pub install_unix-Installing :
      Installing calls new old
        (in_place calls.renames calls.copies calls.chmods)
        (install_unix calls new old)
  unfolding install_unix finish restore after_copy
  install_unix-Installing = by_rename calls.renames calls.copies
    where
      by_rename :
          (b : Bool) (c : Copying)
          → Installing calls new old (in_place b c calls.chmods) (
              if b
              then after_copy calls c new (record { current = none; backup = old.current })
              else (record { current = old.current; backup = none }, some not_backed_up))
      by_rename false copied = kept not_backed_up none refl
      by_rename false (broken left) = kept not_backed_up none refl
      by_rename true copied = finish-Installing calls.chmods
      by_rename true (broken left) = restore-Installing left not_copied calls.restores refl
