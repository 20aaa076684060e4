-- ===== src/Updater/Checking.antt =====
-- internal/updater/checker.go: the periodic check, and what it installs.
use serverkit_agent.Base.{Bool, true, false, [], Option, none, some, Text, ◌≡◌, refl}
use serverkit_agent.Base.Int.{ℤ}
use serverkit_agent.Base.Results.{Result, success, failure}
use serverkit_agent.Updater.{Platform, UpdateError, download_update}
use serverkit_agent.Updater.Checksums.{Verified, download_update-Verified}

-- What the panel answers about a version.
pub record VersionInfo : Type 0 where
  pub update_available : Bool
  pub latest_version : Text
  pub download_url : Text
  pub checksums_url : Text

pub record UpdateChecker : Type 0 where
  pub last_check : Option ℤ
  pub latest_version : Text
  pub update_pending : Bool

abbrev pub new_checker : UpdateChecker
new_checker = record { last_check = none; latest_version = []; update_pending = false }

-- The path that goes to InstallUpdate, if one does; its error is only logged.
abbrev pub handed_over : Result UpdateError Text → Option Text
handed_over (success path) = some path
handed_over (failure e) = none

unfoldable pub auto_installed : Platform → Bool → VersionInfo → Option Text
unfolding download_update
auto_installed host false info = none
auto_installed host true info =
    handed_over (download_update host info.download_url info.checksums_url)

abbrev pub noted : VersionInfo → UpdateChecker → UpdateChecker
noted info c = record c { latest_version = info.latest_version; update_pending = true }

unfoldable pub with_update :
    Platform → Bool → Bool → VersionInfo → UpdateChecker → UpdateChecker × Option Text
unfolding auto_installed
with_update host auto_install false info c = (record c { update_pending = false }, none)
with_update host auto_install true info c = (noted info c, auto_installed host auto_install info)

-- checkAndNotify, at a time; `none` is a check that failed.
unfoldable pub check_and_notify :
    Platform → Bool → ℤ → Option VersionInfo → UpdateChecker → UpdateChecker × Option Text
unfolding with_update
check_and_notify host auto_install now none c = (record c { last_check = some now }, none)
check_and_notify host auto_install now (some info) c =
    with_update host auto_install info.update_available info (record c { last_check = some now })

abbrev pub check_now : ℤ → Option VersionInfo → UpdateChecker → UpdateChecker × Option VersionInfo
check_now now o c = (record c { last_check = some now }, o)

handed_over-some :
    (r : Result UpdateError Text) (path : Text) → handed_over r ≡ some path → r ≡ success path
handed_over-some (success p) path h = cc h
handed_over-some (failure e) path h = absurd (cc h)

auto_installed-Verified :
    (host : Platform) (auto : Bool) (info : VersionInfo) (path : Text)
    → auto_installed host auto info ≡ some path
    → (auto ≡ true) × Verified host info.download_url info.checksums_url path
unfolding auto_installed
auto_installed-Verified host false info path h = absurd (cc h)
auto_installed-Verified host true info path h =
    let fetched =
      handed_over-some (download_update host info.download_url info.checksums_url) path h in
    (refl, download_update-Verified host info.download_url info.checksums_url path fetched)

with_update-Verified :
    (host : Platform) (auto : Bool) (available : Bool) (info : VersionInfo) (c : UpdateChecker)
    (path : Text)
    → (with_update host auto available info c).1 ≡ some path
    → (available ≡ true) × (auto ≡ true) × Verified host info.download_url info.checksums_url path
unfolding with_update
with_update-Verified host auto false info c path h = absurd (cc h)
with_update-Verified host auto true info c path h =
    let (on, verified) = auto_installed-Verified host auto info path h in (refl, on, verified)

-- A check installs something only when updates are to be installed by themselves and one is available, and what it
-- installs was extracted from its archive, which was verified.
pub check_and_notify-Verified :
    (host : Platform) (auto : Bool) (now : ℤ) (o : Option VersionInfo) (c : UpdateChecker)
    (path : Text)
    → (check_and_notify host auto now o c).1 ≡ some path
    → (info : VersionInfo) × (o ≡ some info)
      × (info.update_available ≡ true)
      × (auto ≡ true)
      × Verified host info.download_url info.checksums_url path
unfolding check_and_notify
check_and_notify-Verified host auto now none c path h = absurd (cc h)
check_and_notify-Verified host auto now (some info) c path h =
    let (available, on, verified) =
      with_update-Verified host auto info.update_available info _ path h in
    (info, refl, available, on, verified)
