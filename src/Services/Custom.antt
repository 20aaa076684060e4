-- ===== src/Services/Custom.antt =====
-- The PHP-FPM units and the custom checks of internal/servicecheck/servicecheck.go, and all checks together.
use serverkit_agent.Base.{
  ℕ, suc, ◌==◌, leb, if◌then◌else◌, Bool, false, ◌&&◌, ◌||◌, not, List, [], ◌∷◌, ◌++◌, Option, none,
  some, Text, codes, text_eq, length, has_prefix, split, fields,
}
use serverkit_agent.Base.Int.{ℤ, pos, scale, wrap64}
use serverkit_agent.Base.Matching.{all_chars, letter, digit}
use serverkit_agent.Services.{
  up, down, unknown, ServiceCheck, MonitorCheck, Fetched, bad_target, no_answer, answered, Dialled,
  bad_address, refused, connected, Usage, Site, second, clamp_timeout, check_of, threshold,
  UnitInfo, unit_state, web, databases,
}

-- strings.HasSuffix and strings.TrimSuffix.
unfoldable pub has_suffix : Text → Text → Bool
has_suffix [] suffix = text_eq [] suffix
has_suffix (c ∷ s) suffix = text_eq (c ∷ s) suffix || has_suffix s suffix

unfoldable pub trim_suffix : Text → Text → Text
trim_suffix [] suffix = []
trim_suffix (c ∷ s) suffix =
    let rest = trim_suffix s suffix in if text_eq (c ∷ s) suffix then [] else c ∷ rest

abbrev php_check : Text → Text → ServiceCheck
unfolding trim_suffix
php_check unit active =
    if text_eq active (codes "active")
    then check_of (trim_suffix unit (codes ".service")) (codes "php_fpm") up
        (codes "systemd unit active")
    else check_of (trim_suffix unit (codes ".service")) (codes "php_fpm") down
        (codes "systemd unit " ++ active)

-- One row of `systemctl list-units`.
unfoldable pub php_row : List Text → List ServiceCheck
unfolding php_check has_suffix
php_row (unit ∷ load ∷ active ∷ rest) =
    if has_prefix unit (codes "php")
      && has_suffix unit (codes "-fpm.service")
      && text_eq load (codes "loaded")
    then php_check unit active ∷ []
    else []
php_row _ = []

unfoldable pub php_rows : List Text → List ServiceCheck
unfolding php_row
php_rows [] = []
php_rows (l ∷ ls) = php_row (fields l) ++ php_rows ls

unfoldable pub parse_php : Text → List ServiceCheck
unfolding php_rows
parse_php raw = php_rows (split 10 raw)

abbrev php_of : Text × Bool → List ServiceCheck
unfolding parse_php
php_of (raw, err) = if err && text_eq raw [] then [] else parse_php raw

-- validUnit, on the length in characters; those that pass are ASCII.
abbrev pub unit_char : ℕ → Bool
unit_char c =
    letter c || digit c || (c == b'.') || (c == b'_') || (c == b'@') || (c == b'-') || (c == b':')

unfoldable pub valid_unit : Text → Bool
valid_unit [] = false
valid_unit (c ∷ s) = leb (length (c ∷ s)) 100 && not (c == b'-') && all_chars unit_char (c ∷ s)

abbrev fail_detail : Bool → Text → Text
fail_detail timed_out msg = if timed_out then codes "timeout" else msg

module _ (site : Site) where
  unfoldable pub http_check : Text → Text → Fetched → ServiceCheck
  http_check name target bad_target =
      check_of name (codes "custom") unknown (codes "invalid http target " ++ target)
  http_check name target (no_answer late) =
      check_of name (codes "custom") down (fail_detail late (codes "request failed"))
  http_check name target (answered status) =
      if leb 400 status
      then check_of name (codes "custom") down (codes "HTTP " ++ site.decimal_of status)
      else check_of name (codes "custom") up (codes "HTTP " ++ site.decimal_of status)

  unfoldable pub tcp_check : Text → Text → Dialled → ServiceCheck
  tcp_check name target bad_address =
      check_of name (codes "custom") unknown (codes "invalid tcp target " ++ target)
  tcp_check name target (refused late) =
      check_of name (codes "custom") down (fail_detail late (codes "connect failed"))
  tcp_check name target connected = check_of name (codes "custom") up (codes "tcp connect ok")

  abbrev found_check : Text → Option UnitInfo → ServiceCheck
  found_check name none = check_of name (codes "custom") unknown (codes "unit not found")
  found_check name (some u) =
      if text_eq u.active (codes "active")
      then check_of name (codes "custom") up (codes "systemd unit active")
      else check_of name (codes "custom") down (codes "systemd unit " ++ u.active)

  unfoldable pub systemd_check : Text → Text → ServiceCheck
  unfolding valid_unit trim_suffix unit_state
  systemd_check name target =
      if not site.linux || not (valid_unit target)
      then check_of name (codes "custom") unknown (codes "unsupported systemd target")
      else found_check name (unit_state site (trim_suffix target (codes ".service")))

  abbrev name_of : MonitorCheck → Text
  name_of ck = if text_eq ck.name [] then ck.target else ck.name

  -- The time of a custom check, in int64 nanoseconds; `d` is the checker's own.
  abbrev custom_timeout : ℤ → ℤ → ℤ
  custom_timeout d (pos (suc n)) = wrap64 (scale (pos (suc n)) second)
  custom_timeout d _ = d

  unfoldable pub custom_check : ℤ → MonitorCheck → ServiceCheck
  unfolding http_check tcp_check systemd_check clamp_timeout
  custom_check d ck =
      let kind = site.lowered ck.check_type in
      let time = clamp_timeout (custom_timeout d ck.timeout_seconds) in
      let name = name_of ck in
      if text_eq kind (codes "http")
      then http_check name ck.target (site.fetch time ck.target)
      else if text_eq kind (codes "tcp")
      then tcp_check name ck.target (site.dial time ck.target)
      else if text_eq kind (codes "systemd")
      then systemd_check name ck.target
      else check_of name (codes "custom") unknown (codes "unknown check type " ++ ck.check_type)

  unfoldable pub custom : ℤ → List MonitorCheck → List ServiceCheck
  unfolding custom_check
  custom d [] = []
  custom d (ck ∷ cks) = custom_check d ck ∷ custom d cks

  abbrev linux_checks : List ServiceCheck
  unfolding php_of web databases
  linux_checks = if site.linux then web site ++ php_of site.list_units ++ databases site else []

  -- Run.
  unfoldable pub run_checks : ℤ → List MonitorCheck → Usage → Usage → Usage → List ServiceCheck
  unfolding linux_checks custom threshold
  run_checks d cks cpu memory disk =
      linux_checks
      ++ (threshold (codes "disk") disk
          ∷ threshold (codes "cpu") cpu
          ∷ threshold (codes "memory") memory
          ∷ custom d cks)
