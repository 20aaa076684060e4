-- ===== src/Protect/Tools.antt =====
-- The handlers of internal/agent/protect_handlers.go that run one command: firewall, fail2ban, CrowdSec.
use serverkit_agent.Base.{
  ℕ, ◌==◌, if◌then◌else◌, Bool, true, false, ◌||◌, List, [], ◌∷◌, ◌++◌, Option, none, some, Text,
  codes, text_eq, trim_space, contains,
}
use serverkit_agent.Base.Int.{ℤ, pos}
use serverkit_agent.Base.Decimal.{itoa}
use serverkit_agent.Base.Results.{Result, success, failure}
use serverkit_agent.Base.Steps.{Steps, pure, fail_with, ◌>>=◌, ◌>>◌, lift, check_that}
use serverkit_agent.Protect.{
  Netip, Error, not_linux, not_installed, tool_failed, invalid_params, no_firewall,
  range_not_banned, not_json, parse_network, parse_ban_target, parse_jail, parse_duration,
  parse_port_proto, is_single, ip_arg, cscli_target,
}

-- The commands that ran, oldest first, each with its name and arguments.
abbrev pub Log : Type 0
Log = List (List Text)

-- The host: its system, its installed tools, what a command prints and its error after the commands before
-- it, what a URL gives, strings.ToLower, and json.Valid.
pub record Host : Type 0 where
  pub linux : Bool
  pub has : Text → Bool
  pub run : Log → List Text → Text × Option Text
  pub fetch : Text → Option Text
  pub lowered : Text → Text
  pub valid_json : Text → Bool

-- A handler's step.
abbrev pub M : Type 0 → Type 0
M = Steps Error Log

-- runTool.
abbrev pub told : List Text → Text × Option Text → Result Error Text
told argv (out, none) = success (trim_space out)
told argv (out, some err) = failure (tool_failed argv err)

abbrev pub run_tool : Host → List Text → M Text
run_tool host argv log = (told argv (host.run log argv), log ++ argv ∷ [])

abbrev pub require_linux : Host → M (Unit {0})
require_linux host = check_that host.linux not_linux

abbrev pub require_tool : Host → Text → M (Unit {0})
require_tool host name = check_that (host.has name) (not_installed name)

-- The maps that the handlers return.
pub data Answer : Type 0 where
  firewall : Text → Bool → Text → Answer
  ip_rule : Text → Bool → Answer
  jail_status : Text → Text → Answer
  jail_set : Text → Text → Text → Answer
  decisions : Text → Answer
  banned : Text → ℕ → Text → Answer
  unbanned : Text → Text → Answer
  origin_locked : List ℤ → ℕ → Text → ℕ → Answer
  origin_unlocked : List ℤ → ℕ → Answer
  lock_status : Bool → Bool → ℕ → List ℤ → Answer

unfoldable pub ufw_active : Host → Text → Bool
ufw_active host out = contains (host.lowered out) (codes "status: active")

pub record IpRuleParams : Type 0 where
  pub ip : Text
  pub port : ℤ
  pub protocol : Text

pub record Fail2banParams : Type 0 where
  pub jail : Text
  pub ip : Text

pub record CrowdsecParams : Type 0 where
  pub ip : Text
  pub duration : ℤ

abbrev by_firewalld : Host → M Answer
by_firewalld host = do
  out ← run_tool host (codes "firewall-cmd" ∷ codes "--list-all" ∷ [])
  pure (firewall (codes "firewalld") true out)

abbrev by_ufw : Host → M Answer
by_ufw host = do
  out ← run_tool host (codes "ufw" ∷ codes "status" ∷ codes "verbose" ∷ [])
  pure (firewall (codes "ufw") (ufw_active host out) out)

unfoldable pub handle_firewall_status : Host → M Answer
handle_firewall_status host = do
  require_linux host
  if host.has (codes "ufw")
      then by_ufw host
      else if host.has (codes "firewall-cmd")
      then by_firewalld host
      else fail_with no_firewall

-- An empty payload leaves the parameters at their zero values; `none` is one that does not parse.
abbrev pub decoded : {P : Type 0} → Option P → M P
decoded none = fail_with invalid_params
decoded (some p) = pure p

module _ (net : Netip) (host : Host) where
  abbrev pub rule_words : Bool → net.Prefix → List Text
  rule_words allow p =
      if allow
      then codes "ufw" ∷ codes "allow" ∷ codes "from" ∷ ip_arg net p ∷ []
      else codes "ufw"
        ∷ codes "insert"
        ∷ codes "1"
        ∷ codes "deny"
        ∷ codes "from"
        ∷ ip_arg net p
        ∷ []

  abbrev pub port_words : ℤ → Text → List Text
  port_words port proto =
      codes "to" ∷ codes "any" ∷ codes "port" ∷ itoa port ∷ codes "proto" ∷ proto ∷ []

  abbrev is_zero : ℤ → Bool
  is_zero (pos n) = n == 0
  is_zero _ = false

  -- The port part of a rule, which is empty for port 0.
  unfoldable pub port_part : ℤ → Text → Result Error (List Text)
  unfolding parse_port_proto
  port_part port protocol =
      if is_zero port then success [] else elim (parse_port_proto host.lowered port protocol) [
        | success proto ↦ success (port_words port proto)
        | failure e ↦ failure e
      ]

  abbrev pub rule_target : Bool → Text → Result Error net.Prefix
  rule_target allow ip = if allow then parse_network net ip 8 16 else parse_ban_target net ip

  -- firewallIP.
  unfoldable pub firewall_ip : Option IpRuleParams → Bool → M Answer
  unfolding port_part
  firewall_ip params allow = do
    p ← decoded params
    target ← lift (rule_target allow p.ip)
    require_linux host
    require_tool host (codes "ufw")
    words ← lift (port_part p.port p.protocol)
    _ ← run_tool host (rule_words allow target ++ words)
    pure (ip_rule (ip_arg net target) allow)

  abbrev status_words : Text → Result Error (List Text)
  status_words jail =
      if text_eq jail []
      then success (codes "fail2ban-client" ∷ codes "status" ∷ [])
      else elim (parse_jail jail) [
        | success j ↦ success (codes "fail2ban-client" ∷ codes "status" ∷ j ∷ [])
        | failure e ↦ failure e
      ]

  unfoldable pub handle_fail2ban_status : Option Text → M Answer
  unfolding parse_jail
  handle_fail2ban_status params = do
    jail ← decoded params
    words ← lift (status_words jail)
    require_linux host
    require_tool host (codes "fail2ban-client")
    out ← run_tool host words
    pure (jail_status jail out)

  -- fail2banSet, for banip and unbanip.
  unfoldable pub fail2ban_set : Text → Option Fail2banParams → M Answer
  fail2ban_set verb params = do
    p ← decoded params
    jail ← lift (parse_jail p.jail)
    target ← lift (parse_ban_target net p.ip)
    check_that (is_single net target) range_not_banned
    require_linux host
    require_tool host (codes "fail2ban-client")
    let ip = net.addr_string (net.addr target)
    out ← run_tool host (codes "fail2ban-client" ∷ codes "set" ∷ jail ∷ verb ∷ ip ∷ [])
    pure (jail_set jail ip out)

  abbrev as_decisions : Text → M Answer
  as_decisions out =
      if text_eq out [] || text_eq out (codes "null")
      then pure (decisions (codes "[]"))
      else if host.valid_json out
      then pure (decisions out)
      else fail_with not_json

  unfoldable pub handle_crowdsec_decisions_list : M Answer
  handle_crowdsec_decisions_list = do
    require_linux host
    require_tool host (codes "cscli")
    out ←
        run_tool host
          (codes "cscli" ∷ codes "decisions" ∷ codes "list" ∷ codes "-o" ∷ codes "json" ∷ [])
    as_decisions out

  abbrev pub ban_words : net.Prefix → ℕ → List Text
  ban_words target secs =
      (codes "cscli" ∷ codes "decisions" ∷ codes "add" ∷ cscli_target net target)
      ++ (codes "--duration"
          ∷ (itoa (pos secs) ++ codes "s")
          ∷ codes "--reason"
          ∷ codes "serverkit ban"
          ∷ [])

  unfoldable pub handle_crowdsec_ban : Option CrowdsecParams → M Answer
  handle_crowdsec_ban params = do
    p ← decoded params
    target ← lift (parse_ban_target net p.ip)
    secs ← lift (parse_duration p.duration)
    require_linux host
    require_tool host (codes "cscli")
    out ← run_tool host (ban_words target secs)
    pure (banned (net.prefix_string target) secs out)

  unfoldable pub handle_crowdsec_unban : Option CrowdsecParams → M Answer
  handle_crowdsec_unban params = do
    p ← decoded params
    target ← lift (parse_ban_target net p.ip)
    require_linux host
    require_tool host (codes "cscli")
    out ←
        run_tool host (codes "cscli" ∷ codes "decisions" ∷ codes "delete" ∷ cscli_target net target)
    pure (unbanned (net.prefix_string target) out)
