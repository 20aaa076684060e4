-- ===== src/Permissions.antt =====
-- internal/permissions/permissions.go: the levels, the table of actions, and the three gates.
pub mod Table
pub mod Gate
pub mod Parsing
use serverkit_agent.Base.{
  ℕ, Bool, true, false, ◌&&◌, ◌||◌, ◌==◌, leb, if◌then◌else◌, Text, codes, text_eq, List, [], ◌∷◌,
  ◌++◌, Option, none, some, Dict, lookup, insert, ltb, ◌+◌, trim_space,
}
use serverkit_agent.Protocol.{channel_metrics}

-- A level is a string: a value other than the three has rank 0.
abbrev pub Level : Type 0
Level = Text

abbrev pub monitor : Level
monitor = codes "monitor"

abbrev pub protect : Level
protect = codes "protect"

abbrev pub full : Level
full = codes "full"

abbrev pub default : Level
default = full

unfoldable pub rank : Level → ℕ
rank l =
    if text_eq l monitor
    then 1
    else if text_eq l protect
    then 2
    else if text_eq l full
    then 3
    else 0

unfoldable pub protect_actions : List Text
protect_actions =
    codes "firewall:allow_port"
    ∷ codes "firewall:deny_port"
    ∷ codes "firewall:status"
    ∷ codes "firewall:allow_ip"
    ∷ codes "firewall:deny_ip"
    ∷ codes "fail2ban:status"
    ∷ codes "fail2ban:ban"
    ∷ codes "fail2ban:unban"
    ∷ codes "crowdsec:decisions:list"
    ∷ codes "crowdsec:ban"
    ∷ codes "crowdsec:unban"
    ∷ codes "cloudflare:origin_lock:status"
    ∷ codes "cloudflare:origin_lock:apply"
    ∷ codes "cloudflare:origin_lock:remove"
    ∷ []

unfoldable pub full_actions : List Text
full_actions =
    codes "docker:container:list"
    ∷ codes "docker:container:inspect"
    ∷ codes "docker:container:create"
    ∷ codes "docker:container:start"
    ∷ codes "docker:container:stop"
    ∷ codes "docker:container:restart"
    ∷ codes "docker:container:remove"
    ∷ codes "docker:container:logs"
    ∷ codes "docker:container:stats"
    ∷ codes "docker:container:exec"
    ∷ codes "docker:image:list"
    ∷ codes "docker:image:pull"
    ∷ codes "docker:image:remove"
    ∷ codes "docker:image:build"
    ∷ codes "docker:volume:list"
    ∷ codes "docker:volume:create"
    ∷ codes "docker:volume:remove"
    ∷ codes "docker:network:list"
    ∷ codes "docker:network:create"
    ∷ codes "docker:network:remove"
    ∷ codes "docker:compose:list"
    ∷ codes "docker:compose:ps"
    ∷ codes "docker:compose:up"
    ∷ codes "docker:compose:down"
    ∷ codes "docker:compose:logs"
    ∷ codes "docker:compose:restart"
    ∷ codes "docker:compose:pull"
    ∷ codes "system:metrics"
    ∷ codes "system:info"
    ∷ codes "system:processes"
    ∷ codes "system:exec"
    ∷ codes "packages:install"
    ∷ codes "packages:remove"
    ∷ codes "packages:list_installed"
    ∷ codes "packages:update_cache"
    ∷ codes "packages:install_async"
    ∷ codes "packages:upgrade"
    ∷ codes "packages:search"
    ∷ codes "packages:info"
    ∷ codes "systemd:status"
    ∷ codes "systemd:start"
    ∷ codes "systemd:stop"
    ∷ codes "systemd:restart"
    ∷ codes "systemd:enable"
    ∷ codes "systemd:disable"
    ∷ codes "systemd:daemon_reload"
    ∷ codes "systemd:list_units"
    ∷ codes "systemd:logs"
    ∷ codes "systemd:logs_follow"
    ∷ codes "doctor:probe"
    ∷ codes "runtimes:list"
    ∷ codes "runtimes:pyenv:bootstrap"
    ∷ codes "runtimes:python:installed"
    ∷ codes "runtimes:python:available"
    ∷ codes "runtimes:python:install"
    ∷ codes "runtimes:python:uninstall"
    ∷ codes "runtimes:python:set_global"
    ∷ codes "runtimes:python:set_local"
    ∷ codes "runtimes:python:current"
    ∷ codes "cron:status"
    ∷ codes "cron:list"
    ∷ codes "cron:add"
    ∷ codes "cron:remove"
    ∷ codes "cron:toggle"
    ∷ codes "cron:update"
    ∷ codes "cloudflared:status"
    ∷ codes "cloudflared:login"
    ∷ codes "cloudflared:tunnel:list"
    ∷ codes "cloudflared:tunnel:create"
    ∷ codes "cloudflared:tunnel:route"
    ∷ codes "cloudflared:tunnel:delete"
    ∷ codes "wireguard:keygen"
    ∷ codes "wireguard:interface:up"
    ∷ codes "wireguard:interface:down"
    ∷ codes "wireguard:peer:set"
    ∷ codes "wireguard:peer:remove"
    ∷ codes "wireguard:status"
    ∷ codes "wireguard:forward"
    ∷ codes "wireguard:unforward"
    ∷ codes "file:read"
    ∷ codes "file:write"
    ∷ codes "file:list"
    ∷ codes "ssh:keys:add"
    ∷ codes "ssh:keys:remove"
    ∷ codes "ssh:keys:list"
    ∷ codes "terminal:create"
    ∷ codes "terminal:input"
    ∷ codes "terminal:resize"
    ∷ codes "terminal:close"
    ∷ codes "agent:update"
    ∷ codes "agent:recapabilities"
    ∷ codes "survey:read"
    ∷ codes "gui:capabilities"
    ∷ codes "gui:screenshot"
    ∷ []

-- One loop of the initialiser of `required`.
pub classify : Level → List Text → Dict Level → Dict Level
classify l [] m = m
classify l (a ∷ acts) m = classify l acts (insert a l m)

pub required_table : Dict Level
unfolding classify
required_table = classify protect protect_actions (classify full full_actions [])

-- The minimum level for an action, and whether the action is classified. An unknown one needs `full`.
pub required : Text → Level × Bool
required action = elim (lookup action required_table) [ some l ↦ (l, true) | none ↦ (full, false) ]

unfoldable pub allowed : Level → Text → Bool
allowed level action =
    if text_eq level monitor || (rank level == 0)
    then false
    else leb (rank (required action).0) (rank level)

-- `nil` is `none`, and an error is its text.
unfoldable pub check : Level → Text → Option Text
check level action =
    if allowed level action
    then none
    else some (
        codes "action "
        ++ action
        ++ codes " requires permission level "
        ++ (required action).0
        ++ codes "; this agent is configured as "
        ++ level)

unfoldable pub channel_allowed : Level → Text → Bool
channel_allowed level channel =
    if text_eq level full
    then true
    else if text_eq level protect
    then text_eq channel channel_metrics
    else false

-- strings.ToLower: ASCII here, the rest of the Unicode table is the argument.
unfoldable pub to_lower : (ℕ → ℕ) → Text → Text
to_lower table [] = []
to_lower table (c ∷ s) =
    (if ltb c 128 then (if leb b'A' c && leb c b'Z' then c + 32 else c) else table c)
    ∷ to_lower table s

unfoldable pub parse : (ℕ → ℕ) → Text → Option Level
unfolding to_lower
parse table s = let l = to_lower table (trim_space s) in if rank l == 0 then none else some l
