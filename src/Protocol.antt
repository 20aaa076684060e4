-- ===== src/Protocol.antt =====
-- pkg/protocol/messages.go: the wire messages between the agent and the panel, and the action names.
use serverkit_agent.Base.{Text, codes, List, [], ◌∷◌, ◌++◌}
use serverkit_agent.Base.Int.{ℤ}

-- The type tags that the agent's code compares with.
abbrev pub type_command : Text
type_command = codes "command"

abbrev pub type_subscribe : Text
type_subscribe = codes "subscribe"

abbrev pub type_unsubscribe : Text
type_unsubscribe = codes "unsubscribe"

abbrev pub type_credential_update : Text
type_credential_update = codes "credential_update"

abbrev pub type_heartbeat_ack : Text
type_heartbeat_ack = codes "heartbeat_ack"

-- The base of every message. `type` is the tag, `timestamp` unix milliseconds.
pub record Message : Type 0 where
  pub type : Text
  pub id : Text
  pub timestamp : ℤ
  pub signature : Text

pub record CommandMessage : Type 0 where
  pub message : Message
  pub open message use *
  pub action : Text
  pub params : Text
  pub timeout : ℤ

pub record SubscribeMessage : Type 0 where
  pub message : Message
  pub open message use *
  pub channel : Text

pub record UnsubscribeMessage : Type 0 where
  pub message : Message
  pub open message use *
  pub channel : Text

pub record CredentialUpdateMessage : Type 0 where
  pub message : Message
  pub open message use *
  pub rotation_id : Text
  pub api_key : Text
  pub api_secret : Text
  pub hmac_sig : Text

-- The channel of the read-only metrics stream.
abbrev pub channel_metrics : Text
channel_metrics = codes "metrics"

-- The action constants, in the order of the file: docker, system, packages, systemd, runtimes.
pub platform_actions : List Text
platform_actions =
    codes "docker:container:list"
    ∷ codes "docker:container:inspect"
    ∷ codes "docker:container:create"
    ∷ codes "docker:container:start"
    ∷ codes "docker:container:stop"
    ∷ codes "docker:container:restart"
    ∷ codes "docker:container:remove"
    ∷ codes "docker:container:logs"
    ∷ codes "docker:container:stats"
    ∷ codes "docker:container:exec"
    ∷ codes "docker:image:list"
    ∷ codes "docker:image:pull"
    ∷ codes "docker:image:remove"
    ∷ codes "docker:image:build"
    ∷ codes "docker:volume:list"
    ∷ codes "docker:volume:create"
    ∷ codes "docker:volume:remove"
    ∷ codes "docker:network:list"
    ∷ codes "docker:network:create"
    ∷ codes "docker:network:remove"
    ∷ codes "docker:compose:list"
    ∷ codes "docker:compose:ps"
    ∷ codes "docker:compose:up"
    ∷ codes "docker:compose:down"
    ∷ codes "docker:compose:logs"
    ∷ codes "docker:compose:restart"
    ∷ codes "docker:compose:pull"
    ∷ codes "system:metrics"
    ∷ codes "system:info"
    ∷ codes "system:processes"
    ∷ codes "system:exec"
    ∷ codes "packages:install"
    ∷ codes "packages:remove"
    ∷ codes "packages:list_installed"
    ∷ codes "packages:update_cache"
    ∷ codes "packages:install_async"
    ∷ codes "packages:upgrade"
    ∷ codes "packages:search"
    ∷ codes "packages:info"
    ∷ codes "systemd:status"
    ∷ codes "systemd:start"
    ∷ codes "systemd:stop"
    ∷ codes "systemd:restart"
    ∷ codes "systemd:enable"
    ∷ codes "systemd:disable"
    ∷ codes "systemd:daemon_reload"
    ∷ codes "systemd:list_units"
    ∷ codes "systemd:logs"
    ∷ codes "systemd:logs_follow"
    ∷ []

-- The action constants from the cron ones on.
pub feature_actions : List Text
feature_actions =
    codes "doctor:probe"
    ∷ codes "runtimes:list"
    ∷ codes "runtimes:pyenv:bootstrap"
    ∷ codes "runtimes:python:installed"
    ∷ codes "runtimes:python:available"
    ∷ codes "runtimes:python:install"
    ∷ codes "runtimes:python:uninstall"
    ∷ codes "runtimes:python:set_global"
    ∷ codes "runtimes:python:set_local"
    ∷ codes "runtimes:python:current"
    ∷ codes "cron:status"
    ∷ codes "cron:list"
    ∷ codes "cron:add"
    ∷ codes "cron:remove"
    ∷ codes "cron:toggle"
    ∷ codes "cron:update"
    ∷ codes "cloudflared:status"
    ∷ codes "cloudflared:login"
    ∷ codes "cloudflared:tunnel:list"
    ∷ codes "cloudflared:tunnel:create"
    ∷ codes "cloudflared:tunnel:route"
    ∷ codes "cloudflared:tunnel:delete"
    ∷ codes "wireguard:keygen"
    ∷ codes "wireguard:interface:up"
    ∷ codes "wireguard:interface:down"
    ∷ codes "wireguard:peer:set"
    ∷ codes "wireguard:peer:remove"
    ∷ codes "wireguard:status"
    ∷ codes "wireguard:forward"
    ∷ codes "wireguard:unforward"
    ∷ codes "firewall:allow_port"
    ∷ codes "firewall:deny_port"
    ∷ codes "firewall:status"
    ∷ codes "firewall:allow_ip"
    ∷ codes "firewall:deny_ip"
    ∷ codes "fail2ban:status"
    ∷ codes "fail2ban:ban"
    ∷ codes "fail2ban:unban"
    ∷ codes "crowdsec:decisions:list"
    ∷ codes "crowdsec:ban"
    ∷ codes "crowdsec:unban"
    ∷ codes "cloudflare:origin_lock:status"
    ∷ codes "cloudflare:origin_lock:apply"
    ∷ codes "cloudflare:origin_lock:remove"
    ∷ codes "file:read"
    ∷ codes "file:write"
    ∷ codes "file:list"
    ∷ codes "ssh:keys:add"
    ∷ codes "ssh:keys:remove"
    ∷ codes "ssh:keys:list"
    ∷ codes "terminal:create"
    ∷ codes "terminal:input"
    ∷ codes "terminal:resize"
    ∷ codes "terminal:close"
    ∷ codes "agent:update"
    ∷ codes "agent:recapabilities"
    ∷ codes "survey:read"
    ∷ codes "gui:capabilities"
    ∷ codes "gui:screenshot"
    ∷ []

-- Every action that the protocol names.
unfoldable pub actions : List Text
unfolding platform_actions feature_actions
actions = platform_actions ++ feature_actions
