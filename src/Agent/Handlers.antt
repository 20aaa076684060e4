-- ===== src/Agent/Handlers.antt =====
-- internal/agent/agent.go, registerHandlers: which actions have a handler.
use serverkit_agent.Base.{
  if◌then◌else◌, Bool, true, false, ◌&&◌, ◌||◌, List, [], ◌∷◌, ◌++◌, none, some, Text, codes,
  text_eq, text_eq_iff, text_eq_sound, mem_text, mem-append, Dict, lookup, insert, lookup-insert,
  ◌≡◌, refl, ap, ◌∙◌, arith,
}
use serverkit_agent.Permissions.{Level, allowed, monitor, protect, full, protect_actions}
use serverkit_agent.Permissions.Gate.{allowed_iff}
use serverkit_agent.Permissions.Table.{all_in, mem-all_in}
use serverkit_agent.Protocol.{actions}

-- The parts that are present: a Docker client, a metrics collector, a terminal manager, and the two
-- feature flags of the config that the function reads.
pub record Features : Type 0 where
  pub docker : Bool
  pub metrics : Bool
  pub file_access : Bool
  pub terminal : Bool
  pub exec : Bool

pub docker_actions : List Text
docker_actions =
    codes "docker:container:list"
    ∷ codes "docker:container:inspect"
    ∷ codes "docker:container:create"
    ∷ codes "docker:container:start"
    ∷ codes "docker:container:stop"
    ∷ codes "docker:container:restart"
    ∷ codes "docker:container:remove"
    ∷ codes "docker:container:stats"
    ∷ codes "docker:container:logs"
    ∷ codes "docker:container:exec"
    ∷ codes "docker:image:list"
    ∷ codes "docker:image:pull"
    ∷ codes "docker:image:remove"
    ∷ codes "docker:image:build"
    ∷ codes "docker:volume:list"
    ∷ codes "docker:volume:create"
    ∷ codes "docker:volume:remove"
    ∷ codes "docker:network:list"
    ∷ codes "docker:network:create"
    ∷ codes "docker:network:remove"
    ∷ codes "docker:compose:list"
    ∷ codes "docker:compose:ps"
    ∷ codes "docker:compose:up"
    ∷ codes "docker:compose:down"
    ∷ codes "docker:compose:logs"
    ∷ codes "docker:compose:restart"
    ∷ codes "docker:compose:pull"
    ∷ []

pub metrics_actions : List Text
metrics_actions = codes "system:metrics" ∷ codes "system:info" ∷ codes "system:processes" ∷ []

pub file_actions : List Text
file_actions = codes "file:read" ∷ codes "file:write" ∷ codes "file:list" ∷ []

pub terminal_actions : List Text
terminal_actions =
    codes "terminal:create"
    ∷ codes "terminal:input"
    ∷ codes "terminal:resize"
    ∷ codes "terminal:close"
    ∷ []

pub exec_actions : List Text
exec_actions = codes "system:exec" ∷ []

-- The handlers that are registered whatever the config says.
pub common_actions : List Text
common_actions =
    codes "cron:status"
    ∷ codes "cron:list"
    ∷ codes "cron:add"
    ∷ codes "cron:remove"
    ∷ codes "cron:toggle"
    ∷ codes "cron:update"
    ∷ codes "cloudflared:status"
    ∷ codes "cloudflared:login"
    ∷ codes "cloudflared:tunnel:list"
    ∷ codes "cloudflared:tunnel:create"
    ∷ codes "cloudflared:tunnel:route"
    ∷ codes "cloudflared:tunnel:delete"
    ∷ codes "wireguard:keygen"
    ∷ codes "wireguard:interface:up"
    ∷ codes "wireguard:interface:down"
    ∷ codes "wireguard:peer:set"
    ∷ codes "wireguard:peer:remove"
    ∷ codes "wireguard:status"
    ∷ codes "wireguard:forward"
    ∷ codes "wireguard:unforward"
    ∷ codes "firewall:allow_port"
    ∷ codes "firewall:deny_port"
    ∷ codes "ssh:keys:add"
    ∷ codes "ssh:keys:remove"
    ∷ codes "ssh:keys:list"
    ∷ codes "packages:install"
    ∷ codes "packages:remove"
    ∷ codes "packages:list_installed"
    ∷ codes "packages:update_cache"
    ∷ codes "packages:install_async"
    ∷ codes "packages:upgrade"
    ∷ codes "packages:search"
    ∷ codes "packages:info"
    ∷ codes "systemd:status"
    ∷ codes "systemd:start"
    ∷ codes "systemd:stop"
    ∷ codes "systemd:restart"
    ∷ codes "systemd:enable"
    ∷ codes "systemd:disable"
    ∷ codes "systemd:daemon_reload"
    ∷ codes "systemd:list_units"
    ∷ codes "systemd:logs"
    ∷ codes "systemd:logs_follow"
    ∷ codes "doctor:probe"
    ∷ codes "agent:update"
    ∷ codes "agent:recapabilities"
    ∷ codes "survey:read"
    ∷ codes "runtimes:list"
    ∷ codes "runtimes:pyenv:bootstrap"
    ∷ codes "runtimes:python:installed"
    ∷ codes "runtimes:python:available"
    ∷ codes "runtimes:python:install"
    ∷ codes "runtimes:python:uninstall"
    ∷ codes "runtimes:python:set_global"
    ∷ codes "runtimes:python:set_local"
    ∷ codes "runtimes:python:current"
    ∷ codes "gui:capabilities"
    ∷ codes "gui:screenshot"
    ∷ codes "firewall:status"
    ∷ codes "firewall:allow_ip"
    ∷ codes "firewall:deny_ip"
    ∷ codes "fail2ban:status"
    ∷ codes "fail2ban:ban"
    ∷ codes "fail2ban:unban"
    ∷ codes "crowdsec:decisions:list"
    ∷ codes "crowdsec:ban"
    ∷ codes "crowdsec:unban"
    ∷ codes "cloudflare:origin_lock:status"
    ∷ codes "cloudflare:origin_lock:apply"
    ∷ codes "cloudflare:origin_lock:remove"
    ∷ []

abbrev when : Bool → List Text → List Text
when b acts = if b then acts else []

unfoldable pub candidates : Features → List Text
candidates f =
    when f.docker docker_actions
    ++ (when f.metrics metrics_actions
        ++ (when f.file_access file_actions
            ++ (when f.terminal terminal_actions ++ (common_actions ++ when f.exec exec_actions))))

module _ {ℓ} {H : Type ℓ} where
  -- The assignments, each of the method that handles the action.
  unfoldable pub install : (Text → H) → List Text → Dict H → Dict H
  install method [] m = m
  install method (a ∷ acts) m = install method acts (insert a (method a) m)

  -- The last loop of registerHandlers: no handler above the level stays.
  unfoldable pub prune : Level → Dict H → Dict H
  prune level [] = []
  prune level ((a, h) ∷ m) =
      let rest = prune level m in if allowed level a then (a, h) ∷ rest else rest

  unfoldable pub register_handlers : (Text → H) → Features → Level → Dict H
  unfolding install prune
  register_handlers method f level = prune level (install method (candidates f) [])

module _ {ℓ} {H : Type ℓ} where
  lookup-install :
      (method : Text → H) (acts : List Text) (m : Dict H) (a : Text)
      → lookup a (install method acts m) ≡ (if mem_text a acts then some (method a) else lookup a m)
  unfolding install mem_text
  lookup-install method [] m a = refl
  lookup-install method (b ∷ acts) m a =
      let same : text_eq b a ≡ true → method b ≡ method a = λ e. ap method (text_eq_sound b a e) in
      ground (
        arith,
        same,
        lookup-install method acts (insert b (method b) m) a,
        lookup-insert b a (method b) m,
        text_eq_iff a b,
        text_eq_iff b a,
      )

  lookup-prune :
      (level : Level) (m : Dict H) (a : Text)
      → lookup a (prune level m) ≡ (if allowed level a then lookup a m else none)
  unfolding prune lookup
  lookup-prune level [] a = ground arith
  lookup-prune level ((b, h) ∷ m) a =
      let same : text_eq b a ≡ true → allowed level b ≡ allowed level a =
        λ e. ap (allowed level) (text_eq_sound b a e) in
      ground (arith, same, lookup-prune level m a)

  -- An action has a handler exactly when its part is present and the level allows it, and the handler
  -- is the action's own method.
  pub lookup-register_handlers :
      (method : Text → H) (f : Features) (level : Level) (a : Text)
      → lookup a (register_handlers method f level)
        ≡ (if mem_text a (candidates f) && allowed level a then some (method a) else none)
  unfolding register_handlers lookup
  lookup-register_handlers method f level a = ground (
    arith,
    lookup-prune level (install method (candidates f) []) a,
    lookup-install method (candidates f) [] a,
  )

mem-when :
    (b : Bool) (acts : List Text) (a : Text) → mem_text a (when b acts) ≡ (b && mem_text a acts)
unfolding mem_text
mem-when true acts a = refl
mem-when false acts a = refl

mem-candidates :
    (f : Features) (a : Text)
    → mem_text a (candidates f) ≡ (
        f.docker && mem_text a docker_actions
        || (f.metrics && mem_text a metrics_actions
            || (f.file_access && mem_text a file_actions
                || (f.terminal && mem_text a terminal_actions
                    || (mem_text a common_actions || f.exec && mem_text a exec_actions)))))
unfolding candidates
mem-candidates f a = simp (mem-append, mem-when)

protect_common : all_in protect_actions common_actions ≡ true
unfolding all_in mem_text text_eq common_actions
protect_common = unfold protect_actions in refl

abbrev pub every_feature : Features
every_feature = record {
  docker = true;
  metrics = true;
  file_access = true;
  terminal = true;
  exec = true;
}

protocol_candidates : all_in actions (candidates every_feature) ≡ true
unfolding all_in mem_text text_eq actions candidates docker_actions metrics_actions file_actions
    terminal_actions common_actions exec_actions
protocol_candidates = refl

candidates_protocol : all_in (candidates every_feature) actions ≡ true
unfolding all_in mem_text text_eq actions candidates docker_actions metrics_actions file_actions
    terminal_actions common_actions exec_actions
candidates_protocol = refl

allowed_at :
    (a : Text)
    → (allowed monitor a ≡ false)
      × (allowed protect a ≡ mem_text a protect_actions)
      × (allowed full a ≡ true)
unfolding text_eq
allowed_at a = (allowed_iff monitor a, allowed_iff protect a, allowed_iff full a)

protect-candidates :
    (f : Features) (a : Text) → mem_text a protect_actions ≡ true → mem_text a (candidates f) ≡ true
protect-candidates f a h =
    let common = mem-all_in a protect_actions common_actions protect_common h in
    ground (arith, mem-candidates f a, common)

-- Whatever parts are present, at level `protect` exactly the allowlist has handlers, and at `monitor`
-- nothing has. With every part present, at `full` exactly the actions of the protocol have.
pub handlers_by_level {ℓ} :
    {H : Type ℓ} (method : Text → H) (f : Features) (a : Text)
    → (lookup a (register_handlers method f monitor) ≡ none)
      × (lookup a (register_handlers method f protect)
          ≡ (if mem_text a protect_actions then some (method a) else none))
      × (lookup a (register_handlers method every_feature full)
          ≡ (if mem_text a actions then some (method a) else none))
handlers_by_level method f a =
    let (none_run, some_run, all_run) = allowed_at a in
    (
      lookup-register_handlers method f monitor a ∙ ground (arith, none_run),
      lookup-register_handlers method f protect a
          ∙ ground (arith, some_run, protect-candidates f a),
      lookup-register_handlers method every_feature full a
          ∙ ground (
            arith,
            all_run,
            mem-all_in a actions (candidates every_feature) protocol_candidates,
            mem-all_in a (candidates every_feature) actions candidates_protocol,
          ),
    )
