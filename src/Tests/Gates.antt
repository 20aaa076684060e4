-- ===== src/Tests/Gates.antt =====
-- internal/permissions/permissions.go and registerHandlers of internal/agent/agent.go on concrete inputs.
use serverkit_agent.Base.{
  ℕ, if◌then◌else◌, true, false, ◌&&◌, ◌||◌, none, some, Text, codes, text_eq, mem_text, lookup,
  ◌∙◌, ◌≡◌, refl,
}
use serverkit_agent.Protocol.{actions}
use serverkit_agent.Permissions.{monitor, protect, full, protect_actions, allowed}
use serverkit_agent.Permissions.Gate.{allowed_iff}
use serverkit_agent.Agent.Handlers.{handlers_by_level, register_handlers, every_feature}

abbrev ban : Text
ban = codes "fail2ban:ban"

abbrev list_keys : Text
list_keys = codes "ssh:keys:list"

abbrev reboot : Text
reboot = codes "system:reboot"

abbrev other : ℕ → ℕ
other c = c

abbrev name : Text → Text
name a = a

allowed_iff_example :
    allowed protect ban
    ≡ (text_eq protect full || text_eq protect protect && mem_text ban protect_actions)
allowed_iff_example = allowed_iff protect ban

-- The allowlist admits the ban, and not the keys.
protect_runs :
    (allowed protect ban ≡ true)
    × (allowed protect list_keys ≡ false)
    × (allowed full reboot ≡ true)
unfolding text_eq mem_text protect_actions
protect_runs = (
  allowed_iff protect ban ∙ refl,
  allowed_iff protect list_keys ∙ refl,
  allowed_iff full reboot ∙ refl,
)

may_ban : allowed protect ban ≡ true
may_ban = protect_runs.0

handlers_by_level_example :
    (lookup ban (register_handlers name every_feature monitor) ≡ none)
    × (lookup ban (register_handlers name every_feature protect)
        ≡ (if mem_text ban protect_actions then some ban else none))
    × (lookup ban (register_handlers name every_feature full)
        ≡ (if mem_text ban actions then some ban else none))
handlers_by_level_example = handlers_by_level name every_feature ban
