-- ===== src/Permissions/Gate.antt =====
-- The gates of internal/permissions/permissions.go: `Allowed`, `Check` and `ChannelAllowed`.
use serverkit_agent.Base.{
  ◌≡◌, true, false, ◌&&◌, ◌||◌, ◌≤◌, ◌↔◌, Text, text_eq, text_eq_iff, mem_text, none, arith,
}
use serverkit_agent.Protocol.{channel_metrics}
use serverkit_agent.Permissions.{
  monitor, protect, full, rank, protect_actions, full_actions, required, allowed, check,
  channel_allowed,
}
use serverkit_agent.Permissions.Table.{lookup-required_table}

-- The action runs at `protect` only if the allowlist names it, and at `full` always; no other level,
-- `monitor` included, runs any action.
pub allowed_iff :
    (level action : Text)
    → allowed level action
      ≡ (text_eq level full || text_eq level protect && mem_text action protect_actions)
unfolding allowed rank required text_eq
allowed_iff level action = ground (
  arith,
  lookup-required_table action,
  text_eq_iff level full,
  text_eq_iff level protect,
  text_eq_iff level monitor,
)

-- A level of higher rank runs every action that a lower one runs.
pub allowed_monotone :
    (low high action : Text)
    → rank low ≤ rank high
    → allowed low action ≡ true
    → allowed high action ≡ true
unfolding rank text_eq
allowed_monotone low high action h run = ground (
  arith,
  allowed_iff low action,
  allowed_iff high action,
  text_eq_iff low full,
  text_eq_iff high full,
  text_eq_iff low protect,
  text_eq_iff high protect,
  text_eq_iff high monitor,
  text_eq_iff low monitor,
)

-- An action that neither list names is refused at every level but `full`.
pub allowed-unknown :
    (level action : Text)
    → mem_text action protect_actions ≡ false
    → mem_text action full_actions ≡ false
    → allowed level action ≡ text_eq level full
allowed-unknown level action p f = rw (allowed_iff level action) (ground arith)

-- `Check` has no error exactly when the action may run.
pub check_iff : (level action : Text) → (check level action ≡ none) ↔ (allowed level action ≡ true)
unfolding check
check_iff level action = ground arith

-- Every channel opens at `full`, the metrics stream at `protect` too, and no channel at any other level.
pub channel_allowed_iff :
    (level channel : Text)
    → channel_allowed level channel
      ≡ (text_eq level full || text_eq level protect && text_eq channel channel_metrics)
unfolding channel_allowed
channel_allowed_iff level channel = ground arith

-- A level of higher rank opens every channel that a lower one opens.
pub channel-monotone :
    (low high channel : Text)
    → rank low ≤ rank high
    → channel_allowed low channel ≡ true
    → channel_allowed high channel ≡ true
unfolding rank text_eq channel_allowed
channel-monotone low high channel h run = ground (
  arith,
  text_eq_iff low full,
  text_eq_iff high full,
  text_eq_iff low protect,
  text_eq_iff high protect,
  text_eq_iff high monitor,
)
