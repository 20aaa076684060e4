-- ===== src/Agent.antt =====
-- internal/agent/agent.go: the agent's state, and its dispatch of the panel's messages.
pub mod Handlers
pub mod Commands
pub mod Pool
pub mod Service
pub mod Runs
pub mod Sampler
pub mod Subscriptions
pub mod Streams
pub mod Rotation
use serverkit_agent.Base.{
  ℕ, zero, suc, ◌+◌, ◌*◌, ◌^◌, ltb, leb, if◌then◌else◌, Bool, true, false, ◌&&◌, ◌||◌, not, List,
  [], ◌∷◌, ◌++◌, Option, none, some, Text, codes, text_eq, Dict, lookup, insert, delete, length,
}
use serverkit_agent.Base.Int.{ℤ, pos, negsuc, scale, wrap64, leb_ℤ, ltb_ℤ}
use serverkit_agent.Protocol.{
  CommandMessage, SubscribeMessage, UnsubscribeMessage, CredentialUpdateMessage, channel_metrics,
}
use serverkit_agent.Permissions.{Level, check, channel_allowed}
use serverkit_agent.Jobs

-- A handler's result: the JSON of its value, or an error.
pub data Reply : Type 0 where
  ok : Text → Reply
  fail : Text → Reply

-- A CommandHandler: the raw parameters, and the timeout of its context in nanoseconds.
abbrev pub Handler : Type 0
Handler = Text → ℤ → Reply

-- What the agent hands to the transport. `result` is SendCommandResult's id, success, data, error and
-- duration; `ack` is a CredentialUpdateAck's rotation id, success and error.
pub data Sent : Type 0 where
  result : Text → Bool → Option Text → Text → ℤ → Sent
  stream : Text → Jobs.Event → Sent
  error : Text → Text → Sent
  ack : Text → Bool → Text → Sent

-- A handler call: its action, its parameters and its timeout.
pub record Execution : Type 0 where
  pub action : Text
  pub params : Text
  pub timeout : ℤ

pub record Credentials : Type 0 where
  pub api_key : Text
  pub api_secret : Text

-- The fields of Agent that the message handlers touch. `logged` holds the messages given to the event
-- store, `workers` the payloads that occupy a slot (`none` for one that is no command), `subscriptions`
-- the number of the stream that each channel's cancel function ends, `live` the streams not ended.
pub record Agent : Type 0 where
  pub id : Text
  pub level : Level
  pub handlers : Dict Handler
  pub max_exec_timeout : ℤ
  pub slots : ℕ
  pub workers : List (Option CommandMessage)
  pub executed : List Execution
  pub sent : List Sent
  pub logged : List Text
  pub jobs : Jobs.Registry
  pub subscriptions : Dict ℕ
  pub live : List ℕ
  pub next_stream : ℕ
  pub auth : Credentials
  pub config_auth : Credentials
  pub key_file : Option Text

abbrev pub default_max_exec_timeout : ℤ
default_max_exec_timeout = pos (600 * 10 ^ 9)

abbrev is_positive : ℤ → Bool
is_positive t = ltb_ℤ (pos 0) t

unfoldable pub resolve_max_exec_timeout : Agent → ℤ
resolve_max_exec_timeout a =
    if is_positive a.max_exec_timeout then a.max_exec_timeout else default_max_exec_timeout

-- cmdPoolSize, from the configured number.
unfoldable pub cmd_pool_size : ℤ → ℕ
cmd_pool_size (pos zero) = 8
cmd_pool_size (pos (suc n)) = suc n
cmd_pool_size (negsuc n) = 8

-- The timeout of a command, in milliseconds on the wire. The product is an int64.
unfoldable pub command_timeout : Agent → ℤ → ℤ
unfolding resolve_max_exec_timeout
command_timeout a ms =
    let max_timeout = resolve_max_exec_timeout a in
    let t = wrap64 (scale ms 1000000) in
    if not (is_positive t) || ltb_ℤ max_timeout t then max_timeout else t

abbrev pub send : Sent → Agent → Agent
send m a = record a { sent = a.sent ++ m ∷ [] }

-- `reject` of the source.
abbrev pub reject : Text → Agent → Agent
reject err a = record a { logged = a.logged ++ err ∷ [] }

abbrev pub reply_of : Text → ℤ → Reply → Sent
reply_of id duration (ok value) = result id true (some value) [] duration
reply_of id duration (fail err) = result id false none err duration

-- The call of the handler and its report, which took `duration`.
pub execute : ℤ → CommandMessage → Handler → Agent → Agent
execute duration cmd handler a =
    let timeout = command_timeout a cmd.timeout in
    let call : Execution = record { action = cmd.action; params = cmd.params; timeout = timeout } in
    send (reply_of cmd.id duration (handler cmd.params timeout))
      (record a { executed = a.executed ++ call ∷ [] })

-- The lookup of the handler and what follows it.
pub find_and_execute : ℤ → CommandMessage → Agent → Agent
unfolding execute
find_and_execute duration cmd a = elim (lookup cmd.action a.handlers) [
  | none ↦ send (result cmd.id false none (codes "unknown action: " ++ cmd.action) (pos 0)) a
  | some handler ↦ execute duration cmd handler a
]

abbrev pub by_check : Option Text → ℤ → CommandMessage → Agent → Agent
by_check (some err) duration cmd a = send (result cmd.id false none err (pos 0)) (reject err a)
by_check none duration cmd a = find_and_execute duration cmd a

-- handleCommand. `none` is a payload that is no command.
unfoldable pub handle_command : ℤ → Option CommandMessage → Agent → Agent
handle_command duration none a = a
handle_command duration (some cmd) a = by_check (check a.level cmd.action) duration cmd a

abbrev pub busy_text : Text
busy_text = codes "agent busy: too many concurrent commands, retry later"

abbrev pub busy : Option CommandMessage → Agent → Agent
busy none a = a
busy (some cmd) a = send (result cmd.id false none busy_text (pos 0)) a

-- submitCommand: the payload takes a slot, or the agent is busy.
unfoldable pub submit_command : Option CommandMessage → Agent → Agent
submit_command payload a =
    if ltb (length a.workers) a.slots
    then record a { workers = a.workers ++ payload ∷ [] }
    else busy payload a
