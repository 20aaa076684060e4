-- ===== src/Agent/Pool.antt =====
-- handleMessage of internal/agent/agent.go with the command pool: messages come in while workers finish
-- in any order. A command's handler call and its report are one step here.
use serverkit_agent.Base.Int.{ℤ}
use serverkit_agent.Base.{
  ℕ, ◌+◌, if◌then◌else◌, Bool, List, [], ◌∷◌, ◌++◌, Option, none, some, Text, text_eq, ◌≡◌, refl,
  arith, Option-cases, inl, inr,
}
use serverkit_agent.Protocol.{
  CommandMessage, SubscribeMessage, UnsubscribeMessage, CredentialUpdateMessage,
}
use serverkit_agent.Agent.{Agent, Sent, result, stream, error, ack, handle_command, submit_command}
use serverkit_agent.Jobs.{Streamer, lookup_by_channel}
use serverkit_agent.Jobs
use serverkit_agent.Agent.Commands.{Answers}
use serverkit_agent.Agent.Rotation.{Signer, Host, handle_credential_update}
use serverkit_agent.Agent.Subscriptions.{handle_subscribe, handle_unsubscribe, send_all}

-- A message by its type, with the payload, which is `none` where it does not parse.
pub data Incoming : Type 0 where
  command : Option CommandMessage → Incoming
  subscribe : Option SubscribeMessage → Incoming
  unsubscribe : Option UnsubscribeMessage → Incoming
  credential_update : Option CredentialUpdateMessage → Incoming
  unknown : Incoming

-- handleMessage.
unfoldable pub handle_message : Signer → Host → Streamer → Incoming → Agent → Agent
unfolding submit_command handle_subscribe handle_unsubscribe handle_credential_update
handle_message sign host send_stream (command payload) a = submit_command payload a
handle_message sign host send_stream (subscribe sub) a = handle_subscribe send_stream sub a
handle_message sign host send_stream (unsubscribe unsub) a = handle_unsubscribe unsub a
handle_message sign host send_stream (credential_update msg) a =
    handle_credential_update sign host msg a
handle_message sign host send_stream unknown a = a

-- A worker finishes: its command is handled and its slot is free again.
unfoldable pub finish :
    ℤ
    → List (Option CommandMessage)
    → Option CommandMessage
    → List (Option CommandMessage)
    → Agent
    → Agent
unfolding handle_command
finish duration before payload after a =
    handle_command duration payload (record a { workers = before ++ after })

-- The agent's steps, with the messages that came in.
pub data Steps (sign : Signer) (host : Host) (send_stream : Streamer)
    : List Incoming → Agent → Agent → Type 0 where
  start : {a : Agent} → Steps sign host send_stream [] a a
  received :
      {log : List Incoming} {a b : Agent}
      → Steps sign host send_stream log a b
      → (m : Incoming)
      → Steps sign host send_stream (m ∷ log) a (handle_message sign host send_stream m b)
  finished :
      {log : List Incoming} {a b : Agent}
      → Steps sign host send_stream log a b
      → (duration : ℤ) (before : List (Option CommandMessage)) (payload : Option CommandMessage)
        (after : List (Option CommandMessage))
      → b.workers ≡ before ++ payload ∷ after
      → Steps sign host send_stream log a (finish duration before payload after b)

abbrev pub one_if : Bool → ℕ
one_if b = if b then 1 else 0

-- The number of answers to the commands of an id.
unfoldable pub answers : Text → List Sent → ℕ
answers id [] = 0
answers id (result id' success value err duration ∷ sent) =
    one_if (text_eq id id') + answers id sent
answers id (stream channel ev ∷ sent) = answers id sent
answers id (error code details ∷ sent) = answers id sent
answers id (ack rotation success err ∷ sent) = answers id sent

-- The number of workers on a command of an id.
unfoldable pub pending : Text → List (Option CommandMessage) → ℕ
pending id [] = 0
pending id (none ∷ ps) = pending id ps
pending id (some cmd ∷ ps) = one_if (text_eq id cmd.id) + pending id ps

-- The number of commands of an id that came in.
unfoldable pub asked : Text → List Incoming → ℕ
asked id [] = 0
asked id (command none ∷ log) = asked id log
asked id (command (some cmd) ∷ log) = one_if (text_eq id cmd.id) + asked id log
asked id (subscribe sub ∷ log) = asked id log
asked id (unsubscribe unsub ∷ log) = asked id log
asked id (credential_update msg ∷ log) = asked id log
asked id (unknown ∷ log) = asked id log

pub answers-append :
    (id : Text) (xs ys : List Sent) → answers id (xs ++ ys) ≡ answers id xs + answers id ys
unfolding answers
answers-append id [] ys = omega arith
answers-append id (result i s v e d ∷ xs) ys = grind (arith, answers-append id xs ys)
answers-append id (stream c ev ∷ xs) ys = answers-append id xs ys
answers-append id (error c d ∷ xs) ys = answers-append id xs ys
answers-append id (ack r s e ∷ xs) ys = answers-append id xs ys

pub pending-append :
    (id : Text) (xs ys : List (Option CommandMessage))
    → pending id (xs ++ ys) ≡ pending id xs + pending id ys
unfolding pending
pending-append id [] ys = omega arith
pending-append id (none ∷ xs) ys = pending-append id xs ys
pending-append id (some cmd ∷ xs) ys = grind (arith, pending-append id xs ys)

pub answers-one :
    (id i : Text) (m : Sent) → Answers i m → answers id (m ∷ []) ≡ one_if (text_eq id i)
unfolding answers
answers-one id i (result j s v e d) h = rw h (omega arith)
answers-one id i (stream c ev) h = absurd h
answers-one id i (error c d) h = absurd h
answers-one id i (ack r s e) h = absurd h

-- Messages that answer no command.
pub answers-send_all :
    (id : Text) (send_stream : Streamer) (channel : Text) (evs : List Jobs.Event)
    → answers id (send_all send_stream channel evs) ≡ 0
unfolding answers send_all
answers-send_all id send_stream channel [] = refl
answers-send_all id send_stream channel (ev ∷ evs) = elim (Option-cases (send_stream channel ev)) [
  | inl e ↦ rw (send_all, e) (answers-send_all id send_stream channel evs)
  | inr (err, e) ↦ rw (send_all, e) refl
]
