-- ===== src/Agent/Service.antt =====
-- What one message does to the commands in service and to the pool, of internal/agent/agent.go.
use serverkit_agent.Base.Int.{pos}
use serverkit_agent.Permissions.{channel_allowed}
use serverkit_agent.Base.{
  ℕ, ◌+◌, ◌≤◌, ◌<◌, ltb, false, List, [], ◌∷◌, ◌++◌, Option, none, some, Text, text_eq, length,
  length-append, ◌≡◌, refl, sym, arith, All, append-nil, lookup, ltb→lt, Bool-cases, Option-cases,
  inl, inr,
}
use serverkit_agent.Protocol.{
  CommandMessage, SubscribeMessage, UnsubscribeMessage, CredentialUpdateMessage,
}
use serverkit_agent.Agent.{
  Agent, Sent, result, submit_command, busy, busy_text, resolve_max_exec_timeout,
}
use serverkit_agent.Jobs.{Streamer}
use serverkit_agent.Agent.Commands.{IsGuarded}
use serverkit_agent.Agent.Rotation.{
  Signer, Host, handle_credential_update, verify_credential_rotation, ack_of, rotate,
}
use serverkit_agent.Agent.Subscriptions.{handle_subscribe, handle_unsubscribe, start_stream}
use serverkit_agent.Agent.Pool.{
  one_if, answers, pending, answers-append, pending-append, answers-send_all,
}

-- A command in service: answered, or with a worker.
abbrev pub in_service : Text → Agent → ℕ
in_service id a = answers id a.sent + pending id a.workers

-- Every handler call passed the gate, with a timeout in range.
abbrev pub Guarded : Agent → Type 0
Guarded a = All (IsGuarded a) a.executed

-- The effect of a step on the commands in service and on the pool.
pub record Serves (id : Text) (new : ℕ) (a b : Agent) : Type 0 where
  pub serves : in_service id b ≡ in_service id a + new
  pub slots : b.slots ≡ a.slots
  pub bounded : length a.workers ≤ a.slots → length b.workers ≤ b.slots
  pub guarded : Guarded a → Guarded b

quiet :
    (id : Text) (a : Agent) (b : Agent) (ms : List Sent)
    → b.sent ≡ a.sent ++ ms
    → answers id ms ≡ 0
    → b.workers ≡ a.workers
    → b.slots ≡ a.slots
    → (Guarded a → Guarded b)
    → Serves id 0 a b
quiet id a b ms s z w k g = record {
  serves = rw (s, w, answers-append id a.sent ms, z) (omega arith);
  slots = k;
  bounded = λ h. rw (w, k) h;
  guarded = g;
}

pub nothing : (id : Text) (a : Agent) → Serves id 0 a a
unfolding answers
nothing id a = quiet id a a [] (sym (append-nil a.sent)) refl refl refl (λ h. h)

pub subscribe-Serves :
    (id : Text) (send_stream : Streamer) (sub : Option SubscribeMessage) (a : Agent)
    → Serves id 0 a (handle_subscribe send_stream sub a)
unfolding handle_subscribe start_stream resolve_max_exec_timeout answers
subscribe-Serves id send_stream none a = nothing id a
subscribe-Serves id send_stream (some sub) a =
    elim (Bool-cases (channel_allowed a.level sub.channel)) [
      | inl e ↦
          rw e
            (quiet id a _ _ refl (answers-send_all id send_stream sub.channel _) refl refl (λ h. h))
      | inr e ↦ rw e (quiet id a _ _ refl refl refl refl (λ h. h))
    ]

pub unsubscribe-Serves :
    (id : Text) (unsub : Option UnsubscribeMessage) (a : Agent)
    → Serves id 0 a (handle_unsubscribe unsub a)
unfolding handle_unsubscribe resolve_max_exec_timeout answers
unsubscribe-Serves id none a = nothing id a
unsubscribe-Serves id (some unsub) a = elim (Option-cases (lookup unsub.channel a.subscriptions)) [
  | inl e ↦ rw e (nothing id a)
  | inr (k, e) ↦ rw e (quiet id a _ [] (sym (append-nil a.sent)) refl refl refl (λ h. h))
]

answers-ack_of :
    (id rotation : Text) (err : Option Text) → answers id (ack_of rotation err ∷ []) ≡ 0
unfolding answers
answers-ack_of id rotation none = refl
answers-ack_of id rotation (some err) = refl

pub update-Serves :
    (id : Text) (sign : Signer) (host : Host) (msg : Option CredentialUpdateMessage) (a : Agent)
    → Serves id 0 a (handle_credential_update sign host msg a)
unfolding handle_credential_update resolve_max_exec_timeout answers rotate
update-Serves id sign host none a = nothing id a
update-Serves id sign host (some msg) a =
    elim (Option-cases (verify_credential_rotation sign a msg)) [
      | inl e ↦ rw e (quiet id a _ _ refl (answers-ack_of id msg.rotation_id _) refl refl (λ h. h))
      | inr (err, e) ↦ rw e (quiet id a _ _ refl refl refl refl (λ h. h))
    ]

abbrev pub asks : Text → Option CommandMessage → ℕ
asks id none = 0
asks id (some cmd) = one_if (text_eq id cmd.id)

pub pending_one :
    (id : Text) (payload : Option CommandMessage) → pending id (payload ∷ []) ≡ asks id payload
unfolding pending
pending_one id none = refl
pending_one id (some cmd) = omega arith

busy-Serves :
    (id : Text) (payload : Option CommandMessage) (a : Agent)
    → Serves id (asks id payload) a (busy payload a)
unfolding resolve_max_exec_timeout answers
busy-Serves id none a = nothing id a
busy-Serves id (some cmd) a = record {
  serves =
      rw (answers-append id a.sent (result cmd.id false none busy_text (pos 0) ∷ [])) (omega arith);
  slots = refl;
  bounded = λ h. h;
  guarded = λ h. h;
}

-- Another payload in the pool.
taken-Serves :
    (id : Text) (payload : Option CommandMessage) (a : Agent)
    → length a.workers < a.slots
    → Serves id (asks id payload) a (record a { workers = a.workers ++ payload ∷ [] })
unfolding resolve_max_exec_timeout
taken-Serves id payload a free = record {
  serves = grind (arith, pending-append id a.workers (payload ∷ []), pending_one id payload);
  slots = refl;
  bounded = λ h. omega (arith, length-append a.workers (payload ∷ []));
  guarded = λ h. h;
}

pub submit-Serves :
    (id : Text) (payload : Option CommandMessage) (a : Agent)
    → Serves id (asks id payload) a (submit_command payload a)
unfolding submit_command
submit-Serves id payload a = elim (Bool-cases (ltb (length a.workers) a.slots)) [
  | inl e ↦ rw e (taken-Serves id payload a (ltb→lt (length a.workers) a.slots e))
  | inr e ↦ rw e (busy-Serves id payload a)
]
