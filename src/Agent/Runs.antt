-- ===== src/Agent/Runs.antt =====
-- Runs of the agent: messages of internal/agent/agent.go's handleMessage, and workers that finish.
use serverkit_agent.Base.Int.{ℤ}
use serverkit_agent.Base.{
  ◌+◌, ◌≤◌, List, [], ◌∷◌, ◌++◌, Option, none, some, Text, length, length-append, ◌≡◌, refl, ◌∙◌,
  arith, All-append, lookup, Option-cases, inl, inr,
}
use serverkit_agent.Protocol.{CommandMessage}
use serverkit_agent.Agent.{Agent, Sent, Execution, resolve_max_exec_timeout}
use serverkit_agent.Jobs.{Streamer}
use serverkit_agent.Agent.Commands.{
  IsGuarded, Answers, handle_command_lem, Answers-reply_of, command_timeout_bounds,
}
use serverkit_agent.Permissions.Gate.{check_iff}
use serverkit_agent.Permissions.{check}
use serverkit_agent.Agent.{command_timeout}
use serverkit_agent.Agent.Rotation.{Signer, Host}
use serverkit_agent.Agent.Pool.{
  Incoming, command, subscribe, unsubscribe, credential_update, unknown, handle_message, finish,
  Steps, start, received, finished, answers, pending, asked, answers-append, pending-append,
  answers-one,
}
use serverkit_agent.Agent.Service.{
  Guarded, Serves, asks, pending_one, nothing, subscribe-Serves, unsubscribe-Serves, update-Serves,
  submit-Serves,
}

-- A worker that finishes.
module _ (id : Text) (before : List (Option CommandMessage)) (payload : Option CommandMessage)
    (after : List (Option CommandMessage)) (a : Agent)
    (w : a.workers ≡ before ++ payload ∷ after) where
  freed : pending id a.workers ≡ pending id (before ++ after) + asks id payload
  unfolding pending
  freed =
      rw
        (
          w,
          pending-append id before (payload ∷ after),
          pending-append id before after,
          pending-append id (payload ∷ []) after,
        )
        (omega (arith, pending_one id payload))

  fewer : length (before ++ after) ≤ length a.workers
  fewer = rw (w, length-append before (payload ∷ after), length-append before after) (omega arith)

-- The answer, and at most one guarded handler call.
module _ (id : Text) (before : List (Option CommandMessage)) (cmd : CommandMessage)
    (after : List (Option CommandMessage)) (a : Agent)
    (w : a.workers ≡ before ++ some cmd ∷ after) where
  answered :
      (m : Sent)
      → Answers cmd.id m
      → (logged : List Text)
      → Serves id 0 a
          (record a { workers = before ++ after; logged = logged; sent = a.sent ++ m ∷ [] })
  unfolding resolve_max_exec_timeout
  answered m h logged = record {
    serves =
        rw (answers-append id a.sent (m ∷ []), answers-one id cmd.id m h)
          (omega (arith, freed id before (some cmd) after a w));
    slots = refl;
    bounded = λ h. omega (arith, fewer id before (some cmd) after a w);
    guarded = λ h. h;
  }

  executed :
      (m : Sent) (e : Execution)
      → Answers cmd.id m
      → IsGuarded a e
      → Serves id 0 a (record a {
        workers = before ++ after;
        executed = a.executed ++ e ∷ [];
        sent = a.sent ++ m ∷ [];
      })
  unfolding resolve_max_exec_timeout
  executed m e h g = record {
    serves = (answered m h a.logged).serves;
    slots = refl;
    bounded = (answered m h a.logged).bounded;
    guarded = λ all. All-append (IsGuarded a) a.executed (e ∷ []) all (g, tt);
  }

finish-Serves :
    (id : Text) (duration : ℤ) (before : List (Option CommandMessage))
    (payload : Option CommandMessage) (after : List (Option CommandMessage)) (a : Agent)
    → a.workers ≡ before ++ payload ∷ after
    → Serves id 0 a (finish duration before payload after a)
unfolding finish resolve_max_exec_timeout command_timeout
finish-Serves id duration before none after a w = record {
  serves = omega (arith, freed id before none after a w);
  slots = refl;
  bounded = λ h. omega (arith, fewer id before none after a w);
  guarded = λ h. h;
}
finish-Serves id duration before (some cmd) after a w =
    let (refused, absent, run) =
      handle_command_lem duration cmd (record a { workers = before ++ after }) in
    elim (Option-cases (check a.level cmd.action)) [
      | inr (err, e) ↦ rw (refused err e) (answered id before cmd after a w _ refl _)
      | inl e ↦
          let may = (check_iff a.level cmd.action).0 e in
          elim (Option-cases (lookup cmd.action a.handlers)) [
            | inl l ↦ rw (absent may l) (answered id before cmd after a w _ refl a.logged)
            | inr (h, l) ↦
                let bounds = command_timeout_bounds a cmd.timeout in
                rw (run h may l) (
                  executed id before cmd after a w _ _
                    (Answers-reply_of cmd.id duration
                      (h cmd.params (command_timeout a cmd.timeout)))
                    (may, bounds.0, bounds.1))
          ]
    ]

message-Serves :
    (id : Text) (sign : Signer) (host : Host) (send_stream : Streamer) (m : Incoming) (a : Agent)
    → Serves id (asked id (m ∷ [])) a (handle_message sign host send_stream m a)
unfolding handle_message asked
message-Serves id sign host send_stream (command none) a = submit-Serves id none a
message-Serves id sign host send_stream (command (some cmd)) a =
    let e : asked id (command (some cmd) ∷ []) ≡ asks id (some cmd) = omega arith in
    rw e (submit-Serves id (some cmd) a)
message-Serves id sign host send_stream (subscribe sub) a = subscribe-Serves id send_stream sub a
message-Serves id sign host send_stream (unsubscribe unsub) a = unsubscribe-Serves id unsub a
message-Serves id sign host send_stream (credential_update msg) a = update-Serves id sign host msg a
message-Serves id sign host send_stream unknown a = nothing id a

asked-cons :
    (id : Text) (m : Incoming) (log : List Incoming)
    → asked id (m ∷ log) ≡ asked id (m ∷ []) + asked id log
unfolding asked
asked-cons id (command none) log = omega arith
asked-cons id (command (some cmd)) log = omega arith
asked-cons id (subscribe sub) log = omega arith
asked-cons id (unsubscribe unsub) log = omega arith
asked-cons id (credential_update msg) log = omega arith
asked-cons id unknown log = omega arith

module _ {sign : Signer} {host : Host} {send_stream : Streamer} where
  -- Whatever comes in and in whatever order the workers finish: the commands of an id that came in are as
  -- many as its answers and its workers together, beyond those of the start.
  pub Steps-answered :
      {log : List Incoming} {a b : Agent}
      → Steps sign host send_stream log a b
      → (id : Text)
      → answers id b.sent + pending id b.workers
        ≡ answers id a.sent + pending id a.workers + asked id log
  unfolding asked
  Steps-answered start id = omega arith
  Steps-answered (received {log} {a} {b} s m) id = omega (
    arith,
    Steps-answered s id,
    (message-Serves id sign host send_stream m b).serves,
    asked-cons id m log,
  )
  Steps-answered (finished {log} {a} {b} s duration before payload after w) id =
      omega
        (arith, Steps-answered s id, (finish-Serves id duration before payload after b w).serves)

  -- From a start with no more workers than slots and with guarded calls only: no more workers run than
  -- the pool has slots, and every handler call passed the gate of the agent's level, with a positive
  -- timeout that the ceiling admits.
  pub Steps-Guarded :
      {log : List Incoming} {a b : Agent}
      → Steps sign host send_stream log a b
      → length a.workers ≤ a.slots
      → Guarded a
      → (length b.workers ≤ b.slots) × (b.slots ≡ a.slots) × Guarded b
  Steps-Guarded start h g = (h, refl, g)
  Steps-Guarded (received {log} {a} {b} s m) h g =
      let (le, k, all) = Steps-Guarded s h g in
      let next = message-Serves [] sign host send_stream m b in
      (next.bounded le, next.slots ∙ k, next.guarded all)
  Steps-Guarded (finished {log} {a} {b} s duration before payload after w) h g =
      let (le, k, all) = Steps-Guarded s h g in
      let next = finish-Serves [] duration before payload after b w in
      (next.bounded le, next.slots ∙ k, next.guarded all)
