-- ===== src/Agent/Commands.antt =====
-- handleCommand of internal/agent/agent.go: the gate, the handler and the answer.
use serverkit_agent.Base.{
  ℕ, ◌*◌, ◌≤◌, ◌<◌, if◌then◌else◌, true, false, ◌||◌, not, List, [], ◌∷◌, ◌++◌, none, some, Text,
  codes, lookup, ◌≡◌, refl, arith, Option-cases, inl, inr, ◌⊎◌,
}
use serverkit_agent.Base.Int.{ℤ, pos, scale, wrap64, ltb_ℤ, ◌≤ℤ◌, ◌<ℤ◌, max_int64}
use serverkit_agent.Protocol.{CommandMessage}
use serverkit_agent.Permissions.{check, allowed}
use serverkit_agent.Permissions.Gate.{check_iff}
use serverkit_agent.Agent.{
  Agent, Handler, Reply, Sent, result, stream, error, ack, ok, fail, Execution,
  resolve_max_exec_timeout, command_timeout, find_and_execute, execute, handle_command, reply_of,
}

resolve_pos : (a : Agent) → pos 0 <ℤ resolve_max_exec_timeout a
unfolding resolve_max_exec_timeout
resolve_pos a = ground arith

ceiling_lem :
    (t m : ℤ)
    → pos 0 <ℤ m
    → (pos 0 <ℤ (if not (ltb_ℤ (pos 0) t) || ltb_ℤ m t then m else t))
      × ((if not (ltb_ℤ (pos 0) t) || ltb_ℤ m t then m else t) ≤ℤ m)
ceiling_lem t m h = ground arith

-- A handler's timeout is positive and at most the ceiling, whatever number came on the wire, a negative
-- one and one whose product wraps included.
pub command_timeout_bounds :
    (a : Agent) (ms : ℤ)
    → (pos 0 <ℤ command_timeout a ms) × (command_timeout a ms ≤ℤ resolve_max_exec_timeout a)
unfolding command_timeout
command_timeout_bounds a ms =
    ceiling_lem (wrap64 (scale ms 1000000)) (resolve_max_exec_timeout a) (resolve_pos a)

-- A number of milliseconds that the ceiling admits is kept exactly.
pub command_timeout_exact :
    (a : Agent) (ms : ℕ)
    → 0 < ms
    → ms * 1000000 ≤ max_int64
    → pos (ms * 1000000) ≤ℤ resolve_max_exec_timeout a
    → command_timeout a (pos ms) ≡ pos (ms * 1000000)
unfolding command_timeout wrap64
command_timeout_exact a ms h fits le = ground arith

-- The three outcomes of a command, by the gate and the lookup.
pub handle_command_lem :
    (duration : ℤ) (cmd : CommandMessage) (a : Agent)
    → ((err : Text)
        → check a.level cmd.action ≡ some err
        → handle_command duration (some cmd) a ≡ record a {
          logged = a.logged ++ err ∷ [];
          sent = a.sent ++ result cmd.id false none err (pos 0) ∷ [];
        })
      × (allowed a.level cmd.action ≡ true
          → lookup cmd.action a.handlers ≡ none
          → handle_command duration (some cmd) a ≡ record a {
            sent =
                a.sent
                ++ result cmd.id false none (codes "unknown action: " ++ cmd.action) (pos 0) ∷ [];
          })
      × ((h : Handler)
          → allowed a.level cmd.action ≡ true
          → lookup cmd.action a.handlers ≡ some h
          → handle_command duration (some cmd) a ≡ record a {
            executed =
                a.executed
                ++ record {
                  action = cmd.action;
                  params = cmd.params;
                  timeout = command_timeout a cmd.timeout;
                }
                  ∷ [];
            sent =
                a.sent
                ++ reply_of cmd.id duration (h cmd.params (command_timeout a cmd.timeout)) ∷ [];
          })
unfolding handle_command find_and_execute execute
handle_command_lem duration cmd a = (
  λ err e. rw e,
  λ e l. rw ((check_iff a.level cmd.action).1 e) (rw (l, find_and_execute)),
  λ h e l. rw ((check_iff a.level cmd.action).1 e) (rw (l, find_and_execute)),
)

-- What a command may do to the agent: a refused one runs nothing, is logged, and is answered with the
-- error; one without a handler runs nothing and is answered with an error; any other runs its handler
-- once, with the timeout that the ceiling admits, and is answered with what it returned.
pub data Outcome (duration : ℤ) (cmd : CommandMessage) (a : Agent) : Agent → Type 0 where
  refused :
      (err : Text)
      → allowed a.level cmd.action ≡ false
      → check a.level cmd.action ≡ some err
      → Outcome duration cmd a (record a {
        logged = a.logged ++ err ∷ [];
        sent = a.sent ++ result cmd.id false none err (pos 0) ∷ [];
      })
  absent :
      allowed a.level cmd.action ≡ true
      → lookup cmd.action a.handlers ≡ none
      → Outcome duration cmd a (record a {
        sent =
            a.sent
            ++ result cmd.id false none (codes "unknown action: " ++ cmd.action) (pos 0) ∷ [];
      })
  run :
      (h : Handler) (timeout : ℤ)
      → allowed a.level cmd.action ≡ true
      → lookup cmd.action a.handlers ≡ some h
      → pos 0 <ℤ timeout
      → timeout ≤ℤ resolve_max_exec_timeout a
      → Outcome duration cmd a (record a {
        executed =
            a.executed
            ++ record { action = cmd.action; params = cmd.params; timeout = timeout } ∷ [];
        sent = a.sent ++ reply_of cmd.id duration (h cmd.params timeout) ∷ [];
      })

-- Every command has one of three outcomes. One that the gate refuses runs nothing, is logged, and is
-- answered with the gate's error. One that has no handler runs nothing and is answered with an error. Any
-- other runs its handler once, with a positive timeout that the ceiling admits, and is answered with what
-- the handler returned.
pub handle_command-Outcome :
    (duration : ℤ) (cmd : CommandMessage) (a : Agent)
    → Outcome duration cmd a (handle_command duration (some cmd) a)
handle_command-Outcome duration cmd a =
    let (on_refused, on_absent, on_run) = handle_command_lem duration cmd a in
    elim (Option-cases (check a.level cmd.action)) [
      | inr (err, e) ↦
          rw (on_refused err e) (refused err (ground (arith, check_iff a.level cmd.action)) e)
      | inl e ↦
          let may = (check_iff a.level cmd.action).0 e in
          elim (Option-cases (lookup cmd.action a.handlers)) [
            | inl l ↦ rw (on_absent may l) (absent may l)
            | inr (h, l) ↦
                let bounds = command_timeout_bounds a cmd.timeout in
                rw (on_run h may l) (run h (command_timeout a cmd.timeout) may l bounds.0 bounds.1)
          ]
    ]

-- The message is an answer to the command of that id.
abbrev pub Answers : Text → Sent → Type 0
Answers id (result id' success value err duration) = id ≡ id'
Answers id (stream channel ev) = ⊥
Answers id (error code details) = ⊥
Answers id (ack rotation success err) = ⊥

pub Answers-reply_of : (id : Text) (duration : ℤ) (r : Reply) → Answers id (reply_of id duration r)
Answers-reply_of id duration (ok value) = refl
Answers-reply_of id duration (fail err) = refl

-- A handler call that the gate admits, with a timeout in range.
abbrev pub IsGuarded : Agent → Execution → Type 0
IsGuarded a e =
    (allowed a.level e.action ≡ true)
    × (pos 0 <ℤ e.timeout)
    × (e.timeout ≤ℤ resolve_max_exec_timeout a)

-- What a command adds to the handler calls: nothing, or one guarded call.
abbrev pub Adds : Agent → List Execution → Type 0
Adds a executed =
    (executed ≡ a.executed) ⊎ ((e : Execution) × IsGuarded a e × (executed ≡ a.executed ++ e ∷ []))

-- Every command is answered once, by its id, and runs at most one handler, which the gate admits.
pub handle_command-answer :
    (duration : ℤ) (cmd : CommandMessage) (a : Agent)
    → ((m : Sent) × Answers cmd.id m
        × ((handle_command duration (some cmd) a).sent ≡ a.sent ++ m ∷ []))
      × Adds a (handle_command duration (some cmd) a).executed
handle_command-answer duration cmd a =
    let (on_refused, on_absent, on_run) = handle_command_lem duration cmd a in
    elim (Option-cases (check a.level cmd.action)) [
      | inr (err, e) ↦ rw (on_refused err e) ((_, refl, refl), inl refl)
      | inl e ↦
          let may = (check_iff a.level cmd.action).0 e in
          elim (Option-cases (lookup cmd.action a.handlers)) [
            | inl l ↦ rw (on_absent may l) ((_, refl, refl), inl refl)
            | inr (h, l) ↦
                let bounds = command_timeout_bounds a cmd.timeout in
                rw (on_run h may l) (
                  (
                    _,
                    Answers-reply_of cmd.id duration (h cmd.params (command_timeout a cmd.timeout)),
                    refl,
                  ),
                  inr (_, (may, bounds.0, bounds.1), refl),
                )
          ]
    ]
