-- ===== src/Tests/Dispatch.antt =====
-- internal/agent/agent.go's dispatch on concrete messages.
use serverkit_agent.Base.{
  ◌+◌, ◌≤◌, List, [], ◌∷◌, ◌++◌, none, some, Text, codes, text_eq, lookup, insert, length, ◌≡◌,
  refl, arith,
}
use serverkit_agent.Base.Int.{pos, negsuc}
use serverkit_agent.Base.Retain.{retain}
use serverkit_agent.Protocol.{Message, CommandMessage, SubscribeMessage, CredentialUpdateMessage}
use serverkit_agent.Permissions.{full, channel_allowed}
use serverkit_agent.Jobs
use serverkit_agent.Jobs.{
  Streamer, new_job, get, new_registry, zero_event, lookup_by_channel, record_event, push, replay,
}
use serverkit_agent.Jobs.Replay.{push_all}
use serverkit_agent.Agent.{Agent, Handler, ok, handle_command, submit_command}
use serverkit_agent.Agent.Commands.{Outcome, handle_command-Outcome}
use serverkit_agent.Agent.Rotation.{
  Signer, Host, Rotated, verify_credential_rotation, handle_credential_update,
  handle_credential_update-Rotated, rotate,
}
use serverkit_agent.Agent.Subscriptions.{handle_subscribe, start_stream, cancel, send_all}
use serverkit_agent.Agent.Streams.{
  IsSubscribed, Request, subscribe, handle_all, handle_all-IsSubscribed, handle_subscribe-replays,
  all_streams, running, Taken,
}
use serverkit_agent.Agent.Pool.{
  Incoming, command, Steps, start, received, finished, handle_message, finish, answers, pending,
  asked,
}
use serverkit_agent.Agent.Runs.{Steps-answered, Steps-Guarded}
use serverkit_agent.Agent.Service.{Guarded}

abbrev echo : Handler
echo params timeout = ok params

abbrev list_jobs : Text
list_jobs = codes "cron:list"

abbrev history : List Jobs.Event
history = record zero_event { message = codes "1" } ∷ record zero_event { message = codes "2" } ∷ []

-- A job of which two events came into a ring of one.
abbrev job : Jobs.Job
job = push_all none (new_job (codes "x") (pos 1)) history

-- An agent of one slot with one handler.
abbrev small : Agent
small = record {
  id = codes "a1";
  level = full;
  handlers = (list_jobs, echo) ∷ [];
  max_exec_timeout = pos 0;
  slots = 1;
  workers = [];
  executed = [];
  sent = [];
  logged = [];
  jobs = record { jobs = (codes "x", job) ∷ []; max_jobs = 2; order = codes "x" ∷ [] };
  subscriptions = [];
  live = [];
  next_stream = 0;
  auth = record { api_key = codes "k"; api_secret = codes "s" };
  config_auth = record { api_key = codes "k"; api_secret = codes "s" };
  key_file = none;
}

abbrev envelope : Text → Message
envelope id = record { type = []; id = id; timestamp = pos 0; signature = [] }

abbrev list_command : CommandMessage
list_command = record {
  message = envelope (codes "c1");
  action = list_jobs;
  params = codes "p";
  timeout = negsuc 4;
}

handle_command-Outcome_example :
    Outcome (pos 3) list_command small (handle_command (pos 3) (some list_command) small)
handle_command-Outcome_example = handle_command-Outcome (pos 3) list_command small

-- A keyed hash that only this test knows.
abbrev sign : Signer
sign secret payload = secret ++ payload

abbrev host : Host
host = record { make_dir = none; encrypt = ok; write_file = λ bytes. (none, some bytes) }

abbrev rotation : CredentialUpdateMessage
rotation = record {
  message = envelope (codes "m");
  rotation_id = codes "r";
  api_key = codes "k2";
  api_secret = codes "s2";
  hmac_sig = codes "sr:a1:k2:s2";
}

handle_credential_update-Rotated_example :
    Rotated sign host rotation small (handle_credential_update sign host (some rotation) small)
handle_credential_update-Rotated_example = handle_credential_update-Rotated sign host rotation small

new_key : (handle_credential_update sign host (some rotation) small).auth.api_key ≡ codes "k2"
unfolding handle_credential_update verify_credential_rotation text_eq rotate
new_key = refl

abbrev takes : Streamer
takes channel ev = none

abbrev to_job : SubscribeMessage
to_job = record { message = envelope (codes "m"); channel = codes "job:x" }

abbrev to_metrics : SubscribeMessage
to_metrics = record { message = envelope (codes "n"); channel = codes "metrics" }

abbrev requests_made : List Request
requests_made =
    subscribe (some to_job) ∷ subscribe (some to_metrics) ∷ subscribe (some to_metrics) ∷ []

small-IsSubscribed : IsSubscribed small
unfolding lookup running
small-IsSubscribed = record {
  served = λ n h. ground arith;
  owned = λ n h. absurd (ground arith);
  single = λ c d n h. ground arith;
  fresh = λ c n h. ground arith;
}

handle_all-IsSubscribed_example : IsSubscribed (handle_all takes requests_made small)
handle_all-IsSubscribed_example =
    handle_all-IsSubscribed takes requests_made small small-IsSubscribed

-- The job has no stream, and the second stream of the metrics took the first one's place.
one_stream : (handle_all takes requests_made small).live ≡ 2 ∷ []
unfolding handle_subscribe start_stream channel_allowed text_eq lookup insert cancel send_all
    lookup_by_channel
one_stream = refl

handle_subscribe-replays_example :
    (taken : List Jobs.Event) × Taken takes (codes "job:x") (retain 1 history) taken
    × ((handle_subscribe takes (some to_job) small).sent ≡ [] ++ all_streams (codes "job:x") taken)
unfolding channel_allowed text_eq lookup_by_channel lookup get push record_event new_job
handle_subscribe-replays_example =
    handle_subscribe-replays takes to_job small none (codes "x") (pos 1) history refl refl

-- Two commands reach a pool of one slot, and then the first one finishes.
abbrev log : List Incoming
log = command (some list_command) ∷ command (some list_command) ∷ []

abbrev after_two : Agent
after_two =
    handle_message sign host takes (command (some list_command))
      (handle_message sign host takes (command (some list_command)) small)

abbrev after_all : Agent
after_all = finish (pos 1) [] (some list_command) [] after_two

two_commands : Steps sign host takes log small after_all
unfolding handle_message submit_command
two_commands =
    finished (received (received start (command (some list_command))) (command (some list_command)))
      (pos 1) [] (some list_command) [] refl

Steps-answered_example :
    answers (codes "c1") after_all.sent + pending (codes "c1") after_all.workers
    ≡ answers (codes "c1") [] + pending (codes "c1") [] + asked (codes "c1") log
Steps-answered_example = Steps-answered two_commands (codes "c1")

Steps-Guarded_example :
    (length after_all.workers ≤ after_all.slots) × (after_all.slots ≡ 1) × Guarded after_all
Steps-Guarded_example = Steps-Guarded two_commands (omega arith) tt
