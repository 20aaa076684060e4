-- ===== src/Tests/Logs.antt =====
-- internal/jobs/jobs.go and internal/events/store.go on concrete inputs.
use serverkit_agent.Base.{
  true, List, [], ◌∷◌, none, some, Text, codes, text_eq, mem_text, lookup, keys, ◌≡◌, refl, arith,
  All,
}
use serverkit_agent.Base.Int.{ℤ, pos, ◌<ℤ◌}
use serverkit_agent.Base.Retain.{retain, keep_last}
use serverkit_agent.Jobs
use serverkit_agent.Jobs.{
  new_job, zero_event, replay, has_terminated, get, new_registry, new, lookup_by_channel,
  job_channel, phase_done,
}
use serverkit_agent.Jobs.Replay.{push_all, replay-push_all}
use serverkit_agent.Jobs.Retention.{created, new_all, get-new_all}
use serverkit_agent.Events
use serverkit_agent.Events.{append, clear, new_store}
use serverkit_agent.Events.Order.{IsLog, made, append-IsLog}
use serverkit_agent.Events.Persist.{reload-append}

abbrev phase : Text → Jobs.Event
phase p = record zero_event { phase = p }

-- Three pushes into a ring of two.
abbrev three : List Jobs.Event
three = phase (codes "a") ∷ phase (codes "b") ∷ phase phase_done ∷ []

replay-push_all_example :
    replay (push_all none (new_job (codes "j") (pos 2)) three) ≡ retain 2 three
replay-push_all_example = replay-push_all none (codes "j") (pos 2) three

-- Three jobs in a registry of two.
abbrev requests : List (Text × ℤ)
requests = (codes "x", pos 1) ∷ (codes "y", pos 1) ∷ (codes "z", pos 1) ∷ []

get-new_all_example :
    ((id : Text)
      → get id (new_all requests (new_registry (pos 2))) ≡ lookup id (retain 2 (created requests)))
    × ((new_all requests (new_registry (pos 2))).order ≡ keys (retain 2 (created requests)))
unfolding mem_text text_eq
get-new_all_example = get-new_all (pos 2) requests (refl, (refl, (refl, tt)))

abbrev one_job : Jobs.Registry
one_job = record {
  jobs = (codes "x", new_job (codes "x") (pos 1)) ∷ [];
  max_jobs = 2;
  order = codes "x" ∷ [];
}

abbrev event : ℤ → Events.Event
event n = record {
  id = n;
  time = pos 5;
  kind = codes "k";
  severity = codes "info";
  message = codes "m";
  metadata = [];
}

-- A full log of two events.
abbrev two : Events.Store
two = record {
  events = event (pos 1) ∷ event (pos 2) ∷ [];
  cap = 2;
  next_id = pos 2;
  persist = true;
  file = none;
}

two-IsLog : IsLog two
two-IsLog = record {
  positive = omega arith;
  bounded = omega arith;
  counted = refl;
  below = (omega arith, (omega arith, tt));
  increasing = ((omega arith, tt), (tt, tt));
}

append-IsLog_example :
    (s' : Events.Store) × (append true (pos 9) (codes "k") (codes "warn") (codes "m") [] two
      ≡ some (s', made (pos 9) (codes "k") (codes "warn") (codes "m") [] two))
    × IsLog s'
    × (s'.next_id ≡ pos 3)
    × All (λ ev. ev.id <ℤ s'.next_id) two.events
    × (s'.events
        ≡ keep_last 2 two.events (made (pos 9) (codes "k") (codes "warn") (codes "m") [] two))
    × (s'.cap ≡ 2)
    × (s'.file ≡ some s'.events)
append-IsLog_example =
    append-IsLog true (pos 9) (codes "k") (codes "warn") (codes "m") [] two two-IsLog (omega arith)

reload-append_example :
    (s' : Events.Store) × (append true (pos 9) (codes "k") (codes "warn") (codes "m") [] two
      ≡ some (s', made (pos 9) (codes "k") (codes "warn") (codes "m") [] two))
    × ((new_store 2 true s'.file).events ≡ s'.events)
    × IsLog (new_store 2 true s'.file)
reload-append_example =
    reload-append (pos 9) (codes "k") (codes "warn") (codes "m") [] two two-IsLog (omega arith) refl
