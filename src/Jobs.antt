-- ===== src/Jobs.antt =====
-- internal/jobs/jobs.go: the ring of buffered events of one job, and the registry of recent jobs.
pub mod Replay
pub mod Retention
use serverkit_agent.Base.{
  ℕ, zero, suc, ◌+◌, ◌-◌, ◌%◌, ◌≤◌, ◌<◌, ◌==◌, ltb, leb, if◌then◌else◌, Bool, true, false, ◌||◌,
  not, List, [], ◌∷◌, ◌++◌, Option, none, some, Text, codes, text_eq, Dict, lookup, insert, delete,
  length, take, drop, set, replicate, has_prefix,
}
use serverkit_agent.Base.Int.{ℤ, pos, negsuc}

abbrev pub phase_done : Text
phase_done = codes "done"

-- `extra` is the JSON of the free-form map.
pub record Event : Type 0 where
  pub phase : Text
  pub lines : List Text
  pub message : Text
  pub percent : Option ℤ
  pub exit_code : Option ℤ
  pub error : Text
  pub extra : Text

-- The zero value that `make` fills the ring with.
abbrev pub zero_event : Event
zero_event = record {
  phase = [];
  lines = [];
  message = [];
  percent = none;
  exit_code = none;
  error = [];
  extra = [];
}

-- `done` says whether the channel of that name is closed.
pub record Job : Type 0 where
  pub id : Text
  pub channel : Text
  pub events : List Event
  pub cap : ℕ
  pub head : ℕ
  pub full : Bool
  pub done : Bool

-- A transport's SendStream; its error is a text.
abbrev pub Streamer : Type 0
Streamer = Text → Event → Option Text

-- The part of `Push` under the mutex.
unfoldable pub record_event : Job → Event → Job
record_event j ev =
    let head' = (j.head + 1) % j.cap in
    record j {
      events = set j.events j.head ev;
      head = head';
      full = if head' == 0 then true else j.full;
    }

abbrev close_done : Bool → Job → Job
close_done is_done j = if is_done then record j { done = true } else j

unfoldable pub push : Option Streamer → Job → Event → Job × Option Text
unfolding record_event
push s j ev =
    let j' = close_done (text_eq ev.phase phase_done) (record_event j ev) in
    (j', elim s [ none ↦ none | some send ↦ send j.channel ev ])

unfoldable pub replay : Job → List Event
replay j = if j.full then drop j.head j.events ++ take j.head j.events else take j.head j.events

unfoldable pub has_terminated : Job → Bool
has_terminated j = j.done

-- `order` holds the ids from the oldest job on.
pub record Registry : Type 0 where
  pub jobs : Dict Job
  pub max_jobs : ℕ
  pub order : List Text

-- An int argument that must be positive, or its default.
abbrev pub positive_or : ℕ → ℤ → ℕ
positive_or d (pos zero) = d
positive_or d (pos (suc n)) = suc n
positive_or d (negsuc n) = d

unfoldable pub new_registry : ℤ → Registry
new_registry max_jobs = record { jobs = []; max_jobs = positive_or 64 max_jobs; order = [] }

abbrev pub job_channel : Text → Text
job_channel id = codes "job:" ++ id

unfoldable pub new_job : Text → ℤ → Job
new_job id buffer_cap =
    let cap = positive_or 200 buffer_cap in
    record {
      id = id;
      channel = job_channel id;
      events = replicate cap zero_event;
      cap = cap;
      head = 0;
      full = false;
      done = false;
    }

-- `for len(r.order) > r.maxJobs`: the oldest id leaves the queue and the map.
unfoldable pub trim : ℕ → List Text → Dict Job → List Text × Dict Job
trim max_jobs [] jobs = ([], jobs)
trim max_jobs (oldest ∷ order) jobs =
    let rest = trim max_jobs order (delete oldest jobs) in
    if ltb max_jobs (suc (length order)) then rest else (oldest ∷ order, jobs)

-- `Registry.New`, with the id that `newID` drew.
unfoldable pub new : Text → ℤ → Registry → Registry × Job
unfolding new_job trim
new id buffer_cap r =
    let j = new_job id buffer_cap in
    let (order, jobs) = trim r.max_jobs (r.order ++ id ∷ []) (insert id j r.jobs) in
    (record r { jobs = jobs; order = order }, j)

unfoldable pub get : Text → Registry → Option Job
get id r = lookup id r.jobs

unfoldable pub lookup_by_channel : Text → Registry → Option Job
unfolding get
lookup_by_channel channel r =
    if leb (length channel) 4 || not (text_eq (take 4 channel) (codes "job:"))
    then none
    else get (drop 4 channel) r
