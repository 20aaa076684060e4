-- ===== src/Transport/Reporting.antt =====
-- internal/transport/report/report.go: the interval between reports, and whether the panel heard of the agent.
use serverkit_agent.Base.{
  ℕ, zero, suc, ◌*◌, ◌^◌, ◌≤◌, ltb, leb, if◌then◌else◌, Bool, false, not, ◌||◌, List, [], ◌∷◌,
  Option, none, some, arith, inl, inr, Bool-cases,
}
use serverkit_agent.Base.Int.{ℤ, pos, negsuc, ltb_ℤ, ◌-ℤ◌, scale, wrap64}

abbrev pub second : ℕ
second = 10 ^ 9

abbrev pub min_interval : ℕ
min_interval = 15 * second

abbrev pub max_interval : ℕ
max_interval = 3600 * second

-- Durations are int64 nanoseconds.
unfoldable pub clamp : ℤ → ℕ
clamp (negsuc n) = min_interval
clamp (pos n) =
    if ltb n min_interval then min_interval else if ltb max_interval n then max_interval else n

-- The reporter: its interval and the time of the last report that was accepted, which is none at the zero time.
pub record Reporter : Type 0 where
  pub interval : ℕ
  pub last_ok : Option ℤ

abbrev or_minute : ℤ → ℤ
or_minute (negsuc n) = pos (60 * second)
or_minute (pos zero) = pos (60 * second)
or_minute (pos (suc n)) = pos (suc n)

unfoldable pub new_reporter : ℤ → Reporter
unfolding clamp
new_reporter interval = record { interval = clamp (or_minute interval); last_ok = none }

-- What comes of a request: an error before or after it was sent, or a reply with its status, whether it parses, whether
-- it acknowledges, and the interval that it suggests.
pub data Response : Type 0 where
  no_response : Response
  response : ℕ → Bool → Bool → ℤ → Response

pub data ReportError : Type 0 where
  not_sent : ReportError
  rejected : ℕ → ReportError
  not_acknowledged : ReportError

abbrev suggested : ℤ → ℕ → ℕ
unfolding clamp
suggested (pos (suc n)) interval = clamp (wrap64 (scale (pos (suc n)) second))
suggested _ interval = interval

-- SendOnce, at a time, from what comes of its request.
unfoldable pub send_once : Reporter → ℤ → Response → Reporter × Option ReportError
unfolding suggested
send_once r now no_response = (r, some not_sent)
send_once r now (response status parses ok seconds) =
    if leb 300 status
    then (r, some (rejected status))
    else if not parses || not ok
    then (r, some not_acknowledged)
    else (record { interval = suggested seconds r.interval; last_ok = some now }, none)

unfoldable pub is_connected : Reporter → ℤ → Bool
is_connected r now = elim r.last_ok [
  | none ↦ false
  | some t ↦ ltb_ℤ (now -ℤ t) (pos (3 * r.interval))
]

-- The reports of `Run`, each with its time.
unfoldable pub send_all : Reporter → List (ℤ × Response) → Reporter
unfolding send_once
send_all r [] = r
send_all r ((now, reply) ∷ rs) = send_all (send_once r now reply).0 rs

abbrev pub InRange : ℕ → Type 0
InRange n = (min_interval ≤ n) × (n ≤ max_interval)

clamp-InRange : (d : ℤ) → InRange (clamp d)
unfolding clamp
clamp-InRange (negsuc n) = (omega arith, omega arith)
clamp-InRange (pos n) = (ground arith, ground arith)

suggested-InRange :
    (seconds : ℤ) (interval : ℕ) → InRange interval → InRange (suggested seconds interval)
unfolding suggested
suggested-InRange (pos zero) interval h = h
suggested-InRange (pos (suc n)) interval h = clamp-InRange (wrap64 (scale (pos (suc n)) second))
suggested-InRange (negsuc n) interval h = h

send_once-InRange :
    (r : Reporter) (now : ℤ) (reply : Response)
    → InRange r.interval
    → InRange (send_once r now reply).0.interval
unfolding send_once
send_once-InRange r now no_response h = h
send_once-InRange r now (response status parses ok seconds) h = elim (Bool-cases (leb 300 status)) [
  | inl e ↦ rw e h
  | inr e ↦ elim (Bool-cases (not parses || not ok)) [
    | inl f ↦ rw (e, f) h
    | inr f ↦ rw (e, f) (suggested-InRange seconds r.interval h)
  ]
]

send_all-InRange :
    (r : Reporter) (rs : List (ℤ × Response))
    → InRange r.interval
    → InRange (send_all r rs).interval
unfolding send_all
send_all-InRange r [] h = h
send_all-InRange r ((now, reply) ∷ rs) h =
    send_all-InRange (send_once r now reply).0 rs (send_once-InRange r now reply h)

-- Whatever interval is configured and whatever the panel suggests, in any order and however large, a reporter waits
-- between 15 seconds and an hour.
pub send_all_interval :
    (configured : ℤ) (rs : List (ℤ × Response))
    → InRange (send_all (new_reporter configured) rs).interval
unfolding new_reporter
send_all_interval configured rs =
    send_all-InRange (new_reporter configured) rs (clamp-InRange (or_minute configured))
