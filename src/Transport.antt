-- ===== src/Transport.antt =====
-- internal/transport/manager.go: the select loop that watches the websocket and falls back to polling.
pub mod Flap
pub mod Fallback
pub mod Polling
pub mod Reporting
use serverkit_agent.Base.{
  ℕ, zero, suc, ◌+◌, ◌*◌, ◌^◌, ◌≤◌, ◌<◌, leb, ltb, if◌then◌else◌, Bool, true, false, ◌&&◌, ◌||◌,
  not, List, [], ◌∷◌, ◌++◌, Option, none, some, Text, codes, contains, length, select,
}

pub data Backend : Type 0 where
  primary fallback : Backend

-- `watching` is the loop of `Run`, `polling` the call of the fallback's `Run`, and `stopped` its end.
pub data Status : Type 0 where
  watching polling stopped : Status

abbrev pub mode_ws : Text
mode_ws = codes "ws"

abbrev pub mode_poll : Text
mode_poll = codes "poll"

-- The mode that a backend reports.
abbrev pub mode_of : Backend → Text
mode_of primary = mode_ws
mode_of fallback = mode_poll

-- Times are nanoseconds. `deadline_live` is whether the deadline timer can still fire.
pub record Manager : Type 0 where
  pub active : Backend
  pub mode : Text
  pub status : Status
  pub was_connected : Bool
  pub disconnect_times : List ℕ
  pub deadline_live : Bool

-- What the websocket client reports when it is asked.
pub record Primary : Type 0 where
  pub connected : Bool
  pub ever_connected : Bool
  pub last_error : Option Text

-- The cases of the select. `ws_done` carries whether the context has ended by then, `stability` the
-- tick's time, and `fallback_done` is the return of the fallback's `Run`.
pub data Signal : Type 0 where
  ctx_done : Signal
  ws_done : Bool → Signal
  deadline : Signal
  check : Signal
  stability : ℕ → Signal
  fallback_done : Signal

abbrev pub ws_flap_window : ℕ
ws_flap_window = 600 * 10 ^ 9

abbrev pub ws_flap_threshold : ℕ
ws_flap_threshold = 3

unfoldable pub new_manager : Manager
new_manager = record {
  active = primary;
  mode = mode_of primary;
  status = watching;
  was_connected = false;
  disconnect_times = [];
  deadline_live = true;
}

unfoldable pub is_tunnel_incompat : Option Text → Bool
is_tunnel_incompat none = false
is_tunnel_incompat (some msg) =
    contains msg (codes "RSV1 set")
    || contains msg (codes "engine.io handshake failed")
    || contains msg (codes "websocket: close 1006")

unfoldable pub run_fallback : Manager → Manager
run_fallback m = record m { active = fallback; mode = mode_of fallback; status = polling }

abbrev stop : Manager → Manager
stop m = record m { status = stopped }

-- The test that both the deadline and the check make.
unfoldable pub handshake_failed : Primary → Bool
handshake_failed p = not p.ever_connected && is_tunnel_incompat p.last_error

-- `t.After(now.Add(-wsFlapWindow))`.
abbrev pub in_window : ℕ → ℕ → Bool
in_window now t = ltb now (t + ws_flap_window)

on_deadline : Primary → Manager → Manager
unfolding run_fallback
on_deadline p m = if handshake_failed p then run_fallback m else record m { deadline_live = false }

on_check : Primary → Manager → Manager
unfolding run_fallback
on_check p m =
    if handshake_failed p
    then run_fallback m
    else if p.ever_connected
    then record m { deadline_live = false }
    else m

-- A drop is recorded, and the drops that left the window are forgotten.
on_drop : ℕ → Manager → Manager
unfolding run_fallback
on_drop now m =
    let kept = select (in_window now) (m.disconnect_times ++ now ∷ []) in
    let m' = record m { disconnect_times = kept } in
    if leb ws_flap_threshold (length kept)
    then run_fallback m'
    else record m' { was_connected = false }

on_stability : ℕ → Primary → Manager → Manager
unfolding on_drop
on_stability now p m =
    if not p.connected && m.was_connected
    then on_drop now m
    else record m { was_connected = p.connected }

-- One round of the loop. A timer that was stopped or has fired gives no signal.
pub watch : Signal → Primary → Manager → Manager
unfolding on_deadline on_check on_stability run_fallback
watch ctx_done p m = stop m
watch (ws_done ctx_err) p m = if ctx_err then stop m else run_fallback m
watch deadline p m = if m.deadline_live then on_deadline p m else m
watch check p m = on_check p m
watch (stability now) p m = on_stability now p m
watch fallback_done p m = m

-- While the fallback runs only the end of the context or of the fallback matters.
pub poll_until : Signal → Manager → Manager
poll_until ctx_done m = stop m
poll_until (ws_done ctx_err) m = m
poll_until deadline m = m
poll_until check m = m
poll_until (stability now) m = m
poll_until fallback_done m = stop m

by_status : Status → Signal → Primary → Manager → Manager
unfolding watch poll_until
by_status watching sig p m = watch sig p m
by_status polling sig p m = poll_until sig m
by_status stopped sig p m = m

unfoldable pub step : Signal × Primary → Manager → Manager
unfolding by_status
step (sig, p) m = by_status m.status sig p m

unfoldable pub run : List (Signal × Primary) → Manager → Manager
run [] m = m
run (s ∷ ss) m = run ss (step s m)
