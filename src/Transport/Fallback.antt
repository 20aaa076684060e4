-- ===== src/Transport/Fallback.antt =====
-- When and how internal/transport/manager.go changes the active transport.
use serverkit_agent.Base.{
  ℕ, ◌≤◌, ◌<◌, true, false, List, [], ◌∷◌, ◌++◌, length, select, ◌≡◌, ◌≢◌, refl, ap, ◌∙◌, arith,
  ◌↔◌,
}
use serverkit_agent.Transport.{
  Manager, Primary, Signal, ctx_done, ws_done, deadline, check, stability, fallback_done, Status,
  watching, polling, stopped, ws_flap_threshold, in_window, handshake_failed, is_tunnel_incompat,
  mode_of, on_deadline, on_check, poll_until, new_manager, on_drop, on_stability, watch, step, run,
  by_status, fallback, primary, run_fallback,
}

-- The loop watches the websocket, fewer drops than the threshold are remembered, and the reported
-- mode is that of the active transport.
pub record IsManager (m : Manager) : Type 0 where
  pub mode_agrees : m.mode ≡ mode_of m.active
  pub watches_primary : m.status ≡ watching → m.active ≡ primary
  pub polls_fallback : m.status ≡ polling → m.active ≡ fallback
  pub few_drops : m.status ≡ watching → length m.disconnect_times < ws_flap_threshold

pub new_manager-IsManager : IsManager new_manager
unfolding new_manager
new_manager-IsManager = ground arith

pub run_fallback-IsManager : (m : Manager) → IsManager (run_fallback m)
unfolding run_fallback
run_fallback-IsManager m = ground arith

on_stability-IsManager :
    (now : ℕ) (p : Primary) (m : Manager)
    → IsManager m
    → m.status ≡ watching
    → IsManager (on_stability now p m)
unfolding on_stability on_drop run_fallback
on_stability-IsManager now p m h st = ground arith

watch-IsManager :
    (sig : Signal) (p : Primary) (m : Manager)
    → IsManager m
    → m.status ≡ watching
    → IsManager (watch sig p m)
unfolding watch on_deadline on_check handshake_failed run_fallback
watch-IsManager (stability now) p m h st = on_stability-IsManager now p m h st
watch-IsManager _ p m h st = ground arith

poll_until-IsManager :
    (sig : Signal) (m : Manager) → IsManager m → m.status ≡ polling → IsManager (poll_until sig m)
unfolding poll_until
poll_until-IsManager ctx_done m h st = ground arith
poll_until-IsManager fallback_done m h st = ground arith
poll_until-IsManager _ m h st = h

by_status-IsManager :
    (st : Status) (sig : Signal) (p : Primary) (m : Manager)
    → m.status ≡ st
    → IsManager m
    → IsManager (by_status st sig p m)
unfolding by_status
by_status-IsManager watching sig p m e h = watch-IsManager sig p m h e
by_status-IsManager polling sig p m e h = poll_until-IsManager sig m h e
by_status-IsManager stopped sig p m e h = h

-- Every round, in every state, keeps the invariant.
pub step-IsManager :
    (sig : Signal) (p : Primary) (m : Manager) → IsManager m → IsManager (step (sig, p) m)
unfolding step
step-IsManager sig p m h = by_status-IsManager m.status sig p m refl h

run-IsManager : (ss : List (Signal × Primary)) (m : Manager) → IsManager m → IsManager (run ss m)
unfolding run
run-IsManager [] m h = h
run-IsManager ((sig, p) ∷ ss) m h = run-IsManager ss (step (sig, p) m) (step-IsManager sig p m h)

-- Whatever the signals and the client's reports, the invariant holds from the start.
pub run_new-IsManager : (ss : List (Signal × Primary)) → IsManager (run ss new_manager)
run_new-IsManager ss = run-IsManager ss new_manager new_manager-IsManager

poll_until-active : (sig : Signal) (m : Manager) → (poll_until sig m).active ≡ m.active
unfolding poll_until
poll_until-active ctx_done m = refl
poll_until-active _ m = refl

by_status-active :
    (st : Status) (sig : Signal) (p : Primary) (m : Manager)
    → st ≢ watching
    → (by_status st sig p m).active ≡ m.active
unfolding by_status
by_status-active watching sig p m h = absurd (h refl)
by_status-active polling sig p m h = poll_until-active sig m
by_status-active stopped sig p m h = refl

step_final :
    (sig : Signal) (p : Primary) (m : Manager)
    → IsManager m
    → m.active ≡ fallback
    → (step (sig, p) m).active ≡ fallback
unfolding step
step_final sig p m h e = by_status-active m.status sig p m (λ st. cc (h.watches_primary st)) ∙ e

-- Once the fallback is active it stays so, and its mode is reported.
pub fallback_final :
    (ss : List (Signal × Primary)) (m : Manager)
    → IsManager m
    → m.active ≡ fallback
    → ((run ss m).active ≡ fallback) × ((run ss m).mode ≡ mode_of fallback)
unfolding run
fallback_final [] m h e = (e, h.mode_agrees ∙ ap mode_of e)
fallback_final ((sig, p) ∷ ss) m h e =
    fallback_final ss (step (sig, p) m) (step-IsManager sig p m h) (step_final sig p m h e)

-- The reasons for falling back: the client has exited on its own; it has never connected and its last
-- error is a tunnel's, at a live deadline or a check; or a drop is the third in the window.
abbrev pub FallsBack : Signal → Primary → Manager → Type 0
FallsBack ctx_done p m = ⊥
FallsBack (ws_done ctx_err) p m = ctx_err ≡ false
FallsBack deadline p m =
    (m.deadline_live ≡ true) × (p.ever_connected ≡ false) × (is_tunnel_incompat p.last_error ≡ true)
FallsBack check p m = (p.ever_connected ≡ false) × (is_tunnel_incompat p.last_error ≡ true)
FallsBack (stability now) p m =
    (p.connected ≡ false)
    × (m.was_connected ≡ true)
    × (ws_flap_threshold ≤ length (select (in_window now) (m.disconnect_times ++ now ∷ [])))
FallsBack fallback_done p m = ⊥

on_stability_iff :
    (now : ℕ) (p : Primary) (m : Manager)
    → m.status ≡ watching
    → ((on_stability now p m).status ≡ polling) ↔ FallsBack (stability now) p m
unfolding on_stability on_drop run_fallback
on_stability_iff now p m st = (λ h. ground arith, λ h. ground arith)

watch_iff :
    (sig : Signal) (p : Primary) (m : Manager)
    → m.status ≡ watching
    → ((watch sig p m).status ≡ polling) ↔ FallsBack sig p m
unfolding watch on_deadline on_check handshake_failed run_fallback
watch_iff (stability now) p m st = on_stability_iff now p m st
watch_iff _ p m st = (λ h. ground arith, λ h. ground arith)

-- A round of the loop falls back exactly for one of those reasons.
pub step-polling_iff :
    (sig : Signal) (p : Primary) (m : Manager)
    → m.status ≡ watching
    → ((step (sig, p) m).status ≡ polling) ↔ FallsBack sig p m
unfolding step by_status
step-polling_iff sig p m st =
    let same : step (sig, p) m ≡ watch sig p m = ap (λ s. by_status s sig p m) st in
    rw same (watch_iff sig p m st)
