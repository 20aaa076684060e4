-- ===== src/Tests/Fallbacks.antt =====
-- internal/transport/manager.go on concrete inputs.
use serverkit_agent.Base.{
  if◌then◌else◌, true, false, List, [], ◌∷◌, none, some, codes, ◌≡◌, refl, arith,
}
use serverkit_agent.Transport.{Primary, watching, polling, new_manager, run}
use serverkit_agent.Transport.Flap.{run-flaps, flaps, signals, Tick}

abbrev up : Primary
up = record { connected = true; ever_connected = true; last_error = none }

abbrev down : Primary
down = record { connected = false; ever_connected = true; last_error = none }

-- A websocket whose handshake never came through a proxy.
abbrev mangled : Primary
mangled = record {
  connected = false;
  ever_connected = false;
  last_error = some (codes "read: RSV1 set");
}

-- Three drops within ten minutes.
abbrev flapping : List Tick
flapping = (10, up) ∷ (20, down) ∷ (30, up) ∷ (40, down) ∷ (50, up) ∷ (60, down) ∷ []

-- The second drop comes after the window of the first.
abbrev steady : List Tick
steady =
    (10, up)
    ∷ (20, down)
    ∷ (30, up)
    ∷ (600000000040, down)
    ∷ (600000000050, up)
    ∷ (600000000060, down)
    ∷ []

run-flaps_example :
    (run (signals flapping) new_manager).status
    ≡ (if flaps [] false flapping then polling else watching)
run-flaps_example =
    run-flaps flapping
      (omega arith, (omega arith, (omega arith, (omega arith, (omega arith, (omega arith, tt))))))

flaps_now : (flaps [] false flapping ≡ true) × (flaps [] false steady ≡ false)
unfolding flaps
flaps_now = (refl, refl)
