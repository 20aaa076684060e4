-- ===== src/Transport/Flap.antt =====
-- The flap detector of internal/transport/manager.go against the whole history of drops.
use serverkit_agent.Base.{
  ℕ, ◌≤◌, leb, if◌then◌else◌, Bool, true, false, ◌&&◌, ◌||◌, not, List, [], ◌∷◌, ◌++◌, length,
  select, select-append, select-select, ◌≡◌, refl, sym, ap, ◌∙◌, arith, Bool-cases, inl, inr,
}
use serverkit_agent.Transport.{
  Manager, Primary, Signal, stability, watching, polling, ws_flap_threshold, in_window, new_manager,
  on_drop, on_stability, step, by_status, run_fallback, run,
}

-- A tick of the stability timer: its time, and what the client reports.
abbrev pub Tick : Type 0
Tick = ℕ × Primary

abbrev pub signals : List Tick → List (Signal × Primary)
signals [] = []
signals ((now, p) ∷ ticks) = (stability now, p) ∷ signals ticks

-- Time does not run backwards.
abbrev pub Monotone : ℕ → List Tick → Type 0
Monotone last [] = Unit
Monotone last ((now, p) ∷ ticks) = (last ≤ now) × Monotone now ticks

-- The reference: whether some drop is the third or later of all drops so far within the window.
unfoldable pub flaps : List ℕ → Bool → List Tick → Bool
flaps past was [] = false
flaps past was ((now, p) ∷ ticks) =
    let past' = if not p.connected && was then past ++ now ∷ [] else past in
    let later = flaps past' p.connected ticks in
    (not p.connected && was) && leb ws_flap_threshold (length (select (in_window now) past'))
    || later

-- From `last` on the kept drops and all drops look alike.
abbrev Forgets : List ℕ → List ℕ → ℕ → Type 0
Forgets kept past last =
    (now : ℕ) → last ≤ now → select (in_window now) kept ≡ select (in_window now) past

in_window-weaken :
    (now later t : ℕ) → now ≤ later → in_window later t ≡ true → in_window now t ≡ true
in_window-weaken now later t h w = ground arith

Forgets-later :
    (kept past : List ℕ) (last now : ℕ)
    → last ≤ now
    → Forgets kept past last
    → Forgets kept past now
Forgets-later kept past last now h f later le = f later (omega arith)

-- The list that the drop handler keeps is what the window leaves of the whole history.
kept_lem :
    (kept past : List ℕ) (last now : ℕ)
    → last ≤ now
    → Forgets kept past last
    → select (in_window now) (kept ++ now ∷ []) ≡ select (in_window now) (past ++ now ∷ [])
kept_lem kept past last now h f =
    select-append (in_window now) kept (now ∷ [])
    ∙ ap (λ xs. xs ++ select (in_window now) (now ∷ [])) (f now h)
    ∙ sym (select-append (in_window now) past (now ∷ []))

step_watching :
    (m : Manager) (now : ℕ) (p : Primary)
    → m.status ≡ watching
    → step (stability now, p) m ≡ on_stability now p m
unfolding step by_status
step_watching m now p e = ap (λ st. by_status st (stability now) p m) e

step_polling :
    (m : Manager) (now : ℕ) (p : Primary) → m.status ≡ polling → step (stability now, p) m ≡ m
unfolding step by_status
step_polling m now p e = ap (λ st. by_status st (stability now) p m) e

run_polling : (ticks : List Tick) (m : Manager) → m.status ≡ polling → run (signals ticks) m ≡ m
unfolding run
run_polling [] m e = refl
run_polling ((now, p) ∷ ticks) m e =
    ap (run (signals ticks)) (step_polling m now p e) ∙ run_polling ticks m e

-- A round that sees no drop.
steady_lem :
    (m : Manager) (now : ℕ) (p : Primary)
    → (not p.connected && m.was_connected) ≡ false
    → on_stability now p m ≡ record m { was_connected = p.connected }
unfolding on_stability
steady_lem m now p e = rw e

-- A round that sees one: the third drop in the window ends the loop.
drop_lem :
    (m : Manager) (now : ℕ) (p : Primary) (kept : List ℕ)
    → (not p.connected && m.was_connected) ≡ true
    → select (in_window now) (m.disconnect_times ++ now ∷ []) ≡ kept
    → on_stability now p m ≡ (
        if leb ws_flap_threshold (length kept)
        then run_fallback (record m { disconnect_times = kept })
        else record m { disconnect_times = kept; was_connected = false })
unfolding on_stability on_drop
drop_lem m now p kept e k = rw (e, k)

flaps_steady :
    (past : List ℕ) (was : Bool) (now : ℕ) (p : Primary) (ticks : List Tick)
    → (not p.connected && was) ≡ false
    → flaps past was ((now, p) ∷ ticks) ≡ flaps past p.connected ticks
unfolding flaps
flaps_steady past was now p ticks e = rw e

flaps_drop :
    (past : List ℕ) (was : Bool) (now : ℕ) (p : Primary) (ticks : List Tick)
    → (not p.connected && was) ≡ true
    → flaps past was ((now, p) ∷ ticks) ≡ (
        leb ws_flap_threshold (length (select (in_window now) (past ++ now ∷ [])))
        || flaps (past ++ now ∷ []) false ticks)
unfolding flaps
flaps_drop past was now p ticks e = let down : p.connected ≡ false = ground arith in rw (e, down)

-- The status that the run has when the loop ends at this round, or goes on.
run_if :
    (b : Bool) (ticks : List Tick) (ended going : Manager) (rest : Bool)
    → ended.status ≡ polling
    → (run (signals ticks) going).status ≡ (if rest then polling else watching)
    → (run (signals ticks) (if b then ended else going)).status
      ≡ (if b || rest then polling else watching)
run_if true ticks ended going rest e h = rw (run_polling ticks ended e) e
run_if false ticks ended going rest e h = h

flap_run :
    (ticks : List Tick) (m : Manager) (past : List ℕ) (last : ℕ)
    → m.status ≡ watching
    → Forgets m.disconnect_times past last
    → Monotone last ticks
    → (run (signals ticks) m).status
      ≡ (if flaps past m.was_connected ticks then polling else watching)
unfolding run run_fallback
flap_run [] m past last st f mono = unfold flaps in st
flap_run ((now, p) ∷ ticks) m past last st f (le, mono) =
    let w = in_window now in
    let all = past ++ now ∷ [] in
    elim (Bool-cases (not p.connected && m.was_connected)) [
      | inr e ↦
          ap (λ m'. (run (signals ticks) m').status)
            (step_watching m now p st ∙ steady_lem m now p e)
          ∙ flap_run ticks (record m { was_connected = p.connected }) past now st
              (Forgets-later m.disconnect_times past last now le f) mono
          ∙ ap (λ b. if b then polling else watching)
              (sym (flaps_steady past m.was_connected now p ticks e))
      | inl e ↦
          ap (λ m'. (run (signals ticks) m').status)
            (step_watching m now p st
              ∙ drop_lem m now p (select w all) e (kept_lem m.disconnect_times past last now le f))
          ∙ run_if (leb ws_flap_threshold (length (select w all))) ticks
              (run_fallback (record m { disconnect_times = select w all }))
              (record m { disconnect_times = select w all; was_connected = false })
              (flaps all false ticks) refl
              (flap_run ticks (record m { disconnect_times = select w all; was_connected = false })
                all now st
                (λ later le'.
                  select-select w (in_window later) (λ t. in_window-weaken now later t le') all)
                mono)
          ∙ ap (λ b. if b then polling else watching)
              (sym (flaps_drop past m.was_connected now p ticks e))
    ]

-- Over any ticks in order of time, the manager has fallen back exactly when some drop was the third or
-- later within ten minutes, counting every drop so far: the drops that it forgot make no difference.
pub run-flaps :
    (ticks : List Tick)
    → Monotone 0 ticks
    → (run (signals ticks) new_manager).status
      ≡ (if flaps [] false ticks then polling else watching)
unfolding new_manager
run-flaps ticks mono = flap_run ticks new_manager [] 0 refl (λ now le. refl) mono
