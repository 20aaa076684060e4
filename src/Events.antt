-- ===== src/Events.antt =====
-- internal/events/store.go: the bounded activity log with its persisted copy.
pub mod Order
pub mod Persist
use serverkit_agent.Base.{
  ℕ, zero, suc, ◌+◌, ◌-◌, ◌≤◌, ◌<◌, leb, ltb, if◌then◌else◌, Bool, true, false, ◌&&◌, List, [], ◌∷◌,
  ◌++◌, Option, none, some, Text, length, drop, select,
}
use serverkit_agent.Base.Int.{ℤ, pos, ◌+ℤ◌, ltb_ℤ, wrap64}

-- `metadata` is the JSON of the map.
pub record Event : Type 0 where
  pub id : ℤ
  pub time : ℤ
  pub kind : Text
  pub severity : Text
  pub message : Text
  pub metadata : Text

-- `persist` says whether there is a file path. `file` is what the file decodes to, `none` when it is
-- missing or malformed.
pub record Store : Type 0 where
  pub events : List Event
  pub cap : ℕ
  pub next_id : ℤ
  pub persist : Bool
  pub file : Option (List Event)

-- The loop over the loaded events.
pub highest_id : ℤ → List Event → ℤ
highest_id n [] = n
highest_id n (ev ∷ evs) = highest_id (if ltb_ℤ n ev.id then ev.id else n) evs

abbrev keep_newest : ℕ → List Event → List Event
keep_newest cap evs = if ltb cap (length evs) then drop (length evs - cap) evs else evs

abbrev loaded : Store → Option (List Event) → Store
loaded s none = s
loaded s (some evs) =
    let kept = keep_newest s.cap evs in
    record s { events = kept; next_id = highest_id s.next_id kept }

unfoldable pub load : Store → Store
unfolding highest_id
load s = if s.persist then loaded s s.file else s

unfoldable pub new_store : ℕ → Bool → Option (List Event) → Store
unfolding load
new_store capacity persist file =
    load (record { events = []; cap = capacity; next_id = pos 0; persist = persist; file = file })

abbrev saved : Bool → Store → Store
saved true s = record s { file = some s.events }
saved false s = s

-- `disk` says whether every step of the write succeeds; if one fails the file stays as it was.
unfoldable pub save_locked : Bool → Store → Store
save_locked disk s = saved (s.persist && disk) s

-- The shift by one in place. `s.events[1:]` panics on an empty slice, which is `none`.
abbrev shift : List Event → Option (List Event)
shift [] = none
shift (ev ∷ evs) = some evs

make_room : Store → Option (List Event)
make_room s = if leb s.cap (length s.events) then shift s.events else some s.events

-- `Append`, with the time that it reads; `none` is a panic.
unfoldable pub append : Bool → ℤ → Text → Text → Text → Text → Store → Option (Store × Event)
unfolding make_room save_locked
append disk now kind severity message metadata s =
    let id = wrap64 (s.next_id +ℤ pos 1) in
    let ev : Event = record {
      id = id;
      time = now;
      kind = kind;
      severity = severity;
      message = message;
      metadata = metadata;
    } in
    elim (make_room s) [
      | none ↦ none
      | some evs ↦ some (save_locked disk (record s { next_id = id; events = evs ++ ev ∷ [] }), ev)
    ]

unfoldable pub snapshot : ℤ → Store → List Event
snapshot since s = select (λ ev. ltb_ℤ since ev.time) s.events

unfoldable pub clear : Bool → Store → Store
unfolding save_locked
clear disk s = save_locked disk (record s { events = [] })
