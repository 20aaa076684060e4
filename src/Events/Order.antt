-- ===== src/Events/Order.antt =====
-- The identifiers and the bound of the log of internal/events/store.go.
use serverkit_agent.Base.{
  ◌+◌, ◌≤◌, ◌<◌, leb, if◌then◌else◌, Bool, true, false, List, [], ◌∷◌, ◌++◌, some, Text, length,
  drop, All, All-append, ◌≡◌, refl, Bool-cases, ◌&&◌, ◌∙◌, arith, inl, inr,
}
use serverkit_agent.Base.Retain.{keep_last, length-keep_last}
use serverkit_agent.Base.Int.{
  ℤ, pos, negsuc, pos_part, neg_part, ◌+ℤ◌, ◌≤ℤ◌, ◌<ℤ◌, wrap64, wrap64-suc, max_int64,
}
use serverkit_agent.Events.{Event, Store, make_room, append, save_locked, saved, clear}

-- Each event has a larger id than those before it.
abbrev pub Increasing : List Event → Type 0
Increasing [] = Unit
Increasing (ev ∷ evs) = All (λ later. ev.id <ℤ later.id) evs × Increasing evs

-- The log holds at most `cap` events, of increasing ids that end at `next_id` or before.
pub record IsLog (s : Store) : Type 0 where
  pub positive : 0 < s.cap
  pub bounded : length s.events ≤ s.cap
  pub counted : neg_part s.next_id ≡ 0
  pub below : All (λ ev. ev.id ≤ℤ s.next_id) s.events
  pub increasing : Increasing s.events

Increasing-append :
    (evs : List Event) (last : Event)
    → Increasing evs
    → All (λ ev. ev.id <ℤ last.id) evs
    → Increasing (evs ++ last ∷ [])
Increasing-append [] last h b = (tt, tt)
Increasing-append (ev ∷ evs) last (h, hs) (b, bs) = (
  All-append (λ later. ev.id <ℤ later.id) evs (last ∷ []) h (b, tt),
  Increasing-append evs last hs bs,
)

pub All-map {ℓ κ μ} :
    {A : Type ℓ} (P : A → Type κ) (Q : A → Type μ)
    → ((a : A) → P a → Q a)
    → (xs : List A) → All P xs
    → All Q xs
All-map P Q f [] h = tt
All-map P Q f (x ∷ xs) (h, hs) = (f x h, All-map P Q f xs hs)

All-drop_one {ℓ κ} : {A : Type ℓ} (P : A → Type κ) (xs : List A) → All P xs → All P (drop 1 xs)
All-drop_one P [] h = h
All-drop_one P (x ∷ xs) (_, h) = h

Increasing-drop_one : (evs : List Event) → Increasing evs → Increasing (drop 1 evs)
Increasing-drop_one [] h = h
Increasing-drop_one (ev ∷ evs) (_, h) = h

saved-IsLog : (b : Bool) (s : Store) → IsLog s → IsLog (saved b s)
saved-IsLog true s h = record {
  positive = h.positive;
  bounded = h.bounded;
  counted = h.counted;
  below = h.below;
  increasing = h.increasing;
}
saved-IsLog false s h = h

save_locked-IsLog : (disk : Bool) (s : Store) → IsLog s → IsLog (save_locked disk s)
unfolding save_locked
save_locked-IsLog disk s h = saved-IsLog (s.persist && disk) s h

pub saved-events : (b : Bool) (s : Store) → (saved b s).events ≡ s.events
saved-events true s = refl
saved-events false s = refl

make_room_lem :
    (s : Store)
    → IsLog s
    → make_room s ≡ some (if leb s.cap (length s.events) then drop 1 s.events else s.events)
unfolding make_room
make_room_lem s h = ground arith

saved-cap : (b : Bool) (s : Store) → (saved b s).cap ≡ s.cap
saved-cap true s = refl
saved-cap false s = refl

saved-file :
    (b : Bool) (s : Store) → (saved b s).file ≡ (if b then some (saved b s).events else s.file)
saved-file true s = refl
saved-file false s = refl

saved-next_id : (b : Bool) (s : Store) → (saved b s).next_id ≡ s.next_id
saved-next_id true s = refl
saved-next_id false s = refl

-- The event that `Append` makes.
abbrev pub made : ℤ → Text → Text → Text → Text → Store → Event
made now kind severity message metadata s = record {
  id = wrap64 (s.next_id +ℤ pos 1);
  time = now;
  kind = kind;
  severity = severity;
  message = message;
  metadata = metadata;
}

-- The store before the write to disk.
abbrev extended : Event → Store → Store
extended ev s = record s { next_id = ev.id; events = keep_last s.cap s.events ev }

next_id_lem :
    (n : ℤ) → neg_part n ≡ 0 → pos_part n < max_int64 → wrap64 (n +ℤ pos 1) ≡ pos (pos_part n + 1)
next_id_lem (pos n) h lt = wrap64-suc n lt
next_id_lem (negsuc n) h lt = absurd (omega arith)

kept-All :
    (P : Event → Type 0) (s : Store)
    → All P s.events
    → All P (if leb s.cap (length s.events) then drop 1 s.events else s.events)
kept-All P s h = elim (Bool-cases (leb s.cap (length s.events))) [
  | inl e ↦ rw e (All-drop_one P s.events h)
  | inr e ↦ rw e h
]

kept-Increasing :
    (s : Store)
    → Increasing s.events
    → Increasing (if leb s.cap (length s.events) then drop 1 s.events else s.events)
kept-Increasing s h = elim (Bool-cases (leb s.cap (length s.events))) [
  | inl e ↦ rw e (Increasing-drop_one s.events h)
  | inr e ↦ rw e h
]

earlier :
    (s : Store) (ev : Event)
    → IsLog s
    → ev.id ≡ pos (pos_part s.next_id + 1)
    → All (λ ev'. ev'.id <ℤ ev.id) s.events
earlier s ev h e =
    All-map (λ ev'. ev'.id ≤ℤ s.next_id) (λ ev'. ev'.id <ℤ ev.id) (λ a le. rw e (omega arith))
      s.events h.below

abbrev kept : Store → List Event
kept s = if leb s.cap (length s.events) then drop 1 s.events else s.events

extended-IsLog :
    (s : Store) (ev : Event)
    → IsLog s
    → ev.id ≡ pos (pos_part s.next_id + 1)
    → IsLog (extended ev s)
extended-IsLog s ev h e = record {
  positive = h.positive;
  bounded = length-keep_last s.cap s.events ev h.positive h.bounded;
  counted = rw e;
  below =
      All-append (λ ev'. ev'.id ≤ℤ ev.id) (kept s) (ev ∷ [])
        (All-map (λ ev'. ev'.id <ℤ ev.id) (λ ev'. ev'.id ≤ℤ ev.id) (λ a lt. omega arith) (kept s)
          (kept-All (λ ev'. ev'.id <ℤ ev.id) s (earlier s ev h e)))
        (omega arith, tt);
  increasing =
      Increasing-append (kept s) ev (kept-Increasing s h.increasing)
        (kept-All (λ ev'. ev'.id <ℤ ev.id) s (earlier s ev h e));
}

-- A log below the largest id takes an event without panic: it stays a log, the new event has the next
-- id, which is larger than every id in the buffer, only the oldest event is dropped, and only from a
-- full buffer. The file is the new buffer if there is a path and the write succeeds, else as before.
pub append-IsLog :
    (disk : Bool) (now : ℤ) (kind severity message metadata : Text) (s : Store)
    → IsLog s
    → pos_part s.next_id < max_int64
    → (s' : Store) × (append disk now kind severity message metadata s
        ≡ some (s', made now kind severity message metadata s))
      × IsLog s'
      × (s'.next_id ≡ pos (pos_part s.next_id + 1))
      × All (λ ev. ev.id <ℤ s'.next_id) s.events
      × (s'.events ≡ keep_last s.cap s.events (made now kind severity message metadata s))
      × (s'.cap ≡ s.cap)
      × (s'.file ≡ (if s.persist && disk then some s'.events else s.file))
unfolding append
append-IsLog disk now kind severity message metadata s h lt =
    let ev = made now kind severity message metadata s in
    let e : ev.id ≡ pos (pos_part s.next_id + 1) = next_id_lem s.next_id h.counted lt in
    (
      save_locked disk (extended ev s),
      rw (make_room_lem s h, append),
      save_locked-IsLog disk (extended ev s) (extended-IsLog s ev h e),
      saved-next_id (s.persist && disk) (extended ev s) ∙ e,
      rw (saved-next_id (s.persist && disk) (extended ev s)) (earlier s ev h e),
      saved-events (s.persist && disk) (extended ev s),
      saved-cap (s.persist && disk) (extended ev s),
      saved-file (s.persist && disk) (extended ev s),
    )

-- A log stays one when it is cleared: it is empty, and the ids go on from where they were.
pub clear-IsLog :
    (disk : Bool) (s : Store)
    → IsLog s
    → IsLog (clear disk s) × ((clear disk s).next_id ≡ s.next_id) × ((clear disk s).events ≡ [])
unfolding clear
clear-IsLog disk s h = (
  save_locked-IsLog disk (record s { events = [] })
      (record {
        positive = h.positive;
        bounded = omega arith;
        counted = h.counted;
        below = tt;
        increasing = tt;
      }),
  saved-next_id (s.persist && disk) (record s { events = [] }),
  saved-events (s.persist && disk) (record s { events = [] }),
)
