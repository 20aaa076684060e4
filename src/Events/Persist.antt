-- ===== src/Events/Persist.antt =====
-- The persisted copy of internal/events/store.go: what a restart finds again.
use serverkit_agent.Base.{
  ℕ, zero, suc, ◌-◌, ◌≤◌, ◌<◌, ltb, if◌then◌else◌, Bool, true, false, Bool-cases, List, [], ◌∷◌,
  Option, none, some, Text, length, drop, All, length-drop, ◌≡◌, refl, arith, inl, inr, ltb→lt,
}
use serverkit_agent.Base.Int.{ℤ, pos, pos_part, neg_part, ◌≤ℤ◌, ltb_ℤ, parts_apart, max_int64}
use serverkit_agent.Events.{Event, Store, keep_newest, loaded, append, new_store, load, highest_id}
use serverkit_agent.Events.Order.{IsLog, Increasing, append-IsLog, made}

larger_lem :
    (n m : ℤ)
    → neg_part n ≡ 0
    → (n ≤ℤ (if ltb_ℤ n m then m else n))
      × (m ≤ℤ (if ltb_ℤ n m then m else n))
      × (neg_part (if ltb_ℤ n m then m else n) ≡ 0)
larger_lem n m h = ground (arith, parts_apart m)

highest_id_lem :
    (evs : List Event) (n : ℤ)
    → neg_part n ≡ 0
    → (n ≤ℤ highest_id n evs)
      × All (λ ev. ev.id ≤ℤ highest_id n evs) evs
      × (neg_part (highest_id n evs) ≡ 0)
unfolding highest_id
highest_id_lem [] n h = (omega arith, tt, h)
highest_id_lem (ev ∷ evs) n h =
    let next = if ltb_ℤ n ev.id then ev.id else n in
    let (up, over, nat) = larger_lem n ev.id h in
    let (le, all, nat') = highest_id_lem evs next nat in
    (omega (arith, le, up), (omega (arith, le, over), all), nat')

Increasing-drop : (n : ℕ) (evs : List Event) → Increasing evs → Increasing (drop n evs)
Increasing-drop zero evs h = h
Increasing-drop (suc n) [] h = h
Increasing-drop (suc n) (ev ∷ evs) (_, h) = Increasing-drop n evs h

keep_newest_lem :
    (cap : ℕ) (evs : List Event)
    → Increasing evs
    → (length (keep_newest cap evs) ≤ cap) × Increasing (keep_newest cap evs)
keep_newest_lem cap evs h = elim (Bool-cases (ltb cap (length evs))) [
  | inl e ↦ rw e (
    omega (arith, ltb→lt cap (length evs) e, length-drop (length evs - cap) evs),
    Increasing-drop (length evs - cap) evs h,
  )
  | inr e ↦ rw e (ground arith, h)
]

empty_store : ℕ → Bool → Option (List Event) → Store
empty_store capacity persist file = record {
  events = [];
  cap = capacity;
  next_id = pos 0;
  persist = persist;
  file = file;
}

loaded-IsLog :
    (capacity : ℕ) (persist : Bool) (file evs : List Event)
    → 0 < capacity
    → Increasing evs
    → IsLog (loaded (empty_store capacity persist (some file)) (some evs))
unfolding empty_store
loaded-IsLog capacity persist file evs h up =
    let (short, sorted) = keep_newest_lem capacity evs up in
    let (_, below, nat) = highest_id_lem (keep_newest capacity evs) (pos 0) refl in
    record { positive = h; bounded = short; counted = nat; below = below; increasing = sorted }

empty_store-IsLog :
    (capacity : ℕ) (persist : Bool) (file : Option (List Event))
    → 0 < capacity
    → IsLog (empty_store capacity persist file)
unfolding empty_store
empty_store-IsLog capacity persist file h = record {
  positive = h;
  bounded = omega arith;
  counted = refl;
  below = tt;
  increasing = tt;
}

-- A store over a persisted file of increasing ids, whatever their number, is a log. So is a store with
-- no path, and one whose file is missing or malformed.
pub new_store-IsLog :
    (capacity : ℕ) (persist : Bool) (file : List Event)
    → 0 < capacity
    → Increasing file
    → IsLog (new_store capacity persist (some file)) × IsLog (new_store capacity persist none)
unfolding new_store load empty_store
new_store-IsLog capacity true file h up =
    (loaded-IsLog capacity true file file h up, empty_store-IsLog capacity true none h)
new_store-IsLog capacity false file h up =
    (empty_store-IsLog capacity false (some file) h, empty_store-IsLog capacity false none h)

reload_lem :
    (cap : ℕ) (evs : List Event) → length evs ≤ cap → (new_store cap true (some evs)).events ≡ evs
unfolding new_store load
reload_lem cap evs h = ground arith

-- What the last write left is what a restart loads: after an append to a log with a path, if the
-- write succeeds, a new store of the same capacity over that file holds the same events, and is a log.
pub reload-append :
    (now : ℤ) (kind severity message metadata : Text) (s : Store)
    → IsLog s
    → pos_part s.next_id < max_int64
    → s.persist ≡ true
    → (s' : Store) × (append true now kind severity message metadata s
        ≡ some (s', made now kind severity message metadata s))
      × ((new_store s.cap true s'.file).events ≡ s'.events)
      × IsLog (new_store s.cap true s'.file)
reload-append now kind severity message metadata s h lt p =
    let (s', run, log, _, _, _, same_cap, file) =
      append-IsLog true now kind severity message metadata s h lt in
    let written : s'.file ≡ some s'.events = ground arith in
    (
      s',
      run,
      rw written (reload_lem s.cap s'.events (omega (arith, log.bounded))),
      rw written (new_store-IsLog s.cap true s'.events h.positive log.increasing).0,
    )
