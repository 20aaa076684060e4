-- ===== src/Jobs/Replay.antt =====
-- The ring of internal/jobs/jobs.go against the history of pushed events.
use native.Mathlib.Decide.{dec_lt}
use native.Mathlib.Nat.{mod_self}
use serverkit_agent.Base.{
  ℕ, zero, suc, ◌+◌, ◌-◌, ◌%◌, ◌≤◌, ◌<◌, ◌==◌, Bool, true, false, ◌||◌, List, [], ◌∷◌, ◌++◌, Option,
  Text, text_eq, length, take, drop, set, ◌≡◌, refl, sym, ap, ◌∙◌, arith, append-nil, append_assoc,
  Bool-cases, inl, inr, ◌⊎◌, length-set, length-replicate, length-append, length-drop,
}
use serverkit_agent.Base.Retain.{
  retain, take-all, take-set, drop-set, drop_one-drop, drop-append, drop-all, retain-short,
  retain-full,
}
use serverkit_agent.Base.Int.{ℤ, pos, negsuc}
use serverkit_agent.Jobs.{
  Event, zero_event, Job, Streamer, close_done, record_event, push, replay, has_terminated, new_job,
  positive_or, phase_done,
}

-- The ring is in order, and shows the last `cap` events of the history.
pub record Shows (j : Job) (history : List Event) : Type 0 where
  pub sized : length j.events ≡ j.cap
  pub in_range : j.head < j.cap
  pub short : j.full ≡ false → j.head ≡ length history
  pub long : j.full ≡ true → j.cap ≤ length history
  pub shown : replay j ≡ retain j.cap history

-- The slot after `head`, on both branches of the `%`.
next_head :
    (h c : ℕ) → h < c → (((h + 1) % c ≡ suc h) × (suc h < c)) ⊎ (((h + 1) % c ≡ 0) × (suc h ≡ c))
next_head h c lt = elim (dec_lt (suc h) c) [
  | yes p ↦ inl (grind arith, p)
  | no p ↦ inr (grind (arith, mod_self), omega arith)
]

-- Writes into a ring of which `h` is the next slot.
module _ {ℓ} {A : Type ℓ} (xs : List A) (h : ℕ) (v : A) (lt : h < length xs) where
  write_last : suc h ≡ length xs → set xs h v ≡ take h xs ++ v ∷ []
  write_last e =
      sym (take-all (suc h) (set xs h v) (omega (arith, length-set xs h v))) ∙ take-set xs h v lt

  advance : drop 1 (drop h xs ++ take h xs) ≡ drop (suc h) xs ++ take h xs
  advance =
      drop-append 1 (drop h xs) (take h xs) (omega (arith, length-drop h xs))
      ∙ ap (λ r. r ++ take h xs) (drop_one-drop h xs)

  write_inner :
      drop (suc h) (set xs h v) ++ take (suc h) (set xs h v)
      ≡ drop 1 (drop h xs ++ take h xs) ++ v ∷ []
  write_inner =
      rw (drop-set xs h v, take-set xs h v lt, advance)
        (sym (append_assoc (drop (suc h) xs) (take h xs) (v ∷ [])))

  write_wrap : suc h ≡ length xs → set xs h v ≡ drop 1 (drop h xs ++ take h xs) ++ v ∷ []
  write_wrap e = rw (advance, drop-all (suc h) xs (omega arith)) (write_last e)

suc_nonzero : (h : ℕ) → (suc h == 0) ≡ false
suc_nonzero h = ground arith

module _ (j : Job) (history : List Event) (ev : Event) (s : Shows j history) where
  open s use {sized, in_range, short, long, shown}

  -- While the ring is not full the events stand from the first slot on.
  record_short : j.full ≡ false → replay (record_event j ev) ≡ replay j ++ ev ∷ []
  unfolding record_event replay
  record_short f = elim (next_head j.head j.cap in_range) [
    | inl (e, _) ↦ rw (e, suc_nonzero, f) (take-set j.events j.head ev (omega arith))
    | inr (e, last) ↦
        rw (e, f) (rw append-nil (write_last j.events j.head ev (omega arith) (omega arith)))
  ]

  record_long : j.full ≡ true → replay (record_event j ev) ≡ drop 1 (replay j) ++ ev ∷ []
  unfolding record_event replay
  record_long f = elim (next_head j.head j.cap in_range) [
    | inl (e, _) ↦ rw (e, suc_nonzero, f) (write_inner j.events j.head ev (omega arith))
    | inr (e, last) ↦
        rw (e, f) (rw append-nil (write_wrap j.events j.head ev (omega arith) (omega arith)))
  ]

  -- What is shown next, by whether the history fills the ring already.
  record_shown : replay (record_event j ev) ≡ retain j.cap (history ++ ev ∷ [])
  record_shown = elim (Bool-cases j.full) [
    | inl f ↦ rw (record_long f, shown) (sym (retain-full j.cap history ev (omega arith) (long f)))
    | inr f ↦
        rw (record_short f, shown) (sym (retain-short j.cap history ev (omega (arith, short f))))
  ]

-- A push keeps the ring in order, and adds its event to the history.
pub record-Shows :
    (j : Job) (history : List Event) (ev : Event)
    → Shows j history
    → Shows (record_event j ev) (history ++ ev ∷ [])
unfolding record_event
record-Shows j history ev s = record {
  sized = length-set j.events j.head ev ∙ s.sized;
  in_range = ground (arith, next_head j.head j.cap s.in_range);
  short = ground (arith, next_head j.head j.cap s.in_range, length-append history (ev ∷ []));
  long = ground (arith, next_head j.head j.cap s.in_range, length-append history (ev ∷ []));
  shown = record_shown j history ev s;
}

pub positive_or_pos : (d : ℕ) (n : ℤ) → 0 < d → 0 < positive_or d n
positive_or_pos d (pos zero) h = h
positive_or_pos d (pos (suc n)) h = omega arith
positive_or_pos d (negsuc n) h = h

pub new_job-Shows : (id : Text) (buffer_cap : ℤ) → Shows (new_job id buffer_cap) []
unfolding new_job replay
new_job-Shows id buffer_cap = record {
  sized = length-replicate (positive_or 200 buffer_cap) zero_event;
  in_range = positive_or_pos 200 buffer_cap (omega arith);
  short = λ _. refl;
  long = λ e. cc;
  shown = sym (drop-all {A = Event} (0 - positive_or 200 buffer_cap) [] (omega arith));
}

close_done-Shows :
    (b : Bool) (j : Job) (history : List Event) → Shows j history → Shows (close_done b j) history
unfolding replay
close_done-Shows true j history h = record {
  sized = h.sized;
  in_range = h.in_range;
  short = h.short;
  long = h.long;
  shown = h.shown;
}
close_done-Shows false j history h = h

push-Shows :
    (s : Option Streamer) (j : Job) (history : List Event) (ev : Event)
    → Shows j history
    → Shows (push s j ev).0 (history ++ ev ∷ [])
unfolding push
push-Shows s j history ev h =
    close_done-Shows (text_eq ev.phase phase_done) (record_event j ev) (history ++ ev ∷ [])
      (record-Shows j history ev h)

-- All the pushes to one job, with one streamer.
abbrev pub push_all : Option Streamer → Job → List Event → Job
push_all s j [] = j
push_all s j (ev ∷ evs) = push_all s (push s j ev).0 evs

pub push_all-Shows :
    (s : Option Streamer) (evs : List Event) (j : Job) (history : List Event)
    → Shows j history
    → Shows (push_all s j evs) (history ++ evs)
push_all-Shows s [] j history h = rw append-nil h
push_all-Shows s (ev ∷ evs) j history h =
    rw (append_assoc history (ev ∷ []) evs) at
      (push_all-Shows s evs (push s j ev).0 (history ++ ev ∷ []) (push-Shows s j history ev h))

push-cap : (s : Option Streamer) (j : Job) (ev : Event) → (push s j ev).0.cap ≡ j.cap
unfolding push record_event
push-cap s j ev = ground arith

push_all-cap : (s : Option Streamer) (evs : List Event) (j : Job) → (push_all s j evs).cap ≡ j.cap
push_all-cap s [] j = refl
push_all-cap s (ev ∷ evs) j = push_all-cap s evs (push s j ev).0 ∙ push-cap s j ev

-- After any pushes to a new job, `Replay` gives the last `cap` events in the order of the pushes,
-- where `cap` is the requested buffer size, or 200 if that is not positive. The transport's errors
-- change nothing.
pub replay-push_all :
    (s : Option Streamer) (id : Text) (buffer_cap : ℤ) (evs : List Event)
    → replay (push_all s (new_job id buffer_cap) evs) ≡ retain (positive_or 200 buffer_cap) evs
unfolding new_job
replay-push_all s id buffer_cap evs =
    (push_all-Shows s evs (new_job id buffer_cap) [] (new_job-Shows id buffer_cap)).shown
    ∙ ap (λ n. retain n evs) (push_all-cap s evs (new_job id buffer_cap))

abbrev pub any_done : List Event → Bool
any_done [] = false
any_done (ev ∷ evs) = text_eq ev.phase phase_done || any_done evs

push-done :
    (s : Option Streamer) (j : Job) (ev : Event)
    → (push s j ev).0.done ≡ (j.done || text_eq ev.phase phase_done)
unfolding push record_event
push-done s j ev = ground arith

push_all-done :
    (s : Option Streamer) (evs : List Event) (j : Job)
    → (push_all s j evs).done ≡ (j.done || any_done evs)
push_all-done s [] j = ground arith
push_all-done s (ev ∷ evs) j = ground (arith, push_all-done s evs (push s j ev).0, push-done s j ev)

-- A new job has terminated exactly when one of its pushes had the phase "done".
pub has_terminated-push_all :
    (s : Option Streamer) (id : Text) (buffer_cap : ℤ) (evs : List Event)
    → has_terminated (push_all s (new_job id buffer_cap) evs) ≡ any_done evs
unfolding has_terminated new_job
has_terminated-push_all s id buffer_cap evs = push_all-done s evs (new_job id buffer_cap)
