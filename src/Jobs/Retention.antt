-- ===== src/Jobs/Retention.antt =====
-- The registry of internal/jobs/jobs.go against the sequence of jobs that it created.
use mathlib.Core.Path.{subst}
use native.Mathlib.Decide.{dec_lt}
use serverkit_agent.Base.{
  ℕ, zero, suc, ◌-◌, ◌≤◌, ◌<◌, if◌then◌else◌, true, false, List, [], ◌∷◌, ◌++◌, none, some, Text,
  codes, text_eq, Dict, keys, Distinct, lookup, insert, delete, length, take, drop, ◌≡◌, refl, sym,
  ap, ◌∙◌, arith, text_eq_sound, length-append, mem_text, mem-append, append_assoc, append-nil, ◌≢◌,
  lookup-insert, lookup-delete, text_eq_iff, length-drop, take-append-drop,
}
use serverkit_agent.Base.Retain.{retain, retain-short, retain-full, length-retain, drop-all}
use serverkit_agent.Base.Int.{ℤ}
use serverkit_agent.Jobs.{
  Job, Registry, positive_or, new_registry, new_job, trim, new, get, lookup_by_channel, job_channel,
}
use serverkit_agent.Jobs.Replay.{positive_or_pos}

module _ {ℓ} {V : Type ℓ} where
  keys-append : (xs ys : Dict V) → keys (xs ++ ys) ≡ keys xs ++ keys ys
  keys-append [] ys = refl
  keys-append ((k, v) ∷ xs) ys = ap (λ r. k ∷ r) (keys-append xs ys)

  length-keys : (xs : Dict V) → length (keys xs) ≡ length xs
  length-keys [] = refl
  length-keys ((k, v) ∷ xs) = ap suc (length-keys xs)

  lookup-absent : (k : Text) (xs : Dict V) → mem_text k (keys xs) ≡ false → lookup k xs ≡ none
  unfolding lookup mem_text
  lookup-absent k [] h = refl
  lookup-absent k ((i, v) ∷ xs) h =
      ground (arith, lookup-absent k xs, text_eq_iff i k, text_eq_iff k i)

  lookup-append_fresh :
      (k id : Text) (v : V) (xs : Dict V)
      → mem_text id (keys xs) ≡ false
      → lookup k (xs ++ (id, v) ∷ []) ≡ (if text_eq id k then some v else lookup k xs)
  unfolding lookup mem_text
  lookup-append_fresh k id v [] h = refl
  lookup-append_fresh k id v ((i, w) ∷ xs) h =
      ground
        (arith, lookup-append_fresh k id v xs, text_eq_iff i k, text_eq_iff id k, text_eq_iff id i)

module _ {ℓ} {V : Type ℓ} where
  mem_keys-drop :
      (n : ℕ) (k : Text) (xs : Dict V)
      → mem_text k (keys xs) ≡ false
      → mem_text k (keys (drop n xs)) ≡ false
  unfolding mem_text
  mem_keys-drop zero k xs h = h
  mem_keys-drop (suc n) k [] h = refl
  mem_keys-drop (suc n) k ((i, v) ∷ xs) h = mem_keys-drop n k xs (ground arith)

  Distinct-drop : (n : ℕ) (xs : Dict V) → Distinct (keys xs) → Distinct (keys (drop n xs))
  Distinct-drop zero xs h = h
  Distinct-drop (suc n) [] h = tt
  Distinct-drop (suc n) ((i, v) ∷ xs) (_, h) = Distinct-drop n xs h

trim-fits :
    (m : ℕ) (order : List Text) (jobs : Dict Job)
    → length order ≤ m
    → trim m order jobs ≡ (order, jobs)
unfolding trim
trim-fits m [] jobs h = refl
trim-fits m (o ∷ order) jobs h = ground arith

trim-over :
    (m : ℕ) (o : Text) (order : List Text) (jobs : Dict Job)
    → length order ≡ m
    → trim m (o ∷ order) jobs ≡ (order, delete o jobs)
unfolding trim
trim-over m o order jobs h = ground (arith, trim-fits m order (delete o jobs) (omega arith))

-- The registry holds the last `max_jobs` of the jobs created, and queues their ids in that order.
pub record IsRecent (r : Registry) (created : Dict Job) : Type 0 where
  pub room : 0 < r.max_jobs
  pub queued : r.order ≡ keys (retain r.max_jobs created)
  pub found : (k : Text) → lookup k r.jobs ≡ lookup k (retain r.max_jobs created)

-- What the loop leaves, as a queue and a map, agrees with a list of jobs.
abbrev Agrees : List Text × Dict Job → Dict Job → Type 0
Agrees held recent = (held.0 ≡ keys recent) × ((k : Text) → lookup k held.1 ≡ lookup k recent)

module _ (m : ℕ) (id : Text) (j : Job) (jobs : Dict Job) where
  -- There is room for one more.
  add_short :
      (recent : Dict Job)
      → ((k : Text) → lookup k jobs ≡ lookup k recent)
      → mem_text id (keys recent) ≡ false
      → length recent < m
      → Agrees (trim m (keys recent ++ id ∷ []) (insert id j jobs)) (recent ++ (id, j) ∷ [])
  add_short recent found fresh lt =
      let fits : length (keys recent ++ id ∷ []) ≤ m =
        omega (arith, length-append (keys recent) (id ∷ []), length-keys recent) in
      rw (trim-fits m (keys recent ++ id ∷ []) (insert id j jobs) fits) (
        sym (keys-append recent ((id, j) ∷ [])),
        λ k.
            lookup-insert id k j jobs
            ∙ ap (λ o. if text_eq id k then some j else o) (found k)
            ∙ sym (lookup-append_fresh k id j recent fresh),
      )

  -- The oldest job makes room.
  add_full :
      (recent : Dict Job)
      → ((k : Text) → lookup k jobs ≡ lookup k recent)
      → mem_text id (keys recent) ≡ false
      → Distinct (keys recent)
      → length recent ≡ m
      → 0 < m
      → Agrees (trim m (keys recent ++ id ∷ []) (insert id j jobs)) (drop 1 recent ++ (id, j) ∷ [])
  unfolding mem_text lookup
  add_full [] found fresh distinct len pos_m = absurd (omega arith)
  add_full ((i, w) ∷ recent) found fresh (once, _) len pos_m =
      let over : length (keys recent ++ id ∷ []) ≡ m =
        omega (arith, length-append (keys recent) (id ∷ []), length-keys recent) in
      rw (trim-over m i (keys recent ++ id ∷ []) (insert id j jobs) over) (
        sym (keys-append recent ((id, j) ∷ [])),
        λ k.
            let gone : text_eq i k ≡ true → lookup k recent ≡ none = λ e.
              lookup-absent k recent
                (subst (λ t. mem_text t (keys recent) ≡ false) (text_eq_sound i k e) once) in
            ground (
              arith,
              gone,
              lookup-delete i k (insert id j jobs),
              lookup-insert id k j jobs,
              found k,
              lookup-append_fresh k id j recent (ground arith),
              text_eq_iff i k,
              text_eq_iff id k,
              text_eq_iff id i,
            ),
      )

-- A job under a fresh id keeps the registry recent.
new-IsRecent :
    (r : Registry) (created : Dict Job) (id : Text) (buffer_cap : ℤ)
    → Distinct (keys created)
    → mem_text id (keys created) ≡ false
    → IsRecent r created
    → IsRecent (new id buffer_cap r).0 (created ++ (id, new_job id buffer_cap) ∷ [])
unfolding new
new-IsRecent r created id buffer_cap distinct fresh s =
    let m = r.max_jobs in
    let j = new_job id buffer_cap in
    let recent = retain m created in
    let absent : mem_text id (keys recent) ≡ false =
      mem_keys-drop (length created - m) id created fresh in
    let held : Agrees (trim m (r.order ++ id ∷ []) (insert id j r.jobs))
        (retain m (created ++ (id, j) ∷ [])) =
      rw s.queued (elim (dec_lt (length created) m) [
        | yes lt ↦ rw (retain-short m created (id, j) lt) (
            add_short m id j r.jobs recent s.found absent
              (omega (arith, length-drop (length created - m) created)))
        | no ge ↦ rw (retain-full m created (id, j) s.room (omega arith)) (
            add_full m id j r.jobs recent s.found absent
              (Distinct-drop (length created - m) created distinct)
              (length-retain m created (omega arith)) s.room)
      ]) in
    record { room = s.room; queued = held.0; found = held.1 }

Distinct-append :
    (xs : List Text) (y : Text) (ys : List Text)
    → Distinct (xs ++ y ∷ ys)
    → Distinct xs × (mem_text y xs ≡ false)
unfolding mem_text
Distinct-append [] y ys h = (tt, refl)
Distinct-append (x ∷ xs) y ys (once, h) =
    let (d, m) = Distinct-append xs y ys h in
    (
      (ground (arith, mem-append x xs (y ∷ ys)), d),
      ground (arith, m, mem-append x xs (y ∷ ys), text_eq_iff x y, text_eq_iff y x),
    )

-- `New` for each id and buffer size in turn.
abbrev pub new_all : List (Text × ℤ) → Registry → Registry
new_all [] r = r
new_all ((id, buffer_cap) ∷ reqs) r = new_all reqs (new id buffer_cap r).0

abbrev pub created : List (Text × ℤ) → Dict Job
created [] = []
created ((id, buffer_cap) ∷ reqs) = (id, new_job id buffer_cap) ∷ created reqs

new_all-IsRecent :
    (reqs : List (Text × ℤ)) (r : Registry) (before : Dict Job)
    → Distinct (keys (before ++ created reqs))
    → IsRecent r before
    → IsRecent (new_all reqs r) (before ++ created reqs)
new_all-IsRecent [] r before d s = rw append-nil s
new_all-IsRecent ((id, buffer_cap) ∷ reqs) r before d s =
    let e : Text × Job = (id, new_job id buffer_cap) in
    let regroup : (before ++ e ∷ []) ++ created reqs ≡ before ++ e ∷ created reqs =
      append_assoc before (e ∷ []) (created reqs) in
    let (db, fresh) =
      Distinct-append (keys before) id (keys (created reqs)) (rw keys-append at d) in
    rw regroup at (
      new_all-IsRecent reqs (new id buffer_cap r).0 (before ++ e ∷ []) (rw regroup d)
        (new-IsRecent r before id buffer_cap db fresh s))

new-max_jobs : (id : Text) (n : ℤ) (r : Registry) → (new id n r).0.max_jobs ≡ r.max_jobs
unfolding new
new-max_jobs id n r = refl

new_all-max_jobs : (reqs : List (Text × ℤ)) (r : Registry) → (new_all reqs r).max_jobs ≡ r.max_jobs
new_all-max_jobs [] r = refl
new_all-max_jobs ((id, n) ∷ reqs) r = new_all-max_jobs reqs (new id n r).0 ∙ new-max_jobs id n r

nothing : (m : ℕ) → retain {A = Text × Job} m [] ≡ []
nothing m = drop-all (0 - m) [] (omega arith)

new_registry-IsRecent : (max_jobs : ℤ) → IsRecent (new_registry max_jobs) []
unfolding new_registry
new_registry-IsRecent max_jobs = record {
  room = positive_or_pos 64 max_jobs (omega arith);
  queued = ap (λ (xs : Dict Job). keys xs) (sym (nothing (positive_or 64 max_jobs)));
  found = λ k. ap (lookup k) (sym (nothing (positive_or 64 max_jobs)));
}

-- A registry whose jobs have different ids holds the last `max_jobs` of them (64 if the argument is
-- not positive), each with its empty ring, and no other job; its queue has their ids in order of creation.
pub get-new_all :
    (max_jobs : ℤ) (reqs : List (Text × ℤ))
    → Distinct (keys (created reqs))
    → ((id : Text)
        → get id (new_all reqs (new_registry max_jobs))
          ≡ lookup id (retain (positive_or 64 max_jobs) (created reqs)))
      × ((new_all reqs (new_registry max_jobs)).order
          ≡ keys (retain (positive_or 64 max_jobs) (created reqs)))
unfolding get new_registry
get-new_all max_jobs reqs d =
    let s = new_all-IsRecent reqs (new_registry max_jobs) [] d (new_registry-IsRecent max_jobs) in
    let same : (new_all reqs (new_registry max_jobs)).max_jobs ≡ positive_or 64 max_jobs =
      new_all-max_jobs reqs (new_registry max_jobs) in
    (
      λ id. s.found id ∙ ap (λ m. lookup id (retain m (created reqs))) same,
      s.queued ∙ ap (λ m. keys (retain m (created reqs))) same,
    )

prefix_split :
    (channel : Text)
    → text_eq (take 4 channel) (codes "job:") ≡ true
    → channel ≡ job_channel (drop 4 channel)
prefix_split channel h =
    sym (take-append-drop 4 channel)
    ∙ ap (λ p. p ++ drop 4 channel) (text_eq_sound (take 4 channel) (codes "job:") h)

-- The channel name of a job with a non-empty id finds what its id finds.
pub lookup_by_channel-job_channel :
    (r : Registry) (id : Text) → id ≢ [] → lookup_by_channel (job_channel id) r ≡ get id r
unfolding lookup_by_channel text_eq
lookup_by_channel-job_channel r [] h = absurd (h refl)
lookup_by_channel-job_channel r (c ∷ id) h = ground arith

-- A channel that finds a job is the channel name of the id that finds it: no other text does.
pub lookup_by_channel_sound :
    (r : Registry) (channel : Text) (j : Job)
    → lookup_by_channel channel r ≡ some j
    → (channel ≡ job_channel (drop 4 channel)) × (get (drop 4 channel) r ≡ some j)
unfolding lookup_by_channel
lookup_by_channel_sound r channel j h = (prefix_split channel (ground arith), ground arith)
