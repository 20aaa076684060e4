-- ===== src/Agent/Sampler.antt =====
-- internal/agent/sampler.go: the short history of metric samples.
use serverkit_agent.Base.{
  ℕ, ◌<◌, leb, Bool, true, false, List, [], ◌∷◌, ◌++◌, Option, none, some, length, append_assoc,
  append-nil, ◌≡◌, refl, sym, ap, ◌∙◌, arith,
}
use serverkit_agent.Base.Retain.{retain, retain-all, keep_last, keep_last-retain}

-- metricSampler; a sample holds floats, so its type is a parameter.
pub record MetricSampler {ℓ} (A : Type ℓ) : Type ℓ where
  pub samples : List A
  pub cap : ℕ

module _ {ℓ} {A : Type ℓ} where
  unfoldable pub new_metric_sampler : ℕ → MetricSampler A
  new_metric_sampler capacity = record { samples = []; cap = capacity }

  -- The shift by one in place; `s.samples[1:]` of an empty slice is a panic, which is `none`.
  abbrev make_room : Bool → List A → Option (List A)
  make_room false xs = some xs
  make_room true [] = none
  make_room true (x ∷ xs) = some xs

  abbrev added : ℕ → A → Option (List A) → Option (MetricSampler A)
  added cap sample none = none
  added cap sample (some xs) = some (record { samples = xs ++ sample ∷ []; cap = cap })

  -- push.
  unfoldable pub push_sample : A → MetricSampler A → Option (MetricSampler A)
  push_sample sample s = added s.cap sample (make_room (leb s.cap (length s.samples)) s.samples)

  -- The samples of a run, in order.
  abbrev pub push_samples : List A → Option (MetricSampler A) → Option (MetricSampler A)
  push_samples [] s = s
  push_samples (x ∷ xs) none = none
  push_samples (x ∷ xs) (some s) = push_samples xs (push_sample x s)

  push_sample-keep_last :
      (cap : ℕ) (xs : List A) (v : A)
      → 0 < cap
      → push_sample v (record { samples = xs; cap = cap })
        ≡ some (record { samples = keep_last cap xs v; cap = cap })
  unfolding push_sample
  push_sample-keep_last cap [] v h = ground arith
  push_sample-keep_last cap (x ∷ xs) v h = ground arith

  from_history :
      (cap : ℕ) (history vs : List A)
      → 0 < cap
      → push_samples vs (some (record { samples = retain cap history; cap = cap }))
        ≡ some (record { samples = retain cap (history ++ vs); cap = cap })
  from_history cap history [] h = rw append-nil refl
  from_history cap history (v ∷ vs) h =
      ap (push_samples vs) (push_sample-keep_last cap (retain cap history) v h)
      ∙ ap (λ xs. push_samples vs (some (record { samples = xs; cap = cap })))
          (keep_last-retain cap history v h)
      ∙ from_history cap (history ++ v ∷ []) vs h
      ∙ ap (λ xs. some (record { samples = retain cap xs; cap = cap }))
          (append_assoc history (v ∷ []) vs)

  -- A sampler of a positive capacity takes any samples without panic, and shows the last ones, oldest
  -- first, as many as its capacity.
  pub push_samples-retain :
      (capacity : ℕ) (vs : List A)
      → 0 < capacity
      → push_samples vs (some (new_metric_sampler capacity))
        ≡ some (record { samples = retain capacity vs; cap = capacity })
  unfolding new_metric_sampler
  push_samples-retain capacity vs h =
      ap (λ xs. push_samples vs (some (record { samples = xs; cap = capacity })))
        (sym (retain-all {A = A} capacity [] (omega arith)))
      ∙ from_history capacity [] vs h
