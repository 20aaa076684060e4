-- ===== src/Base/Retain.antt =====
-- The last elements of a history: what a bounded buffer is meant to show.
use native.Mathlib.Decide.{dec_lt}
use serverkit_agent.Base.{
  leb, if◌then◌else◌, ℕ, zero, suc, ◌-◌, ◌≤◌, ◌<◌, ◌≡◌, refl, ap, List, [], ◌∷◌, ◌++◌, length, take,
  drop, set, length-append, length-drop, arith,
}

module _ {ℓ} {A : Type ℓ} where
  -- The last `n` elements, or all if there are fewer.
  abbrev pub retain : ℕ → List A → List A
  retain n xs = drop (length xs - n) xs

  pub take-all : (n : ℕ) (xs : List A) → length xs ≤ n → take n xs ≡ xs
  take-all zero [] h = refl
  take-all zero (x ∷ xs) h = absurd (omega arith)
  take-all (suc n) [] h = refl
  take-all (suc n) (x ∷ xs) h = ap (λ r. x ∷ r) (take-all n xs (omega arith))

  pub drop-all : (n : ℕ) (xs : List A) → length xs ≤ n → drop n xs ≡ []
  drop-all zero [] h = refl
  drop-all zero (x ∷ xs) h = absurd (omega arith)
  drop-all (suc n) [] h = refl
  drop-all (suc n) (x ∷ xs) h = drop-all n xs (omega arith)

  pub take-set :
      (xs : List A) (i : ℕ) (v : A)
      → i < length xs
      → take (suc i) (set xs i v) ≡ take i xs ++ v ∷ []
  take-set [] i v h = absurd (omega arith)
  take-set (x ∷ xs) zero v h = refl
  take-set (x ∷ xs) (suc i) v h = ap (λ r. x ∷ r) (take-set xs i v (omega arith))

  pub drop-set : (xs : List A) (i : ℕ) (v : A) → drop (suc i) (set xs i v) ≡ drop (suc i) xs
  drop-set [] i v = refl
  drop-set (x ∷ xs) zero v = refl
  drop-set (x ∷ xs) (suc i) v = drop-set xs i v

  pub drop-append : (i : ℕ) (xs ys : List A) → i ≤ length xs → drop i (xs ++ ys) ≡ drop i xs ++ ys
  drop-append zero xs ys h = refl
  drop-append (suc i) [] ys h = absurd (omega arith)
  drop-append (suc i) (x ∷ xs) ys h = drop-append i xs ys (omega arith)

  pub drop_one-drop : (j : ℕ) (xs : List A) → drop 1 (drop j xs) ≡ drop (suc j) xs
  drop_one-drop zero xs = refl
  drop_one-drop (suc j) [] = refl
  drop_one-drop (suc j) (x ∷ xs) = drop_one-drop j xs

  -- One more element: the oldest retained one makes room if there are `n` already.
  pub retain-short :
      (n : ℕ) (xs : List A) (v : A)
      → length xs < n
      → retain n (xs ++ v ∷ []) ≡ retain n xs ++ v ∷ []
  retain-short n xs v h =
      let fewer : length (xs ++ v ∷ []) - n ≡ 0 = omega (arith, length-append xs (v ∷ [])) in
      let few : length xs - n ≡ 0 = omega arith in rw (fewer, few)

  pub retain-full :
      (n : ℕ) (xs : List A) (v : A)
      → 0 < n
      → n ≤ length xs
      → retain n (xs ++ v ∷ []) ≡ drop 1 (retain n xs) ++ v ∷ []
  retain-full n xs v p h =
      let grown : length (xs ++ v ∷ []) - n ≡ suc (length xs - n) =
        omega (arith, length-append xs (v ∷ [])) in
      rw (grown, drop_one-drop (length xs - n) xs)
        (drop-append (suc (length xs - n)) xs (v ∷ []) (omega arith))

  pub length-retain : (n : ℕ) (xs : List A) → n ≤ length xs → length (retain n xs) ≡ n
  length-retain n xs h = omega (arith, length-drop (length xs - n) xs)

  pub retain-all : (n : ℕ) (xs : List A) → length xs ≤ n → retain n xs ≡ xs
  retain-all n xs h = let few : length xs - n ≡ 0 = omega arith in rw few

  -- The step of a buffer of `n` slots that drops its oldest element to make room.
  abbrev pub keep_last : ℕ → List A → A → List A
  keep_last n xs v = (if leb n (length xs) then drop 1 xs else xs) ++ v ∷ []

  pub keep_last-retain :
      (n : ℕ) (xs : List A) (v : A) → 0 < n → keep_last n (retain n xs) v ≡ retain n (xs ++ v ∷ [])
  keep_last-retain n xs v pos_n = elim (dec_lt (length xs) n) [
    | yes lt ↦ rw (retain-short n xs v lt, retain-all n xs (omega arith)) (ground arith)
    | no ge ↦
        rw (retain-full n xs v pos_n (omega arith))
          (ground (arith, length-retain n xs (omega arith)))
  ]

  pub length-keep_last :
      (n : ℕ) (xs : List A) (v : A) → 0 < n → length xs ≤ n → length (keep_last n xs v) ≤ n
  length-keep_last n xs v pos_n h =
      ground
        (arith, length-append xs (v ∷ []), length-append (drop 1 xs) (v ∷ []), length-drop 1 xs)
