-- ===== src/Base/Dicts.antt =====
-- A Go map with string keys, as an association list in which a key stands at most once.
use mathlib.Core.Path.{◌≡◌, refl}
use mathlib.Core.Bool.{false}
use mathlib.Core.List.{List, [], ◌∷◌}
use mathlib.Core.Option.{Option, none, some}
use native.Mathlib.Omega.{arith}
use mathlib.Core.Logic.{inl, inr}
use mathlib.Core.Path.{subst}
use mathlib.Core.Bool.{false, ◌||◌}
use serverkit_agent.Base.Tests.{if◌then◌else◌, Bool-cases}
use serverkit_agent.Base.Texts.{Text, text_eq, text_eq_iff, text_eq_sound, mem_text}

abbrev pub Dict {ℓ} : Type ℓ → Type ℓ
Dict V = List (Text × V)

module _ {ℓ} {V : Type ℓ} where
  unfoldable pub lookup : Text → Dict V → Option V
  lookup k [] = none
  lookup k ((j, v) ∷ m) = let rest = lookup k m in if text_eq j k then some v else rest

  unfoldable pub insert : Text → V → Dict V → Dict V
  insert k v [] = (k, v) ∷ []
  insert k v ((j, w) ∷ m) =
      let rest = insert k v m in if text_eq j k then (k, v) ∷ m else (j, w) ∷ rest

  -- Go's `delete`: every binding of the key goes.
  unfoldable pub delete : Text → Dict V → Dict V
  delete k [] = []
  delete k ((j, w) ∷ m) = let rest = delete k m in if text_eq j k then rest else (j, w) ∷ rest

module _ {ℓ} {V : Type ℓ} where
  pub lookup-insert :
      (k j : Text) (v : V) (m : Dict V)
      → lookup j (insert k v m) ≡ (if text_eq k j then some v else lookup j m)
  unfolding lookup insert
  lookup-insert k j v [] = refl
  lookup-insert k j v ((i, w) ∷ m) =
      ground (arith, text_eq_iff k j, text_eq_iff i k, text_eq_iff i j, lookup-insert k j v m)

  pub lookup-delete :
      (k j : Text) (m : Dict V) → lookup j (delete k m) ≡ (if text_eq k j then none else lookup j m)
  unfolding lookup delete
  lookup-delete k j [] = ground arith
  lookup-delete k j ((i, w) ∷ m) =
      ground (arith, text_eq_iff k j, text_eq_iff i k, text_eq_iff i j, lookup-delete k j m)

module _ {ℓ} {V : Type ℓ} where
  abbrev pub keys : Dict V → List Text
  keys [] = []
  keys ((k, v) ∷ m) = k ∷ keys m

  abbrev pub values : Dict V → List V
  values [] = []
  values ((k, v) ∷ m) = v ∷ values m

-- No key stands twice.
abbrev pub Distinct : List Text → Type 0
Distinct [] = Unit
Distinct (x ∷ xs) = (mem_text x xs ≡ false) × Distinct xs

module _ {ℓ} {V : Type ℓ} where
  mem_keys-insert :
      (k j : Text) (v : V) (m : Dict V)
      → mem_text j (keys (insert k v m)) ≡ (text_eq j k || mem_text j (keys m))
  unfolding insert mem_text
  mem_keys-insert k j v [] = ground arith
  mem_keys-insert k j v ((i, w) ∷ m) =
      ground (arith, mem_keys-insert k j v m, text_eq_iff i k, text_eq_iff j i, text_eq_iff j k)

  mem_keys-delete :
      (k j : Text) (m : Dict V)
      → mem_text j (keys m) ≡ false
      → mem_text j (keys (delete k m)) ≡ false
  unfolding delete mem_text
  mem_keys-delete k j [] h = refl
  mem_keys-delete k j ((i, w) ∷ m) h = ground (arith, mem_keys-delete k j m)

  -- Writing and deleting keep the keys distinct.
  pub insert-Distinct :
      (k : Text) (v : V) (m : Dict V) → Distinct (keys m) → Distinct (keys (insert k v m))
  unfolding insert mem_text
  insert-Distinct k v [] h = (refl, tt)
  insert-Distinct k v ((i, w) ∷ m) (once, h) = elim (Bool-cases (text_eq i k)) [
    | inl e ↦ rw e (subst (λ x. mem_text x (keys m) ≡ false) (text_eq_sound i k e) once, h)
    | inr e ↦ rw e (
      ground (arith, mem_keys-insert k i v m, text_eq_iff i k, text_eq_iff k i),
      insert-Distinct k v m h,
    )
  ]

  pub delete-Distinct : (k : Text) (m : Dict V) → Distinct (keys m) → Distinct (keys (delete k m))
  unfolding delete
  delete-Distinct k [] h = h
  delete-Distinct k ((i, w) ∷ m) (once, h) = elim (Bool-cases (text_eq i k)) [
    | inl e ↦ rw e (delete-Distinct k m h)
    | inr e ↦ rw e (mem_keys-delete k i m once, delete-Distinct k m h)
  ]
