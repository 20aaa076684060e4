-- ===== src/Permissions/Parsing.antt =====
-- `Parse` of internal/permissions/permissions.go.
use serverkit_agent.Base.{
  ℕ, ◌≡◌, refl, ◌⊎◌, inl, inr, Text, text_eq, text_eq_sound, ◌++◌, some, is_space, trim_left,
  trim_right_by, trim_space, arith, ◌≢◌,
}
use serverkit_agent.Base.Trim.{Passes, trim_space-pad}
use serverkit_agent.Permissions.{monitor, protect, full, rank, to_lower, parse}

rank_pos : (l : Text) → rank l ≢ 0 → (l ≡ monitor) ⊎ ((l ≡ protect) ⊎ (l ≡ full))
unfolding rank
rank_pos l h =
    ground (arith, text_eq_sound l monitor, text_eq_sound l protect, text_eq_sound l full)

-- What `Parse` returns is one of the three names, and is the input with the spaces around it cut and
-- its letters lowered.
pub parse_sound :
    (table : ℕ → ℕ) (s l : Text)
    → parse table s ≡ some l
    → ((l ≡ monitor) ⊎ ((l ≡ protect) ⊎ (l ≡ full))) × (to_lower table (trim_space s) ≡ l)
unfolding parse
parse_sound table s l h = (rank_pos l (ground arith), ground arith)

parse_name :
    (table : ℕ → ℕ) (l before after : Text)
    → trim_space (before ++ (l ++ after)) ≡ l
    → to_lower table l ≡ l
    → rank l ≢ 0
    → parse table (before ++ (l ++ after)) ≡ some l
unfolding parse
parse_name table l before after t k r = rw (t, k) (ground arith)

-- Each of the three names, with any spaces around it, is read as itself.
pub parse-pad :
    (table : ℕ → ℕ) (l before after : Text)
    → rank l ≢ 0
    → Passes is_space before
    → Passes is_space after
    → parse table (before ++ (l ++ after)) ≡ some l
unfolding to_lower rank text_eq trim_left trim_right_by is_space
parse-pad table l before after r hb ha = elim (rank_pos l r) [
  | inl e ↦ rw e (
      parse_name table monitor before after (trim_space-pad before monitor after hb ha refl) refl
        (λ z. omega arith))
  | inr (inl e) ↦ rw e (
      parse_name table protect before after (trim_space-pad before protect after hb ha refl) refl
        (λ z. omega arith))
  | inr (inr e) ↦ rw e (
      parse_name table full before after (trim_space-pad before full after hb ha refl) refl
        (λ z. omega arith))
]
