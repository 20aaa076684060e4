-- ===== src/Base/Trim.antt =====
-- What trimming removes: laws of `trim_left`, `trim_right_by` and `trim_space`.
use serverkit_agent.Base.{
  ℕ, ◌≡◌, refl, Bool, true, [], ◌∷◌, ◌++◌, All, Text, is_space, trim_left, trim_right_by,
  trim_space,
}

abbrev pub Passes : (ℕ → Bool) → Text → Type 0
Passes p = All (λ c. p c ≡ true)

pub trim_left-append : (pad s : Text) → Passes is_space pad → trim_left (pad ++ s) ≡ trim_left s
unfolding trim_left
trim_left-append [] s h = refl
trim_left-append (c ∷ pad) s (hc, h) = rw hc (trim_left-append pad s h)

pub trim_right_by-nil : (p : ℕ → Bool) (pad : Text) → Passes p pad → trim_right_by p pad ≡ []
unfolding trim_right_by
trim_right_by-nil p [] h = refl
trim_right_by-nil p (c ∷ pad) (hc, h) = rw (trim_right_by-nil p pad h, hc)

pub trim_right_by-append :
    (p : ℕ → Bool) (s pad : Text) → Passes p pad → trim_right_by p (s ++ pad) ≡ trim_right_by p s
unfolding trim_right_by
trim_right_by-append p [] pad h = trim_right_by-nil p pad h
trim_right_by-append p (c ∷ s) pad h = rw (trim_right_by-append p s pad h)

-- Padding on both sides of a text goes.
pub trim_space-pad :
    (before s after : Text)
    → Passes is_space before
    → Passes is_space after
    → trim_left (s ++ after) ≡ s ++ after
    → trim_space (before ++ (s ++ after)) ≡ trim_right_by is_space s
unfolding trim_space
trim_space-pad before s after hb ha kept =
    rw (trim_left-append before (s ++ after) hb, kept) (trim_right_by-append is_space s after ha)
