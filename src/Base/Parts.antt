-- ===== src/Base/Parts.antt =====
-- What the tests on parts of a text say: `has_prefix`, `contains` and `trim_right_by` by the parts themselves.
use mathlib.Core.Path.{ap₂}
use serverkit_agent.Base.{
  ℕ, ◌==◌, if◌then◌else◌, Bool, true, false, ◌||◌, [], ◌∷◌, ◌++◌, All, Text, has_prefix, contains,
  keep_if, trim_right_by, ◌≡◌, ◌≢◌, refl, sym, ap, ◌∙◌, ◌⊎◌, inl, inr, arith, Bool-cases,
  &&-eq-true, ==_iff,
}

pub or_cases : (a b : Bool) → (a || b) ≡ true → (a ≡ true) ⊎ (b ≡ true)
or_cases true b h = inl refl
or_cases false b h = inr h

pub or_true : (a b : Bool) → b ≡ true → (a || b) ≡ true
or_true a b h = ground arith

-- strings.HasPrefix, by what follows.
pub has_prefix_sound : (s p : Text) → has_prefix s p ≡ true → (rest : Text) × (s ≡ p ++ rest)
unfolding has_prefix
has_prefix_sound s [] h = (s, refl)
has_prefix_sound [] (x ∷ p) h = absurd (cc h)
has_prefix_sound (c ∷ s) (x ∷ p) h =
    let (e, q) = &&-eq-true (c == x) (has_prefix s p) h in
    let (rest, r) = has_prefix_sound s p q in (rest, ap₂ (λ a t. a ∷ t) ((==_iff c x).0 e) r)

pub has_prefix-append : (p rest : Text) → has_prefix (p ++ rest) p ≡ true
unfolding has_prefix
has_prefix-append [] rest = refl
has_prefix-append (x ∷ p) rest = ground (arith, has_prefix-append p rest)

-- A text with a part in it.
abbrev pub Within : Text → Text → Type 0
Within s part = (before after : Text) × (s ≡ before ++ (part ++ after))

part_in_front : (s part : Text) → has_prefix s part ≡ true → Within s part
part_in_front s part h = let (rest, e) = has_prefix_sound s part h in ([], rest, e)

-- strings.Contains finds a part exactly where one is.
pub contains_sound : (s part : Text) → contains s part ≡ true → Within s part
unfolding contains
contains_sound [] part h = part_in_front [] part h
contains_sound (c ∷ s) part h = elim (or_cases (has_prefix (c ∷ s) part) (contains s part) h) [
  | inl e ↦ part_in_front (c ∷ s) part e
  | inr e ↦
      let (before, after, q) = contains_sound s part e in (c ∷ before, after, ap (λ t. c ∷ t) q)
]

prefix-contained : (s part : Text) → has_prefix s part ≡ true → contains s part ≡ true
unfolding contains
prefix-contained [] part h = h
prefix-contained (c ∷ s) part h = ap (λ b. b || contains s part) h

pub contains-append : (before part after : Text) → contains (before ++ (part ++ after)) part ≡ true
unfolding contains
contains-append [] part after = prefix-contained (part ++ after) part (has_prefix-append part after)
contains-append (c ∷ before) part after =
    or_true (has_prefix (c ∷ (before ++ (part ++ after))) part)
      (contains (before ++ (part ++ after)) part) (contains-append before part after)

-- Characters in front of a trimmed text.
keep_if_split :
    (p : ℕ → Bool) (c : ℕ) (r s pad : Text)
    → s ≡ r ++ pad
    → All (λ c. p c ≡ true) pad
    → (ends : Text) × (c ∷ s ≡ keep_if p c r ++ ends) × All (λ c. p c ≡ true) ends
keep_if_split p c (x ∷ r) s pad e h = (pad, ap (λ t. c ∷ t) e, h)
keep_if_split p c [] s pad e h = elim (Bool-cases (p c)) [
  | inl q ↦ (c ∷ pad, rw q (ap (λ t. c ∷ t) e), (q, h))
  | inr q ↦ (pad, rw q (ap (λ t. c ∷ t) e), h)
]

-- What a trim takes from the end.
pub trim_right_by-split :
    (p : ℕ → Bool) (s : Text)
    → (pad : Text) × (s ≡ trim_right_by p s ++ pad) × All (λ c. p c ≡ true) pad
unfolding trim_right_by
trim_right_by-split p [] = ([], refl, tt)
trim_right_by-split p (c ∷ s) =
    let (pad, e, h) = trim_right_by-split p s in keep_if_split p c (trim_right_by p s) s pad e h

no_end : (before : Text) (x : ℕ) → before ++ x ∷ [] ≢ []
no_end [] x h = absurd (cc h)
no_end (y ∷ before) x h = absurd (cc h)

-- The last character of what a trim leaves.
abbrev EndsIn : (ℕ → Bool) → Text → Type 0
EndsIn p s = (before : Text) (x : ℕ) → s ≡ before ++ x ∷ [] → p x ≡ false

alone_last : (p : ℕ → Bool) (c : ℕ) → p c ≡ false → EndsIn p (c ∷ [])
alone_last p c h [] x e = let same : c ≡ x = cc e in ap p (sym same) ∙ h
alone_last p c h (y ∷ before) x e =
    let rest : before ++ x ∷ [] ≡ [] = cc e in absurd (no_end before x rest)

keep_if_last : (p : ℕ → Bool) (c : ℕ) (r : Text) → EndsIn p r → EndsIn p (keep_if p c r)
keep_if_last p c [] h before x e = elim (Bool-cases (p c)) [
  | inl q ↦ absurd (no_end before x (sym e ∙ ap (λ b. if b then [] else c ∷ []) q))
  | inr q ↦ alone_last p c q before x (sym (ap (λ b. if b then [] else c ∷ []) q) ∙ e)
]
keep_if_last p c (y ∷ r) h [] x e = absurd (cc e)
keep_if_last p c (y ∷ r) h (z ∷ before) x e =
    let rest : y ∷ r ≡ before ++ x ∷ [] = cc e in h before x rest

pub trim_right_by-last :
    (p : ℕ → Bool) (s before : Text) (x : ℕ) → trim_right_by p s ≡ before ++ x ∷ [] → p x ≡ false
unfolding trim_right_by
trim_right_by-last p [] before x e = absurd (no_end before x (sym e))
trim_right_by-last p (c ∷ s) before x e =
    keep_if_last p c (trim_right_by p s) (trim_right_by-last p s) before x e
