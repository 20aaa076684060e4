-- ===== src/Services/Units.antt =====
-- Which units are reported, and how (internal/servicecheck/servicecheck.go).
use serverkit_agent.Base.{
  if◌then◌else◌, Bool, ℕ, zero, suc, ◌*◌, ◌≤◌, ◌==◌, leb, true, false, ◌&&◌, ◌||◌, not, List, [],
  ◌∷◌, Option, none, some, Text, length, text_eq, text_eq_refl, text_eq_iff, mem_text, Distinct,
  keys, ◌≡◌, ◌≢◌, refl, sym, ap, ◌∙◌, arith, Bool-cases, inl, inr, All, &&-eq-true,
}
use serverkit_agent.Base.Parts.{or_true}
use mathlib.Core.Path.{subst}
use serverkit_agent.Base.Int.{ℤ, pos, negsuc}
use serverkit_agent.Base.Matching.{all_chars}
use serverkit_agent.Services.{ServiceCheck, UnitInfo, second, clamp_timeout, report, scan_units}
use serverkit_agent.Services.Custom.{unit_char, valid_unit}

-- What holds of a report holds where nothing is reported, and where a new unit is.
report_lem :
    (P : List (Text × ServiceCheck) → Type 0) (o : Option UnitInfo) (seen : List Text)
    (check : UnitInfo → ServiceCheck) (skipped : List (Text × ServiceCheck))
    (reported : UnitInfo → List (Text × ServiceCheck))
    → P skipped
    → ((u : UnitInfo) → o ≡ some u → mem_text u.id seen ≡ false → P ((u.id, check u) ∷ reported u))
    → P (report o seen check skipped reported)
report_lem P none seen check skipped reported h new = h
report_lem P (some u) seen check skipped reported h new = elim (Bool-cases (mem_text u.id seen)) [
  | inl e ↦ rw e h
  | inr e ↦ rw e (new u refl e)
]

unseen :
    (id other : Text) (seen : List Text)
    → mem_text id seen ≡ true
    → mem_text id (other ∷ seen) ≡ true
unfolding mem_text
unseen id other seen h = ground arith

mem_head : (id : Text) (seen : List Text) → mem_text id (id ∷ seen) ≡ true
unfolding mem_text
mem_head id seen = ap (λ b. b || mem_text id seen) (text_eq_refl id)

mem_tail :
    (id other : Text) (ids : List Text)
    → text_eq id other ≡ false
    → mem_text id ids ≡ false
    → mem_text id (other ∷ ids) ≡ false
unfolding mem_text
mem_tail id other ids h k = ground arith

mem_nil : (id : Text) → mem_text id [] ≡ false
unfolding mem_text
mem_nil id = refl

apart :
    (id other : Text) (seen : List Text)
    → mem_text id seen ≡ true
    → mem_text other seen ≡ false
    → text_eq id other ≡ false
apart id other seen h k = elim (Bool-cases (text_eq id other)) [
  | inl e ↦ absurd (cc (sym h ∙ ap (λ t. mem_text t seen) ((text_eq_iff id other).0 e) ∙ k))
  | inr e ↦ e
]

module _ {A : Type 0} (state : A → Option UnitInfo) (check : A → UnitInfo → ServiceCheck) where
  -- A unit is reported when it is found, and with its check.
  abbrev pub IsReported : Text × ServiceCheck → Type 0
  IsReported r = (a : A) × (u : UnitInfo) × (state a ≡ some u) × (u.id ≡ r.0) × (check a u ≡ r.1)

  scan_units-fresh :
      (id : Text) (seen : List Text) (rest : List A)
      → mem_text id seen ≡ true
      → mem_text id (keys (scan_units state check seen rest)) ≡ false
  unfolding scan_units
  scan_units-fresh id seen [] h = mem_nil id
  scan_units-fresh id seen (a ∷ rest) h =
      report_lem (λ l. mem_text id (keys l) ≡ false) (state a) seen (check a) _ _
        (scan_units-fresh id seen rest h)
        (λ u e new.
          mem_tail id u.id (keys (scan_units state check (u.id ∷ seen) rest))
            (apart id u.id seen h new)
            (scan_units-fresh id (u.id ∷ seen) rest (unseen id u.id seen h)))

  -- The id of a unit that is found is reported, or was before.
  abbrev pub IsListed : List Text → List (Text × ServiceCheck) → A → Type 0
  IsListed seen reports a =
      (u : UnitInfo)
      → state a ≡ some u
      → (mem_text u.id seen || mem_text u.id (keys reports)) ≡ true

  scan_units_once :
      (seen : List Text) (rest : List A)
      → Distinct (keys (scan_units state check seen rest))
        × All IsReported (scan_units state check seen rest)
  unfolding scan_units
  scan_units_once seen [] = (tt, tt)
  scan_units_once seen (a ∷ rest) =
      report_lem (λ l. Distinct (keys l) × All IsReported l) (state a) seen (check a) _ _
        (scan_units_once seen rest)
        (λ u e new.
          let (once, found) = scan_units_once (u.id ∷ seen) rest in
          (
            (scan_units-fresh u.id (u.id ∷ seen) rest (mem_head u.id seen), once),
            ((a, u, e, refl, refl), found),
          ))

  mem_moves :
      (id other : Text) (seen ids : List Text)
      → (mem_text id (other ∷ seen) || mem_text id ids) ≡ true
      → (mem_text id seen || mem_text id (other ∷ ids)) ≡ true
  unfolding mem_text
  mem_moves id other seen ids h = ground arith

  IsListed-moves :
      (other : Text) (c : ServiceCheck) (seen : List Text) (reports : List (Text × ServiceCheck))
      (rest : List A)
      → All (IsListed (other ∷ seen) reports) rest
      → All (IsListed seen ((other, c) ∷ reports)) rest
  IsListed-moves other c seen reports [] h = tt
  IsListed-moves other c seen reports (a ∷ rest) (h, hs) = (
    λ u e. mem_moves u.id other seen (keys reports) (h u e),
    IsListed-moves other c seen reports rest hs,
  )

  same_unit : (u v : UnitInfo) → some u ≡ some v → u ≡ v
  same_unit u v e = cc e

  report-IsListed :
      (a : A) (rest : List A) (seen : List Text) (o : Option UnitInfo)
      → state a ≡ o
      → ((seen : List Text) → All (IsListed seen (scan_units state check seen rest)) rest)
      → All
          (IsListed seen (
            report o seen
              (check a)
              (scan_units state check seen rest)
              (λ u. scan_units state check (u.id ∷ seen) rest)))
          (a ∷ rest)
  report-IsListed a rest seen none none_found others =
      (λ u e. absurd (cc (sym none_found ∙ e)), others seen)
  report-IsListed a rest seen (some v) found others =
      let skipped = scan_units state check seen rest in
      let reports = scan_units state check (v.id ∷ seen) rest in
      let listed : Bool → Type 0 =
        λ b. All (IsListed seen (if b then skipped else (v.id, check a v) ∷ reports)) (a ∷ rest) in
      elim (Bool-cases (mem_text v.id seen)) [
        | inl e ↦ subst listed (sym e) (
          λ u q.
              ap (λ w. mem_text w.id seen || mem_text w.id (keys skipped))
                (same_unit u v (sym q ∙ found))
              ∙ ap (λ b. b || mem_text v.id (keys skipped)) e,
          others seen,
        )
        | inr e ↦ subst listed (sym e) (
          λ u q.
              ap (λ w. mem_text w.id seen || mem_text w.id (v.id ∷ keys reports))
                (same_unit u v (sym q ∙ found))
              ∙ or_true (mem_text v.id seen) (mem_text v.id (v.id ∷ keys reports))
                  (mem_head v.id (keys reports)),
          IsListed-moves v.id (check a v) seen reports rest (others (v.id ∷ seen)),
        )
      ]

  scan_units-IsListed :
      (seen : List Text) (rest : List A)
      → All (IsListed seen (scan_units state check seen rest)) rest
  unfolding scan_units
  scan_units-IsListed seen [] = tt
  scan_units-IsListed seen (a ∷ rest) =
      report-IsListed a rest seen (state a) refl (λ s. scan_units-IsListed s rest)

  -- A scan that starts with no ids: every unit that is found has its id reported, whatever stands before it;
  -- an id is reported once, whatever names lead to it; and only units that were found are reported, with their checks.
  pub scan_units-Distinct :
      (rest : List A)
      → Distinct (keys (scan_units state check [] rest))
        × All IsReported (scan_units state check [] rest)
        × All (IsListed [] (scan_units state check [] rest)) rest
  scan_units-Distinct rest =
      let (once, found) = scan_units_once [] rest in (once, found, scan_units-IsListed [] rest)

-- A unit name that passes does not start with a dash, and has letters, digits, and the characters of unit names only.
pub valid_unit_lem :
    (s : Text)
    → valid_unit s ≡ true
    → (c : ℕ) × (r : Text) × (s ≡ c ∷ r) × (c ≢ b'-') × (all_chars unit_char s ≡ true)
unfolding valid_unit
valid_unit_lem [] h = absurd (cc h)
valid_unit_lem (c ∷ s) h =
    let (h1, h2) =
      &&-eq-true (leb (length (c ∷ s)) 100 && not (c == b'-')) (all_chars unit_char (c ∷ s)) h in
    let (h3, h4) = &&-eq-true (leb (length (c ∷ s)) 100) (not (c == b'-')) h1 in
    (c, s, refl, λ e. ground arith, h2)

-- Every check has between one and thirty seconds.
pub clamp_timeout_bounds : (d : ℤ) → (second ≤ clamp_timeout d) × (clamp_timeout d ≤ 30 * second)
unfolding clamp_timeout
clamp_timeout_bounds (negsuc n) = (omega arith, omega arith)
clamp_timeout_bounds (pos zero) = (omega arith, omega arith)
clamp_timeout_bounds (pos (suc n)) = (ground arith, ground arith)
