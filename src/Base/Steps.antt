-- ===== src/Base/Steps.antt =====
-- Steps that pass a record of the commands that ran, and that a Go error ends, with `do`.
use mathlib.Core.Path.{◌≡◌, refl, sym, ap, ◌∙◌}
use mathlib.Core.Bool.{Bool, true, false}
use mathlib.Core.List.{List, [], ◌∷◌, ◌++◌, append-nil, append_assoc}
use serverkit_agent.Base.Lists.{All, All-append}
use serverkit_agent.Base.Results.{Result, success, failure}

-- A value or an error, and what is recorded so far.
abbrev pub Steps : Type 0 → Type 0 → Type 0 → Type 0
Steps E W A = W → Result E A × W

module _ {E W : Type 0} where
  abbrev pub pure : {A : Type 0} → A → Steps E W A
  pure a log = (success a, log)

  abbrev pub fail_with : {A : Type 0} → E → Steps E W A
  fail_with e log = (failure e, log)

  -- What follows a result.
  abbrev pub follow : {A B : Type 0} → Result E A × W → (A → Steps E W B) → Result E B × W
  follow (success a, log) f = f a log
  follow (failure e, log) f = (failure e, log)

  infixl 5 ◌>>=◌ ◌>>◌
  abbrev pub ◌>>=◌ : {A B : Type 0} → Steps E W A → (A → Steps E W B) → Steps E W B
  ◌>>=◌ m f log = follow (m log) f

  abbrev pub ◌>>◌ : {B : Type 0} → Steps E W (Unit {0}) → Steps E W B → Steps E W B
  m >> k = m >>= λ _. k

  abbrev pub lift : {A : Type 0} → Result E A → Steps E W A
  lift r log = (r, log)

  abbrev pub check_that : Bool → E → Steps E W (Unit {0})
  check_that true e = pure tt
  check_that false e = fail_with e

-- What holds after a test, or after a result, from what holds in each case.
module _ {E W A : Type 0} (P : Result E A × W → Type 0) where
  pub check_that-follow :
      (b : Bool) (e : E) (k : Steps E W A) (log : W)
      → (b ≡ false → P (failure e, log))
      → (b ≡ true → P (k log))
      → P (follow (check_that b e log) (λ (u : Unit {0}). k))
  check_that-follow true e k log no_case yes_case = yes_case refl
  check_that-follow false e k log no_case yes_case = no_case refl

  pub follow_lem :
      {B : Type 0} (r : Result E B) (k : B → Steps E W A) (log : W)
      → ((e : E) → r ≡ failure e → P (failure e, log))
      → ((b : B) → r ≡ success b → P (k b log))
      → P (follow (r, log) k)
  follow_lem (success b) k log bad good = good b refl
  follow_lem (failure e) k log bad good = bad e refl

-- What a step adds to a list of what was done satisfies a predicate.
abbrev pub Adds : {E C A : Type 0} → (C → Type 0) → List C → Result E A × List C → Type 0
Adds {C = C} P log r = (ran : List C) × (r.1 ≡ log ++ ran) × All P ran

module _ {E C A : Type 0} (P : C → Type 0) where
  pub Adds-follow :
      {B : Type 0} (log : List C) (r : Result E B × List C) (k : B → Steps E (List C) A)
      → Adds P log r
      → ((b : B) (mid : List C) → r.0 ≡ success b → Adds P mid (k b mid))
      → Adds P log (follow r k)
  Adds-follow log (failure e, mid) k h rest = h
  Adds-follow log (success b, mid) k (ran, e, all) rest =
      let (more, f, alls) = rest b mid refl in
      (
        ran ++ more,
        f ∙ ap (λ l. l ++ more) e ∙ append_assoc log ran more,
        All-append P ran more all alls,
      )

module _ {C : Type 0} (P : C → Type 0) where
  pub Adds_nothing : (log : List C) → (ran : List C) × (log ≡ log ++ ran) × All P ran
  Adds_nothing log = ([], sym (append-nil log), tt)

  pub Adds_one :
      (log : List C) (c : C) → P c → (ran : List C) × (log ++ c ∷ [] ≡ log ++ ran) × All P ran
  Adds_one log c p = (c ∷ [], refl, (p, tt))

module _ {E C : Type 0} (P : C → Type 0) where
  pub check_that-Adds :
      (b : Bool) (e : E) (log : List C) → Adds {A = Unit {0}} P log (check_that b e log)
  check_that-Adds true e log = ([], sym (append-nil log), tt)
  check_that-Adds false e log = ([], sym (append-nil log), tt)
