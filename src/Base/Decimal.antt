-- ===== src/Base/Decimal.antt =====
-- strconv.Itoa and strconv.Atoi.
use Prim.Native.Nat.{ℕ, zero, suc, ◌+◌, ◌-◌, ◌^◌, ◌*◌, ◌/◌, ◌%◌, ◌≤◌, ◌<◌}
use mathlib.Core.Path.{◌≡◌, refl, sym, ap, ◌∙◌}
use mathlib.Core.Bool.{Bool, true, false, ◌&&◌}
use mathlib.Core.List.{[], ◌∷◌}
use mathlib.Core.Logic.{inl, inr}
use mathlib.Core.Option.{Option, none, some}
use native.Mathlib.Omega.{arith}
use serverkit_agent.Base.Lists.{All}
use serverkit_agent.Base.Tests.{Bool-cases, leb, ltb, ◌==◌, if◌then◌else◌}
use serverkit_agent.Base.Texts.{Text}
use serverkit_agent.Base.Int.{ℤ, pos, negsuc}

-- The digits of a number before those of `rest`; there are at most as many as the fuel.
unfoldable pub digits : ℕ → ℕ → Text → Text
digits zero n rest = rest
digits (suc fuel) n rest =
    let front = digits fuel (n / 10) ((b'0' + n % 10) ∷ rest) in
    if ltb n 10 then (b'0' + n) ∷ rest else front

unfoldable pub decimal : ℕ → Text
unfolding digits
decimal n = digits (suc n) n []

unfoldable pub itoa : ℤ → Text
unfolding decimal
itoa (pos n) = decimal n
itoa (negsuc n) = b'-' ∷ decimal (suc n)

-- The number that some digits stand for after `acc`.
unfoldable pub number_from : ℕ → Text → Option ℕ
number_from acc [] = some acc
number_from acc (c ∷ s) =
    let rest = number_from (acc * 10 + (c - b'0')) s in
    if leb b'0' c && leb c b'9' then rest else none

-- One or more digits.
unfoldable pub number : Text → Option ℕ
unfolding number_from
number [] = none
number (c ∷ s) = number_from 0 (c ∷ s)

abbrev in_int64 : Bool → Option ℕ → Option ℤ
in_int64 negative none = none
in_int64 true (some zero) = some (pos zero)
in_int64 true (some (suc n)) = if ltb n (2 ^ 63) then some (negsuc n) else none
in_int64 false (some n) = if ltb n (2 ^ 63) then some (pos n) else none

-- Atoi: a sign or none, and digits that an int64 holds; `none` is an error.
unfoldable pub atoi : Text → Option ℤ
unfolding number
atoi [] = none
atoi (c ∷ s) =
    if c == b'-'
    then in_int64 true (number s)
    else if c == b'+'
    then in_int64 false (number s)
    else in_int64 false (number (c ∷ s))

number_from-digit :
    (acc d : ℕ) (rest : Text)
    → d < 10
    → number_from acc ((b'0' + d) ∷ rest) ≡ number_from (acc * 10 + d) rest
unfolding number_from
number_from-digit acc d rest h =
    let e : acc * 10 + (b'0' + d - b'0') ≡ acc * 10 + d = omega arith in
    let low : leb b'0' (b'0' + d) ≡ true = ground arith in
    let high : leb (b'0' + d) b'9' ≡ true = ground arith in
    rw (low, high) (ap (λ n. number_from n rest) e)

-- The digits of a number are read as the number.
number_from-digits :
    (fuel n : ℕ) (rest : Text) → n < fuel → number_from 0 (digits fuel n rest) ≡ number_from n rest
unfolding digits
number_from-digits zero n rest h = absurd (omega arith)
number_from-digits (suc fuel) n rest h = elim (Bool-cases (ltb n 10)) [
  | inl e ↦
      let bare : 0 * 10 + n ≡ n = omega arith in
      rw e (number_from-digit 0 n rest (ground arith) ∙ ap (λ m. number_from m rest) bare)
  | inr e ↦
      let whole : n / 10 * 10 + n % 10 ≡ n = omega arith in
      rw e (
        number_from-digits fuel (n / 10) ((b'0' + n % 10) ∷ rest) (ground arith)
        ∙ number_from-digit (n / 10) (n % 10) rest (omega arith)
        ∙ ap (λ m. number_from m rest) whole)
]

abbrev pub IsDigit : ℕ → Type 0
IsDigit c = (b'0' ≤ c) × (c ≤ b'9')

-- A number is written as one digit or more.
digits-IsDigit :
    (fuel n : ℕ) (rest : Text)
    → n < fuel
    → All IsDigit rest
    → (c : ℕ) × (s : Text) × (digits fuel n rest ≡ c ∷ s) × IsDigit c × All IsDigit s
unfolding digits
digits-IsDigit zero n rest h all = absurd (omega arith)
digits-IsDigit (suc fuel) n rest h all = elim (Bool-cases (ltb n 10)) [
  | inl e ↦
      let low : n < 10 = ground arith in
      (b'0' + n, rest, rw e refl, (omega arith, omega arith), all)
  | inr e ↦
      let (c, s, q, d, ds) =
        digits-IsDigit fuel (n / 10) ((b'0' + n % 10) ∷ rest) (ground arith)
          ((omega arith, omega arith), all) in
      (c, s, rw e q, d, ds)
]

pub decimal-IsDigit :
    (n : ℕ) → (c : ℕ) × (s : Text) × (decimal n ≡ c ∷ s) × IsDigit c × All IsDigit s
unfolding decimal
decimal-IsDigit n = digits-IsDigit (suc n) n [] (omega arith) tt

atoi-digits :
    (n c : ℕ) (s : Text) → decimal n ≡ c ∷ s → IsDigit c → n < 2 ^ 63 → atoi (c ∷ s) ≡ some (pos n)
unfolding atoi number decimal number_from
atoi-digits n c s e (low, high) h =
    let read : number_from 0 (c ∷ s) ≡ some n =
      sym (ap (number_from 0) e) ∙ number_from-digits (suc n) n [] (omega arith) in
    let minus : (c == b'-') ≡ false = ground arith in
    let plus : (c == b'+') ≡ false = ground arith in
    let fits : ltb n (2 ^ 63) ≡ true = ground arith in
    rw (minus, plus) (ap (in_int64 false) read ∙ rw fits refl)

-- A number that an int64 holds is written and read back.
pub atoi-itoa : (n : ℕ) → n < 2 ^ 63 → atoi (itoa (pos n)) ≡ some (pos n)
unfolding itoa
atoi-itoa n h = let (c, s, e, d, ds) = decimal-IsDigit n in rw e (atoi-digits n c s e d h)
