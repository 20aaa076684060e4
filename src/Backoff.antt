-- ===== src/Backoff.antt =====
-- internal/ws/client.go, nextBackoff: the delay before the next attempt to connect.
use serverkit_agent.Base.{
  ℕ, zero, suc, ◌*◌, ◌/◌, ◌^◌, ◌≤◌, ◌<◌, min, ltb, leb, if◌then◌else◌, Bool, true, ◌&&◌, ◌≡◌, arith,
  ◌↔◌,
}
use native.Mathlib.Nat.{le-div_iff_mul-le, pow-suc}
use serverkit_agent.Base.Int.{ℤ, pos, negsuc}

-- A base that is not positive is replaced by one second, in nanoseconds.
abbrev pub base_or_second : ℤ → ℕ
base_or_second (pos zero) = 10 ^ 9
base_or_second (pos (suc n)) = suc n
base_or_second (negsuc n) = 10 ^ 9

-- The delay before the jitter, for the attempt of a number from 1 on; `max >> shift` is a quotient.
unfoldable pub base_delay : ℕ → ℤ → ℕ → ℕ
base_delay zero base max = let b = base_or_second base in if ltb max b then max else b
base_delay (suc shift) base max =
    let b = base_or_second base in
    let d = if ltb shift 32 && leb b (max / 2 ^ shift) then b * 2 ^ shift else max in
    if ltb max d then max else d

-- nextBackoff. The jitter is the product in float64.
unfoldable pub next_backoff : (ℕ → ℕ) → ℕ → ℤ → ℕ → ℕ
unfolding base_delay
next_backoff jitter attempt base max = jitter (base_delay attempt base max)

pow_pos : (s : ℕ) → 0 < 2 ^ s
pow_pos zero = omega arith
pow_pos (suc s) = omega (arith, pow_pos s, pow-suc 2 s)

-- The test before the shift says that the shifted base fits.
fits_iff : (b m s : ℕ) → (leb b (m / 2 ^ s) ≡ true) ↔ (b * 2 ^ s ≤ m)
fits_iff b m s =
    let q : (b ≤ m / 2 ^ s) ↔ (b * 2 ^ s ≤ m) = le-div_iff_mul-le (pow_pos s) in ground arith

-- The delay with the test and the product named.
capped :
    (short fits : Bool) (p max : ℕ)
    → (fits ≡ true) ↔ (p ≤ max)
    → (if ltb max (if short && fits then p else max)
        then max
        else (if short && fits then p else max))
      ≡ (if short then min p max else max)
capped short fits p max h = ground arith

-- Before the jitter: for the first 32 attempts the delay is the base, doubled at each attempt after the
-- first, and cut at the maximum; from the 33rd attempt on it is the maximum.
pub base_delay_lem :
    (shift : ℕ) (base : ℤ) (max : ℕ)
    → base_delay (suc shift) base max
      ≡ (if ltb shift 32 then min (base_or_second base * 2 ^ shift) max else max)
unfolding base_delay
base_delay_lem shift base max =
    let b = base_or_second base in
    capped (ltb shift 32) (leb b (max / 2 ^ shift)) (b * 2 ^ shift) max (fits_iff b max shift)

grows :
    (p q shift max : ℕ)
    → p ≤ q
    → ((if ltb shift 32 then min p max else max) ≤ (if ltb (suc shift) 32 then min q max else max))
      × ((if ltb (suc shift) 32 then min q max else max) ≤ max)
grows p q shift max h = ground arith

capped_first : (b max : ℕ) → (if ltb max b then max else b) ≡ min b max
capped_first b max = ground arith

doubled : (b s : ℕ) → b * 2 ^ s ≤ b * 2 ^ suc s
doubled b s = rw (pow-suc 2 s) (grind arith)

base_delay_first : (base : ℤ) (max : ℕ) → base_delay 0 base max ≡ min (base_or_second base) max
unfolding base_delay
base_delay_first base max = capped_first (base_or_second base) max

-- Before the jitter, no attempt waits less than the one before it, and none after the first more than
-- the maximum.
pub base_delay_monotone :
    (attempt : ℕ) (base : ℤ) (max : ℕ)
    → (base_delay attempt base max ≤ base_delay (suc attempt) base max)
      × (base_delay (suc attempt) base max ≤ max)
base_delay_monotone zero base max =
    rw (base_delay_lem 0 base max, base_delay_first base max) (omega arith)
base_delay_monotone (suc shift) base max =
    rw (base_delay_lem shift base max, base_delay_lem (suc shift) base max)
      (grows (base_or_second base * 2 ^ shift) (base_or_second base * 2 ^ suc shift) shift max
        (doubled (base_or_second base) shift))
