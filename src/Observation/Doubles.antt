-- ===== src/Observation/Doubles.antt =====
-- Doubles as bit patterns: the tests that C computes exactly, and the arithmetic as a parameter.
use obicall.Common.{
  ℕ, zero, suc, ◌+◌, ◌-◌, ◌/◌, ◌%◌, ◌^◌, Bool, true, false, ◌≡◌, arith, not, ◌&&◌, ◌||◌, ltb, ◌==◌,
  if◌then◌else◌, ℤ, pos, negsuc, ltb_ℤ,
}

-- The rounding operations of the hardware and of the C library.
pub record Arithmetic : Type 0 where
  pub add : ℕ → ℕ → ℕ
  pub sub : ℕ → ℕ → ℕ
  pub mul : ℕ → ℕ → ℕ
  pub div : ℕ → ℕ → ℕ
  pub sqrt : ℕ → ℕ

-- `isfinite`: the exponent is not all ones.
abbrev pub is_finite : ℕ → Bool
is_finite x = not (x / 2 ^ 52 % 2 ^ 11 == 2047)

abbrev pub fabs : ℕ → ℕ
fabs x = x % 2 ^ 63

abbrev pub negate : ℕ → ℕ
negate x = (x + 2 ^ 63) % 2 ^ 64

abbrev pub is_nan : ℕ → Bool
is_nan x = ltb 0x7FF0000000000000 (fabs x)

abbrev negative : ℕ → ℤ
negative zero = pos 0
negative (suc n) = negsuc n

-- The place of a pattern in the order of the doubles that are numbers.
abbrev pub rank : ℕ → ℤ
rank x = if ltb x (2 ^ 63) then pos x else negative (x - 2 ^ 63)

-- `a < b`
unfoldable pub f64_lt : ℕ → ℕ → Bool
f64_lt a b = if is_nan a || is_nan b then false else ltb_ℤ (rank a) (rank b)

-- `a == b`
unfoldable pub f64_eq : ℕ → ℕ → Bool
f64_eq a b = not (is_nan a || is_nan b) && not (f64_lt a b || f64_lt b a)

pub f64_lt_asymm : (a b : ℕ) → f64_lt a b ≡ true → f64_lt b a ≡ false
unfolding f64_lt
f64_lt_asymm a b h = ground arith
