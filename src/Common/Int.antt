-- ===== src/Common/Int.antt =====
-- Signed integers over the native numbers: the values of an `int64_t` or an `int32_t`.
use Prim.Native.Nat.{ℕ, suc, ◌+◌, ◌-◌, ◌^◌, ◌≤◌, ◌<◌}
use mathlib.Core.Path.{◌≡◌}
use mathlib.Core.Bool.{Bool}
use native.Mathlib.Omega.{arith}
use obicall.Common.Tests.{ltb, leb, if◌then◌else◌}

-- `negsuc n` is -(n + 1).
pub data ℤ : Type 0 where
  pos : ℕ → ℤ
  negsuc : ℕ → ℤ

abbrev pub pos_part : ℤ → ℕ
pos_part (pos n) = n
pos_part (negsuc n) = 0

abbrev pub neg_part : ℤ → ℕ
neg_part (pos n) = 0
neg_part (negsuc n) = suc n

abbrev sub_ℕ : ℕ → ℕ → ℤ
sub_ℕ a b = if leb b a then pos (a - b) else negsuc (b - a - 1)

infixl 65 ◌-ℤ◌
infix 50 ◌≤ℤ◌ ◌<ℤ◌
unfoldable pub ◌-ℤ◌ : ℤ → ℤ → ℤ
a -ℤ b = sub_ℕ (pos_part a + neg_part b) (neg_part a + pos_part b)

abbrev pub ◌≤ℤ◌ : ℤ → ℤ → Type 0
a ≤ℤ b = pos_part a + neg_part b ≤ pos_part b + neg_part a

abbrev pub ◌<ℤ◌ : ℤ → ℤ → Type 0
a <ℤ b = pos_part a + neg_part b < pos_part b + neg_part a

abbrev pub ltb_ℤ : ℤ → ℤ → Bool
ltb_ℤ a b = ltb (pos_part a + neg_part b) (pos_part b + neg_part a)

abbrev pub leb_ℤ : ℤ → ℤ → Bool
leb_ℤ a b = leb (pos_part a + neg_part b) (pos_part b + neg_part a)

-- The range of a signed integer of `w + 1` bits.
abbrev pub IsSigned : ℕ → ℤ → Type 0
IsSigned w v = (pos_part v < 2 ^ w) × (neg_part v ≤ 2 ^ w)

-- The casts between `int64_t` and `uint64_t`, and between `int32_t` and `uint32_t`.
unfoldable pub to_unsigned : ℕ → ℤ → ℕ
to_unsigned w (pos n) = n
to_unsigned w (negsuc n) = 2 ^ (suc w) - suc n

unfoldable pub of_unsigned : ℕ → ℕ → ℤ
of_unsigned w n = if ltb n (2 ^ w) then pos n else negsuc (2 ^ (suc w) - n - 1)

pub of_unsigned-to_unsigned :
    (v : ℤ)
    → (IsSigned 63 v → of_unsigned 63 (to_unsigned 63 v) ≡ v)
      × (IsSigned 31 v → of_unsigned 31 (to_unsigned 31 v) ≡ v)
unfolding of_unsigned to_unsigned
of_unsigned-to_unsigned (pos n) = (λ h. ground arith, λ h. ground arith)
of_unsigned-to_unsigned (negsuc n) = (λ h. ground arith, λ h. ground arith)
