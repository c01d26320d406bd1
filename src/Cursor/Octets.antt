-- ===== src/Cursor/Octets.antt =====
-- The bytes of an integer, least significant first, and the integer of some bytes.
use obicall.Common.{
  ℕ, zero, suc, ◌+◌, ◌*◌, ◌/◌, ◌%◌, ◌^◌, ◌<◌, bit_or, ◌≡◌, refl, ap, ◌∙◌, List, [], ◌∷◌, arith,
  length, All,
}
use native.Mathlib.Nat.{mod-eq_of_lt}
use obicall.Common.Bits.{bit_or_disjoint}

abbrev pub IsByte : ℕ → Type 0
IsByte b = b < 256

-- `(uint8_t)(v >> (8 * i))`
abbrev pub octet : ℕ → ℕ → ℕ
octet v i = v / 2 ^ (8 * i) % 256

-- `for (i = 0; i < n; ++i) b[i] = (uint8_t)(v >> (8 * i))`, from the index `i` on.
abbrev pub octets_from : ℕ → ℕ → ℕ → List ℕ
octets_from i zero v = []
octets_from i (suc n) v = octet v i ∷ octets_from (suc i) n v

unfoldable pub octets : ℕ → ℕ → List ℕ
octets n v = octets_from 0 n v

-- `for (i = 0; i < n; ++i) v |= b[i] << (8 * i)`, from the index `i` on.
abbrev pub join_from : ℕ → ℕ → List ℕ → ℕ
join_from i v [] = v
join_from i v (b ∷ bs) = join_from (suc i) (bit_or v (b * 2 ^ (8 * i))) bs

unfoldable pub join : List ℕ → ℕ
join bs = join_from 0 0 bs

join_one :
    (i v : ℕ) → i < 8 → bit_or (v % 2 ^ (8 * i)) (octet v i * 2 ^ (8 * i)) ≡ v % 2 ^ (8 * suc i)
join_one zero v h = omega (arith, bit_or_disjoint 0 (v % 1) (octet v 0))
join_one (suc zero) v h = omega (arith, bit_or_disjoint 8 (v % 2 ^ 8) (octet v 1))
join_one (suc (suc zero)) v h = omega (arith, bit_or_disjoint 16 (v % 2 ^ 16) (octet v 2))
join_one (suc (suc (suc zero))) v h = omega (arith, bit_or_disjoint 24 (v % 2 ^ 24) (octet v 3))
join_one (suc (suc (suc (suc zero)))) v h =
    omega (arith, bit_or_disjoint 32 (v % 2 ^ 32) (octet v 4))
join_one (suc (suc (suc (suc (suc zero))))) v h =
    omega (arith, bit_or_disjoint 40 (v % 2 ^ 40) (octet v 5))
join_one (suc (suc (suc (suc (suc (suc zero)))))) v h =
    omega (arith, bit_or_disjoint 48 (v % 2 ^ 48) (octet v 6))
join_one (suc (suc (suc (suc (suc (suc (suc zero))))))) v h =
    omega (arith, bit_or_disjoint 56 (v % 2 ^ 56) (octet v 7))
join_one (suc (suc (suc (suc (suc (suc (suc (suc i)))))))) v h = absurd (omega arith)

join_from-octets_from :
    (n i v : ℕ)
    → i + n < 9
    → join_from i (v % 2 ^ (8 * i)) (octets_from i n v) ≡ v % 2 ^ (8 * (i + n))
join_from-octets_from zero i v h = ground arith
join_from-octets_from (suc n) i v h =
    ap (λ (t : ℕ). join_from (suc i) t (octets_from (suc i) n v)) (join_one i v (omega arith))
    ∙ join_from-octets_from n (suc i) v (omega arith)
    ∙ ap (λ (t : ℕ). v % 2 ^ (8 * t)) (omega arith)

-- An integer of `n` bytes is read back from its bytes.
pub join-octets : (n v : ℕ) → n < 9 → v < 2 ^ (8 * n) → join (octets n v) ≡ v
unfolding join octets
join-octets n v h fits =
    ap (λ (t : ℕ). join_from 0 t (octets_from 0 n v)) (omega arith)
    ∙ join_from-octets_from n 0 v (omega arith)
    ∙ ap (λ (t : ℕ). v % 2 ^ (8 * t)) (omega arith)
    ∙ mod-eq_of_lt fits

pub length-octets : (n v : ℕ) → length (octets n v) ≡ n
unfolding octets
length-octets n v = from_index 0 n
  where
    from_index : (i k : ℕ) → length (octets_from i k v) ≡ k
    from_index i zero = refl
    from_index i (suc k) = omega (arith, from_index (suc i) k)

pub octets-IsByte : (n v : ℕ) → All IsByte (octets n v)
unfolding octets
octets-IsByte n v = from_index 0 n
  where
    from_index : (i k : ℕ) → All IsByte (octets_from i k v)
    from_index i zero = tt
    from_index i (suc k) = (omega arith, from_index (suc i) k)
