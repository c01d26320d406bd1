-- ===== src/Digest/Crc32.antt =====
-- src/core/digest.c: `obicall_crc32`.
mod Tests
use obicall.Common.{
  ℕ, zero, suc, ◌/◌, ◌^◌, ◌<◌, bit_and, bit_xor, List, [], ◌∷◌, ◌==◌, if◌then◌else◌, arith, All,
}
use obicall.Common.Bits.{bit_xor-lt, bit_and-lt}
use obicall.Cursor.Octets.{IsByte}

-- `c = (c & 1u) ? (0xEDB88320u ^ (c >> 1)) : (c >> 1)`
abbrev crc32_bit : ℕ → ℕ
crc32_bit c = if bit_and c 1 == 1 then bit_xor 0xEDB88320 (c / 2) else c / 2

abbrev crc32_bits : ℕ → ℕ → ℕ
crc32_bits zero c = c
crc32_bits (suc j) c = crc32_bits j (crc32_bit c)

crc32_table_entry : ℕ → ℕ
crc32_table_entry i = crc32_bits 8 i

-- The loop over the bytes, from the register `crc` on.
crc32_loop : ℕ → List ℕ → ℕ
crc32_loop crc [] = crc
crc32_loop crc (b ∷ bs) =
    crc32_loop (bit_xor (crc32_table_entry (bit_and (bit_xor crc b) 0xFF)) (crc / 2 ^ 8)) bs

unfoldable pub crc32 : List ℕ → ℕ
unfolding crc32_loop crc32_table_entry
crc32 input = bit_xor (crc32_loop 0xFFFFFFFF input) 0xFFFFFFFF

crc32_bit-lt : (c : ℕ) → c < 2 ^ 32 → crc32_bit c < 2 ^ 32
crc32_bit-lt c h = ground (arith, bit_xor-lt 32 0xEDB88320 (c / 2) (omega arith) (omega arith))

crc32_bits-lt : (j c : ℕ) → c < 2 ^ 32 → crc32_bits j c < 2 ^ 32
crc32_bits-lt zero c h = h
crc32_bits-lt (suc j) c h = crc32_bits-lt j (crc32_bit c) (crc32_bit-lt c h)

crc32_table_entry-lt : (i : ℕ) → i < 2 ^ 32 → crc32_table_entry i < 2 ^ 32
unfolding crc32_table_entry
crc32_table_entry-lt i h = crc32_bits-lt 8 i h

crc32_loop-lt : (bs : List ℕ) (crc : ℕ) → crc < 2 ^ 32 → All IsByte bs → crc32_loop crc bs < 2 ^ 32
unfolding crc32_loop
crc32_loop-lt [] crc h all = h
crc32_loop-lt (b ∷ bs) crc h (byte, all) =
    crc32_loop-lt bs _
      (bit_xor-lt 32 _ _
        (crc32_table_entry-lt (bit_and (bit_xor crc b) 0xFF)
          (omega (arith, bit_and-lt 8 (bit_xor crc b) 0xFF (omega arith))))
        (omega arith))
      all

-- The checksum of some bytes is a 32-bit number.
pub crc32-lt : (bs : List ℕ) → All IsByte bs → crc32 bs < 2 ^ 32
unfolding crc32
crc32-lt bs all =
    bit_xor-lt 32 _ 0xFFFFFFFF (crc32_loop-lt bs 0xFFFFFFFF (omega arith) all) (omega arith)
