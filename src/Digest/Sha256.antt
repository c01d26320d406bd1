-- ===== src/Digest/Sha256.antt =====
-- src/core/digest.c: the incremental SHA-256.
pub mod Incremental
pub mod Length
mod Tests
use obicall.Common.{
  ℕ, zero, suc, ◌+◌, ◌-◌, ◌*◌, ◌/◌, ◌%◌, ◌^◌, bit_and, bit_or, bit_xor, true, false, List, [], ◌∷◌,
  ◌++◌, ◌==◌, ltb, if◌then◌else◌, length, get_elem?, take, drop, none, some,
}

-- An element of an array; the indices below are all inside.
abbrev at : List ℕ → ℕ → ℕ
at xs i = elim (get_elem? xs i) [ none ↦ 0 | some x ↦ x ]

abbrev k_sha256_k : List ℕ
k_sha256_k =
    0x428a2f98 ∷ 0x71374491 ∷ 0xb5c0fbcf ∷ 0xe9b5dba5 ∷ 0x3956c25b ∷ 0x59f111f1 ∷ 0x923f82a4
    ∷ 0xab1c5ed5 ∷ 0xd807aa98 ∷ 0x12835b01 ∷ 0x243185be ∷ 0x550c7dc3 ∷ 0x72be5d74 ∷ 0x80deb1fe
    ∷ 0x9bdc06a7 ∷ 0xc19bf174 ∷ 0xe49b69c1 ∷ 0xefbe4786 ∷ 0x0fc19dc6 ∷ 0x240ca1cc ∷ 0x2de92c6f
    ∷ 0x4a7484aa ∷ 0x5cb0a9dc ∷ 0x76f988da ∷ 0x983e5152 ∷ 0xa831c66d ∷ 0xb00327c8 ∷ 0xbf597fc7
    ∷ 0xc6e00bf3 ∷ 0xd5a79147 ∷ 0x06ca6351 ∷ 0x14292967 ∷ 0x27b70a85 ∷ 0x2e1b2138 ∷ 0x4d2c6dfc
    ∷ 0x53380d13 ∷ 0x650a7354 ∷ 0x766a0abb ∷ 0x81c2c92e ∷ 0x92722c85 ∷ 0xa2bfe8a1 ∷ 0xa81a664b
    ∷ 0xc24b8b70 ∷ 0xc76c51a3 ∷ 0xd192e819 ∷ 0xd6990624 ∷ 0xf40e3585 ∷ 0x106aa070 ∷ 0x19a4c116
    ∷ 0x1e376c08 ∷ 0x2748774c ∷ 0x34b0bcb5 ∷ 0x391c0cb3 ∷ 0x4ed8aa4a ∷ 0x5b9cca4f ∷ 0x682e6ff3
    ∷ 0x748f82ee ∷ 0x78a5636f ∷ 0x84c87814 ∷ 0x8cc70208 ∷ 0x90befffa ∷ 0xa4506ceb ∷ 0xbef9a3f7
    ∷ 0xc67178f2 ∷ []

rotr32 : ℕ → ℕ → ℕ
rotr32 x n = bit_or (x / 2 ^ n) (x * 2 ^ (32 - n) % 2 ^ 32)

-- `w[0 .. 16)`: four bytes each, most significant first.
message_words : List ℕ → ℕ → List ℕ
message_words block zero = []
message_words block (suc n) =
    bit_or (bit_or (bit_or (at block 0 * 2 ^ 24) (at block 1 * 2 ^ 16)) (at block 2 * 2 ^ 8))
      (at block 3)
    ∷ message_words (drop 4 block) n

-- `w[i .. i + n)`, behind `w[0 .. i)`.
schedule : ℕ → ℕ → List ℕ → List ℕ
unfolding rotr32
schedule zero i w = w
schedule (suc n) i w =
    let s0 =
      bit_xor (bit_xor (rotr32 (at w (i - 15)) 7) (rotr32 (at w (i - 15)) 18))
        (at w (i - 15) / 2 ^ 3) in
    let s1 =
      bit_xor (bit_xor (rotr32 (at w (i - 2)) 17) (rotr32 (at w (i - 2)) 19))
        (at w (i - 2) / 2 ^ 10) in
    schedule n (suc i) (w ++ ((at w (i - 16) + s0 + at w (i - 7) + s1) % 2 ^ 32 ∷ []))

pub record Registers : Type 0 where
  pub a : ℕ
  pub b : ℕ
  pub c : ℕ
  pub d : ℕ
  pub e : ℕ
  pub f : ℕ
  pub g : ℕ
  pub h : ℕ

-- One of the 64 rounds, with `k_sha256_k[i]` and `w[i]`.
round : Registers → ℕ → ℕ → Registers
round r k w =
    let s1 = bit_xor (bit_xor (rotr32 r.e 6) (rotr32 r.e 11)) (rotr32 r.e 25) in
    let ch = bit_xor (bit_and r.e r.f) (bit_and (2 ^ 32 - 1 - r.e) r.g) in
    let temp1 = (r.h + s1 + ch + k + w) % 2 ^ 32 in
    let s0 = bit_xor (bit_xor (rotr32 r.a 2) (rotr32 r.a 13)) (rotr32 r.a 22) in
    let maj = bit_xor (bit_xor (bit_and r.a r.b) (bit_and r.a r.c)) (bit_and r.b r.c) in
    let temp2 = (s0 + maj) % 2 ^ 32 in
    record {
      a = (temp1 + temp2) % 2 ^ 32;
      b = r.a;
      c = r.b;
      d = r.c;
      e = (r.d + temp1) % 2 ^ 32;
      f = r.e;
      g = r.f;
      h = r.g;
    }

rounds : Registers → List ℕ → List ℕ → Registers
rounds r [] ws = r
rounds r (k ∷ ks) [] = r
rounds r (k ∷ ks) (w ∷ ws) = rounds (round r k w) ks ws

-- `state[i] += a`, and so on.
sha256_compress : Registers → List ℕ → Registers
sha256_compress state block =
    let r = rounds state k_sha256_k (schedule 48 16 (message_words block 16)) in
    record {
      a = (state.a + r.a) % 2 ^ 32;
      b = (state.b + r.b) % 2 ^ 32;
      c = (state.c + r.c) % 2 ^ 32;
      d = (state.d + r.d) % 2 ^ 32;
      e = (state.e + r.e) % 2 ^ 32;
      f = (state.f + r.f) % 2 ^ 32;
      g = (state.g + r.g) % 2 ^ 32;
      h = (state.h + r.h) % 2 ^ 32;
    }

-- `buffer` is `buffer[0 .. buffer_len)`.
pub record Sha256Ctx : Type 0 where
  pub state : Registers
  pub total_len : ℕ
  pub buffer : List ℕ

pub sha256_init : Sha256Ctx
sha256_init = record {
  state = record {
    a = 0x6a09e667;
    b = 0xbb67ae85;
    c = 0x3c6ef372;
    d = 0xa54ff53a;
    e = 0x510e527f;
    f = 0x9b05688c;
    g = 0x1f83d9ab;
    h = 0x5be0cd19;
  };
  total_len = 0;
  buffer = [];
}

-- `if (ctx->buffer_len == 64) { sha256_compress(...); ctx->buffer_len = 0; }`
compress_full : Sha256Ctx → Sha256Ctx
compress_full ctx = elim (length ctx.buffer == 64) [
  | true ↦ record ctx { state = sha256_compress ctx.state ctx.buffer; buffer = [] }
  | false ↦ ctx
]

-- The loop of `obicall_sha256_update`: every round takes a byte at least, so the length of the input is
-- fuel enough.
update_loop : ℕ → Sha256Ctx → List ℕ → Sha256Ctx
update_loop zero ctx input = ctx
update_loop (suc fuel) ctx [] = ctx
update_loop (suc fuel) ctx (d ∷ input) =
    let room = 64 - length ctx.buffer in
    let n = if ltb (length (d ∷ input)) room then length (d ∷ input) else room in
    update_loop fuel (compress_full (record ctx { buffer = ctx.buffer ++ take n (d ∷ input) }))
      (drop n (d ∷ input))

pub sha256_update : Sha256Ctx → List ℕ → Sha256Ctx
sha256_update ctx input =
    update_loop (length input) (record ctx { total_len = (ctx.total_len + length input) % 2 ^ 64 })
      input

-- `while (ctx->buffer_len != 56) obicall_sha256_update(ctx, &zero, 1);`
pad_zeros : ℕ → Sha256Ctx → Sha256Ctx
pad_zeros zero ctx = ctx
pad_zeros (suc fuel) ctx = elim (length ctx.buffer == 56) [
  | true ↦ ctx
  | false ↦ pad_zeros fuel (sha256_update ctx (0 ∷ []))
]

-- The bytes of an integer of `n` bytes, most significant first.
big_endian : ℕ → ℕ → List ℕ
big_endian zero v = []
big_endian (suc n) v = v / 2 ^ (8 * n) % 256 ∷ big_endian n v

pub sha256_final : Sha256Ctx → List ℕ
sha256_final ctx =
    let bit_len = ctx.total_len * 8 % 2 ^ 64 in
    let padded = pad_zeros 64 (sha256_update ctx (0x80 ∷ [])) in
    let s = sha256_compress padded.state (padded.buffer ++ big_endian 8 bit_len) in
    big_endian 4 s.a
    ++ big_endian 4 s.b
    ++ big_endian 4 s.c
    ++ big_endian 4 s.d
    ++ big_endian 4 s.e
    ++ big_endian 4 s.f
    ++ big_endian 4 s.g
    ++ big_endian 4 s.h

unfoldable pub sha256 : List ℕ → List ℕ
sha256 input = sha256_final (sha256_update sha256_init input)
