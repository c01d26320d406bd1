-- ===== src/Digest/Sha256/Length.antt =====
-- src/core/digest.c: a SHA-256 digest is 32 bytes.
use obicall.Common.{
  ℕ, zero, suc, ◌+◌, ◌≡◌, refl, ap, List, ◌++◌, arith, length, length-append, All, All-append,
}
use obicall.Cursor.Octets.{IsByte}
use obicall.Digest.Sha256.{Sha256Ctx, big_endian, sha256_final}

-- A list of `n` bytes.
abbrev pub Bytes : ℕ → List ℕ → Type 0
Bytes n bs = (length bs ≡ n) × All IsByte bs

big_endian-Bytes : (n v : ℕ) → Bytes n (big_endian n v)
unfolding big_endian
big_endian-Bytes zero v = (refl, tt)
big_endian-Bytes (suc n) v =
    let (size, bytes) = big_endian-Bytes n v in (ap suc size, (omega arith, bytes))

Bytes-append : (m n : ℕ) (xs ys : List ℕ) → Bytes m xs → Bytes n ys → Bytes (m + n) (xs ++ ys)
Bytes-append m n xs ys (sx, bx) (sy, by) =
    (omega (arith, length-append xs ys), All-append IsByte xs ys bx by)

pub sha256_final-Bytes : (ctx : Sha256Ctx) → Bytes 32 (sha256_final ctx)
unfolding sha256_final
sha256_final-Bytes ctx =
    Bytes-append 28 4 _ _
      (Bytes-append 24 4 _ _
        (Bytes-append 20 4 _ _
          (Bytes-append 16 4 _ _
            (Bytes-append 12 4 _ _
              (Bytes-append 8 4 _ _
                (Bytes-append 4 4 _ _ (big_endian-Bytes 4 _) (big_endian-Bytes 4 _))
                (big_endian-Bytes 4 _))
              (big_endian-Bytes 4 _))
            (big_endian-Bytes 4 _))
          (big_endian-Bytes 4 _))
        (big_endian-Bytes 4 _))
      (big_endian-Bytes 4 _)
