-- ===== src/Digest/Sha256/Tests.antt =====
-- Runs of SHA-256 on the strings of FIPS 180-2.
use obicall.Common.{arith, ◌≡◌, refl, [], ◌∷◌}
use obicall.Digest.Sha256.Incremental.{sha256_update-append}
use obicall.Digest.Sha256.{
  sha256, sha256_final, sha256_update, sha256_init, update_loop, pad_zeros, compress_full,
  sha256_compress, rounds, round, schedule, message_words, big_endian, rotr32,
}

sha256_abc :
    sha256 (0x61 ∷ 0x62 ∷ 0x63 ∷ [])
    ≡ 0xba ∷ 0x78 ∷ 0x16 ∷ 0xbf ∷ 0x8f ∷ 0x01 ∷ 0xcf ∷ 0xea ∷ 0x41 ∷ 0x41 ∷ 0x40 ∷ 0xde ∷ 0x5d
      ∷ 0xae ∷ 0x22 ∷ 0x23 ∷ 0xb0 ∷ 0x03 ∷ 0x61 ∷ 0xa3 ∷ 0x96 ∷ 0x17 ∷ 0x7a ∷ 0x9c ∷ 0xb4 ∷ 0x10
      ∷ 0xff ∷ 0x61 ∷ 0xf2 ∷ 0x00 ∷ 0x15 ∷ 0xad ∷ []
unfolding sha256 sha256_final sha256_update sha256_init update_loop pad_zeros compress_full
    sha256_compress rounds round schedule message_words big_endian rotr32
sha256_abc = refl

sha256_update-append_example :
    sha256_update (sha256_update sha256_init (0x61 ∷ [])) (0x62 ∷ 0x63 ∷ [])
    ≡ sha256_update sha256_init (0x61 ∷ 0x62 ∷ 0x63 ∷ [])
unfolding sha256_init
sha256_update-append_example =
    sha256_update-append sha256_init (0x61 ∷ []) (0x62 ∷ 0x63 ∷ []) (omega arith)
