-- ===== src/Wire/Header.antt =====
-- include/obicall/wire.h and src/core/wire.c: the header in front of every frame's payload.
mod Tests
use obicall.Common.{
  ℕ, ◌^◌, ◌<◌, ◌≡◌, refl, sym, ap, ◌∙◌, not, ◌||◌, List, [], ◌∷◌, ◌++◌, append-nil, arith, ltb, leb,
  ◌==◌, if◌then◌else◌, length,
}
use obicall.Cursor.Octets.{octets}
use obicall.Cursor.Write.{Writer, wc_u8, wc_u16, wc_u32, block, encode_with}
use obicall.Cursor.Read.{Reader, ◌>>=◌, ◌>>◌, pure, rc_u8, rc_u16, rc_u32, rc_check, decode_with}
use obicall.Cursor.Writes.{Writes, fields, writes_rules, encode_with-Writes}
use obicall.Cursor.Reads.{Reads}
use obicall.Cursor.Codec.{
  IsWord, Reads-field, Reads-guard, Reads-end, Reads-u8, Reads-u16, Reads-u32, sticky_rules,
  decode_with-whole,
}
use obicall.Status.{Result, ok, err, wire_malformed, wire_version_unsupported, wire_too_large}

abbrev pub wire_header_len : ℕ
wire_header_len = 16

abbrev pub wire_magic0 : ℕ
wire_magic0 = 0x4F

abbrev pub wire_magic1 : ℕ
wire_magic1 = 0x42

abbrev pub wire_magic2 : ℕ
wire_magic2 = 0x57

abbrev pub wire_magic3 : ℕ
wire_magic3 = 0x46

abbrev pub wire_version : ℕ
wire_version = 1

abbrev pub wire_max_payload : ℕ
wire_max_payload = 1048576

pub record WireHeader : Type 0 where
  pub version : ℕ
  pub msg_type : ℕ
  pub flags : ℕ
  pub payload_len : ℕ
  pub crc32 : ℕ

-- Every field holds a value of its C type.
pub record IsWireHeader (h : WireHeader) : Type 0 where
  pub version_word : IsWord 8 h.version
  pub msg_type_word : IsWord 8 h.msg_type
  pub flags_word : IsWord 16 h.flags
  pub payload_len_word : IsWord 32 h.payload_len
  pub crc32_word : IsWord 32 h.crc32

pub header_writers : WireHeader → List Writer
header_writers h =
    wc_u8 wire_magic0
    ∷ wc_u8 wire_magic1
    ∷ wc_u8 wire_magic2
    ∷ wc_u8 wire_magic3
    ∷ wc_u8 h.version
    ∷ wc_u8 h.msg_type
    ∷ wc_u16 h.flags
    ∷ wc_u32 h.payload_len
    ∷ wc_u32 h.crc32
    ∷ []

-- `out` is an array of `OBICALL_WIRE_HEADER_LEN` bytes.
unfoldable pub encode_header : WireHeader → Result (List ℕ)
encode_header h = encode_with wire_malformed wire_header_len (header_writers h)

pub header_reader : Reader WireHeader
header_reader = do
  m0 ← rc_u8
  m1 ← rc_u8
  m2 ← rc_u8
  m3 ← rc_u8
  rc_check (
      not (m0 == wire_magic0)
      || not (m1 == wire_magic1)
      || not (m2 == wire_magic2)
      || not (m3 == wire_magic3))
  version ← rc_u8
  msg_type ← rc_u8
  flags ← rc_u16
  payload_len ← rc_u32
  crc32 ← rc_u32
  pure (record {
    version = version;
    msg_type = msg_type;
    flags = flags;
    payload_len = payload_len;
    crc32 = crc32;
  })

-- The checks on a header that was read.
abbrev pub accept_header : Result WireHeader → Result WireHeader
accept_header (err e) = err e
accept_header (ok h) =
    if not (h.version == wire_version)
    then err wire_version_unsupported
    else if ltb wire_max_payload h.payload_len
    then err wire_too_large
    else ok h

unfoldable pub decode_header : List ℕ → Result WireHeader
decode_header input = accept_header (decode_with header_reader input)

-- The wire format of a header.
pub header_layout : WireHeader → List ℕ
header_layout h = fields (
    octets 1 wire_magic0
    ∷ octets 1 wire_magic1
    ∷ octets 1 wire_magic2
    ∷ octets 1 wire_magic3
    ∷ octets 1 h.version
    ∷ octets 1 h.msg_type
    ∷ octets 2 h.flags
    ∷ octets 4 h.payload_len
    ∷ octets 4 h.crc32
    ∷ [])

header_writers-Writes : (h : WireHeader) → Writes (block (header_writers h)) (header_layout h)
unfolding header_writers header_layout
header_writers-Writes h = search writes_rules depth 40

header_reader-Reads : (h : WireHeader) → IsWireHeader h → Reads header_reader (header_layout h) h
unfolding header_reader header_layout
header_reader-Reads h v =
    Reads-field _ (Reads-u8 wire_magic0 (omega arith)) (search sticky_rules depth 60 fits 20000) (
      Reads-field _ (Reads-u8 wire_magic1 (omega arith)) (search sticky_rules depth 60 fits 20000) (
        Reads-field _ (Reads-u8 wire_magic2 (omega arith)) (search sticky_rules depth 60 fits 20000)
          (Reads-field _ (Reads-u8 wire_magic3 (omega arith))
            (search sticky_rules depth 60 fits 20000)
            (Reads-guard _ refl (search sticky_rules depth 60 fits 20000) (
              Reads-field _ (Reads-u8 _ v.version_word) (search sticky_rules depth 60 fits 20000) (
                Reads-field _ (Reads-u8 _ v.msg_type_word) (search sticky_rules depth 60 fits 20000)
                  (Reads-field _ (Reads-u16 _ v.flags_word)
                    (search sticky_rules depth 60 fits 20000)
                    (Reads-field _ (Reads-u32 _ v.payload_len_word)
                      (search sticky_rules depth 60 fits 20000)
                      (Reads-field _ (Reads-u32 _ v.crc32_word)
                        (search sticky_rules depth 60 fits 20000) (Reads-end _))))))))))

length-header_layout : (h : WireHeader) → length (header_layout h) ≡ wire_header_len
unfolding header_layout octets fields
length-header_layout h = refl

accept_header_cases :
    (h : WireHeader)
    → accept_header (ok h) ≡ (
        if h.version == 1
        then (if leb h.payload_len 1048576 then ok h else err wire_too_large)
        else err wire_version_unsupported)
accept_header_cases h = ground arith

-- Encoding a header always succeeds. Decoding its 16 bytes gives the header back if its version is 1 and its payload
-- has at most 1048576 bytes. A header of another version is refused as unsupported, whatever its payload, and one
-- of version 1 with a longer payload as too large.
pub decode-encode_header :
    (h : WireHeader)
    → IsWireHeader h
    → (encode_header h ≡ ok (header_layout h))
      × (length (header_layout h) ≡ 16)
      × (decode_header (header_layout h) ≡ (
          if h.version == 1
          then (if leb h.payload_len 1048576 then ok h else err wire_too_large)
          else err wire_version_unsupported))
unfolding encode_header decode_header
decode-encode_header h v = (
  encode_with-Writes wire_malformed wire_header_len _ _ (header_writers-Writes h) (omega arith)
      ∙ ap (λ (n : ℕ). if leb n wire_header_len then ok (header_layout h) else err wire_malformed)
          (length-header_layout h),
  length-header_layout h,
  ap accept_header (
        decode_with-whole header_reader (header_layout h) h (header_reader-Reads h v)
          (omega (arith, length-header_layout h)))
      ∙ accept_header_cases h,
)
