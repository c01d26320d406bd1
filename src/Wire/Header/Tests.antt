-- ===== src/Wire/Header/Tests.antt =====
-- Runs of the header codec.
use obicall.Common.{◌≡◌, arith, length}
use obicall.Status.{ok, err, wire_too_large}
use obicall.Wire.Header.{
  WireHeader, encode_header, decode_header, header_layout, decode-encode_header,
}

abbrev large : WireHeader
large = record { version = 1; msg_type = 4; flags = 0; payload_len = 2097152; crc32 = 0xCBF43926 }

decode-encode_header_example :
    (encode_header large ≡ ok (header_layout large))
    × (length (header_layout large) ≡ 16)
    × (decode_header (header_layout large) ≡ err wire_too_large)
decode-encode_header_example = decode-encode_header large (record {
  version_word = omega arith;
  msg_type_word = omega arith;
  flags_word = omega arith;
  payload_len_word = omega arith;
  crc32_word = omega arith;
})
