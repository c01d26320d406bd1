-- ===== src/Wire/Event/Tests.antt =====
-- Runs of the event codec.
use obicall.Common.{ℕ, ◌≡◌, refl, List, [], ◌∷◌, ◌++◌, arith, pos}
use obicall.Cursor.Octets.{octets}
use obicall.Cursor.Write.{wc_u32, wc_i64, wc_u64, wc_bytes, block, encode_with, encoded}
use obicall.Cursor.Writes.{fields}
use obicall.Status.{ok}
use obicall.Wire.Event.{
  Event, event_writers, encode_event, decode_event, event_layout, sizeof_event,
}
use obicall.Wire.Event.RoundTrip.{IsEvent, decode-encode_event}

abbrev notice : Event
notice = record {
  struct_size = 40;
  schema_version = 1;
  event_type = 3;
  reserved = 0;
  timestamp_ns = pos 12;
  payload = 1 ∷ 2 ∷ 3 ∷ [];
}

notice-IsEvent : IsEvent notice
notice-IsEvent = record {
  struct_size_word = omega arith;
  schema_version_word = omega arith;
  event_type_word = omega arith;
  reserved_word = omega arith;
  timestamp_word = (omega arith, omega arith);
}

abbrev frame : List ℕ
frame = event_layout notice

notice-done : encode_event notice 64 ≡ ok frame
unfolding encode_event event_writers event_layout encode_with encoded block wc_u32 wc_i64 wc_u64
    wc_bytes octets fields
notice-done = refl

decode-encode_event_example :
    decode_event 8 (frame ++ (7 ∷ [])) ≡ ok (record notice { struct_size = sizeof_event })
unfolding event_layout fields octets
decode-encode_event_example =
    decode-encode_event notice 64 8 notice-IsEvent (omega arith) (omega arith) frame notice-done
      (7 ∷ []) (omega arith)
