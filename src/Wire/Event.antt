-- ===== src/Wire/Event.antt =====
-- include/obicall/event.h and src/core/wire.c: events, with a payload of any length, and their codec.
pub mod RoundTrip
mod Tests
use obicall.Common.{ℕ, List, [], ◌∷◌, ltb, if◌then◌else◌, length, ℤ, to_unsigned}
use obicall.Cursor.Octets.{octets}
use obicall.Cursor.Write.{Writer, wc_u32, wc_i64, wc_bytes, encode_with}
use obicall.Cursor.Read.{
  Reader, ◌>>=◌, ◌>>◌, pure, rc_u32, rc_i64, rc_bytes, rc_check, rc_fail_if, decode_with,
}
use obicall.Cursor.Writes.{fields}
use obicall.Status.{Result, ok, err, wire_too_large, buffer_too_small}
use obicall.Wire.Header.{wire_max_payload}

-- `sizeof(obicall_event_t)` with 8-byte pointers.
abbrev pub sizeof_event : ℕ
sizeof_event = 40

-- `payload` is `payload.data[0 .. payload.len)`.
pub record Event : Type 0 where
  pub struct_size : ℕ
  pub schema_version : ℕ
  pub event_type : ℕ
  pub reserved : ℕ
  pub timestamp_ns : ℤ
  pub payload : List ℕ

pub event_writers : Event → List Writer
event_writers e =
    wc_u32 e.struct_size
    ∷ wc_u32 e.schema_version
    ∷ wc_u32 e.event_type
    ∷ wc_u32 e.reserved
    ∷ wc_i64 e.timestamp_ns
    ∷ wc_u32 (length e.payload)
    ∷ wc_bytes e.payload
    ∷ []

-- A payload of no bytes is written too, which changes nothing.
pub encode_event : Event → ℕ → Result (List ℕ)
encode_event e out_cap =
    if ltb wire_max_payload (length e.payload)
    then err wire_too_large
    else encode_with buffer_too_small out_cap (event_writers e)

-- `payload_storage_cap`, which is 0 for no storage. No bytes are read if the payload has none.
pub event_reader : ℕ → Reader Event
event_reader storage_cap = do
  struct_size ← rc_u32
  schema_version ← rc_u32
  event_type ← rc_u32
  reserved ← rc_u32
  timestamp_ns ← rc_i64
  payload_len ← rc_u32
  rc_check (ltb wire_max_payload payload_len)
  rc_fail_if (ltb storage_cap payload_len) buffer_too_small
  payload ← rc_bytes payload_len
  pure (record {
    struct_size = sizeof_event;
    schema_version = schema_version;
    event_type = event_type;
    reserved = reserved;
    timestamp_ns = timestamp_ns;
    payload = payload;
  })

pub decode_event : ℕ → List ℕ → Result Event
decode_event storage_cap input = decode_with (event_reader storage_cap) input

-- The wire format.
pub event_layout : Event → List ℕ
event_layout e = fields (
    octets 4 e.struct_size
    ∷ octets 4 e.schema_version
    ∷ octets 4 e.event_type
    ∷ octets 4 e.reserved
    ∷ octets 8 (to_unsigned 63 e.timestamp_ns)
    ∷ octets 4 (length e.payload)
    ∷ e.payload
    ∷ [])
