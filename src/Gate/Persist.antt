-- ===== src/Gate/Persist.antt =====
-- src/core/gate.c: the checksummed record that holds the gate's state on disk.
use obicall.Common.{
  ℕ, not, ◌&&◌, ◌||◌, List, [], ◌∷◌, ◌++◌, ltb, ◌==◌, if◌then◌else◌, length, take, drop,
}
use obicall.Common.Device.{Device}
use obicall.Cursor.Octets.{octets}
use obicall.Cursor.Write.{Writer, wc_u32, encode_with}
use obicall.Cursor.Read.{Reader, ◌>>=◌, ◌>>◌, pure, rc_u32, rc_check, decode_with}
use obicall.Cursor.Writes.{fields}
use obicall.Digest.Crc32.{crc32}
use obicall.Gate.State.{GateState}
use obicall.Gate.Codec.{encode_state, decode_state}
use obicall.Status.{Result, ok, err, wire_malformed, wire_checksum, internal, gate_persistence}

abbrev pub persist_magic : ℕ
persist_magic = 0x4F424754

abbrev pub persist_header_len : ℕ
persist_header_len = 16

abbrev pub persist_max_payload : ℕ
persist_max_payload = 8192

unfoldable pub persist_writers : ℕ → ℕ → List Writer
persist_writers payload_len crc =
    wc_u32 persist_magic ∷ wc_u32 payload_len ∷ wc_u32 crc ∷ wc_u32 0 ∷ []

-- The writes to the file, in order: what they leave in it, if all succeed.
abbrev pub write_record : Device → List ℕ → Result (List ℕ) → Result (List ℕ)
write_record device payload (err e) = err internal
write_record device payload (ok hdr) =
    if not device.header_written
    then err gate_persistence
    else if ltb 0 (length payload) && not device.payload_written
    then err gate_persistence
    else if not device.flushed
    then err gate_persistence
    else if not device.synced
    then err gate_persistence
    else ok (hdr ++ payload)

abbrev pub persist_payload : Device → Result (List ℕ) → Result (List ℕ)
persist_payload device (err e) = err e
persist_payload device (ok payload) =
    write_record device payload
      (encode_with internal persist_header_len (persist_writers (length payload) (crc32 payload)))

-- The content of the file, which was empty before.
unfoldable pub persist_state : Device → GateState → Result (List ℕ)
persist_state device s = persist_payload device (encode_state s persist_max_payload)

-- The payload's length and checksum from the record's header.
unfoldable pub persist_reader : Reader (ℕ × ℕ)
persist_reader = do
  magic ← rc_u32
  payload_len ← rc_u32
  crc ← rc_u32
  reserved ← rc_u32
  rc_check (not (magic == persist_magic) || ltb persist_max_payload payload_len)
  pure (payload_len, crc)

abbrev pub load_payload : List ℕ → Result (ℕ × ℕ) → Result GateState
load_payload rest (err e) = err e
load_payload rest (ok (payload_len, crc)) =
    if ltb (length rest) payload_len
    then err wire_malformed
    else if not (crc32 (take payload_len rest) == crc)
    then err wire_checksum
    else decode_state (take payload_len rest)

-- `file` is what the file holds from its position on; `fread` is short where it ends.
unfoldable pub load_state : List ℕ → Result GateState
load_state file =
    if ltb (length file) persist_header_len
    then err wire_malformed
    else load_payload (drop persist_header_len file)
        (decode_with persist_reader (take persist_header_len file))

unfoldable pub persist_layout : ℕ → ℕ → List ℕ
persist_layout payload_len crc =
    fields (octets 4 persist_magic ∷ octets 4 payload_len ∷ octets 4 crc ∷ octets 4 0 ∷ [])
