-- ===== src/Wire/Event/RoundTrip.antt =====
-- The event codec: decoding an encoded event.
use obicall.Common.{
  ℕ, ◌^◌, ◌≤◌, ◌<◌, ◌≡◌, refl, false, List, ◌∷◌, ◌++◌, arith, ltb, length, IsSigned,
}
use obicall.Cursor.Write.{block, encode_with}
use obicall.Cursor.Writes.{Writes, writes_rules}
use obicall.Cursor.Reads.{Reads, Reads-bytes}
use obicall.Cursor.Codec.{IsWord, Reads-field, Reads-end, Reads-u32, Reads-i64, sticky_rules}
use obicall.Cursor.Guards.{IsSticky-check_then, Reads-check_then, Reads-fail_if}
use obicall.Cursor.RoundTrip
use obicall.Status.{ok, err, wire_malformed, buffer_too_small}
use obicall.Wire.Event.{
  Event, event_writers, encode_event, event_reader, decode_event, event_layout, sizeof_event,
}
use obicall.Wire.Header.{wire_max_payload}

-- Every field holds a value of its C type.
pub record IsEvent (e : Event) : Type 0 where
  pub struct_size_word : IsWord 32 e.struct_size
  pub schema_version_word : IsWord 32 e.schema_version
  pub event_type_word : IsWord 32 e.event_type
  pub reserved_word : IsWord 32 e.reserved
  pub timestamp_word : IsSigned 63 e.timestamp_ns

event_writers-Writes : (e : Event) → Writes (block (event_writers e)) (event_layout e)
unfolding event_writers event_layout
event_writers-Writes e = search writes_rules depth 40

event_reader-Reads :
    (e : Event) (storage_cap : ℕ)
    → IsEvent e
    → ltb wire_max_payload (length e.payload) ≡ false
    → length e.payload ≤ storage_cap
    → Reads (event_reader storage_cap) (event_layout e) (record e { struct_size = sizeof_event })
unfolding event_reader event_layout
event_reader-Reads e storage_cap v small room =
    Reads-field _ (Reads-u32 _ v.struct_size_word)
      (search (sticky_rules, IsSticky-check_then) depth 60 fits 20000)
      (Reads-field _ (Reads-u32 _ v.schema_version_word)
        (search (sticky_rules, IsSticky-check_then) depth 60 fits 20000)
        (Reads-field _ (Reads-u32 _ v.event_type_word)
          (search (sticky_rules, IsSticky-check_then) depth 60 fits 20000)
          (Reads-field _ (Reads-u32 _ v.reserved_word)
            (search (sticky_rules, IsSticky-check_then) depth 60 fits 20000)
            (Reads-field _ (Reads-i64 _ v.timestamp_word)
              (search (sticky_rules, IsSticky-check_then) depth 60 fits 20000)
              (Reads-field _ (Reads-u32 _ (ground arith))
                (search (sticky_rules, IsSticky-check_then) depth 60 fits 20000)
                (Reads-check_then _ _ _ _ small (
                  Reads-fail_if _ _ _ _ _ (ground arith) (
                    Reads-field _ (Reads-bytes _ _ refl)
                      (search (sticky_rules, IsSticky-check_then) depth 60 fits 20000)
                      (Reads-end _)))))))))

encode_event-ok :
    (e : Event) (out_cap : ℕ) (bs : List ℕ)
    → encode_event e out_cap ≡ ok bs
    → (ltb wire_max_payload (length e.payload) ≡ false)
      × (encode_with buffer_too_small out_cap (event_writers e) ≡ ok bs)
unfolding encode_event
encode_event-ok e out_cap bs done = ground arith

module _ (e : Event) (out_cap storage_cap : ℕ) (v : IsEvent e) (word : out_cap < 2 ^ 32)
    (room : length e.payload ≤ storage_cap) (bs : List ℕ)
    (done : encode_event e out_cap ≡ ok bs) where
  -- Decoding an encoded event gives it back, with this host's struct size, if the storage has room for
  -- its payload.
  pub decode-encode_event :
      (post : List ℕ)
      → length (bs ++ post) < 2 ^ 32
      → decode_event storage_cap (bs ++ post) ≡ ok (record e { struct_size = sizeof_event })
  unfolding decode_event
  decode-encode_event post h =
      let (small, plain) = encode_event-ok e out_cap bs done in
      RoundTrip.decode-encode _ out_cap _ _ _ _ (event_writers-Writes e)
        (event_reader-Reads e storage_cap v small room) word bs plain post h

  -- Every proper prefix of an encoded event is refused as malformed.
  pub decode_event_cut :
      (s t : List ℕ) (x : ℕ) → bs ≡ s ++ (x ∷ t) → decode_event storage_cap s ≡ err wire_malformed
  unfolding decode_event
  decode_event_cut s t x cut =
      let (small, plain) = encode_event-ok e out_cap bs done in
      RoundTrip.decode_cut _ out_cap _ _ _ _ (event_writers-Writes e)
        (event_reader-Reads e storage_cap v small room) word bs plain s x t cut
