-- ===== src/Gate/Record.antt =====
-- src/core/gate.c: the header and the payload of a stored record.
use obicall.Gate.Persist.{
  persist_header_len, persist_max_payload, persist_magic, persist_writers, write_record,
  persist_payload, persist_reader, load_payload, load_state, persist_layout,
}
use obicall.Common.{
  ℕ, ◌^◌, ◌≤◌, ◌<◌, ◌≡◌, refl, sym, ap, ◌∙◌, false, not, List, ◌++◌, arith, ltb, leb, ◌==◌,
  if◌then◌else◌, length, length-append, take, drop, take-append_self, drop-append_self,
}
use obicall.Common.Device.{Device}
use obicall.Cursor.Octets.{octets}
use obicall.Cursor.Write.{block, encode_with}
use obicall.Cursor.Read.{decode_with}
use obicall.Cursor.Writes.{Writes, fields, writes_rules, encode_with-Writes}
use obicall.Cursor.Reads.{Reads}
use obicall.Cursor.Codec.{
  Reads-field, Reads-guard, Reads-end, Reads-u32, sticky_rules, decode_with-whole,
}
use obicall.Digest.Crc32.{crc32}
use obicall.Gate.Codec.{decode_state}
use obicall.Status.{Result, ok, err, wire_malformed, wire_checksum, internal}

pub length-persist_layout : (n crc : ℕ) → length (persist_layout n crc) ≡ 16
unfolding persist_layout octets fields
length-persist_layout n crc = refl

persist_writers-Writes : (n crc : ℕ) → Writes (block (persist_writers n crc)) (persist_layout n crc)
unfolding persist_writers persist_layout
persist_writers-Writes n crc = search writes_rules depth 40

persist_reader-Reads :
    (n crc : ℕ)
    → n ≤ persist_max_payload
    → crc < 2 ^ 32
    → Reads persist_reader (persist_layout n crc) (n, crc)
unfolding persist_reader persist_layout
persist_reader-Reads n crc h fits =
    Reads-field _ (Reads-u32 persist_magic (omega arith)) (search sticky_rules depth 60 fits 20000)
      (Reads-field _ (Reads-u32 n (omega arith)) (search sticky_rules depth 60 fits 20000) (
        Reads-field _ (Reads-u32 crc fits) (search sticky_rules depth 60 fits 20000) (
          Reads-field _ (Reads-u32 0 (omega arith)) (search sticky_rules depth 60 fits 20000) (
            Reads-guard _ (ground arith) (search sticky_rules depth 60 fits 20000) (Reads-end _)))))

-- The header and the payload of a record.
pub split_record :
    (n crc : ℕ) (rest : List ℕ)
    → (take persist_header_len (persist_layout n crc ++ rest) ≡ persist_layout n crc)
      × (drop persist_header_len (persist_layout n crc ++ rest) ≡ rest)
split_record n crc rest =
    let layout = persist_layout n crc in
    (
      ap (λ (k : ℕ). take k (layout ++ rest)) (sym (length-persist_layout n crc))
          ∙ take-append_self layout rest,
      ap (λ (k : ℕ). drop k (layout ++ rest)) (sym (length-persist_layout n crc))
          ∙ drop-append_self layout rest,
    )

-- The record that a payload is stored in is read up to the payload's decoder, unless a byte of it changed.
pub load_state-record :
    (n crc : ℕ) (rest : List ℕ)
    → n ≤ persist_max_payload
    → crc < 2 ^ 32
    → load_state (persist_layout n crc ++ rest) ≡ load_payload rest (ok (n, crc))
unfolding load_state
load_state-record n crc rest h fits =
    let layout = persist_layout n crc in
    let enough : ltb (length (layout ++ rest)) persist_header_len ≡ false =
      ground (arith, length-append layout rest, length-persist_layout n crc) in
    let (header, behind) = split_record n crc rest in
    let read : decode_with persist_reader (take persist_header_len (layout ++ rest)) ≡ ok (n, crc) =
      ap (decode_with persist_reader) header
      ∙ decode_with-whole persist_reader layout (n, crc) (persist_reader-Reads n crc h fits)
          (omega (arith, length-persist_layout n crc)) in
    ap
      (λ b.
        if b
        then err wire_malformed
        else load_payload (drop persist_header_len (layout ++ rest))
            (decode_with persist_reader (take persist_header_len (layout ++ rest))))
      enough
    ∙ ap (load_payload (drop persist_header_len (layout ++ rest))) read
    ∙ ap (λ (r : List ℕ). load_payload r (ok (n, crc))) behind

-- The header of a record fits its buffer.
pub persist_header :
    (n crc : ℕ)
    → encode_with internal persist_header_len (persist_writers n crc) ≡ ok (persist_layout n crc)
persist_header n crc =
    encode_with-Writes internal persist_header_len _ _ (persist_writers-Writes n crc) (omega arith)
    ∙ ap (λ (k : ℕ). if leb k persist_header_len then ok (persist_layout n crc) else err internal)
        (length-persist_layout n crc)

-- What a successful write of a record leaves in the file.
pub persist_payload-ok :
    (device : Device) (encoded : Result (List ℕ)) (file : List ℕ)
    → persist_payload device encoded ≡ ok file
    → (payload : List ℕ) × (encoded ≡ ok payload)
      × (file ≡ persist_layout (length payload) (crc32 payload) ++ payload)
persist_payload-ok device (err e) file done = ground arith
persist_payload-ok device (ok payload) file done =
    let layout = persist_layout (length payload) (crc32 payload) in
    let written : write_record device payload (ok layout) ≡ ok file =
      ap (write_record device payload) (sym (persist_header (length payload) (crc32 payload)))
      ∙ done in
    (payload, refl, ground (arith, written))

-- The checksum decides on a payload that is long enough.
pub load_payload-checked :
    (payload post : List ℕ) (n crc : ℕ)
    → length payload ≡ n
    → load_payload (payload ++ post) (ok (n, crc))
      ≡ (if not (crc32 payload == crc) then err wire_checksum else decode_state payload)
load_payload-checked payload post n crc h =
    let enough : ltb (length (payload ++ post)) n ≡ false =
      ground (arith, length-append payload post) in
    let whole : take n (payload ++ post) ≡ payload =
      ap (λ (k : ℕ). take k (payload ++ post)) (sym h) ∙ take-append_self payload post in
    let after_fread =
      λ (p : List ℕ). if not (crc32 p == crc) then err wire_checksum else decode_state p in
    ap (λ b. if b then err wire_malformed else after_fread (take n (payload ++ post))) enough
    ∙ ap after_fread whole
