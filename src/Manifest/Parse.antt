-- ===== src/Manifest/Parse.antt =====
-- src/core/manifest.c: `obicall_manifest_parse_json`, less the texts that say what is wrong.
use Prim.Native.String.{String}
use obicall.Common.{
  ℕ, zero, suc, ◌+◌, ◌-◌, ◌*◌, ◌/◌, ◌%◌, ◌^◌, Bool, true, false, not, ◌&&◌, List, [], ◌∷◌, ◌++◌,
  Option, none, some, ltb, leb, ◌==◌, if◌then◌else◌, length, padded, replicate, bit_or,
}
use obicall.Common.Text.{codes, str_eq}
use obicall.FusionResult.{digest_len}
use obicall.Json.Scan.{slice}
use obicall.Json.Lookup.{JsonSpan, object_find, array_count, array_get}
use obicall.Json.Decode.{Decoded, Strtod, decode_string, parse_number}
use obicall.Manifest.State.{
  Manifest, max_dependencies, max_name_len, max_path_len, max_arch_len, max_config_json_len,
  version_str_len,
}
use obicall.Status.{
  Result, ok, err, Status, ◌>>=◌, invalid_argument, unsupported, buffer_too_small, out_of_range,
}

abbrev pub manifest_schema_version : ℕ
manifest_schema_version = 1

unfoldable pub capability_flag_from_name : List ℕ → ℕ
capability_flag_from_name name =
    if str_eq name (codes "position_sensor")
    then 1
    else if str_eq name (codes "inertial_sensor")
    then 2
    else if str_eq name (codes "range_sensor")
    then 4
    else if str_eq name (codes "checkpoint")
    then 8
    else if str_eq name (codes "fault_injection")
    then 16
    else 0

unfoldable pub hex_value : ℕ → Option ℕ
hex_value c =
    if leb b'0' c && leb c b'9'
    then some (c - b'0')
    else if leb b'a' c && leb c b'f'
    then some (c - b'a' + 10)
    else if leb b'A' c && leb c b'F'
    then some (c - b'A' + 10)
    else none

unfoldable pub hex_pair : ℕ → ℕ → Option ℕ
hex_pair hi lo = elim (hex_value hi) [
  | none ↦ none
  | some hv ↦ elim (hex_value lo) [ none ↦ none | some lv ↦ some (bit_or (hv * 16) lv) ]
]

-- The bytes of `n` pairs of digits.
unfoldable pub hex_loop : ℕ → List ℕ → Option (List ℕ)
hex_loop zero hex = some []
hex_loop (suc n) [] = none
hex_loop (suc n) (hi ∷ []) = none
hex_loop (suc n) (hi ∷ lo ∷ hex) = elim (hex_pair hi lo) [
  | none ↦ none
  | some b ↦ elim (hex_loop n hex) [ none ↦ none | some bytes ↦ some (b ∷ bytes) ]
]

unfoldable pub hex_decode : List ℕ → ℕ → Option (List ℕ)
hex_decode hex out_cap = if not (length hex == out_cap * 2) then none else hex_loop out_cap hex

-- The bytes of the span of a value.
abbrev pub span_bytes : List ℕ → JsonSpan → List ℕ
span_bytes json sp = slice json sp.off sp.len

-- What is written to the array of `out_cap` bytes.
unfoldable pub find_field_str : List ℕ → List ℕ → ℕ → Decoded
find_field_str json key out_cap =
    let missing : Decoded = record { written = []; complete = false } in
    elim (object_find json key) [
      | none ↦ missing
      | some sp ↦ if sp.is_string then decode_string (span_bytes json sp) out_cap else missing
    ]

unfoldable pub find_field_num : Strtod → List ℕ → List ℕ → Option ℕ
find_field_num strtod json key = elim (object_find json key) [
  | none ↦ none
  | some sp ↦ if sp.is_string then none else parse_number strtod (span_bytes json sp)
]

-- The whole part of a double of 0 or more and below 2^32, which the cast to uint32_t gives.
unfoldable pub to_u32 : ℕ → ℕ
to_u32 x =
    let exponent = x / 2 ^ 52 % 2 ^ 11 in
    let mantissa = x % 2 ^ 52 + 2 ^ 52 in
    if ltb exponent 1023
    then 0
    else if ltb exponent 1075
    then mantissa / 2 ^ (1075 - exponent) % 2 ^ 32
    else mantissa * 2 ^ (exponent - 1075) % 2 ^ 32

abbrev pub required {ℓ} : {A : Type ℓ} → Option A → Status → Result A
required none e = err e
required (some a) e = ok a

abbrev pub check : Bool → Status → Result (Unit {0})
check true e = ok tt
check false e = err e

-- The field of a number, 0 where it is missing, as the struct was cleared.
abbrev pub number_or_zero : Option ℕ → ℕ
number_or_zero none = 0
number_or_zero (some num) = to_u32 num

-- The array in which a text was written over zeros.
abbrev pub array_of : ℕ → Decoded → List ℕ
array_of n d = padded n 0 d.written

unfoldable pub parse_language : Decoded → Result ℕ
parse_language lang =
    if not lang.complete
    then ok 0
    else if str_eq lang.written (codes "c")
    then ok 1
    else if str_eq lang.written (codes "python")
    then ok 2
    else err unsupported

-- The digest, and `has_artifact_sha256`.
unfoldable pub parse_digest : List ℕ → Result (List ℕ × ℕ)
parse_digest json =
    let absent : Result (List ℕ × ℕ) = ok (replicate digest_len 0, 0) in
    elim (object_find json (codes "artifact_sha256")) [
      | none ↦ absent
      | some sp ↦
          let hex = decode_string (span_bytes json sp) (2 * digest_len + 1) in
          let decoded : Result (List ℕ × ℕ) = elim (hex_decode hex.written digest_len) [
            | none ↦ err invalid_argument
            | some bytes ↦ if hex.complete then ok (bytes, 1) else err invalid_argument
          ] in
          if sp.is_string then decoded else absent
    ]

-- The flags of the elements from `i` on.
unfoldable pub flags_loop : List ℕ → ℕ → ℕ → ℕ → ℕ
flags_loop json zero i flags = flags
flags_loop json (suc n) i flags =
    let named : ℕ = elim (array_get json i) [
      | none ↦ flags
      | some elem ↦
          let name = decode_string (span_bytes json elem) 48 in
          if elem.is_string && name.complete
          then bit_or flags (capability_flag_from_name name.written)
          else flags
    ] in
    flags_loop json n (i + 1) named

-- The number of elements, none if it is no array.
abbrev pub element_count : List ℕ → ℕ
element_count json = elim (array_count json) [ none ↦ 0 | some n ↦ n ]

unfoldable pub parse_flags : List ℕ → ℕ
parse_flags json = elim (object_find json (codes "capability_flags")) [
  | none ↦ 0
  | some sp ↦
      if sp.is_string
      then 0
      else flags_loop (span_bytes json sp) (element_count (span_bytes json sp)) 0 0
]

unfoldable pub parse_config : List ℕ → Result (List ℕ)
parse_config json = elim (object_find json (codes "config")) [
  | none ↦ ok (codes "{}")
  | some sp ↦
      if sp.is_string
      then ok (codes "{}")
      else if leb max_config_json_len sp.len
      then err buffer_too_small
      else ok (span_bytes json sp)
]

unfoldable pub dependencies_loop : List ℕ → ℕ → ℕ → List (List ℕ) → Result (List (List ℕ))
dependencies_loop json zero i found = ok found
dependencies_loop json (suc n) i found = elim (array_get json i) [
  | none ↦ err invalid_argument
  | some elem ↦
      let name = decode_string (span_bytes json elem) max_name_len in
      let rest = dependencies_loop json n (i + 1) (found ++ (array_of max_name_len name ∷ [])) in
      if not elem.is_string
      then err invalid_argument
      else if not name.complete
      then err buffer_too_small
      else rest
]

unfoldable pub parse_dependencies : List ℕ → Result (List (List ℕ))
parse_dependencies json = elim (object_find json (codes "dependencies")) [
  | none ↦ ok []
  | some sp ↦
      let n = element_count (span_bytes json sp) in
      if sp.is_string
      then ok []
      else if ltb max_dependencies n
      then err out_of_range
      else dependencies_loop (span_bytes json sp) n 0 []
]

unfoldable pub parse_json : Strtod → List ℕ → Result Manifest
parse_json strtod json = do
  let num = λ (key : String). find_field_num strtod json (codes key)
  let str = λ (key : String) (cap : ℕ). find_field_str json (codes key) cap
  schema ← required (num "schema_version") invalid_argument
  _ ← check (to_u32 schema == manifest_schema_version) unsupported
  _ ← check (str "name" max_name_len).complete invalid_argument
  language ← parse_language (str "language" 16)
  _ ← check (str "artifact_path" max_path_len).complete invalid_argument
  (digest, has_digest) ← parse_digest json
  config ← parse_config json
  dependencies ← parse_dependencies json
  ok (record {
    schema_version = to_u32 schema;
    name = array_of max_name_len (str "name" max_name_len);
    version = array_of version_str_len (str "version" version_str_len);
    language = language;
    abi_version_major = number_or_zero (num "abi_version_major");
    abi_version_minor = number_or_zero (num "abi_version_minor");
    architecture = array_of max_arch_len (str "architecture" max_arch_len);
    capability_flags = parse_flags json;
    capability_slot = array_of max_name_len (str "capability_slot" max_name_len);
    preference_score = elim (num "preference_score") [ none ↦ 0 | some score ↦ score ];
    artifact_path = array_of max_path_len (str "artifact_path" max_path_len);
    artifact_sha256 = digest;
    has_artifact_sha256 = has_digest;
    config_schema_version = number_or_zero (num "config_schema_version");
    config_json = config;
    dependencies = dependencies;
  })
