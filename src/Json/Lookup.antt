-- ===== src/Json/Lookup.antt =====
-- src/core/json_min.c: `json_object_find`, `json_array_count` and `json_array_get`.
use obicall.Common.{
  ℕ, zero, suc, ◌+◌, ◌-◌, Bool, true, false, not, ◌&&◌, ◌||◌, List, Option, none, some, leb, ◌==◌,
  if◌then◌else◌, same_bytes, length,
}
use obicall.Json.Scan.{byte_at, is_at, slice, spaces, skip_string, scan_value}

pub record JsonSpan : Type 0 where
  pub off : ℕ
  pub len : ℕ
  pub is_string : Bool

unfoldable pub span_from_value : ℕ → ℕ → Bool → JsonSpan
span_from_value value_start value_end is_str =
    if is_str
    then record { off = value_start + 1; len = value_end - 1 - (value_start + 1); is_string = true }
    else record { off = value_start; len = value_end - value_start; is_string = false }

-- Where the key of a member ends, and where its value begins and ends.
pub record Member : Type 0 where
  pub key_start : ℕ
  pub key_str_len : ℕ
  pub value_start : ℕ
  pub value_end : ℕ
  pub is_str : Bool

-- The value behind the key that starts at `pos` and ends at `key_end`.
unfoldable pub read_value : List ℕ → ℕ → ℕ → Option Member
read_value json pos key_end =
    let colon = spaces json key_end in
    let value_start = spaces json (colon + 1) in
    if not (is_at json colon b':') then none else elim (scan_value json value_start) [
      | none ↦ none
      | some (value_end, is_str) ↦ some (record {
        key_start = pos + 1;
        key_str_len = key_end - 1 - (pos + 1);
        value_start = value_start;
        value_end = value_end;
        is_str = is_str;
      })
    ]

-- The member at or behind `pos`, unless the object ends or is malformed.
unfoldable pub read_member : List ℕ → ℕ → Option Member
read_member json pos =
    let first = spaces json pos in
    if leb (length json) first || byte_at json first == b'}'
    then none
    else if not (byte_at json first == 0x22)
    then none
    else elim (skip_string json first) [
      | none ↦ none
      | some key_end ↦ read_value json first key_end
    ]

-- Behind the comma that follows a value, if one does.
unfoldable pub behind_comma : List ℕ → ℕ → Option ℕ
behind_comma json value_end =
    let pos = spaces json value_end in if is_at json pos b',' then some (pos + 1) else none

abbrev pub matches : List ℕ → List ℕ → Member → Bool
matches json key m =
    m.key_str_len == length key && same_bytes (slice json m.key_start (length key)) key

abbrev pub member_span : Member → JsonSpan
member_span m = span_from_value m.value_start m.value_end m.is_str

unfoldable pub object_loop : ℕ → List ℕ → List ℕ → ℕ → Option JsonSpan
object_loop zero json key pos = none
object_loop (suc fuel) json key pos = elim (read_member json pos) [
  | none ↦ none
  | some m ↦
      let later : Option JsonSpan = elim (behind_comma json m.value_end) [
        | none ↦ none
        | some next ↦ object_loop fuel json key next
      ] in
      if matches json key m then some (member_span m) else later
]

-- `none` is 0. The key is the bytes of a text.
unfoldable pub object_find : List ℕ → List ℕ → Option JsonSpan
object_find json key =
    let first = spaces json 0 in
    if is_at json first b'{' then object_loop (length json) json key (first + 1) else none

unfoldable pub array_open : List ℕ → Option ℕ
array_open json = let pos = spaces json 0 in if is_at json pos b'[' then some (pos + 1) else none

unfoldable pub count_loop : ℕ → List ℕ → ℕ → ℕ → Option ℕ
count_loop zero json count pos = none
count_loop (suc fuel) json count pos =
    let first = spaces json pos in
    let behind : Option ℕ = elim (scan_value json first) [
      | none ↦ none
      | some (end, is_str) ↦
          let after = spaces json end in
          let later = count_loop fuel json (count + 1) (after + 1) in
          if is_at json after b','
          then later
          else if is_at json after b']'
          then some (count + 1)
          else none
    ] in
    if leb (length json) first
    then none
    else if byte_at json first == b']'
    then some count
    else behind

-- `none` is -1.
unfoldable pub array_count : List ℕ → Option ℕ
array_count json = elim (array_open json) [
  | none ↦ none
  | some pos ↦ count_loop (length json) json 0 pos
]

unfoldable pub get_loop : ℕ → List ℕ → ℕ → ℕ → ℕ → Option JsonSpan
get_loop zero json index i pos = none
get_loop (suc fuel) json index i pos =
    let first = spaces json pos in
    let behind : Option JsonSpan = elim (scan_value json first) [
      | none ↦ none
      | some (end, is_str) ↦
          let after = spaces json end in
          let later = get_loop fuel json index (i + 1) (after + 1) in
          if i == index
          then some (span_from_value first end is_str)
          else if is_at json after b','
          then later
          else none
    ] in
    if leb (length json) first || byte_at json first == b']' then none else behind

unfoldable pub array_get : List ℕ → ℕ → Option JsonSpan
array_get json index = elim (array_open json) [
  | none ↦ none
  | some pos ↦ get_loop (length json) json index 0 pos
]
