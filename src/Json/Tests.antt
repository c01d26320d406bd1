-- ===== src/Json/Tests.antt =====
-- Runs of the reader on the texts of the schemas that the code defines.
use obicall.Common.{ℕ, ◌≡◌, refl, same_bytes, true, false, List, ◌∷◌, ◌++◌, none, some, length}
use obicall.Json.Arrays.{is_some, array_get-array_count}
use obicall.Json.Inside.{SpanInside, object_find-SpanInside}
use obicall.Common.Text.{codes}
use obicall.Json.Scan.{
  slice, is_ws, is_digit, skip_while, spaces, digits, string_loop, skip_string, nest_loop,
  scan_number, scan_at, scan_value,
}
use obicall.Json.Lookup.{
  span_from_value, read_value, read_member, behind_comma, object_loop, object_find, array_open,
  count_loop, array_count, get_loop, array_get,
}

-- {"a b": [1, -2.5e+3, {"x": "}"}], "n" : true}
abbrev sample : List ℕ
sample =
    codes "{"
    ++ (0x22 ∷ codes "a b")
    ++ (0x22 ∷ codes ": [1, -2.5e+3, {")
    ++ (0x22 ∷ codes "x")
    ++ (0x22 ∷ codes ": ")
    ++ (0x22 ∷ codes "}")
    ++ (0x22 ∷ codes "}], ")
    ++ (0x22 ∷ codes "n")
    ++ (0x22 ∷ codes " : true}")

abbrev items : List ℕ
items = slice sample 8 24

-- What the lookups find, a key of a nested object and an index behind the end among them.
lookups :
    (object_find sample (codes "a b") ≡ some (record { off = 8; len = 24; is_string = false }))
    × (object_find sample (codes "n") ≡ some (record { off = 40; len = 4; is_string = false }))
    × (object_find sample (codes "x") ≡ none)
    × (array_count items ≡ some 3)
    × (array_get items 1 ≡ some (record { off = 4; len = 7; is_string = false }))
    × (array_get items 3 ≡ none)
unfolding is_ws is_digit skip_while spaces digits string_loop skip_string nest_loop scan_number
    scan_at scan_value same_bytes span_from_value read_value read_member behind_comma object_loop
    object_find array_open count_loop array_count get_loop array_get
lookups = (refl, refl, refl, refl, refl, refl)

object_find-SpanInside_example :
    SpanInside (length sample) (record { off = 8; len = 24; is_string = false })
object_find-SpanInside_example =
    object_find-SpanInside sample (codes "a b") (record { off = 8; len = 24; is_string = false })
      lookups.0

array_get-array_count_example : is_some (array_get items 2) ≡ true
array_get-array_count_example = array_get-array_count items 3 2 lookups.3
