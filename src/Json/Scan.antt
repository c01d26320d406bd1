-- ===== src/Json/Scan.antt =====
-- src/core/json_min.c: how far a string or another value reaches. A buffer is the list of its bytes,
-- so `len` is their number; it is below 2^31, so that no offset is negative as an `int`.
use obicall.Common.{
  ℕ, zero, suc, ◌+◌, ◌-◌, Bool, true, false, not, ◌&&◌, ◌||◌, List, [], ◌∷◌, Option, none, some,
  ltb, leb, ◌==◌, if◌then◌else◌, same_bytes, length, take, drop, get_elem?,
}

-- `buf[pos]`, read behind a test of `pos < len`.
abbrev pub byte_at : List ℕ → ℕ → ℕ
byte_at buf pos = elim (get_elem? buf pos) [ none ↦ 0 | some c ↦ c ]

-- `pos < len && buf[pos] == c`
abbrev pub is_at : List ℕ → ℕ → ℕ → Bool
is_at buf pos c = ltb pos (length buf) && byte_at buf pos == c

abbrev pub slice : List ℕ → ℕ → ℕ → List ℕ
slice buf off n = take n (drop off buf)

unfoldable pub is_ws : ℕ → Bool
is_ws c = c == 0x20 || c == 0x09 || c == 0x0A || c == 0x0D

unfoldable pub is_digit : ℕ → Bool
is_digit c = leb b'0' c && leb c b'9'

-- `while (pos < len && test(buf[pos])) pos++;`
unfoldable pub skip_while : (ℕ → Bool) → ℕ → List ℕ → ℕ → ℕ
skip_while test zero buf pos = pos
skip_while test (suc fuel) buf pos =
    let next = skip_while test fuel buf (pos + 1) in
    if ltb pos (length buf) && test (byte_at buf pos) then next else pos

unfoldable pub spaces : List ℕ → ℕ → ℕ
spaces buf pos = skip_while is_ws (length buf) buf pos

unfoldable pub digits : List ℕ → ℕ → ℕ
digits buf pos = skip_while is_digit (length buf) buf pos

-- The characters of a string, up to behind the quote that ends it.
unfoldable pub string_loop : ℕ → List ℕ → ℕ → Option ℕ
string_loop zero buf pos = none
string_loop (suc fuel) buf pos =
    let unicode = string_loop fuel buf (pos + 6) in
    let escaped = string_loop fuel buf (pos + 2) in
    let next = string_loop fuel buf (pos + 1) in
    if leb (length buf) pos
    then none
    else if byte_at buf pos == 0x22
    then some (pos + 1)
    else if byte_at buf pos == 0x5C
    then (if leb (length buf) (pos + 1)
        then none
        else if byte_at buf (pos + 1) == b'u'
        then (if ltb (length buf) (pos + 6) then none else unicode)
        else escaped)
    else next

unfoldable pub skip_string : List ℕ → ℕ → Option ℕ
skip_string buf pos =
    if leb (length buf) pos || not (byte_at buf pos == 0x22)
    then none
    else string_loop (length buf) buf (pos + 1)

abbrev pub depth_after : ℕ → ℕ → ℕ → ℕ → ℕ
depth_after open_byte close_byte c depth =
    if c == open_byte then depth + 1 else if c == close_byte then depth - 1 else depth

-- The inside of an object or an array, up to behind the bracket that closes it.
unfoldable pub nest_loop : ℕ → List ℕ → ℕ → ℕ → ℕ → ℕ → Option ℕ
nest_loop zero buf open_byte close_byte depth pos = none
nest_loop (suc fuel) buf open_byte close_byte depth pos =
    let next =
      nest_loop fuel buf open_byte close_byte
        (depth_after open_byte close_byte (byte_at buf pos) depth) (pos + 1) in
    let behind_string : Option ℕ = elim (skip_string buf pos) [
      | none ↦ none
      | some r ↦ nest_loop fuel buf open_byte close_byte depth r
    ] in
    if ltb pos (length buf) && ltb 0 depth
    then (if byte_at buf pos == 0x22 then behind_string else next)
    else if depth == 0
    then some pos
    else none

-- `pos + n <= len && memcmp(buf + pos, word, n) == 0`
abbrev pub scan_word : List ℕ → ℕ → List ℕ → Option ℕ
scan_word buf pos word =
    if leb (pos + length word) (length buf) && same_bytes (slice buf pos (length word)) word
    then some (pos + length word)
    else none

abbrev pub skip_fraction : List ℕ → ℕ → ℕ
skip_fraction buf pos = if is_at buf pos b'.' then digits buf (pos + 1) else pos

abbrev pub skip_exponent : List ℕ → ℕ → ℕ
skip_exponent buf pos =
    if is_at buf pos b'e' || is_at buf pos b'E'
    then digits buf
        (if is_at buf (pos + 1) b'+' || is_at buf (pos + 1) b'-' then pos + 2 else pos + 1)
    else pos

unfoldable pub scan_number : List ℕ → ℕ → Option ℕ
scan_number buf start =
    let first = if byte_at buf start == b'-' then start + 1 else start in
    let end = skip_exponent buf (skip_fraction buf (digits buf first)) in
    if end == start then none else some end

-- Where a value ends, with the mark of a string.
abbrev pub ends : Bool → Option ℕ → Option (ℕ × Bool)
ends is_string none = none
ends is_string (some e) = some (e, is_string)

-- The value whose first byte is at `pos`.
unfoldable pub scan_at : List ℕ → ℕ → Option (ℕ × Bool)
scan_at buf pos =
    let ch = byte_at buf pos in
    if ch == 0x22
    then ends true (skip_string buf pos)
    else if ch == b'{'
    then ends false (nest_loop (length buf) buf b'{' b'}' 1 (pos + 1))
    else if ch == b'['
    then ends false (nest_loop (length buf) buf b'[' b']' 1 (pos + 1))
    else if ch == b't'
    then ends false (scan_word buf pos (b't' ∷ b'r' ∷ b'u' ∷ b'e' ∷ []))
    else if ch == b'f'
    then ends false (scan_word buf pos (b'f' ∷ b'a' ∷ b'l' ∷ b's' ∷ b'e' ∷ []))
    else if ch == b'n'
    then ends false (scan_word buf pos (b'n' ∷ b'u' ∷ b'l' ∷ b'l' ∷ []))
    else if ch == b'-' || is_digit ch
    then ends false (scan_number buf pos)
    else none

-- Where the value at or behind `pos` ends, and whether it is a string. `none` is -1.
unfoldable pub scan_value : List ℕ → ℕ → Option (ℕ × Bool)
scan_value buf pos =
    let first = spaces buf pos in if leb (length buf) first then none else scan_at buf first
