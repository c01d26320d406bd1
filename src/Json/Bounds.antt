-- ===== src/Json/Bounds.antt =====
-- src/core/json_min.c: the reader stays inside its buffer.
use obicall.Common.{
  ℕ, zero, suc, ◌+◌, ◌≤◌, ◌<◌, ◌≡◌, inl, inr, Bool, true, false, if_either, if◌then◌else◌, ◌==◌,
  List, ◌∷◌, Option, none, some, arith, length, ◌||◌, Option-cases,
}
use obicall.Common.Text.{codes}
use obicall.Json.Scan.{
  byte_at, skip_while, spaces, digits, string_loop, skip_string, nest_loop, depth_after, scan_word,
  ends, skip_fraction, skip_exponent, scan_number, scan_at, scan_value, is_ws, is_digit,
}

pub skip_while_bounds :
    (test : ℕ → Bool) (fuel : ℕ) (buf : List ℕ) (pos : ℕ)
    → (pos ≤ skip_while test fuel buf pos)
      × (pos ≤ length buf → skip_while test fuel buf pos ≤ length buf)
unfolding skip_while
skip_while_bounds test zero buf pos = (omega arith, λ h. h)
skip_while_bounds test (suc fuel) buf pos =
    let (more, inside) = skip_while_bounds test fuel buf (pos + 1) in
    (ground arith, λ h. ground (arith, inside))

pub spaces_bounds :
    (buf : List ℕ) (pos : ℕ)
    → (pos ≤ spaces buf pos) × (pos ≤ length buf → spaces buf pos ≤ length buf)
unfolding spaces
spaces_bounds buf pos = skip_while_bounds is_ws (length buf) buf pos

digits_bounds :
    (buf : List ℕ) (pos : ℕ)
    → (pos ≤ digits buf pos) × (pos ≤ length buf → digits buf pos ≤ length buf)
unfolding digits
digits_bounds buf pos = skip_while_bounds is_digit (length buf) buf pos

pub string_loop_bounds :
    (fuel : ℕ) (buf : List ℕ) (pos end : ℕ)
    → string_loop fuel buf pos ≡ some end
    → (pos < end) × (end ≤ length buf)
unfolding string_loop
string_loop_bounds zero buf pos end h = absurd cc
string_loop_bounds (suc fuel) buf pos end h = ground (
  arith,
  string_loop_bounds fuel buf (pos + 6) end,
  string_loop_bounds fuel buf (pos + 2) end,
  string_loop_bounds fuel buf (pos + 1) end,
)

pub skip_string_bounds :
    (buf : List ℕ) (pos end : ℕ)
    → skip_string buf pos ≡ some end
    → (pos + 1 < end) × (end ≤ length buf)
unfolding skip_string
skip_string_bounds buf pos end h = ground (arith, string_loop_bounds (length buf) buf (pos + 1) end)

nest_loop_bounds :
    (fuel : ℕ) (buf : List ℕ) (o c depth pos end : ℕ)
    → pos ≤ length buf
    → nest_loop fuel buf o c depth pos ≡ some end
    → (pos ≤ end) × (end ≤ length buf)
unfolding nest_loop
nest_loop_bounds zero buf o c depth pos end le h = absurd cc
nest_loop_bounds (suc fuel) buf o c depth pos end le h = elim (Option-cases (skip_string buf pos)) [
  | inl unended ↦ ground (
    arith,
    unended,
    nest_loop_bounds fuel buf o c (depth_after o c (byte_at buf pos) depth) (pos + 1) end,
  )
  | inr (r, string) ↦ ground (
    arith,
    string,
    skip_string_bounds buf pos r string,
    nest_loop_bounds fuel buf o c depth r end,
    nest_loop_bounds fuel buf o c (depth_after o c (byte_at buf pos) depth) (pos + 1) end,
  )
]

skip_fraction_bounds :
    (buf : List ℕ) (pos : ℕ)
    → (pos ≤ skip_fraction buf pos) × (pos ≤ length buf → skip_fraction buf pos ≤ length buf)
skip_fraction_bounds buf pos =
    let (more, inside) = digits_bounds buf (pos + 1) in (ground arith, λ h. ground (arith, inside))

skip_exponent_bounds :
    (buf : List ℕ) (pos : ℕ)
    → (pos ≤ skip_exponent buf pos) × (pos ≤ length buf → skip_exponent buf pos ≤ length buf)
skip_exponent_bounds buf pos =
    let (more, inside) = digits_bounds buf (pos + 1) in
    let (more', inside') = digits_bounds buf (pos + 2) in
    (ground arith, λ h. ground (arith, inside, inside'))

first_bounds :
    (b : Bool) (start n : ℕ)
    → start < n
    → (start ≤ (if b then start + 1 else start)) × ((if b then start + 1 else start) ≤ n)
first_bounds b start n h = ground arith

scan_number_bounds :
    (buf : List ℕ) (start end : ℕ)
    → start < length buf
    → scan_number buf start ≡ some end
    → (start < end) × (end ≤ length buf)
unfolding scan_number
scan_number_bounds buf start end inside h =
    let first : ℕ = if byte_at buf start == b'-' then start + 1 else start in
    let (f1, f2) = first_bounds (byte_at buf start == b'-') start (length buf) inside in
    let (d1, d2) = digits_bounds buf first in
    let (g1, g2) = skip_fraction_bounds buf (digits buf first) in
    let (e1, e2) = skip_exponent_bounds buf (skip_fraction buf (digits buf first)) in
    number_end start (skip_exponent buf (skip_fraction buf (digits buf first))) end (length buf)
      (omega arith) (e2 (g2 (d2 f2))) h
  where
    number_end :
        (start last end n : ℕ)
        → start ≤ last
        → last ≤ n
        → (if last == start then none else some last) ≡ some end
        → (start < end) × (end ≤ n)
    number_end start last end n le inside h = ground arith

scan_word_bounds :
    (buf : List ℕ) (pos end : ℕ) (word : List ℕ)
    → scan_word buf pos word ≡ some end
    → (end ≡ pos + length word) × (end ≤ length buf)
scan_word_bounds buf pos end word h = ground arith

ends_cases :
    (mark : Bool) (o : Option ℕ) (end : ℕ) (is_string : Bool)
    → ends mark o ≡ some (end, is_string)
    → (mark ≡ is_string) × (o ≡ some end)
ends_cases mark none end is_string h = absurd cc
ends_cases mark (some e) end is_string h = (cc, cc)

-- Where a value that was found ends.
abbrev Ends : List ℕ → ℕ → Option (ℕ × Bool) → Type 0
Ends buf pos o =
    (end : ℕ) (is_string : Bool)
    → o ≡ some (end, is_string)
    → (pos < end) × (end ≤ length buf) × (is_string ≡ true → pos + 1 < end)

module _ (buf : List ℕ) (pos : ℕ) where
  plain-Ends :
      (o : Option ℕ)
      → ((end : ℕ) → o ≡ some end → (pos < end) × (end ≤ length buf))
      → Ends buf pos (ends false o)
  plain-Ends o inside end is_string h =
      let (mark, found) = ends_cases false o end is_string h in
      ((inside end found).0, (inside end found).1, λ e. absurd (cc (mark, e)))

  none-Ends : Ends buf pos none
  none-Ends end is_string h = absurd cc

  string-Ends : Ends buf pos (ends true (skip_string buf pos))
  string-Ends end is_string h =
      let (mark, found) = ends_cases true (skip_string buf pos) end is_string h in
      let (more, inside) = skip_string_bounds buf pos end found in (omega arith, inside, λ e. more)

  word-Ends : (c : ℕ) (word : List ℕ) → Ends buf pos (ends false (scan_word buf pos (c ∷ word)))
  word-Ends c word = plain-Ends (scan_word buf pos (c ∷ word)) λ end found.
      let (at, inside) = scan_word_bounds buf pos end (c ∷ word) found in (omega arith, inside)

  module _ (inside : pos < length buf) where
    nest-Ends : (o c : ℕ) → Ends buf pos (ends false (nest_loop (length buf) buf o c 1 (pos + 1)))
    nest-Ends o c = plain-Ends (nest_loop (length buf) buf o c 1 (pos + 1)) λ end found.
        let (more, in_buf) =
          nest_loop_bounds (length buf) buf o c 1 (pos + 1) end (omega arith) found in
        (omega arith, in_buf)

    pub scan_at-Ends : Ends buf pos (scan_at buf pos)
    unfolding scan_at
    scan_at-Ends end is_string h =
        if_either Found (ch == 0x22) (string-Ends end is_string)
          (if_either Found (ch == b'{') (nest-Ends b'{' b'}' end is_string) (
            if_either Found (ch == b'[') (nest-Ends b'[' b']' end is_string) (
              if_either Found (ch == b't') (word-Ends b't' (codes "rue") end is_string) (
                if_either Found (ch == b'f') (word-Ends b'f' (codes "alse") end is_string) (
                  if_either Found (ch == b'n') (word-Ends b'n' (codes "ull") end is_string) (
                    if_either Found (ch == b'-' || is_digit ch)
                      (plain-Ends (scan_number buf pos) (λ e. scan_number_bounds buf pos e inside)
                        end is_string)
                      (none-Ends end is_string)))))))
          h
      where
        ch : ℕ
        ch = byte_at buf pos

        Found : Option (ℕ × Bool) → Type 0
        Found o =
            o ≡ some (end, is_string)
            → (pos < end) × (end ≤ length buf) × (is_string ≡ true → pos + 1 < end)

-- A value that is found behind `pos` ends inside the buffer, and has at least one byte.
pub scan_value_bounds :
    (buf : List ℕ) (pos end : ℕ) (is_string : Bool)
    → scan_value buf pos ≡ some (end, is_string)
    → (spaces buf pos < end) × (end ≤ length buf) × (is_string ≡ true → spaces buf pos + 1 < end)
unfolding scan_value
scan_value_bounds buf pos end is_string h =
    let inside : spaces buf pos < length buf = ground arith in
    let here : scan_at buf (spaces buf pos) ≡ some (end, is_string) = ground arith in
    scan_at-Ends buf (spaces buf pos) inside end is_string here
