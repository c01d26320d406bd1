-- ===== src/Json/Fuel.antt =====
-- src/core/json_min.c: the loops end before the fuel does, which is the number of the buffer's bytes.
use obicall.Common.{
  ℕ, zero, suc, ◌+◌, ◌≤◌, ◌<◌, ◌≡◌, refl, inl, inr, Bool, List, some, arith, length, Option-cases,
}
use obicall.Json.Scan.{
  spaces, scan_value, byte_at, skip_while, string_loop, skip_string, nest_loop, depth_after,
}
use obicall.Json.Bounds.{spaces_bounds, scan_value_bounds, skip_string_bounds}
use obicall.Json.Lookup.{Member, read_value, read_member, behind_comma, object_loop}

-- More fuel than the bytes that are left changes nothing.
pub skip_while_fuel :
    (test : ℕ → Bool) (f g : ℕ) (buf : List ℕ) (pos : ℕ)
    → length buf ≤ pos + f
    → length buf ≤ pos + g
    → skip_while test f buf pos ≡ skip_while test g buf pos
unfolding skip_while
skip_while_fuel test zero zero buf pos hf hg = refl
skip_while_fuel test zero (suc g) buf pos hf hg = ground arith
skip_while_fuel test (suc f) zero buf pos hf hg = ground arith
skip_while_fuel test (suc f) (suc g) buf pos hf hg =
    ground (arith, skip_while_fuel test f g buf (pos + 1))

pub string_loop_fuel :
    (f g : ℕ) (buf : List ℕ) (pos : ℕ)
    → length buf ≤ pos + f
    → length buf ≤ pos + g
    → string_loop f buf pos ≡ string_loop g buf pos
unfolding string_loop
string_loop_fuel zero zero buf pos hf hg = refl
string_loop_fuel zero (suc g) buf pos hf hg = ground arith
string_loop_fuel (suc f) zero buf pos hf hg = ground arith
string_loop_fuel (suc f) (suc g) buf pos hf hg = ground (
  arith,
  string_loop_fuel f g buf (pos + 6),
  string_loop_fuel f g buf (pos + 2),
  string_loop_fuel f g buf (pos + 1),
)

pub nest_loop_fuel :
    (f g : ℕ) (buf : List ℕ) (o c depth pos : ℕ)
    → pos ≤ length buf
    → length buf < pos + f
    → length buf < pos + g
    → nest_loop f buf o c depth pos ≡ nest_loop g buf o c depth pos
unfolding nest_loop
nest_loop_fuel zero g buf o c depth pos le hf hg = absurd (omega arith)
nest_loop_fuel (suc f) zero buf o c depth pos le hf hg = absurd (omega arith)
nest_loop_fuel (suc f) (suc g) buf o c depth pos le hf hg =
    elim (Option-cases (skip_string buf pos)) [
      | inl unended ↦ ground (
        arith,
        unended,
        nest_loop_fuel f g buf o c (depth_after o c (byte_at buf pos) depth) (pos + 1),
      )
      | inr (r, string) ↦ ground (
        arith,
        string,
        skip_string_bounds buf pos r string,
        nest_loop_fuel f g buf o c depth r,
        nest_loop_fuel f g buf o c (depth_after o c (byte_at buf pos) depth) (pos + 1),
      )
    ]

read_value_end :
    (json : List ℕ) (pos key_end : ℕ) (m : Member)
    → read_value json pos key_end ≡ some m
    → key_end < m.value_end
unfolding read_value
read_value_end json pos key_end m h =
    let colon = spaces json key_end in
    elim (Option-cases (scan_value json (spaces json (colon + 1)))) [
      | inl missing ↦ ground (arith, missing)
      | inr ((end, is_str), found) ↦
          let (some_byte, inside, closed) =
            scan_value_bounds json (spaces json (colon + 1)) end is_str found in
          let (a, _) = spaces_bounds json key_end in
          let (b, _) = spaces_bounds json (colon + 1) in
          let (c, _) = spaces_bounds json (spaces json (colon + 1)) in
          let v_end : m.value_end ≡ end = ground (arith, found) in omega arith
    ]

read_member_end :
    (json : List ℕ) (pos : ℕ) (m : Member)
    → read_member json pos ≡ some m
    → (pos < m.value_end) × (pos < length json)
unfolding read_member
read_member_end json pos m h = elim (Option-cases (skip_string json (spaces json pos))) [
  | inl missing ↦ ground (arith, missing)
  | inr (key_end, found) ↦ ground (
    arith,
    found,
    spaces_bounds json pos,
    skip_string_bounds json (spaces json pos) key_end found,
    read_value_end json (spaces json pos) key_end m,
  )
]

behind_comma_end : (json : List ℕ) (end next : ℕ) → behind_comma json end ≡ some next → end < next
unfolding behind_comma
behind_comma_end json end next h = ground (arith, spaces_bounds json end)

-- The search of an object does not depend on the fuel, where that is the number of bytes left or more:
-- each round reads a member of one byte at least.
pub object_loop_fuel :
    (f g : ℕ) (json key : List ℕ) (pos : ℕ)
    → length json ≤ pos + f
    → length json ≤ pos + g
    → object_loop f json key pos ≡ object_loop g json key pos
unfolding object_loop
object_loop_fuel zero zero json key pos hf hg = refl
object_loop_fuel zero (suc g) json key pos hf hg = elim (Option-cases (read_member json pos)) [
  | inl missing ↦ ground (arith, missing)
  | inr (m, found) ↦ absurd (omega (arith, read_member_end json pos m found))
]
object_loop_fuel (suc f) zero json key pos hf hg = elim (Option-cases (read_member json pos)) [
  | inl missing ↦ ground (arith, missing)
  | inr (m, found) ↦ absurd (omega (arith, read_member_end json pos m found))
]
object_loop_fuel (suc f) (suc g) json key pos hf hg = elim (Option-cases (read_member json pos)) [
  | inl missing ↦ ground (arith, missing)
  | inr (m, found) ↦ elim (Option-cases (behind_comma json m.value_end)) [
    | inl last ↦ ground (arith, found, last)
    | inr (next, comma) ↦
        let past = (read_member_end json pos m found).0 in
        let on = behind_comma_end json m.value_end next comma in
        ground (arith, found, comma, object_loop_fuel f g json key next (omega arith) (omega arith))
  ]
]
