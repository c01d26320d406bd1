-- ===== src/Json/Rounds.antt =====
-- src/core/json_min.c: the loops over arrays and texts do not depend on the fuel, where there is enough.
use obicall.Common.{
  ℕ, zero, suc, ◌+◌, ◌≤◌, ◌<◌, ◌≡◌, refl, inl, inr, Bool, List, [], ◌∷◌, ◌++◌, some, arith, length,
  Option-cases,
}
use obicall.Json.Bounds.{spaces_bounds, scan_value_bounds}
use obicall.Json.Decode.{unescape, decode_loop}
use obicall.Json.Lookup.{count_loop, get_loop}
use obicall.Json.Scan.{byte_at, spaces, scan_value}

-- Each round over an array goes on behind an element of one byte at least.
element_end :
    (json : List ℕ) (pos end : ℕ) (is_str : Bool)
    → scan_value json (spaces json pos) ≡ some (end, is_str)
    → (pos < spaces json end + 1) × (pos < length json)
element_end json pos end is_str found =
    let (some_byte, inside, closed) = scan_value_bounds json (spaces json pos) end is_str found in
    let (a, _) = spaces_bounds json pos in
    let (b, _) = spaces_bounds json (spaces json pos) in
    let (c, _) = spaces_bounds json end in (omega arith, omega arith)

pub count_loop_fuel :
    (f g : ℕ) (json : List ℕ) (count pos : ℕ)
    → length json ≤ pos + f
    → length json ≤ pos + g
    → count_loop f json count pos ≡ count_loop g json count pos
unfolding count_loop
count_loop_fuel zero zero json count pos hf hg = refl
count_loop_fuel zero (suc g) json count pos hf hg = ground (arith, spaces_bounds json pos)
count_loop_fuel (suc f) zero json count pos hf hg = ground (arith, spaces_bounds json pos)
count_loop_fuel (suc f) (suc g) json count pos hf hg =
    elim (Option-cases (scan_value json (spaces json pos))) [
      | inl missing ↦ ground (arith, missing)
      | inr ((end, is_str), found) ↦
          let on = element_end json pos end is_str found in
          let next = spaces json end + 1 in
          ground
            (arith, found, count_loop_fuel f g json (count + 1) next (omega arith) (omega arith))
    ]

pub get_loop_fuel :
    (f g : ℕ) (json : List ℕ) (index i pos : ℕ)
    → length json ≤ pos + f
    → length json ≤ pos + g
    → get_loop f json index i pos ≡ get_loop g json index i pos
unfolding get_loop
get_loop_fuel zero zero json index i pos hf hg = refl
get_loop_fuel zero (suc g) json index i pos hf hg = ground (arith, spaces_bounds json pos)
get_loop_fuel (suc f) zero json index i pos hf hg = ground (arith, spaces_bounds json pos)
get_loop_fuel (suc f) (suc g) json index i pos hf hg =
    elim (Option-cases (scan_value json (spaces json pos))) [
      | inl missing ↦ ground (arith, missing)
      | inr ((end, is_str), found) ↦
          let on = element_end json pos end is_str found in
          let next = spaces json end + 1 in
          ground
            (arith, found, get_loop_fuel f g json index (i + 1) next (omega arith) (omega arith))
    ]

-- A text takes a round for each byte at most, and one to end.
pub decode_loop_fuel :
    (f g : ℕ) (json : List ℕ) (out_cap i : ℕ) (out : List ℕ)
    → length json < i + f
    → length json < i + g
    → i ≤ length json
    → decode_loop f json out_cap i out ≡ decode_loop g json out_cap i out
unfolding decode_loop
decode_loop_fuel zero g json out_cap i out hf hg le = absurd (omega arith)
decode_loop_fuel (suc f) zero json out_cap i out hf hg le = absurd (omega arith)
decode_loop_fuel (suc f) (suc g) json out_cap i out hf hg le =
    elim (Option-cases (unescape (byte_at json (i + 1)))) [
      | inl unknown ↦ ground (
        arith,
        unknown,
        decode_loop_fuel f g json out_cap (i + 6) (out ++ (b'?' ∷ [])),
        decode_loop_fuel f g json out_cap (i + 1) (out ++ (byte_at json i ∷ [])),
      )
      | inr (decoded, known) ↦ ground (
        arith,
        known,
        decode_loop_fuel f g json out_cap (i + 6) (out ++ (b'?' ∷ [])),
        decode_loop_fuel f g json out_cap (i + 2) (out ++ (decoded ∷ [])),
        decode_loop_fuel f g json out_cap (i + 1) (out ++ (byte_at json i ∷ [])),
      )
    ]
