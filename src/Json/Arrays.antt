-- ===== src/Json/Arrays.antt =====
-- src/core/json_min.c: the count of an array's elements against the lookup of one.
use obicall.Common.{
  ℕ, zero, suc, ◌+◌, ◌≤◌, ◌≡◌, inl, inr, Bool, true, false, List, Option, none, some, arith, length,
  ltb, Option-cases,
}
use obicall.Json.Scan.{spaces, scan_value}
use obicall.Json.Lookup.{count_loop, get_loop, array_open, array_count, array_get}

abbrev pub is_some {ℓ} : {A : Type ℓ} → Option A → Bool
is_some none = false
is_some (some a) = true

count_loop-le :
    (fuel : ℕ) (json : List ℕ) (count pos n : ℕ)
    → count_loop fuel json count pos ≡ some n
    → count ≤ n
unfolding count_loop
count_loop-le zero json count pos n h = absurd cc
count_loop-le (suc fuel) json count pos n h =
    elim (Option-cases (scan_value json (spaces json pos))) [
      | inl missing ↦ ground (arith, missing)
      | inr ((end, is_str), found) ↦
          ground (arith, found, count_loop-le fuel json (count + 1) (spaces json end + 1) n)
    ]

-- From an element on, that of the index is found exactly if it is among those counted.
get_loop-count_loop :
    (fuel : ℕ) (json : List ℕ) (index i count pos n : ℕ)
    → count_loop fuel json count pos ≡ some n
    → i ≤ index
    → is_some (get_loop fuel json index i pos) ≡ ltb (index + count) (i + n)
unfolding count_loop get_loop
get_loop-count_loop zero json index i count pos n h le = absurd cc
get_loop-count_loop (suc fuel) json index i count pos n h le =
    elim (Option-cases (scan_value json (spaces json pos))) [
      | inl missing ↦ ground (arith, missing)
      | inr ((end, is_str), found) ↦ ground (
        arith,
        found,
        count_loop-le fuel json (count + 1) (spaces json end + 1) n,
        get_loop-count_loop fuel json index (i + 1) (count + 1) (spaces json end + 1) n,
      )
    ]

-- If an array is counted, its element at an index is found exactly if the index is below the count.
pub array_get-array_count :
    (json : List ℕ) (n index : ℕ)
    → array_count json ≡ some n
    → is_some (array_get json index) ≡ ltb index n
unfolding array_count array_get
array_get-array_count json n index h = elim (Option-cases (array_open json)) [
  | inl closed ↦ absurd (ground (arith, closed))
  | inr (pos, opened) ↦
      let counted : count_loop (length json) json 0 pos ≡ some n = ground (arith, opened) in
      let same = get_loop-count_loop (length json) json index 0 0 pos n counted (omega arith) in
      ground (arith, opened, same)
]
