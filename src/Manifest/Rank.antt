-- ===== src/Manifest/Rank.antt =====
-- src/core/manifest.c: `obicall_manifest_rank_alternatives`.
pub mod Kept
pub mod Adjacent
pub mod Order
pub mod Sorted
use obicall.Common.{
  ℕ, zero, suc, ◌+◌, ◌≤◌, ◌≡◌, refl, sym, ap, subst, ◌∙◌, ◌⊎◌, inl, inr, Bool, true, false, not,
  ◌&&◌, ◌||◌, List, [], ◌∷◌, ◌++◌, Option, none, some, arith, ltb, leb, ◌==◌, if◌then◌else◌, length,
  get_elem?, take, Bool-cases,
}
use obicall.Common.Text.{text_of, str_eq}
use obicall.Manifest.State.{Manifest, text_gt}
use obicall.Manifest.Resolve.Sort.{resolve}
use obicall.Observation.Doubles.{f64_lt, f64_eq, f64_lt_asymm}
use obicall.Status.{Result, ok, err}

abbrev pub abi_version_major : ℕ
abi_version_major = 1

abbrev pub abi_version_minor : ℕ
abi_version_minor = 0

abbrev pub resolves : Result (List ℕ) → Bool
resolves (ok plan) = true
resolves (err e) = false

-- `m->architecture[0] != '\0' && host_architecture && strcmp(...) != 0`
abbrev pub other_architecture : Manifest → Option (List ℕ) → Bool
other_architecture m none = false
other_architecture m (some host) =
    not (str_eq m.architecture []) && not (str_eq m.architecture host)

-- What a candidate has to pass. A field whose first byte is NUL is the empty text.
unfoldable pub is_eligible : List Manifest → List ℕ → Option (List ℕ) → Manifest → Bool
is_eligible items slot host m =
    if str_eq m.capability_slot [] || not (str_eq m.capability_slot slot)
    then false
    else if other_architecture m host
    then false
    else if not (m.abi_version_major == abi_version_major)
    then false
    else if ltb abi_version_minor m.abi_version_minor
    then false
    else resolves (resolve items (m.name ∷ []))

-- The indices of the eligible manifests, among those from `i` on.
unfoldable pub candidates_from :
    List Manifest → List ℕ → Option (List ℕ) → List Manifest → ℕ → List ℕ
candidates_from items slot host [] i = []
candidates_from items slot host (m ∷ rest) i =
    let more = candidates_from items slot host rest (suc i) in
    if is_eligible items slot host m then i ∷ more else more

-- `set->items[i]`: its score and its name, where the index is inside the set.
abbrev pub score_at : List Manifest → ℕ → ℕ
score_at items i = elim (get_elem? items i) [ none ↦ 0 | some m ↦ m.preference_score ]

abbrev pub text_at : List Manifest → ℕ → List ℕ
text_at items i = elim (get_elem? items i) [ none ↦ [] | some m ↦ text_of m.name ]

unfoldable pub should_shift : List Manifest → ℕ → ℕ → Bool
should_shift items cur key =
    f64_lt (score_at items key) (score_at items cur)
    || (f64_eq (score_at items cur) (score_at items key)
        && text_gt (text_at items cur) (text_at items key))

-- The inner loop: `sorted` is the part that is in order, its last entry first.
unfoldable pub shift_loop : List Manifest → ℕ → List ℕ → List ℕ
shift_loop items key [] = key ∷ []
shift_loop items key (cur ∷ sorted) =
    let shifted = shift_loop items key sorted in
    if should_shift items cur key then cur ∷ shifted else key ∷ cur ∷ sorted

unfoldable pub sort_loop : List Manifest → List ℕ → List ℕ → List ℕ
sort_loop items [] sorted = sorted
sort_loop items (key ∷ keys) sorted = sort_loop items keys (shift_loop items key sorted)

-- The array from its first entry on, where the list has its last one first.
unfoldable pub forwards : List ℕ → List ℕ → List ℕ
forwards [] acc = acc
forwards (i ∷ sorted) acc = forwards sorted (i ∷ acc)

-- The indices in `out_indices`.
unfoldable pub rank_alternatives : List Manifest → List ℕ → Option (List ℕ) → ℕ → List ℕ
rank_alternatives items slot host out_cap =
    take out_cap (forwards (sort_loop items (candidates_from items slot host items 0) []) [])
