-- ===== src/Manifest/Resolve/Release.antt =====
-- src/core/manifest.c: what the loop over `j` changes, when a manifest is put in the order.
use obicall.Common.{
  ℕ, zero, suc, ◌+◌, ◌≤◌, ◌≡◌, refl, inl, inr, Bool, true, false, ◌&&◌, ◌||◌, List, [], ◌∷◌, ◌++◌,
  none, some, arith, ◌==◌, if◌then◌else◌, get_elem?, length, All, Bool-cases,
}
use obicall.Manifest.State.{Manifest}
use obicall.Manifest.Resolve.Sort.{Row, is_waiting, depends_on, release_row, release}
use obicall.Manifest.Resolve.Names.{
  item_name, has_name, unmet, unmet-snoc-le, unmet-snoc-lt, repeated, unmet-snoc_other,
  unmet-snoc-ge,
}

abbrev pub is_ready : Row → Bool
is_ready r = r.needed && r.indegree == 0

abbrev pub ready_at : List Row → ℕ → Bool
ready_at rows i = elim (get_elem? rows i) [ none ↦ false | some r ↦ is_ready r ]

abbrev pub items_of : List Row → List Manifest
items_of [] = []
items_of (r ∷ rows) = r.item ∷ items_of rows

abbrev pub flags_of : List Row → List Bool
flags_of [] = []
flags_of (r ∷ rows) = r.needed ∷ flags_of rows

-- How many rows wait.
unfoldable pub waiting : List Row → ℕ
waiting [] = 0
waiting (r ∷ rows) = if is_waiting r then suc (waiting rows) else waiting rows

unfoldable pub contains : List ℕ → ℕ → Bool
contains [] j = false
contains (i ∷ is) j = i == j || contains is j

-- What a row's count of open dependencies is never below.
abbrev pub Counts : List Manifest → List ℕ → Row → Type 0
Counts items order r = r.needed ≡ true → unmet items order r.item.dependencies ≤ r.indegree

release_row_kept :
    (name : List ℕ) (r : Row)
    → ((release_row name r).item ≡ r.item) × ((release_row name r).needed ≡ r.needed)
unfolding release_row
release_row_kept name r = ground arith

release_row-Counts :
    (items : List Manifest) (order : List ℕ) (i : ℕ) (r : Row)
    → has_name items order (item_name items i) ≡ false
    → Counts items order r
    → Counts items (order ++ (i ∷ [])) (release_row (item_name items i) r)
unfolding release_row
release_row-Counts items order i r fresh count =
    elim (Bool-cases (is_waiting r && depends_on r.item.dependencies (item_name items i))) [
      | inl less ↦
          ground (arith, less, count, unmet-snoc-lt items order i r.item.dependencies fresh)
      | inr same ↦ ground (arith, same, count, unmet-snoc-le items order i r.item.dependencies)
    ]

pub release-Counts :
    (items : List Manifest) (order : List ℕ) (i : ℕ) (rows : List Row) (j : ℕ)
    → has_name items order (item_name items i) ≡ false
    → All (Counts items order) rows
    → All (Counts items (order ++ (i ∷ []))) (release (item_name items i) rows j).0
unfolding release
release-Counts items order i [] j fresh all = tt
release-Counts items order i (r ∷ rows) j fresh (count, all) = (
  release_row-Counts items order i r fresh count,
  release-Counts items order i rows (suc j) fresh all,
)

-- What a row's count is never above, if it lists no dependency twice.
abbrev pub Tight : List Manifest → List ℕ → Row → Type 0
Tight items order r =
    repeated r.item.dependencies ≡ false
    → r.needed ≡ true
    → r.indegree ≤ unmet items order r.item.dependencies

release_row-Tight :
    (items : List Manifest) (order : List ℕ) (i : ℕ) (r : Row)
    → Tight items order r
    → Tight items (order ++ (i ∷ [])) (release_row (item_name items i) r)
unfolding release_row
release_row-Tight items order i r tight =
    let deps = r.item.dependencies in
    elim (Bool-cases (is_waiting r && depends_on deps (item_name items i))) [
      | inl less ↦ ground (arith, less, tight, unmet-snoc-ge items order i deps)
      | inr same ↦ ground (arith, same, tight, unmet-snoc_other items order i deps)
    ]

pub release-Tight :
    (items : List Manifest) (order : List ℕ) (i : ℕ) (rows : List Row) (j : ℕ)
    → All (Tight items order) rows
    → All (Tight items (order ++ (i ∷ []))) (release (item_name items i) rows j).0
unfolding release
release-Tight items order i [] j all = tt
release-Tight items order i (r ∷ rows) j (tight, all) =
    (release_row-Tight items order i r tight, release-Tight items order i rows (suc j) all)

pub release_kept :
    (name : List ℕ) (rows : List Row) (j : ℕ)
    → (items_of (release name rows j).0 ≡ items_of rows)
      × (flags_of (release name rows j).0 ≡ flags_of rows)
unfolding release
release_kept name [] j = (refl, refl)
release_kept name (r ∷ rows) j =
    let (item, needed) = release_row_kept name r in
    let (items, flags) = release_kept name rows (suc j) in (cc, cc)

-- A manifest that was ready stays so.
pub release-ready_at :
    (name : List ℕ) (rows : List Row) (j i : ℕ)
    → ready_at rows i ≡ true
    → ready_at (release name rows j).0 i ≡ true
unfolding release release_row
release-ready_at name [] j i h = absurd cc
release-ready_at name (r ∷ rows) j zero h = ground arith
release-ready_at name (r ∷ rows) j (suc i) h = release-ready_at name rows (suc j) i h

release_bounds :
    (name : List ℕ) (rows : List Row) (j k : ℕ) → contains (release name rows j).1 k ≡ true → j ≤ k
unfolding release contains
release_bounds name [] j k h = absurd cc
release_bounds name (r ∷ rows) j k h = ground (arith, release_bounds name rows (suc j) k)

-- What is put in the queue is ready then, and was not before.
pub release-freed :
    (name : List ℕ) (rows : List Row) (j i : ℕ)
    → contains (release name rows j).1 (j + i) ≡ true
    → (ready_at (release name rows j).0 i ≡ true) × (ready_at rows i ≡ false)
unfolding release contains release_row
release-freed name [] j i h = absurd cc
release-freed name (r ∷ rows) j zero h = ground (arith, release_bounds name rows (suc j) (j + 0))
release-freed name (r ∷ rows) j (suc i) h = ground (arith, release-freed name rows (suc j) i)

-- No entry twice.
abbrev pub Distinct : List ℕ → Type 0
Distinct [] = Unit
Distinct (i ∷ is) = (contains is i ≡ false) × Distinct is

pub release-Distinct : (name : List ℕ) (rows : List Row) (j : ℕ) → Distinct (release name rows j).1
unfolding release
release-Distinct name [] j = tt
release-Distinct name (r ∷ rows) j =
    let rest = release-Distinct name rows (suc j) in
    ground (arith, release_bounds name rows (suc j) j)

-- What becomes ready is put in the queue.
pub release_complete :
    (name : List ℕ) (rows : List Row) (j i : ℕ)
    → ready_at (release name rows j).0 i ≡ true
    → ready_at rows i ≡ false
    → contains (release name rows j).1 (j + i) ≡ true
unfolding release contains release_row
release_complete name [] j i now before = absurd cc
release_complete name (r ∷ rows) j zero now before = ground arith
release_complete name (r ∷ rows) j (suc i) now before =
    ground (arith, release_complete name rows (suc j) i now before)

pub release-waiting :
    (name : List ℕ) (rows : List Row) (j : ℕ)
    → length (release name rows j).1 + waiting (release name rows j).0 ≡ waiting rows
unfolding release waiting release_row
release-waiting name [] j = omega arith
release-waiting name (r ∷ rows) j = ground (arith, release-waiting name rows (suc j))
