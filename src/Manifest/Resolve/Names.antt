-- ===== src/Manifest/Resolve/Names.antt =====
-- src/core/manifest.c: names that are equal as texts, and the manifests that have them.
use obicall.Common.{
  ℕ, zero, suc, ◌+◌, ◌≤◌, ◌<◌, ◌≡◌, refl, ap, ◌∙◌, inl, inr, Bool, true, false, ◌||◌, List, [], ◌∷◌,
  ◌++◌, none, some, arith, if◌then◌else◌, get_elem?, length, same_bytes, same_bytes_sound,
  same_bytes_refl, Bool-cases,
}
use obicall.Common.Text.{text_of, str_eq}
use obicall.Manifest.State.{Manifest}
use obicall.Manifest.Resolve.Search.{find_by_name}
use obicall.Manifest.Resolve.Sort.{depends_on}

-- `items[i].name`, where the index is inside the set.
abbrev pub item_name : List Manifest → ℕ → List ℕ
item_name items i = elim (get_elem? items i) [ none ↦ [] | some m ↦ m.name ]

-- The name is that of one of the manifests with these indices.
unfoldable pub has_name : List Manifest → List ℕ → List ℕ → Bool
has_name items [] name = false
has_name items (i ∷ order) name = str_eq name (item_name items i) || has_name items order name

-- How many of the names are not those of the manifests with these indices.
unfoldable pub unmet : List Manifest → List ℕ → List (List ℕ) → ℕ
unmet items order [] = 0
unmet items order (d ∷ names) =
    if has_name items order d then unmet items order names else suc (unmet items order names)

str_eq-text_of : (a b : List ℕ) → str_eq a b ≡ true → text_of a ≡ text_of b
unfolding str_eq
str_eq-text_of a b h = same_bytes_sound (text_of a) (text_of b) h

str_eq_left : (a b c : List ℕ) → str_eq a b ≡ true → str_eq a c ≡ str_eq b c
unfolding str_eq
str_eq_left a b c h = ap (λ t. same_bytes t (text_of c)) (str_eq-text_of a b h)

pub str_eq_right : (a b c : List ℕ) → str_eq a b ≡ true → str_eq c a ≡ str_eq c b
unfolding str_eq
str_eq_right a b c h = ap (λ t. same_bytes (text_of c) t) (str_eq-text_of a b h)

pub str_eq_refl : (a : List ℕ) → str_eq a a ≡ true
unfolding str_eq
str_eq_refl a = same_bytes_refl (text_of a)

pub has_name_text :
    (items : List Manifest) (order a b : List ℕ)
    → str_eq a b ≡ true
    → has_name items order a ≡ has_name items order b
unfolding has_name
has_name_text items [] a b h = refl
has_name_text items (i ∷ order) a b h =
    ground (arith, str_eq_left a b (item_name items i) h, has_name_text items order a b h)

pub has_name-snoc :
    (items : List Manifest) (order : List ℕ) (i : ℕ) (name : List ℕ)
    → has_name items (order ++ (i ∷ [])) name
      ≡ (has_name items order name || str_eq name (item_name items i))
unfolding has_name
has_name-snoc items [] i name = ground arith
has_name-snoc items (k ∷ order) i name = ground (arith, has_name-snoc items order i name)

pub unmet-snoc-le :
    (items : List Manifest) (order : List ℕ) (i : ℕ) (names : List (List ℕ))
    → unmet items (order ++ (i ∷ [])) names ≤ unmet items order names
unfolding unmet
unmet-snoc-le items order i [] = omega arith
unmet-snoc-le items order i (d ∷ names) =
    ground (arith, has_name-snoc items order i d, unmet-snoc-le items order i names)

-- A new name that is among those asked for is one less to meet.
pub unmet-snoc-lt :
    (items : List Manifest) (order : List ℕ) (i : ℕ) (names : List (List ℕ))
    → has_name items order (item_name items i) ≡ false
    → depends_on names (item_name items i) ≡ true
    → suc (unmet items (order ++ (i ∷ [])) names) ≤ unmet items order names
unfolding unmet depends_on
unmet-snoc-lt items order i [] fresh asked = absurd cc
unmet-snoc-lt items order i (d ∷ names) fresh asked =
    elim (Bool-cases (str_eq d (item_name items i))) [
      | inl same ↦ ground (
        arith,
        same,
        has_name-snoc items order i d,
        has_name_text items order d (item_name items i) same,
        unmet-snoc-le items order i names,
      )
      | inr other ↦
          ground (arith, other, has_name-snoc items order i d, unmet-snoc-lt items order i names)
    ]

-- One of the names is listed twice.
unfoldable pub repeated : List (List ℕ) → Bool
repeated [] = false
repeated (d ∷ names) = depends_on names d || repeated names

depends_on_text :
    (names : List (List ℕ)) (a b : List ℕ)
    → str_eq a b ≡ true
    → depends_on names a ≡ depends_on names b
unfolding depends_on
depends_on_text [] a b h = refl
depends_on_text (d ∷ names) a b h =
    ground (arith, str_eq_right a b d h, depends_on_text names a b h)

-- A new name meets at most one of names that are all different, and none that is not among them.
pub unmet-snoc_other :
    (items : List Manifest) (order : List ℕ) (i : ℕ) (names : List (List ℕ))
    → depends_on names (item_name items i) ≡ false
    → unmet items order names ≤ unmet items (order ++ (i ∷ [])) names
unfolding unmet depends_on
unmet-snoc_other items order i [] other = omega arith
unmet-snoc_other items order i (d ∷ names) other =
    ground (arith, has_name-snoc items order i d, unmet-snoc_other items order i names)

pub unmet-snoc-ge :
    (items : List Manifest) (order : List ℕ) (i : ℕ) (names : List (List ℕ))
    → repeated names ≡ false
    → unmet items order names ≤ suc (unmet items (order ++ (i ∷ [])) names)
unfolding unmet repeated
unmet-snoc-ge items order i [] single = omega arith
unmet-snoc-ge items order i (d ∷ names) single = elim (Bool-cases (str_eq d (item_name items i))) [
  | inl same ↦ ground (
    arith,
    has_name-snoc items order i d,
    depends_on_text names d (item_name items i) same,
    unmet-snoc_other items order i names,
  )
  | inr other ↦
      ground (arith, other, has_name-snoc items order i d, unmet-snoc-ge items order i names)
]

pub find_by_name_bounds :
    (items : List Manifest) (name : List ℕ) (i idx : ℕ)
    → find_by_name items name i ≡ some idx
    → (i ≤ idx) × (idx < i + length items)
unfolding find_by_name
find_by_name_bounds [] name i idx h = absurd cc
find_by_name_bounds (m ∷ items) name i idx h =
    ground (arith, find_by_name_bounds items name (suc i) idx)

find_by_name_text :
    (items : List Manifest) (name other : List ℕ) (i : ℕ)
    → str_eq name other ≡ true
    → find_by_name items name i ≡ find_by_name items other i
unfolding find_by_name
find_by_name_text [] name other i same = refl
find_by_name_text (m ∷ items) name other i same =
    ground (arith, str_eq_right name other m.name same, find_by_name_text items name other (suc i))

pub find_by_name-str_eq :
    (items : List Manifest) (name : List ℕ) (i k : ℕ)
    → find_by_name items name i ≡ some (i + k)
    → str_eq (item_name items k) name ≡ true
unfolding find_by_name
find_by_name-str_eq [] name i k h = absurd cc
find_by_name-str_eq (m ∷ items) name i zero h =
    ground (arith, find_by_name_bounds items name (suc i) i)
find_by_name-str_eq (m ∷ items) name i (suc k) h = elim (Bool-cases (str_eq m.name name)) [
  | inl same ↦ absurd (ground (arith, same))
  | inr other ↦ find_by_name-str_eq items name (suc i) k (ground (arith, other))
]

-- The first manifest of a name is also the first of its own name.
pub find_by_name_self :
    (items : List Manifest) (name : List ℕ) (k : ℕ)
    → find_by_name items name 0 ≡ some k
    → find_by_name items (item_name items k) 0 ≡ some k
find_by_name_self items name k h =
    let same = find_by_name-str_eq items name 0 k (ground arith) in
    find_by_name_text items (item_name items k) name 0 same ∙ h

-- Two manifests of one name, each the first of its name, are the same.
pub first_eq :
    (items : List Manifest) (j k : ℕ)
    → find_by_name items (item_name items j) 0 ≡ some j
    → find_by_name items (item_name items k) 0 ≡ some k
    → str_eq (item_name items j) (item_name items k) ≡ true
    → j ≡ k
first_eq items j k hj hk same =
    ground (arith, find_by_name_text items (item_name items j) (item_name items k) 0 same)
