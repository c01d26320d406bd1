-- ===== src/Manifest/Resolve/Needed.antt =====
-- src/core/manifest.c: what the search of `obicall_manifest_resolve` marks as needed.
use obicall.Common.{
  ℕ, zero, suc, ◌+◌, ◌<◌, ◌≡◌, refl, sym, ap, subst, ◌∙◌, ◌⊎◌, inl, inr, Bool, true, false, List,
  [], ◌∷◌, some, arith, if◌then◌else◌, length, set, All, Option-cases,
}
use obicall.Manifest.State.{Manifest}
use obicall.Manifest.Resolve.Search.{find_by_name, Marking, flag_at, mark, mark_names}
use obicall.Manifest.Resolve.Names.{item_name, find_by_name_bounds, find_by_name_self}
use obicall.Status.{ok, err, Status, dependency_missing}

-- How many flags are not set.
unfoldable pub unset : List Bool → ℕ
unset [] = 0
unset (b ∷ flags) = if b then unset flags else suc (unset flags)

length-set : (flags : List Bool) (i : ℕ) → length (set flags i true) ≡ length flags
length-set [] i = refl
length-set (b ∷ flags) zero = refl
length-set (b ∷ flags) (suc i) = ap suc (length-set flags i)

flag_at-set :
    (flags : List Bool) (i j : ℕ) → flag_at flags j ≡ true → flag_at (set flags i true) j ≡ true
flag_at-set [] i j h = h
flag_at-set (b ∷ flags) zero zero h = refl
flag_at-set (b ∷ flags) zero (suc j) h = h
flag_at-set (b ∷ flags) (suc i) zero h = h
flag_at-set (b ∷ flags) (suc i) (suc j) h = flag_at-set flags i j h

flag_at-set_self :
    (flags : List Bool) (i : ℕ) → i < length flags → flag_at (set flags i true) i ≡ true
flag_at-set_self [] i h = absurd (omega arith)
flag_at-set_self (b ∷ flags) zero h = refl
flag_at-set_self (b ∷ flags) (suc i) h = flag_at-set_self flags i (omega arith)

unset-set :
    (flags : List Bool) (i : ℕ)
    → i < length flags
    → flag_at flags i ≡ false
    → suc (unset (set flags i true)) ≡ unset flags
unfolding unset
unset-set [] i h clear = absurd (omega arith)
unset-set (b ∷ flags) zero h clear = ground arith
unset-set (b ∷ flags) (suc i) h clear = ground (arith, unset-set flags i (omega arith) clear)

-- Only the first manifest of a name is marked.
abbrev pub Firsts : List Manifest → List Bool → Type 0
Firsts items flags =
    (i : ℕ) → flag_at flags i ≡ true → find_by_name items (item_name items i) 0 ≡ some i

-- A search goes on from one marking to another: no mark is taken back, the count is kept true, and each
-- new mark is one manifest more to look at.
pub record Grows (items : List Manifest) (s t : Marking) : Type 0 where
  pub kept : (j : ℕ) → flag_at s.needed j ≡ true → flag_at t.needed j ≡ true
  pub sized : length t.needed ≡ length s.needed
  pub counted : t.needed_count + unset t.needed ≡ s.needed_count + unset s.needed
  pub first : Firsts items s.needed → Firsts items t.needed
  pub stacked : length t.stack + unset t.needed ≡ length s.stack + unset s.needed

Grows-refl : (items : List Manifest) (s : Marking) → Grows items s s
Grows-refl items s = record {
  kept = λ j h. h;
  sized = refl;
  counted = refl;
  first = λ f. f;
  stacked = refl;
}

Grows-trans :
    (items : List Manifest) (s t u : Marking) → Grows items s t → Grows items t u → Grows items s u
Grows-trans items s t u g h = record {
  kept = λ j f. h.kept j (g.kept j f);
  sized = h.sized ∙ g.sized;
  counted = h.counted ∙ g.counted;
  first = λ f. h.first (g.first f);
  stacked = h.stacked ∙ g.stacked;
}

pub flag_at-set_cases :
    (flags : List Bool) (i j : ℕ)
    → flag_at (set flags i true) j ≡ true
    → (i ≡ j) ⊎ (flag_at flags j ≡ true)
flag_at-set_cases [] i j h = inr h
flag_at-set_cases (b ∷ flags) zero zero h = inl refl
flag_at-set_cases (b ∷ flags) zero (suc j) h = inr h
flag_at-set_cases (b ∷ flags) (suc i) zero h = inr h
flag_at-set_cases (b ∷ flags) (suc i) (suc j) h = elim (flag_at-set_cases flags i j h) [
  | inl e ↦ inl (ap suc e)
  | inr old ↦ inr old
]

set-Firsts :
    (items : List Manifest) (flags : List Bool) (idx : ℕ)
    → find_by_name items (item_name items idx) 0 ≡ some idx
    → Firsts items flags
    → Firsts items (set flags idx true)
set-Firsts items flags idx found firsts i h = elim (flag_at-set_cases flags idx i h) [
  | inl e ↦ subst (λ k. find_by_name items (item_name items k) 0 ≡ some k) e found
  | inr old ↦ firsts i old
]

pub mark-cases :
    (s : Marking) (idx : ℕ)
    → (mark s idx ≡ s)
      ⊎ ((flag_at s.needed idx ≡ false)
          × (mark s idx ≡ record {
            needed = set s.needed idx true;
            needed_count = suc s.needed_count;
            stack = idx ∷ s.stack;
          }))
unfolding mark
mark-cases s idx = ground arith

mark-Grows :
    (items : List Manifest) (s : Marking) (idx : ℕ)
    → idx < length s.needed
    → find_by_name items (item_name items idx) 0 ≡ some idx
    → Grows items s (mark s idx)
mark-Grows items s idx inside found = elim (mark-cases s idx) [
  | inl old ↦ subst (Grows items s) (sym old) (Grows-refl items s)
  | inr (new, e) ↦ subst (Grows items s) (sym e) (record {
    kept = λ j h. flag_at-set s.needed idx j h;
    sized = length-set s.needed idx;
    counted = omega (arith, unset-set s.needed idx inside new);
    first = set-Firsts items s.needed idx found;
    stacked = omega (arith, unset-set s.needed idx inside new);
  })
]

mark-flag_at :
    (s : Marking) (idx : ℕ) → idx < length s.needed → flag_at (mark s idx).needed idx ≡ true
unfolding mark
mark-flag_at s idx inside = ground (arith, flag_at-set_self s.needed idx inside)

-- The name is that of a manifest that is marked.
abbrev pub Marked : List Manifest → List Bool → List ℕ → Type 0
Marked items flags name =
    (idx : ℕ) × (find_by_name items name 0 ≡ some idx) × (flag_at flags idx ≡ true)

pub mark_names-Grows :
    (items : List Manifest) (names : List (List ℕ)) (s t : Marking)
    → length s.needed ≡ length items
    → mark_names items names s ≡ ok t
    → Grows items s t × All (Marked items t.needed) names
unfolding mark_names
mark_names-Grows items [] s t sized h =
    let same : s ≡ t = ground arith in (subst (Grows items s) same (Grows-refl items s), tt)
mark_names-Grows items (name ∷ names) s t sized h =
    elim (Option-cases (find_by_name items name 0)) [
      | inl missing ↦ ground (arith, missing)
      | inr (idx, found) ↦
          let inside = (find_by_name_bounds items name 0 idx found).1 in
          let first =
            mark-Grows items s idx (omega arith) (find_by_name_self items name idx found) in
          let rest : mark_names items names (mark s idx) ≡ ok t = ground (arith, found) in
          let (later, all) =
            mark_names-Grows items names (mark s idx) t (first.sized ∙ sized) rest in
          (
            Grows-trans items s (mark s idx) t first later,
            ((idx, found, later.kept idx (mark-flag_at s idx (omega arith))), all),
          )
    ]

pub Marked-kept :
    (items : List Manifest) (before after : List Bool) (names : List (List ℕ))
    → ((k : ℕ) → flag_at before k ≡ true → flag_at after k ≡ true)
    → All (Marked items before) names
    → All (Marked items after) names
Marked-kept items before after [] kept all = tt
Marked-kept items before after (name ∷ names) kept ((idx, found, marked), all) =
    ((idx, found, kept idx marked), Marked-kept items before after names kept all)

pub mark_names-err :
    (items : List Manifest) (names : List (List ℕ)) (s : Marking) (e : Status)
    → mark_names items names s ≡ err e
    → e ≡ dependency_missing
unfolding mark_names
mark_names-err items [] s e h = absurd cc
mark_names-err items (name ∷ names) s e h = elim (Option-cases (find_by_name items name 0)) [
  | inl missing ↦ ground (arith, missing)
  | inr (idx, found) ↦ mark_names-err items names (mark s idx) e (ground (arith, found))
]
