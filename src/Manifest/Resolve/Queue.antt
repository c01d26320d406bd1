-- ===== src/Manifest/Resolve/Queue.antt =====
-- src/core/manifest.c: the queue of the manifests whose dependencies are met, without repetition.
use obicall.Common.{
  ℕ, zero, suc, ◌≡◌, refl, ap, inl, inr, true, false, ◌||◌, List, [], ◌∷◌, ◌++◌, append_assoc,
  arith, ◌==◌, All, Bool-cases,
}
use obicall.Common.Text.{str_eq}
use obicall.Manifest.State.{Manifest}
use obicall.Manifest.Resolve.Search.{flag_at, dependencies_at}
use obicall.Manifest.Resolve.Sort.{Row, name_at}
use obicall.Manifest.Resolve.Names.{item_name, has_name, unmet}
use obicall.Manifest.Resolve.Release.{ready_at, items_of, flags_of, contains, Counts, Distinct}

pub contains-append :
    (xs ys : List ℕ) (k : ℕ) → contains (xs ++ ys) k ≡ (contains xs k || contains ys k)
unfolding contains
contains-append [] ys k = ground arith
contains-append (x ∷ xs) ys k = ground (arith, contains-append xs ys k)

pub Distinct-append :
    (xs ys : List ℕ)
    → Distinct xs
    → Distinct ys
    → ((k : ℕ) → contains xs k ≡ true → contains ys k ≡ false)
    → Distinct (xs ++ ys)
unfolding contains
Distinct-append [] ys dx dy apart = dy
Distinct-append (x ∷ xs) ys (new, dx) dy apart = (
  ground (arith, contains-append xs ys x, apart x),
  Distinct-append xs ys dx dy (λ k h. apart k (ground (arith, h))),
)

pub Distinct-middle : (xs ys : List ℕ) (i : ℕ) → Distinct (xs ++ (i ∷ ys)) → contains xs i ≡ false
unfolding contains
Distinct-middle [] ys i d = refl
Distinct-middle (x ∷ xs) ys i (new, d) =
    ground (arith, contains-append xs (i ∷ ys) x, Distinct-middle xs ys i d)

-- The queue after a round, with what was put in it behind.
pub queue_round :
    (order pending freed : List ℕ) (i : ℕ)
    → (order ++ (i ∷ [])) ++ (pending ++ freed) ≡ (order ++ (i ∷ pending)) ++ freed
queue_round order pending freed i = simp append_assoc

pub ready_at-flag_at :
    (rows : List Row) (i : ℕ) → ready_at rows i ≡ true → flag_at (flags_of rows) i ≡ true
ready_at-flag_at [] i h = absurd cc
ready_at-flag_at (r ∷ rows) zero h = ground arith
ready_at-flag_at (r ∷ rows) (suc i) h = ready_at-flag_at rows i h

pub name_at-item_name : (rows : List Row) (i : ℕ) → name_at rows i ≡ item_name (items_of rows) i
name_at-item_name [] i = refl
name_at-item_name (r ∷ rows) zero = refl
name_at-item_name (r ∷ rows) (suc i) = name_at-item_name rows i

ready_at-unmet :
    (items : List Manifest) (order : List ℕ) (rows : List Row) (i : ℕ)
    → All (Counts items order) rows
    → ready_at rows i ≡ true
    → unmet items order (dependencies_at (items_of rows) i) ≡ 0
ready_at-unmet items order [] i all h = absurd cc
ready_at-unmet items order (r ∷ rows) zero (count, all) h = ground (arith, count)
ready_at-unmet items order (r ∷ rows) (suc i) (count, all) h =
    ready_at-unmet items order rows i all h

-- Each name is that of a manifest in the order.
abbrev pub Met : List Manifest → List ℕ → List (List ℕ) → Type 0
Met items order = All (λ d. has_name items order d ≡ true)

unmet-Met :
    (items : List Manifest) (order : List ℕ) (names : List (List ℕ))
    → unmet items order names ≡ 0
    → Met items order names
unfolding unmet
unmet-Met items order [] h = tt
unmet-Met items order (d ∷ names) h = elim (Bool-cases (has_name items order d)) [
  | inl met ↦ (met, unmet-Met items order names (ground (arith, met)))
  | inr open_dep ↦ absurd (ground (arith, open_dep))
]

pub ready_at-Met :
    (items : List Manifest) (order : List ℕ) (rows : List Row) (i : ℕ)
    → All (Counts items order) rows
    → ready_at rows i ≡ true
    → Met items order (dependencies_at (items_of rows) i)
ready_at-Met items order rows i all h =
    unmet-Met items order _ (ready_at-unmet items order rows i all h)

-- A name that the order has is that of one of its manifests.
pub has_name-cases :
    (items : List Manifest) (order name : List ℕ)
    → has_name items order name ≡ true
    → (k : ℕ) × (contains order k ≡ true) × (str_eq name (item_name items k) ≡ true)
unfolding has_name contains
has_name-cases items [] name h = absurd cc
has_name-cases items (k ∷ order) name h = elim (Bool-cases (str_eq name (item_name items k))) [
  | inl here ↦ (k, ground arith, here)
  | inr other ↦
      let (i, inside, same) = has_name-cases items order name (ground (arith, other)) in
      (i, ground (arith, inside), same)
]

pub contains-has_name :
    (items : List Manifest) (order name : List ℕ) (k : ℕ)
    → contains order k ≡ true
    → str_eq name (item_name items k) ≡ true
    → has_name items order name ≡ true
unfolding has_name contains
contains-has_name items [] name k inside same = absurd cc
contains-has_name items (i ∷ order) name k inside same = elim (Bool-cases (i == k)) [
  | inl here ↦
      let e : i ≡ k = ground (arith, here) in
      ground (arith, ap (λ (x : ℕ). str_eq name (item_name items x)) e)
  | inr other ↦ ground (arith, other, contains-has_name items order name k)
]
