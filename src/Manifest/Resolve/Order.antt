-- ===== src/Manifest/Resolve/Order.antt =====
-- src/core/manifest.c: the loop over the queue, in `obicall_manifest_resolve`.
use obicall.Common.{
  ℕ, zero, suc, ◌+◌, ◌≤◌, ◌≡◌, refl, sym, ap, subst, ◌∙◌, inl, inr, Bool, true, false, List, [],
  ◌∷◌, ◌++◌, append_assoc, append-nil, some, arith, length, length-append, All, Bool-cases,
}
use obicall.Manifest.State.{Manifest}
use obicall.Manifest.Resolve.Search.{find_by_name, dependencies_at}
use obicall.Manifest.Resolve.Sort.{Row, release, order_loop, name_at}
use obicall.Manifest.Resolve.Needed.{Firsts}
use obicall.Manifest.Resolve.Names.{item_name, has_name, first_eq}
use obicall.Manifest.Resolve.Release.{
  ready_at, items_of, flags_of, waiting, contains, Counts, Tight, Distinct, release-Counts,
  release-Tight, release_kept, release-ready_at, release-freed, release_complete, release-waiting,
  release-Distinct,
}
use obicall.Manifest.Resolve.Queue.{
  contains-append, Distinct-append, Distinct-middle, queue_round, ready_at-flag_at,
  name_at-item_name, ready_at-Met, has_name-cases, Met,
}

-- The dependencies of each manifest are met by those before it.
abbrev pub Ordered : List Manifest → List ℕ → List ℕ → Type 0
Ordered items before [] = Unit
Ordered items before (i ∷ order) =
    Met items before (dependencies_at items i) × Ordered items (before ++ (i ∷ [])) order

Ordered-snoc :
    (items : List Manifest) (before order : List ℕ) (i : ℕ)
    → Ordered items before order
    → Met items (before ++ order) (dependencies_at items i)
    → Ordered items before (order ++ (i ∷ []))
Ordered-snoc items before [] i all met =
    (subst (λ b. Met items b (dependencies_at items i)) (append-nil before) met, tt)
Ordered-snoc items before (k ∷ order) i (here, all) met = (
  here,
  Ordered-snoc items (before ++ (k ∷ [])) order i all (
      subst (λ b. Met items b (dependencies_at items i)) (sym (append_assoc before (k ∷ []) order))
        met),
)

-- What holds in each round: `order ++ pending` is all that was put in the queue.
pub record IsSorting (items : List Manifest) (total : ℕ) (rows : List Row) (order pending : List ℕ)
    : Type 0 where
  pub same_items : items_of rows ≡ items
  pub firsts : Firsts items (flags_of rows)
  pub counts : All (Counts items order) rows
  pub tight : All (Tight items order) rows
  pub queued : (i : ℕ) → contains (order ++ pending) i ≡ ready_at rows i
  pub distinct : Distinct (order ++ pending)
  pub total_kept : length (order ++ pending) + waiting rows ≡ total
  pub ordered : Ordered items [] order

module _ (items : List Manifest) (total : ℕ) (rows : List Row) (order pending : List ℕ) (i : ℕ)
    (v : IsSorting items total rows order (i ∷ pending)) where
  i-ready : ready_at rows i ≡ true
  unfolding contains
  i-ready = sym (v.queued i) ∙ (contains-append order (i ∷ pending) i ∙ ground arith)

  same_name : name_at rows i ≡ item_name items i
  same_name = name_at-item_name rows i ∙ ap (λ x. item_name x i) v.same_items

  first_of : (k : ℕ) → ready_at rows k ≡ true → find_by_name items (item_name items k) 0 ≡ some k
  first_of k h = v.firsts k (ready_at-flag_at rows k h)

  -- No manifest in the order has this name.
  fresh : has_name items order (item_name items i) ≡ false
  fresh = elim (Bool-cases (has_name items order (item_name items i))) [
    | inl used ↦
        let (k, inside, same) = has_name-cases items order (item_name items i) used in
        let k-ready : ready_at rows k ≡ true =
          sym (v.queued k) ∙ (contains-append order (i ∷ pending) k ∙ ground (arith, inside)) in
        let e = first_eq items i k (first_of i i-ready) (first_of k k-ready) same in
        absurd (cc (Distinct-middle order pending i v.distinct, inside, e))
    | inr new ↦ new
  ]

  met : Met items order (dependencies_at items i)
  met =
      subst (λ x. Met items order (dependencies_at x i)) v.same_items
        (ready_at-Met items order rows i v.counts i-ready)

  abbrev rows' : List Row
  rows' = (release (name_at rows i) rows 0).0

  abbrev freed : List ℕ
  freed = (release (name_at rows i) rows 0).1

  abbrev queue : List ℕ
  queue = order ++ (i ∷ pending)

  freed-ready :
      (k : ℕ) → contains freed k ≡ true → (ready_at rows' k ≡ true) × (ready_at rows k ≡ false)
  freed-ready k h = release-freed (name_at rows i) rows 0 k (ap (contains freed) shift ∙ h)
    where
      shift : 0 + k ≡ k
      shift = omega arith

  ready-freed :
      (k : ℕ) → ready_at rows' k ≡ true → ready_at rows k ≡ false → contains freed k ≡ true
  ready-freed k now before =
      ap (contains freed) shift ∙ release_complete (name_at rows i) rows 0 k now before
    where
      shift : k ≡ 0 + k
      shift = omega arith

  queued' : (k : ℕ) → contains (queue ++ freed) k ≡ ready_at rows' k
  queued' k = ground (
    arith,
    contains-append queue freed k,
    v.queued k,
    freed-ready k,
    ready-freed k,
    release-ready_at (name_at rows i) rows 0 k,
  )

  distinct' : Distinct (queue ++ freed)
  distinct' =
      Distinct-append queue freed v.distinct (release-Distinct (name_at rows i) rows 0)
        (λ k h. ground (arith, v.queued k, freed-ready k, h))

  total_kept' : length (queue ++ freed) + waiting rows' ≡ total
  total_kept' =
      omega
        (arith, length-append queue freed, v.total_kept, release-waiting (name_at rows i) rows 0)

  pub round-IsSorting : IsSorting items total rows' (order ++ (i ∷ [])) (pending ++ freed)
  round-IsSorting =
      let same = queue_round order pending freed i in
      let (items_kept, flags_kept) = release_kept (name_at rows i) rows 0 in
      record {
        same_items = items_kept ∙ v.same_items;
        firsts = subst (Firsts items) (sym flags_kept) v.firsts;
        counts =
            subst (λ n. All (Counts items (order ++ (i ∷ []))) (release n rows 0).0) (sym same_name)
              (release-Counts items order i rows 0 fresh v.counts);
        tight =
            subst (λ n. All (Tight items (order ++ (i ∷ []))) (release n rows 0).0) (sym same_name)
              (release-Tight items order i rows 0 v.tight);
        queued = λ k. ap (λ q. contains q k) same ∙ queued' k;
        distinct = subst Distinct (sym same) distinct';
        total_kept = subst (λ q. length q + waiting rows' ≡ total) (sym same) total_kept';
        ordered = Ordered-snoc items [] order i v.ordered met;
      }

-- What the loop ends with, from rows that have these flags.
pub record Sorted (items : List Manifest) (total : ℕ) (flags : List Bool) (order : List ℕ)
    : Type 0 where
  pub rows_left : List Row
  pub same_flags : flags_of rows_left ≡ flags
  pub sorting : IsSorting items total rows_left order []

-- On as much fuel as there are manifests in the queue or waiting the loop ends by itself.
pub order_loop-Sorted :
    (fuel : ℕ) (items : List Manifest) (total : ℕ) (rows : List Row) (order pending : List ℕ)
    → length pending + waiting rows ≤ fuel
    → IsSorting items total rows order pending
    → (last : List ℕ) × (order_loop fuel rows pending order ≡ some last)
      × Sorted items total (flags_of rows) last
unfolding order_loop
order_loop-Sorted zero items total rows order [] enough v =
    (order, refl, record { rows_left = rows; same_flags = refl; sorting = v })
order_loop-Sorted zero items total rows order (i ∷ pending) enough v = absurd (omega arith)
order_loop-Sorted (suc fuel) items total rows order [] enough v =
    (order, refl, record { rows_left = rows; same_flags = refl; sorting = v })
order_loop-Sorted (suc fuel) items total rows order (i ∷ pending) enough v =
    let name = name_at rows i in
    let (last, e, s) =
      order_loop-Sorted fuel items total (release (name_at rows i) rows 0).0 (order ++ (i ∷ []))
        (pending ++ (release (name_at rows i) rows 0).1)
        (omega (arith, length-append pending (release name rows 0).1, release-waiting name rows 0))
        (round-IsSorting items total rows order pending i v) in
    (last, e, subst (λ f. Sorted items total f last) (release_kept name rows 0).1 s)
