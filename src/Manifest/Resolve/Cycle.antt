-- ===== src/Manifest/Resolve/Cycle.antt =====
-- src/core/manifest.c: what is left out of the order, when `obicall_manifest_resolve` reports a cycle.
use obicall.Common.{
  ℕ, zero, suc, ◌<◌, ◌≡◌, ◌≢◌, refl, sym, ap, subst, ◌∙◌, ◌⊎◌, inl, inr, Bool, true, false, not,
  ◌&&◌, List, [], ◌∷◌, append-nil, some, arith, get_elem?, length, All, Bool-cases,
}
use obicall.Manifest.State.{Manifest}
use obicall.Manifest.Resolve.Search.{find_by_name, flag_at, dependencies_at}
use obicall.Manifest.Resolve.Sort.{Row, is_waiting}
use obicall.Manifest.Resolve.Needed.{Marked}
use obicall.Manifest.Resolve.Names.{
  item_name, has_name, unmet, repeated, find_by_name-str_eq, str_eq_right, str_eq_refl,
}
use obicall.Manifest.Resolve.Release.{ready_at, items_of, flags_of, waiting, contains, Tight}
use obicall.Manifest.Resolve.Queue.{contains-has_name}
use obicall.Manifest.Resolve.Order.{Sorted}
use obicall.Manifest.Resolve.Closed.{Known}
use obicall.Manifest.Resolve.Required.{IsNeeded}

-- Some needed manifests, of which each lists a dependency twice or depends on one of them.
pub record IsStuck (items : List Manifest) (requested : List (List ℕ)) : Type 0 where
  pub stuck : ℕ → Bool
  pub some_stuck : (k : ℕ) × (stuck k ≡ true)
  pub all_needed : (k : ℕ) → stuck k ≡ true → IsNeeded items requested k
  pub blocked :
      (k : ℕ)
      → stuck k ≡ true
      → (repeated (dependencies_at items k) ≡ true)
        ⊎ ((d : ℕ) × (dep : List ℕ) × (j : ℕ) × (get_elem? (dependencies_at items k) d ≡ some dep)
            × (find_by_name items dep 0 ≡ some j)
            × (stuck j ≡ true))

-- A row that waits lists a dependency twice or has one that is not met.
waits-open :
    (items : List Manifest) (order : List ℕ) (rows : List Row) (k : ℕ)
    → All (Tight items order) rows
    → flag_at (flags_of rows) k ≡ true
    → ready_at rows k ≡ false
    → (repeated (dependencies_at (items_of rows) k) ≡ true)
      ⊎ (0 < unmet items order (dependencies_at (items_of rows) k))
waits-open items order [] k all flag waits = absurd cc
waits-open items order (r ∷ rows) zero (tight, all) flag waits =
    elim (Bool-cases (repeated r.item.dependencies)) [
      | inl twice ↦ inl twice
      | inr single ↦ let le = tight single flag in inr (ground (arith, le))
    ]
waits-open items order (r ∷ rows) (suc k) (tight, all) flag waits =
    waits-open items order rows k all flag waits

waiting-some :
    (rows : List Row)
    → 0 < waiting rows
    → (k : ℕ) × (flag_at (flags_of rows) k ≡ true) × (ready_at rows k ≡ false)
unfolding waiting
waiting-some [] h = absurd (omega arith)
waiting-some (r ∷ rows) h = elim (Bool-cases (is_waiting r)) [
  | inl waits ↦ (0, ground (arith, waits), ground (arith, waits))
  | inr passed ↦
      let (k, flag, waits) = waiting-some rows (ground (arith, passed)) in (suc k, flag, waits)
]

unmet-some :
    (items : List Manifest) (order : List ℕ) (names : List (List ℕ))
    → 0 < unmet items order names
    → (d : ℕ) × (dep : List ℕ) × (get_elem? names d ≡ some dep) × (has_name items order dep ≡ false)
unfolding unmet
unmet-some items order [] h = absurd (omega arith)
unmet-some items order (name ∷ names) h = elim (Bool-cases (has_name items order name)) [
  | inl met ↦
      let (d, dep, here, open_dep) = unmet-some items order names (ground (arith, met)) in
      (suc d, dep, here, open_dep)
  | inr open_dep ↦ (0, name, refl, open_dep)
]

All-get_elem? {ℓ κ} :
    {A : Type ℓ} (P : A → Type κ) (xs : List A) (i : ℕ) (x : A)
    → All P xs
    → get_elem? xs i ≡ some x
    → P x
All-get_elem? P [] i x all h = absurd cc
All-get_elem? P (y ∷ xs) zero x (p, all) h = subst P (ground arith) p
All-get_elem? P (y ∷ xs) (suc i) x (p, all) h = All-get_elem? P xs i x all h

module _ (items : List Manifest) (requested : List (List ℕ)) (total : ℕ) (flags : List Bool)
    (order : List ℕ) (s : Sorted items total flags order)
    (known : (k : ℕ) → flag_at flags k ≡ true → Known items flags k)
    (needed : (k : ℕ) → flag_at flags k ≡ true → IsNeeded items requested k) where
  abbrev left_out : ℕ → Bool
  left_out k = flag_at flags k && not (contains order k)

  in_order : (k : ℕ) → contains order k ≡ ready_at s.rows_left k
  in_order k = ap (λ q. contains q k) (sym (append-nil order)) ∙ s.sorting.queued k

  flags_left : (k : ℕ) → flag_at (flags_of s.rows_left) k ≡ flag_at flags k
  flags_left k = ap (λ f. flag_at f k) s.same_flags

  left_out-open :
      (k : ℕ)
      → left_out k ≡ true
      → (repeated (dependencies_at items k) ≡ true)
        ⊎ (0 < unmet items order (dependencies_at items k))
  left_out-open k h =
      subst
        (λ x.
          (repeated (dependencies_at x k) ≡ true) ⊎ (0 < unmet items order (dependencies_at x k)))
        s.sorting.same_items
        (waits-open items order s.rows_left k s.sorting.tight (ground (arith, h, flags_left k))
          (ground (arith, h, in_order k)))

  left_out-blocked :
      (k : ℕ)
      → left_out k ≡ true
      → (repeated (dependencies_at items k) ≡ true)
        ⊎ ((d : ℕ) × (dep : List ℕ) × (j : ℕ) × (get_elem? (dependencies_at items k) d ≡ some dep)
            × (find_by_name items dep 0 ≡ some j)
            × (left_out j ≡ true))
  left_out-blocked k h = elim (left_out-open k h) [
    | inl twice ↦ inl twice
    | inr unmet_some ↦
        let (d, dep, here, open_dep) =
          unmet-some items order (dependencies_at items k) unmet_some in
        let (j, found, marked) =
          All-get_elem? (Marked items flags) (dependencies_at items k) d dep
            (known k (ground (arith, h))) here in
        let name = find_by_name-str_eq items dep 0 j (found ∙ ap some (omega arith)) in
        let same = str_eq_right (item_name items j) dep dep name ∙ str_eq_refl dep in
        let absent : contains order j ≡ false =
          ground (arith, open_dep, contains-has_name items order dep j, same) in
        inr (d, dep, j, here, found, ground (arith, marked, absent))
  ]

  pub Sorted-IsStuck : length order ≢ total → IsStuck items requested
  Sorted-IsStuck short =
      let some_wait : 0 < waiting s.rows_left =
        omega (arith, short, s.sorting.total_kept, ap length (append-nil order)) in
      let (k, flag, waits) = waiting-some s.rows_left some_wait in
      record {
        stuck = left_out;
        some_stuck = (k, ground (arith, flag, waits, flags_left k, in_order k));
        all_needed = λ i h. needed i (ground (arith, h));
        blocked = left_out-blocked;
      }
