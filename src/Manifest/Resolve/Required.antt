-- ===== src/Manifest/Resolve/Required.antt =====
-- src/core/manifest.c: what a request requires, in `obicall_manifest_resolve`.
use obicall.Common.{
  ℕ, zero, suc, ◌≡◌, refl, sym, subst, inl, inr, true, false, List, [], ◌∷◌, none, some, get_elem?,
  All, Option-cases, replicate,
}
use obicall.Manifest.State.{Manifest}
use obicall.Manifest.Resolve.Search.{
  find_by_name, Marking, flag_at, mark, mark_names, dependencies_at, close_loop,
}
use obicall.Manifest.Resolve.Needed.{flag_at-set_cases, mark-cases}
use obicall.Manifest.Resolve.Searched.{List-cases}
use obicall.Manifest.Resolve.Sort.{blank_marking}
use obicall.Status.{Result, ok, err, ◌>>=◌, dependency_missing}

-- The names that are asked for, and those that a required manifest depends on.
pub data Required (items : List Manifest) (requested : List (List ℕ)) : List ℕ → Type 0 where
  asked :
      {name : List ℕ} (i : ℕ) → get_elem? requested i ≡ some name → Required items requested name
  through :
      {name dep : List ℕ}
      → Required items requested name
      → (k : ℕ) → find_by_name items name 0 ≡ some k
      → (d : ℕ) → get_elem? (dependencies_at items k) d ≡ some dep
      → Required items requested dep

All-each {ℓ κ} :
    {A : Type ℓ} (P : A → Type κ) (xs : List A)
    → ((i : ℕ) (x : A) → get_elem? xs i ≡ some x → P x)
    → All P xs
All-each P [] h = tt
All-each P (x ∷ xs) h = (h 0 x refl, All-each P xs (λ i y e. h (suc i) y e))

module _ (items : List Manifest) (requested : List (List ℕ)) where
  -- The manifest with this index is the first of a required name.
  abbrev pub IsNeeded : ℕ → Type 0
  IsNeeded k =
      (name : List ℕ) × Required items requested name × (find_by_name items name 0 ≡ some k)

  -- A required name is that of no manifest.
  abbrev pub IsMissing : Type 0
  IsMissing = (name : List ℕ) × Required items requested name × (find_by_name items name 0 ≡ none)

  -- Only what is needed is marked, and waits on the stack.
  pub record IsSound (s : Marking) : Type 0 where
    pub marked : (k : ℕ) → flag_at s.needed k ≡ true → IsNeeded k
    pub stacked : All IsNeeded s.stack

  -- A result of the search, if it is sound.
  abbrev pub Explained : Result Marking → Type 0
  Explained (ok s) = IsSound s
  Explained (err e) = e ≡ dependency_missing → IsMissing

  mark-IsSound : (s : Marking) (k : ℕ) → IsNeeded k → IsSound s → IsSound (mark s k)
  mark-IsSound s k n v = elim (mark-cases s k) [
    | inl old ↦ subst IsSound (sym old) v
    | inr (new, e) ↦ subst IsSound (sym e) (record {
      marked = λ j h. elim (flag_at-set_cases s.needed k j h) [
        | inl same ↦ subst IsNeeded same n
        | inr before ↦ v.marked j before
      ];
      stacked = (n, v.stacked);
    })
  ]

  mark_names-Explained :
      (names : List (List ℕ)) (s : Marking)
      → All (Required items requested) names
      → IsSound s
      → Explained (mark_names items names s)
  unfolding mark_names
  mark_names-Explained [] s all v = v
  mark_names-Explained (name ∷ names) s (r, all) v =
      elim (Option-cases (find_by_name items name 0)) [
        | inl missing ↦ rw (missing, mark_names) (λ e. (name, r, missing))
        | inr (k, found) ↦
            rw (found, mark_names)
              (mark_names-Explained names (mark s k) all (mark-IsSound s k (name, r, found) v))
      ]

  dependencies-Required :
      (k : ℕ) → IsNeeded k → All (Required items requested) (dependencies_at items k)
  dependencies-Required k (name, r, found) =
      All-each (Required items requested) (dependencies_at items k)
        (λ d dep e. through r k found d e)

  >>=-Explained :
      (r : Result Marking) (f : Marking → Result Marking)
      → Explained r
      → ((t : Marking) → IsSound t → Explained (f t))
      → Explained (r >>= f)
  >>=-Explained (ok t) f v h = h t v
  >>=-Explained (err e) f v h = v

  pub close_loop-Explained :
      (fuel : ℕ) (s : Marking) → IsSound s → Explained (close_loop fuel items s)
  unfolding close_loop
  close_loop-Explained zero s v = elim (List-cases s.stack) [
    | inl done ↦ rw (done, close_loop) v
    | inr (k, rest, top) ↦ rw (top, close_loop) (λ e. absurd cc)
  ]
  close_loop-Explained (suc fuel) s v = elim (List-cases s.stack) [
    | inl done ↦ rw (done, close_loop) v
    | inr (k, rest, top) ↦
        let (n, below) = subst (All IsNeeded) top v.stacked in
        let popped : Marking = record s { stack = rest } in
        rw (top, close_loop)
          (>>=-Explained (mark_names items (dependencies_at items k) popped) (close_loop fuel items)
            (mark_names-Explained (dependencies_at items k) popped (dependencies-Required k n)
              (record { marked = v.marked; stacked = below }))
            (λ t w. close_loop-Explained fuel t w))
  ]

  pub blank-IsSound :
      (n : ℕ) → ((k : ℕ) → flag_at (replicate n false) k ≡ false) → IsSound (blank_marking n)
  blank-IsSound n clear = record { marked = λ k h. absurd (cc (clear k, h)); stacked = tt }

  pub requested-Explained : (s : Marking) → IsSound s → Explained (mark_names items requested s)
  requested-Explained s v =
      mark_names-Explained requested s
        (All-each (Required items requested) requested (λ i name e. asked i e)) v
