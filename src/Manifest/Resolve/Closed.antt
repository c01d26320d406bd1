-- ===== src/Manifest/Resolve/Closed.antt =====
-- src/core/manifest.c: the search of `obicall_manifest_resolve` also marks what the marked ones depend on.
use obicall.Common.{
  ℕ, zero, suc, ◌≡◌, sym, ap, subst, ◌∙◌, ◌⊎◌, inl, inr, Bool, true, false, List, [], ◌∷◌, arith,
  ◌==◌, length, All, Option-cases, Bool-cases,
}
use obicall.Manifest.State.{Manifest}
use obicall.Manifest.Resolve.Search.{
  find_by_name, Marking, flag_at, mark, mark_names, dependencies_at, close_loop,
}
use obicall.Manifest.Resolve.Needed.{
  flag_at-set_cases, mark-cases, Marked, Marked-kept, mark_names-Grows,
}
use obicall.Manifest.Resolve.Searched.{List-cases}
use obicall.Manifest.Resolve.Release.{contains}
use obicall.Status.{ok, Result-cases}

-- What is newly marked is on the stack, and nothing is taken off it.
record Pushes (s t : Marking) : Type 0 where
  pushed :
      (k : ℕ)
      → flag_at t.needed k ≡ true
      → (flag_at s.needed k ≡ true) ⊎ (contains t.stack k ≡ true)
  stays : (k : ℕ) → contains s.stack k ≡ true → contains t.stack k ≡ true

mark-Pushes : (s : Marking) (idx : ℕ) → Pushes s (mark s idx)
unfolding contains
mark-Pushes s idx = elim (mark-cases s idx) [
  | inl old ↦ subst (Pushes s) (sym old) (record { pushed = λ k h. inl h; stays = λ k h. h })
  | inr (new, e) ↦ subst (Pushes s) (sym e) (record {
    pushed = λ k h. elim (flag_at-set_cases s.needed idx k h) [
      | inl same ↦ inr (ground (arith, same))
      | inr before ↦ inl before
    ];
    stays = λ k h. ground (arith, h);
  })
]

Pushes-trans : (s t u : Marking) → Pushes s t → Pushes t u → Pushes s u
Pushes-trans s t u p q = record {
  pushed = λ k h. elim (q.pushed k h) [
    | inl before ↦ elim (p.pushed k before) [
      | inl first ↦ inl first
      | inr waits ↦ inr (q.stays k waits)
    ]
    | inr waits ↦ inr waits
  ];
  stays = λ k h. q.stays k (p.stays k h);
}

mark_names-Pushes :
    (items : List Manifest) (names : List (List ℕ)) (s t : Marking)
    → mark_names items names s ≡ ok t
    → Pushes s t
unfolding mark_names
mark_names-Pushes items [] s t h =
    let same : s ≡ t = ground arith in
    subst (Pushes s) same (record { pushed = λ k h. inl h; stays = λ k h. h })
mark_names-Pushes items (name ∷ names) s t h = elim (Option-cases (find_by_name items name 0)) [
  | inl missing ↦ ground (arith, missing)
  | inr (idx, found) ↦
      let rest : mark_names items names (mark s idx) ≡ ok t = ground (arith, found) in
      Pushes-trans s (mark s idx) t (mark-Pushes s idx)
        (mark_names-Pushes items names (mark s idx) t rest)
]

module _ (items : List Manifest) where
  -- All that the manifest depends on is marked.
  abbrev pub Known : List Bool → ℕ → Type 0
  Known flags k = All (Marked items flags) (dependencies_at items k)

  -- The same of each that is marked, or it is still on the stack.
  abbrev pub IsClosed : Marking → Type 0
  IsClosed s = (k : ℕ) → flag_at s.needed k ≡ true → (contains s.stack k ≡ true) ⊎ Known s.needed k

  pop-IsClosed :
      (s t : Marking) (idx : ℕ) (rest : List ℕ)
      → s.stack ≡ idx ∷ rest
      → length s.needed ≡ length items
      → mark_names items (dependencies_at items idx) (record s { stack = rest }) ≡ ok t
      → IsClosed s
      → IsClosed t
  unfolding contains
  pop-IsClosed s t idx rest top sized h v k marked =
      let popped : Marking = record s { stack = rest } in
      let (g, known) = mark_names-Grows items (dependencies_at items idx) popped t sized h in
      let p = mark_names-Pushes items (dependencies_at items idx) popped t h in
      elim (p.pushed k marked) [
        | inr waits ↦ inl waits
        | inl before ↦ elim (v k before) [
          | inr all ↦ inr (Marked-kept items s.needed t.needed _ g.kept all)
          | inl waits ↦ elim (Bool-cases (idx == k)) [
            | inl here ↦
                let e : idx ≡ k = ground (arith, here) in inr (subst (Known t.needed) e known)
            | inr other ↦
                let below : contains rest k ≡ true =
                  ground (arith, other, sym (ap (λ q. contains q k) top) ∙ waits) in
                inl (p.stays k below)
          ]
        ]
      ]

  empty-Known :
      (s t : Marking)
      → s.stack ≡ []
      → s ≡ t
      → IsClosed s
      → (k : ℕ) → flag_at t.needed k ≡ true
      → Known t.needed k
  unfolding contains
  empty-Known s t done same v k marked = elim (v k (ap (λ x. flag_at x.needed k) same ∙ marked)) [
    | inl waits ↦ absurd (cc (ap (λ q. contains q k) done, waits))
    | inr all ↦ subst (λ x. Known x.needed k) same all
  ]

  pub close_loop-Known :
      (fuel : ℕ) (s t : Marking)
      → length s.needed ≡ length items
      → IsClosed s
      → close_loop fuel items s ≡ ok t
      → (k : ℕ) → flag_at t.needed k ≡ true
      → Known t.needed k
  unfolding close_loop
  close_loop-Known zero s t sized v h = elim (List-cases s.stack) [
    | inl done ↦ empty-Known s t done (ground (arith, done)) v
    | inr (idx, rest, top) ↦ absurd (ground (arith, top))
  ]
  close_loop-Known (suc fuel) s t sized v h = elim (List-cases s.stack) [
    | inl done ↦ empty-Known s t done (ground (arith, done)) v
    | inr (idx, rest, top) ↦
        let popped : Marking = record s { stack = rest } in
        let r = mark_names items (dependencies_at items idx) popped in
        elim (Result-cases r) [
          | inl (e, bad) ↦ absurd (ground (arith, top, bad))
          | inr (u, good) ↦
              let again : close_loop fuel items u ≡ ok t = ground (arith, top, good) in
              let (g, known) =
                mark_names-Grows items (dependencies_at items idx) popped u sized good in
              close_loop-Known fuel u t (g.sized ∙ sized)
                (pop-IsClosed s u idx rest top sized good v) again
        ]
  ]

  -- What is asked for is on the stack at first.
  pub asked-IsClosed :
      (requested : List (List ℕ)) (s t : Marking)
      → ((k : ℕ) → flag_at s.needed k ≡ false)
      → mark_names items requested s ≡ ok t
      → IsClosed t
  asked-IsClosed requested s t clear h k marked =
      elim ((mark_names-Pushes items requested s t h).pushed k marked) [
        | inl before ↦ absurd (cc (clear k, before))
        | inr waits ↦ inl waits
      ]
