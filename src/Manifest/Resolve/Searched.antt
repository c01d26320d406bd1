-- ===== src/Manifest/Resolve/Searched.antt =====
-- src/core/manifest.c: the search of `obicall_manifest_resolve` ends, and keeps the marks.
use obicall.Common.{
  ℕ, zero, suc, ◌+◌, ◌≤◌, ◌≡◌, refl, sym, ap, subst, ◌∙◌, ◌⊎◌, inl, inr, true, List, [], ◌∷◌, arith,
  length,
}
use obicall.Manifest.State.{Manifest}
use obicall.Manifest.Resolve.Search.{Marking, flag_at, mark_names, dependencies_at, close_loop}
use obicall.Status.{Result, ok, err, ◌>>=◌, dependency_missing}
use obicall.Manifest.Resolve.Needed.{unset, Firsts, Grows, mark_names-Grows, mark_names-err}

-- What the search keeps of a marking.
pub record Keeps (items : List Manifest) (s t : Marking) : Type 0 where
  pub kept : (j : ℕ) → flag_at s.needed j ≡ true → flag_at t.needed j ≡ true
  pub sized : length t.needed ≡ length s.needed
  pub counted : t.needed_count + unset t.needed ≡ s.needed_count + unset s.needed
  pub first : Firsts items s.needed → Firsts items t.needed

-- The search keeps the marks and the count, and on as much fuel as there are manifests to look at it
-- fails only for a name that no manifest has.
abbrev pub Searched : List Manifest → Marking → Result Marking → Type 0
Searched items s (ok t) = Keeps items s t
Searched items s (err e) = e ≡ dependency_missing

Searched-pop :
    (items : List Manifest) (rest : List ℕ) (s t : Marking) (r : Result Marking)
    → Grows items (record s { stack = rest }) t
    → Searched items t r
    → Searched items s r
Searched-pop items rest s t (ok u) g k = record {
  kept = λ j f. k.kept j (g.kept j f);
  sized = k.sized ∙ g.sized;
  counted = k.counted ∙ g.counted;
  first = λ f. k.first (g.first f);
}
Searched-pop items rest s t (err e) g k = k

-- One round, for a loop that does what is promised on what the round leaves.
module _ (items : List Manifest) (loop : Marking → Result Marking) (work : ℕ) where
  abbrev Promise : Type 0
  Promise =
      (t : Marking)
      → length t.needed ≡ length items
      → length t.stack + unset t.needed ≤ work
      → Searched items t (loop t)

  round-Searched :
      (s : Marking) (idx : ℕ) (rest : List ℕ) (r : Result Marking)
      → s.stack ≡ idx ∷ rest
      → length s.needed ≡ length items
      → length s.stack + unset s.needed ≤ suc work
      → mark_names items (dependencies_at items idx) (record s { stack = rest }) ≡ r
      → Promise
      → Searched items s (r >>= loop)
  round-Searched s idx rest (ok t) top sized enough marked promise =
      let (g, _) =
        mark_names-Grows items (dependencies_at items idx) (record s { stack = rest }) t sized
          marked in
      Searched-pop items rest s t (loop t) g
        (promise t (g.sized ∙ sized) (omega (arith, ap length top, g.stacked)))
  round-Searched s idx rest (err e) top sized enough marked promise =
      mark_names-err items (dependencies_at items idx) (record s { stack = rest }) e marked

pub List-cases : (xs : List ℕ) → (xs ≡ []) ⊎ ((x : ℕ) × (rest : List ℕ) × (xs ≡ x ∷ rest))
List-cases [] = inl refl
List-cases (x ∷ xs) = inr (x, xs, refl)

Keeps-refl : (items : List Manifest) (s : Marking) → Keeps items s s
Keeps-refl items s = record { kept = λ j f. f; sized = refl; counted = refl; first = λ f. f }

pub close_loop-Searched :
    (fuel : ℕ) (items : List Manifest) (s : Marking)
    → length s.needed ≡ length items
    → length s.stack + unset s.needed ≤ fuel
    → Searched items s (close_loop fuel items s)
unfolding close_loop
close_loop-Searched zero items s sized enough = elim (List-cases s.stack) [
  | inl done ↦
      let e : close_loop zero items s ≡ ok s = ground (arith, done) in
      subst (Searched items s) (sym e) (Keeps-refl items s)
  | inr (idx, rest, top) ↦ absurd (omega (arith, ap length top))
]
close_loop-Searched (suc fuel) items s sized enough = elim (List-cases s.stack) [
  | inl done ↦
      let e : close_loop (suc fuel) items s ≡ ok s = ground (arith, done) in
      subst (Searched items s) (sym e) (Keeps-refl items s)
  | inr (idx, rest, top) ↦
      let r = mark_names items (dependencies_at items idx) (record s { stack = rest }) in
      let e : close_loop (suc fuel) items s ≡ (r >>= close_loop fuel items) = ground (arith, top) in
      subst (Searched items s) (sym e) (
        round-Searched items (close_loop fuel items) fuel s idx rest r top sized enough refl
          (close_loop-Searched fuel items))
]
