-- ===== src/Manifest/Rank/Sorted.antt =====
-- src/core/manifest.c: the alternatives are the eligible manifests, in the order of their scores.
use obicall.Common.{
  ℕ, zero, suc, ◌+◌, ◌≤◌, ◌≡◌, refl, sym, ap, subst, ◌∙◌, Bool, true, false, ◌||◌, List, [], ◌∷◌,
  Option, none, some, arith, length, get_elem?, take,
}
use obicall.Manifest.State.{Manifest}
use obicall.Manifest.Resolve.Release.{contains, Distinct}
use obicall.Manifest.Rank.Kept.{
  sort_loop-contains, forwards-contains, sort_loop-length, forwards-length, take_more,
  sort_loop-Distinct, forwards-Distinct,
}
use obicall.Manifest.Rank.{candidates_from, sort_loop, forwards, rank_alternatives}
use obicall.Manifest.Rank.Adjacent.{sort_loop-RankedBack, all-forwards-Ranked, take-Ranked}
use obicall.Manifest.Rank.Order.{
  Ordered, HasScores, Ranked-Ordered, is_alternative, is_eligible-is_alternative,
}

module _ (items : List Manifest) (slot : List ℕ) (host : Option (List ℕ)) where
  -- The manifest with this index is an alternative.
  abbrev pub alternative_at : List Manifest → ℕ → Bool
  alternative_at rest k = elim (get_elem? rest k) [
    | none ↦ false
    | some m ↦ is_alternative items slot host m
  ]

  candidates_from_bounds :
      (rest : List Manifest) (i k : ℕ)
      → contains (candidates_from items slot host rest i) k ≡ true
      → i ≤ k
  unfolding candidates_from contains
  candidates_from_bounds [] i k h = absurd cc
  candidates_from_bounds (m ∷ rest) i k h = ground (arith, candidates_from_bounds rest (suc i) k)

  candidates_from-contains :
      (rest : List Manifest) (i k : ℕ)
      → contains (candidates_from items slot host rest i) (i + k) ≡ alternative_at rest k
  unfolding candidates_from contains
  candidates_from-contains [] i k = refl
  candidates_from-contains (m ∷ rest) i zero = ground (
    arith,
    candidates_from_bounds rest (suc i) (i + 0),
    is_eligible-is_alternative items slot host m,
  )
  candidates_from-contains (m ∷ rest) i (suc k) =
      ground (arith, candidates_from-contains rest (suc i) k)

  candidates_from-Distinct :
      (rest : List Manifest) (i : ℕ) → Distinct (candidates_from items slot host rest i)
  unfolding candidates_from
  candidates_from-Distinct [] i = tt
  candidates_from-Distinct (m ∷ rest) i =
      let more = candidates_from-Distinct rest (suc i) in
      ground (arith, candidates_from_bounds rest (suc i) i)

  candidates_from-length :
      (rest : List Manifest) (i : ℕ) → length (candidates_from items slot host rest i) ≤ length rest
  unfolding candidates_from
  candidates_from-length [] i = omega arith
  candidates_from-length (m ∷ rest) i = ground (arith, candidates_from-length rest (suc i))

  -- For scores that are numbers and where there is room for all: exactly the manifests are returned that name this
  -- slot, are for the host's architecture where both name one, of ABI 1.0 and with all dependencies resolved, whatever
  -- the digests of their artifacts; none twice, and each of them has a lower score than all behind it, or no
  -- higher score and no name behind theirs.
  pub rank_alternatives-Ordered :
      (out_cap : ℕ)
      → HasScores items
      → length items ≤ out_cap
      → Ordered items (rank_alternatives items slot host out_cap)
        × Distinct (rank_alternatives items slot host out_cap)
        × ((k : ℕ)
            → contains (rank_alternatives items slot host out_cap) k ≡ alternative_at items k)
  unfolding rank_alternatives contains
  rank_alternatives-Ordered out_cap scores room =
      let keys = candidates_from items slot host items 0 in
      let sorted = sort_loop items keys [] in
      let all = forwards sorted [] in
      let whole : take out_cap all ≡ all = take_more out_cap all (
        omega (
          arith,
          forwards-length sorted [],
          sort_loop-length items keys [],
          candidates_from-length items 0,
        )) in
      (
        Ranked-Ordered items (take out_cap all) scores (
            take-Ranked items out_cap all
              (all-forwards-Ranked items sorted (sort_loop-RankedBack items keys [] tt))),
        subst Distinct (sym whole) (
            forwards-Distinct sorted []
              (sort_loop-Distinct items keys [] (candidates_from-Distinct items 0) tt (λ k h. refl))
              tt (λ k h. refl)),
        λ k.
            ap (λ q. contains q k) whole
            ∙ (forwards-contains sorted [] k ∙ same keys k (candidates_from-contains items 0 k)),
      )
    where
      same :
          (keys : List ℕ) (k : ℕ)
          → contains keys (0 + k) ≡ alternative_at items k
          → (contains (sort_loop items keys []) k || contains [] k) ≡ alternative_at items k
      same keys k h =
          let shift : k ≡ 0 + k = omega arith in
          let here : contains keys k ≡ alternative_at items k = ap (contains keys) shift ∙ h in
          ground (arith, sort_loop-contains items keys [] k, here)
