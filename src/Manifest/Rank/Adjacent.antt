-- ===== src/Manifest/Rank/Adjacent.antt =====
-- src/core/manifest.c: the sorting of the alternatives, from one to the next.
use obicall.Common.{
  ℕ, zero, suc, ◌≡◌, refl, subst, inl, inr, true, false, List, [], ◌∷◌, arith, take, Bool-cases,
}
use obicall.Manifest.State.{Manifest, text_gt}
use obicall.Manifest.Rank.{score_at, text_at, should_shift, shift_loop, sort_loop, forwards}
use obicall.Observation.Doubles.{f64_eq, f64_lt_asymm}

-- No entry has a higher score than the next, or the same score and a name behind that of the next.
abbrev pub Ranked : List Manifest → List ℕ → Type 0
Ranked items [] = Unit
Ranked items (i ∷ []) = Unit
Ranked items (i ∷ j ∷ rest) = (should_shift items i j ≡ false) × Ranked items (j ∷ rest)

-- The same of a list with its last entry first.
abbrev pub RankedBack : List Manifest → List ℕ → Type 0
RankedBack items [] = Unit
RankedBack items (j ∷ []) = Unit
RankedBack items (j ∷ i ∷ rest) = (should_shift items i j ≡ false) × RankedBack items (i ∷ rest)

text_gt_asymm : (xs ys : List ℕ) → text_gt xs ys ≡ true → text_gt ys xs ≡ false
unfolding text_gt
text_gt_asymm [] ys h = absurd cc
text_gt_asymm (x ∷ xs) [] h = refl
text_gt_asymm (x ∷ xs) (y ∷ ys) h = ground (arith, text_gt_asymm xs ys)

should_shift_asymm :
    (items : List Manifest) (i j : ℕ)
    → should_shift items i j ≡ true
    → should_shift items j i ≡ false
unfolding should_shift f64_eq
should_shift_asymm items i j h = ground (
  arith,
  f64_lt_asymm (score_at items i) (score_at items j),
  f64_lt_asymm (score_at items j) (score_at items i),
  text_gt_asymm (text_at items i) (text_at items j),
)

shift_loop-RankedBack :
    (items : List Manifest) (key : ℕ) (sorted : List ℕ)
    → RankedBack items sorted
    → RankedBack items (shift_loop items key sorted)
unfolding shift_loop
shift_loop-RankedBack items key [] v = tt
shift_loop-RankedBack items key (cur ∷ []) v = elim (Bool-cases (should_shift items cur key)) [
  | inl behind ↦ rw behind (should_shift_asymm items cur key behind, tt)
  | inr stays ↦ rw stays (stays, tt)
]
shift_loop-RankedBack items key (cur ∷ prev ∷ rest) (link, v) =
    elim (Bool-cases (should_shift items cur key)) [
      | inl behind ↦ elim (Bool-cases (should_shift items prev key)) [
        | inl further ↦
            let ih = shift_loop-RankedBack items key (prev ∷ rest) v in
            let same : shift_loop items key (prev ∷ rest) ≡ prev ∷ shift_loop items key rest =
              ground (arith, further) in
            rw (behind, further) (link, subst (RankedBack items) same ih)
        | inr here ↦ rw (behind, here) (should_shift_asymm items cur key behind, (here, v))
      ]
      | inr stays ↦ rw stays (stays, (link, v))
    ]

pub sort_loop-RankedBack :
    (items : List Manifest) (keys sorted : List ℕ)
    → RankedBack items sorted
    → RankedBack items (sort_loop items keys sorted)
unfolding sort_loop
sort_loop-RankedBack items [] sorted v = v
sort_loop-RankedBack items (key ∷ keys) sorted v =
    sort_loop-RankedBack items keys (shift_loop items key sorted)
      (shift_loop-RankedBack items key sorted v)

forwards-Ranked :
    (items : List Manifest) (i : ℕ) (sorted acc : List ℕ)
    → RankedBack items (i ∷ sorted)
    → Ranked items (i ∷ acc)
    → Ranked items (forwards sorted (i ∷ acc))
unfolding forwards
forwards-Ranked items i [] acc back v = v
forwards-Ranked items i (j ∷ sorted) acc (link, back) v =
    forwards-Ranked items j sorted (i ∷ acc) back (link, v)

pub all-forwards-Ranked :
    (items : List Manifest) (sorted : List ℕ)
    → RankedBack items sorted
    → Ranked items (forwards sorted [])
unfolding forwards
all-forwards-Ranked items [] back = tt
all-forwards-Ranked items (i ∷ sorted) back = forwards-Ranked items i sorted [] back tt

pub take-Ranked :
    (items : List Manifest) (n : ℕ) (is : List ℕ) → Ranked items is → Ranked items (take n is)
take-Ranked items zero is v = tt
take-Ranked items (suc n) [] v = tt
take-Ranked items (suc n) (i ∷ []) v = take_one n
  where
    take_one : (k : ℕ) → Ranked items (i ∷ take k [])
    take_one zero = tt
    take_one (suc k) = tt
take-Ranked items (suc zero) (i ∷ j ∷ is) v = tt
take-Ranked items (suc (suc n)) (i ∷ j ∷ is) (link, v) =
    (link, take-Ranked items (suc n) (j ∷ is) v)
