-- ===== src/Manifest/Rank/Order.antt =====
-- src/core/manifest.c: the order of the alternatives, and which manifests are alternatives.
use obicall.Common.{
  ℕ, zero, suc, ◌≡◌, refl, ◌⊎◌, inl, inr, Bool, true, false, not, ◌&&◌, ◌||◌, List, [], ◌∷◌, Option,
  none, some, arith, ◌==◌, All, ◌≤ℤ◌, ◌<ℤ◌,
}
use obicall.Common.Text.{str_eq}
use obicall.Manifest.State.{Manifest, text_gt}
use obicall.Manifest.Rank.{resolves, is_eligible, score_at, text_at, should_shift}
use obicall.Manifest.Rank.Adjacent.{Ranked}
use obicall.Manifest.Resolve.Sort.{resolve}
use obicall.Observation.Doubles.{is_nan, rank, f64_lt, f64_eq}

-- The first one has a lower score, or no higher score and no name behind that of the second.
abbrev pub InOrder : List Manifest → ℕ → ℕ → Type 0
InOrder items i j =
    (rank (score_at items i) <ℤ rank (score_at items j))
    ⊎ ((rank (score_at items i) ≤ℤ rank (score_at items j))
        × (text_gt (text_at items i) (text_at items j) ≡ false))

-- Each entry is in order with all behind it.
abbrev pub Ordered : List Manifest → List ℕ → Type 0
Ordered items [] = Unit
Ordered items (i ∷ is) = All (InOrder items i) is × Ordered items is

-- No score is a NaN.
abbrev pub HasScores : List Manifest → Type 0
HasScores items = All (λ (m : Manifest). is_nan m.preference_score ≡ false) items

score_at-number :
    (items : List Manifest) (i : ℕ) → HasScores items → is_nan (score_at items i) ≡ false
score_at-number [] i all = refl
score_at-number (m ∷ items) zero (here, all) = here
score_at-number (m ∷ items) (suc i) (here, all) = score_at-number items i all

text_gt_trans :
    (xs ys zs : List ℕ) → text_gt xs ys ≡ false → text_gt ys zs ≡ false → text_gt xs zs ≡ false
unfolding text_gt
text_gt_trans [] ys zs h k = refl
text_gt_trans (x ∷ xs) [] zs h k = absurd cc
text_gt_trans (x ∷ xs) (y ∷ ys) [] h k = absurd cc
text_gt_trans (x ∷ xs) (y ∷ ys) (z ∷ zs) h k = ground (arith, text_gt_trans xs ys zs)

InOrder-trans :
    (items : List Manifest) (i j k : ℕ) → InOrder items i j → InOrder items j k → InOrder items i k
InOrder-trans items i j k (inl lt) (inl lt') = inl (omega arith)
InOrder-trans items i j k (inl lt) (inr (le, name)) = inl (omega arith)
InOrder-trans items i j k (inr (le, name)) (inl lt) = inl (omega arith)
InOrder-trans items i j k (inr (le, name)) (inr (le', name')) =
    inr (omega arith, text_gt_trans _ _ _ name name')

stays-InOrder :
    (items : List Manifest) (i j : ℕ)
    → HasScores items
    → should_shift items i j ≡ false
    → InOrder items i j
unfolding should_shift f64_lt f64_eq
stays-InOrder items i j all h =
    ground (arith, score_at-number items i all, score_at-number items j all)

first-InOrder :
    (items : List Manifest) (i j : ℕ) (is : List ℕ)
    → InOrder items i j
    → All (InOrder items j) is
    → All (InOrder items i) is
first-InOrder items i j [] h all = tt
first-InOrder items i j (k ∷ is) h (next, all) =
    (InOrder-trans items i j k h next, first-InOrder items i j is h all)

pub Ranked-Ordered :
    (items : List Manifest) (is : List ℕ) → HasScores items → Ranked items is → Ordered items is
Ranked-Ordered items [] all v = tt
Ranked-Ordered items (i ∷ []) all v = (tt, tt)
Ranked-Ordered items (i ∷ j ∷ is) all (link, v) =
    let (later, rest) = Ranked-Ordered items (j ∷ is) all v in
    let h = stays-InOrder items i j all link in
    ((h, first-InOrder items i j is h later), (later, rest))

-- The manifest names the slot, is for the host's architecture where both name one, of ABI 1.0, and its
-- dependencies are resolved. The digest of its artifact is not looked at.
abbrev pub is_alternative : List Manifest → List ℕ → Option (List ℕ) → Manifest → Bool
is_alternative items slot host m =
    not (str_eq m.capability_slot [])
    && str_eq m.capability_slot slot
    && elim host [ none ↦ true | some h ↦ str_eq m.architecture [] || str_eq m.architecture h ]
    && m.abi_version_major == 1
    && m.abi_version_minor == 0
    && resolves (resolve items (m.name ∷ []))

pub is_eligible-is_alternative :
    (items : List Manifest) (slot : List ℕ) (host : Option (List ℕ)) (m : Manifest)
    → is_eligible items slot host m ≡ is_alternative items slot host m
unfolding is_eligible
is_eligible-is_alternative items slot none m = ground arith
is_eligible-is_alternative items slot (some h) m = ground arith
