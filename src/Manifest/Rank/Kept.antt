-- ===== src/Manifest/Rank/Kept.antt =====
-- src/core/manifest.c: the sorting of the alternatives neither loses nor adds nor repeats one.
use obicall.Common.{
  ℕ, zero, suc, ◌+◌, ◌≤◌, ◌≡◌, refl, ap, inl, inr, true, false, ◌||◌, List, [], ◌∷◌, arith, ◌==◌,
  length, take, Bool-cases,
}
use obicall.Manifest.State.{Manifest}
use obicall.Manifest.Resolve.Release.{contains, Distinct}
use obicall.Manifest.Rank.{should_shift, shift_loop, sort_loop, forwards}

-- Sorting neither loses nor adds an index.
shift_loop-contains :
    (items : List Manifest) (key : ℕ) (sorted : List ℕ) (k : ℕ)
    → contains (shift_loop items key sorted) k ≡ (key == k || contains sorted k)
unfolding shift_loop contains
shift_loop-contains items key [] k = refl
shift_loop-contains items key (cur ∷ sorted) k =
    ground (arith, shift_loop-contains items key sorted k)

pub sort_loop-contains :
    (items : List Manifest) (keys sorted : List ℕ) (k : ℕ)
    → contains (sort_loop items keys sorted) k ≡ (contains keys k || contains sorted k)
unfolding sort_loop contains
sort_loop-contains items [] sorted k = refl
sort_loop-contains items (key ∷ keys) sorted k = ground (
  arith,
  sort_loop-contains items keys (shift_loop items key sorted) k,
  shift_loop-contains items key sorted k,
)

pub forwards-contains :
    (sorted acc : List ℕ) (k : ℕ)
    → contains (forwards sorted acc) k ≡ (contains sorted k || contains acc k)
unfolding forwards contains
forwards-contains [] acc k = refl
forwards-contains (i ∷ sorted) acc k = ground (arith, forwards-contains sorted (i ∷ acc) k)

shift_loop-length :
    (items : List Manifest) (key : ℕ) (sorted : List ℕ)
    → length (shift_loop items key sorted) ≡ suc (length sorted)
unfolding shift_loop
shift_loop-length items key [] = refl
shift_loop-length items key (cur ∷ sorted) = ground (arith, shift_loop-length items key sorted)

pub sort_loop-length :
    (items : List Manifest) (keys sorted : List ℕ)
    → length (sort_loop items keys sorted) ≡ length keys + length sorted
unfolding sort_loop
sort_loop-length items [] sorted = omega arith
sort_loop-length items (key ∷ keys) sorted = omega (
  arith,
  sort_loop-length items keys (shift_loop items key sorted),
  shift_loop-length items key sorted,
)

pub forwards-length :
    (sorted acc : List ℕ) → length (forwards sorted acc) ≡ length sorted + length acc
unfolding forwards
forwards-length [] acc = omega arith
forwards-length (i ∷ sorted) acc = omega (arith, forwards-length sorted (i ∷ acc))

pub take_more {ℓ} : {A : Type ℓ} (n : ℕ) (xs : List A) → length xs ≤ n → take n xs ≡ xs
take_more zero [] h = refl
take_more zero (x ∷ xs) h = absurd (omega arith)
take_more (suc n) [] h = refl
take_more (suc n) (x ∷ xs) h = ap (λ t. x ∷ t) (take_more n xs (omega arith))

shift_loop-Distinct :
    (items : List Manifest) (key : ℕ) (sorted : List ℕ)
    → contains sorted key ≡ false
    → Distinct sorted
    → Distinct (shift_loop items key sorted)
unfolding shift_loop contains
shift_loop-Distinct items key [] new d = (refl, tt)
shift_loop-Distinct items key (cur ∷ sorted) new (apart, d) =
    elim (Bool-cases (should_shift items cur key)) [
      | inl behind ↦ rw behind (
        ground (arith, new, apart, shift_loop-contains items key sorted cur),
        shift_loop-Distinct items key sorted (ground (arith, new)) d,
      )
      | inr stays ↦ rw stays (new, (apart, d))
    ]

pub sort_loop-Distinct :
    (items : List Manifest) (keys sorted : List ℕ)
    → Distinct keys
    → Distinct sorted
    → ((k : ℕ) → contains keys k ≡ true → contains sorted k ≡ false)
    → Distinct (sort_loop items keys sorted)
unfolding sort_loop contains
sort_loop-Distinct items [] sorted dk ds apart = ds
sort_loop-Distinct items (key ∷ keys) sorted (new, dk) ds apart =
    sort_loop-Distinct items keys (shift_loop items key sorted) dk
      (shift_loop-Distinct items key sorted (ground (arith, apart key)) ds)
      (λ k h. ground (arith, apart k, h, new, shift_loop-contains items key sorted k))

pub forwards-Distinct :
    (sorted acc : List ℕ)
    → Distinct sorted
    → Distinct acc
    → ((k : ℕ) → contains sorted k ≡ true → contains acc k ≡ false)
    → Distinct (forwards sorted acc)
unfolding forwards contains
forwards-Distinct [] acc ds da apart = da
forwards-Distinct (i ∷ sorted) acc (new, ds) da apart =
    forwards-Distinct sorted (i ∷ acc) ds (ground (arith, apart i), da)
      (λ k h. ground (arith, apart k, h, new))
