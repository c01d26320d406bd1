-- ===== src/Manifest/Resolve/Start.antt =====
-- src/core/manifest.c: the rows and the queue before the loop over the queue.
use obicall.Common.{
  ℕ, zero, suc, ◌+◌, ◌≤◌, ◌≡◌, refl, sym, ap, subst, Bool, true, false, List, [], ◌∷◌, arith,
  length, All, replicate,
}
use obicall.Manifest.State.{Manifest}
use obicall.Manifest.Resolve.Search.{flag_at}
use obicall.Manifest.Resolve.Needed.{unset, Firsts}
use obicall.Manifest.Resolve.Sort.{Row, rows_of, ready_from}
use obicall.Manifest.Resolve.Names.{has_name, unmet}
use obicall.Manifest.Resolve.Release.{
  ready_at, items_of, flags_of, waiting, contains, Counts, Tight, Distinct,
}
use obicall.Manifest.Resolve.Order.{IsSorting}

-- The rows and the queue at first.
pub rows_of_same :
    (items : List Manifest) (needed : List Bool)
    → length needed ≡ length items
    → (items_of (rows_of items needed) ≡ items) × (flags_of (rows_of items needed) ≡ needed)
unfolding rows_of
rows_of_same [] [] e = (refl, refl)
rows_of_same [] (b ∷ needed) e = absurd (omega arith)
rows_of_same (m ∷ items) [] e = absurd (omega arith)
rows_of_same (m ∷ items) (b ∷ needed) e =
    let (is, fs) = rows_of_same items needed (omega arith) in
    (ap (λ x. m ∷ x) is, ap (λ x. b ∷ x) fs)

unmet-start : (items : List Manifest) (names : List (List ℕ)) → unmet items [] names ≡ length names
unfolding unmet has_name
unmet-start items [] = refl
unmet-start items (d ∷ names) = ap suc (unmet-start items names)

rows_of-Counts :
    (all items : List Manifest) (needed : List Bool) → All (Counts all []) (rows_of items needed)
unfolding rows_of
rows_of-Counts all [] needed = tt
rows_of-Counts all (m ∷ items) [] = tt
rows_of-Counts all (m ∷ items) (b ∷ needed) =
    (λ e. ground (arith, unmet-start all m.dependencies), rows_of-Counts all items needed)

rows_of-Tight :
    (all items : List Manifest) (needed : List Bool) → All (Tight all []) (rows_of items needed)
unfolding rows_of
rows_of-Tight all [] needed = tt
rows_of-Tight all (m ∷ items) [] = tt
rows_of-Tight all (m ∷ items) (b ∷ needed) =
    (λ single e. ground (arith, unmet-start all m.dependencies), rows_of-Tight all items needed)

ready_from_bounds : (rows : List Row) (i k : ℕ) → contains (ready_from rows i) k ≡ true → i ≤ k
unfolding ready_from contains
ready_from_bounds [] i k h = absurd cc
ready_from_bounds (r ∷ rows) i k h = ground (arith, ready_from_bounds rows (suc i) k)

ready_from-ready_at :
    (rows : List Row) (i k : ℕ) → contains (ready_from rows i) (i + k) ≡ ready_at rows k
unfolding ready_from contains
ready_from-ready_at [] i k = refl
ready_from-ready_at (r ∷ rows) i zero = ground (arith, ready_from_bounds rows (suc i) (i + 0))
ready_from-ready_at (r ∷ rows) i (suc k) = ground (arith, ready_from-ready_at rows (suc i) k)

ready_from-Distinct : (rows : List Row) (i : ℕ) → Distinct (ready_from rows i)
unfolding ready_from
ready_from-Distinct [] i = tt
ready_from-Distinct (r ∷ rows) i =
    let rest = ready_from-Distinct rows (suc i) in ground (arith, ready_from_bounds rows (suc i) i)

-- Each row is put in the queue, waits or is not needed.
pub rows_split :
    (rows : List Row) (i : ℕ)
    → length (ready_from rows i) + waiting rows + unset (flags_of rows) ≡ length (flags_of rows)
unfolding ready_from waiting unset
rows_split [] i = omega arith
rows_split (r ∷ rows) i = ground (arith, rows_split rows (suc i))

-- Where none waits, all that are needed are ready.
pub waiting-ready_at :
    (rows : List Row) (k : ℕ)
    → waiting rows ≡ 0
    → flag_at (flags_of rows) k ≡ true
    → ready_at rows k ≡ true
unfolding waiting
waiting-ready_at [] k none_waits h = absurd cc
waiting-ready_at (r ∷ rows) zero none_waits h = ground arith
waiting-ready_at (r ∷ rows) (suc k) none_waits h = ground (arith, waiting-ready_at rows k)

pub start-IsSorting :
    (items : List Manifest) (needed : List Bool) (total : ℕ)
    → length needed ≡ length items
    → Firsts items needed
    → total + unset needed ≡ length items
    → IsSorting items total (rows_of items needed) [] (ready_from (rows_of items needed) 0)
start-IsSorting items needed total sized firsts counted =
    let rows = rows_of items needed in
    let (same, flags) = rows_of_same items needed sized in
    record {
      same_items = same;
      firsts = subst (Firsts items) (sym flags) firsts;
      counts = rows_of-Counts items items needed;
      tight = rows_of-Tight items items needed;
      queued = λ k. ground (arith, ready_from-ready_at rows 0 k);
      distinct = ready_from-Distinct rows 0;
      total_kept = omega (arith, rows_split rows 0, ap unset flags, ap length flags);
      ordered = tt;
    }

pub flag_at-replicate : (n k : ℕ) → flag_at (replicate n false) k ≡ false
flag_at-replicate zero k = refl
flag_at-replicate (suc n) zero = refl
flag_at-replicate (suc n) (suc k) = flag_at-replicate n k

pub unset-replicate : (n : ℕ) → unset (replicate n false) ≡ n
unfolding unset
unset-replicate zero = refl
unset-replicate (suc n) = ap suc (unset-replicate n)

pub Firsts-replicate : (items : List Manifest) (n : ℕ) → Firsts items (replicate n false)
Firsts-replicate items n i h = absurd (cc (flag_at-replicate n i, h))
