-- ===== src/Manifest/Resolve/Plan.antt =====
-- src/core/manifest.c: what `obicall_manifest_resolve` returns.
use obicall.Common.{
  ℕ, ◌+◌, ◌≡◌, ◌≢◌, refl, sym, ap, subst, ◌∙◌, ◌⊎◌, inl, inr, Bool, true, false, List, [], ◌∷◌,
  append-nil, some, arith, ◌==◌, length, All, Bool-cases, length-replicate,
}
use obicall.Manifest.State.{Manifest}
use obicall.Manifest.Resolve.Search.{flag_at, Marking, mark_names, close_loop}
use obicall.Manifest.Resolve.Needed.{
  unset, Firsts, Marked, mark_names-Grows, Marked-kept, mark_names-err,
}
use obicall.Manifest.Resolve.Searched.{Searched, close_loop-Searched}
use obicall.Manifest.Resolve.Sort.{rows_of, ready_from, plan_of, blank_marking, resolve}
use obicall.Manifest.Resolve.Names.{
  item_name, has_name, find_by_name-str_eq, str_eq_right, str_eq_refl,
}
use obicall.Manifest.Resolve.Release.{waiting, contains, Distinct}
use obicall.Manifest.Resolve.Queue.{contains-has_name, ready_at-flag_at}
use obicall.Manifest.Resolve.Closed.{Known, IsClosed, close_loop-Known, asked-IsClosed}
use obicall.Manifest.Resolve.Cycle.{IsStuck, Sorted-IsStuck}
use obicall.Manifest.Resolve.Required.{
  IsNeeded, IsMissing, IsSound, Explained, blank-IsSound, requested-Explained, close_loop-Explained,
}
use obicall.Manifest.Resolve.Start.{
  rows_of_same, rows_split, waiting-ready_at, start-IsSorting, flag_at-replicate, unset-replicate,
  Firsts-replicate,
}
use obicall.Manifest.Resolve.Order.{Ordered, Sorted, order_loop-Sorted}
use obicall.Status.{Result, ok, err, ◌>>=◌, dependency_missing, dependency_cycle}

-- An order of loading: each manifest behind all that it depends on, none twice, all of them needed, and every
-- requested name that of one of them.
pub record IsPlan (items : List Manifest) (requested : List (List ℕ)) (order : List ℕ)
    : Type 0 where
  pub ordered : Ordered items [] order
  pub distinct : Distinct order
  pub all_needed : (k : ℕ) → contains order k ≡ true → IsNeeded items requested k
  pub requested_met : All (λ name. has_name items order name ≡ true) requested

abbrev pub Resolved : List Manifest → List (List ℕ) → Result (List ℕ) → Type 0
Resolved items requested (ok order) = IsPlan items requested order
Resolved items requested (err e) =
    ((e ≡ dependency_missing) × IsMissing items requested)
    ⊎ ((e ≡ dependency_cycle) × IsStuck items requested)

-- A requested name that is marked is in an order that has all that is marked.
Marked-has_name :
    (items : List Manifest) (flags : List Bool) (order : List ℕ) (names : List (List ℕ))
    → ((k : ℕ) → flag_at flags k ≡ true → contains order k ≡ true)
    → All (Marked items flags) names
    → All (λ name. has_name items order name ≡ true) names
Marked-has_name items flags order [] full all = tt
Marked-has_name items flags order (name ∷ names) full ((idx, found, marked), all) =
    let here = find_by_name-str_eq items name 0 idx (found ∙ ap some (omega arith)) in
    let same = str_eq_right (item_name items idx) name name here ∙ str_eq_refl name in
    (
      contains-has_name items order name idx (full idx marked) same,
      Marked-has_name items flags order names full all,
    )

module _ (items : List Manifest) (requested : List (List ℕ)) where
  -- What the loop leaves is a plan, if all that is needed was put in the order.
  Sorted-IsPlan :
      (flags : List Bool) (order : List ℕ)
      → Sorted items (length order) flags order
      → ((k : ℕ) → flag_at flags k ≡ true → IsNeeded items requested k)
      → All (Marked items flags) requested
      → IsPlan items requested order
  Sorted-IsPlan flags order s needed marked =
      let v = s.sorting in
      let none_waits : waiting s.rows_left ≡ 0 =
        omega (arith, v.total_kept, ap length (append-nil order)) in
      let in_order = λ (k : ℕ). ap (λ q. contains q k) (sym (append-nil order)) ∙ v.queued k in
      let flags_left = λ (k : ℕ). ap (λ f. flag_at f k) s.same_flags in
      record {
        ordered = v.ordered;
        distinct = subst Distinct (append-nil order) v.distinct;
        all_needed = λ k h.
            needed k (sym (flags_left k) ∙ ready_at-flag_at s.rows_left k (sym (in_order k) ∙ h));
        requested_met =
            Marked-has_name items flags order requested
              (λ k h. in_order k ∙ waiting-ready_at s.rows_left k none_waits (flags_left k ∙ h))
              marked;
      }

  -- The order that is computed from the marks.
  plan_of-Resolved :
      (needed : List Bool) (total : ℕ)
      → length needed ≡ length items
      → Firsts items needed
      → total + unset needed ≡ length items
      → ((k : ℕ) → flag_at needed k ≡ true → Known items needed k)
      → ((k : ℕ) → flag_at needed k ≡ true → IsNeeded items requested k)
      → All (Marked items needed) requested
      → Resolved items requested (plan_of (length items) total (rows_of items needed))
  unfolding plan_of
  plan_of-Resolved needed total sized firsts counted known sound marked =
      let rows = rows_of items needed in
      let flags = (rows_of_same items needed sized).1 in
      let start = start-IsSorting items needed total sized firsts counted in
      let (last, e, s') =
        order_loop-Sorted (length items) items total rows [] (ready_from rows 0)
          (omega (arith, rows_split rows 0, ap length flags)) start in
      let s = subst (λ f. Sorted items total f last) flags s' in
      elim (Bool-cases (length last == total)) [
        | inl all_in ↦
            let done : plan_of (length items) total rows ≡ ok last = ground (arith, e, all_in) in
            let count : total ≡ length last = ground (arith, all_in) in
            subst (Resolved items requested) (sym done) (
              Sorted-IsPlan needed last (subst (λ n. Sorted items n needed last) count s) sound
                marked)
        | inr left ↦
            let cycle : plan_of (length items) total rows ≡ err dependency_cycle =
              ground (arith, e, left) in
            let short : length last ≢ total = ground (arith, left) in
            subst (Resolved items requested) (sym cycle)
              (inr (refl, Sorted-IsStuck items requested total needed last s known sound short))
      ]

  closed-Resolved :
      (asked : Marking) (r : Result Marking)
      → close_loop (length items) items asked ≡ r
      → length asked.needed ≡ length items
      → Firsts items asked.needed
      → asked.needed_count + unset asked.needed ≡ length items
      → IsClosed items asked
      → IsSound items requested asked
      → All (Marked items asked.needed) requested
      → Searched items asked r
      → Resolved items requested
          (r >>= λ closed. plan_of (length items) closed.needed_count (rows_of items closed.needed))
  closed-Resolved asked (ok closed) h sized firsts counted open_marks sound marked k =
      let explained =
        subst (Explained items requested) h
          (close_loop-Explained items requested (length items) asked sound) in
      plan_of-Resolved closed.needed closed.needed_count (k.sized ∙ sized) (k.first firsts)
        (k.counted ∙ counted)
        (close_loop-Known items (length items) asked closed sized open_marks h) explained.marked
        (Marked-kept items asked.needed closed.needed requested k.kept marked)
  closed-Resolved asked (err e) h sized firsts counted open_marks sound marked k =
      let explained =
        subst (Explained items requested) h
          (close_loop-Explained items requested (length items) asked sound) in
      inl (k, explained k)

  asked-Resolved :
      (r : Result Marking)
      → mark_names items requested (blank_marking (length items)) ≡ r
      → Explained items requested r
      → Resolved items requested (
          r >>= λ asked. (close_loop (length items) items asked) >>= λ closed.
          plan_of (length items) closed.needed_count (rows_of items closed.needed))
  asked-Resolved (err e) h explained =
      let missing = mark_names-err items requested _ e h in inl (missing, explained missing)
  asked-Resolved (ok asked) h sound =
      let blank = blank_marking (length items) in
      let sized : length blank.needed ≡ length items = length-replicate (length items) false in
      let (g, marked) = mark_names-Grows items requested blank asked sized h in
      let clear = unset-replicate (length items) in
      closed-Resolved asked (close_loop (length items) items asked) refl (g.sized ∙ sized)
        (g.first (Firsts-replicate items (length items))) (omega (arith, g.counted, clear))
        (asked-IsClosed items requested blank asked (flag_at-replicate (length items)) h) sound
        marked
        (close_loop-Searched (length items) items asked (g.sized ∙ sized)
          (omega (arith, g.stacked, clear)))

  -- For any set and any request: what is returned is an order of manifests, all of them needed and none twice,
  -- in which each comes behind all that it depends on and in which every requested name is that of one of
  -- them; or the error of a missing manifest, and then no manifest has some name that is asked for or that a needed
  -- one depends on; or the error of a cycle, and then there are needed manifests of which each depends on
  -- one of them, or lists a dependency twice. The loops end by themselves on as much fuel as there are
  -- manifests.
  pub resolve-Resolved : Resolved items requested (resolve items requested)
  unfolding resolve
  resolve-Resolved = asked-Resolved _ refl (
      requested-Explained items requested (blank_marking (length items))
        (blank-IsSound items requested (length items) (flag_at-replicate (length items))))
