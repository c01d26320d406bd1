-- ===== src/Manifest/Resolve/Sort.antt =====
-- src/core/manifest.c: the order of the needed manifests, in `obicall_manifest_resolve`.
use obicall.Common.{
  ℕ, zero, suc, ◌-◌, Bool, false, not, ◌&&◌, ◌||◌, List, [], ◌∷◌, ◌++◌, Option, none, some, ◌==◌,
  if◌then◌else◌, length, get_elem?, replicate,
}
use obicall.Common.Text.{str_eq}
use obicall.Manifest.State.{Manifest}
use obicall.Manifest.Resolve.Search.{Marking, mark_names, close_loop}
use obicall.Status.{Result, ok, err, ◌>>=◌, dependency_cycle, internal}

-- `needed[i]`, `indegree[i]` and `set->items[i]`.
pub record Row : Type 0 where
  pub needed : Bool
  pub indegree : ℕ
  pub item : Manifest

unfoldable pub rows_of : List Manifest → List Bool → List Row
rows_of [] needed = []
rows_of (m ∷ items) [] = []
rows_of (m ∷ items) (b ∷ needed) =
    record { needed = b; indegree = if b then length m.dependencies else 0; item = m }
    ∷ rows_of items needed

-- The indices from `i` on that are put in the queue at first.
unfoldable pub ready_from : List Row → ℕ → List ℕ
ready_from [] i = []
ready_from (r ∷ rows) i =
    if r.needed && r.indegree == 0 then i ∷ ready_from rows (suc i) else ready_from rows (suc i)

-- One of the names is the given one.
unfoldable pub depends_on : List (List ℕ) → List ℕ → Bool
depends_on [] name = false
depends_on (d ∷ names) name = str_eq d name || depends_on names name

abbrev pub is_waiting : Row → Bool
is_waiting r = r.needed && not (r.indegree == 0)

-- A row after `--indegree[j]`, if it waits for the name.
unfoldable pub release_row : List ℕ → Row → Row
release_row name r =
    if is_waiting r && depends_on r.item.dependencies name
    then record r { indegree = r.indegree - 1 }
    else r

-- The loop over `j`, from `j` on: the rows after, and what is put in the queue.
unfoldable pub release : List ℕ → List Row → ℕ → List Row × List ℕ
release name [] j = ([], [])
release name (r ∷ rows) j =
    let rest = release name rows (suc j) in
    let r' = release_row name r in
    (
      r' ∷ rest.0,
      if is_waiting r && depends_on r.item.dependencies name && r'.indegree == 0
          then j ∷ rest.1
          else rest.1,
    )

-- `set->items[i].name`, where the index is inside the set.
abbrev pub name_at : List Row → ℕ → List ℕ
name_at rows i = elim (get_elem? rows i) [ none ↦ [] | some r ↦ r.item.name ]

-- `while (qi < qn)`, on as much fuel as there are manifests. `pending` is queue[qi .. qn).
unfoldable pub order_loop : ℕ → List Row → List ℕ → List ℕ → Option (List ℕ)
order_loop zero rows [] order = some order
order_loop zero rows (i ∷ pending) order = none
order_loop (suc fuel) rows [] order = some order
order_loop (suc fuel) rows (i ∷ pending) order =
    let released = release (name_at rows i) rows 0 in
    order_loop fuel released.0 (pending ++ released.1) (order ++ (i ∷ []))

-- The order in `out_plan`, unless some of the needed manifests are on a cycle.
unfoldable pub plan_of : ℕ → ℕ → List Row → Result (List ℕ)
plan_of fuel needed_count rows = elim (order_loop fuel rows (ready_from rows 0) []) [
  | none ↦ err internal
  | some order ↦ if length order == needed_count then ok order else err dependency_cycle
]

abbrev pub blank_marking : ℕ → Marking
blank_marking count = record { needed = replicate count false; needed_count = 0; stack = [] }

unfoldable pub resolve : List Manifest → List (List ℕ) → Result (List ℕ)
resolve items requested_names = do
  asked ← mark_names items requested_names (blank_marking (length items))
  closed ← close_loop (length items) items asked
  plan_of (length items) closed.needed_count (rows_of items closed.needed)
