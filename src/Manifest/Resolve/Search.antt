-- ===== src/Manifest/Resolve/Search.antt =====
-- src/core/manifest.c: the manifests that a request needs, in `obicall_manifest_resolve`. The texts that
-- say what is wrong are not modelled. A set of manifests is the list of its items, of which there are
-- `max_manifests` at most, so that the arrays have room for an entry of each.
use obicall.Common.{
  ℕ, zero, suc, Bool, true, false, List, [], ◌∷◌, Option, none, some, if◌then◌else◌, get_elem?, set,
}
use obicall.Common.Text.{str_eq}
use obicall.Manifest.State.{Manifest}
use obicall.Status.{Result, ok, err, ◌>>=◌, dependency_missing, internal}

-- The first index from `i` on of the name, none for -1.
unfoldable pub find_by_name : List Manifest → List ℕ → ℕ → Option ℕ
find_by_name [] name i = none
find_by_name (m ∷ items) name i =
    let rest = find_by_name items name (suc i) in if str_eq m.name name then some i else rest

-- `needed`, `needed_count` and the stack with its top first.
pub record Marking : Type 0 where
  pub needed : List Bool
  pub needed_count : ℕ
  pub stack : List ℕ

-- `needed[idx]`
abbrev pub flag_at : List Bool → ℕ → Bool
flag_at flags i = elim (get_elem? flags i) [ none ↦ false | some b ↦ b ]

unfoldable pub mark : Marking → ℕ → Marking
mark s idx = if flag_at s.needed idx then s else record {
  needed = set s.needed idx true;
  needed_count = suc s.needed_count;
  stack = idx ∷ s.stack;
}

-- The loop over the requested names, and that over the dependencies of one manifest.
unfoldable pub mark_names : List Manifest → List (List ℕ) → Marking → Result Marking
mark_names items [] s = ok s
mark_names items (name ∷ names) s = elim (find_by_name items name 0) [
  | none ↦ err dependency_missing
  | some idx ↦ mark_names items names (mark s idx)
]

-- `set->items[idx].dependencies`, where the index is inside the set.
abbrev pub dependencies_at : List Manifest → ℕ → List (List ℕ)
dependencies_at items idx = elim (get_elem? items idx) [ none ↦ [] | some m ↦ m.dependencies ]

-- `while (stack_n > 0)`, on as much fuel as there are manifests.
unfoldable pub close_loop : ℕ → List Manifest → Marking → Result Marking
close_loop zero items s = elim s.stack [ [] ↦ ok s | _ ∷ _ ↦ err internal ]
close_loop (suc fuel) items s = elim s.stack [
  | [] ↦ ok s
  | idx ∷ rest ↦
      mark_names items (dependencies_at items idx) (record s { stack = rest })
      >>= close_loop fuel items
]
