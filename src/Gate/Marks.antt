-- ===== src/Gate/Marks.antt =====
-- src/core/gate.c: the search of the pipelines' slots, and the last committed window of each pipeline
-- as the abstract view of them.
use obicall.Common.{
  ℕ, zero, suc, ◌+◌, ◌≤◌, ◌<◌, ◌≡◌, refl, sym, ap, subst, ◌∙◌, inl, inr, true, false, List, [], ◌∷◌,
  Option, none, some, arith, ◌==◌, if◌then◌else◌, Bool-cases, same_bytes, same_bytes_sound,
  same_bytes_refl, length, set, get_elem?,
}
use obicall.Gate.State.{PipelineState, max_pipelines, GateState}
use obicall.Gate.Publish.{find_pipeline}

-- The last committed window of a slot, if it has one.
abbrev pub committed_mark : PipelineState → Option ℕ
committed_mark p = if p.has_committed == 0 then none else some p.last_committed_window_seq

-- The mark of the first of `n` slots that holds the pipeline.
unfoldable pub marks : List ℕ → ℕ → List PipelineState → Option ℕ
marks id zero ps = none
marks id (suc n) [] = none
marks id (suc n) (p ∷ ps) =
    let rest = marks id n ps in if same_bytes p.pipeline_id id then committed_mark p else rest

-- The last committed window of a pipeline.
unfoldable pub high_water : GateState → List ℕ → Option ℕ
high_water state id = marks id state.pipeline_count state.pipelines

find_pipeline-ge :
    (id : List ℕ) (n : ℕ) (ps : List PipelineState) (i : ℕ)
    → i ≤ max_pipelines
    → i + n ≤ max_pipelines
    → i ≤ find_pipeline id n ps i
unfolding find_pipeline
find_pipeline-ge id zero ps i h k = h
find_pipeline-ge id (suc n) [] i h k = h
find_pipeline-ge id (suc n) (p ∷ ps) i h k =
    ground (arith, find_pipeline-ge id n ps (suc i) (omega arith) (omega arith))

-- A pipeline that is found is in its slot, and its mark is the slot's.
pub find_pipeline-Slot :
    (id : List ℕ) (n : ℕ) (ps : List PipelineState) (i k : ℕ)
    → i + n ≤ max_pipelines
    → find_pipeline id n ps i ≡ i + k
    → i + k < max_pipelines
    → (p : PipelineState) × (get_elem? ps k ≡ some p)
      × (p.pipeline_id ≡ id)
      × (k < n)
      × (marks id n ps ≡ committed_mark p)
unfolding find_pipeline marks
find_pipeline-Slot id zero ps i k h found inside = absurd (omega (arith, found))
find_pipeline-Slot id (suc n) [] i k h found inside = absurd (omega (arith, found))
find_pipeline-Slot id (suc n) (p ∷ ps) i zero h found inside =
    elim (Bool-cases (same_bytes p.pipeline_id id)) [
      | inl same ↦ (p, refl, same_bytes_sound _ _ same, omega arith, rw same refl)
      | inr differs ↦ ground (arith, find_pipeline-ge id n ps (suc i) (omega arith) (omega arith))
    ]
find_pipeline-Slot id (suc n) (p ∷ ps) i (suc k) h found inside =
    elim (Bool-cases (same_bytes p.pipeline_id id)) [
      | inl same ↦ ground arith
      | inr differs ↦
          let found_later : find_pipeline id n ps (suc i) ≡ suc i + k = ground arith in
          let (q, at_k, named, bound, mark) =
            find_pipeline-Slot id n ps (suc i) k (omega arith) found_later (omega arith) in
          (
            q,
            at_k,
            named,
            omega arith,
            ap (λ b. if b then committed_mark p else marks id n ps) differs ∙ mark,
          )
    ]

-- Writing the slot where a pipeline is found changes the mark of that pipeline only.
pub marks-set :
    (id other : List ℕ) (n : ℕ) (ps : List PipelineState) (i k : ℕ) (q : PipelineState)
    → i + n ≤ max_pipelines
    → find_pipeline id n ps i ≡ i + k
    → i + k < max_pipelines
    → q.pipeline_id ≡ id
    → marks other n (set ps k q)
      ≡ (if same_bytes id other then committed_mark q else marks other n ps)
unfolding find_pipeline marks
marks-set id other zero ps i k q h found inside named = absurd (omega (arith, found))
marks-set id other (suc n) [] i k q h found inside named = absurd (omega (arith, found))
marks-set id other (suc n) (p ∷ ps) i zero q h found inside named =
    elim (Bool-cases (same_bytes p.pipeline_id id)) [
      | inl same ↦ ground (arith, named, same_bytes_sound _ _ same)
      | inr differs ↦ ground (arith, find_pipeline-ge id n ps (suc i) (omega arith) (omega arith))
    ]
marks-set id other (suc n) (p ∷ ps) i (suc k) q h found inside named =
    elim (Bool-cases (same_bytes p.pipeline_id id)) [
      | inl same ↦ ground arith
      | inr differs ↦
          let found_later : find_pipeline id n ps (suc i) ≡ suc i + k = ground arith in
          let rest =
            marks-set id other n ps (suc i) k q (omega arith) found_later (omega arith) named in
          let clash : same_bytes id other ≡ true → same_bytes p.pipeline_id other ≡ false =
            λ e. subst (λ o. same_bytes p.pipeline_id o ≡ false) (same_bytes_sound _ _ e) differs in
          elim (Bool-cases (same_bytes id other)) [
            | inl e ↦ ground (arith, clash e)
            | inr e ↦ ground arith
          ]
    ]

-- A slot without a mark behind the slots in use adds no mark.
pub marks-append :
    (other : List ℕ) (n : ℕ) (ps : List PipelineState) (q : PipelineState)
    → n < length ps
    → committed_mark q ≡ none
    → marks other (suc n) (set ps n q) ≡ marks other n ps
unfolding marks
marks-append other n [] q h unmarked = absurd (omega arith)
marks-append other zero (p ∷ ps) q h unmarked = elim (Bool-cases (same_bytes q.pipeline_id other)) [
  | inl e ↦ ap (λ b. if b then committed_mark q else none) e ∙ unmarked
  | inr e ↦ ap (λ b. if b then committed_mark q else none) e
]
marks-append other (suc n) (p ∷ ps) q h unmarked =
    ap (λ m. if same_bytes p.pipeline_id other then committed_mark p else m)
      (marks-append other n ps q (omega arith) unmarked)

-- A pipeline that is in no slot is found in the slot that it is written to.
pub find_pipeline-append :
    (id : List ℕ) (n : ℕ) (ps : List PipelineState) (i : ℕ) (q : PipelineState)
    → n < length ps
    → i + n < max_pipelines
    → find_pipeline id n ps i ≡ max_pipelines
    → q.pipeline_id ≡ id
    → find_pipeline id (suc n) (set ps n q) i ≡ i + n
unfolding find_pipeline
find_pipeline-append id n [] i q h fits absent named = absurd (omega arith)
find_pipeline-append id zero (p ∷ ps) i q h fits absent named =
    ap (λ b. if b then i else max_pipelines)
      (subst (λ x. same_bytes x id ≡ true) (sym named) (same_bytes_refl id))
    ∙ omega arith
find_pipeline-append id (suc n) (p ∷ ps) i q h fits absent named =
    ground (arith, find_pipeline-append id n ps (suc i) q (omega arith) (omega arith))

pub length-set {ℓ} : {A : Type ℓ} (xs : List A) (i : ℕ) (v : A) → length (set xs i v) ≡ length xs
length-set [] i v = refl
length-set (x ∷ xs) zero v = refl
length-set (x ∷ xs) (suc i) v = ap suc (length-set xs i v)
