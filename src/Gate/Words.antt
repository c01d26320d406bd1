-- ===== src/Gate/Words.antt =====
-- src/core/gate.c: the fields of the state hold values of their C types after a decision.
use obicall.Common.{
  ℕ, zero, suc, ◌<◌, ◌≡◌, refl, sym, ap, subst, ◌∙◌, ◌⊎◌, inl, inr, List, [], ◌∷◌, none, some,
  arith, length, All, All-replicate, set, get_elem?, ℤ,
}
use obicall.Cursor.Codec.{IsWord}
use obicall.Cursor.Octets.{IsByte}
use obicall.Digest.Sha256.Length.{sha256_final-Bytes}
use obicall.FusionResult.{FusionResult, pipeline_id_len}
use obicall.Gate.Codec.{IsPipelineState, IsGateWords}
use obicall.Gate.Publish.{
  compute_result_digest, find_pipeline, pipeline_at, register_pipeline, commit_window, publish_to,
  publish_known, decide_publish,
}
use obicall.Gate.State.{PipelineState, blank_pipeline, GateState, max_pipelines}

-- The fields of a result that the gate keeps.
pub record IsSubmission (r : FusionResult) : Type 0 where
  pub id_length : length r.pipeline_id ≡ pipeline_id_len
  pub id_bytes : All IsByte r.pipeline_id
  pub window_word : IsWord 64 r.window_seq

All-set :
    (ps : List PipelineState) (i : ℕ) (p : PipelineState)
    → All IsPipelineState ps
    → IsPipelineState p
    → All IsPipelineState (set ps i p)
All-set [] i p all v = tt
All-set (q ∷ ps) zero p (u, all) v = (v, all)
All-set (q ∷ ps) (suc i) p (u, all) v = (u, All-set ps i p all v)

length-set : (ps : List PipelineState) (i : ℕ) (p : PipelineState) → length (set ps i p) ≡ length ps
length-set [] i p = refl
length-set (q ∷ ps) zero p = refl
length-set (q ∷ ps) (suc i) p = ap suc (length-set ps i p)

blank-IsPipelineState : IsPipelineState blank_pipeline
blank-IsPipelineState = record {
  pipeline_id_length = refl;
  has_committed_word = omega arith;
  last_window_word = omega arith;
  digest_length = refl;
  pipeline_id_bytes = All-replicate IsByte 32 0 (omega arith);
  digest_bytes = All-replicate IsByte 32 0 (omega arith);
}

pipeline_at-IsPipelineState :
    (s : GateState) (i : ℕ) → IsGateWords s → IsPipelineState (pipeline_at s i)
pipeline_at-IsPipelineState s i v = in_slots s.pipelines i v.pipelines_words
  where
    in_slots :
        (ps : List PipelineState) (i : ℕ)
        → All IsPipelineState ps
        → IsPipelineState (elim (get_elem? ps i) [ none ↦ blank_pipeline | some p ↦ p ])
    in_slots [] i all = blank-IsPipelineState
    in_slots (p ∷ ps) zero (u, all) = u
    in_slots (p ∷ ps) (suc i) (u, all) = in_slots ps i all

commit_window-IsGateWords :
    (s : GateState) (i : ℕ) (r : FusionResult)
    → IsGateWords s
    → IsSubmission r
    → IsGateWords (commit_window s i r)
unfolding commit_window compute_result_digest
commit_window-IsGateWords s i r v u =
    let old = pipeline_at-IsPipelineState s i v in
    let (digest_size, digest_bytes) = sha256_final-Bytes _ in
    record {
      struct_size_word = v.struct_size_word;
      schema_version_word = v.schema_version_word;
      epoch_word = v.epoch_word;
      owner_word = v.owner_word;
      count_word = v.count_word;
      slots = length-set s.pipelines i _ ∙ v.slots;
      pipelines_words = All-set s.pipelines i _ v.pipelines_words (record {
        pipeline_id_length = old.pipeline_id_length;
        has_committed_word = omega arith;
        last_window_word = u.window_word;
        digest_length = digest_size;
        pipeline_id_bytes = old.pipeline_id_bytes;
        digest_bytes = digest_bytes;
      });
    }

register_pipeline-IsGateWords :
    (s : GateState) (r : FusionResult)
    → s.pipeline_count < max_pipelines
    → IsGateWords s
    → IsSubmission r
    → IsGateWords (register_pipeline s r.pipeline_id)
unfolding register_pipeline
register_pipeline-IsGateWords s r room v u = record {
  struct_size_word = v.struct_size_word;
  schema_version_word = v.schema_version_word;
  epoch_word = v.epoch_word;
  owner_word = v.owner_word;
  count_word = omega arith;
  slots = length-set s.pipelines s.pipeline_count _ ∙ v.slots;
  pipelines_words = All-set s.pipelines s.pipeline_count _ v.pipelines_words (record {
    pipeline_id_length = u.id_length;
    has_committed_word = omega arith;
    last_window_word = omega arith;
    digest_length = refl;
    pipeline_id_bytes = u.id_bytes;
    digest_bytes = All-replicate IsByte 32 0 (omega arith);
  });
}

publish_to-state :
    (s : GateState) (i : ℕ) (r : FusionResult)
    → ((publish_to s i r).state ≡ s) ⊎ ((publish_to s i r).state ≡ commit_window s i r)
unfolding publish_to
publish_to-state s i r = ground arith

publish_to-IsGateWords :
    (s : GateState) (i : ℕ) (r : FusionResult)
    → IsGateWords s
    → IsSubmission r
    → IsGateWords (publish_to s i r).state
publish_to-IsGateWords s i r v u = elim (publish_to-state s i r) [
  | inl kept ↦ subst IsGateWords (sym kept) v
  | inr written ↦ subst IsGateWords (sym written) (commit_window-IsGateWords s i r v u)
]

decide_publish-state :
    (s : GateState) (r : FusionResult) (now_ns : ℤ)
    → ((decide_publish s r now_ns).state ≡ s)
      ⊎ ((s.pipeline_count < max_pipelines)
          × ((decide_publish s r now_ns).state
              ≡ (publish_to (register_pipeline s r.pipeline_id) s.pipeline_count r).state))
      ⊎ ((decide_publish s r now_ns).state
          ≡ (publish_to s (find_pipeline r.pipeline_id s.pipeline_count s.pipelines 0) r).state)
unfolding decide_publish publish_known
decide_publish-state s r now_ns = ground arith

-- A decision on a result of a broker keeps the fields of the gate's state in their C types.
pub decide_publish-IsGateWords :
    (s : GateState) (r : FusionResult) (now_ns : ℤ)
    → IsGateWords s
    → IsSubmission r
    → IsGateWords (decide_publish s r now_ns).state
decide_publish-IsGateWords s r now_ns v u = elim (decide_publish-state s r now_ns) [
  | inl kept ↦ subst IsGateWords (sym kept) v
  | inr (inl (room, e)) ↦
      subst IsGateWords (sym e)
        (publish_to-IsGateWords _ s.pipeline_count r (register_pipeline-IsGateWords s r room v u) u)
  | inr (inr e) ↦ subst IsGateWords (sym e) (publish_to-IsGateWords s _ r v u)
]
