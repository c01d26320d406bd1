-- ===== src/Gate/Promote.antt =====
-- src/core/gate.c: the condition on a shadow's promotion, and the promotion itself.
use obicall.Common.{
  ◌≤◌, ◌<◌, ◌≡◌, ◌≢◌, subst, arith, same_bytes_sound, same_bytes_refl, ℕ, ◌+◌, ◌%◌, ◌^◌, Bool, true,
  false, not, List, ltb, ◌==◌, if◌then◌else◌, same_bytes, ℤ,
}
use obicall.Gate.State.{GateState, broker_none}

pub record Readiness : Type 0 where
  pub healthy : ℕ
  pub config_digest : List ℕ
  pub checkpoint_schema_version : ℕ
  pub last_processed_window_seq : ℕ

pub record PromotionRequirements : Type 0 where
  pub required_config_digest : List ℕ
  pub required_checkpoint_schema_version : ℕ
  pub max_allowed_replay_gap : ℕ

unfoldable pub shadow_promotable : Readiness → PromotionRequirements → ℕ → Bool
shadow_promotable shadow requirements high_water =
    if shadow.healthy == 0
    then false
    else if not (same_bytes shadow.config_digest requirements.required_config_digest)
    then false
    else if not
        (shadow.checkpoint_schema_version == requirements.required_checkpoint_schema_version)
    then false
    else if ltb ((shadow.last_processed_window_seq + requirements.max_allowed_replay_gap) % 2 ^ 64)
        high_water
    then false
    else true

-- `state->owner_broker_id = OBICALL_BROKER_NONE;`
abbrev revoke : GateState → GateState
revoke state = record state { owner_broker_id = broker_none }

-- The state after, and `*out_new_epoch`.
unfoldable pub promote : GateState → ℕ → ℤ → GateState × ℕ
promote state new_owner now_ns =
    let new_epoch = (state.epoch + 1) % 2 ^ 64 in
    let revoked = revoke state in
    let advanced = record revoked { epoch = new_epoch } in
    (record advanced { owner_broker_id = new_owner }, new_epoch)

-- What the header asks of a shadow before it may be promoted.
pub record IsPromotable (shadow : Readiness) (requirements : PromotionRequirements) (high_water : ℕ)
    : Type 0 where
  pub is_healthy : shadow.healthy ≢ 0
  pub same_config : shadow.config_digest ≡ requirements.required_config_digest
  pub same_schema :
      shadow.checkpoint_schema_version ≡ requirements.required_checkpoint_schema_version
  pub caught_up :
      high_water ≤ shadow.last_processed_window_seq + requirements.max_allowed_replay_gap

-- A shadow that is declared promotable is healthy, has the required configuration and checkpoint
-- schema, and is not more than the allowed gap behind the last committed window.
pub shadow_promotable-IsPromotable :
    (shadow : Readiness) (requirements : PromotionRequirements) (high_water : ℕ)
    → shadow_promotable shadow requirements high_water ≡ true
    → IsPromotable shadow requirements high_water
unfolding shadow_promotable
shadow_promotable-IsPromotable shadow requirements high_water done = record {
  is_healthy = ground arith;
  same_config = same_bytes_sound _ _ (ground arith);
  same_schema = ground arith;
  caught_up = ground arith;
}

-- Such a shadow is declared promotable, unless the sum of its window and the gap is above 64 bits.
pub IsPromotable-shadow_promotable :
    (shadow : Readiness) (requirements : PromotionRequirements) (high_water : ℕ)
    → shadow.last_processed_window_seq + requirements.max_allowed_replay_gap < 2 ^ 64
    → IsPromotable shadow requirements high_water
    → shadow_promotable shadow requirements high_water ≡ true
unfolding shadow_promotable
IsPromotable-shadow_promotable shadow requirements high_water word v =
    ground (arith, v.is_healthy, v.same_schema, v.caught_up, digests)
  where
    digests : same_bytes shadow.config_digest requirements.required_config_digest ≡ true
    digests =
        subst (λ d. same_bytes shadow.config_digest d ≡ true) v.same_config
          (same_bytes_refl shadow.config_digest)
