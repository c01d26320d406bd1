-- ===== src/Gate/Run.antt =====
-- src/core/gate.c: sequences of calls of the two functions that change the gate's state.
use obicall.Common.Marks.{is_fresh, Increasing}
use obicall.Common.{
  ℕ, ◌+◌, ◌^◌, ◌<◌, ◌≡◌, refl, sym, ap, subst, ◌∙◌, ◌⊎◌, inl, inr, Bool, true, false, List, [], ◌∷◌,
  ◌++◌, Option, some, arith, if◌then◌else◌, Bool-cases, same_bytes, same_bytes_sound, length, All,
  ℤ,
}
use native.Mathlib.Nat.{mod-eq_of_lt}
use obicall.FusionResult.{FusionResult}
use obicall.Gate.State.{GateState, IsGateState}
use obicall.Gate.Publish.{decide_publish}
use obicall.Gate.Promote.{promote}
use obicall.Gate.Marks.{high_water}
use obicall.Gate.HighWater.{is_commit, mark_after}
use obicall.Gate.Decision.{decide_publish-is_commit, decide_publish-Decided}

pub data GateEvent : Type 0 where
  submit : FusionResult → ℤ → GateEvent
  promote_to : ℕ → ℤ → GateEvent

-- The state after a call.
unfoldable pub handle : GateState → GateEvent → GateState
handle s (submit r now_ns) = (decide_publish s r now_ns).state
handle s (promote_to broker now_ns) = (promote s broker now_ns).0

-- The results that a call commits.
unfoldable pub committed : GateState → GateEvent → List FusionResult
committed s (submit r now_ns) = if is_commit (decide_publish s r now_ns).outcome then r ∷ [] else []
committed s (promote_to broker now_ns) = []

-- The results that a sequence of calls commits, in order.
unfoldable pub commits : GateState → List GateEvent → List FusionResult
commits s [] = []
commits s (e ∷ es) = committed s e ++ commits (handle s e) es

-- The windows of one pipeline among some results.
abbrev pub windows : List ℕ → List FusionResult → List ℕ
windows id [] = []
windows id (r ∷ rs) =
    if same_bytes r.pipeline_id id then r.window_seq ∷ windows id rs else windows id rs

-- What a committed result was checked for.
commit_cond :
    (s : GateState) (r : FusionResult) (now_ns : ℤ)
    → IsGateState s
    → is_commit (decide_publish s r now_ns).outcome ≡ true
    → (r.epoch ≡ s.epoch)
      × (r.broker_id ≡ s.owner_broker_id)
      × (is_fresh (high_water s r.pipeline_id) r.window_seq ≡ true)
commit_cond s r now_ns w done = ground (arith, sym (decide_publish-is_commit s r now_ns w) ∙ done)

promote-IsGateState :
    (s : GateState) (broker : ℕ) (now_ns : ℤ)
    → IsGateState s
    → IsGateState (promote s broker now_ns).0
unfolding promote
promote-IsGateState s broker now_ns w = record { count_fits = w.count_fits; slots = w.slots }

promote-high_water :
    (s : GateState) (broker : ℕ) (now_ns : ℤ) (id : List ℕ)
    → high_water (promote s broker now_ns).0 id ≡ high_water s id
unfolding promote high_water
promote-high_water s broker now_ns id = refl

-- The results of a run, split at the first submission.
mark_after-Increasing :
    (done : Bool) (r : FusionResult) (before : List ℕ → Option ℕ) (id : List ℕ) (m : Option ℕ)
    (rest : List FusionResult)
    → m ≡ mark_after done r before id
    → (done ≡ true → is_fresh (before r.pipeline_id) r.window_seq ≡ true)
    → Increasing m (windows id rest)
    → Increasing (before id) (windows id ((if done then r ∷ [] else []) ++ rest))
mark_after-Increasing false r before id m rest e fresh later =
    subst (λ x. Increasing x (windows id rest)) e later
mark_after-Increasing true r before id m rest e fresh later =
    elim (Bool-cases (same_bytes r.pipeline_id id)) [
      | inl same ↦
          let mark : m ≡ some r.window_seq =
            e ∙ ap (λ b. if b then some r.window_seq else before id) same in
          let named = ap before (same_bytes_sound _ _ same) in
          subst
            (λ b.
              Increasing (before id)
                (if b then r.window_seq ∷ windows id rest else windows id rest))
            (sym same)
            (
              subst (λ x. is_fresh x r.window_seq ≡ true) named (fresh refl),
              subst (λ x. Increasing x (windows id rest)) mark later,
            )
      | inr differs ↦
          let mark : m ≡ before id =
            e ∙ ap (λ b. if b then some r.window_seq else before id) differs in
          subst
            (λ b.
              Increasing (before id)
                (if b then r.window_seq ∷ windows id rest else windows id rest))
            (sym differs) (subst (λ x. Increasing x (windows id rest)) mark later)
    ]

-- Whatever is submitted and whoever is promoted, the committed windows of a pipeline strictly increase, from
-- above the last one that was committed before.
pub commits-Increasing :
    (es : List GateEvent) (s : GateState) (id : List ℕ)
    → IsGateState s
    → Increasing (high_water s id) (windows id (commits s es))
unfolding commits handle committed
commits-Increasing [] s id w = tt
commits-Increasing (submit r now_ns ∷ es) s id w =
    let d = decide_publish-Decided s r now_ns w in
    mark_after-Increasing (is_commit (decide_publish s r now_ns).outcome) r (high_water s) id
      (high_water (decide_publish s r now_ns).state id) _ (d.marked id)
      (λ done. (commit_cond s r now_ns w done).2)
      (commits-Increasing es (decide_publish s r now_ns).state id d.well_formed)
commits-Increasing (promote_to broker now_ns ∷ es) s id w =
    subst (λ m. Increasing m (windows id (commits (promote s broker now_ns).0 es)))
      (promote-high_water s broker now_ns id)
      (commits-Increasing es (promote s broker now_ns).0 id (promote-IsGateState s broker now_ns w))

-- A result of the owner in the epoch, or of a later epoch.
abbrev pub From : ℕ → ℕ → FusionResult → Type 0
From epoch owner r = ((r.epoch ≡ epoch) × (r.broker_id ≡ owner)) ⊎ (epoch < r.epoch)

-- Epochs never go back, and all results of one epoch are of one broker.
abbrev pub OneOwner : List FusionResult → Type 0
OneOwner [] = Unit
OneOwner (r ∷ rs) = All (From r.epoch r.broker_id) rs × OneOwner rs

From-later : (rs : List FusionResult) (e f o p : ℕ) → e < f → All (From f p) rs → All (From e o) rs
From-later [] e f o p h all = tt
From-later (r ∷ rs) e f o p h (inl (same, by), all) =
    (inr (omega arith), From-later rs e f o p h all)
From-later (r ∷ rs) e f o p h (inr later, all) = (inr (omega arith), From-later rs e f o p h all)

From-same :
    (rs : List FusionResult) (e f o p : ℕ) → f ≡ e → p ≡ o → All (From f p) rs → All (From e o) rs
From-same rs e f o p h k all =
    subst (λ x. All (From e x) rs) k (subst (λ x. All (From x p) rs) h all)

-- The committed results of a run, seen from the state before one submission.
From-submit :
    (done : Bool) (r : FusionResult) (e o : ℕ) (rest : List FusionResult)
    → (done ≡ true → (r.epoch ≡ e) × (r.broker_id ≡ o))
    → All (From e o) rest × OneOwner rest
    → All (From e o) ((if done then r ∷ [] else []) ++ rest)
      × OneOwner ((if done then r ∷ [] else []) ++ rest)
From-submit false r e o rest cond later = later
From-submit true r e o rest cond (all, one) =
    let (in_epoch, by_owner) = cond refl in
    (
      (inl (in_epoch, by_owner), all),
      (From-same rest r.epoch e r.broker_id o (sym in_epoch) (sym by_owner) all, one),
    )

-- While the epoch does not wrap, the committed results of a run come in the order of their epochs, none of
-- an epoch before the present one, and those of one epoch are all of one broker: in the present epoch, of the present owner.
pub commits-OneOwner :
    (es : List GateEvent) (s : GateState)
    → IsGateState s
    → s.epoch + length es < 2 ^ 64
    → All (From s.epoch s.owner_broker_id) (commits s es) × OneOwner (commits s es)
unfolding commits handle committed promote
commits-OneOwner [] s w h = (tt, tt)
commits-OneOwner (submit r now_ns ∷ es) s w h =
    let d = decide_publish-Decided s r now_ns w in
    let t = (decide_publish s r now_ns).state in
    let (all, one) =
      commits-OneOwner es (decide_publish s r now_ns).state d.well_formed
        (omega (arith, d.epoch_kept)) in
    From-submit (is_commit (decide_publish s r now_ns).outcome) r s.epoch s.owner_broker_id _
      (λ done. let c = commit_cond s r now_ns w done in (c.0, c.1))
      (
        From-same (commits t es) s.epoch t.epoch s.owner_broker_id t.owner_broker_id d.epoch_kept
            d.owner_kept all,
        one,
      )
commits-OneOwner (promote_to broker now_ns ∷ es) s w h =
    let t = (promote s broker now_ns).0 in
    let advanced : t.epoch ≡ s.epoch + 1 = mod-eq_of_lt (omega arith) in
    let (all, one) =
      commits-OneOwner es (promote s broker now_ns).0 (promote-IsGateState s broker now_ns w)
        (omega (arith, advanced)) in
    (
      From-later (commits t es) s.epoch t.epoch s.owner_broker_id broker (omega (arith, advanced))
          all,
      one,
    )
