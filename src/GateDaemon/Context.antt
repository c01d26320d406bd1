-- ===== src/GateDaemon/Context.antt =====
-- src/gate/gate_main.c: the state of the process, and the file with the gate's state.
use obicall.Common.{ℕ, Bool, true, false, List, if◌then◌else◌, if_either, ◌≡◌, refl, ℤ}
use obicall.Common.Device.{Device}
use obicall.Gate.Persist.{persist_state}
use obicall.Gate.Promote.{Readiness}
use obicall.Gate.State.{GateState}
use obicall.Status.{Result, ok, err}

abbrev pub broker_a : ℕ
broker_a = 1

abbrev pub broker_b : ℕ
broker_b = 2

pub record BrokerView : Type 0 where
  pub known : Bool
  pub readiness : Readiness
  pub last_heartbeat_ns : ℤ

-- `brokers` has its entries for 1 and 2. `file` is the content of the state file. Its path, the token of the
-- run, the two other times and the flag for the end of the process are left out.
pub record GateCtx : Type 0 where
  pub state : GateState
  pub view_a : BrokerView
  pub view_b : BrokerView
  pub file : List ℕ
  pub required_config_digest : List ℕ
  pub required_checkpoint_schema_version : ℕ
  pub max_allowed_replay_gap : ℕ
  pub confirm_timeout_ns : ℤ
  pub start_time_ns : ℤ

-- What the system makes of an attempt to store the state: whether the temporary file is opened, the
-- results of the writes to it, and whether it takes the place of the state file.
pub record Disk : Type 0 where
  pub opened : Bool
  pub device : Device
  pub replaced : Bool

abbrev pub replace_file : Bool → GateCtx → Result (List ℕ) → GateCtx × Bool
replace_file replaced ctx (err e) = (ctx, false)
replace_file replaced ctx (ok content) =
    if replaced then (record ctx { file = content }, true) else (ctx, false)

-- The context after, and whether the function returns 0.
unfoldable pub persist_locked : Disk → GateCtx → GateCtx × Bool
persist_locked disk ctx =
    if disk.opened
    then replace_file disk.replaced ctx (persist_state disk.device ctx.state)
    else (ctx, false)

replace_file-state :
    (replaced : Bool) (ctx : GateCtx) (r : Result (List ℕ))
    → (replace_file replaced ctx r).0.state ≡ ctx.state
replace_file-state replaced ctx (err e) = refl
replace_file-state true ctx (ok content) = refl
replace_file-state false ctx (ok content) = refl

pub persist_locked-state :
    (disk : Disk) (ctx : GateCtx) → (persist_locked disk ctx).0.state ≡ ctx.state
unfolding persist_locked
persist_locked-state disk ctx =
    if_either (λ (p : GateCtx × Bool). p.0.state ≡ ctx.state) disk.opened
      (replace_file-state disk.replaced ctx (persist_state disk.device ctx.state)) refl
