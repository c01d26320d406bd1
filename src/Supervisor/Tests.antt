-- ===== src/Supervisor/Tests.antt =====
-- Runs of the supervisor on one child.
use obicall.Common.{ℕ, ◌≡◌, ◌-◌, refl, true, false, List, [], ◌∷◌, arith, ℤ, pos, ◌-ℤ◌}
use obicall.Common.Text.{codes}
use obicall.Supervisor.Bursts.{attempts, Bursts, attempts-Bursts}
use obicall.Supervisor.Monitor.{
  ChildProc, Seen, max_restarts, is_hung, spawn_child, restart_child, tick_child, tick, resume,
  run_commands,
}
use obicall.Supervisor.Stopped.{runs, run_commands-stopped}

-- A broker that was started at 1 second.
abbrev broker : ChildProc
broker = record {
  name = codes "broker_A";
  proc = true;
  restart_count = 3;
  window_start_ns = pos 1000000000;
  is_worker = false;
  restart_suspended = false;
}

-- Its process ended, and a new one is started at the time.
abbrev ended : ℕ → Seen
ended at = record {
  alive = false;
  mtime_ns = pos 0;
  realtime_ns = pos 0;
  spawned = true;
  spawned_at_ns = pos at;
}

-- It ends twice.
abbrev ticks : List (ℤ × Seen)
ticks = (pos 2000000000, ended 2000000001) ∷ (pos 3000000000, ended 3000000001) ∷ []

attempts-Bursts_example : Bursts (max_restarts - 3) (pos 1000000000) (attempts broker ticks)
attempts-Bursts_example =
    attempts-Bursts broker (pos 1000000000) ticks (omega arith) (omega arith, (omega arith, tt))

-- Both attempts are made, and after a third end none.
attempts_made :
    attempts broker (
      (pos 2000000000, ended 2000000001)
      ∷ (pos 3000000000, ended 3000000001)
      ∷ (pos 4000000000, ended 4000000001)
      ∷ [])
    ≡ pos 2000000000 ∷ pos 3000000000 ∷ []
unfolding attempts tick_child restart_child spawn_child is_hung ◌-ℤ◌
attempts_made = refl

-- A broker whose process ended while it was suspended.
abbrev held : ChildProc
held = record broker { proc = false; restart_suspended = true }

run_commands-stopped_example :
    runs
      (run_commands
        (held ∷ [])
        (resume (codes "broker_A") (pos 5) ∷ tick (pos 6) (λ i. ended 7) ∷ []))
      0
    ≡ false
run_commands-stopped_example =
    run_commands-stopped (held ∷ [])
      (resume (codes "broker_A") (pos 5) ∷ tick (pos 6) (λ i. ended 7) ∷ []) 0 refl
