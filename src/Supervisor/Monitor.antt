-- ===== src/Supervisor/Monitor.antt =====
-- src/supervisor/supervisor.c: `supervisor_monitor_tick`, and the functions that suspend, resume and stop children.
use obicall.Common.{
  ℕ, suc, ◌+◌, Bool, true, false, not, ◌&&◌, ◌||◌, List, [], ◌∷◌, leb, if◌then◌else◌, ℤ, pos, ◌-ℤ◌,
  ltb_ℤ,
}
use obicall.Common.Text.{str_eq}

-- `proc` says whether there is a handle of a process. The path and the arguments of the program are left out.
pub record ChildProc : Type 0 where
  pub name : List ℕ
  pub proc : Bool
  pub restart_count : ℕ
  pub window_start_ns : ℤ
  pub is_worker : Bool
  pub restart_suspended : Bool

-- What the system answers for a child in a tick: whether the process is alive, when its heartbeat file was written
-- (below 0 if there is none), the wall clock, and whether and when a new process was started.
pub record Seen : Type 0 where
  pub alive : Bool
  pub mtime_ns : ℤ
  pub realtime_ns : ℤ
  pub spawned : Bool
  pub spawned_at_ns : ℤ

abbrev pub grace_ns : ℕ
grace_ns = 4000000000

abbrev pub stale_ns : ℕ
stale_ns = 5000000000

abbrev pub restart_window_ns : ℕ
restart_window_ns = 60000000000

abbrev pub max_restarts : ℕ
max_restarts = 5

unfoldable pub is_hung : ChildProc → ℤ → Seen → Bool
is_hung c now seen =
    seen.alive
    && c.is_worker
    && ltb_ℤ (pos grace_ns) (now -ℤ c.window_start_ns)
    && (ltb_ℤ seen.mtime_ns (pos 0) || ltb_ℤ (pos stale_ns) (seen.realtime_ns -ℤ seen.mtime_ns))

unfoldable pub spawn_child : Seen → ChildProc → ChildProc
spawn_child seen c =
    if seen.spawned then record c { proc = true; window_start_ns = seen.spawned_at_ns } else c

abbrev pub window_ended : ChildProc → ℤ → Bool
window_ended c now = ltb_ℤ (pos restart_window_ns) (now -ℤ c.window_start_ns)

abbrev pub renew_window : ChildProc → ℤ → ChildProc
renew_window c now =
    if window_ended c now then record c { restart_count = 0; window_start_ns = now } else c

-- The child after, and whether it was tried to start it.
unfoldable pub restart_child : ChildProc → ℤ → Seen → ChildProc × Bool
restart_child c now seen =
    let renewed = renew_window c now in
    if c.restart_suspended
    then (c, false)
    else if leb max_restarts renewed.restart_count
    then (renewed, false)
    else (spawn_child seen (record renewed { restart_count = renewed.restart_count + 1 }), true)

unfoldable pub tick_child : ChildProc → ℤ → Seen → ChildProc × Bool
tick_child c now seen =
    if not c.proc
    then (c, false)
    else if seen.alive && not (is_hung c now seen)
    then (c, false)
    else restart_child (record c { proc = false }) now seen

-- The loop of the tick from the child with index `i` on.
unfoldable pub monitor_from : List ChildProc → ℤ → (ℕ → Seen) → ℕ → List ChildProc
monitor_from [] now seen i = []
monitor_from (c ∷ children) now seen i =
    (tick_child c now (seen i)).0 ∷ monitor_from children now seen (suc i)

unfoldable pub monitor_tick : List ChildProc → ℤ → (ℕ → Seen) → List ChildProc
monitor_tick children now seen = monitor_from children now seen 0

-- The first child of the name that has a process is killed, and is not to be started again.
unfoldable pub kill_child_and_suspend : List ChildProc → List ℕ → List ChildProc
kill_child_and_suspend [] name = []
kill_child_and_suspend (c ∷ children) name =
    let rest = kill_child_and_suspend children name in
    if str_eq c.name name && c.proc
    then record c { restart_suspended = true } ∷ children
    else c ∷ rest

unfoldable pub resume_child : List ChildProc → List ℕ → ℤ → List ChildProc
resume_child [] name now = []
resume_child (c ∷ children) name now =
    let rest = resume_child children name now in
    if str_eq c.name name
    then record c { restart_suspended = false; restart_count = 0; window_start_ns = now } ∷ children
    else c ∷ rest

-- What is left of the children: no handle of a process.
unfoldable pub stop_all : List ChildProc → List ChildProc
stop_all [] = []
stop_all (c ∷ children) = record c { proc = false } ∷ stop_all children

-- A call of one of these functions.
pub data Command : Type 0 where
  tick : ℤ → (ℕ → Seen) → Command
  suspend : List ℕ → Command
  resume : List ℕ → ℤ → Command
  stop : Command

unfoldable pub command : List ChildProc → Command → List ChildProc
command children (tick now seen) = monitor_tick children now seen
command children (suspend name) = kill_child_and_suspend children name
command children (resume name now) = resume_child children name now
command children stop = stop_all children

unfoldable pub run_commands : List ChildProc → List Command → List ChildProc
run_commands children [] = children
run_commands children (c ∷ commands) = run_commands (command children c) commands
