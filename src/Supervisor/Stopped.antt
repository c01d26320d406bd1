-- ===== src/Supervisor/Stopped.antt =====
-- src/supervisor/supervisor.c: a child without a process is not started again.
use obicall.Common.{
  ℕ, zero, suc, ◌≡◌, refl, ap, ◌∙◌, inl, inr, Bool, false, ◌&&◌, List, [], ◌∷◌, none, some, arith,
  get_elem?, Bool-cases, ℤ,
}
use obicall.Common.Text.{str_eq}
use obicall.Supervisor.Monitor.{
  ChildProc, Seen, tick_child, monitor_from, monitor_tick, kill_child_and_suspend, resume_child,
  stop_all, Command, tick, suspend, resume, stop, command, run_commands,
}

-- The child with this index has a process.
abbrev pub runs : List ChildProc → ℕ → Bool
runs children i = elim (get_elem? children i) [ none ↦ false | some c ↦ c.proc ]

-- A tick leaves a child without a process.
pub tick_child-stopped :
    (c : ChildProc) (now : ℤ) (seen : Seen) → c.proc ≡ false → tick_child c now seen ≡ (c, false)
unfolding tick_child
tick_child-stopped c now seen h = ground (arith, h)

monitor_from-stopped :
    (children : List ChildProc) (now : ℤ) (seen : ℕ → Seen) (j i : ℕ)
    → runs children i ≡ false
    → runs (monitor_from children now seen j) i ≡ false
unfolding monitor_from
monitor_from-stopped [] now seen j i h = refl
monitor_from-stopped (c ∷ children) now seen j zero h =
    ap (λ p. p.0.proc) (tick_child-stopped c now (seen j) h) ∙ h
monitor_from-stopped (c ∷ children) now seen j (suc i) h =
    monitor_from-stopped children now seen (suc j) i h

suspend-stopped :
    (children : List ChildProc) (name : List ℕ) (i : ℕ)
    → runs children i ≡ false
    → runs (kill_child_and_suspend children name) i ≡ false
unfolding kill_child_and_suspend
suspend-stopped [] name i h = refl
suspend-stopped (c ∷ children) name zero h = ground (arith, h)
suspend-stopped (c ∷ children) name (suc i) h = elim (Bool-cases (str_eq c.name name && c.proc)) [
  | inl this ↦ rw this h
  | inr other ↦ rw other (suspend-stopped children name i h)
]

resume-stopped :
    (children : List ChildProc) (name : List ℕ) (now : ℤ) (i : ℕ)
    → runs children i ≡ false
    → runs (resume_child children name now) i ≡ false
unfolding resume_child
resume-stopped [] name now i h = refl
resume-stopped (c ∷ children) name now zero h = ground (arith, h)
resume-stopped (c ∷ children) name now (suc i) h = elim (Bool-cases (str_eq c.name name)) [
  | inl this ↦ rw this h
  | inr other ↦ rw other (resume-stopped children name now i h)
]

stop_all-stopped : (children : List ChildProc) (i : ℕ) → runs (stop_all children) i ≡ false
unfolding stop_all
stop_all-stopped [] i = refl
stop_all-stopped (c ∷ children) zero = refl
stop_all-stopped (c ∷ children) (suc i) = stop_all-stopped children i

command-stopped :
    (children : List ChildProc) (c : Command) (i : ℕ)
    → runs children i ≡ false
    → runs (command children c) i ≡ false
unfolding command monitor_tick
command-stopped children (tick now seen) i h = monitor_from-stopped children now seen 0 i h
command-stopped children (suspend name) i h = suspend-stopped children name i h
command-stopped children (resume name now) i h = resume-stopped children name now i h
command-stopped children stop i h = stop_all-stopped children i

-- A child that once has no process never has one again, whatever is called: a failed start is not tried again,
-- and a child that was suspended and ended is not started when it is resumed.
pub run_commands-stopped :
    (children : List ChildProc) (commands : List Command) (i : ℕ)
    → runs children i ≡ false
    → runs (run_commands children commands) i ≡ false
unfolding run_commands
run_commands-stopped children [] i h = h
run_commands-stopped children (c ∷ commands) i h =
    run_commands-stopped (command children c) commands i (command-stopped children c i h)
