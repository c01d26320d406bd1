-- ===== src/Supervisor/Bursts.antt =====
-- src/supervisor/supervisor.c: how often a child is started again.
use obicall.Common.{
  ℕ, ◌+◌, ◌-◌, ◌<◌, ◌≡◌, refl, sym, ap, subst, ◌∙◌, ◌⊎◌, inl, inr, Bool, true, false, List, [], ◌∷◌,
  arith, if◌then◌else◌, ℤ, pos, ◌-ℤ◌, ◌<ℤ◌, ◌≤ℤ◌, All,
}
use obicall.Supervisor.Stopped.{tick_child-stopped}
use obicall.Supervisor.Monitor.{
  ChildProc, Seen, restart_window_ns, max_restarts, spawn_child, restart_child, tick_child,
}

-- The times of the ticks at which it is tried to start a child again.
unfoldable pub attempts : ChildProc → List (ℤ × Seen) → List ℤ
attempts c [] = []
attempts c ((now, seen) ∷ ticks) =
    let later = attempts (tick_child c now seen).0 ticks in
    if (tick_child c now seen).1 then now ∷ later else later

-- `left` attempts more, or a first one of five more than the window's length after the last.
abbrev pub Bursts : ℕ → ℤ → List ℤ → Type 0
Bursts left last [] = Unit
Bursts left last (t ∷ ts) =
    ((0 < left) × Bursts (left - 1) t ts)
    ⊎ ((pos restart_window_ns <ℤ (t -ℤ last)) × Bursts (max_restarts - 1) t ts)

-- A tick leaves the child, gives it up, or makes an attempt that is allowed.
tick_child-cases :
    (c : ChildProc) (now : ℤ) (seen : Seen)
    → (tick_child c now seen ≡ (c, false))
      ⊎ (((tick_child c now seen).1 ≡ false) × ((tick_child c now seen).0.proc ≡ false))
      ⊎ (((tick_child c now seen).1 ≡ true)
          × (((tick_child c now seen).0.proc ≡ false)
              ⊎ ((tick_child c now seen).0.window_start_ns ≡ seen.spawned_at_ns))
          × (((c.restart_count < max_restarts)
                × ((tick_child c now seen).0.restart_count ≡ c.restart_count + 1))
              ⊎ ((pos restart_window_ns <ℤ (now -ℤ c.window_start_ns))
                  × ((tick_child c now seen).0.restart_count ≡ 1))))
unfolding tick_child restart_child spawn_child
tick_child-cases c now seen = ground arith

attempts-stopped :
    (c : ChildProc) (ticks : List (ℤ × Seen)) → c.proc ≡ false → attempts c ticks ≡ []
unfolding attempts
attempts-stopped c [] h = refl
attempts-stopped c ((now, seen) ∷ ticks) h =
    ap
      (λ (p : ChildProc × Bool).
        let later = attempts p.0 ticks in if p.1 then now ∷ later else later)
      (tick_child-stopped c now seen h)
    ∙ attempts-stopped c ticks h

-- The clock goes on between a tick and the start of a process in it.
abbrev pub Clocked : ℤ × Seen → Type 0
Clocked (now, seen) = now ≤ℤ seen.spawned_at_ns

longer_ago :
    (now start last : ℤ) (n : ℕ) → last ≤ℤ start → pos n <ℤ (now -ℤ start) → pos n <ℤ (now -ℤ last)
unfolding ◌-ℤ◌
longer_ago now start last n before gap = ground arith

-- However often a child ends: while nothing but ticks changes it, it is tried to start it again in bursts of at
-- most five attempts, of which the first one has what is left, and from the last attempt of a burst to the
-- next more than 60 seconds pass.
pub attempts-Bursts :
    (c : ChildProc) (last : ℤ) (ticks : List (ℤ × Seen))
    → last ≤ℤ c.window_start_ns
    → All Clocked ticks
    → Bursts (max_restarts - c.restart_count) last (attempts c ticks)
unfolding attempts
attempts-Bursts c last [] before all = tt
attempts-Bursts c last ((now, seen) ∷ ticks) before (clocked, all) =
    elim (tick_child-cases c now seen) [
      | inl same ↦
          subst
            (λ (p : ChildProc × Bool).
              Bursts (max_restarts - c.restart_count) last
                (let later = attempts p.0 ticks in if p.1 then now ∷ later else later))
            (sym same) (attempts-Bursts c last ticks before all)
      | inr (inl (quiet, gone)) ↦ rw quiet (
          subst (Bursts (max_restarts - c.restart_count) last)
            (sym (attempts-stopped (tick_child c now seen).0 ticks gone)) tt)
      | inr (inr (tried, started, allowed)) ↦
          let after = (tick_child c now seen).0 in
          let later : Bursts (max_restarts - after.restart_count) now (attempts after ticks) =
            elim started [
              | inl gone ↦
                  subst (Bursts (max_restarts - after.restart_count) now)
                    (sym (attempts-stopped after ticks gone)) tt
              | inr at ↦
                  attempts-Bursts after now ticks (subst (λ t. now ≤ℤ t) (sym at) clocked) all
            ] in
          let rest = λ (n : ℕ) (e : max_restarts - after.restart_count ≡ n).
            subst (λ k. Bursts k now (attempts after ticks)) e later in
          rw tried (elim allowed [
            | inl (room, more) ↦ inl (
              omega (arith, room),
              rest (max_restarts - c.restart_count - 1) (omega (arith, more)),
            )
            | inr (gap, one) ↦ inr (
              longer_ago now c.window_start_ns last restart_window_ns before gap,
              rest (max_restarts - 1) (omega (arith, one)),
            )
          ])
    ]
