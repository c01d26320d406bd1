-- ===== src/Common/Marks.antt =====
-- Sequence numbers that strictly increase, from above a mark.
use Prim.Native.Nat.{ℕ}
use mathlib.Core.Path.{◌≡◌}
use mathlib.Core.Bool.{Bool, true}
use mathlib.Core.List.{List, [], ◌∷◌}
use mathlib.Core.Option.{Option, none, some}
use obicall.Common.Tests.{ltb}

-- The number is above the mark, if there is one.
abbrev pub is_fresh : Option ℕ → ℕ → Bool
is_fresh none w = true
is_fresh (some last) w = ltb last w

-- Each number is above the one before it, and the first is above the mark.
abbrev pub Increasing : Option ℕ → List ℕ → Type 0
Increasing m [] = Unit
Increasing m (w ∷ ws) = (is_fresh m w ≡ true) × Increasing (some w) ws
