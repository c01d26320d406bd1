-- ===== src/GateDaemon/Sublist.antt =====
-- src/gate/gate_main.c: results of which some are left out.
use obicall.Common.Marks.{is_fresh, Increasing}
use obicall.Common.{
  ℕ, ◌≡◌, refl, Bool, true, false, List, [], ◌∷◌, ◌++◌, Option, none, some, arith, if◌then◌else◌,
  same_bytes,
}
use obicall.FusionResult.{FusionResult}
use obicall.Gate.Run.{windows}

-- The first list is the second with some of its results left out.
pub data Sublist : List FusionResult → List FusionResult → Type 0 where
  done : Sublist [] []
  keep : {rs ts : List FusionResult} (r : FusionResult) → Sublist rs ts → Sublist (r ∷ rs) (r ∷ ts)
  skip : {rs ts : List FusionResult} (r : FusionResult) → Sublist rs ts → Sublist rs (r ∷ ts)

pub Sublist-append :
    {rs ts rs' ts' : List FusionResult}
    → Sublist rs ts
    → Sublist rs' ts'
    → Sublist (rs ++ rs') (ts ++ ts')
Sublist-append done more = more
Sublist-append (keep r sub) more = keep r (Sublist-append sub more)
Sublist-append (skip r sub) more = skip r (Sublist-append sub more)

Increasing-weaken :
    (m : Option ℕ) (w : ℕ) (ws : List ℕ)
    → is_fresh m w ≡ true
    → Increasing (some w) ws
    → Increasing m ws
Increasing-weaken m w [] h i = tt
Increasing-weaken none w (v ∷ ws) h (fresh, i) = (refl, i)
Increasing-weaken (some l) w (v ∷ ws) h (fresh, i) = (ground arith, i)

-- The windows of a pipeline still increase where some results are left out.
keep_window :
    (b : Bool) (w : ℕ) (m : Option ℕ) (ws vs : List ℕ)
    → ((l : Option ℕ) → Increasing l vs → Increasing l ws)
    → Increasing m (if b then w ∷ vs else vs)
    → Increasing m (if b then w ∷ ws else ws)
keep_window true w m ws vs later (fresh, i) = (fresh, later (some w) i)
keep_window false w m ws vs later i = later m i

skip_window :
    (b : Bool) (w : ℕ) (m : Option ℕ) (ws vs : List ℕ)
    → ((l : Option ℕ) → Increasing l vs → Increasing l ws)
    → Increasing m (if b then w ∷ vs else vs)
    → Increasing m ws
skip_window true w m ws vs later (fresh, i) = Increasing-weaken m w ws fresh (later (some w) i)
skip_window false w m ws vs later i = later m i

pub Sublist-Increasing :
    {rs ts : List FusionResult}
    → Sublist rs ts
    → (id : List ℕ) (m : Option ℕ) → Increasing m (windows id ts)
    → Increasing m (windows id rs)
Sublist-Increasing done id m i = tt
Sublist-Increasing (keep r sub) id m i =
    keep_window (same_bytes r.pipeline_id id) r.window_seq m _ _ (Sublist-Increasing sub id) i
Sublist-Increasing (skip r sub) id m i =
    skip_window (same_bytes r.pipeline_id id) r.window_seq m _ _ (Sublist-Increasing sub id) i
