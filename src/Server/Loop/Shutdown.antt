-- ===== src/Server/Loop/Shutdown.antt =====
-- The steps of a loop among those of the rest of the program.
use honey_mind.Base.{ℕ, ◌+◌, ◌≡◌, Bool, []}
use honey_mind.Server.Loop.{World, Pool, returned, Move, live, Next}

module _ {X I : Type 0} (check : Pool → X → I → X × Next) (admit : X → X × Bool)
    (begin leave : X → X) where
  -- Between the steps the rest of the program may change the shared state.
  pub data Steps (w : World X) : World X → Type 0 where
    here : Steps w w
    step : {v u : World X} → Steps w v → Move check admit begin leave v u → Steps w u
    meanwhile : {v : World X} (x : X) → Steps w v → Steps w (record v { shared = x })

  pub steps_taken : {w v : World X} → Steps w v → ℕ
  steps_taken here = 0
  steps_taken (step s m) = steps_taken s + 1
  steps_taken (meanwhile x s) = steps_taken s

  -- The loop has returned, with no task left.
  pub record HasReturned (w : World X) : Type 0 where
    pub phase : w.pool.phase ≡ returned
    pub none_live : live w.pool ≡ 0
    pub all_joined : w.pool.ended ≡ []
