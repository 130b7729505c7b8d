-- ===== src/Server/Loop/Drain.antt =====
-- A loop that is cancelled returns, with every task joined.
use honey_mind.Base.{
  length, length-append, ℕ, ◌+◌, ◌*◌, ◌<◌, ◌≡◌, refl, ◌⊎◌, inl, inr, Bool, true, none, [], ◌∷◌,
  arith, List, false,
}
use native.Mathlib.Decide.{dec_lt}
use honey_mind.Server.Loop.{
  Phase, accepting, draining, returned, Pool, World, stop, join, drain, leave_loop, take,
  begin_task, end_task, Move, stops, joins, accepts, accept_fails, begins, ends, drains, returns,
  live, JoinResult, after_admit, finished, panicked, Next, asked, after_check, listening,
  admit_taken, admitting, waits, admits, asks, finds_none, refuses, spawns, admits_next,
}

abbrev pub weight : Phase → ℕ
weight accepting = 2
weight asked = 8
weight listening = 7
weight admitting = 6
weight draining = 1
weight returned = 0

-- How many steps a cancelled loop still takes at most.
abbrev pub remaining_steps : Pool → ℕ
remaining_steps p = weight p.phase + 3 * p.spawned + 2 * p.running + length p.ended

-- What holds in each phase: no fault before the loop is left; a token that is cancelled from then on;
-- and in the end no task.
abbrev pub IsConsistent : {X : Type 0} → Phase → World X → Type 0
IsConsistent accepting w = w.pool.failure ≡ none
IsConsistent asked w = w.pool.failure ≡ none
IsConsistent listening w = w.pool.failure ≡ none
IsConsistent admitting w = w.pool.failure ≡ none
IsConsistent draining w = w.cancelled ≡ true
IsConsistent returned w = (w.cancelled ≡ true) × (live w.pool ≡ 0) × (w.pool.ended ≡ [])

abbrev pub Consistent : {X : Type 0} → World X → Type 0
Consistent w = IsConsistent w.pool.phase w

module _ {X I : Type 0} (check : Pool → X → I → X × Next) (admit : X → X × Bool)
    (begin leave : X → X) where
  pub Move-remaining_steps :
      {v w : World X}
      → Move check admit begin leave v w
      → v.cancelled ≡ true
      → (w.cancelled ≡ true) × (remaining_steps w.pool < remaining_steps v.pool)
  unfolding stop join drain leave_loop take after_check admit_taken after_admit begin_task end_task
  Move-remaining_steps {v} (stops a c) k = ground arith
  Move-remaining_steps {v} (asks a c) k = absurd (ground arith)
  Move-remaining_steps {v} (joins finished rest a e) k = (k, ground arith)
  Move-remaining_steps {v} (joins panicked rest a e) k = (refl, ground arith)
  Move-remaining_steps {v} (finds_none a e) k = (k, ground arith)
  Move-remaining_steps {v} (accepts i a) k = go (check v.pool v.shared i)
    where
      go :
          (o : X × Next)
          → ((after_check check admit begin leave v o).cancelled ≡ true)
            × (remaining_steps (after_check check admit begin leave v o).pool
                < remaining_steps v.pool)
      go (x, refuses) = (k, ground arith)
      go (x, spawns) = (k, ground arith)
      go (x, admits_next) = (k, ground arith)
  Move-remaining_steps {v} (accept_fails a) k = (refl, ground arith)
  Move-remaining_steps {v} (waits a) k = (k, ground arith)
  Move-remaining_steps {v} (admits a) k = go (admit v.shared)
    where
      go :
          (o : X × Bool)
          → ((after_admit check admit begin leave v o).cancelled ≡ true)
            × (remaining_steps (after_admit check admit begin leave v o).pool
                < remaining_steps v.pool)
      go (x, true) = (k, ground arith)
      go (x, false) = (k, ground arith)
  Move-remaining_steps {v} (begins p) k = ground arith
  Move-remaining_steps {v} (ends r p) k = (k, ground (arith, length-append v.pool.ended (r ∷ [])))
  Move-remaining_steps {v} (drains r rest a e) k = (k, ground arith)
  Move-remaining_steps {v} (returns a l e) k = (k, ground arith)

  -- A cancelled loop that has not returned can go on, with no need of a connection.
  pub Move-progress :
      (w : World X)
      → w.cancelled ≡ true
      → (w.pool.phase ≡ returned) ⊎ ((v : World X) × Move check admit begin leave w v)
  Move-progress w c = go w.pool.phase w.pool.ended refl refl
    where
      go :
          (p : Phase) (l : List JoinResult)
          → w.pool.phase ≡ p
          → w.pool.ended ≡ l
          → (p ≡ returned) ⊎ ((v : World X) × Move check admit begin leave w v)
      go returned l e k = inl refl
      go accepting l e k = inr (_, stops e c)
      go asked (r ∷ rest) e k = inr (_, joins r rest e k)
      go asked [] e k = inr (_, finds_none e k)
      go listening l e k = inr (_, waits e)
      go admitting l e k = inr (_, admits e)
      go draining (r ∷ rest) e k = inr (_, drains r rest e k)
      go draining [] e k = elim (dec_lt 0 w.pool.spawned) [
        | yes s ↦ inr (_, begins s)
        | no s ↦ elim (dec_lt 0 w.pool.running) [
          | yes r ↦ inr (_, ends finished r)
          | no r ↦ inr (_, returns e (omega arith) k)
        ]
      ]

  pub Move-Consistent :
      {v w : World X} → Move check admit begin leave v w → Consistent v → Consistent w
  unfolding stop join drain leave_loop take after_check admit_taken after_admit begin_task end_task
  Move-Consistent {v} (stops a c) h = c
  Move-Consistent {v} (asks a c) h = rw a at h
  Move-Consistent {v} (joins finished rest a e) h = rw a at h
  Move-Consistent {v} (joins panicked rest a e) h = refl
  Move-Consistent {v} (finds_none a e) h = rw a at h
  Move-Consistent {v} (accepts i a) h = go (check v.pool v.shared i)
    where
      go : (o : X × Next) → Consistent (after_check check admit begin leave v o)
      go (x, refuses) = rw a at h
      go (x, spawns) = rw a at h
      go (x, admits_next) = rw a at h
  Move-Consistent {v} (accept_fails a) h = refl
  Move-Consistent {v} (waits a) h = rw a at h
  Move-Consistent {v} (admits a) h = go (admit v.shared)
    where
      go : (o : X × Bool) → Consistent (after_admit check admit begin leave v o)
      go (x, true) = rw a at h
      go (x, false) = rw a at h
  Move-Consistent {v} (begins p) h = go v.pool.phase h
    where
      go : (q : Phase) → IsConsistent q v → IsConsistent q (begin_task check admit begin leave v)
      go accepting k = k
      go asked k = k
      go listening k = k
      go admitting k = k
      go draining k = k
      go returned (k, l, e) = absurd (omega arith)
  Move-Consistent {v} (ends r p) h = go v.pool.phase h
    where
      go : (q : Phase) → IsConsistent q v → IsConsistent q (end_task check admit begin leave v r)
      go accepting k = k
      go asked k = k
      go listening k = k
      go admitting k = k
      go draining k = k
      go returned (k, l, e) = absurd (omega arith)
  Move-Consistent {v} (drains r rest a e) h = rw a (rw a at h)
  Move-Consistent {v} (returns a l e) h = (rw a at h, l, e)
