-- ===== src/Server/Endpoints/Refinement.antt =====
-- Each step of the workers is one of the steps of the admission of sessions, or none.
use honey_mind.Server.Admission.Spawned.{
  finish_task-spawned, maintain-spawned, check_peer-spawned, with_permit-spawned,
}
use honey_mind.Config.Schema.{EndpointConfig}
use honey_mind.Base.{
  ◌≤◌, ◌+◌, ◌≤◌, ◌≡◌, refl, List, [], ◌∷◌, ◌++◌, arith, sym, ap, ◌∙◌, Bool, true, false,
  if◌then◌else◌,
}
use honey_mind.Server.Admission.{Semaphore, AppState, finish_task, check_peer}
use honey_mind.Server.Admission.Capacity.{Step, Reach}
use honey_mind.Server.Endpoints.{
  System, Turn, Turns, moves, wakes, cancels, start, next, sessions, EndpointMove, seen, admit,
  begin, new_workers, started, check, next_of,
}
use honey_mind.Server.Loop.{
  Pool, World, stops, joins, accepts, accept_fails, begins, ends, drains, returns, live, stop, join,
  drain, leave_loop, take, after_admit, begin_task, end_task, finished, panicked, admit_taken,
  after_check, asks, finds_none, waits, admits,
}

sessions-append :
    (xs ys : List (EndpointConfig × Pool)) → sessions (xs ++ ys) ≡ sessions xs + sessions ys
unfolding sessions
sessions-append [] ys = omega arith
sessions-append ((ep, p) ∷ xs) ys = omega (arith, sessions-append xs ys)

module _ {S : Type 0} (sem : Semaphore S) where
  checked-refines :
      (ep : EndpointConfig) (v : World (AppState S)) (b : AppState S) (f : Bool)
      → Reach sem v.shared b
      → b.spawned ≡ v.shared.spawned
      → let w = after_check (check ep) (admit sem ep) begin (finish_task sem) v (b, next_of f) in
        Reach sem v.shared w.shared
        × (live w.pool + v.shared.spawned ≡ live v.pool + w.shared.spawned)
  unfolding after_check
  checked-refines ep v b true r c = (r, omega (arith, c))
  checked-refines ep v b false r c = (r, omega (arith, c))

  admitted-refines :
      (ep : EndpointConfig) (v : World (AppState S)) (b : AppState S) (f : Bool)
      → Reach sem v.shared b
      → b.spawned ≡ (if f then v.shared.spawned + 1 else v.shared.spawned)
      → let w = after_admit (check ep) (admit sem ep) begin (finish_task sem) v (b, f) in
        Reach sem v.shared w.shared
        × (live w.pool + v.shared.spawned ≡ live v.pool + w.shared.spawned)
  unfolding after_admit
  admitted-refines ep v b true r c = (r, omega (arith, c))
  admitted-refines ep v b false r c = (r, omega (arith, c))

  -- A step of one worker, whose live tasks hold permits.
  Move-refines :
      (ep : EndpointConfig) (v w : World (AppState S))
      → EndpointMove sem ep v w
      → live v.pool ≤ v.shared.spawned
      → Reach sem v.shared w.shared
        × (live w.pool + v.shared.spawned ≡ live v.pool + w.shared.spawned)
  unfolding stop join drain leave_loop take admit_taken begin_task end_task
  Move-refines ep v _ (stops a c) h = (Reach.here, refl)
  Move-refines ep v _ (asks a c) h = (Reach.here, refl)
  Move-refines ep v _ (joins finished rest a e) h = (Reach.here, refl)
  Move-refines ep v _ (joins panicked rest a e) h = (Reach.here, refl)
  Move-refines ep v _ (finds_none a e) h = (Reach.here, refl)
  Move-refines ep v _ (accepts (peer, now) a) h =
      checked-refines ep v (check_peer v.shared ep peer now).0 (check_peer v.shared ep peer now).1
        (Reach.later Reach.here (Step.checks ep peer now)) (check_peer-spawned v.shared ep peer now)
  Move-refines ep v _ (accept_fails a) h = (Reach.here, refl)
  Move-refines ep v _ (waits a) h = (Reach.here, refl)
  Move-refines ep v _ (admits a) h =
      admitted-refines ep v (admit sem ep v.shared).0 (admit sem ep v.shared).1
        (Reach.later Reach.here (Step.acquires ep.protocol))
        (with_permit-spawned sem v.shared ep.protocol (sem.try_acquire v.shared.semaphore))
  Move-refines ep v _ (begins p) h = (Reach.here, omega arith)
  Move-refines ep v _ (ends r p) h = (
    Reach.later Reach.here (Step.finishes (omega arith)),
    omega (arith, finish_task-spawned sem v.shared),
  )
  Move-refines ep v _ (drains r rest a e) h = (Reach.here, refl)
  Move-refines ep v _ (returns a l e) h = (Reach.here, refl)

  Turn-refines :
      (s t : System S)
      → Turn sem s t
      → sessions s.workers ≡ s.app.spawned
      → Reach sem s.app t.app × (sessions t.workers ≡ t.app.spawned)
  unfolding sessions
  Turn-refines s _ (moves before after ep p w e m) h =
      let old = sessions-append before ((ep, p) ∷ after) in
      let new_total = sessions-append before ((ep, w.pool) ∷ after) in
      let total : sessions s.workers ≡ sessions (before ++ (ep, p) ∷ after) = ap sessions e in
      let (r, k) = Move-refines ep (seen s p) w m (omega (arith, old, total)) in
      (r, omega (arith, old, new_total, total, k))
  Turn-refines s _ (wakes now c) h =
      (Reach.later Reach.here (Step.maintains now), h ∙ sym (maintain-spawned s.app now))
  Turn-refines s _ cancels h = (Reach.here, h)

  Reach-trans : {a b c : AppState S} → Reach sem a b → Reach sem b c → Reach sem a c
  Reach-trans r Reach.here = r
  Reach-trans r (Reach.later q m) = Reach.later (Reach-trans r q) m

  Turns-refines :
      (s t : System S)
      → Turns sem s t
      → sessions s.workers ≡ s.app.spawned
      → Reach sem s.app t.app × (sessions t.workers ≡ t.app.spawned)
  Turns-refines s _ start h = (Reach.here, h)
  Turns-refines s _ (next {t} {u} ts m) h =
      let (r, k) = Turns-refines s t ts h in
      let (q, l) = Turn-refines t u m k in (Reach-trans r q, l)

  sessions-new_workers : (eps : List EndpointConfig) → sessions (new_workers eps) ≡ 0
  unfolding sessions
  sessions-new_workers [] = refl
  sessions-new_workers (ep ∷ eps) = omega (arith, sessions-new_workers eps)

  -- The state that the workers share is one that the admission leads to, and it counts their sessions.
  pub Turns-Reach :
      (a : AppState S) (endpoints : List EndpointConfig) (t : System S)
      → a.spawned ≡ 0
      → Turns sem (started a endpoints) t
      → Reach sem a t.app × (sessions t.workers ≡ t.app.spawned)
  Turns-Reach a endpoints t idle ts =
      Turns-refines (started a endpoints) t ts (sessions-new_workers endpoints ∙ sym idle)
