-- ===== src/Server/Endpoints/Bounds.antt =====
-- What all workers together cannot exceed.
use honey_mind.Base.{length, ok, ◌+◌, ◌≤◌, ◌≡◌, List, arith}
use honey_mind.Config.Schema.{Config, EndpointConfig}
use honey_mind.Metrics.{Metrics}
use honey_mind.Ratelimit.Bounds.{history_size}
use honey_mind.Server.Admission.{Semaphore, AppState, new_state}
use honey_mind.Server.Admission.Capacity.{Reach-bounds, Reach-Inv, Fresh-Inv, new_state-Fresh}
use honey_mind.Server.Endpoints.{System, Turns, started, sessions}
use honey_mind.Server.Endpoints.Refinement.{Turns-Reach}

-- From the state that `AppState::new` makes, at every moment of every run the workers together hold at
-- most as many sessions as configured, and every permit is either free or held by one of them. The
-- limiter tracks at most as many addresses as configured, with at most 1,000,000 instants.
pub Turns-bounds :
    {S : Type 0} (sem : Semaphore S) (cfg : Config) (m : Metrics) (a : AppState S)
    (endpoints : List EndpointConfig) (t : System S)
    → new_state sem cfg m ≡ ok a
    → Turns sem (started a endpoints) t
    → (sem.permits t.app.semaphore + sessions t.workers ≡ cfg.server.max_concurrent_sessions)
      × (sessions t.workers ≤ cfg.server.max_concurrent_sessions)
      × (length t.app.limiter.inner ≤ cfg.server.max_tracked_ips)
      × (history_size t.app.limiter.inner ≤ 1000000)
Turns-bounds sem cfg m a endpoints t made ts =
    let (v, f) = new_state-Fresh sem cfg m a made in
    let (r, held) = Turns-Reach sem a endpoints t f.idle ts in
    let (few, ips, instants) = Reach-bounds sem cfg a t.app v f r in
    let inv = Reach-Inv sem cfg.server.max_concurrent_sessions _ r (Fresh-Inv sem cfg.server a f) in
    (omega (arith, inv.shared, held), omega (arith, few, held), ips, instants)
