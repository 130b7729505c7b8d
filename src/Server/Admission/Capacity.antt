-- ===== src/Server/Admission/Capacity.antt =====
-- What no order of checks, permits, ends of sessions and maintenance can exceed.
use honey_mind.Metrics.{Metrics}
use honey_mind.Config.Validate.Limits.{validate-limits}
use honey_mind.Ratelimit.Bounds.{
  history_size, SameLimits, check_at-SameLimits, evict_at-SameLimits, history_size_budget,
}
use honey_mind.Config.Validate.{validate, has_ip, ConfigError}
use honey_mind.Ratelimit.{new, RateLimiter, Decision, check_at, allowed, evict_at}
use honey_mind.Config.Address.{SocketAddr, canonical_ip}
use honey_mind.Config.Schema.{Config, EndpointConfig, ServerConfig, Protocol}
use honey_mind.Base.{
  Bool-cases, ok, ℕ, ◌+◌, ◌≤◌, ◌<◌, ◌≡◌, refl, inl, inr, Option, none, some, arith, length, ◌*◌,
  ◌∙◌, err, ◌≢◌,
}
use mathlib.Core.Path.{ap₂}
use honey_mind.Ratelimit.Bounds
use honey_mind.Server.Admission.{
  Semaphore, AppState, finish_task, reject, maintain, with_permit, decided, new_state, check_peer,
  acquire,
}

-- The shared state changes in these steps, in any order.
pub data Step {S : Type 0} (sem : Semaphore S) (a : AppState S) : AppState S → Type 0 where
  checks :
      (ep : EndpointConfig) (peer : SocketAddr) (now : ℕ) → Step sem a (check_peer a ep peer now).0
  acquires : (p : Protocol) → Step sem a (acquire sem a p).0
  finishes : 0 < a.spawned → Step sem a (finish_task sem a)
  maintains : (now : ℕ) → Step sem a (maintain a now)

pub data Reach {S : Type 0} (sem : Semaphore S) (a : AppState S) : AppState S → Type 0 where
  here : Reach sem a a
  later : {b c : AppState S} → Reach sem a b → Step sem b c → Reach sem a c

-- Every permit is free or held by a session, and the limiter is within its bounds.
pub record Inv {S : Type 0} (sem : Semaphore S) (most : ℕ) (start : RateLimiter) (a : AppState S)
    : Type 0 where
  pub shared : sem.permits a.semaphore + a.spawned ≡ most
  pub limited : Bounds.Inv a.limiter
  pub same : SameLimits start a.limiter

kept : (r s t : RateLimiter) → SameLimits r s → SameLimits s t → SameLimits r t
kept r s t h k = (k.0 ∙ h.0, k.1 ∙ h.1)

module _ {S : Type 0} (sem : Semaphore S) (most : ℕ) (start : RateLimiter) where
  with_permit-Inv :
      (a : AppState S) (p : Protocol) (o : Option S)
      → sem.try_acquire a.semaphore ≡ o
      → Inv sem most start a
      → Inv sem most start (with_permit sem a p o).0
  unfolding reject
  with_permit-Inv a p none e v = record { shared = v.shared; limited = v.limited; same = v.same }
  with_permit-Inv a p (some s) e v = record {
    shared = omega (arith, sem.acquire_some a.semaphore s e, v.shared);
    limited = v.limited;
    same = v.same;
  }

  decided-Inv :
      (a : AppState S) (p : Protocol) (d : RateLimiter × Decision)
      → Bounds.Inv d.0
      → SameLimits start d.0
      → Inv sem most start a
      → Inv sem most start (decided a p d).0
  unfolding reject
  decided-Inv a p (r, allowed) b same v = record { shared = v.shared; limited = b; same = same }
  decided-Inv a p (r, _) b same v = record { shared = v.shared; limited = b; same = same }

  check_peer-Inv :
      (a : AppState S) (ep : EndpointConfig) (peer : SocketAddr) (now : ℕ)
      → Inv sem most start a
      → Inv sem most start (check_peer a ep peer now).0
  unfolding check_peer reject
  check_peer-Inv a ep peer now v =
      let ip = canonical_ip peer.ip in
      elim (Bool-cases (has_ip ip a.ignored_ips)) [
        | inl e ↦ rw e (record { shared = v.shared; limited = v.limited; same = v.same })
        | inr e ↦ rw e (
            decided-Inv a ep.protocol (check_at a.limiter ip now)
              (Bounds.check_at-Inv a.limiter ip now v.limited)
              (kept start a.limiter (check_at a.limiter ip now).0 v.same
                (check_at-SameLimits a.limiter ip now))
              v)
      ]

  -- Every step keeps the invariant.
  pub Step-Inv : {a b : AppState S} → Step sem a b → Inv sem most start a → Inv sem most start b
  unfolding finish_task maintain
  Step-Inv {a} (checks ep peer now) v = check_peer-Inv a ep peer now v
  Step-Inv {a} (acquires p) v = with_permit-Inv a p (sem.try_acquire a.semaphore) refl v
  Step-Inv {a} (finishes some_running) v = record {
    shared = omega (arith, sem.release_one a.semaphore, v.shared, some_running);
    limited = v.limited;
    same = v.same;
  }
  Step-Inv {a} (maintains now) v = record {
    shared = v.shared;
    limited = Bounds.evict_at-Inv a.limiter now v.limited;
    same = kept start a.limiter (evict_at a.limiter now) v.same (evict_at-SameLimits a.limiter now);
  }

  pub Reach-Inv : {a b : AppState S} → Reach sem a b → Inv sem most start a → Inv sem most start b
  Reach-Inv here v = v
  Reach-Inv (later r st) v = Step-Inv st (Reach-Inv r v)

-- A server starts with no session, a new limiter and all its permits.
pub record Fresh {S : Type 0} (sem : Semaphore S) (cfg : ServerConfig) (a : AppState S)
    : Type 0 where
  pub idle : a.spawned ≡ 0
  pub permits : sem.permits a.semaphore ≡ cfg.max_concurrent_sessions
  pub limiter : a.limiter ≡ new cfg.rate_limit_per_ip_per_min cfg.max_tracked_ips

pub Fresh-Inv :
    {S : Type 0} (sem : Semaphore S) (cfg : ServerConfig) (a : AppState S)
    → Fresh sem cfg a
    → Inv sem cfg.max_concurrent_sessions (new cfg.rate_limit_per_ip_per_min cfg.max_tracked_ips) a
Fresh-Inv sem cfg a f = record {
  shared = omega (arith, f.idle, f.permits);
  limited = rw f.limiter (Bounds.new-Inv cfg.rate_limit_per_ip_per_min cfg.max_tracked_ips);
  same = rw f.limiter (refl, refl);
}

-- What `AppState::new` makes is such a start, of a configuration that is accepted.
pub new_state-Fresh :
    {S : Type 0} (sem : Semaphore S) (cfg : Config) (m : Metrics) (a : AppState S)
    → new_state sem cfg m ≡ ok a
    → (validate cfg ≡ ok tt) × Fresh sem cfg.server a
unfolding new_state
new_state-Fresh sem cfg m a h = (
  ground arith,
  record {
    idle = ground arith;
    permits = ground (arith, sem.create_permits cfg.server.max_concurrent_sessions);
    limiter = ground arith;
  },
)

pub new_state-validate :
    {S : Type 0} (sem : Semaphore S) (cfg : Config) (m : Metrics) (e : ConfigError)
    → validate cfg ≡ ok tt
    → new_state sem cfg m ≢ err e
unfolding new_state
new_state-validate sem cfg m e v h = ground (arith, v, h)

new-limits :
    (limit max_ips : ℕ)
    → ((new limit max_ips).limit ≡ limit) × ((new limit max_ips).max_ips ≡ max_ips)
unfolding new
new-limits limit max_ips = (refl, refl)

-- With a configuration that `validate` accepts, no sequence of checks of connections from any addresses at any
-- times, of attempts to get a permit, of ends of sessions and of maintenance leads to more concurrent sessions than configured,
-- to more tracked addresses than configured, or to more than 1,000,000 instants in the limiter.
pub Reach-bounds :
    {S : Type 0} (sem : Semaphore S) (cfg : Config) (a b : AppState S)
    → validate cfg ≡ ok tt
    → Fresh sem cfg.server a
    → Reach sem a b
    → (b.spawned ≤ cfg.server.max_concurrent_sessions)
      × (length b.limiter.inner ≤ cfg.server.max_tracked_ips)
      × (history_size b.limiter.inner ≤ 1000000)
Reach-bounds sem cfg a b h f r =
    let s = cfg.server in
    let v = Reach-Inv sem s.max_concurrent_sessions _ r (Fresh-Inv sem s a f) in
    let (limit, ips) = new-limits s.rate_limit_per_ip_per_min s.max_tracked_ips in
    let budget = history_size_budget b.limiter v.limited in
    let product : b.limiter.max_ips * b.limiter.limit
        ≡ s.max_tracked_ips * s.rate_limit_per_ip_per_min =
      ap₂ ◌*◌ (v.same.1 ∙ ips) (v.same.0 ∙ limit) in
    (
      omega (arith, v.shared),
      omega (arith, v.limited.tracked, v.same.1, ips),
      omega (arith, budget, product, (validate-limits cfg h).0.history),
    )
