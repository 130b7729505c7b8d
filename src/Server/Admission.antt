-- ===== src/Server/Admission.antt =====
-- src/server.rs: what `run_endpoint` does with a connection that it accepts. The semaphore of tokio
-- is a parameter.
pub mod Capacity
pub mod Spawned
pub mod Tests
use honey_mind.Config.Validate.{has_ip, validate, ConfigError}
use honey_mind.Config.Schema.{Config}
use honey_mind.Config.Address.{IpAddr, SocketAddr, canonical_ip}
use honey_mind.Config.Schema.{EndpointConfig, Protocol}
use honey_mind.Metrics.{Metrics, inc_label}
use honey_mind.Base.{
  if◌then◌else◌, ℕ, ◌+◌, String, ◌≡◌, Option, none, some, List, ◌-◌, ◌>>◌, Result, ok, map, Bool,
  true, false,
}
use honey_mind.Ratelimit
use honey_mind.Ratelimit.{
  RateLimiter, Decision, allowed, rate_limit, capacity, unavailable, check_at, evict_at,
}

-- `try_acquire_owned`, and the release when a permit is dropped, with what tokio documents.
pub record Semaphore (S : Type 0) : Type 0 where
  pub create : ℕ → S
  pub permits : S → ℕ
  pub try_acquire : S → Option S
  pub release : S → S
  pub create_permits : (n : ℕ) → permits (create n) ≡ n
  pub acquire_none : (s : S) → try_acquire s ≡ none → permits s ≡ 0
  pub acquire_some : (s t : S) → try_acquire s ≡ some t → permits s ≡ permits t + 1
  pub release_one : (s : S) → permits (release s) ≡ permits s + 1

-- `Decision::reason`
abbrev pub reason : Decision → String
reason allowed = "allowed"
reason rate_limit = "rate_limit"
reason capacity = "rate_limit_capacity"
reason unavailable = "rate_limiter_unavailable"

-- The shared state; `spawned` counts the session tasks that hold a permit.
pub record AppState (S : Type 0) : Type 0 where
  pub metrics : Metrics
  pub limiter : RateLimiter
  pub semaphore : S
  pub ignored_ips : List IpAddr
  pub spawned : ℕ

module _ {S : Type 0} where
  -- `reject`, then `continue`
  pub reject : AppState S → Protocol → String → AppState S
  reject a p why = record a {
    metrics = record (a.metrics) { rejected_total = inc_label p why a.metrics.rejected_total };
  }

module _ {S : Type 0} where
  -- The `if` on a decision: `true` goes on to the permit.
  abbrev pub decided : AppState S → Protocol → RateLimiter × Decision → AppState S × Bool
  decided a p (r, allowed) = (record a { limiter = r }, true)
  decided a p (r, d) = (reject (record a { limiter = r }) p (reason d), false)

  -- The arm of an accepted connection, up to the decision of the limiter.
  unfoldable pub check_peer : AppState S → EndpointConfig → SocketAddr → ℕ → AppState S × Bool
  check_peer a ep peer now =
      let ip = canonical_ip peer.ip in
      if has_ip ip a.ignored_ips
      then (reject a ep.protocol "ignored_ip", false)
      else decided a ep.protocol (check_at a.limiter ip now)

module _ {S : Type 0} (sem : Semaphore S) where
  -- With a permit, the session is spawned.
  abbrev pub with_permit : AppState S → Protocol → Option S → AppState S × Bool
  with_permit a p none = (reject a p "max_sessions", false)
  with_permit a p (some s) = (record a { semaphore = s; spawned = a.spawned + 1 }, true)

  -- The rest of the arm. Between the two parts the other workers may act.
  abbrev pub acquire : AppState S → Protocol → AppState S × Bool
  acquire a p = with_permit a p (sem.try_acquire a.semaphore)

  -- A session task ends, and drops its permit.
  pub finish_task : AppState S → AppState S
  finish_task a = record a { semaphore = sem.release a.semaphore; spawned = a.spawned - 1 }

module _ {S : Type 0} where
  -- The task of `BoundServer::run` that wakes every second.
  pub maintain : AppState S → ℕ → AppState S
  maintain a now =
      let limiter = evict_at a.limiter now in
      record a {
        limiter = limiter;
        metrics = record (a.metrics) { tracked_ips = Ratelimit.tracked_ips limiter };
      }

-- `AppState::new`, without the configuration, the logger and the token, which it only keeps.
pub new_state : {S : Type 0} → Semaphore S → Config → Metrics → Result (AppState S) ConfigError
new_state sem cfg m =
    validate cfg
    >> ok (record {
      metrics = m;
      limiter = Ratelimit.new cfg.server.rate_limit_per_ip_per_min cfg.server.max_tracked_ips;
      semaphore = sem.create cfg.server.max_concurrent_sessions;
      ignored_ips = map canonical_ip cfg.server.ignore_source_ips;
      spawned = 0;
    })
