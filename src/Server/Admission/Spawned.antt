-- ===== src/Server/Admission/Spawned.antt =====
-- How the number of sessions changes.
use honey_mind.Base.{
  Bool-cases, ℕ, ◌+◌, ◌-◌, ◌≡◌, refl, inl, inr, Option, none, some, if◌then◌else◌,
}
use honey_mind.Config.Schema.{EndpointConfig, Protocol}
use honey_mind.Config.Address.{SocketAddr, canonical_ip}
use honey_mind.Config.Validate.{has_ip}
use honey_mind.Ratelimit.{
  RateLimiter, Decision, allowed, rate_limit, capacity, unavailable, check_at,
}
use honey_mind.Server.Admission.{
  Semaphore, AppState, finish_task, maintain, reject, decided, with_permit, check_peer,
}

module _ {S : Type 0} where
  pub check_peer-spawned :
      (a : AppState S) (ep : EndpointConfig) (peer : SocketAddr) (now : ℕ)
      → (check_peer a ep peer now).0.spawned ≡ a.spawned
  unfolding check_peer reject
  check_peer-spawned a ep peer now =
      let ip = canonical_ip peer.ip in
      elim (Bool-cases (has_ip ip a.ignored_ips)) [
        | inl e ↦ rw e refl
        | inr e ↦ rw e (decided_spawned (check_at a.limiter ip now))
      ]
    where
      decided_spawned :
          (d : RateLimiter × Decision) → (decided a ep.protocol d).0.spawned ≡ a.spawned
      decided_spawned (r, allowed) = refl
      decided_spawned (r, rate_limit) = refl
      decided_spawned (r, capacity) = refl
      decided_spawned (r, unavailable) = refl

module _ {S : Type 0} (sem : Semaphore S) where
  -- A task is spawned with the permit.
  pub with_permit-spawned :
      (a : AppState S) (p : Protocol) (o : Option S)
      → (with_permit sem a p o).0.spawned
        ≡ (if (with_permit sem a p o).1 then a.spawned + 1 else a.spawned)
  unfolding reject
  with_permit-spawned a p none = refl
  with_permit-spawned a p (some s) = refl

  pub finish_task-spawned : (a : AppState S) → (finish_task sem a).spawned ≡ a.spawned - 1
  unfolding finish_task
  finish_task-spawned a = refl

pub maintain-spawned :
    {S : Type 0} (a : AppState S) (now : ℕ) → (maintain a now).spawned ≡ a.spawned
unfolding maintain
maintain-spawned a now = refl
