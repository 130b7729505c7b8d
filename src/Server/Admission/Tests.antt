-- ===== src/Server/Admission/Tests.antt =====
-- A server that accepts a connection, ends its session and does its maintenance.
use honey_mind.Base.{length, ℕ, zero, suc, ◌+◌, ◌≤◌, ◌≡◌, refl, Option, none, some, [], arith, ok}
use honey_mind.Config.Address.{v4, SocketAddr}
use honey_mind.Config.Schema.{EndpointConfig, new_endpoint, ssh}
use honey_mind.Config.Validate.Tests.{
  two_decoys, two_decoys-validate, sensor_config, sensor_config-validate, any_bind,
}
use honey_mind.Metrics.{new_metrics}
use honey_mind.Ratelimit.{new}
use honey_mind.Server.Admission.{Semaphore, AppState, maintain, new_state, acquire, check_peer}
use honey_mind.Server.Admission.Capacity.{Reach-bounds, here, later, maintains, checks, acquires}
use honey_mind.Ratelimit.Bounds.{history_size}

-- A semaphore that is the number of its permits.
abbrev pub take_one : ℕ → Option ℕ
take_one zero = none
take_one (suc n) = some n

pub take_none : (n : ℕ) → take_one n ≡ none → n ≡ 0
take_none zero e = refl
take_none (suc n) e = ground arith

pub take_some : (n t : ℕ) → take_one n ≡ some t → n ≡ t + 1
take_some zero t e = ground arith
take_some (suc n) t e = ground arith

abbrev pub counting : Semaphore ℕ
counting = record {
  create = λ n. n;
  create_permits = λ n. refl;
  permits = λ n. n;
  try_acquire = take_one;
  release = suc;
  acquire_none = take_none;
  acquire_some = take_some;
  release_one = λ n. omega arith;
}

abbrev pub visitor : SocketAddr
visitor = record { ip = v4 0x08080808; port = 4000 }

abbrev pub decoy : EndpointConfig
decoy = new_endpoint (any_bind 2222) ssh

abbrev pub idle_server : AppState ℕ
idle_server = record {
  metrics = new_metrics;
  limiter = new 30 4096;
  semaphore = 256;
  ignored_ips = [];
  spawned = 0;
}

pub idle_server-new : new_state counting two_decoys new_metrics ≡ ok idle_server
unfolding new_state
idle_server-new = rw two_decoys-validate

abbrev busy_server : AppState ℕ
busy_server = maintain (acquire counting (check_peer idle_server decoy visitor 100).0 ssh).0 200

Reach-bounds_example :
    (busy_server.spawned ≤ 256)
    × (length busy_server.limiter.inner ≤ 4096)
    × (history_size busy_server.limiter.inner ≤ 1000000)
Reach-bounds_example =
    Reach-bounds counting two_decoys idle_server busy_server two_decoys-validate
      (record { idle = refl; permits = refl; limiter = refl })
      (later (later (later here (checks decoy visitor 100)) (acquires ssh)) (maintains 200))

pub sensor_server-new : new_state counting sensor_config new_metrics ≡ ok idle_server
unfolding new_state
sensor_server-new = rw sensor_config-validate
