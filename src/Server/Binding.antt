-- ===== src/Server/Binding.antt =====
-- src/server.rs: `BoundServer::bind`. The network is a parameter; a listener is the number of its
-- socket. A listener that goes out of scope is closed.
pub mod Opened
pub mod Atomic
pub mod Tests
use honey_mind.Base.{
  ◌==◌, if◌then◌else◌, Result, ok, err, ℕ, ◌≡◌, Bool, false, not, ◌&&◌, ◌||◌, Option, none, some,
  List, [], ◌∷◌, ◌++◌,
}
use honey_mind.Config.Address.{SocketAddr}
use honey_mind.Config.Schema.{Config, EndpointConfig, Protocol}
use honey_mind.Config.Validate.{validate, ConfigError}

-- What the system documents of TCP listeners: a bound one is new, and open until it is closed.
pub record Network (N : Type 0) : Type 0 where
  pub is_open : N → ℕ → Bool
  pub bind : N → SocketAddr → Option (ℕ × N)
  pub local_addr : N → ℕ → Option SocketAddr
  pub close : N → ℕ → N
  pub bind_some :
      (n n' : N) (a : SocketAddr) (l : ℕ)
      → bind n a ≡ some (l, n')
      → (is_open n l ≡ false) × ((k : ℕ) → is_open n' k ≡ (k == l || is_open n k))
  pub close_lem : (n : N) (l k : ℕ) → is_open (close n l) k ≡ (not (k == l) && is_open n k)

pub data BindError : Type 0 where
  invalid_config : ConfigError → BindError
  cannot_bind : Protocol → SocketAddr → BindError
  no_local_address : BindError
  cannot_bind_management : SocketAddr → BindError

-- A listener with its endpoint, whose bind is the address that the listener has.
abbrev pub Bound : Type 0
Bound = List (ℕ × EndpointConfig)

pub record BoundServer : Type 0 where
  pub endpoints : Bound
  pub management : Option ℕ

module _ {N : Type 0} (net : Network N) where
  -- The drop of the listeners so far, in their order.
  pub close_all : N → Bound → N
  close_all n [] = n
  close_all n ((l, ep) ∷ bound) = close_all (net.close n l) bound

  abbrev pub Outcome : Type 0
  Outcome = N × Result BoundServer BindError

  -- `local_addr`, on a listener that is bound; `go` goes on with the endpoints so far.
  abbrev pub after_address :
      N
      → ℕ
      → EndpointConfig
      → Bound
      → (N → Bound → N × Result Bound BindError)
      → Option SocketAddr
      → N × Result Bound BindError
  after_address n l ep bound go none = (close_all (net.close n l) bound, err no_local_address)
  after_address n l ep bound go (some address) =
      go n (bound ++ (l, record ep { bind = address }) ∷ [])

  abbrev pub after_bind :
      N
      → EndpointConfig
      → Bound
      → (N → Bound → N × Result Bound BindError)
      → Option (ℕ × N)
      → N × Result Bound BindError
  after_bind n ep bound go none = (close_all n bound, err (cannot_bind ep.protocol ep.bind))
  after_bind n ep bound go (some (l, n')) = after_address n' l ep bound go (net.local_addr n' l)

  -- The loop over the endpoints; `bound` are the listeners so far.
  pub bind_loop : List EndpointConfig → N → Bound → N × Result Bound BindError
  bind_loop [] n bound = (n, ok bound)
  bind_loop (ep ∷ eps) n bound = after_bind n ep bound (bind_loop eps) (net.bind n ep.bind)

  abbrev pub after_management : N → SocketAddr → Bound → Option (ℕ × N) → Outcome
  after_management n a bound none = (close_all n bound, err (cannot_bind_management a))
  after_management n a bound (some (l, n')) =
      (n', ok (record { endpoints = bound; management = some l }))

  abbrev pub bind_management : Config → N × Result Bound BindError → Outcome
  bind_management cfg (n, err e) = (n, err e)
  bind_management cfg (n, ok bound) =
      if cfg.metrics.enabled
      then after_management n cfg.metrics.bind bound (net.bind n cfg.metrics.bind)
      else (n, ok (record { endpoints = bound; management = none }))

  abbrev pub bind_checked : Config → N → Result (Unit {0}) ConfigError → Outcome
  bind_checked cfg n (err e) = (n, err (invalid_config e))
  bind_checked cfg n (ok u) = bind_management cfg (bind_loop cfg.endpoints n [])

  pub bind : Config → N → Outcome
  bind cfg n = bind_checked cfg n (validate cfg)
