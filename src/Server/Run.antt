-- ===== src/Server/Run.antt =====
-- src/server.rs: `BoundServer::run`, from the listeners that it is given to its result, and `run`. What
-- the workers return, and in which order they end, are arguments.
pub mod Order
pub mod Tests
use honey_mind.Base.{
  option_map, Result, err, ℕ, Bool, true, false, Option, none, some, List, [], ◌∷◌, ◌++◌, map, ok,
  if◌then◌else◌, is_some, not, ◌||◌,
}
use honey_mind.Server.Binding.{Network, BoundServer, Bound, bind, BindError, Outcome}
use honey_mind.Server.Loop.{Fault, Pool, result}
use honey_mind.Server.Workers.{
  completed, TaskEnd, ServerError, Wake, Shared, supervise_workers, shutdown_first, worker_first,
  no_management_address,
}
use honey_mind.Config.Schema.{Config, EndpointConfig, MetricsConfig}
use honey_mind.Config.Address.{SocketAddr}

-- The tasks of the server.
pub data Worker : Type 0 where
  endpoint_worker : ℕ → EndpointConfig → Worker
  management_worker : ℕ → MetricsConfig → Worker
  maintenance_worker : Worker

-- The loop over the endpoints.
unfoldable pub endpoint_workers : Bound → List Worker
endpoint_workers [] = []
endpoint_workers ((l, ep) ∷ bound) = endpoint_worker l ep ∷ endpoint_workers bound

-- `endpoint_addresses`
pub endpoint_addresses : BoundServer → List SocketAddr
endpoint_addresses b = map (λ (p : ℕ × EndpointConfig). p.1.bind) b.endpoints

-- What a worker returns whose loop ends with these tasks; the maintenance returns no error.
unfoldable pub loop_end : (Worker → Pool) → Worker → TaskEnd Fault
unfolding result
loop_end pools maintenance_worker = completed (ok tt)
loop_end pools w = completed (result (pools w).failure)

-- How the workers end: what each returns, in which order, and whether the token is cancelled first; and,
-- where the server fails before it waits for them, what those that it had spawned have made of the shared
-- state by the time they are aborted.
pub record Ends (E : Type 0) : Type 0 where
  pub aborted : Shared
  pub token_first : Bool
  pub order : List Worker
  pub end_of : Worker → TaskEnd E

module _ {E : Type 0} where
  abbrev pub wake_of : Bool → List (TaskEnd E) → Wake E
  wake_of true ends = shutdown_first
  wake_of false [] = worker_first none
  wake_of false (first ∷ ends) = worker_first (some first)

  -- What is left for the loop that joins the workers.
  abbrev pub rest_of : Bool → List (TaskEnd E) → List (TaskEnd E)
  rest_of true ends = ends
  rest_of false [] = []
  rest_of false (first ∷ ends) = ends

  abbrev pub run_workers :
      Shared → Bool → List (TaskEnd E) → Shared × Result (Unit {0}) (ServerError E)
  run_workers s first ends = supervise_workers s (wake_of first ends) (rest_of first ends)

  abbrev pub run_spawned :
      Shared → Ends E → Option (List Worker) → Shared × Result (Unit {0}) (ServerError E)
  run_spawned s e none = (e.aborted, err no_management_address)
  run_spawned s e (some workers) = run_workers s e.token_first (map e.end_of e.order)

module _ {N : Type 0} (net : Network N) where
  -- `metrics_address`; the second `none` is its error.
  pub metrics_address : N → BoundServer → Option (Option SocketAddr)
  metrics_address n b = elim (b.management) [
    | none ↦ some none
    | some l ↦ option_map some (net.local_addr n l)
  ]

-- `info` tells whether the subscriber takes events of that level: only then are the fields of `info!`
-- evaluated, the address of the management listener among them.
module _ {N : Type 0} (net : Network N) (info : Bool) where
  abbrev pub with_address : Config → ℕ → Bound → Bool → Option (List Worker)
  with_address cfg l bound asked =
      if asked
      then some
          (endpoint_workers bound ++ management_worker l cfg.metrics ∷ maintenance_worker ∷ [])
      else none

  abbrev pub with_management : N → Config → Bound → Option ℕ → Option (List Worker)
  with_management n cfg bound none = some (endpoint_workers bound ++ maintenance_worker ∷ [])
  with_management n cfg bound (some l) =
      with_address cfg l bound (not info || is_some (net.local_addr n l))

  -- The workers that are waited for; none where the address of the management is asked for in vain.
  pub spawn_workers : N → Config → BoundServer → Option (List Worker)
  unfolding endpoint_workers
  spawn_workers n cfg b = with_management n cfg b.endpoints b.management

  -- `BoundServer::run`
  unfoldable pub run_bound :
      {E : Type 0}
      → N
      → Config
      → BoundServer
      → Shared
      → Ends E
      → Shared × Result (Unit {0}) (ServerError E)
  unfolding spawn_workers
  run_bound n cfg b s e = run_spawned s e (spawn_workers n cfg b)

-- The errors of `run`.
pub data RunFailure (E : Type 0) : Type 0 where
  not_bound : BindError → RunFailure E
  not_served : ServerError E → RunFailure E

module _ {E : Type 0} where
  abbrev pub or_not_served :
      Shared × Result (Unit {0}) (ServerError E) → Shared × Result (Unit {0}) (RunFailure E)
  or_not_served (s, ok u) = (s, ok u)
  or_not_served (s, err e) = (s, err (not_served e))

  module _ {N : Type 0} (net : Network N) (info : Bool) where
    abbrev pub run_next :
        Config → Shared → Ends E → Outcome net → Shared × Result (Unit {0}) (RunFailure E)
    run_next cfg s e (n, err x) = (s, err (not_bound x))
    run_next cfg s e (n, ok b) = or_not_served (run_bound net info n cfg b s e)

    -- `run`
    pub run : N → Config → Shared → Ends E → Shared × Result (Unit {0}) (RunFailure E)
    run n cfg s e = run_next cfg s e (bind net cfg n)
