-- ===== src/Server/Run/Tests.antt =====
-- A server of two endpoints, whose workers end in an order of their own.
use honey_mind.Base.{true, false, List, [], ◌∷◌, ◌++◌}
use mathlib.Core.List.Perm
use honey_mind.Server.Binding.Tests.{sensor_server}
use honey_mind.Server.Loop.{Fault, new_pool}
use honey_mind.Server.Run.{Ends, Worker, maintenance_worker, endpoint_workers, loop_end}
use honey_mind.Server.Workers.{Shared}
use honey_mind.Metrics.{new_metrics}

abbrev pub serving : Shared
serving = record { cancelled = false; metrics = record new_metrics { ready = 1 } }

abbrev pub workers : List Worker
workers = endpoint_workers sensor_server.endpoints ++ maintenance_worker ∷ []

-- The maintenance ends first.
abbrev pub good_ends : Ends Fault
good_ends = record {
  token_first = true;
  aborted = serving;
  order = maintenance_worker ∷ endpoint_workers sensor_server.endpoints;
  end_of = loop_end (λ w. new_pool);
}
