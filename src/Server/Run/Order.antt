-- ===== src/Server/Run/Order.antt =====
-- The result of the server does not depend on the order in which its workers end.
use honey_mind.Base.{all, is_ok, Result, ◌≡◌, Bool, true, false, ◌&&◌, Option, none, some, List}
use mathlib.Core.List.{Perm}
use honey_mind.Config.Schema.{Config}
use honey_mind.Server.Workers.{Shared, ServerError}
use honey_mind.Server.Workers.Verdict.{is_fine}
use honey_mind.Server.Run.{Ends, Worker}

module _ {E : Type 0} where
  -- Every worker that is spawned ends once.
  abbrev pub EndOnce : Ends E → Option (List Worker) → Type 0
  EndOnce e none = Unit {0}
  EndOnce e (some workers) = Perm e.order workers

  -- What the server leaves and returns, by the workers that it spawned.
  abbrev pub IsServed :
      Shared → Ends E → Option (List Worker) → Shared × Result (Unit {0}) (ServerError E) → Type 0
  IsServed s e none (s', r) = is_ok r ≡ false
  IsServed s e (some workers) (s', r) =
      (s'.cancelled ≡ true)
      × (s'.metrics.ready ≡ 0)
      × (is_ok r ≡ (e.token_first && all (λ w. is_fine (e.end_of w)) workers))
