-- ===== src/Server/Management/Tests.antt =====
-- One connection where only one is allowed, and one more.
use honey_mind.Base.{◌≤◌, ◌≡◌, refl, true, arith, false, []}
use honey_mind.Metrics.{Metrics, new_metrics}
use honey_mind.Server.Loop.{
  World, take, accepts, begins, begin_task, tasks, accepting, after_check, poll_on, asks, listening,
  asked, finds_none,
}
use honey_mind.Server.Management.{
  admit, begin, leave, Serves, started, here, step, cancels, serve_bounds, none_more,
}

abbrev listening_world : World Metrics → World Metrics
listening_world w = poll_on listening (poll_on asked w)

abbrev second : World Metrics
second = take (admit 1) none_more begin leave (listening_world (started new_metrics)) tt

abbrev third : World Metrics
third = begin_task (admit 1) none_more begin leave second

abbrev fourth : World Metrics
fourth = take (admit 1) none_more begin leave (listening_world third) tt

connection :
    {w v : World Metrics}
    → Serves 1 w v
    → v.pool.phase ≡ accepting
    → v.cancelled ≡ false
    → v.pool.ended ≡ []
    → Serves 1 w (take (admit 1) none_more begin leave (listening_world v) tt)
connection s a c e = step (step (step s (asks a c)) (finds_none refl e)) (accepts tt refl)

connections : Serves 1 (started new_metrics) (record fourth { cancelled = true })
unfolding take after_check begin_task
connections =
    cancels
      (connection (step (connection here refl refl refl) (begins (omega arith))) refl refl refl)

serve_bounds_example :
    (tasks fourth.pool ≤ 1) × (fourth.shared.metrics_active_connections ≡ fourth.pool.running)
serve_bounds_example =
    serve_bounds 1 new_metrics (record fourth { cancelled = true }) refl connections
