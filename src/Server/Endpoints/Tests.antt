-- ===== src/Server/Endpoints/Tests.antt =====
-- A worker that takes a connection, a round of the maintenance, and a cancellation.
use honey_mind.Ratelimit
use honey_mind.Ratelimit.{check_at, get, expire, new}
use honey_mind.Config.Address.{canonical_ip}
use honey_mind.Base.{length, ℕ, ◌+◌, ◌≤◌, ◌≡◌, refl, true, false, [], ◌∷◌, arith}
use honey_mind.Config.Validate.Tests.{two_decoys}
use honey_mind.Metrics.{new_metrics}
use honey_mind.Ratelimit.Bounds.{history_size}
use honey_mind.Server.Admission.{AppState, maintain, check_peer}
use honey_mind.Server.Admission.Tests.{counting, idle_server, visitor, decoy, idle_server-new}
use honey_mind.Server.Endpoints.{
  System, Turns, started, sessions, moves, wakes, cancels, start, next, admit, begin, check,
}
use honey_mind.Server.Endpoints.Bounds.{Turns-bounds}
use honey_mind.Server.Admission.{finish_task}
use honey_mind.Server.Loop.Shutdown
use honey_mind.Server.Loop.{
  end_task, stop, finished, World, take, accepts, new_pool, after_admit, admit_taken, after_check,
  asked, listening, asks, finds_none, admits,
}

abbrev listening_world : World (AppState ℕ)
listening_world = record {
  shared = idle_server;
  cancelled = false;
  pool = record new_pool { phase = listening };
}

abbrev checked_world : World (AppState ℕ)
checked_world =
    take (check decoy) (admit counting decoy) begin (finish_task counting) listening_world
      (visitor, 100)

abbrev first_world : World (AppState ℕ)
first_world =
    admit_taken (check decoy) (admit counting decoy) begin (finish_task counting) checked_world

abbrev after_connection : System ℕ
after_connection = record {
  app = first_world.shared;
  cancelled = first_world.cancelled;
  workers = (decoy, first_world.pool) ∷ [];
}

abbrev last_system : System ℕ
last_system = record {
  app = maintain after_connection.app 200;
  cancelled = true;
  workers = after_connection.workers;
}

abbrev asked_world : World (AppState ℕ)
asked_world = record listening_world { pool = record new_pool { phase = asked } }

accepted_turns : Turns counting (started idle_server (decoy ∷ [])) (record {
  app = checked_world.shared;
  cancelled = checked_world.cancelled;
  workers = (decoy, checked_world.pool) ∷ [];
})
unfolding take after_check
accepted_turns =
    next
      (next (next start (moves [] [] decoy new_pool asked_world refl (asks refl refl)))
        (moves [] [] decoy asked_world.pool listening_world refl (finds_none refl refl)))
      (moves [] [] decoy listening_world.pool checked_world refl (accepts (visitor, 100) refl))

visitor_checked : (check_peer idle_server decoy visitor 100).1 ≡ true
unfolding check_peer canonical_ip check_at get expire new Ratelimit.admit
visitor_checked = refl

running : first_world.cancelled ≡ false
unfolding take after_check admit_taken after_admit
running = rw visitor_checked (ground arith)

last_turns : Turns counting (started idle_server (decoy ∷ [])) last_system
unfolding take after_check admit_taken after_admit
last_turns =
    next
      (next
        (next accepted_turns (
          moves [] [] decoy checked_world.pool first_world refl (admits (rw visitor_checked refl))))
        (wakes 200 running))
      cancels

Turns-bounds_example :
    (last_system.app.semaphore + sessions last_system.workers ≡ 256)
    × (sessions last_system.workers ≤ 256)
    × (length last_system.app.limiter.inner ≤ 4096)
    × (history_size last_system.app.limiter.inner ≤ 1000000)
Turns-bounds_example =
    Turns-bounds counting two_decoys new_metrics idle_server (decoy ∷ []) last_system
      idle_server-new last_turns

-- A worker that is cancelled while a session runs, which then ends.
abbrev cancelled_world : World (AppState ℕ)
cancelled_world = record {
  shared = record idle_server { spawned = 1; semaphore = 255 };
  cancelled = true;
  pool = record new_pool { running = 1 };
}

abbrev EndpointSteps : World (AppState ℕ) → World (AppState ℕ) → Type 0
EndpointSteps = Shutdown.Steps (check decoy) (admit counting decoy) begin (finish_task counting)

abbrev drained_world : World (AppState ℕ)
drained_world =
    end_task (check decoy) (admit counting decoy) begin (finish_task counting)
      (stop cancelled_world) finished
