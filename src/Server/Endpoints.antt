-- ===== src/Server/Endpoints.antt =====
-- src/server.rs: the workers of `run_endpoint`, one for each endpoint, over the state that they share
-- with each other and with the maintenance task of `BoundServer::run`.
pub mod Refinement
pub mod Bounds
mod Tests
use honey_mind.Base.{ℕ, ◌+◌, ◌≡◌, Bool, true, false, List, [], ◌∷◌, ◌++◌, map}
use honey_mind.Config.Address.{SocketAddr}
use honey_mind.Config.Schema.{EndpointConfig}
use honey_mind.Server.Admission.{Semaphore, AppState, finish_task, maintain, acquire, check_peer}
use honey_mind.Server.Loop.{Pool, World, Move, live, new_pool, Next, admits_next, refuses}

-- An accepted connection, with the instant at which it is handled.
abbrev pub Connection : Type 0
Connection = SocketAddr × ℕ

-- The loop's arm for a connection, in two parts.
abbrev pub next_of : Bool → Next
next_of true = admits_next
next_of false = refuses

abbrev pub check :
    {S : Type 0} → EndpointConfig → Pool → AppState S → Connection → AppState S × Next
check ep p a (peer, now) = let (b, goes_on) = check_peer a ep peer now in (b, next_of goes_on)

abbrev pub admit : {S : Type 0} → Semaphore S → EndpointConfig → AppState S → AppState S × Bool
admit sem ep a = acquire sem a ep.protocol

-- The task takes its permit along when it is spawned; what `handle_session` counts is in Session.
abbrev pub begin : {S : Type 0} → AppState S → AppState S
begin a = a

abbrev pub EndpointMove :
    {S : Type 0} → Semaphore S → EndpointConfig → World (AppState S) → World (AppState S) → Type 0
EndpointMove sem ep = Move (check ep) (admit sem ep) begin (finish_task sem)

-- The token and the workers, with the state that they share.
pub record System (S : Type 0) : Type 0 where
  pub app : AppState S
  pub cancelled : Bool
  pub workers : List (EndpointConfig × Pool)

-- What one worker sees.
abbrev pub seen : {S : Type 0} → System S → Pool → World (AppState S)
seen s p = record { shared = s.app; cancelled = s.cancelled; pool = p }

-- One step of a worker or of one of its tasks, a round of the maintenance, or a cancellation.
pub data Turn {S : Type 0} (sem : Semaphore S) (s : System S) : System S → Type 0 where
  moves :
      (before after : List (EndpointConfig × Pool)) (ep : EndpointConfig) (p : Pool)
      (w : World (AppState S))
      → s.workers ≡ before ++ (ep, p) ∷ after
      → EndpointMove sem ep (seen s p) w
      → Turn sem s (record {
        app = w.shared;
        cancelled = w.cancelled;
        workers = before ++ (ep, w.pool) ∷ after;
      })
  wakes : (now : ℕ) → s.cancelled ≡ false → Turn sem s (record s { app = maintain s.app now })
  cancels : Turn sem s (record s { cancelled = true })

pub data Turns {S : Type 0} (sem : Semaphore S) (s : System S) : System S → Type 0 where
  start : Turns sem s s
  next : {t u : System S} → Turns sem s t → Turn sem t u → Turns sem s u

-- The sessions of all workers.
pub sessions : List (EndpointConfig × Pool) → ℕ
sessions [] = 0
sessions ((ep, p) ∷ ws) = live p + sessions ws

-- `run` spawns a worker for each endpoint that is bound.
abbrev pub new_workers : List EndpointConfig → List (EndpointConfig × Pool)
new_workers = map (λ ep. (ep, new_pool))

abbrev pub started : {S : Type 0} → AppState S → List EndpointConfig → System S
started a endpoints = record { app = a; cancelled = false; workers = new_workers endpoints }
