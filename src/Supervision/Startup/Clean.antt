-- ===== src/Supervision/Startup/Clean.antt =====
-- What a start leaves behind.
use honey_mind.Server.Admission.Capacity.{Fresh, new_state-Fresh, new_state-validate}
use honey_mind.Logger.Spawn.Started.{IsSpawn, spawn-IsSpawn}
use honey_mind.Logger.Account.{Spawned}
use honey_mind.Config.Validate.{ConfigError, validate}
use honey_mind.Metrics.{new_metrics}
use honey_mind.Logger.Writer.{Writer}
use honey_mind.Server.Binding.Atomic.{IsAtomic, bind-IsAtomic, bind-validate}
use honey_mind.Server.Binding.Opened.{holds, holds_management, close_all-is_open}
use honey_mind.Config.Schema.{Config}
use honey_mind.Server.Admission.{Semaphore, AppState, new_state}
use honey_mind.Logger.Sink.Lock.{LockFile}
use honey_mind.Logger.Spawn.{NewChannel, SpawnError, spawn, Opening}
use honey_mind.Server.Binding.{Network, BoundServer, BindError, bind, close_all}
use honey_mind.Logger.Sink.{FileSystem}
use honey_mind.Logger.{Channel}
use honey_mind.Base.{
  ok, err, ◌≡◌, ℕ, if◌then◌else◌, Result, refl, Bool, true, false, ◌&&◌, ◌||◌, Option, none, some,
  arith,
}
use honey_mind.Supervision.Startup.{
  start_up, Host, Prepared, bind_next, StartError, close_bound, metrics_failed, close_management,
  logger_next, state_next,
}

module _ {N Q F S : Type 0} {channel : Channel Q} {fs : FileSystem F} (net : Network N)
    (queues : NewChannel channel) (lock : LockFile fs) (sem : Semaphore S) where
  close_bound-restores :
      (cfg : Config) (n0 n : N) (b : BoundServer) (k : ℕ)
      → IsAtomic net n0 cfg (n, ok b)
      → net.is_open (close_bound net queues lock sem n b) k ≡ net.is_open n0 k
  close_bound-restores cfg n0 n b k (served', managed, opens) =
      closed_management b.management (opens k).0 (opens k).1
    where
      closed_management :
          (m : Option ℕ)
          → net.is_open n k ≡ (holds k b.endpoints || holds_management k m || net.is_open n0 k)
          → ((holds k b.endpoints || holds_management k m) && net.is_open n0 k) ≡ false
          → net.is_open (close_management net queues lock sem (close_all net n b.endpoints) m) k
            ≡ net.is_open n0 k
      closed_management none o d = ground (arith, close_all-is_open net n b.endpoints k, o, d)
      closed_management (some l) o d = ground (
        arith,
        net.close_lem (close_all net n b.endpoints) l k,
        close_all-is_open net n b.endpoints k,
        o,
        d,
      )

  -- A failure leaves the sockets and the lock as they were; otherwise everything is in place.
  abbrev pub IsClean : Config → Host N F → Host N F × Result (Prepared Q F S) StartError → Type 0
  IsClean cfg h0 (h, err e) =
      ((k : ℕ) → net.is_open h.sockets k ≡ net.is_open h0.sockets k)
      × (lock.locked h.files ≡ lock.locked h0.files)
  IsClean cfg h0 (h, ok p) =
      (validate cfg ≡ ok tt)
      × IsAtomic net h0.sockets cfg (h.sockets, ok p.bound)
      × Spawned channel cfg.logging.buffer_size p.writer.logging
      × Fresh sem cfg.server p.state

  state_next-IsClean :
      (cfg : Config) (h0 : Host N F) (n : N) (f : F) (b : BoundServer) (w : Writer Q F)
      (r : Result (AppState S) ConfigError)
      → validate cfg ≡ ok tt
      → IsAtomic net h0.sockets cfg (n, ok b)
      → Spawned channel cfg.logging.buffer_size w.logging
      → new_state sem cfg new_metrics ≡ r
      → IsClean cfg h0 (state_next net queues lock sem n f b w r)
  state_next-IsClean cfg h0 n f b w (err e) v a s h =
      absurd (new_state-validate sem cfg new_metrics e v h)
  state_next-IsClean cfg h0 n f b w (ok st) v a s h =
      (v, a, s, (new_state-Fresh sem cfg new_metrics st h).1)

  logger_next-IsClean :
      (cfg : Config) (h0 : Host N F) (n : N) (b : BoundServer)
      (r : F × Result (Writer Q F) SpawnError)
      → validate cfg ≡ ok tt
      → IsAtomic net h0.sockets cfg (n, ok b)
      → IsSpawn queues lock cfg.logging h0.files r
      → IsClean cfg h0 (logger_next net queues lock sem cfg new_metrics n b r)
  logger_next-IsClean cfg h0 n b (f, err e) v a s =
      (λ k. close_bound-restores cfg h0.sockets n b k a, s)
  logger_next-IsClean cfg h0 n b (f, ok w) v a s =
      state_next-IsClean cfg h0 n f b w (new_state sem cfg new_metrics) v a s refl

  bind_next-IsClean :
      (cfg : Config) (opening : Opening) (h0 : Host N F) (r : N × Result BoundServer BindError)
      → bind net cfg h0.sockets ≡ r
      → IsAtomic net h0.sockets cfg r
      → IsClean cfg h0 (bind_next net queues lock sem cfg new_metrics opening h0.files r)
  bind_next-IsClean cfg opening h0 (n, err e) h a = (a, refl)
  bind_next-IsClean cfg opening h0 (n, ok b) h a =
      logger_next-IsClean cfg h0 n b (spawn queues lock cfg.logging new_metrics opening h0.files)
        (bind-validate net cfg h0.sockets n b h) a
        (spawn-IsSpawn queues lock cfg.logging new_metrics opening h0.files refl)

  started-IsClean :
      (cfg : Config) (metrics_made : Bool) (opening : Opening) (h0 : Host N F)
      → IsClean cfg h0 (
          if metrics_made
          then bind_next net queues lock sem cfg new_metrics opening h0.files
              (bind net cfg h0.sockets)
          else (h0, err metrics_failed))
  started-IsClean cfg true opening h0 =
      bind_next-IsClean cfg opening h0 (bind net cfg h0.sockets) refl
        (bind-IsAtomic net cfg h0.sockets)
  started-IsClean cfg false opening h0 = (λ k. refl, refl)

  -- A start that fails, for whatever reason and of whatever configuration, leaves exactly the sockets
  -- open that were open before, and the lock of the log held exactly if it was held before; where the time
  -- to open the log is over while the lock is pending, it does so once the task has ended that locks.
  -- One that succeeds has a configuration that `validate` accepts, a listener for each of its endpoints
  -- and one for its management exactly if that is enabled, an empty open queue of the configured size,
  -- and a state with no session, all permits and an empty limiter of the configured limits.
  pub start_up-IsClean :
      (cfg : Config) (metrics_made : Bool) (opening : Opening) (h0 : Host N F)
      → IsClean cfg h0 (start_up net queues lock sem cfg metrics_made opening h0)
  unfolding start_up
  start_up-IsClean = started-IsClean
