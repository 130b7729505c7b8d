-- ===== src/Supervision/Flushed.antt =====
-- The shutdown and the log queue together: the end of `run_writer` of src/logger.rs is that of the
-- task of the log.
use honey_mind.Session.Bounds.{Unless}
use honey_mind.Session.State.{SessionRecord}
use honey_mind.Logger.Events.{Event, run, accepted}
use honey_mind.Supervision.{
  Process, Ending, run_until, signalled, spawned, server_ended, logger_ended,
}
use honey_mind.Logger.Account.{Spawned, run-Spawned}
use honey_mind.Supervision.Shutdown.{in_time, all_well, at_logger, run_until_lem}
use honey_mind.Server.Workers.{TaskEnd, completed, Shared}
use honey_mind.Logger.{Channel, Logging}
use honey_mind.Base.{
  ℕ, ◌≡◌, true, List, ◌==◌, if◌then◌else◌, length, ok, err, Bool, false, not, ◌&&◌, Option, none,
  some, [], arith, is_ok, refl, ◌∷◌, sym, ◌∙◌, ap, subst, ◌++◌, append-nil,
}

length_zero {ℓ} : {A : Type ℓ} (xs : List A) → length xs ≡ 0 → xs ≡ []
length_zero [] h = refl
length_zero (x ∷ xs) h = absurd (omega (arith, h))

module _ {Q : Type 0} (channel : Channel Q) where
  drained :
      (s : Logging Q) (records : List SessionRecord)
      → s.failed ≡ false
      → channel.content s.queue ≡ []
      → Unless s.failed (s.output ++ channel.content s.queue ≡ records)
      → s.output ≡ records
  drained s records fails empty u =
      sym (append-nil s.output)
      ∙ ap (λ q. s.output ++ q) (sym empty)
      ∙ subst (λ b. Unless b (s.output ++ channel.content s.queue ≡ records)) fails u

module _ {Q E : Type 0} (channel : Channel Q) where
  -- What `run_writer` returns, if it has returned: the error of a write, or no error once there is
  -- neither a record nor a sender left. `has_senders` tells of the senders.
  unfoldable pub writer_end : E → Bool → Logging Q → Option (TaskEnd E)
  writer_end write_failed has_senders s =
      if s.failed
      then some (completed (err write_failed))
      else if not has_senders && length (channel.content s.queue) == 0
      then some (completed (ok tt))
      else none

  writer_end-in_time :
      (write_failed : E) (has_senders : Bool) (s : Logging Q)
      → in_time (writer_end write_failed has_senders s) ≡ true
      → (s.failed ≡ false) × (channel.content s.queue ≡ [])
  unfolding writer_end
  writer_end-in_time x b s h = (ground arith, length_zero (channel.content s.queue) (ground arith))

  module _ (buffer_size : ℕ) (s : Logging Q) (f : Spawned channel buffer_size s) (write_failed : E)
      (server_ends : Process → Option (TaskEnd E)) (history : Process → List Event)
      (has_senders : Process → Bool) where
    abbrev pub logger_ends : Process → Option (TaskEnd E)
    logger_ends p = writer_end write_failed (has_senders p) (run channel s (history p))

    all_well-in_time :
        (event : Ending E) (p : Process)
        → all_well server_ends logger_ends event p ≡ true
        → in_time (logger_ends (at_logger server_ends logger_ends event p)) ≡ true
    all_well-in_time (signalled result) p h = ground arith
    all_well-in_time (server_ended end') p h = ground arith
    all_well-in_time (logger_ended end') p h = ground arith

    -- If the process exits with success, then the log queue is empty and its writer has not failed,
    -- and every record that a session could enqueue, from the start of the log to its end, was
    -- written and flushed, in the order of the calls.
    pub run_until-flushes :
        (event : Ending E) (shared : Shared)
        → is_ok (run_until server_ends logger_ends event (spawned shared)).1 ≡ true
        → let at = at_logger server_ends logger_ends event (spawned shared) in
          (run channel s (history at)).output ≡ accepted channel s (history at)
    run_until-flushes event shared h =
        let at = at_logger server_ends logger_ends event (spawned shared) in
        let over = run_until_lem server_ends logger_ends event shared in
        let end' =
          writer_end-in_time write_failed (has_senders at) (run channel s (history at))
            (all_well-in_time event (spawned shared) (sym over.1.2 ∙ h)) in
        drained channel (run channel s (history at)) (accepted channel s (history at)) end'.0 end'.1
          (run-Spawned channel buffer_size s (history at) f).2
