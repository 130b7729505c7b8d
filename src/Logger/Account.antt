-- ===== src/Logger/Account.antt =====
-- No record is lost unaccounted, and none is written out of order.
use honey_mind.Logger.Events.{Event, offered, run, accepted, accounted, waiting}
use honey_mind.Logger.Advances.{Inv, run-Advances}
use honey_mind.Session.Bounds.{Unless}
use honey_mind.Base.{
  length, ℕ, ◌+◌, ◌≡◌, Bool, false, List, [], arith, ◌≤◌, sym, ap, ◌∙◌, true, ◌++◌,
}
use honey_mind.Logger.{Channel, Logging}

module _ {Q : Type 0} (channel : Channel Q) where
  -- What `spawn` starts with: an open and empty channel, and no record counted.
  pub record Spawned (buffer_size : ℕ) (s : Logging Q) : Type 0 where
    pub running : s.failed ≡ false
    pub opened : channel.is_closed s.queue ≡ false
    pub empty : channel.content s.queue ≡ []
    pub capacity : channel.capacity s.queue ≡ buffer_size
    pub nothing_written : s.output ≡ []
    pub nothing_counted : accounted s.metrics ≡ 0

  -- However the calls of `log` and the rounds of the writer interleave, and whichever writes fail,
  -- every record that was offered is counted once: as written, as dropped because the queue was full,
  -- the channel closed or the writer failed, or it waits in the queue of a writer that has not failed.
  -- The queue never holds more than its capacity. Unless the writer has failed, the records that it
  -- has written, followed by those that wait, are those that `log` accepted, in their order.
  pub run-Spawned :
      (buffer_size : ℕ) (s : Logging Q) (es : List Event)
      → Spawned buffer_size s
      → (accounted (run channel s es).metrics + waiting channel (run channel s es) ≡ offered es)
        × (length (channel.content (run channel s es).queue) ≤ buffer_size)
        × Unless (run channel s es).failed (
            (run channel s es).output ++ channel.content (run channel s es).queue
            ≡ accepted channel s es)
  run-Spawned buffer_size s es f =
      let start : Inv channel buffer_size s = record {
        shut = f.running ∙ sym f.opened;
        fits = ground (arith, f.empty);
        same = f.capacity;
      } in
      let a = run-Advances channel buffer_size s es start in
      (
        omega (arith, a.counted, f.nothing_counted, waiting_none s f),
        a.inv.fits,
        after (run channel s es).failed a.ordered,
      )
    where
      waiting_none : (s : Logging Q) → Spawned buffer_size s → waiting channel s ≡ 0
      waiting_none s f = unfold waiting in ground (arith, f.empty)

      after :
          (b : Bool)
          → Unless b (
              (s.failed ≡ false)
              × ((run channel s es).output ++ channel.content (run channel s es).queue
                  ≡ (s.output ++ channel.content s.queue) ++ accepted channel s es))
          → Unless b (
              (run channel s es).output ++ channel.content (run channel s es).queue
              ≡ accepted channel s es)
      after true p = tt
      after false p =
          p.1
          ∙ ap (λ x. (x ++ channel.content s.queue) ++ accepted channel s es) f.nothing_written
          ∙ ap (λ y. y ++ accepted channel s es) f.empty
