-- ===== src/Logger/Writer/Output.antt =====
-- What the outputs hold of the records that count as written.
use honey_mind.Logger.Writer.{
  Outputs, Writer, write_record, WriteError, within_deadline, after_result, advance, after_receive,
  run_all, Step, enqueue, round,
}
use honey_mind.Logger.{Channel, Logging, SendResult, after_send, log, sent, full, closed}
use honey_mind.Session.State.{SessionRecord}
use honey_mind.Base.{
  ok, ℕ, ◌≡◌, List, [], ◌∷◌, ◌++◌, Bytes, Result, err, sym, ap, ◌∙◌, Bool, true, false, Option,
  none, some, append_assoc, refl, subst, if◌then◌else◌,
}
use honey_mind.Logger.Sink.{FileSystem}
use honey_mind.Logger.Writer.Took.{
  Took, write_record-Took, Took-trans, in_deadline, lines_of, line_of, lines_of-append,
}

module _ {Q F : Type 0} (channel : Channel Q) (fs : FileSystem F)
    (to_vec : SessionRecord → Option Bytes) where
  -- What a run from `w0` to `w` has added to the records that count as written, and to the outputs.
  pub record Added (age : ℕ) (w0 w : Writer Q F) : Type 0 where
    pub new_records : List SessionRecord
    pub written : w.logging.output ≡ w0.logging.output ++ new_records
    pub took : Took channel fs to_vec age (lines_of to_vec new_records) w0.outputs w.outputs

  module _ (age : ℕ) (w0 : Writer Q F) where
    enqueued-Added :
        (w : Writer Q F) (l : Logging Q)
        → l.output ≡ w.logging.output
        → Added age w0 w
        → Added age w0 (record w { logging = l })
    enqueued-Added w l e a = record {
      new_records = a.new_records;
      written = e ∙ a.written;
      took = a.took;
    }

    after_result-Added :
        (w : Writer Q F) (l : Logging Q) (r : SessionRecord) (in_time takes : Bool)
        (result : Result (Outputs F) WriteError)
        → within_deadline channel fs to_vec in_time
            (write_record channel fs to_vec takes r w.outputs)
          ≡ result
        → l.output ≡ w.logging.output
        → Added age w0 w
        → Added age w0 (after_result channel fs to_vec w l r result)
    after_result-Added w l r in_time takes (err e) h same a = record {
      new_records = a.new_records;
      written = same ∙ a.written;
      took = a.took;
    }
    after_result-Added w l r in_time takes (ok o) h same a =
        let line =
          write_record-Took channel fs to_vec age takes r w.outputs o a.took.sink a.took.file
            a.took.kept
            (in_deadline channel fs to_vec in_time
              (write_record channel fs to_vec takes r w.outputs) o h) in
        record {
          new_records = a.new_records ++ r ∷ [];
          written =
              ap (λ t. t ++ r ∷ []) (same ∙ a.written)
              ∙ append_assoc w0.logging.output a.new_records (r ∷ []);
          took =
              subst (λ t. Took channel fs to_vec age t w0.outputs o)
                (sym (lines_of-append to_vec a.new_records r))
                (Took-trans channel fs to_vec age (lines_of to_vec a.new_records) (line_of to_vec r)
                  w0.outputs w.outputs o a.took line);
        }

    after_receive-Added :
        (takes in_time : Bool) (w : Writer Q F) (received : Option (SessionRecord × Q))
        → Added age w0 w
        → Added age w0 (after_receive channel fs to_vec takes in_time w received)
    after_receive-Added takes in_time w none a = a
    after_receive-Added takes in_time w (some (r, q)) a =
        after_result-Added w (record (w.logging) { queue = q }) r in_time takes
          (within_deadline channel fs to_vec in_time
            (write_record channel fs to_vec takes r w.outputs))
          refl refl a

    guarded-Added :
        (failed : Bool) (w w' : Writer Q F)
        → Added age w0 w
        → Added age w0 w'
        → Added age w0 (if failed then w else w')
    guarded-Added true w w' a b = a
    guarded-Added false w w' a b = b

    after_send-output :
        (l : Logging Q) (sent' : SendResult Q) → (after_send channel l sent').0.output ≡ l.output
    after_send-output l (sent q) = refl
    after_send-output l full = refl
    after_send-output l closed = refl

    advance-Added :
        (w : Writer Q F) (s : Step) → Added age w0 w → Added age w0 (advance channel fs to_vec w s)
    unfolding advance log
    advance-Added w (enqueue r) a =
        enqueued-Added w (log channel w.logging r).0
          (after_send-output w.logging (channel.try_send w.logging.queue r)) a
    advance-Added w (round takes in_time) a =
        guarded-Added w.logging.failed w
          (after_receive channel fs to_vec takes in_time w (channel.recv w.logging.queue)) a
          (after_receive-Added takes in_time w (channel.recv w.logging.queue) a)

    pub run_all-Added :
        (w : Writer Q F) (ss : List Step)
        → Added age w0 w
        → Added age w0 (run_all channel fs to_vec w ss)
    unfolding run_all
    run_all-Added w [] a = a
    run_all-Added w (s ∷ ss) a =
        run_all-Added (advance channel fs to_vec w s) ss (advance-Added w s a)
