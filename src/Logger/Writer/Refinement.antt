-- ===== src/Logger/Writer/Refinement.antt =====
-- The writer with its outputs refines the writer of the queue alone.
use honey_mind.Logger.Writer.{
  Writer, run_all, Step, within_deadline, write_record, advance, enqueue, round, after_receive,
  Outputs, WriteError, after_result, after_sink, write_stdout, write_file, or_error,
  cannot_serialize,
}
use honey_mind.Session.State.{SessionRecord}
use honey_mind.Base.{
  is_ok, ◌≡◌, refl, Bool, true, Option, none, some, List, [], ◌∷◌, Bytes, ap, ◌∙◌, if◌then◌else◌,
  Result, ok, err, false, ◌>>=◌, ◌&&◌, ◌++◌,
}
use honey_mind.Logger.{Channel, write_next, log, Logging, after_recv, after_write}
use honey_mind.Logger.Events.{Event, run, step, logs, writes}
use honey_mind.Logger.Sink as Sink
use honey_mind.Logger.Sink.{FileSystem, FileSink, SinkError}
use honey_mind.Session.Bounds.{Unless}
use honey_mind.Logger.Writer.Printed.{Printed, run_all-Printed, start-Printed}

unless_intro : {A : Type 0} (b : Bool) → A → Unless b A
unless_intro true a = tt
unless_intro false a = a

module _ {Q F : Type 0} (channel : Channel Q) (fs : FileSystem F)
    (to_vec : SessionRecord → Option Bytes) where
  -- Whether an output takes a line: the sink by its own account, and the standard output if it is enabled.
  abbrev pub sink_takes : Bytes → F → Option FileSink → Bool
  sink_takes line f none = true
  sink_takes line f (some sink) = is_ok (Sink.write fs sink line f)

  abbrev pub stdout_takes : Bool → Option Bytes → Bool
  stdout_takes takes none = true
  stdout_takes takes (some out) = takes

  abbrev pub line_taken : Bool → Outputs F → Option Bytes → Bool
  line_taken takes o none = false
  line_taken takes o (some bytes) =
      sink_takes (bytes ++ b'\n' ∷ []) o.files o.file && stdout_takes takes o.stdout

  -- Whether the round writes its record, for a round that has one: it is in time, the record can be
  -- serialised, and both outputs take its line.
  abbrev pub fate : Bool → Bool → Writer Q F → Option (SessionRecord × Q) → Bool
  fate takes in_time w none = true
  fate takes in_time w (some (r, q)) = in_time && line_taken takes w.outputs (to_vec r)

  stdout_is_ok :
      (takes : Bool) (line : Bytes) (o : Outputs F) (out : Option Bytes)
      → is_ok (write_stdout channel fs to_vec takes line o out) ≡ stdout_takes takes out
  stdout_is_ok takes line o none = refl
  stdout_is_ok true line o (some out) = refl
  stdout_is_ok false line o (some out) = refl

  write_record-is_ok :
      (takes : Bool) (r : SessionRecord) (o : Outputs F)
      → is_ok (write_record channel fs to_vec takes r o) ≡ line_taken takes o (to_vec r)
  write_record-is_ok takes r o = serialised (to_vec r)
    where
      sunk :
          (line : Bytes) (x : Result (F × FileSink) SinkError)
          → is_ok (
              after_sink channel fs to_vec o x >>= λ o1.
              write_stdout channel fs to_vec takes line o1 o1.stdout)
            ≡ (is_ok x && stdout_takes takes o.stdout)
      sunk line (ok (f, sink)) = stdout_is_ok takes line _ o.stdout
      sunk line (err e) = refl

      filed :
          (line : Bytes) (file : Option FileSink)
          → is_ok (
              write_file channel fs to_vec o line file >>= λ o1.
              write_stdout channel fs to_vec takes line o1 o1.stdout)
            ≡ (sink_takes line o.files file && stdout_takes takes o.stdout)
      filed line none = stdout_is_ok takes line o o.stdout
      filed line (some sink) = sunk line (Sink.write fs sink line o.files)

      serialised :
          (v : Option Bytes)
          → is_ok (
              or_error cannot_serialize v >>= λ bytes.
              write_file channel fs to_vec o (bytes ++ b'\n' ∷ []) o.file >>= λ o1.
              write_stdout channel fs to_vec takes (bytes ++ b'\n' ∷ []) o1 o1.stdout)
            ≡ line_taken takes o v
      serialised none = refl
      serialised (some bytes) = filed (bytes ++ b'\n' ∷ []) o.file

  deadline_is_ok :
      (takes in_time : Bool) (r : SessionRecord) (o : Outputs F)
      → is_ok (within_deadline channel fs to_vec in_time (write_record channel fs to_vec takes r o))
        ≡ (in_time && line_taken takes o (to_vec r))
  deadline_is_ok takes true r o = write_record-is_ok takes r o
  deadline_is_ok takes false r o = refl

  -- What the queue sees of a step.
  abbrev pub observed_step : Writer Q F → Step → Event
  observed_step w (enqueue r) = logs r
  observed_step w (round takes in_time) =
      writes (fate takes in_time w (channel.recv w.logging.queue))

  pub observed : Writer Q F → List Step → List Event
  observed w [] = []
  observed w (s ∷ ss) = observed_step w s ∷ observed (advance channel fs to_vec w s) ss

  after_result-refines :
      (w : Writer Q F) (l : Logging Q) (r : SessionRecord) (result : Result (Outputs F) WriteError)
      → (after_result channel fs to_vec w l r result).logging
        ≡ after_write channel l r (is_ok result)
  after_result-refines w l r (ok o) = refl
  after_result-refines w l r (err e) = refl

  after_receive-refines :
      (takes in_time : Bool) (w : Writer Q F) (received : Option (SessionRecord × Q))
      → (after_receive channel fs to_vec takes in_time w received).logging
        ≡ after_recv channel w.logging (fate takes in_time w received) received
  after_receive-refines takes in_time w none = refl
  after_receive-refines takes in_time w (some (r, q)) =
      after_result-refines w (record (w.logging) { queue = q }) r
        (within_deadline channel fs to_vec in_time
          (write_record channel fs to_vec takes r w.outputs))
      ∙ ap (after_write channel (record (w.logging) { queue = q }) r)
          (deadline_is_ok takes in_time r w.outputs)

  guarded :
      (failed : Bool) (w w' : Writer Q F) (l : Logging Q)
      → w'.logging ≡ l
      → (if failed then w else w').logging ≡ (if failed then w.logging else l)
  guarded true w w' l e = refl
  guarded false w w' l e = e

  step-refines :
      (w : Writer Q F) (s : Step)
      → (advance channel fs to_vec w s).logging ≡ step channel w.logging (observed_step w s)
  unfolding advance step log write_next
  step-refines w (enqueue r) = refl
  step-refines w (round takes in_time) =
      guarded w.logging.failed w
        (after_receive channel fs to_vec takes in_time w (channel.recv w.logging.queue))
        (after_recv channel w.logging (fate takes in_time w (channel.recv w.logging.queue))
          (channel.recv w.logging.queue))
        (after_receive-refines takes in_time w (channel.recv w.logging.queue))

  pub run_all-logging :
      (w : Writer Q F) (ss : List Step)
      → (run_all channel fs to_vec w ss).logging ≡ run channel w.logging (observed w ss)
  unfolding run_all run observed
  run_all-logging w [] = refl
  run_all-logging w (s ∷ ss) =
      run_all-logging (advance channel fs to_vec w s) ss
      ∙ ap (λ l. run channel l (observed (advance channel fs to_vec w s) ss)) (step-refines w s)

  -- Whatever the outputs do, every run of the writer with its outputs is, for the queue, the counters
  -- and the records that count as written, a run of the writer of the queue alone in which a write
  -- succeeds exactly if it is in time, the record can be serialised, the sink, if there is one, writes the
  -- line, and the standard output, if it is enabled, takes it. And unless a write has failed, the standard
  -- output has got exactly the lines of the records that the run has written, in their order.
  pub run_all-refines :
      (w : Writer Q F) (ss : List Step)
      → let w' = run_all channel fs to_vec w ss in
        (w'.logging ≡ run channel w.logging (observed w ss))
        × Unless w'.logging.failed (Printed channel fs to_vec w w')
  run_all-refines w ss =
      let w' = run_all channel fs to_vec w ss in
      (
        run_all-logging w ss,
        unless_intro w'.logging.failed
            (run_all-Printed channel fs to_vec w w ss (start-Printed channel fs to_vec w)),
      )
