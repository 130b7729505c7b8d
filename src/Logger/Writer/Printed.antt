-- ===== src/Logger/Writer/Printed.antt =====
-- What the standard output has got, whether there is a sink or not.
use honey_mind.Session.State.{SessionRecord}
use honey_mind.Logger.Sink as Sink
use honey_mind.Logger.Sink.{FileSystem, FileSink, SinkError}
use honey_mind.Base.{
  ◌>>=◌, if◌then◌else◌, unwrap_or, Bytes, Result, ok, err, ◌≡◌, refl, sym, ap, ◌∙◌, Bool, true,
  false, Option, none, some, List, [], ◌∷◌, ◌++◌, append-nil, append_assoc, arith,
}
use honey_mind.Logger.Writer.{
  Writer, Outputs, Step, enqueue, round, run_all, advance, write_file, write_stdout, write_record,
  or_error, cannot_serialize, after_sink, within_deadline, after_result, after_receive, WriteError,
}
use honey_mind.Logger.Writer.Took.{
  write_stdout-ok, with_bytes, with_bytes-nil, with_bytes-append, lines_of, lines_of-append,
  line_of, in_deadline,
}
use honey_mind.Logger.{Channel, SendResult, sent, full, closed, after_send, log}

module _ {Q F : Type 0} (channel : Channel Q) (fs : FileSystem F)
    (to_vec : SessionRecord → Option Bytes) where
  write_record-stdout :
      (takes : Bool) (r : SessionRecord) (o o' : Outputs F)
      → write_record channel fs to_vec takes r o ≡ ok o'
      → o'.stdout ≡ with_bytes o.stdout (line_of to_vec r)
  write_record-stdout takes r o o' = serialised (to_vec r)
    where
      sunk :
          (line : Bytes) (x : Result (F × FileSink) SinkError)
          → (after_sink channel fs to_vec o x >>= λ o1.
              write_stdout channel fs to_vec takes line o1 o1.stdout)
            ≡ ok o'
          → o'.stdout ≡ with_bytes o.stdout line
      sunk line (ok (f, sink)) h =
          (write_stdout-ok channel fs to_vec takes line (record o { files = f; file = some sink })
            o' o.stdout refl h).0
      sunk line (err e) h = absurd (ground arith)

      filed :
          (line : Bytes) (file : Option FileSink)
          → (write_file channel fs to_vec o line file >>= λ o1.
              write_stdout channel fs to_vec takes line o1 o1.stdout)
            ≡ ok o'
          → o'.stdout ≡ with_bytes o.stdout line
      filed line none h = (write_stdout-ok channel fs to_vec takes line o o' o.stdout refl h).0
      filed line (some sink) h = sunk line (Sink.write fs sink line o.files) h

      serialised :
          (v : Option Bytes)
          → (or_error cannot_serialize v >>= λ bytes.
              write_file channel fs to_vec o (bytes ++ b'\n' ∷ []) o.file >>= λ o1.
              write_stdout channel fs to_vec takes (bytes ++ b'\n' ∷ []) o1 o1.stdout)
            ≡ ok o'
          → o'.stdout ≡ with_bytes o.stdout (unwrap_or v [] ++ b'\n' ∷ [])
      serialised none h = absurd (ground arith)
      serialised (some bytes) h = filed (bytes ++ b'\n' ∷ []) o.file h

  -- The standard output, if it is enabled, has got the lines of the records written since `w0`.
  abbrev pub Printed : Writer Q F → Writer Q F → Type 0
  Printed w0 w =
      (records : List SessionRecord) × (w.logging.output ≡ w0.logging.output ++ records)
      × (w.outputs.stdout ≡ with_bytes w0.outputs.stdout (lines_of to_vec records))

  module _ (w0 : Writer Q F) where
    after_result-Printed :
        (w : Writer Q F) (q : Q) (r : SessionRecord) (in_time takes : Bool)
        (result : Result (Outputs F) WriteError)
        → within_deadline channel fs to_vec in_time
            (write_record channel fs to_vec takes r w.outputs)
          ≡ result
        → Printed w0 w
        → Printed w0 (after_result channel fs to_vec w (record (w.logging) { queue = q }) r result)
    after_result-Printed w q r in_time takes (err e) h p = p
    after_result-Printed w q r in_time takes (ok o) h (records, written, printed) =
        let line =
          write_record-stdout takes r w.outputs o (in_deadline channel fs to_vec in_time _ o h) in
        (
          records ++ r ∷ [],
          ap (λ t. t ++ r ∷ []) written ∙ append_assoc w0.logging.output records (r ∷ []),
          line
              ∙ ap (λ t. with_bytes t (line_of to_vec r)) printed
              ∙ with_bytes-append w0.outputs.stdout (lines_of to_vec records) (line_of to_vec r)
              ∙ ap (with_bytes w0.outputs.stdout) (sym (lines_of-append to_vec records r)),
        )

    after_receive-Printed :
        (takes in_time : Bool) (w : Writer Q F) (received : Option (SessionRecord × Q))
        → Printed w0 w
        → Printed w0 (after_receive channel fs to_vec takes in_time w received)
    after_receive-Printed takes in_time w none p = p
    after_receive-Printed takes in_time w (some (r, q)) p =
        after_result-Printed w q r in_time takes _ refl p

    guarded-Printed :
        (failed : Bool) (w w' : Writer Q F)
        → Printed w0 w
        → Printed w0 w'
        → Printed w0 (if failed then w else w')
    guarded-Printed true w w' p p' = p
    guarded-Printed false w w' p p' = p'

    advance-Printed :
        (w : Writer Q F) (s : Step) → Printed w0 w → Printed w0 (advance channel fs to_vec w s)
    unfolding advance log
    advance-Printed w (enqueue r) (records, written, printed) =
        (records, sent_output (channel.try_send w.logging.queue r) ∙ written, printed)
      where
        sent_output :
            (x : SendResult Q) → (after_send channel w.logging x).0.output ≡ w.logging.output
        sent_output (sent q) = refl
        sent_output full = refl
        sent_output closed = refl
    advance-Printed w (round takes in_time) p =
        guarded-Printed w.logging.failed w
          (after_receive channel fs to_vec takes in_time w (channel.recv w.logging.queue)) p
          (after_receive-Printed takes in_time w (channel.recv w.logging.queue) p)

    pub run_all-Printed :
        (w : Writer Q F) (ss : List Step)
        → Printed w0 w
        → Printed w0 (run_all channel fs to_vec w ss)
    unfolding run_all
    run_all-Printed w [] p = p
    run_all-Printed w (s ∷ ss) p =
        run_all-Printed (advance channel fs to_vec w s) ss (advance-Printed w s p)

    pub start-Printed : Printed w0 w0
    unfolding lines_of
    start-Printed = ([], sym (append-nil w0.logging.output), with_bytes-nil w0.outputs.stdout)
