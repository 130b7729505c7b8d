-- ===== src/Logger/Writer/Lines.antt =====
-- The log on disk against the calls of `log`.
use honey_mind.Session.Bounds.{Unless}
use honey_mind.Session.State.{SessionRecord}
use honey_mind.Base.{
  ◌≡◌, ℕ, List, Option, some, suc, ◌++◌, Bytes, sym, ap, subst, ◌∙◌, Bool, [], append-nil, true,
  false,
}
use honey_mind.Logger.{Channel}
use honey_mind.Logger.Account.{Spawned, run-Spawned}
use honey_mind.Logger.Events.{accepted}
use honey_mind.Logger.Sink.{FileSystem, FileSink}
use honey_mind.Logger.Sink.Trail.{Extends, Extends-refl}
use honey_mind.Logger.Writer.{Writer, Step, run_all}
use honey_mind.Logger.Writer.Output.{run_all-Added, Added}
use honey_mind.Logger.Writer.Took.{lines_of, with_bytes, with_bytes-nil}
use honey_mind.Logger.Writer.Refinement.{observed, run_all-logging}

unless_both : {A : Type 0} (B : Type 0) (b : Bool) → A → Unless b B → Unless b (A × B)
unless_both B true a u = tt
unless_both B false a u = (a, u)

module _ {Q F : Type 0} (channel : Channel Q) (fs : FileSystem F)
    (to_vec : SessionRecord → Option Bytes) (buffer_size age : ℕ) (w0 : Writer Q F)
    (sink : FileSink) (f : Spawned channel buffer_size w0.logging)
    (file : w0.outputs.file ≡ some sink) (many : sink.max_files ≡ suc age) where
  start-Added : Added channel fs to_vec age w0 w0
  unfolding lines_of
  start-Added = record {
    new_records = [];
    written = sym (append-nil w0.logging.output);
    took = record {
      sink = sink;
      file = file;
      kept = many;
      stdout = with_bytes-nil w0.outputs.stdout;
      files = Extends-refl fs (suc age) w0.outputs.files;
    };
  }

  -- The outputs hold the lines of these records, in their order.
  abbrev pub HoldsLines : Writer Q F → List SessionRecord → Type 0
  HoldsLines w records =
      (w.outputs.stdout ≡ with_bytes w0.outputs.stdout (lines_of to_vec records))
      × Extends fs (suc age) (lines_of to_vec records) w0.outputs.files w.outputs.files

  -- From a log that has just been spawned on a sink that keeps a rotated log, and for every order of the
  -- calls of `log` and the rounds of the writer, whatever its outputs do: unless a write has failed, the
  -- standard output, if it is enabled, has got exactly the lines of the records that count as written;
  -- the logs, read from the oldest to the active one, hold what they held at first, and then these
  -- lines, less what rotations dropped in front; and the records written, followed by those that wait,
  -- are those that `log` accepted, each in the order of the calls.
  pub run_all-HoldsLines :
      (steps : List Step)
      → let w = run_all channel fs to_vec w0 steps in
        Unless w.logging.failed (
          HoldsLines w w.logging.output
          × (w.logging.output ++ channel.content w.logging.queue
              ≡ accepted channel w0.logging (observed channel fs to_vec w0 steps)))
  run_all-HoldsLines steps =
      let w = run_all channel fs to_vec w0 steps in
      let a = run_all-Added channel fs to_vec age w0 w0 steps start-Added in
      let fresh : w.logging.output ≡ a.new_records =
        a.written ∙ ap (λ t. t ++ a.new_records) f.nothing_written in
      let holds : HoldsLines w w.logging.output = rw fresh (a.took.stdout, a.took.files) in
      let seen = observed channel fs to_vec w0 steps in
      let ordered = (run-Spawned channel buffer_size w0.logging seen f).2 in
      unless_both _ w.logging.failed holds (
        subst
          (λ l.
            Unless l.failed
              (l.output ++ channel.content l.queue ≡ accepted channel w0.logging seen))
          (sym (run_all-logging channel fs to_vec w0 steps)) ordered)
