-- ===== src/Logger/Writer.antt =====
-- src/logger.rs: the rounds of `run_writer` with its two outputs, the file sink and the standard
-- output. The serialisation of serde_json is a parameter. Whether the standard output takes a line, and
-- whether a write ends within its deadline, are arguments of a round.
pub mod Refinement
pub mod Took
pub mod Printed
pub mod Output
pub mod Lines
mod Tests
use honey_mind.Base.{
  ◌>>=◌, if◌then◌else◌, Result, ok, err, Bytes, Bool, true, Option, none, some, List, [], ◌∷◌, ◌++◌,
  false,
}
use honey_mind.Logger.{Channel, Logging, log, after_write}
use honey_mind.Logger.Sink.{FileSystem, FileSink, SinkError}
use honey_mind.Logger.Sink as Sink
use honey_mind.Session.State.{SessionRecord}

pub data WriteError : Type 0 where
  cannot_serialize stdout_failed deadline_exceeded : WriteError
  sink_failed : SinkError → WriteError

-- `file` and `stdout`, each if it is enabled, with the files and with what the standard output got.
pub record Outputs (F : Type 0) : Type 0 where
  pub files : F
  pub file : Option FileSink
  pub stdout : Option Bytes

pub record Writer (Q F : Type 0) : Type 0 where
  pub logging : Logging Q
  pub outputs : Outputs F

-- A call of `log`, or a round of the writer.
pub data Step : Type 0 where
  enqueue : SessionRecord → Step
  round : Bool → Bool → Step

abbrev pub or_error : {A E : Type 0} → E → Option A → Result A E
or_error e none = err e
or_error e (some a) = ok a

module _ {Q F : Type 0} (channel : Channel Q) (fs : FileSystem F)
    (to_vec : SessionRecord → Option Bytes) where
  abbrev pub after_sink :
      Outputs F → Result (F × FileSink) SinkError → Result (Outputs F) WriteError
  after_sink o (ok (f, sink)) = ok (record o { files = f; file = some sink })
  after_sink o (err e) = err (sink_failed e)

  -- `if let Some(sink) = &mut file { … }`
  abbrev pub write_file : Outputs F → Bytes → Option FileSink → Result (Outputs F) WriteError
  write_file o line none = ok o
  write_file o line (some sink) = after_sink o (Sink.write fs sink line o.files)

  -- `if let Some(out) = &mut stdout { … }`
  abbrev pub write_stdout : Bool → Bytes → Outputs F → Option Bytes → Result (Outputs F) WriteError
  write_stdout takes line o none = ok o
  write_stdout takes line o (some out) =
      if takes then ok (record o { stdout = some (out ++ line) }) else err stdout_failed

  -- The block `write`.
  abbrev pub write_record : Bool → SessionRecord → Outputs F → Result (Outputs F) WriteError
  write_record takes r o = or_error cannot_serialize (to_vec r) >>= λ bytes.
      let line = bytes ++ b'\n' ∷ [] in
      write_file o line o.file >>= λ o'. write_stdout takes line o' o'.stdout

  abbrev pub within_deadline : Bool → Result (Outputs F) WriteError → Result (Outputs F) WriteError
  within_deadline in_time result = if in_time then result else err deadline_exceeded

  -- What follows the write; of what a failed write leaves behind, nothing is kept.
  abbrev pub after_result :
      Writer Q F → Logging Q → SessionRecord → Result (Outputs F) WriteError → Writer Q F
  after_result w l r (ok o) = record { logging = after_write channel l r true; outputs = o }
  after_result w l r (err e) = record {
    logging = after_write channel l r false;
    outputs = w.outputs;
  }

  abbrev pub after_receive : Bool → Bool → Writer Q F → Option (SessionRecord × Q) → Writer Q F
  after_receive takes in_time w none = w
  after_receive takes in_time w (some (r, q)) =
      after_result w (record (w.logging) { queue = q }) r
        (within_deadline in_time (write_record takes r w.outputs))

  unfoldable pub advance : Writer Q F → Step → Writer Q F
  unfolding log
  advance w (enqueue r) = record w { logging = (log channel w.logging r).0 }
  advance w (round takes in_time) =
      if w.logging.failed then w else after_receive takes in_time w (channel.recv w.logging.queue)

  unfoldable pub run_all : Writer Q F → List Step → Writer Q F
  run_all w [] = w
  run_all w (s ∷ ss) = run_all (advance w s) ss
