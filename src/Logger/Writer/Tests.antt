-- ===== src/Logger/Writer/Tests.antt =====
-- A record that is written to a sink that rotates, and one that waits.
use honey_mind.Logger.Writer.Printed.{Printed}
use honey_mind.Session.Bounds.{Unless}
use honey_mind.Logger.Sink.{write, rotate, shift, move_up, move_active, remove_oldest, open_log}
use honey_mind.Logger.{log}
use honey_mind.Logger.Events.{run}
use honey_mind.Session.State.{SessionRecord}
use honey_mind.Base.{Bytes, codes, Option, some, List, [], ◌∷◌, refl, true, ◌≡◌}
use honey_mind.Logger.Tests.{pipe, closed_session, new_log, Pipe}
use honey_mind.Logger.Sink.Tests.{Disk, disk, sink, two_logs}
use honey_mind.Logger.Writer.{Writer, Step, enqueue, round, run_all, advance}
use honey_mind.Logger.Writer.Refinement.{observed, run_all-refines}

abbrev to_json : SessionRecord → Option Bytes
to_json r = some (codes "{}")

abbrev new_writer : Writer Pipe Disk
new_writer = record {
  logging = new_log;
  outputs = record { files = two_logs; file = some sink; stdout = some [] };
}

abbrev steps : List Step
steps = enqueue closed_session ∷ round true true ∷ enqueue closed_session ∷ []

abbrev last_writer : Writer Pipe Disk
last_writer = run_all pipe disk to_json new_writer steps

run_all-refines_example :
    (last_writer.logging ≡ run pipe new_log (observed pipe disk to_json new_writer steps))
    × Unless last_writer.logging.failed (Printed pipe disk to_json new_writer last_writer)
run_all-refines_example = run_all-refines pipe disk to_json new_writer steps

-- The run does write.
last_writer_prints : last_writer.outputs.stdout ≡ some (codes "{}\n")
unfolding run_all advance log write rotate shift move_up move_active remove_oldest open_log
last_writer_prints = refl
