-- ===== src/Events/Examples.antt =====
-- A payment event that waits in the outbox. Payloads and events are amounts.
use collabos_backend.Base.{
  ℕ, suc, ◌+◌, ◌-◌, ◌≤◌, ◌≡◌, refl, none, List, [], ◌∷◌, arith, ok, same_text,
}
use collabos_backend.Prisma.{row_count, find_many}
use collabos_backend.Events.State.{OutboxRow, EventsDb, new_row, create_event, factory_of, publish}
use collabos_backend.Events.Worker.{
  Job, Fault, enqueue_pending_batch, process, dispatch, dispatch_row, dispatch_event, publish_event,
  note_attempt, update_row, schedule_all, on_failed, dead_row,
}
use collabos_backend.Events.Replay.{replay_since, is_since}
use collabos_backend.Events.Once.{
  Call, process_call, queue_call, failed_call, step, run, times_published, published_at_most_once,
}
use collabos_backend.Events.Summary.{replayable, bus_length, replay_since-counts}

abbrev row : OutboxRow ℕ
row = new_row "payment" 100 "payment.succeeded" 90 1000

abbrev start : EventsDb ℕ ℕ
start = record {
  rows = (1, row) ∷ [];
  factories = ("payment.succeeded", suc) ∷ [];
  bus = [];
  jobs = [];
  finished = [];
}

-- The first dispatch publishes and cannot write PUBLISHED; it is tried again.
abbrev calls : List (Call ℕ ℕ)
calls =
    process_call (Job.dispatch_job 1) 2000 (Fault.update_fault "connection lost")
    ∷ process_call (Job.dispatch_job 1) 2100 Fault.no_fault
    ∷ queue_call [] (1 ∷ [])
    ∷ process_call Job.poll_job 20000 Fault.no_fault
    ∷ process_call (Job.dispatch_job 1) 20100 Fault.no_fault
    ∷ failed_call 1 "stalled"
    ∷ []

published_twice : times_published 1 (run calls start).bus ≡ 2
unfolding run step process dispatch dispatch_row dispatch_event publish_event note_attempt
    update_row publish create_event factory_of same_text enqueue_pending_batch schedule_all
    on_failed dead_row
published_twice = refl

published_at_most_once_example : times_published 1 (run calls start).bus ≤ 2
published_at_most_once_example = published_at_most_once 1 calls start (omega arith)

replay_since-counts_example :
    ((replay_since 500 none start).0
      ≡ ok (record {
        attempted = row_count (find_many (is_since 500 none) start.rows);
        republished = replayable (find_many (is_since 500 none) start.rows) start;
        skipped =
            row_count (find_many (is_since 500 none) start.rows)
            - replayable (find_many (is_since 500 none) start.rows) start;
      }))
    × ((replay_since 500 none start).1.rows ≡ start.rows)
    × (bus_length (replay_since 500 none start).1.bus
        ≡ bus_length start.bus + replayable (find_many (is_since 500 none) start.rows) start)
    × (replayable (find_many (is_since 500 none) start.rows) start
        ≤ row_count (find_many (is_since 500 none) start.rows))
replay_since-counts_example = replay_since-counts 500 none start
