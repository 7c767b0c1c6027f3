-- ===== src/Events/Worker.antt =====
-- OutboxProcessor, OutboxPublisherService and OutboxDeadLetterListener (src/events).
use collabos_backend.Base.{
  ℕ, suc, ◌+◌, leb, Bool, not, ◌&&◌, Option, none, some, String, [], ◌∷◌, append, Action, ◌>>=◌,
  ◌>>◌, pure, throw, throw_if, gets, modify, ◌is◌, external_failure, record_not_found,
  if◌then◌else◌,
}
use collabos_backend.Prisma.{Table, find_unique, has_key, update, find_many, take_rows, row_count}
use collabos_backend.Schema.Money.{OutboxEventStatus, outbox_event_status_enum}
use collabos_backend.Events.State.{OutboxRow, EventsDb, create_event, publish, schedule}

abbrev pub poll_grace_period_ms : ℕ
poll_grace_period_ms = 10000

module _ {Payload : Type 0} where
  abbrev pub to_published : ℕ → OutboxRow Payload → OutboxRow Payload
  to_published now r = record r { status = OutboxEventStatus.published; published_at = some now }

  abbrev pub to_attempted : String → OutboxRow Payload → OutboxRow Payload
  to_attempted message r = record r { attempts = suc r.attempts; last_error = some message }

  abbrev pub unhandled : OutboxRow Payload → String
  unhandled row = append "No handler registered for event type \"" (append row.event_type "\"")

  -- `status: PENDING, createdAt: { lte: cutoff }`
  abbrev pub is_overdue : ℕ → ℕ → OutboxRow Payload → Bool
  is_overdue now _ r =
      r.status is OutboxEventStatus.pending && leb (r.created_at + poll_grace_period_ms) now

  abbrev pub to_dead : String → OutboxRow Payload → OutboxRow Payload
  to_dead reason r = record r { status = OutboxEventStatus.failed; last_error = some reason }

-- What fails in a dispatch: nothing, the bus, or the write of PUBLISHED after the publication; a
-- fault has the error's message.
pub data Fault : Type 0 where
  no_fault : Fault
  publish_fault update_fault : String → Fault

module _ {Payload Event : Type 0} where
  -- `prisma.outboxEvent.update`
  unfoldable pub update_row :
      ℕ → (OutboxRow Payload → OutboxRow Payload) → Action (EventsDb Payload Event) (Unit {0})
  update_row id f = do
    throw_if (not (← gets (λ s. has_key id s.rows))) record_not_found
    modify (λ s. record s { rows = update id f s.rows })

  -- The `catch`: the attempt is noted, and the error thrown again.
  unfoldable pub note_attempt : ℕ → String → Action (EventsDb Payload Event) (Unit {0})
  note_attempt id message = do
    update_row id (to_attempted message)
    throw (external_failure message)

  -- The body of the `try` after the event is made, and its `catch`, by what goes wrong.
  unfoldable pub publish_event : ℕ → ℕ → Event → Fault → Action (EventsDb Payload Event) (Unit {0})
  publish_event id now event no_fault = do publish id event; update_row id (to_published now)
  publish_event id now event (publish_fault message) = note_attempt id message
  publish_event id now event (update_fault message) = do publish id event; note_attempt id message

  -- The body of the `try` and its `catch`, by what the registry made of the row.
  unfoldable pub dispatch_event :
      ℕ → ℕ → Fault → OutboxRow Payload → Option Event → Action (EventsDb Payload Event) (Unit {0})
  dispatch_event id now fault row none = note_attempt id (unhandled row)
  dispatch_event id now fault row (some event) = publish_event id now event fault

  unfoldable pub dispatch_row :
      ℕ → ℕ → Fault → Option (OutboxRow Payload) → Action (EventsDb Payload Event) (Unit {0})
  dispatch_row id now fault none = pure tt
  dispatch_row id now fault (some row) =
      if row.status is OutboxEventStatus.pending
      then (do
        event ← gets (λ s. create_event row.event_type row.payload s.factories)
        dispatch_event id now fault row event)
      else pure tt

  -- The job that dispatches a row, in `process`
  unfoldable pub dispatch : ℕ → ℕ → Fault → Action (EventsDb Payload Event) (Unit {0})
  dispatch id now fault = do
    found ← gets (λ s. find_unique id s.rows)
    dispatch_row id now fault found

  unfoldable pub schedule_all :
      Table (OutboxRow Payload) → Action (EventsDb Payload Event) (Unit {0})
  schedule_all [] = pure tt
  schedule_all ((id, r) ∷ t) = do schedule id; schedule_all t

  -- `enqueuePendingBatch`
  unfoldable pub enqueue_pending_batch : ℕ → Action (EventsDb Payload Event) ℕ
  enqueue_pending_batch now = do
    pending ← gets (λ s. take_rows 100 (find_many (is_overdue now) s.rows))
    schedule_all pending
    pure (row_count pending)

  unfoldable pub dead_row :
      ℕ → String → Option (OutboxRow Payload) → Action (EventsDb Payload Event) (Unit {0})
  dead_row id reason none = pure tt
  dead_row id reason (some row) = update_row id (to_dead reason)

  -- `onFailed`, when the queue gave a job up
  unfoldable pub on_failed : ℕ → String → Action (EventsDb Payload Event) (Unit {0})
  on_failed id reason = do found ← gets (λ s. find_unique id s.rows); dead_row id reason found

-- The jobs of the queue by their names
pub data Job : Type 0 where
  poll_job other_job : Job
  dispatch_job : ℕ → Job

-- `process`
unfoldable pub process :
    {Payload Event : Type 0} → Job → ℕ → Fault → Action (EventsDb Payload Event) (Unit {0})
process poll_job now fault = do count ← enqueue_pending_batch now; pure tt
process (dispatch_job id) now fault = dispatch id now fault
process other_job now fault = pure tt
