-- ===== src/Events/Delivery.antt =====
-- The safety net of the outbox: what a poll and the jobs that it enqueues achieve (src/events).
use collabos_backend.Base.{ℕ, Bool, false, ◌&&◌, ◌is◌, none, some, List, [], ◌∷◌, is_some}
use collabos_backend.Prisma.{Table, find_unique}
use collabos_backend.Schema.Money.{OutboxEventStatus, outbox_event_status_enum}
use collabos_backend.Events.State.{OutboxRow, EventsDb, create_event}
use collabos_backend.Events.Worker.{dispatch, no_fault}

abbrev pub is_published : {Payload : Type 0} → ℕ → Table (OutboxRow Payload) → Bool
is_published id t = elim (find_unique id t) [
  | none ↦ false
  | some r ↦ r.status is OutboxEventStatus.published
]

module _ {Payload Event : Type 0} where
  -- The row is pending and a module has registered its type.
  abbrev pub is_ready : ℕ → EventsDb Payload Event → Bool
  is_ready id s = elim (find_unique id s.rows) [
    | none ↦ false
    | some r ↦
        r.status is OutboxEventStatus.pending
        && is_some (create_event r.event_type r.payload s.factories)
  ]

  -- The jobs of the queue, processed one after another; a job that fails stops no other one.
  unfoldable pub drain : List ℕ → ℕ → EventsDb Payload Event → EventsDb Payload Event
  drain [] now s = s
  drain (k ∷ ks) now s = drain ks now (dispatch k now no_fault s).1
