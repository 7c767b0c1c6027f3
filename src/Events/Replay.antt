-- ===== src/Events/Replay.antt =====
-- ReplayService (src/events/replay.service.ts): events published again without a change of their
-- rows.
use collabos_backend.Base.{
  ℕ, suc, ◌-◌, leb, Bool, true, false, ◌&&◌, Option, none, some, [], ◌∷◌, Action, ◌>>=◌, ◌>>◌, pure,
  gets, some_or_throw, ◌is◌, not_found, if◌then◌else◌,
}
use collabos_backend.Prisma.{Table, find_unique, find_many, row_count}
use collabos_backend.Schema.Money.{OutboxEventStatus, outbox_event_status_enum}
use collabos_backend.Events.State.{OutboxRow, EventsDb, create_event, publish}

pub record ReplaySummary : Type 0 where
  pub attempted : ℕ
  pub republished : ℕ
  pub skipped : ℕ

module _ {Payload : Type 0} where
  -- `createdAt: { gte: since }` and a status if there is one
  abbrev pub is_since : ℕ → Option OutboxEventStatus → ℕ → OutboxRow Payload → Bool
  is_since since none _ r = leb since r.created_at
  is_since since (some status) _ r = leb since r.created_at && r.status is status

module _ {Payload Event : Type 0} where
  unfoldable pub publish_again : ℕ → Option Event → Action (EventsDb Payload Event) Bool
  publish_again id none = pure false
  publish_again id (some event) = do publish id event; pure true

  -- `publish` of ReplayService
  unfoldable pub replay : ℕ → OutboxRow Payload → Action (EventsDb Payload Event) Bool
  replay id row = do
    event ← gets (λ s. create_event row.event_type row.payload s.factories)
    publish_again id event

  unfoldable pub replay_by_id : ℕ → Action (EventsDb Payload Event) Bool
  replay_by_id id = do
    found ← gets (λ s. find_unique id s.rows)
    row ← some_or_throw found (not_found "Outbox event not found")
    replay id row

  -- The loop of `replaySince`, which counts what it published
  unfoldable pub replay_rows : Table (OutboxRow Payload) → ℕ → Action (EventsDb Payload Event) ℕ
  replay_rows [] republished = pure republished
  replay_rows ((id, row) ∷ t) republished = do
    published ← replay id row
    replay_rows t (if published then suc republished else republished)

  unfoldable pub replay_since :
      ℕ → Option OutboxEventStatus → Action (EventsDb Payload Event) ReplaySummary
  replay_since since status = do
    events ← gets (λ s. find_many (is_since since status) s.rows)
    republished ← replay_rows events 0
    pure (record {
      attempted = row_count events;
      republished = republished;
      skipped = row_count events - republished;
    })
