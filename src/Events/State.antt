-- ===== src/Events/State.antt =====
-- The tables and the registry of the outbox (src/events). A payload is the stored JSON and an
-- event what a factory makes of it; the bus is the list of what was published, newest first,
-- each with the row that it came from. The queue has the ids of the jobs that wait and of those that
-- it keeps after they ended; when it drops one of them is up to BullMQ.
use collabos_backend.Base.{
  ℕ, Bool, Option, none, some, String, List, [], ◌∷◌, same_text, Action, ◌>>=◌, ◌>>◌, throw_if,
  gets, modify, ◌==◌, ◌||◌, false, unique_violation, if◌then◌else◌, is_some,
}
use collabos_backend.Prisma.{Table, has_key, create}
use collabos_backend.Schema.Money.{OutboxEventStatus}

pub record OutboxRow (Payload : Type 0) : Type 0 where
  pub aggregate_type : String
  pub aggregate_id : ℕ
  pub event_type : String
  pub payload : Payload
  pub status : OutboxEventStatus
  pub attempts : ℕ
  pub last_error : Option String
  pub created_at : ℕ
  pub published_at : Option ℕ

pub record EventsDb (Payload Event : Type 0) : Type 0 where
  pub rows : Table (OutboxRow Payload)
  pub factories : List (String × (Payload → Event))
  pub bus : List (ℕ × Event)
  pub jobs : List ℕ
  pub finished : List ℕ

abbrev pub member : ℕ → List ℕ → Bool
member id [] = false
member id (k ∷ ks) = k == id || member id ks

-- `this.factories.get(eventType)`; the newest registration of a type comes first
unfoldable pub factory_of :
    {Payload Event : Type 0} → String → List (String × (Payload → Event)) → Option (Payload → Event)
factory_of kind [] = none
factory_of kind ((k, f) ∷ fs) = if same_text k kind then some f else factory_of kind fs

-- `create` of DomainEventRegistry
unfoldable pub create_event :
    {Payload Event : Type 0} → String → Payload → List (String × (Payload → Event)) → Option Event
create_event kind payload fs = elim (factory_of kind fs) [ none ↦ none | some f ↦ some (f payload) ]

-- `has` of DomainEventRegistry
unfoldable pub has_factory :
    {Payload Event : Type 0} → String → List (String × (Payload → Event)) → Bool
has_factory kind fs = is_some (factory_of kind fs)

abbrev pub new_row : {Payload : Type 0} → String → ℕ → String → Payload → ℕ → OutboxRow Payload
new_row aggregate_type aggregate_id event_type payload now = record {
  aggregate_type = aggregate_type;
  aggregate_id = aggregate_id;
  event_type = event_type;
  payload = payload;
  status = OutboxEventStatus.pending;
  attempts = 0;
  last_error = none;
  created_at = now;
  published_at = none;
}

module _ {Payload Event : Type 0} where
  -- `register` of DomainEventRegistry
  unfoldable pub register_factory :
      String → (Payload → Event) → Action (EventsDb Payload Event) (Unit {0})
  register_factory kind f = modify (λ s. record s { factories = (kind, f) ∷ s.factories })

  -- `enqueue` of OutboxService, with the key that the database makes
  unfoldable pub enqueue_event : ℕ → OutboxRow Payload → Action (EventsDb Payload Event) (Unit {0})
  enqueue_event key row = do
    used ← gets (λ s. has_key key s.rows)
    throw_if used unique_violation
    modify (λ s. record s { rows = create key row s.rows })

  -- `eventBus.publish`
  unfoldable pub publish : ℕ → Event → Action (EventsDb Payload Event) (Unit {0})
  publish id event = modify (λ s. record s { bus = (id, event) ∷ s.bus })

  -- `scheduleDispatch`: a job of the queue with the id of the row. BullMQ's `add` does nothing when
  -- the queue has a job of that id, be it waiting or ended and kept.
  unfoldable pub schedule : ℕ → Action (EventsDb Payload Event) (Unit {0})
  schedule id =
      modify
        λ s. if member id s.jobs || member id s.finished then s else record s { jobs = id ∷ s.jobs }
