-- ===== src/Events/Summary.antt =====
-- The counts of a replay (src/events/replay.service.ts).
use collabos_backend.Base.{
  Option-cases, inl, inr, ℕ, suc, ◌+◌, ◌-◌, ◌≤◌, ◌≡◌, refl, Option, none, some, List, [], ◌∷◌,
  arith, ok,
}
use collabos_backend.Prisma.{Table, find_many, row_count}
use collabos_backend.Schema.Money.{OutboxEventStatus}
use collabos_backend.Events.State.{OutboxRow, EventsDb, create_event, publish}
use collabos_backend.Events.Replay.{publish_again, replay, replay_rows, is_since, replay_since}

abbrev pub bus_length : {Event : Type 0} → List (ℕ × Event) → ℕ
bus_length [] = 0
bus_length (e ∷ es) = suc (bus_length es)

module _ {Payload Event : Type 0} where
  -- The rows whose type is registered.
  abbrev pub replayable : Table (OutboxRow Payload) → EventsDb Payload Event → ℕ
  replayable [] s = 0
  replayable ((id, r) ∷ t) s = elim (create_event r.event_type r.payload s.factories) [
    | none ↦ replayable t s
    | some event ↦ suc (replayable t s)
  ]

  replayable_same :
      (t : Table (OutboxRow Payload)) (s : EventsDb Payload Event) (bus : List (ℕ × Event))
      → replayable t (record s { bus = bus }) ≡ replayable t s
  replayable_same [] s bus = refl
  replayable_same ((id, r) ∷ t) s bus = ground (arith, replayable_same t s bus)

  replayable_le :
      (t : Table (OutboxRow Payload)) (s : EventsDb Payload Event) → replayable t s ≤ row_count t
  replayable_le [] s = omega arith
  replayable_le ((id, r) ∷ t) s = ground (arith, replayable_le t s)

  -- The loop publishes one event for each row whose type is registered, changes no row, and
  -- counts what it published.
  replay_rows-count :
      (t : Table (OutboxRow Payload)) (n : ℕ) (s : EventsDb Payload Event)
      → ((replay_rows t n s).0 ≡ ok (n + replayable t s))
        × ((replay_rows t n s).1.rows ≡ s.rows)
        × (bus_length (replay_rows t n s).1.bus ≡ bus_length s.bus + replayable t s)
  unfolding replay_rows replay publish_again publish
  replay_rows-count [] n s = ground arith
  replay_rows-count ((id, r) ∷ t) n s =
      elim (Option-cases (create_event r.event_type r.payload s.factories)) [
        | inl e ↦ ground (arith, e, replay_rows-count t n s)
        | inr (event, e) ↦ ground (
          arith,
          e,
          replay_rows-count t (suc n) (record s { bus = (id, event) ∷ s.bus }),
          replayable_same t s ((id, event) ∷ s.bus),
        )
      ]

  -- A replay reports how many stored events it took up, how many of them it published, one for
  -- each whose type is registered, and the rest as skipped; it changes no row, and the bus grows
  -- by what was published.
  pub replay_since-counts :
      (since : ℕ) (status : Option OutboxEventStatus) (s : EventsDb Payload Event)
      → ((replay_since since status s).0
          ≡ ok (record {
            attempted = row_count (find_many (is_since since status) s.rows);
            republished = replayable (find_many (is_since since status) s.rows) s;
            skipped =
                row_count (find_many (is_since since status) s.rows)
                - replayable (find_many (is_since since status) s.rows) s;
          }))
        × ((replay_since since status s).1.rows ≡ s.rows)
        × (bus_length (replay_since since status s).1.bus
            ≡ bus_length s.bus + replayable (find_many (is_since since status) s.rows) s)
        × (replayable (find_many (is_since since status) s.rows) s
            ≤ row_count (find_many (is_since since status) s.rows))
  unfolding replay_since
  replay_since-counts since status s =
      let counts = replay_rows-count (find_many (is_since since status) s.rows) 0 s in
      ground (arith, counts, replayable_le (find_many (is_since since status) s.rows) s)
