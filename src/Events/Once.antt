-- ===== src/Events/Once.antt =====
-- How often the worker of the outbox hands an event to the bus (src/events).
use collabos_backend.Base.{
  Keeps-bind, Option-cases, inl, inr, ℕ, ◌+◌, ◌≤◌, ◌==◌, ◌is◌, none, some, String, List, [], ◌∷◌,
  arith, if◌then◌else◌, Keeps, Keeps-pure, keeps_rules,
}
use collabos_backend.Prisma.{Table, find_unique, find_unique-update_self, find_unique-update_ne}
use collabos_backend.Schema.Money.{OutboxEventStatus, outbox_event_status_enum}
use collabos_backend.Events.State.{
  OutboxRow, EventsDb, create_event, new_row, enqueue_event, publish, schedule, register_factory,
}
use collabos_backend.Events.Worker.{
  Job, poll_job, other_job, dispatch_job, update_row, to_published, to_attempted, unhandled,
  dispatch_event, dispatch_row, dispatch, schedule_all, enqueue_pending_batch, to_dead, dead_row,
  on_failed, process, Fault, no_fault, publish_fault, update_fault, note_attempt, publish_event,
}

-- What happens to the outbox: a module registers an event type, a service writes a row, the
-- worker processes a job, in which a fault may occur, BullMQ changes its lists of jobs, the queue
-- gives a job up.
pub data Call (Payload Event : Type 0) : Type 0 where
  register_call : String → (Payload → Event) → Call Payload Event
  enqueue_call : ℕ → String → ℕ → String → Payload → ℕ → Call Payload Event
  process_call : Job → ℕ → Fault → Call Payload Event
  queue_call : List ℕ → List ℕ → Call Payload Event
  failed_call : ℕ → String → Call Payload Event

-- How often an event of the row stands on the bus.
abbrev pub times_published : {Event : Type 0} → ℕ → List (ℕ × Event) → ℕ
times_published id [] = 0
times_published id ((k, e) ∷ es) = (if k == id then 1 else 0) + times_published id es

-- A row that is pending, or not there yet, has not been published.
abbrev pub allowed : {Payload : Type 0} → ℕ → Table (OutboxRow Payload) → ℕ
allowed id t = elim (find_unique id t) [
  | none ↦ 0
  | some r ↦ if r.status is OutboxEventStatus.pending then 0 else 1
]

abbrev pub lost_by : ℕ → ℕ → Fault → ℕ
lost_by id k (update_fault message) = if k == id then 1 else 0
lost_by id k _ = 0

module _ {Payload Event : Type 0} where
  unfoldable pub step : Call Payload Event → EventsDb Payload Event → EventsDb Payload Event
  step (register_call kind f) s = (register_factory kind f s).1
  step (enqueue_call key kind aggregate event_type payload now) s =
      (enqueue_event key (new_row kind aggregate event_type payload now) s).1
  step (process_call job now fault) s = (process job now fault s).1
  step (queue_call jobs finished) s = record s { jobs = jobs; finished = finished }
  step (failed_call id reason) s = (on_failed id reason s).1

  unfoldable pub run : List (Call Payload Event) → EventsDb Payload Event → EventsDb Payload Event
  unfolding step
  run [] s = s
  run (c ∷ cs) s = run cs (step c s)

  -- Does the call dispatch the row and fail to write PUBLISHED? How many calls do?
  abbrev pub lost_in : ℕ → Call Payload Event → ℕ
  lost_in id (process_call (dispatch_job k) now fault) = lost_by id k fault
  lost_in id _ = 0

  abbrev pub lost_writes : ℕ → List (Call Payload Event) → ℕ
  lost_writes id [] = 0
  lost_writes id (c ∷ cs) = lost_in id c + lost_writes id cs

  -- At most `n` publications besides the one that the row's status tells of.
  abbrev pub IsWithin : ℕ → ℕ → EventsDb Payload Event → Type 0
  IsWithin id n s = times_published id s.bus ≤ allowed id s.rows + n

module _ {Payload Event : Type 0} (id n : ℕ) where
  schedule_all-Keeps :
      (t : Table (OutboxRow Payload))
      → Keeps (IsWithin {Payload = Payload} {Event = Event} id n) (schedule_all t)
  unfolding schedule_all schedule
  schedule_all-Keeps [] = Keeps-pure tt
  schedule_all-Keeps ((k, r) ∷ t) = record {
    apply = λ s h. (schedule_all-Keeps t).apply (schedule k s).1 (ground (arith, h));
  }

  poll-Keeps :
      (now : ℕ)
      → Keeps (IsWithin {Payload = Payload} {Event = Event} id n) (enqueue_pending_batch now)
  unfolding enqueue_pending_batch
  poll-Keeps now = search (keeps_rules, schedule_all-Keeps) depth 9

  -- What a dispatch adds: one publication at most where the write of PUBLISHED is lost.
  dispatch-IsWithin :
      (k now : ℕ) (fault : Fault) (s : EventsDb Payload Event)
      → IsWithin id n s
      → IsWithin id (n + lost_by id k fault) (dispatch k now fault s).1
  unfolding dispatch dispatch_row dispatch_event publish_event note_attempt update_row publish
  dispatch-IsWithin k now no_fault s h = elim (Option-cases (find_unique k s.rows)) [
    | inl e ↦ ground (arith, e, h)
    | inr (r, e) ↦ elim (Option-cases (create_event r.event_type r.payload s.factories)) [
      | inl none_made ↦ ground (
        arith,
        e,
        none_made,
        h,
        find_unique-update_self k (to_attempted (unhandled r)) s.rows r e,
        find_unique-update_ne id k (to_attempted (unhandled r)) s.rows,
      )
      | inr (event, made) ↦ ground (
        arith,
        e,
        made,
        h,
        find_unique-update_self k (to_published now) s.rows r e,
        find_unique-update_ne id k (to_published now) s.rows,
      )
    ]
  ]
  dispatch-IsWithin k now (publish_fault message) s h = elim (Option-cases (find_unique k s.rows)) [
    | inl e ↦ ground (arith, e, h)
    | inr (r, e) ↦ elim (Option-cases (create_event r.event_type r.payload s.factories)) [
      | inl none_made ↦ ground (
        arith,
        e,
        none_made,
        h,
        find_unique-update_self k (to_attempted (unhandled r)) s.rows r e,
        find_unique-update_ne id k (to_attempted (unhandled r)) s.rows,
      )
      | inr (event, made) ↦ ground (
        arith,
        e,
        made,
        h,
        find_unique-update_self k (to_attempted message) s.rows r e,
        find_unique-update_ne id k (to_attempted message) s.rows,
      )
    ]
  ]
  dispatch-IsWithin k now (update_fault message) s h = elim (Option-cases (find_unique k s.rows)) [
    | inl e ↦ ground (arith, e, h)
    | inr (r, e) ↦ elim (Option-cases (create_event r.event_type r.payload s.factories)) [
      | inl none_made ↦ ground (
        arith,
        e,
        none_made,
        h,
        find_unique-update_self k (to_attempted (unhandled r)) s.rows r e,
        find_unique-update_ne id k (to_attempted (unhandled r)) s.rows,
      )
      | inr (event, made) ↦ ground (
        arith,
        e,
        made,
        h,
        find_unique-update_self k (to_attempted message) s.rows r e,
        find_unique-update_ne id k (to_attempted message) s.rows,
      )
    ]
  ]

  failed-Keeps :
      (k : ℕ) (reason : String)
      → Keeps (IsWithin {Payload = Payload} {Event = Event} id n) (on_failed k reason)
  unfolding on_failed dead_row update_row
  failed-Keeps k reason = record {
    apply = λ s h. elim (Option-cases (find_unique k s.rows)) [
      | inl e ↦ ground (arith, e, h)
      | inr (r, e) ↦ ground (
        arith,
        e,
        h,
        find_unique-update_self k (to_dead reason) s.rows r e,
        find_unique-update_ne id k (to_dead reason) s.rows,
      )
    ];
  }

  enqueue-Keeps :
      (key aggregate now : ℕ) (kind event_type : String) (payload : Payload)
      → Keeps
          (IsWithin {Payload = Payload} {Event = Event} id n)
          (enqueue_event key (new_row kind aggregate event_type payload now))
  unfolding enqueue_event
  enqueue-Keeps key aggregate now kind event_type payload = record {
    apply = λ s h. ground (arith, h);
  }

  process_poll-Keeps :
      (now : ℕ) (fault : Fault)
      → Keeps (IsWithin {Payload = Payload} {Event = Event} id n) (process poll_job now fault)
  unfolding process
  process_poll-Keeps now fault = Keeps-bind (poll-Keeps now) (λ count. Keeps-pure tt)

  step-IsWithin :
      (c : Call Payload Event) (s : EventsDb Payload Event)
      → IsWithin id n s
      → IsWithin id (n + lost_in id c) (step c s)
  unfolding step register_factory process
  step-IsWithin (register_call kind f) s h = omega (arith, h)
  step-IsWithin (enqueue_call key kind aggregate event_type payload now) s h =
      omega (arith, (enqueue-Keeps key aggregate now kind event_type payload).apply s h)
  step-IsWithin (process_call poll_job now fault) s h =
      omega (arith, (process_poll-Keeps now fault).apply s h)
  step-IsWithin (process_call other_job now fault) s h = omega (arith, h)
  step-IsWithin (process_call (dispatch_job k) now fault) s h = dispatch-IsWithin k now fault s h
  step-IsWithin (queue_call jobs finished) s h = omega (arith, h)
  step-IsWithin (failed_call k reason) s h = omega (arith, (failed-Keeps k reason).apply s h)

run-IsWithin :
    {Payload Event : Type 0} (id n : ℕ) (cs : List (Call Payload Event))
    (s : EventsDb Payload Event)
    → IsWithin id n s
    → IsWithin id (n + lost_writes id cs) (run cs s)
unfolding run
run-IsWithin id n [] s h = omega (arith, h)
run-IsWithin id n (c ∷ cs) s h =
    omega (arith, run-IsWithin id (n + lost_in id c) cs (step c s) (step-IsWithin id n c s h))

allowed_le : {Payload : Type 0} (id : ℕ) (t : Table (OutboxRow Payload)) → allowed id t ≤ 1
allowed_le id t = elim (Option-cases (find_unique id t)) [
  | inl e ↦ ground (arith, e)
  | inr (r, e) ↦ ground (arith, e)
]

-- Over any sequence of registrations, new rows, jobs (repeated ones and polls included), changes
-- of the queue and jobs that it gives up, the worker hands the event of a row to the bus at most
-- once, and once more for each dispatch of the row whose write of PUBLISHED fails; before, it stood
-- there at most once, and not at all while the row was pending or missing.
pub published_at_most_once :
    {Payload Event : Type 0} (id : ℕ) (cs : List (Call Payload Event)) (s : EventsDb Payload Event)
    → times_published id s.bus ≤ allowed id s.rows
    → times_published id (run cs s).bus ≤ 1 + lost_writes id cs
published_at_most_once id cs s h =
    omega (arith, run-IsWithin id 0 cs s (omega (arith, h)), allowed_le id (run cs s).rows)
