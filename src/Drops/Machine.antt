-- ===== src/Drops/Machine.antt =====
-- The life of a drop as a state machine (src/drops/services/drops.service.ts).
use collabos_backend.Base.{◌≡◌, Bool, true, false, ◌||◌, ◌is◌, arith}
use collabos_backend.Schema.Launches.{DropStatus, drop_status_enum}

-- The moves that a drop may make.
pub data Move : DropStatus → DropStatus → Type 0 where
  scheduling : Move DropStatus.draft DropStatus.scheduled
  publishing : Move DropStatus.draft DropStatus.published
  releasing : Move DropStatus.scheduled DropStatus.published
  dropping : Move DropStatus.draft DropStatus.archived
  cancelling : Move DropStatus.scheduled DropStatus.archived
  retiring : Move DropStatus.published DropStatus.archived

-- Any number of moves.
pub data Course : DropStatus → DropStatus → Type 0 where
  here : (a : DropStatus) → Course a a
  further : (a b c : DropStatus) → Move a b → Course b c → Course a c

-- The same, as a test.
abbrev pub can_become : DropStatus → DropStatus → Bool
can_become DropStatus.draft _ = true
can_become DropStatus.scheduled DropStatus.draft = false
can_become DropStatus.scheduled _ = true
can_become DropStatus.published DropStatus.published = true
can_become DropStatus.published DropStatus.archived = true
can_become DropStatus.published _ = false
can_become DropStatus.archived DropStatus.archived = true
can_become DropStatus.archived _ = false

pub can_become-Course : (a b : DropStatus) → can_become a b ≡ true → Course a b
can_become-Course DropStatus.draft DropStatus.draft h = here DropStatus.draft
can_become-Course DropStatus.draft DropStatus.scheduled h =
    further _ _ _ scheduling (here DropStatus.scheduled)
can_become-Course DropStatus.draft DropStatus.published h =
    further _ _ _ publishing (here DropStatus.published)
can_become-Course DropStatus.draft DropStatus.archived h =
    further _ _ _ dropping (here DropStatus.archived)
can_become-Course DropStatus.scheduled DropStatus.draft h = absurd (ground (arith, h))
can_become-Course DropStatus.scheduled DropStatus.scheduled h = here DropStatus.scheduled
can_become-Course DropStatus.scheduled DropStatus.published h =
    further _ _ _ releasing (here DropStatus.published)
can_become-Course DropStatus.scheduled DropStatus.archived h =
    further _ _ _ cancelling (here DropStatus.archived)
can_become-Course DropStatus.published DropStatus.draft h = absurd (ground (arith, h))
can_become-Course DropStatus.published DropStatus.scheduled h = absurd (ground (arith, h))
can_become-Course DropStatus.published DropStatus.published h = here DropStatus.published
can_become-Course DropStatus.published DropStatus.archived h =
    further _ _ _ retiring (here DropStatus.archived)
can_become-Course DropStatus.archived DropStatus.draft h = absurd (ground (arith, h))
can_become-Course DropStatus.archived DropStatus.scheduled h = absurd (ground (arith, h))
can_become-Course DropStatus.archived DropStatus.published h = absurd (ground (arith, h))
can_become-Course DropStatus.archived DropStatus.archived h = here DropStatus.archived

pub can_become_refl : (a : DropStatus) → can_become a a ≡ true
can_become_refl a = ground arith

pub archived_last : (a : DropStatus) → can_become a DropStatus.archived ≡ true
archived_last a = ground arith

pub scheduled_next :
    (start a : DropStatus)
    → can_become start a ≡ true
    → a is DropStatus.draft ≡ true
    → can_become start DropStatus.scheduled ≡ true
scheduled_next start a h now = ground (arith, h, now)

pub published_next :
    (start a : DropStatus)
    → can_become start a ≡ true
    → (a is DropStatus.draft || a is DropStatus.scheduled) ≡ true
    → can_become start DropStatus.published ≡ true
published_next start a h now = ground (arith, h, now)
