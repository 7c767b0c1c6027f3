-- ===== src/Briefs/Service.antt =====
-- BriefsService (src/briefs/services/briefs.service.ts). A deadline is a time.
use collabos_backend.Base.{
  ℕ, leb, Bool, true, false, not, ◌&&◌, ◌||◌, Option, none, some, String, List, [], ◌∷◌, ◌==◌,
  is_some, or_else, Action, ◌>>=◌, ◌>>◌, pure, throw_if, gets, modify, some_or_throw,
  AuthenticatedUser, ◌is◌, bad_request, conflict, record_not_found, unique_violation,
  foreign_key_violation,
}
use collabos_backend.Prisma.{
  Table, find_unique, find_first, has_key, create, update, delete, delete_many,
}
use collabos_backend.Schema.Collaboration.{Brief, BriefStatus, brief_status_enum, Application, Deal}
use collabos_backend.Briefs.State.{BriefsDb, find_brief_or_throw, assert_brand_owner_or_admin}

pub record CreateBriefDto : Type 0 where
  pub brand_id : ℕ
  pub title : String
  pub description : String
  pub budget_min : Option ℕ
  pub budget_max : Option ℕ
  pub currency : Option String
  pub deliverables : Option (List String)
  pub application_deadline : Option ℕ
  pub location : Option String
  pub is_remote : Option Bool

pub record UpdateBriefDto : Type 0 where
  pub title : Option String
  pub description : Option String
  pub budget_min : Option ℕ
  pub budget_max : Option ℕ
  pub currency : Option String
  pub deliverables : Option (List String)
  pub application_deadline : Option ℕ
  pub location : Option String
  pub is_remote : Option Bool

-- `assertFutureDeadline`
unfoldable pub assert_future_deadline : Option ℕ → ℕ → Action BriefsDb (Unit {0})
assert_future_deadline none now = pure tt
assert_future_deadline (some deadline) now =
    throw_if (leb deadline now) (bad_request "applicationDeadline must be in the future")

abbrev pub new_brief : CreateBriefDto → Brief
new_brief dto = record {
  brand_id = dto.brand_id;
  title = dto.title;
  description = dto.description;
  budget_min = dto.budget_min;
  budget_max = dto.budget_max;
  currency = or_else dto.currency "USD";
  deliverables = or_else dto.deliverables [];
  application_deadline = dto.application_deadline;
  location = dto.location;
  is_remote = or_else dto.is_remote true;
  status = BriefStatus.open_brief;
  closed_at = none;
  archived_at = none;
}

-- `prisma.brief.create`
unfoldable pub insert_brief : ℕ → Brief → Action BriefsDb (Unit {0})
insert_brief key b = do
  used ← gets (λ s. has_key key s.briefs)
  throw_if used unique_violation
  modify (λ s. record s { briefs = create key b s.briefs })

-- `create`, with the key that the database makes
unfoldable pub create_brief : AuthenticatedUser → CreateBriefDto → ℕ → ℕ → Action BriefsDb Brief
create_brief user dto key now = do
  assert_brand_owner_or_admin dto.brand_id user
  assert_future_deadline dto.application_deadline now
  insert_brief key (new_brief dto)
  pure (new_brief dto)

-- A column that may be null keeps its value where the body leaves the field out.
abbrev pub written : {A : Type 0} → Option A → Option A → Option A
written none old = old
written (some new) old = some new

abbrev pub edited : UpdateBriefDto → Brief → Brief
edited dto b = record b {
  title = or_else dto.title b.title;
  description = or_else dto.description b.description;
  budget_min = written dto.budget_min b.budget_min;
  budget_max = written dto.budget_max b.budget_max;
  currency = or_else dto.currency b.currency;
  deliverables = or_else dto.deliverables b.deliverables;
  application_deadline = written dto.application_deadline b.application_deadline;
  location = written dto.location b.location;
  is_remote = or_else dto.is_remote b.is_remote;
}

-- `prisma.brief.update`, which gives the row back
unfoldable pub write_brief : ℕ → (Brief → Brief) → Action BriefsDb Brief
write_brief id f = do
  throw_if (not (← gets (λ s. has_key id s.briefs))) record_not_found
  modify (λ s. record s { briefs = update id f s.briefs })
  found ← gets (λ s. find_unique id s.briefs)
  some_or_throw found record_not_found

unfoldable pub update_brief : ℕ → AuthenticatedUser → UpdateBriefDto → ℕ → Action BriefsDb Brief
update_brief id user dto now = do
  existing ← find_brief_or_throw id
  assert_brand_owner_or_admin existing.brand_id user
  throw_if (not (existing.status is BriefStatus.open_brief))
      (conflict "Only open briefs can be edited")
  assert_future_deadline dto.application_deadline now
  write_brief id (edited dto)

-- Some deal refers to an application of the brief.
unfoldable pub has_deal : ℕ → Table Application → Table Deal → Bool
has_deal id [] deals = false
has_deal id ((k, a) ∷ rows) deals =
    a.brief_id == id && is_some (find_first (λ _ d. d.application_id == k) deals)
    || has_deal id rows deals

-- `prisma.brief.delete`: the applications go with the brief, a deal on one of them forbids it
unfoldable pub delete_brief : ℕ → Action BriefsDb (Unit {0})
delete_brief id = do
  throw_if (not (← gets (λ s. has_key id s.briefs))) record_not_found
  kept ← gets (λ s. has_deal id s.applications s.deals)
  throw_if kept foreign_key_violation
  modify λ s. record s {
    briefs = delete id s.briefs;
    applications = delete_many (λ _ a. a.brief_id == id) s.applications;
  }

unfoldable pub remove_brief : ℕ → AuthenticatedUser → Action BriefsDb String
remove_brief id user = do
  existing ← find_brief_or_throw id
  assert_brand_owner_or_admin existing.brand_id user
  delete_brief id
  pure "Brief deleted"

abbrev pub to_closed : ℕ → Brief → Brief
to_closed now b = record b { status = BriefStatus.closed; closed_at = some now }

unfoldable pub close_brief : ℕ → AuthenticatedUser → ℕ → Action BriefsDb Brief
close_brief id user now = do
  existing ← find_brief_or_throw id
  assert_brand_owner_or_admin existing.brand_id user
  throw_if (not (existing.status is BriefStatus.open_brief))
      (conflict "Only open briefs can be closed")
  write_brief id (to_closed now)

abbrev pub to_archived : ℕ → Brief → Brief
to_archived now b = record b { status = BriefStatus.archived; archived_at = some now }

unfoldable pub archive_brief : ℕ → AuthenticatedUser → ℕ → Action BriefsDb Brief
archive_brief id user now = do
  existing ← find_brief_or_throw id
  assert_brand_owner_or_admin existing.brand_id user
  throw_if (existing.status is BriefStatus.archived) (conflict "Brief is already archived")
  write_brief id (to_archived now)
