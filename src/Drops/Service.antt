-- ===== src/Drops/Service.antt =====
-- DropsService and its queue (src/drops/services/drops.service.ts,
-- src/drops/services/drops-publish.processor.ts). The slug of a title and the draws of suffixes come
-- with the call.
use collabos_backend.Base.{
  same_text, not_found, ℕ, ◌-◌, leb, not, ◌&&◌, ◌||◌, Option, none, some, String, ◌==◌, or_else,
  Action, ◌>>=◌, ◌>>◌, pure, throw_if, gets, modify, some_or_throw, AuthenticatedUser, ◌is◌,
  bad_request, conflict, unique_violation, external_failure, if◌then◌else◌,
}
use collabos_backend.Prisma.{find_unique, find_first, has_key, create, delete}
use collabos_backend.Schema.Launches.{
  Drop, DropStatus, drop_status_enum, DropVisibility, drop_visibility_enum,
}
use collabos_backend.Drops.State.{
  DropsDb, find_drop_or_throw, assert_brand_owner, assert_viewable, write_drop,
}
use collabos_backend.Drops.Slugs.{is_taken, unique_slug}

pub record CreateDropDto : Type 0 where
  pub brand_id : ℕ
  pub deal_id : Option ℕ
  pub title : String
  pub description : Option String

-- The guard of `create` on the deal
unfoldable pub assert_deal_of_brand : ℕ → Option ℕ → Action DropsDb (Unit {0})
assert_deal_of_brand brand_id none = pure tt
assert_deal_of_brand brand_id (some deal_id) = do
  found ← gets (λ s. find_unique deal_id s.deals)
  deal ←
      some_or_throw found (bad_request "dealId must reference a deal belonging to the same brand")
  throw_if (not (deal.brand_id == brand_id))
      (bad_request "dealId must reference a deal belonging to the same brand")

abbrev pub new_drop : CreateDropDto → String → Drop
new_drop dto slug = record {
  brand_id = dto.brand_id;
  deal_id = dto.deal_id;
  title = dto.title;
  slug = slug;
  description = dto.description;
  status = DropStatus.draft;
  visibility = DropVisibility.private_drop;
  publish_at = none;
  published_at = none;
  archived_at = none;
}

-- `prisma.drop.create`, under the unique columns `id` and `slug`
unfoldable pub insert_drop : ℕ → Drop → Action DropsDb (Unit {0})
insert_drop key drop = do
  used ← gets (λ s. has_key key s.drops)
  taken ← gets (λ s. is_taken drop.slug s.drops)
  throw_if (used || taken) unique_violation
  modify (λ s. record s { drops = create key drop s.drops })

-- `create`, with the fuel, the slug of the title and the draws of the slug's loop and the new key
unfoldable pub create_drop :
    AuthenticatedUser → CreateDropDto → ℕ → String → (ℕ → String) → ℕ → Action DropsDb Drop
create_drop user dto fuel base draw key = do
  assert_brand_owner dto.brand_id user
  assert_deal_of_brand dto.brand_id dto.deal_id
  drawn ← gets (λ s. unique_slug fuel base draw s.drops)
  slug ← some_or_throw drawn (external_failure "out of fuel")
  insert_drop key (new_drop dto slug)
  pure (new_drop dto slug)

abbrev pub renamed : Option String → Option String → Drop → Drop
renamed title none d = record d { title = or_else title d.title }
renamed title (some description) d = record d {
  title = or_else title d.title;
  description = some description;
}

unfoldable pub update_drop :
    ℕ → AuthenticatedUser → Option String → Option String → Action DropsDb Drop
update_drop id user title description = do
  drop ← find_drop_or_throw id
  assert_brand_owner drop.brand_id user
  throw_if (drop.status is DropStatus.archived) (conflict "An archived drop cannot be edited")
  write_drop id (renamed title description)

-- `enqueuePublishJob`: a job that is there under the id is replaced. Subtraction that stops at 0 is
-- the source's `Math.max`.
unfoldable pub enqueue_publish_job : ℕ → ℕ → ℕ → Action DropsDb (Unit {0})
enqueue_publish_job id publish_at now = modify λ s. record s {
  jobs = create id (record { drop_id = id; delay = publish_at - now }) (delete id s.jobs);
}

abbrev pub to_scheduled : ℕ → Drop → Drop
to_scheduled publish_at d = record d { status = DropStatus.scheduled; publish_at = some publish_at }

unfoldable pub schedule_drop : ℕ → AuthenticatedUser → ℕ → ℕ → Action DropsDb Drop
schedule_drop id user publish_at now = do
  drop ← find_drop_or_throw id
  assert_brand_owner drop.brand_id user
  throw_if (not (drop.status is DropStatus.draft)) (conflict "Only draft drops can be scheduled")
  throw_if (leb publish_at now) (bad_request "publishAt must be in the future")
  updated ← write_drop id (to_scheduled publish_at)
  enqueue_publish_job id publish_at now
  pure updated

abbrev pub to_published : ℕ → Drop → Drop
to_published now d = record d { status = DropStatus.published; published_at = some now }

unfoldable pub publish_drop : ℕ → AuthenticatedUser → ℕ → Action DropsDb Drop
publish_drop id user now = do
  drop ← find_drop_or_throw id
  assert_brand_owner drop.brand_id user
  throw_if (not (drop.status is DropStatus.draft) && not (drop.status is DropStatus.scheduled))
      (conflict "Only draft or scheduled drops can be published")
  write_drop id (to_published now)

unfoldable pub publish_found : ℕ → ℕ → Option Drop → Action DropsDb (Unit {0})
publish_found id now none = pure tt
publish_found id now (some drop) =
    if drop.status is DropStatus.scheduled
    then (do published ← write_drop id (to_published now); pure tt)
    else pure tt

-- `publishScheduled`, which the worker of the queue calls
unfoldable pub publish_scheduled : ℕ → ℕ → Action DropsDb (Unit {0})
publish_scheduled id now = do found ← gets (λ s. find_unique id s.drops); publish_found id now found

abbrev pub to_archived : ℕ → Drop → Drop
to_archived now d = record d { status = DropStatus.archived; archived_at = some now }

unfoldable pub archive_drop : ℕ → AuthenticatedUser → ℕ → Action DropsDb Drop
archive_drop id user now = do
  drop ← find_drop_or_throw id
  assert_brand_owner drop.brand_id user
  throw_if (drop.status is DropStatus.archived) (conflict "This drop is already archived")
  write_drop id (to_archived now)

unfoldable pub update_visibility : ℕ → AuthenticatedUser → DropVisibility → Action DropsDb Drop
update_visibility id user visibility = do
  drop ← find_drop_or_throw id
  assert_brand_owner drop.brand_id user
  write_drop id (λ d. record d { visibility = visibility })

-- `findBySlug`
unfoldable pub find_by_slug : String → Option AuthenticatedUser → Action DropsDb Drop
find_by_slug slug user = do
  found ← gets (λ s. find_first (λ _ d. same_text d.slug slug) s.drops)
  drop ← some_or_throw found (not_found "Drop not found")
  assert_viewable drop.1 user
  pure drop.1
