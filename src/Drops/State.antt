-- ===== src/Drops/State.antt =====
-- The tables of DropsService and its guards (src/drops/services/drops.service.ts).
use collabos_backend.Base.{
  ℕ, not, ◌&&◌, Option, none, some, Action, ◌>>=◌, ◌>>◌, pure, throw, throw_if, gets, some_or_throw,
  modify, AuthenticatedUser, is_admin, same_user, ◌is◌, forbidden, not_found, record_not_found,
  if◌then◌else◌, Bool,
}
use collabos_backend.Prisma.{Table, find_unique, has_key, update}
use collabos_backend.Schema.Collaboration.{Brand, Deal}
use collabos_backend.Schema.Launches.{
  Drop, DropStatus, drop_status_enum, DropVisibility, drop_visibility_enum,
}

-- A job of the queue: the drop and the delay of its publication.
pub record PublishJob : Type 0 where
  pub drop_id : ℕ
  pub delay : ℕ

pub record DropsDb : Type 0 where
  pub brands : Table Brand
  pub deals : Table Deal
  pub drops : Table Drop
  -- the queue's jobs under the id `publish-drop-<drop id>`
  pub jobs : Table PublishJob

-- `findEntityOrThrow`
unfoldable pub find_drop_or_throw : ℕ → Action DropsDb Drop
find_drop_or_throw id = do
  found ← gets (λ s. find_unique id s.drops)
  some_or_throw found (not_found "Drop not found")

-- `assertBrandOwnerOrAdmin`
unfoldable pub assert_brand_owner : ℕ → AuthenticatedUser → Action DropsDb (Unit {0})
assert_brand_owner brand_id user = do
  found ← gets (λ s. find_unique brand_id s.brands)
  brand ← some_or_throw found (not_found "Brand not found")
  throw_if (not brand.is_active) (not_found "Brand not found")
  throw_if (not (same_user brand.owner_id user) && not (is_admin user))
      (forbidden "You do not have access to this brand")

abbrev pub is_publicly_visible : Drop → Bool
is_publicly_visible drop =
    drop.status is DropStatus.published && not (drop.visibility is DropVisibility.private_drop)

unfoldable pub view_as : Drop → Option AuthenticatedUser → Action DropsDb (Unit {0})
view_as drop none = throw (not_found "Drop not found")
view_as drop (some user) = assert_brand_owner drop.brand_id user

-- `assertViewable`
unfoldable pub assert_viewable : Drop → Option AuthenticatedUser → Action DropsDb (Unit {0})
assert_viewable drop user = if is_publicly_visible drop then pure tt else view_as drop user

-- `prisma.drop.update`, which gives the row back
unfoldable pub write_drop : ℕ → (Drop → Drop) → Action DropsDb Drop
write_drop id f = do
  throw_if (not (← gets (λ s. has_key id s.drops))) record_not_found
  modify (λ s. record s { drops = update id f s.drops })
  found ← gets (λ s. find_unique id s.drops)
  some_or_throw found record_not_found
