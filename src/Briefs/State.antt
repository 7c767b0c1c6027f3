-- ===== src/Briefs/State.antt =====
-- The tables of BriefsService and ApplicationsService, and the look-ups that they share
-- (src/briefs/services/briefs.service.ts, src/applications/services/applications.service.ts).
use collabos_backend.Base.{
  ℕ, not, ◌&&◌, Action, ◌>>=◌, ◌>>◌, pure, throw_if, gets, some_or_throw, AuthenticatedUser,
  is_admin, same_user, forbidden, not_found,
}
use collabos_backend.Prisma.{Table, find_unique}
use collabos_backend.Schema.Collaboration.{Brand, Brief, Application, Deal, Notification}

pub record BriefsDb : Type 0 where
  pub brands : Table Brand
  pub briefs : Table Brief
  pub applications : Table Application
  pub deals : Table Deal
  pub notifications : Table Notification

-- `findEntityOrThrow` of BriefsService
unfoldable pub find_brief_or_throw : ℕ → Action BriefsDb Brief
find_brief_or_throw id = do
  found ← gets (λ s. find_unique id s.briefs)
  some_or_throw found (not_found "Brief not found")

-- `assertBrandOwnerOrAdmin`
unfoldable pub assert_brand_owner_or_admin : ℕ → AuthenticatedUser → Action BriefsDb (Unit {0})
assert_brand_owner_or_admin brand_id user = do
  found ← gets (λ s. find_unique brand_id s.brands)
  brand ← some_or_throw found (not_found "Brand not found")
  throw_if (not brand.is_active) (not_found "Brand not found")
  throw_if (not (same_user brand.owner_id user) && not (is_admin user))
      (forbidden "You do not have access to this brand")

-- `BriefWithBrand`
pub record BriefWithBrand : Type 0 where
  pub brief : Brief
  pub owner_id : ℕ

-- `findBriefWithBrandOrThrow`; a foreign key keeps the brand of a brief in place
unfoldable pub find_brief_with_brand_or_throw : ℕ → Action BriefsDb BriefWithBrand
find_brief_with_brand_or_throw id = do
  found ← gets (λ s. find_unique id s.briefs)
  brief ← some_or_throw found (not_found "Brief not found")
  brand_found ← gets (λ s. find_unique brief.brand_id s.brands)
  brand ← some_or_throw brand_found (not_found "Brief not found")
  pure (record { brief = brief; owner_id = brand.owner_id })

-- `assertBriefOwnerOrAdmin`
unfoldable pub assert_brief_owner_or_admin :
    BriefWithBrand → AuthenticatedUser → Action BriefsDb (Unit {0})
assert_brief_owner_or_admin brief user =
    throw_if (not (same_user brief.owner_id user) && not (is_admin user))
      (forbidden "You do not have access to this brief")
