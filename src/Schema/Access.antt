-- ===== src/Schema/Access.antt =====
-- The ownership test that the services repeat: `brand?.ownerId === user.id`.
use collabos_backend.Base.{ℕ, Bool, false, none, some, AuthenticatedUser, same_user}
use collabos_backend.Prisma.{Table, find_unique}
use collabos_backend.Schema.Collaboration.{Brand}

abbrev pub owns_brand : ℕ → AuthenticatedUser → Table Brand → Bool
owns_brand id user brands = elim (find_unique id brands) [
  | none ↦ false
  | some b ↦ same_user b.owner_id user
]
