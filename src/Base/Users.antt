-- ===== src/Base/Users.antt =====
-- The caller of a request (src/auth/interfaces/jwt-payload.interface.ts), as the guards hand it
-- to the services. Ids are uuids that the code only compares, so they are numbers.
use Prim.Native.Nat.{ℕ}
use Prim.Native.String.{String}
use mathlib.Core.Bool.{Bool, false, ◌||◌}
use mathlib.Core.List.{List, [], ◌∷◌}
use collabos_backend.Base.Tests.{◌==◌}
use collabos_backend.Base.Strings.{same_text}

pub record AuthenticatedUser : Type 0 where
  pub id : ℕ
  pub email : String
  pub is_email_verified : Bool
  pub is_active : Bool
  pub roles : List String
  pub permissions : List String

-- `roles.includes(name)`
unfoldable pub includes : List String → String → Bool
includes [] name = false
includes (r ∷ rs) name = same_text r name || includes rs name

-- `user.roles.includes('ADMIN')`
unfoldable pub is_admin : AuthenticatedUser → Bool
unfolding includes
is_admin user = includes user.roles "ADMIN"

abbrev pub same_user : ℕ → AuthenticatedUser → Bool
same_user id user = id == user.id
