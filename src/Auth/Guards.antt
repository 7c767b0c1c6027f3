-- ===== src/Auth/Guards.antt =====
-- Who passes the guards: JwtStrategy.validate (src/auth/strategies/jwt.strategy.ts) and the guards
-- of roles and permissions (src/auth/guards).
use collabos_backend.Base.{
  Bool, true, false, not, ◌&&◌, ◌||◌, Option, none, some, String, List, [], ◌∷◌, includes, Action,
  ◌>>=◌, ◌>>◌, pure, throw_if, gets, some_or_throw, unauthorized, AuthenticatedUser,
}
use collabos_backend.Prisma.{find_unique}
use collabos_backend.Auth.State.{AuthDb, JwtPayload, roles_of, role_names, flatten_permissions}

-- `validate` of JwtStrategy
unfoldable pub validate : JwtPayload → Action AuthDb AuthenticatedUser
validate payload = do
  found ← gets (λ s. find_unique payload.sub s.users)
  user ← some_or_throw found (unauthorized "Invalid or expired session")
  throw_if (not user.is_active) (unauthorized "Invalid or expired session")
  roles ← gets (λ s. roles_of user.role_ids s.roles)
  pure (record {
    id = payload.sub;
    email = user.email;
    is_email_verified = user.is_email_verified;
    is_active = user.is_active;
    roles = role_names roles;
    permissions = flatten_permissions roles;
  })

-- `requiredRoles.some((role) => user.roles.includes(role))`
unfoldable pub some_included : List String → List String → Bool
some_included [] names = false
some_included (r ∷ rs) names = includes names r || some_included rs names

-- `requiredPermissions.every((permission) => user.permissions.includes(permission))`
unfoldable pub every_included : List String → List String → Bool
every_included [] names = true
every_included (p ∷ ps) names = includes names p && every_included ps names

-- `canActivate` of RolesGuard: the metadata of the handler and the user of the request
unfoldable pub roles_guard : Option (List String) → Option AuthenticatedUser → Bool
roles_guard none user = true
roles_guard (some []) user = true
roles_guard (some (r ∷ rs)) none = false
roles_guard (some (r ∷ rs)) (some user) = some_included (r ∷ rs) user.roles

-- `canActivate` of PermissionsGuard
unfoldable pub permissions_guard : Option (List String) → Option AuthenticatedUser → Bool
permissions_guard none user = true
permissions_guard (some []) user = true
permissions_guard (some (p ∷ ps)) none = false
permissions_guard (some (p ∷ ps)) (some user) = every_included (p ∷ ps) user.permissions
