-- ===== src/Auth/Sessions.antt =====
-- `login`, `refresh` and `logout` of AuthService (src/auth/auth.service.ts).
use collabos_backend.Base.{
  ℕ, ltb, not, ◌==◌, ◌||◌, Option, none, some, String, List, [], ◌∷◌, is_some, Action, ◌>>=◌, ◌>>◌,
  pure, throw, throw_if, modify, gets, some_or_throw, if◌then◌else◌, forbidden, unauthorized,
  record_not_found,
}
use collabos_backend.Prisma.{find_unique, has_key, update}
use collabos_backend.Schema.Identity.{AuditAction, User, RefreshToken}
use collabos_backend.Auth.State.{
  AuthDb, Crypto, Request, RefreshTokenPayload, AuthTokensResponse, find_by_email, find_refresh,
  record_audit, verify_refresh_token, issue_token_pair,
}

pub record LoginDto : Type 0 where
  pub email : String
  pub password : String

-- The audit entry and the answer of a failed login.
unfoldable pub refuse_login :
    {A : Type 0} → Option ℕ → List (String × String) → Request → Action AuthDb A
refuse_login user metadata req = do
  record_audit AuditAction.login_failed user metadata req
  throw (unauthorized "Invalid credentials")

unfoldable pub login_found :
    Crypto → LoginDto → Request → Option (ℕ × User) → Action AuthDb AuthTokensResponse
login_found c dto req none =
    refuse_login none (("email", dto.email) ∷ ("reason", "user_not_found") ∷ []) req
login_found c dto req (some (id, user)) = do
  (if c.bcrypt_compare dto.password user.password_hash
      then pure tt
      else refuse_login (some id) (("reason", "bad_password") ∷ []) req)
  throw_if (not user.is_active) (forbidden "This account has been deactivated")
  tokens ← issue_token_pair c id user req
  record_audit AuditAction.login_success (some id) [] req
  pure tokens

unfoldable pub login : Crypto → LoginDto → Request → Action AuthDb AuthTokensResponse
login c dto req = do
  found ← gets (λ s. find_by_email dto.email s.users)
  login_found c dto req found

abbrev pub revoked : ℕ → RefreshToken → RefreshToken
revoked now t = record t { revoked_at = some now }

-- `prisma.refreshToken.update` with the time of the revocation
unfoldable pub revoke : ℕ → ℕ → Action AuthDb (Unit {0})
revoke id now = do
  throw_if (not (← gets (λ s. has_key id s.refresh_tokens))) record_not_found
  modify (λ s. record s { refresh_tokens = update id (revoked now) s.refresh_tokens })

unfoldable pub refresh : Crypto → String → Request → Action AuthDb AuthTokensResponse
refresh c token req = do
  payload ← verify_refresh_token c req.now token
  found ← gets (λ s. find_refresh (c.sha256 token) s.refresh_tokens)
  stored ← some_or_throw found (unauthorized "Invalid or expired refresh token")
  throw_if
      (not (stored.1.user_id == payload.sub)
        || is_some stored.1.revoked_at
        || ltb stored.1.expires_at req.now)
      (unauthorized "Invalid or expired refresh token")
  user_found ← gets (λ s. find_unique payload.sub s.users)
  user ← some_or_throw user_found (unauthorized "Invalid or expired session")
  throw_if (not user.is_active) (unauthorized "Invalid or expired session")
  revoke stored.0 req.now
  tokens ← issue_token_pair c payload.sub user req
  record_audit AuditAction.token_refresh (some payload.sub) [] req
  pure tokens

unfoldable pub logout_stored :
    Request → RefreshTokenPayload → Option (ℕ × RefreshToken) → Action AuthDb (Unit {0})
logout_stored req payload none = pure tt
logout_stored req payload (some (id, stored)) =
    (if is_some stored.revoked_at
      then pure tt
      else (do revoke id req.now; record_audit AuditAction.logout (some payload.sub) [] req))

unfoldable pub logout_verified :
    Crypto → String → Request → Option RefreshTokenPayload → Action AuthDb (Unit {0})
logout_verified c token req none = pure tt
logout_verified c token req (some payload) = do
  found ← gets (λ s. find_refresh (c.sha256 token) s.refresh_tokens)
  logout_stored req payload found

-- `logout`, whose answer is the same in every case
unfoldable pub logout : Crypto → String → Request → Action AuthDb String
logout c token req = do
  logout_verified c token req (c.verify_refresh req.now token)
  pure "Logged out"
