-- ===== src/Auth/Accounts.antt =====
-- `register`, `forgotPassword`, `resetPassword` and `verifyEmail` of AuthService
-- (src/auth/auth.service.ts) and the users of UsersService (src/users/services/users.service.ts).
use collabos_backend.Base.{
  ℕ, ◌+◌, ◌*◌, ltb, Bool, true, false, not, ◌==◌, ◌&&◌, ◌||◌, Option, none, some, String, [], ◌∷◌,
  same_text, is_some, Action, ◌>>=◌, ◌>>◌, pure, throw_if, modify, gets, some_or_throw, lift,
  transaction, bad_request, conflict, not_found, record_not_found, unique_violation,
}
use collabos_backend.Prisma.{find_first, has_key, create, update, update_many}
use collabos_backend.Schema.Identity.{AuditAction, User, PasswordResetToken}
use collabos_backend.Auth.State.{
  AuthDb, Crypto, Request, find_by_email, find_reset, find_verification, record_audit,
}
use collabos_backend.Auth.Sessions.{LoginDto, revoked}

abbrev pub default_role : String
default_role = "USER"

abbrev pub email_verification_ttl_ms : ℕ
email_verification_ttl_ms = 24 * 60 * 60 * 1000

abbrev pub password_reset_ttl_ms : ℕ
password_reset_ttl_ms = 60 * 60 * 1000

abbrev pub new_user : String → String → ℕ → User
new_user email hash role = record {
  email = email;
  password_hash = hash;
  is_email_verified = false;
  is_active = true;
  first_name = none;
  last_name = none;
  display_name = none;
  bio = none;
  avatar_url = none;
  role_ids = role ∷ [];
}

-- `prisma.user.create`, under the unique columns `id` and `email`, with the role that is
-- connected
unfoldable pub create_user : ℕ → String → String → Action AuthDb (Unit {0})
create_user key email hash = do
  taken ← gets (λ s. find_by_email email s.users)
  used ← gets (λ s. has_key key s.users)
  throw_if (is_some taken || used) unique_violation
  found ← gets (λ s. find_first (λ _ r. same_text r.name default_role) s.roles)
  role ← some_or_throw found record_not_found
  modify (λ s. record s { users = create key (new_user email hash role.0) s.users })

-- `issueEmailVerificationToken`
unfoldable pub issue_email_verification_token : Crypto → ℕ → Request → Action AuthDb (Unit {0})
issue_email_verification_token c user req = do
  taken ← gets (λ s. find_verification (c.sha256 req.random_bytes) s.verification_tokens)
  used ← gets (λ s. has_key req.token_key s.verification_tokens)
  throw_if (is_some taken || used) unique_violation
  modify λ s. record s {
    verification_tokens =
        create req.token_key
          (record {
            user_id = user;
            token_hash = c.sha256 req.random_bytes;
            expires_at = req.now + email_verification_ttl_ms;
            consumed_at = none;
          })
          s.verification_tokens;
  }
  lift req.mailed

-- `register`; its body has the fields of a login
unfoldable pub register : Crypto → LoginDto → Request → Action AuthDb String
register c dto req = do
  existing ← gets (λ s. find_by_email dto.email s.users)
  throw_if (is_some existing) (conflict "An account with this email already exists")
  create_user req.key dto.email (c.bcrypt_hash req.salt dto.password)
  issue_email_verification_token c req.key req
  record_audit AuditAction.register (some req.key) [] req
  pure "Registration successful. Check your email to verify your account."

abbrev pub new_reset_token : Crypto → ℕ → Request → PasswordResetToken
new_reset_token c user req = record {
  user_id = user;
  token_hash = c.sha256 req.random_bytes;
  expires_at = req.now + password_reset_ttl_ms;
  consumed_at = none;
}

unfoldable pub request_reset : Crypto → Request → Option (ℕ × User) → Action AuthDb (Unit {0})
request_reset c req none = pure tt
request_reset c req (some (id, user)) = do
  taken ← gets (λ s. find_reset (c.sha256 req.random_bytes) s.reset_tokens)
  used ← gets (λ s. has_key req.token_key s.reset_tokens)
  throw_if (is_some taken || used) unique_violation
  modify λ s. record s {
    reset_tokens = create req.token_key (new_reset_token c id req) s.reset_tokens;
  }
  lift req.mailed
  record_audit AuditAction.password_reset_requested (some id) [] req

unfoldable pub forgot_password : Crypto → String → Request → Action AuthDb String
forgot_password c email req = do
  found ← gets (λ s. find_by_email email s.users)
  request_reset c req found
  pure "If an account exists for this email, a reset link has been sent."

-- `prisma.user.update`
unfoldable pub update_user : ℕ → (User → User) → Action AuthDb (Unit {0})
update_user id f = do
  throw_if (not (← gets (λ s. has_key id s.users))) record_not_found
  modify (λ s. record s { users = update id f s.users })

abbrev pub with_password : String → User → User
with_password hash u = record u { password_hash = hash }

abbrev pub reset_consumed : ℕ → PasswordResetToken → PasswordResetToken
reset_consumed now t = record t { consumed_at = some now }

-- `prisma.passwordResetToken.update`
unfoldable pub consume_reset : ℕ → ℕ → Action AuthDb (Unit {0})
consume_reset id now = do
  throw_if (not (← gets (λ s. has_key id s.reset_tokens))) record_not_found
  modify (λ s. record s { reset_tokens = update id (reset_consumed now) s.reset_tokens })

unfoldable pub revoke_all : ℕ → ℕ → Action AuthDb (Unit {0})
revoke_all user now = modify λ s. record s {
  refresh_tokens =
      update_many (λ _ t. t.user_id == user && not (is_some t.revoked_at)) (revoked now)
        s.refresh_tokens;
}

unfoldable pub reset_password : Crypto → String → String → Request → Action AuthDb String
reset_password c token new_password req = do
  found ← gets (λ s. find_reset (c.sha256 token) s.reset_tokens)
  stored ← some_or_throw found (bad_request "Invalid or expired reset token")
  throw_if (is_some stored.1.consumed_at || ltb stored.1.expires_at req.now)
      (bad_request "Invalid or expired reset token")
  transaction (do
    update_user stored.1.user_id (with_password (c.bcrypt_hash req.salt new_password))
    consume_reset stored.0 req.now
    revoke_all stored.1.user_id req.now)
  record_audit AuditAction.password_reset_completed (some stored.1.user_id) [] req
  pure "Password has been reset. Please log in again."

abbrev pub verified : User → User
verified u = record u { is_email_verified = true }

unfoldable pub consume_verification : ℕ → ℕ → Action AuthDb (Unit {0})
consume_verification id now = do
  throw_if (not (← gets (λ s. has_key id s.verification_tokens))) record_not_found
  modify λ s. record s {
    verification_tokens =
        update id (λ t. record t { consumed_at = some now }) s.verification_tokens;
  }

unfoldable pub verify_email : Crypto → String → Request → Action AuthDb String
verify_email c token req = do
  found ← gets (λ s. find_verification (c.sha256 token) s.verification_tokens)
  stored ← some_or_throw found (bad_request "Invalid or expired verification token")
  throw_if (is_some stored.1.consumed_at || ltb stored.1.expires_at req.now)
      (bad_request "Invalid or expired verification token")
  transaction (do update_user stored.1.user_id verified; consume_verification stored.0 req.now)
  record_audit AuditAction.email_verified (some stored.1.user_id) [] req
  pure "Email verified successfully."

-- `ensureExists` of UsersService
unfoldable pub ensure_exists : ℕ → Action AuthDb (Unit {0})
ensure_exists id = do
  exists ← gets (λ s. has_key id s.users)
  throw_if (not exists) (not_found "User not found")

abbrev pub with_active : Option Bool → User → User
with_active none u = u
with_active (some active) u = record u { is_active = active }

-- `update` of UsersService; a field that the body leaves out is not written
unfoldable pub update_active : ℕ → Option Bool → Action AuthDb (Unit {0})
update_active id active = do ensure_exists id; update_user id (with_active active)

-- `remove` of UsersService
unfoldable pub remove_user : ℕ → Action AuthDb String
remove_user id = do
  ensure_exists id
  update_user id (with_active (some false))
  pure "User deactivated"
