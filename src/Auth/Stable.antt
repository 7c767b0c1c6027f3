-- ===== src/Auth/Stable.antt =====
-- Predicates of the tables that every call of AuthService keeps (src/auth/auth.service.ts).
use collabos_backend.Base.{
  ℕ, ◌≡◌, Option, none, some, String, List, [], ◌∷◌, arith, Keeps, keeps_rules, refl,
}
use collabos_backend.Schema.Identity.{AuditAction, User, RefreshToken}
use collabos_backend.Auth.State.{
  AuthDb, Crypto, Request, record_audit, verify_refresh_token, create_refresh, issue_token_pair,
  RefreshTokenPayload,
}
use collabos_backend.Auth.Sessions.{
  LoginDto, refuse_login, login_found, login, revoke, refresh, logout_stored, logout_verified,
  logout,
}
use collabos_backend.Auth.Accounts.{
  create_user, issue_email_verification_token, register, request_reset, forgot_password,
  update_user, with_password, verified, consume_reset, revoke_all, reset_password,
  consume_verification, verify_email,
}
use collabos_backend.Auth.Calls.{
  Call, register_call, login_call, refresh_call, logout_call, forgot_call, verify_call, reset_call,
  step, run,
}

-- Every write of the service keeps the predicate.
pub record IsStable (P : AuthDb → Type 0) : Type 0 where
  pub keeps_create_refresh : (k : ℕ) (r : RefreshToken) → Keeps P (create_refresh k r)
  pub keeps_revoke : (id now : ℕ) → Keeps P (revoke id now)
  pub keeps_revoke_all : (user now : ℕ) → Keeps P (revoke_all user now)
  pub keeps_audit :
      (action : AuditAction) (user : Option ℕ) (metadata : List (String × String)) (req : Request)
      → Keeps P (record_audit action user metadata req)
  pub keeps_create_user : (k : ℕ) (email hash : String) → Keeps P (create_user k email hash)
  pub keeps_issue :
      (c : Crypto) (user : ℕ) (req : Request) → Keeps P (issue_email_verification_token c user req)
  pub keeps_request :
      (c : Crypto) (req : Request) (found : Option (ℕ × User)) → Keeps P (request_reset c req found)
  pub keeps_update_user :
      (id : ℕ) (f : User → User)
      → ((u : User) → (f u).is_active ≡ u.is_active)
      → Keeps P (update_user id f)
  pub keeps_consume_reset : (id now : ℕ) → Keeps P (consume_reset id now)
  pub keeps_consume_verification : (id now : ℕ) → Keeps P (consume_verification id now)

with_password_active : (hash : String) (u : User) → (with_password hash u).is_active ≡ u.is_active
with_password_active hash u = refl

verified_active : (u : User) → (verified u).is_active ≡ u.is_active
verified_active u = refl

verify_refresh-Keeps :
    {P : AuthDb → Type 0} (c : Crypto) (now : ℕ) (token : String)
    → Keeps P (verify_refresh_token c now token)
unfolding verify_refresh_token
verify_refresh-Keeps c now token = record { apply = λ s h. ground (arith, h) }

module _ (P : AuthDb → Type 0) (stable : IsStable P) (c : Crypto) where
  pub Keeps-issue_token_pair :
      (id : ℕ) (user : User) (req : Request) → Keeps P (issue_token_pair c id user req)
  unfolding issue_token_pair
  Keeps-issue_token_pair id user req = search (keeps_rules, stable.keeps_create_refresh) depth 12

  Keeps-login_found :
      (dto : LoginDto) (req : Request) (found : Option (ℕ × User))
      → Keeps P (login_found c dto req found)
  unfolding login_found refuse_login
  Keeps-login_found dto req none = search (keeps_rules, stable.keeps_audit) depth 12
  Keeps-login_found dto req (some (id, user)) =
      search (keeps_rules, stable.keeps_audit, Keeps-issue_token_pair) depth 15

  Keeps-login : (dto : LoginDto) (req : Request) → Keeps P (login c dto req)
  unfolding login
  Keeps-login dto req = search (keeps_rules, Keeps-login_found) depth 9

  Keeps-refresh : (token : String) (req : Request) → Keeps P (refresh c token req)
  unfolding refresh
  Keeps-refresh token req =
      search
        (
          keeps_rules, stable.keeps_revoke, stable.keeps_audit, verify_refresh-Keeps,
          Keeps-issue_token_pair,
        )
        depth 30

  Keeps-logout_stored :
      (req : Request) (payload : RefreshTokenPayload) (found : Option (ℕ × RefreshToken))
      → Keeps P (logout_stored req payload found)
  unfolding logout_stored
  Keeps-logout_stored req payload none = search keeps_rules
  Keeps-logout_stored req payload (some (id, stored)) =
      search (keeps_rules, stable.keeps_revoke, stable.keeps_audit) depth 12

  Keeps-logout_verified :
      (token : String) (req : Request) (payload : Option RefreshTokenPayload)
      → Keeps P (logout_verified c token req payload)
  unfolding logout_verified
  Keeps-logout_verified token req none = search keeps_rules
  Keeps-logout_verified token req (some payload) = search (keeps_rules, Keeps-logout_stored) depth 9

  Keeps-logout : (token : String) (req : Request) → Keeps P (logout c token req)
  unfolding logout
  Keeps-logout token req = search (keeps_rules, Keeps-logout_verified) depth 9

  Keeps-register : (dto : LoginDto) (req : Request) → Keeps P (register c dto req)
  unfolding register
  Keeps-register dto req =
      search (keeps_rules, stable.keeps_create_user, stable.keeps_issue, stable.keeps_audit) depth
        18

  Keeps-forgot : (email : String) (req : Request) → Keeps P (forgot_password c email req)
  unfolding forgot_password
  Keeps-forgot email req = search (keeps_rules, stable.keeps_request) depth 12

  Keeps-reset :
      (token password : String) (req : Request) → Keeps P (reset_password c token password req)
  unfolding reset_password
  Keeps-reset token password req =
      search
        (
          keeps_rules, stable.keeps_update_user, stable.keeps_consume_reset,
          stable.keeps_revoke_all, stable.keeps_audit, with_password_active,
        )
        depth 20

  Keeps-verify : (token : String) (req : Request) → Keeps P (verify_email c token req)
  unfolding verify_email
  Keeps-verify token req =
      search
        (
          keeps_rules, stable.keeps_update_user, stable.keeps_consume_verification,
          stable.keeps_audit, verified_active,
        )
        depth 20

  pub step-IsStable : (call : Call) (s : AuthDb) → P s → P (step c call s)
  unfolding step
  step-IsStable (register_call dto req) s h = (Keeps-register dto req).apply s h
  step-IsStable (login_call dto req) s h = (Keeps-login dto req).apply s h
  step-IsStable (refresh_call token req) s h = (Keeps-refresh token req).apply s h
  step-IsStable (logout_call token req) s h = (Keeps-logout token req).apply s h
  step-IsStable (forgot_call email req) s h = (Keeps-forgot email req).apply s h
  step-IsStable (verify_call token req) s h = (Keeps-verify token req).apply s h
  step-IsStable (reset_call token password req) s h = (Keeps-reset token password req).apply s h

  pub run-IsStable : (calls : List Call) (s : AuthDb) → P s → P (run c calls s)
  unfolding run
  run-IsStable [] s h = h
  run-IsStable (call ∷ calls) s h = run-IsStable calls (step c call s) (step-IsStable call s h)
