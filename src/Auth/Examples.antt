-- ===== src/Auth/Examples.antt =====
-- A user with one session who refreshes it, resets the password and is removed.
use collabos_backend.Base.{
  is_ok, ℕ, ◌≡◌, ◌≤◌, refl, true, none, some, String, List, [], ◌∷◌, arith, ok, err, unauthorized,
  bad_request, same_text, same_text_refl, includes,
}
use collabos_backend.Schema.Identity.{Role, User, RefreshToken, PasswordResetToken}
use collabos_backend.Auth.State.{
  AuthDb, Crypto, Request, AuthTokensResponse, JwtPayload, record_audit, verify_refresh_token,
  create_refresh, issue_token_pair, find_by_email, find_refresh, find_reset, flatten_permissions,
  flatten_from, add_permissions, add_permission,
}
use collabos_backend.Auth.Sessions.{login, refresh, revoke}
use collabos_backend.Auth.Accounts.{
  reset_password, update_user, consume_reset, revoke_all, remove_user, ensure_exists,
}
use collabos_backend.Auth.Calls.{Call, login_call, logout_call, run}
use collabos_backend.Auth.Guards.{validate}
use collabos_backend.Auth.Rotation.{refresh_once}
use collabos_backend.Auth.Resets.{reset_ends_sessions, reset_once}
use collabos_backend.Auth.Lockout.{UserCall, user_run, removed_locked_out}
use collabos_backend.Auth.Permissions.{flatten_permissions-union, some_role_has, occurrences}
use collabos_backend.Auth.Recovery.{recovery_succeeds, recovered}

abbrev crypto : Crypto
crypto = record {
  sign_access = λ payload. payload.email;
  sign_refresh = λ payload. payload.jti;
  verify_refresh = λ now token. some (record { sub = 1; jti = token });
  expiry = λ token. 1000;
  sha256 = λ token. token;
  bcrypt_hash = λ salt plain. plain;
  bcrypt_compare = λ plain hash. same_text plain hash;
}

abbrev member : Role
member = record { name = "USER"; permissions = "read" ∷ "write" ∷ [] }

abbrev user : User
user = record {
  email = "user@example.com";
  password_hash = "secret";
  is_email_verified = true;
  is_active = true;
  first_name = none;
  last_name = none;
  display_name = none;
  bio = none;
  avatar_url = none;
  role_ids = 7 ∷ [];
}

abbrev session : RefreshToken
session = record {
  user_id = 1;
  token_hash = "r1";
  expires_at = 500;
  revoked_at = none;
  ip_address = none;
  user_agent = none;
}

abbrev mailed_token : PasswordResetToken
mailed_token = record { user_id = 1; token_hash = "p1"; expires_at = 300; consumed_at = none }

abbrev start : AuthDb
start = record {
  users = (1, user) ∷ [];
  roles = (7, member) ∷ [];
  refresh_tokens = (30, session) ∷ [];
  verification_tokens = [];
  reset_tokens = (40, mailed_token) ∷ [];
  audit_logs = [];
}

abbrev request : ℕ → ℕ → String → Request
request now key random = record {
  ip_address = none;
  user_agent = none;
  now = now;
  uuid = random;
  random_bytes = random;
  salt = "salt";
  key = key;
  token_key = key;
  mailed = ok tt;
}

abbrev between : List Call
between =
    login_call (record { email = "user@example.com"; password = "secret" }) (request 60 32 "r3")
    ∷ logout_call "r3" (request 70 33 "r4")
    ∷ []

abbrev tokens : AuthTokensResponse
tokens = record {
  access_token = "user@example.com";
  refresh_token = "r2";
  user = record {
    id = 1;
    email = "user@example.com";
    is_email_verified = true;
    roles = "USER" ∷ [];
    permissions = "read" ∷ "write" ∷ [];
  };
}

refreshed : (refresh crypto "r1" (request 50 31 "r2") start).0 ≡ ok tokens
unfolding refresh verify_refresh_token revoke issue_token_pair create_refresh record_audit same_text
    flatten_permissions flatten_from add_permissions add_permission includes
refreshed = refl

refresh_once_example :
    refresh crypto "r1"
      (request 90 34 "r5")
      (run crypto between (refresh crypto "r1" (request 50 31 "r2") start).1)
    ≡ (
      err (unauthorized "Invalid or expired refresh token"),
      run crypto between (refresh crypto "r1" (request 50 31 "r2") start).1,
    )
refresh_once_example =
    refresh_once crypto "r1" (request 50 31 "r2") start tokens between (request 90 34 "r5")
      (refl, tt) refreshed

abbrev reset_answer : String
reset_answer = "Password has been reset. Please log in again."

was_reset : (reset_password crypto "p1" "better" (request 50 31 "r2") start).0 ≡ ok reset_answer
unfolding reset_password update_user consume_reset revoke_all record_audit same_text
was_reset = refl

reset_is_stored : find_reset "p1" start.reset_tokens ≡ some (40, mailed_token)
unfolding same_text
reset_is_stored = refl

session_is_stored : find_refresh "r1" start.refresh_tokens ≡ some (30, session)
unfolding same_text
session_is_stored = refl

reset_ends_sessions_example :
    refresh crypto "r1"
      (request 90 34 "r5")
      (run crypto between (reset_password crypto "p1" "better" (request 50 31 "r2") start).1)
    ≡ (
      err (unauthorized "Invalid or expired refresh token"),
      run crypto between (reset_password crypto "p1" "better" (request 50 31 "r2") start).1,
    )
reset_ends_sessions_example =
    reset_ends_sessions crypto "p1" "better" "r1" reset_answer (request 50 31 "r2")
      (request 90 34 "r5") start between 40 30 mailed_token session reset_is_stored
      session_is_stored refl was_reset

reset_once_example :
    reset_password crypto "p1" "other"
      (request 90 34 "r5")
      (run crypto between (reset_password crypto "p1" "better" (request 50 31 "r2") start).1)
    ≡ (
      err (bad_request "Invalid or expired reset token"),
      run crypto between (reset_password crypto "p1" "better" (request 50 31 "r2") start).1,
    )
reset_once_example =
    reset_once crypto "p1" "better" "other" reset_answer (request 50 31 "r2") (request 90 34 "r5")
      start between (refl, tt) was_reset

abbrev payload : JwtPayload
payload = record {
  sub = 1;
  email = "user@example.com";
  roles = "USER" ∷ [];
  permissions = "read" ∷ "write" ∷ [];
}

was_removed : (remove_user 1 start).0 ≡ ok "User deactivated"
unfolding remove_user ensure_exists update_user
was_removed = refl

abbrev afterwards : List UserCall
afterwards =
    UserCall.auth_call
      (login_call (record { email = "user@example.com"; password = "secret" }) (request 60 32 "r3"))
    ∷ UserCall.update_call 2 (some true)
    ∷ UserCall.remove_call 1
    ∷ []

removed_locked_out_example :
    validate payload (user_run crypto afterwards (remove_user 1 start).1) ≡ (
      err (unauthorized "Invalid or expired session"),
      user_run crypto afterwards (remove_user 1 start).1,
    )
removed_locked_out_example =
    removed_locked_out crypto payload "User deactivated" start afterwards was_removed
      (tt, ((λ e. ground (arith, e)), (tt, tt)))

flatten_permissions-union_example :
    (includes (flatten_permissions (member ∷ member ∷ [])) "write"
      ≡ some_role_has (member ∷ member ∷ []) "write")
    × (occurrences "write" (flatten_permissions (member ∷ member ∷ [])) ≤ 1)
flatten_permissions-union_example = flatten_permissions-union (member ∷ member ∷ []) "write"

user_is_stored : find_by_email "user@example.com" start.users ≡ some (1, user)
unfolding same_text
user_is_stored = refl

no_reset : find_reset "p2" start.reset_tokens ≡ none
unfolding same_text
no_reset = refl

no_session : find_refresh "r9" start.refresh_tokens ≡ none
unfolding same_text
no_session = refl

recovery_succeeds_example :
    is_ok
      (login crypto
        (record { email = "user@example.com"; password = "better" })
        (request 200 51 "r9")
        (recovered crypto "user@example.com" "better"
          (request 50 50 "p2")
          (request 90 34 "r5")
          start)).0
    ≡ true
recovery_succeeds_example =
    recovery_succeeds crypto "user@example.com" "better" (request 50 50 "p2") (request 90 34 "r5")
      start (request 200 51 "r9") 1 user (refl, tt) user_is_stored refl (omega arith) no_reset refl
      no_session refl (λ salt plain. same_text_refl plain)
