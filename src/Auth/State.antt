-- ===== src/Auth/State.antt =====
-- The tables of AuthService (src/auth/auth.service.ts), what the libraries of tokens and
-- passwords give it, and its private helpers.
use collabos_backend.Base.{
  ℕ, Bool, ◌||◌, Option, none, some, String, List, [], ◌∷◌, ◌++◌, same_text, includes, is_some,
  Result, Action, ◌>>=◌, ◌>>◌, pure, throw, throw_if, modify, gets, unauthorized, unique_violation,
  if◌then◌else◌,
}
use collabos_backend.Prisma.{Table, find_unique, find_first, has_key, create}
use collabos_backend.Schema.Identity.{
  AuditAction, Role, User, RefreshToken, EmailVerificationToken, PasswordResetToken, AuditLog,
}

pub record AuthDb : Type 0 where
  pub users : Table User
  pub roles : Table Role
  pub refresh_tokens : Table RefreshToken
  pub verification_tokens : Table EmailVerificationToken
  pub reset_tokens : Table PasswordResetToken
  pub audit_logs : List AuditLog

pub record RefreshTokenPayload : Type 0 where
  pub sub : ℕ
  pub jti : String

pub record JwtPayload : Type 0 where
  pub sub : ℕ
  pub email : String
  pub roles : List String
  pub permissions : List String

-- The calls of @nestjs/jwt, node:crypto and bcrypt. A refresh token is verified at a time; a hash
-- of a password takes a salt; an expiry is in milliseconds.
pub record Crypto : Type 0 where
  pub sign_access : JwtPayload → String
  pub sign_refresh : RefreshTokenPayload → String
  pub verify_refresh : ℕ → String → Option RefreshTokenPayload
  pub expiry : String → ℕ
  pub sha256 : String → String
  pub bcrypt_hash : String → String → String
  pub bcrypt_compare : String → String → Bool

-- What a request brings from outside of the tables: its metadata, the time, the random values
-- and keys that it may use, and how the mail server answers.
pub record Request : Type 0 where
  pub ip_address : Option String
  pub user_agent : Option String
  pub now : ℕ
  pub uuid : String
  pub random_bytes : String
  pub salt : String
  pub key : ℕ
  pub token_key : ℕ
  pub mailed : Result (Unit {0})

pub record UserProfileResponse : Type 0 where
  pub id : ℕ
  pub email : String
  pub is_email_verified : Bool
  pub roles : List String
  pub permissions : List String

pub record AuthTokensResponse : Type 0 where
  pub access_token : String
  pub refresh_token : String
  pub user : UserProfileResponse

-- `permissions.add(permission.name)` of a `Set<string>`, which keeps the order of insertion
unfoldable pub add_permission : String → List String → List String
add_permission p acc = if includes acc p then acc else acc ++ (p ∷ [])

unfoldable pub add_permissions : List String → List String → List String
unfolding add_permission
add_permissions [] acc = acc
add_permissions (p ∷ ps) acc = add_permissions ps (add_permission p acc)

unfoldable pub flatten_from : List Role → List String → List String
flatten_from [] acc = acc
flatten_from (r ∷ rs) acc = flatten_from rs (add_permissions r.permissions acc)

-- `flattenPermissions`
unfoldable pub flatten_permissions : List Role → List String
flatten_permissions roles = flatten_from roles []

-- `include: { roles: ... }`
abbrev pub roles_of : List ℕ → Table Role → List Role
roles_of [] t = []
roles_of (i ∷ is) t = elim (find_unique i t) [ none ↦ roles_of is t | some r ↦ r ∷ roles_of is t ]

abbrev pub role_names : List Role → List String
role_names [] = []
role_names (r ∷ rs) = r.name ∷ role_names rs

-- `findUnique({ where: { email } })`
abbrev pub find_by_email : String → Table User → Option (ℕ × User)
find_by_email email = find_first (λ _ u. same_text u.email email)

-- `findUnique({ where: { tokenHash } })` of the three tables of tokens
abbrev pub find_refresh : String → Table RefreshToken → Option (ℕ × RefreshToken)
find_refresh hash = find_first (λ _ t. same_text t.token_hash hash)

abbrev pub find_reset : String → Table PasswordResetToken → Option (ℕ × PasswordResetToken)
find_reset hash = find_first (λ _ t. same_text t.token_hash hash)

abbrev pub find_verification :
    String → Table EmailVerificationToken → Option (ℕ × EmailVerificationToken)
find_verification hash = find_first (λ _ t. same_text t.token_hash hash)

-- `AuditLogService.record`
unfoldable pub record_audit :
    AuditAction → Option ℕ → List (String × String) → Request → Action AuthDb (Unit {0})
record_audit action user metadata req = modify λ s. record s {
  audit_logs =
      record {
        user_id = user;
        action = action;
        ip_address = req.ip_address;
        user_agent = req.user_agent;
        metadata = metadata;
      }
      ∷ s.audit_logs;
}

-- `verifyRefreshToken`
unfoldable pub verify_refresh_token : Crypto → ℕ → String → Action AuthDb RefreshTokenPayload
verify_refresh_token c now token = elim (c.verify_refresh now token) [
  | none ↦ throw (unauthorized "Invalid or expired refresh token")
  | some payload ↦ pure payload
]

abbrev pub access_payload : ℕ → User → List Role → JwtPayload
access_payload id user roles = record {
  sub = id;
  email = user.email;
  roles = role_names roles;
  permissions = flatten_permissions roles;
}

abbrev pub profile_response : ℕ → User → List Role → UserProfileResponse
profile_response id user roles = record {
  id = id;
  email = user.email;
  is_email_verified = user.is_email_verified;
  roles = role_names roles;
  permissions = flatten_permissions roles;
}

abbrev pub new_refresh_token : Crypto → ℕ → String → Request → RefreshToken
new_refresh_token c user token req = record {
  user_id = user;
  token_hash = c.sha256 token;
  expires_at = c.expiry token;
  revoked_at = none;
  ip_address = req.ip_address;
  user_agent = req.user_agent;
}

-- `generateRefreshToken`
abbrev pub generate_refresh_token : Crypto → ℕ → String → String
generate_refresh_token c user uuid = c.sign_refresh (record { sub = user; jti = uuid })

-- `prisma.refreshToken.create`, under the unique columns `id` and
-- `tokenHash`
unfoldable pub create_refresh : ℕ → RefreshToken → Action AuthDb (Unit {0})
create_refresh key token = do
  taken ← gets (λ s. find_refresh token.token_hash s.refresh_tokens)
  used ← gets (λ s. has_key key s.refresh_tokens)
  throw_if (is_some taken || used) unique_violation
  modify (λ s. record s { refresh_tokens = create key token s.refresh_tokens })

-- `issueTokenPair`
unfoldable pub issue_token_pair : Crypto → ℕ → User → Request → Action AuthDb AuthTokensResponse
issue_token_pair c id user req = do
  roles ← gets (λ s. roles_of user.role_ids s.roles)
  create_refresh req.token_key (new_refresh_token c id (generate_refresh_token c id req.uuid) req)
  pure (record {
    access_token = c.sign_access (access_payload id user roles);
    refresh_token = generate_refresh_token c id req.uuid;
    user = profile_response id user roles;
  })
