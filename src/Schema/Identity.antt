-- ===== src/Schema/Identity.antt =====
-- Users, roles, their tokens and the audit log (prisma/schema.prisma).
use collabos_backend.Base.{ℕ, Bool, Option, String, List}

pub data AuditAction : Type 0 where
  register login_success login_failed logout token_refresh : AuditAction
  password_reset_requested password_reset_completed : AuditAction
  email_verification_requested email_verified payment_succeeded : AuditAction

-- The names of a role's permissions stand for its rows of the join table.
pub record Role : Type 0 where
  pub name : String
  pub permissions : List String

pub record User : Type 0 where
  pub email : String
  pub password_hash : String
  pub is_email_verified : Bool
  pub is_active : Bool
  pub first_name : Option String
  pub last_name : Option String
  pub display_name : Option String
  pub bio : Option String
  pub avatar_url : Option String
  pub role_ids : List ℕ

pub record RefreshToken : Type 0 where
  pub user_id : ℕ
  pub token_hash : String
  pub expires_at : ℕ
  pub revoked_at : Option ℕ
  pub ip_address : Option String
  pub user_agent : Option String

pub record EmailVerificationToken : Type 0 where
  pub user_id : ℕ
  pub token_hash : String
  pub expires_at : ℕ
  pub consumed_at : Option ℕ

pub record PasswordResetToken : Type 0 where
  pub user_id : ℕ
  pub token_hash : String
  pub expires_at : ℕ
  pub consumed_at : Option ℕ

pub record AuditLog : Type 0 where
  pub user_id : Option ℕ
  pub action : AuditAction
  pub ip_address : Option String
  pub user_agent : Option String
  pub metadata : List (String × String)
