-- ===== src/Schema/Launches.antt =====
-- Drops (prisma/schema.prisma).
use collabos_backend.Base.{ℕ, ◌≡◌, Option, String, Enum, arith}

pub data DropStatus : Type 0 where
  draft scheduled published archived : DropStatus

abbrev drop_status_code : DropStatus → ℕ
drop_status_code DropStatus.draft = 0
drop_status_code DropStatus.scheduled = 1
drop_status_code DropStatus.published = 2
drop_status_code DropStatus.archived = 3

pub drop_status_code_injective :
    (a b : DropStatus) → drop_status_code a ≡ drop_status_code b → a ≡ b
drop_status_code_injective a b h = ground arith

instance abbrev pub drop_status_enum : Enum DropStatus
drop_status_enum = record { code = drop_status_code; code_injective = drop_status_code_injective }

pub data DropVisibility : Type 0 where
  public_drop unlisted private_drop : DropVisibility

abbrev drop_visibility_code : DropVisibility → ℕ
drop_visibility_code DropVisibility.public_drop = 0
drop_visibility_code DropVisibility.unlisted = 1
drop_visibility_code DropVisibility.private_drop = 2

pub drop_visibility_code_injective :
    (a b : DropVisibility) → drop_visibility_code a ≡ drop_visibility_code b → a ≡ b
drop_visibility_code_injective a b h = ground arith

instance abbrev pub drop_visibility_enum : Enum DropVisibility
drop_visibility_enum = record {
  code = drop_visibility_code;
  code_injective = drop_visibility_code_injective;
}

pub record Drop : Type 0 where
  pub brand_id : ℕ
  pub deal_id : Option ℕ
  pub title : String
  pub slug : String
  pub description : Option String
  pub status : DropStatus
  pub visibility : DropVisibility
  pub publish_at : Option ℕ
  pub published_at : Option ℕ
  pub archived_at : Option ℕ
