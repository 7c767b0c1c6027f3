-- ===== src/Schema/Collaboration.antt =====
-- Brands, briefs, applications, deals and proposals (prisma/schema.prisma).
use collabos_backend.Base.{ℕ, ◌≡◌, Bool, Option, String, List, Enum, arith}

pub data BriefStatus : Type 0 where
  open_brief closed archived : BriefStatus

abbrev brief_status_code : BriefStatus → ℕ
brief_status_code BriefStatus.open_brief = 0
brief_status_code BriefStatus.closed = 1
brief_status_code BriefStatus.archived = 2

pub brief_status_code_injective :
    (a b : BriefStatus) → brief_status_code a ≡ brief_status_code b → a ≡ b
brief_status_code_injective a b h = ground arith

instance abbrev pub brief_status_enum : Enum BriefStatus
brief_status_enum = record {
  code = brief_status_code;
  code_injective = brief_status_code_injective;
}

pub data ApplicationStatus : Type 0 where
  pending accepted rejected withdrawn : ApplicationStatus

abbrev application_status_code : ApplicationStatus → ℕ
application_status_code ApplicationStatus.pending = 0
application_status_code ApplicationStatus.accepted = 1
application_status_code ApplicationStatus.rejected = 2
application_status_code ApplicationStatus.withdrawn = 3

pub application_status_code_injective :
    (a b : ApplicationStatus) → application_status_code a ≡ application_status_code b → a ≡ b
application_status_code_injective a b h = ground arith

instance abbrev pub application_status_enum : Enum ApplicationStatus
application_status_enum = record {
  code = application_status_code;
  code_injective = application_status_code_injective;
}

pub data DealStatus : Type 0 where
  negotiating active completed cancelled : DealStatus

abbrev deal_status_code : DealStatus → ℕ
deal_status_code DealStatus.negotiating = 0
deal_status_code DealStatus.active = 1
deal_status_code DealStatus.completed = 2
deal_status_code DealStatus.cancelled = 3

pub deal_status_code_injective :
    (a b : DealStatus) → deal_status_code a ≡ deal_status_code b → a ≡ b
deal_status_code_injective a b h = ground arith

instance abbrev pub deal_status_enum : Enum DealStatus
deal_status_enum = record { code = deal_status_code; code_injective = deal_status_code_injective }

pub data ProposalStatus : Type 0 where
  pending accepted rejected superseded : ProposalStatus

abbrev proposal_status_code : ProposalStatus → ℕ
proposal_status_code ProposalStatus.pending = 0
proposal_status_code ProposalStatus.accepted = 1
proposal_status_code ProposalStatus.rejected = 2
proposal_status_code ProposalStatus.superseded = 3

pub proposal_status_code_injective :
    (a b : ProposalStatus) → proposal_status_code a ≡ proposal_status_code b → a ≡ b
proposal_status_code_injective a b h = ground arith

instance abbrev pub proposal_status_enum : Enum ProposalStatus
proposal_status_enum = record {
  code = proposal_status_code;
  code_injective = proposal_status_code_injective;
}

pub record Brand : Type 0 where
  pub owner_id : ℕ
  pub is_active : Bool

pub record Brief : Type 0 where
  pub brand_id : ℕ
  pub title : String
  pub description : String
  pub budget_min : Option ℕ
  pub budget_max : Option ℕ
  pub currency : String
  pub deliverables : List String
  pub application_deadline : Option ℕ
  pub location : Option String
  pub is_remote : Bool
  pub status : BriefStatus
  pub closed_at : Option ℕ
  pub archived_at : Option ℕ

pub record Application : Type 0 where
  pub brief_id : ℕ
  pub applicant_id : ℕ
  pub status : ApplicationStatus
  pub cover_message : String
  pub proposed_budget : Option ℕ
  pub decided_at : Option ℕ
  pub withdrawn_at : Option ℕ

pub record Deal : Type 0 where
  pub application_id : ℕ
  pub brief_id : ℕ
  pub brand_id : ℕ
  pub creator_id : ℕ
  pub title : String
  pub status : DealStatus
  pub total_value : Option ℕ
  pub currency : String
  pub revenue_split_brand : Option ℕ
  pub revenue_split_creator : Option ℕ
  pub start_date : Option ℕ
  pub end_date : Option ℕ
  pub activated_at : Option ℕ
  pub completed_at : Option ℕ
  pub cancelled_at : Option ℕ
  pub cancel_reason : Option String

pub record DealProposal : Type 0 where
  pub deal_id : ℕ
  pub proposed_by_id : ℕ
  pub status : ProposalStatus
  pub total_value : Option ℕ
  pub revenue_split_brand : Option ℕ
  pub revenue_split_creator : Option ℕ
  pub start_date : Option ℕ
  pub end_date : Option ℕ
  pub message : Option String
  pub responded_at : Option ℕ

pub data NotificationType : Type 0 where
  application_received application_accepted application_rejected application_withdrawn :
      NotificationType
  generic : NotificationType

pub record Notification : Type 0 where
  pub user_id : ℕ
  pub kind : NotificationType
  pub template_key : Option String
  pub title : String
  pub message : String
  pub metadata : List (String × ℕ)
  pub is_read : Bool
  pub read_at : Option ℕ
