-- ===== src/Schema/Agreements.antt =====
-- Contracts, their versions, signatures and events (prisma/schema.prisma).
use collabos_backend.Base.{ℕ, ◌≡◌, Option, String, Enum, arith}

pub data AgreementStatus : Type 0 where
  draft awaiting_signature partially_signed executed voided : AgreementStatus

abbrev agreement_status_code : AgreementStatus → ℕ
agreement_status_code AgreementStatus.draft = 0
agreement_status_code AgreementStatus.awaiting_signature = 1
agreement_status_code AgreementStatus.partially_signed = 2
agreement_status_code AgreementStatus.executed = 3
agreement_status_code AgreementStatus.voided = 4

pub agreement_status_code_injective :
    (a b : AgreementStatus) → agreement_status_code a ≡ agreement_status_code b → a ≡ b
agreement_status_code_injective a b h = ground arith

instance abbrev pub agreement_status_enum : Enum AgreementStatus
agreement_status_enum = record {
  code = agreement_status_code;
  code_injective = agreement_status_code_injective;
}

pub data DealParty : Type 0 where
  brand creator : DealParty

abbrev deal_party_code : DealParty → ℕ
deal_party_code DealParty.brand = 0
deal_party_code DealParty.creator = 1

pub deal_party_code_injective : (a b : DealParty) → deal_party_code a ≡ deal_party_code b → a ≡ b
deal_party_code_injective a b h = ground arith

instance abbrev pub deal_party_enum : Enum DealParty
deal_party_enum = record { code = deal_party_code; code_injective = deal_party_code_injective }

pub data ContractEventType : Type 0 where
  created version_created sent_for_signature signed fully_executed voided : ContractEventType

pub record Contract : Type 0 where
  pub deal_id : ℕ
  pub brand_id : ℕ
  pub creator_id : ℕ
  pub status : AgreementStatus
  pub executed_at : Option ℕ
  pub voided_at : Option ℕ
  pub void_reason : Option String

pub record ContractVersion : Type 0 where
  pub contract_id : ℕ
  pub version_number : ℕ
  pub content : String
  pub pdf_filename : Option String
  pub created_by_id : ℕ

pub record ContractSignature : Type 0 where
  pub contract_version_id : ℕ
  pub signer_id : ℕ
  pub party : DealParty
  pub signed_name : String
  pub ip_address : Option String

-- The metadata that the services attach to an event.
pub data EventMetadata : Type 0 where
  no_metadata : EventMetadata
  version_number : ℕ → EventMetadata
  party : DealParty → EventMetadata
  reason : Option String → EventMetadata

pub record ContractEvent : Type 0 where
  pub contract_id : ℕ
  pub type : ContractEventType
  pub actor_id : ℕ
  pub metadata : EventMetadata
