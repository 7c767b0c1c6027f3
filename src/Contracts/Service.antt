-- ===== src/Contracts/Service.antt =====
-- ContractsService (src/contracts/services/contracts.service.ts): the operations that write.
-- `generate` is ContractPdfService.generate, which renders a file and returns its name, or fails.
-- The keys of new rows come from the database, the time from the clock.
use collabos_backend.Base.{
  ℕ, ◌+◌, not, ◌&&◌, Option, none, some, String, ◌==◌, is_some, Action, Result, ◌>>=◌, ◌>>◌, gets,
  some_or_throw, throw_if, modify, pure, lift, AuthenticatedUser, is_admin, ◌is◌, one_of, conflict,
  forbidden, not_found, record_not_found, unique_violation,
}
use collabos_backend.Prisma.{find_unique, find_first, has_key, create, update}
use collabos_backend.Schema.Collaboration.{DealStatus, deal_status_enum}
use collabos_backend.Schema.Access.{owns_brand}
use collabos_backend.Schema.Agreements.{
  AgreementStatus, agreement_status_enum, Contract, ContractVersion, ContractEventType,
  EventMetadata,
}
use collabos_backend.Contracts.State.{
  ContractsDb, non_terminal_statuses, find_entity_or_throw, get_latest_version_entity,
  assert_participant, update_contract, record_event,
}

pub record CreateContractDto : Type 0 where
  pub deal_id : ℕ
  pub content : String

-- The key of a new contract and of its new version.
pub record NewKeys : Type 0 where
  pub contract : ℕ
  pub version : ℕ

-- The insertion of a version, under the unique index on (contractId, versionNumber).
unfoldable pub create_version_row : ℕ → ContractVersion → Action ContractsDb (Unit {0})
create_version_row key v = do
  taken ← gets λ s.
      find_first (λ _ w. w.contract_id == v.contract_id && w.version_number == v.version_number)
        s.versions
  throw_if (is_some taken) unique_violation
  modify (λ s. record s { versions = create key v s.versions })

-- `assertMutable`
unfoldable pub assert_mutable : AgreementStatus → Action ContractsDb (Unit {0})
assert_mutable status =
    throw_if (not (one_of non_terminal_statuses status))
      (conflict "This contract can no longer be modified")

module _ (generate : ℕ → ℕ → String → Result String) where
  -- `attachPdf`
  unfoldable pub attach_pdf : ℕ → ℕ → ContractVersion → Action ContractsDb (Unit {0})
  attach_pdf contract_id key version = do
    filename ← lift (generate contract_id version.version_number version.content)
    throw_if (not (← gets (λ s. has_key key s.versions))) record_not_found
    modify λ s. record s {
      versions = update key (λ v. record v { pdf_filename = some filename }) s.versions;
    }

  -- `create`
  unfoldable pub create_contract :
      AuthenticatedUser → CreateContractDto → NewKeys → Action ContractsDb (Contract × ℕ)
  create_contract user dto keys = do
    found ← gets (λ s. find_unique dto.deal_id s.deals)
    deal ← some_or_throw found (not_found "Deal not found")
    throw_if (not (deal.status is DealStatus.active))
        (conflict "A contract can only be created for an active deal")
    existing ← gets (λ s. find_first (λ _ c. c.deal_id == dto.deal_id) s.contracts)
    throw_if (is_some existing) (conflict "A contract already exists for this deal")
    is_brand_owner ← gets (λ s. owns_brand deal.brand_id user s.brands)
    throw_if (not is_brand_owner && not (is_admin user))
        (forbidden "Only the brand owner can initiate a contract for this deal")
    let contract : Contract = record {
      deal_id = dto.deal_id;
      brand_id = deal.brand_id;
      creator_id = deal.creator_id;
      status = AgreementStatus.draft;
      executed_at = none;
      voided_at = none;
      void_reason = none;
    }
    let version : ContractVersion = record {
      contract_id = keys.contract;
      version_number = 1;
      content = dto.content;
      pdf_filename = none;
      created_by_id = user.id;
    }
    modify λ s. record s {
      contracts = create keys.contract contract s.contracts;
      versions = create keys.version version s.versions;
    }
    attach_pdf keys.contract keys.version version
    record_event keys.contract ContractEventType.created user.id EventMetadata.no_metadata
    record_event keys.contract ContractEventType.version_created user.id
        (EventMetadata.version_number 1)
    pure (contract, 1)

  -- `createVersion`
  unfoldable pub create_version :
      ℕ → AuthenticatedUser → String → ℕ → Action ContractsDb (Contract × ℕ)
  create_version contract_id user content key = do
    contract ← find_entity_or_throw contract_id
    assert_participant contract user
    assert_mutable contract.status
    latest ← get_latest_version_entity contract_id
    let next_version_number = latest.1.version_number + 1
    let version : ContractVersion = record {
      contract_id = contract_id;
      version_number = next_version_number;
      content = content;
      pdf_filename = none;
      created_by_id = user.id;
    }
    create_version_row key version
    attach_pdf contract_id key version
    updated ← update_contract contract_id (λ c. record c { status = AgreementStatus.draft })
    record_event contract_id ContractEventType.version_created user.id
        (EventMetadata.version_number next_version_number)
    pure (updated, next_version_number)

-- `sendForSignature`
unfoldable pub send_for_signature : ℕ → AuthenticatedUser → Action ContractsDb (Contract × ℕ)
send_for_signature id user = do
  contract ← find_entity_or_throw id
  assert_participant contract user
  throw_if (not (contract.status is AgreementStatus.draft))
      (conflict "Only draft contracts can be sent for signature")
  updated ← update_contract id (λ c. record c { status = AgreementStatus.awaiting_signature })
  record_event id ContractEventType.sent_for_signature user.id EventMetadata.no_metadata
  latest ← get_latest_version_entity id
  pure (updated, latest.1.version_number)

-- `void`
unfoldable pub void : ℕ → AuthenticatedUser → Option String → ℕ → Action ContractsDb (Contract × ℕ)
void id user reason now = do
  contract ← find_entity_or_throw id
  assert_participant contract user
  throw_if (not (one_of non_terminal_statuses contract.status))
      (conflict "This contract can no longer be voided")
  updated ←
      update_contract id λ c. record c {
        status = AgreementStatus.voided;
        voided_at = some now;
        void_reason = reason;
      }
  record_event id ContractEventType.voided user.id (EventMetadata.reason reason)
  latest ← get_latest_version_entity id
  pure (updated, latest.1.version_number)
