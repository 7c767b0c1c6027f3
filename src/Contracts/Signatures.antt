-- ===== src/Contracts/Signatures.antt =====
-- SignaturesService (src/contracts/services/signatures.service.ts).
use collabos_backend.Base.{
  ℕ, ◌&&◌, Option, some, String, List, [], ◌∷◌, ◌==◌, leb, if◌then◌else◌, is_some, Action, ◌>>=◌,
  ◌>>◌, gets, throw, throw_if, modify, pure, AuthenticatedUser, same_user, not, ◌is◌, one_of,
  conflict, forbidden,
}
use collabos_backend.Prisma.{Table, find_first, create, count}
use collabos_backend.Schema.Access.{owns_brand}
use collabos_backend.Schema.Agreements.{
  AgreementStatus, agreement_status_enum, DealParty, deal_party_enum, Contract, ContractSignature,
  ContractEventType, EventMetadata,
}
use collabos_backend.Contracts.State.{
  ContractsDb, find_entity_or_throw, get_latest_version_entity, assert_participant, update_contract,
  record_event,
}

abbrev pub signable_statuses : List AgreementStatus
signable_statuses = AgreementStatus.awaiting_signature ∷ AgreementStatus.partially_signed ∷ []

-- The signature of a party under a version, if it is there.
abbrev pub signature_of : ℕ → DealParty → Table ContractSignature → Option (ℕ × ContractSignature)
signature_of version_id party =
    find_first (λ _ g. g.contract_version_id == version_id && g.party is party)

abbrev pub signature_count : ℕ → Table ContractSignature → ℕ
signature_count version_id = count (λ _ g. g.contract_version_id == version_id)

-- `resolveParty`
unfoldable pub resolve_party : Contract → AuthenticatedUser → Action ContractsDb DealParty
resolve_party contract user = do
  owner ← gets (λ s. owns_brand contract.brand_id user s.brands)
  (if same_user contract.creator_id user
      then pure DealParty.creator
      else (if owner
          then pure DealParty.brand
          else throw (forbidden "Only the brand owner or the creator may sign this contract")))

-- What `sign` does once the signature is stored, by the number of signatures.
unfoldable pub settle_signature :
    ℕ → AuthenticatedUser → DealParty → ℕ → ℕ → Action ContractsDb (Unit {0})
settle_signature contract_id user party signatures now =
    if leb 2 signatures
    then (do
      update_contract contract_id
          λ c. record c { status = AgreementStatus.executed; executed_at = some now }
      record_event contract_id ContractEventType.fully_executed user.id EventMetadata.no_metadata)
    else (do
      update_contract contract_id λ c. record c { status = AgreementStatus.partially_signed }
      record_event contract_id ContractEventType.signed user.id (EventMetadata.party party))

unfoldable pub sign :
    ℕ → AuthenticatedUser → String → Option String → ℕ → ℕ → Action ContractsDb ContractSignature
sign contract_id user signed_name ip_address key now = do
  contract ← find_entity_or_throw contract_id
  assert_participant contract user
  throw_if (not (one_of signable_statuses contract.status))
      (conflict "This contract is not currently awaiting signatures")
  party ← resolve_party contract user
  version ← get_latest_version_entity contract_id
  existing ← gets (λ s. signature_of version.0 party s.signatures)
  throw_if (is_some existing) (conflict "This party has already signed the current version")
  let signature : ContractSignature = record {
    contract_version_id = version.0;
    signer_id = user.id;
    party = party;
    signed_name = signed_name;
    ip_address = ip_address;
  }
  modify (λ s. record s { signatures = create key signature s.signatures })
  signatures ← gets (λ s. signature_count version.0 s.signatures)
  settle_signature contract_id user party signatures now
  pure signature
