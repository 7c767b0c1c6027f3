-- ===== src/Contracts/State.antt =====
-- The tables that ContractsService and SignaturesService read and write, and the reads that both
-- share (src/contracts/services/contracts.service.ts).
use collabos_backend.Base.{
  ℕ, not, ◌||◌, Option, none, some, List, [], ◌∷◌, ◌==◌, if◌then◌else◌, leb, Action, ◌>>=◌, ◌>>◌,
  gets, some_or_throw, throw_if, modify, AuthenticatedUser, is_admin, same_user, forbidden,
  not_found, record_not_found,
}
use collabos_backend.Prisma.{Table, find_unique, has_key, update}
use collabos_backend.Schema.Collaboration.{Brand, Deal}
use collabos_backend.Schema.Access.{owns_brand}
use collabos_backend.Schema.Agreements.{
  AgreementStatus, Contract, ContractVersion, ContractSignature, ContractEvent, ContractEventType,
  EventMetadata,
}

pub record ContractsDb : Type 0 where
  pub brands : Table Brand
  pub deals : Table Deal
  pub contracts : Table Contract
  pub versions : Table ContractVersion
  pub signatures : Table ContractSignature
  -- the newest first
  pub events : List ContractEvent

abbrev pub non_terminal_statuses : List AgreementStatus
non_terminal_statuses =
    AgreementStatus.draft ∷ AgreementStatus.awaiting_signature ∷ AgreementStatus.partially_signed
    ∷ []

-- The newer of two versions, by number.
abbrev pub newer : ℕ × ContractVersion → Option (ℕ × ContractVersion) → ℕ × ContractVersion
newer v none = v
newer (k, v) (some (j, w)) = if leb w.version_number v.version_number then (k, v) else (j, w)

-- `findFirst({ where: { contractId }, orderBy: { versionNumber: 'desc' } })`
unfoldable pub latest_version : ℕ → Table ContractVersion → Option (ℕ × ContractVersion)
latest_version id [] = none
latest_version id ((k, v) ∷ t) =
    let rest = latest_version id t in if v.contract_id == id then some (newer (k, v) rest) else rest

unfoldable pub find_entity_or_throw : ℕ → Action ContractsDb Contract
find_entity_or_throw id = do
  found ← gets (λ s. find_unique id s.contracts)
  some_or_throw found (not_found "Contract not found")

unfoldable pub get_latest_version_entity : ℕ → Action ContractsDb (ℕ × ContractVersion)
get_latest_version_entity id = do
  found ← gets (λ s. latest_version id s.versions)
  some_or_throw found (not_found "Contract has no versions")

unfoldable pub assert_participant : Contract → AuthenticatedUser → Action ContractsDb (Unit {0})
assert_participant contract user = do
  owner ← gets (λ s. owns_brand contract.brand_id user s.brands)
  throw_if (not (same_user contract.creator_id user || is_admin user || owner))
      (forbidden "You do not have access to this contract")

-- `prisma.contract.update`, which gives the row back.
unfoldable pub update_contract : ℕ → (Contract → Contract) → Action ContractsDb Contract
update_contract id f = do
  throw_if (not (← gets (λ s. has_key id s.contracts))) record_not_found
  modify (λ s. record s { contracts = update id f s.contracts })
  found ← gets (λ s. find_unique id s.contracts)
  some_or_throw found record_not_found

-- `ContractEventsService.record`
unfoldable pub record_event :
    ℕ → ContractEventType → ℕ → EventMetadata → Action ContractsDb (Unit {0})
record_event id type actor metadata = modify λ s. record s {
  events =
      record { contract_id = id; type = type; actor_id = actor; metadata = metadata } ∷ s.events;
}
