-- ===== src/Contracts/Signing.antt =====
-- A signature (SignaturesService.sign) and a new contract (ContractsService.create) keep the
-- invariant.
use collabos_backend.Base.{
  ℕ, suc, ◌≡◌, refl, ap, ◌⊎◌, inl, inr, Option, none, some, String, Result, arith,
  AuthenticatedUser, same_user, Option-cases, zero, Result-cases, one_of, leb, if◌then◌else◌, Bool,
  false, true,
}
use collabos_backend.Prisma.{
  find_unique, create, update, find_unique-update_self, count_of_find_first-none,
}
use collabos_backend.Schema.Collaboration.{Deal}
use collabos_backend.Schema.Agreements.{
  AgreementStatus, agreement_status_enum, Contract, ContractVersion, ContractSignature, DealParty,
}
use collabos_backend.Contracts.State.{
  ContractsDb, latest_version, find_entity_or_throw, get_latest_version_entity, assert_participant,
  update_contract, record_event,
}
use collabos_backend.Contracts.Service.{CreateContractDto, NewKeys, attach_pdf, create_contract}
use collabos_backend.Contracts.Signatures.{
  signable_statuses, signature_of, signature_count, resolve_party, settle_signature, sign,
}
use collabos_backend.Contracts.Latest.{key_and_number, set_pdf}
use collabos_backend.Contracts.Invariant.{
  StatusFits, IsSound, one_more, first_version-IsConsistent, set_pdf-IsConsistent,
  sign-IsConsistent,
}
use collabos_backend.Contracts.Operations.{rendered, Tables, IsSound-Tables, fits_found}

-- The party for which a user signs.
abbrev pub party_of : Contract → AuthenticatedUser → DealParty
party_of c user = if same_user c.creator_id user then DealParty.creator else DealParty.brand

abbrev pub settled : Bool → ℕ → Contract → Contract
settled all now c =
    if all
    then record c { status = AgreementStatus.executed; executed_at = some now }
    else record c { status = AgreementStatus.partially_signed }

-- One signature more, and the status that `sign` gives.
settled_fits :
    (status : AgreementStatus) (n : ℕ)
    → one_of signable_statuses status ≡ true
    → StatusFits status n
    → StatusFits
        (if leb 2 (suc n) then AgreementStatus.executed else AgreementStatus.partially_signed)
        (suc n)
settled_fits AgreementStatus.awaiting_signature n h fit = rw fit (omega arith)
settled_fits AgreementStatus.partially_signed zero h fit = omega arith
settled_fits AgreementStatus.partially_signed (suc zero) h fit = refl
settled_fits AgreementStatus.partially_signed (suc (suc n)) h fit = absurd (omega arith)
settled_fits _ n h fit = absurd (ground arith)

settled_status :
    (all : Bool) (now : ℕ) (c : Contract)
    → (settled all now c).status
      ≡ (if all then AgreementStatus.executed else AgreementStatus.partially_signed)
settled_status true now c = refl
settled_status false now c = refl

settled_fits_by :
    (now n m : ℕ) (c : Contract)
    → m ≡ suc n
    → one_of signable_statuses c.status ≡ true
    → StatusFits c.status n
    → StatusFits (settled (leb 2 m) now c).status (suc n)
settled_fits_by now n m c e signable fit =
    rw (e, settled_status (leb 2 (suc n)) now c) (settled_fits c.status n signable fit)

module _ (id : ℕ) (user : AuthenticatedUser) (signed_name : String) (ip_address : Option String)
    (key now : ℕ) (s : ContractsDb) where
  abbrev pub new_signature : ℕ → Contract → ContractSignature
  new_signature version_id c = record {
    contract_version_id = version_id;
    signer_id = user.id;
    party = party_of c user;
    signed_name = signed_name;
    ip_address = ip_address;
  }

  -- `sign` leaves the tables alone, or stores a signature and settles the status by the count.
  pub sign_cases :
      (c : Contract) (j : ℕ) (v : ContractVersion)
      → find_unique id s.contracts ≡ some c
      → latest_version id s.versions ≡ some (j, v)
      → let t = (sign id user signed_name ip_address key now s).1 in
        let gs = create key (new_signature j c) s.signatures in
        (t ≡ s)
        ⊎ ((one_of signable_statuses c.status ≡ true)
            × (signature_of j (party_of c user) s.signatures ≡ none)
            × Tables t
                (update id (settled (leb 2 (signature_count j gs)) now) s.contracts)
                s.versions
                gs)
  unfolding sign find_entity_or_throw assert_participant update_contract record_event
      get_latest_version_entity resolve_party settle_signature
  sign_cases c j v e f = ground (
    arith,
    find_unique-update_self id (settled true now) s.contracts c,
    find_unique-update_self id (settled false now) s.contracts c,
  )

  pub sign_missing :
      (find_unique id s.contracts ≡ none) ⊎ (latest_version id s.versions ≡ none)
      → (sign id user signed_name ip_address key now s).1 ≡ s
  unfolding sign find_entity_or_throw assert_participant get_latest_version_entity resolve_party
  sign_missing h = ground arith

  pub sign-IsSound : IsSound s → IsSound (sign id user signed_name ip_address key now s).1
  sign-IsSound h = elim (Option-cases (find_unique id s.contracts)) [
    | inl e ↦ rw (sign_missing (inl e)) h
    | inr (c, e) ↦ elim (Option-cases (latest_version id s.versions)) [
      | inl f ↦ rw (sign_missing (inr f)) h
      | inr ((j, v), f) ↦ elim (sign_cases c j v e f) [
        | inl same ↦ rw same h
        | inr (guarded, unsigned, t) ↦
            IsSound-Tables (sign id user signed_name ip_address key now s).1 _ _ _ t (
              sign-IsConsistent h id key j v.version_number _ (new_signature j c) c e
                (ap key_and_number f) refl (count_of_find_first-none _ s.signatures unsigned)
                (settled_fits_by now (signature_count j s.signatures) _ c
                  (one_more j key (new_signature j c) s.signatures refl) guarded
                  (let fit = fits_found id c s h e in rw (ap key_and_number f) at fit)))
      ]
    ]
  ]

-- What `create` stores besides its keys: the contract and its first version.
module _ (generate : ℕ → ℕ → String → Result String) (user : AuthenticatedUser)
    (dto : CreateContractDto) (keys : NewKeys) (s : ContractsDb) where
  abbrev pub new_contract : Deal → Contract
  new_contract deal = record {
    deal_id = dto.deal_id;
    brand_id = deal.brand_id;
    creator_id = deal.creator_id;
    status = AgreementStatus.draft;
    executed_at = none;
    voided_at = none;
    void_reason = none;
  }

  abbrev pub first_version : ContractVersion
  first_version = record {
    contract_id = keys.contract;
    version_number = 1;
    content = dto.content;
    pdf_filename = none;
    created_by_id = user.id;
  }

  -- `create` leaves the tables alone, or stores a draft with one version, whose file's name is
  -- missing if the rendering failed.
  pub create_contract_cases :
      (deal : Deal)
      → find_unique dto.deal_id s.deals ≡ some deal
      → let t = (create_contract generate user dto keys s).1 in
        let cs = create keys.contract (new_contract deal) s.contracts in
        let vs = create keys.version first_version s.versions in
        (t ≡ s)
        ⊎ Tables t cs vs s.signatures
        ⊎ Tables t cs
            (update keys.version (set_pdf (rendered (generate keys.contract 1 dto.content))) vs)
            s.signatures
  unfolding create_contract attach_pdf record_event
  create_contract_cases deal e = elim (Result-cases (generate keys.contract 1 dto.content)) [
    | inl (filename, g) ↦ ground arith
    | inr (x, g) ↦ ground arith
  ]

  pub create_contract_missing :
      find_unique dto.deal_id s.deals ≡ none → (create_contract generate user dto keys s).1 ≡ s
  unfolding create_contract
  create_contract_missing h = ground arith

  pub create_contract-IsSound :
      find_unique keys.version s.versions ≡ none
      → find_unique keys.contract s.contracts ≡ none
      → IsSound s
      → IsSound (create_contract generate user dto keys s).1
  create_contract-IsSound fresh new h = elim (Option-cases (find_unique dto.deal_id s.deals)) [
    | inl e ↦ rw (create_contract_missing e) h
    | inr (deal, e) ↦
        let stored =
          first_version-IsConsistent h keys.contract keys.version first_version (new_contract deal)
            fresh new refl refl in
        elim (create_contract_cases deal e) [
          | inl same ↦ rw same h
          | inr (inl t) ↦ IsSound-Tables (create_contract generate user dto keys s).1 _ _ _ t stored
          | inr (inr t) ↦
              IsSound-Tables (create_contract generate user dto keys s).1 _ _ _ t
                (set_pdf-IsConsistent stored keys.version _)
        ]
  ]
