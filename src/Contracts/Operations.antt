-- ===== src/Contracts/Operations.antt =====
-- The invariant under the operations of ContractsService (src/contracts/services).
use collabos_backend.Base.{
  ℕ, ◌+◌, ◌≡◌, refl, sym, ap, subst, ◌∙◌, ◌⊎◌, inl, inr, Option, none, some, String, Result, ok,
  err, arith, AuthenticatedUser, Option-cases, Result-cases, one_of, true,
}
use collabos_backend.Prisma.{Table, find_unique, create, update, find_unique-update_self}
use collabos_backend.Schema.Agreements.{
  AgreementStatus, agreement_status_enum, Contract, ContractVersion, ContractSignature,
}
use collabos_backend.Contracts.State.{
  ContractsDb, non_terminal_statuses, latest_version, find_entity_or_throw,
  get_latest_version_entity, assert_participant, update_contract, record_event,
}
use collabos_backend.Contracts.Service.{
  create_version_row, assert_mutable, attach_pdf, create_version, send_for_signature, void,
}
use collabos_backend.Contracts.Signatures.{signature_count}
use collabos_backend.Contracts.Latest.{
  key_and_number, latest_key, latest_key-update, latest_key-create_next, set_pdf,
}
use collabos_backend.Contracts.Invariant.{
  StatusFits, LatestFits, IsConsistent, IsSound, set_contract-IsConsistent,
  next_version-IsConsistent, set_pdf-IsConsistent,
}

-- The three tables are as given.
abbrev pub Tables :
    ContractsDb → Table Contract → Table ContractVersion → Table ContractSignature → Type 0
Tables t cs vs gs = (t.contracts ≡ cs) × (t.versions ≡ vs) × (t.signatures ≡ gs)

pub IsSound-Tables :
    (t : ContractsDb) (cs : Table Contract) (vs : Table ContractVersion)
    (gs : Table ContractSignature)
    → Tables t cs vs gs
    → IsConsistent cs vs gs
    → IsSound t
IsSound-Tables t cs vs gs (e, f, g) h = rw (e, f, g) h

abbrev pub to_status : AgreementStatus → Contract → Contract
to_status status c = record c { status = status }

abbrev pub to_voided : Option String → ℕ → Contract → Contract
to_voided reason now c = record c {
  status = AgreementStatus.voided;
  voided_at = some now;
  void_reason = reason;
}

-- `sendForSignature` leaves the tables alone or moves one draft to `AWAITING_SIGNATURE`.
pub send_for_signature_cases :
    (id : ℕ) (user : AuthenticatedUser) (s : ContractsDb)
    → let t = (send_for_signature id user s).1 in
      (t ≡ s)
      ⊎ ((c : Contract) × (find_unique id s.contracts ≡ some c)
          × (c.status ≡ AgreementStatus.draft)
          × Tables t
              (update id (to_status AgreementStatus.awaiting_signature) s.contracts)
              s.versions
              s.signatures)
unfolding send_for_signature find_entity_or_throw assert_participant update_contract record_event
    get_latest_version_entity
send_for_signature_cases id user s = elim (Option-cases (find_unique id s.contracts)) [
  | inl e ↦ inl (ground arith)
  | inr (c, e) ↦ ground (
    arith,
    find_unique-update_self id (to_status AgreementStatus.awaiting_signature) s.contracts c,
  )
]

-- `void` leaves the tables alone or voids one contract.
pub void_cases :
    (id : ℕ) (user : AuthenticatedUser) (reason : Option String) (now : ℕ) (s : ContractsDb)
    → let t = (void id user reason now s).1 in
      (t ≡ s)
      ⊎ ((c : Contract) × (find_unique id s.contracts ≡ some c)
          × (one_of non_terminal_statuses c.status ≡ true)
          × Tables t (update id (to_voided reason now) s.contracts) s.versions s.signatures)
unfolding void find_entity_or_throw assert_participant update_contract record_event
    get_latest_version_entity
void_cases id user reason now s = elim (Option-cases (find_unique id s.contracts)) [
  | inl e ↦ inl (ground arith)
  | inr (c, e) ↦ ground (arith, find_unique-update_self id (to_voided reason now) s.contracts c)
]

-- What the invariant says of a contract that was found.
pub fits_found :
    (id : ℕ) (c : Contract) (s : ContractsDb)
    → IsSound s
    → find_unique id s.contracts ≡ some c
    → LatestFits c.status (latest_key id s.versions) s.signatures
fits_found id c s h e = let fit = h.fits id in rw e at fit

-- A status may be replaced by one that allows as many signatures.
pub refit :
    (a b : AgreementStatus) (latest : Option (ℕ × ℕ)) (gs : Table ContractSignature)
    → ((n : ℕ) → StatusFits a n → StatusFits b n)
    → LatestFits a latest gs
    → LatestFits b latest gs
refit a b none gs weaken fit = fit
refit a b (some (k, n)) gs weaken fit = weaken (signature_count k gs) fit

pub send_for_signature-IsSound :
    (id : ℕ) (user : AuthenticatedUser) (s : ContractsDb)
    → IsSound s
    → IsSound (send_for_signature id user s).1
send_for_signature-IsSound id user s h = elim (send_for_signature_cases id user s) [
  | inl same ↦ rw same h
  | inr (c, e, draft, t) ↦ IsSound-Tables (send_for_signature id user s).1 _ _ _ t (
      set_contract-IsConsistent h id _ c e (
        refit c.status AgreementStatus.awaiting_signature _ _ (λ n fit. rw draft at fit)
          (fits_found id c s h e)))
]

pub void-IsSound :
    (id : ℕ) (user : AuthenticatedUser) (reason : Option String) (now : ℕ) (s : ContractsDb)
    → IsSound s
    → IsSound (void id user reason now s).1
void-IsSound id user reason now s h = elim (void_cases id user reason now s) [
  | inl same ↦ rw same h
  | inr (c, e, guarded, t) ↦ IsSound-Tables (void id user reason now s).1 _ _ _ t (
      set_contract-IsConsistent h id _ c e
        (refit c.status AgreementStatus.voided _ _ (λ n fit. tt) (fits_found id c s h e)))
]

-- The version that `createVersion` stores.
abbrev pub next_version : ℕ → AuthenticatedUser → String → ℕ → ContractVersion
next_version id user content n = record {
  contract_id = id;
  version_number = n + 1;
  content = content;
  pdf_filename = none;
  created_by_id = user.id;
}

abbrev pub rendered : Result String → Option String
rendered (ok filename) = some filename
rendered (err _) = none

module _ (generate : ℕ → ℕ → String → Result String) (id key : ℕ) (user : AuthenticatedUser)
    (content : String) (s : ContractsDb) where
  -- `createVersion` leaves the tables alone, stores the version and stops as the rendering
  -- fails, or stores it with its file and moves the contract back to `DRAFT`.
  pub create_version_cases :
      (c : Contract) (j : ℕ) (v : ContractVersion)
      → find_unique id s.contracts ≡ some c
      → latest_version id s.versions ≡ some (j, v)
      → let t = (create_version generate id user content key s).1 in
        let vs = create key (next_version id user content v.version_number) s.versions in
        (t ≡ s)
        ⊎ ((one_of non_terminal_statuses c.status ≡ true)
            × (Tables t s.contracts vs s.signatures
                ⊎ Tables t
                    (update id (to_status AgreementStatus.draft) s.contracts)
                    (update key
                      (set_pdf (rendered (generate id (v.version_number + 1) content)))
                      vs)
                    s.signatures))
  unfolding create_version find_entity_or_throw assert_participant update_contract record_event
      get_latest_version_entity assert_mutable create_version_row attach_pdf
  create_version_cases c j v e f =
      elim (Result-cases (generate id (v.version_number + 1) content)) [
        | inl (filename, g) ↦
            ground
              (arith, find_unique-update_self id (to_status AgreementStatus.draft) s.contracts c)
        | inr (x, g) ↦ ground arith
      ]

  pub create_version_missing :
      (find_unique id s.contracts ≡ none) ⊎ (latest_version id s.versions ≡ none)
      → (create_version generate id user content key s).1 ≡ s
  unfolding create_version find_entity_or_throw assert_participant get_latest_version_entity
      assert_mutable
  create_version_missing h = ground arith

  -- The next version is stored under a key that the database has not used.
  pub create_version-IsSound :
      find_unique key s.versions ≡ none
      → IsSound s
      → IsSound (create_version generate id user content key s).1
  create_version-IsSound fresh h = elim (Option-cases (find_unique id s.contracts)) [
    | inl e ↦ rw (create_version_missing (inl e)) h
    | inr (c, e) ↦ elim (Option-cases (latest_version id s.versions)) [
      | inl f ↦ rw (create_version_missing (inr f)) h
      | inr ((j, v), f) ↦ elim (create_version_cases c j v e f) [
        | inl same ↦ rw same h
        | inr (guarded, inl t) ↦
            IsSound-Tables (create_version generate id user content key s).1 _ _ _ t
              (stored c j v e f guarded)
        | inr (guarded, inr t) ↦
            IsSound-Tables (create_version generate id user content key s).1 _ _ _ t (
              set_contract-IsConsistent (set_pdf-IsConsistent (stored c j v e f guarded) key _) id _
                c e
                (subst (λ l. LatestFits AgreementStatus.draft l s.signatures)
                  (sym (
                    latest_key-update id key _ _
                    ∙ latest_key-create_next id key _ s.versions j v.version_number refl
                        (ap key_and_number f) refl))
                  (h.referenced key fresh)))
      ]
    ]
  ]
    where
      stored :
          (c : Contract) (j : ℕ) (v : ContractVersion)
          → find_unique id s.contracts ≡ some c
          → latest_version id s.versions ≡ some (j, v)
          → one_of non_terminal_statuses c.status ≡ true
          → IsConsistent s.contracts
              (create key (next_version id user content v.version_number) s.versions)
              s.signatures
      stored c j v e f guarded =
          next_version-IsConsistent h id key j v.version_number _ c fresh e (ap key_and_number f)
            (λ p. ground arith) refl refl
