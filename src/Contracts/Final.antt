-- ===== src/Contracts/Final.antt =====
-- Executed contracts under the calls of the endpoints (src/contracts).
use collabos_backend.Base.{
  ℕ, ◌≡◌, ◌≢◌, refl, sym, ◌∙◌, ap, inl, inr, Option, some, none, String, List, [], ◌∷◌, Result,
  arith, AuthenticatedUser, Option-cases, one_of, true,
}
use collabos_backend.Prisma.{
  find_unique, create, update, find_unique-update_ne, find_unique-create_ne,
}
use collabos_backend.Schema.Agreements.{
  AgreementStatus, agreement_status_enum, Contract, ContractVersion,
}
use collabos_backend.Contracts.State.{ContractsDb, non_terminal_statuses, latest_version}
use collabos_backend.Schema.Collaboration.{Deal}
use collabos_backend.Contracts.Service.{
  CreateContractDto, NewKeys, create_contract, create_version, send_for_signature, void,
}
use collabos_backend.Contracts.Signatures.{sign}
use collabos_backend.Contracts.Latest.{latest_version-create_other, latest_version-attach_other}
use collabos_backend.Contracts.Operations.{
  send_for_signature_cases, void_cases, create_version_cases, create_version_missing, next_version,
}
use collabos_backend.Contracts.Signing.{
  sign_cases, sign_missing, create_contract_cases, create_contract_missing, first_version,
  new_contract,
}
use collabos_backend.Contracts.Runs.{
  Call, create_call, version_call, send_call, sign_call, void_call, step, run, HasFreshKeys,
  RunHasFreshKeys,
}

module _ (id : ℕ) where
  -- The contract's row and its latest version are as before.
  abbrev pub Untouched : ContractsDb → ContractsDb → Type 0
  Untouched s t =
      (find_unique id t.contracts ≡ find_unique id s.contracts)
      × (latest_version id t.versions ≡ latest_version id s.versions)

  of_same : (s t : ContractsDb) → t ≡ s → Untouched s t
  of_same s t e = rw e (refl, refl)

  module _ (s : ContractsDb) (c : Contract) (found : find_unique id s.contracts ≡ some c)
      (executed : c.status ≡ AgreementStatus.executed) where
    -- A contract whose status passes a guard is another one.
    ne_of_guard :
        (i : ℕ) (d : Contract)
        → find_unique i s.contracts ≡ some d
        → d.status ≢ AgreementStatus.executed
        → id ≢ i
    ne_of_guard i d e h same = h (ground (arith, found, e))

    Untouched-update :
        (t : ContractsDb) (i : ℕ) (f : Contract → Contract)
        → id ≢ i
        → t.contracts ≡ update i f s.contracts
        → latest_version id t.versions ≡ latest_version id s.versions
        → Untouched s t
    Untouched-update t i f ne e same = (rw e (find_unique-update_ne id i f s.contracts ne), same)

    send-Untouched :
        (i : ℕ) (user : AuthenticatedUser) → Untouched s (send_for_signature i user s).1
    send-Untouched i user = elim (send_for_signature_cases i user s) [
      | inl same ↦ of_same s _ same
      | inr (d, e, draft, t) ↦
          Untouched-update (send_for_signature i user s).1 i _
            (ne_of_guard i d e (λ p. ground arith)) t.0 (ap (latest_version id) t.1)
    ]

    void-Untouched :
        (i : ℕ) (user : AuthenticatedUser) (reason : Option String) (now : ℕ)
        → Untouched s (void i user reason now s).1
    void-Untouched i user reason now = elim (void_cases i user reason now s) [
      | inl same ↦ of_same s _ same
      | inr (d, e, guarded, t) ↦
          Untouched-update (void i user reason now s).1 i _ (ne_of_guard i d e (λ p. ground arith))
            t.0 (ap (latest_version id) t.1)
    ]

    sign-Untouched :
        (i : ℕ) (user : AuthenticatedUser) (name : String) (ip : Option String) (key now : ℕ)
        → Untouched s (sign i user name ip key now s).1
    sign-Untouched i user name ip key now = elim (Option-cases (find_unique i s.contracts)) [
      | inl e ↦ of_same s _ (sign_missing i user name ip key now s (inl e))
      | inr (d, e) ↦ elim (Option-cases (latest_version i s.versions)) [
        | inl f ↦ of_same s _ (sign_missing i user name ip key now s (inr f))
        | inr ((j, v), f) ↦ elim (sign_cases i user name ip key now s d j v e f) [
          | inl same ↦ of_same s _ same
          | inr (guarded, unsigned, t) ↦
              Untouched-update (sign i user name ip key now s).1 i _
                (ne_of_guard i d e (λ p. ground arith)) t.0 (ap (latest_version id) t.1)
        ]
      ]
    ]

    create_version-Untouched :
        (generate : ℕ → ℕ → String → Result String) (i key : ℕ) (user : AuthenticatedUser)
        (content : String)
        → find_unique key s.versions ≡ none
        → Untouched s (create_version generate i user content key s).1
    create_version-Untouched generate i key user content free =
        elim (Option-cases (find_unique i s.contracts)) [
          | inl e ↦ of_same s _ (create_version_missing generate i key user content s (inl e))
          | inr (d, e) ↦ elim (Option-cases (latest_version i s.versions)) [
            | inl f ↦ of_same s _ (create_version_missing generate i key user content s (inr f))
            | inr ((j, v), f) ↦
                elim (create_version_cases generate i key user content s d j v e f) [
                  | inl same ↦ of_same s _ same
                  | inr (guarded, inl t) ↦ (
                    ap (find_unique id) t.0,
                    ap (latest_version id) t.1
                        ∙ other i d e guarded (next_version i user content v.version_number) refl,
                  )
                  | inr (guarded, inr t) ↦
                      Untouched-update (create_version generate i user content key s).1 i _
                        (ne_of_guard i d e (λ p. ground arith)) t.0
                        (ap (latest_version id) t.1
                          ∙ latest_version-attach_other id key _
                              (next_version i user content v.version_number) s.versions
                              (λ p. ne_of_guard i d e (λ q. ground arith) (sym p)) free)
                ]
          ]
        ]
      where
        other :
            (i : ℕ) (d : Contract)
            → find_unique i s.contracts ≡ some d
            → one_of non_terminal_statuses d.status ≡ true
            → (v : ContractVersion) → v.contract_id ≡ i
            → latest_version id (create key v s.versions) ≡ latest_version id s.versions
        other i d e guarded v of_i =
            latest_version-create_other id key v s.versions
              (λ p. ne_of_guard i d e (λ q. ground arith) (sym p ∙ of_i))

    create-Untouched :
        (generate : ℕ → ℕ → String → Result String) (user : AuthenticatedUser)
        (dto : CreateContractDto) (keys : NewKeys)
        → find_unique keys.version s.versions ≡ none
        → find_unique keys.contract s.contracts ≡ none
        → Untouched s (create_contract generate user dto keys s).1
    create-Untouched generate user dto keys free new =
        elim (Option-cases (find_unique dto.deal_id s.deals)) [
          | inl e ↦ of_same s _ (create_contract_missing generate user dto keys s e)
          | inr (deal, e) ↦ elim (create_contract_cases generate user dto keys s deal e) [
            | inl same ↦ of_same s _ same
            | inr (inl t) ↦
                (ap (find_unique id) t.0 ∙ kept deal, ap (latest_version id) t.1 ∙ other)
            | inr (inr t) ↦ (
              ap (find_unique id) t.0 ∙ kept deal,
              ap (latest_version id) t.1
                  ∙ latest_version-attach_other id keys.version _
                      (first_version generate user dto keys s) s.versions (λ p. ne (sym p)) free,
            )
          ]
        ]
      where
        ne : id ≢ keys.contract
        ne = λ same. ground (arith, found, new)

        other :
            latest_version id
              (create keys.version (first_version generate user dto keys s) s.versions)
            ≡ latest_version id s.versions
        other =
            latest_version-create_other id keys.version (first_version generate user dto keys s)
              s.versions (λ p. ne (sym p))

        kept :
            (deal : Deal)
            → find_unique id
                (create keys.contract (new_contract generate user dto keys s deal) s.contracts)
              ≡ find_unique id s.contracts
        kept deal =
            find_unique-create_ne id keys.contract (new_contract generate user dto keys s deal)
              s.contracts ne

    -- One call.
    pub step-Untouched_of_executed :
        (generate : ℕ → ℕ → String → Result String) (call : Call)
        → HasFreshKeys generate call s
        → Untouched s (step generate call s)
    unfolding step
    step-Untouched_of_executed generate (create_call user dto keys) fresh =
        create-Untouched generate user dto keys fresh.0 fresh.1
    step-Untouched_of_executed generate (version_call i user content key) fresh =
        create_version-Untouched generate i key user content fresh
    step-Untouched_of_executed generate (send_call i user) fresh = send-Untouched i user
    step-Untouched_of_executed generate (sign_call i user name ip key now) fresh =
        sign-Untouched i user name ip key now
    step-Untouched_of_executed generate (void_call i user reason now) fresh =
        void-Untouched i user reason now

-- Once a contract is executed, no sequence of calls, for whichever contracts, changes its row,
-- gives it another latest version or changes the row of that version, its text and its file's name
-- included. Keys of new rows are not in use.
pub run-Untouched_of_executed :
    (generate : ℕ → ℕ → String → Result String) (cs : List Call) (id : ℕ) (s : ContractsDb)
    (c : Contract)
    → find_unique id s.contracts ≡ some c
    → c.status ≡ AgreementStatus.executed
    → RunHasFreshKeys generate cs s
    → Untouched id s (run generate cs s)
unfolding run
run-Untouched_of_executed generate [] id s c found executed fresh = (refl, refl)
run-Untouched_of_executed generate (call ∷ cs) id s c found executed fresh =
    let now = step-Untouched_of_executed id s c found executed generate call fresh.0 in
    let later =
      run-Untouched_of_executed generate cs id (step generate call s) c (now.0 ∙ found) executed
        fresh.1 in
    (later.0 ∙ now.0, later.1 ∙ now.1)
