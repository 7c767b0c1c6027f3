-- ===== src/Contracts/Runs.antt =====
-- Sequences of calls of the contract endpoints.
use collabos_backend.Base.{
  ℕ, ◌+◌, ◌≡◌, refl, Option, some, none, String, Result, List, [], ◌∷◌, arith, AuthenticatedUser,
  is_some, true,
}
use collabos_backend.Prisma.{Table, find_unique, find_first_of_count_pos}
use collabos_backend.Schema.Agreements.{
  AgreementStatus, agreement_status_enum, Contract, DealParty, ContractSignature,
}
use collabos_backend.Contracts.State.{ContractsDb, latest_version}
use collabos_backend.Contracts.Service.{
  CreateContractDto, NewKeys, create_contract, create_version, send_for_signature, void,
}
use collabos_backend.Contracts.Signatures.{signature_of, signature_count, sign}
use collabos_backend.Contracts.Latest.{latest_key}
use collabos_backend.Contracts.Invariant.{IsSound, LatestFits, party_count}
use collabos_backend.Contracts.Operations.{
  send_for_signature-IsSound, void-IsSound, create_version-IsSound, fits_found,
}
use collabos_backend.Contracts.Signing.{sign-IsSound, create_contract-IsSound}

-- A call with its caller, its body, the keys of the rows that it may insert and its time.
pub data Call : Type 0 where
  create_call : AuthenticatedUser → CreateContractDto → NewKeys → Call
  version_call : ℕ → AuthenticatedUser → String → ℕ → Call
  send_call : ℕ → AuthenticatedUser → Call
  sign_call : ℕ → AuthenticatedUser → String → Option String → ℕ → ℕ → Call
  void_call : ℕ → AuthenticatedUser → Option String → ℕ → Call

module _ (generate : ℕ → ℕ → String → Result String) where
  -- The tables after a call, which may throw.
  unfoldable pub step : Call → ContractsDb → ContractsDb
  step (create_call user dto keys) s = (create_contract generate user dto keys s).1
  step (version_call id user content key) s = (create_version generate id user content key s).1
  step (send_call id user) s = (send_for_signature id user s).1
  step (sign_call id user name ip key now) s = (sign id user name ip key now s).1
  step (void_call id user reason now) s = (void id user reason now s).1

  unfoldable pub run : List Call → ContractsDb → ContractsDb
  unfolding step
  run [] s = s
  run (c ∷ cs) s = run cs (step c s)

  -- The database hands out keys that it has not used.
  abbrev pub HasFreshKeys : Call → ContractsDb → Type 0
  HasFreshKeys (create_call user dto keys) s =
      (find_unique keys.version s.versions ≡ none) × (find_unique keys.contract s.contracts ≡ none)
  HasFreshKeys (version_call id user content key) s = find_unique key s.versions ≡ none
  HasFreshKeys _ s = Unit

  abbrev pub RunHasFreshKeys : List Call → ContractsDb → Type 0
  RunHasFreshKeys [] s = Unit
  RunHasFreshKeys (c ∷ cs) s = HasFreshKeys c s × RunHasFreshKeys cs (step c s)

  pub step-IsSound :
      (c : Call) (s : ContractsDb) → HasFreshKeys c s → IsSound s → IsSound (step c s)
  unfolding step
  step-IsSound (create_call user dto keys) s fresh h =
      create_contract-IsSound generate user dto keys s fresh.0 fresh.1 h
  step-IsSound (version_call id user content key) s fresh h =
      create_version-IsSound generate id key user content s fresh h
  step-IsSound (send_call id user) s fresh h = send_for_signature-IsSound id user s h
  step-IsSound (sign_call id user name ip key now) s fresh h =
      sign-IsSound id user name ip key now s h
  step-IsSound (void_call id user reason now) s fresh h = void-IsSound id user reason now s h

  -- Every sequence of calls, refused ones included, keeps the invariant: at most one signature
  -- of each party under a version, and as many under the latest one as the status allows.
  pub run-IsSound :
      (cs : List Call) (s : ContractsDb) → RunHasFreshKeys cs s → IsSound s → IsSound (run cs s)
  unfolding run
  run-IsSound [] s fresh h = h
  run-IsSound (c ∷ cs) s fresh h = run-IsSound cs (step c s) fresh.1 (step-IsSound c s fresh.0 h)

abbrev pub empty_db : ContractsDb → ContractsDb
empty_db s = record s { contracts = []; versions = []; signatures = [] }

pub empty_db-IsSound : (s : ContractsDb) → IsSound (empty_db s)
unfolding latest_version
empty_db-IsSound s = record {
  keyed = tt;
  referenced = λ k h. refl;
  owned = λ id h. refl;
  once = λ k party. omega arith;
  fits = λ id. tt;
}

party_total :
    (k : ℕ) (gs : Table ContractSignature)
    → signature_count k gs ≡ party_count k DealParty.brand gs + party_count k DealParty.creator gs
party_total k [] = omega arith
party_total k ((j, g) ∷ gs) = ground (arith, party_total k gs)

both_signed :
    (k : ℕ) (s : ContractsDb)
    → IsSound s
    → signature_count k s.signatures ≡ 2
    → (is_some (signature_of k DealParty.brand s.signatures) ≡ true)
      × (is_some (signature_of k DealParty.creator s.signatures) ≡ true)
both_signed k s h two = (
  find_first_of_count_pos _ s.signatures
      (omega (arith, party_total k s.signatures, h.once k DealParty.creator)),
  find_first_of_count_pos _ s.signatures
      (omega (arith, party_total k s.signatures, h.once k DealParty.brand)),
)

-- The contract has a latest version, and both parties have signed it.
abbrev pub LatestSignedByBoth : ℕ → ContractsDb → Type 0
LatestSignedByBoth id t =
    (k : ℕ) × (n : ℕ) × (latest_key id t.versions ≡ some (k, n))
    × (is_some (signature_of k DealParty.brand t.signatures) ≡ true)
    × (is_some (signature_of k DealParty.creator t.signatures) ≡ true)

-- After any sequence of calls on a database without contracts, an executed contract has a latest
-- version, and that version is signed by both the brand and the creator.
pub executed_signed_by_both :
    (generate : ℕ → ℕ → String → Result String) (cs : List Call) (s : ContractsDb) (id : ℕ)
    (c : Contract)
    → RunHasFreshKeys generate cs (empty_db s)
    → find_unique id (run generate cs (empty_db s)).contracts ≡ some c
    → c.status ≡ AgreementStatus.executed
    → LatestSignedByBoth id (run generate cs (empty_db s))
executed_signed_by_both generate cs s id c fresh found executed =
    signed (latest_key id t.versions) refl (rw executed at (fits_found id c t sound found))
  where
    t : ContractsDb
    t = run generate cs (empty_db s)

    sound : IsSound t
    sound = run-IsSound generate cs (empty_db s) fresh (empty_db-IsSound s)

    signed :
        (latest : Option (ℕ × ℕ))
        → latest_key id t.versions ≡ latest
        → LatestFits AgreementStatus.executed latest t.signatures
        → LatestSignedByBoth id t
    signed none e fit = absurd fit
    signed (some (k, n)) e fit =
        (k, n, e, (both_signed k t sound fit).0, (both_signed k t sound fit).1)
