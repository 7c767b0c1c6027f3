-- ===== src/Contracts/Examples.antt =====
-- A contract that the brand's owner (10) starts for a deal with a creator (20), sends and signs,
-- and that the creator signs; then an attempt to void it.
use collabos_backend.Base.{
  ℕ, ◌≡◌, refl, is_admin, includes, none, some, String, Result, ok, List, [], ◌∷◌,
  AuthenticatedUser, true,
}
use collabos_backend.Prisma.{find_unique}
use collabos_backend.Schema.Collaboration.{Deal, DealStatus}
use collabos_backend.Schema.Agreements.{AgreementStatus, Contract}
use collabos_backend.Contracts.State.{
  ContractsDb, latest_version, find_entity_or_throw, get_latest_version_entity, assert_participant,
  update_contract, record_event,
}
use collabos_backend.Contracts.Service.{
  create_version_row, assert_mutable, attach_pdf, create_contract, create_version,
  send_for_signature, void,
}
use collabos_backend.Contracts.Signatures.{resolve_party, settle_signature, sign}
use collabos_backend.Contracts.Invariant.{IsSound}
use collabos_backend.Contracts.Runs.{
  Call, create_call, version_call, send_call, sign_call, void_call, step, run, RunHasFreshKeys,
  LatestSignedByBoth, empty_db, empty_db-IsSound, run-IsSound, executed_signed_by_both,
}
use collabos_backend.Contracts.Final.{Untouched, run-Untouched_of_executed}

abbrev user_named : ℕ → AuthenticatedUser
user_named id = record {
  id = id;
  email = "user@example.com";
  is_email_verified = true;
  is_active = true;
  roles = [];
  permissions = [];
}

abbrev deal : Deal
deal = record {
  application_id = 1;
  brief_id = 1;
  brand_id = 1;
  creator_id = 20;
  title = "Summer campaign";
  status = DealStatus.active;
  total_value = some 1000;
  currency = "USD";
  revenue_split_brand = some 60;
  revenue_split_creator = some 40;
  start_date = none;
  end_date = none;
  activated_at = some 1;
  completed_at = none;
  cancelled_at = none;
  cancel_reason = none;
}

abbrev start : ContractsDb
start = record {
  brands = (1, record { owner_id = 10; is_active = true }) ∷ [];
  deals = (5, deal) ∷ [];
  contracts = [];
  versions = [];
  signatures = [];
  events = [];
}

abbrev pdf_named : ℕ → ℕ → String → Result String
pdf_named id number content = ok "contract.pdf"

abbrev calls : List Call
calls =
    create_call (user_named 10) (record { deal_id = 5; content = "Terms" })
      (record { contract = 100; version = 200 })
    ∷ version_call 100 (user_named 20) "Better terms" 201
    ∷ send_call 100 (user_named 10)
    ∷ sign_call 100 (user_named 10) "Brand" none 300 7
    ∷ sign_call 100 (user_named 20) "Creator" none 301 8
    ∷ []

abbrev executed_contract : Contract
executed_contract = record {
  deal_id = 5;
  brand_id = 1;
  creator_id = 20;
  status = AgreementStatus.executed;
  executed_at = some 8;
  voided_at = none;
  void_reason = none;
}

abbrev attempts : List Call
attempts =
    void_call 100 (user_named 10) none 9 ∷ version_call 100 (user_named 20) "Other terms" 202 ∷ []

calls_fresh : RunHasFreshKeys pdf_named calls (empty_db start)
unfolding run step create_contract create_version send_for_signature sign void latest_version
    find_entity_or_throw get_latest_version_entity assert_participant update_contract record_event
    create_version_row assert_mutable attach_pdf resolve_party settle_signature is_admin includes
calls_fresh = ((refl, refl), (refl, (tt, (tt, (tt, tt)))))

calls_executed :
    find_unique 100 (run pdf_named calls (empty_db start)).contracts ≡ some executed_contract
unfolding run step create_contract create_version send_for_signature sign void latest_version
    find_entity_or_throw get_latest_version_entity assert_participant update_contract record_event
    create_version_row assert_mutable attach_pdf resolve_party settle_signature is_admin includes
calls_executed = refl

attempts_fresh : RunHasFreshKeys pdf_named attempts (run pdf_named calls (empty_db start))
unfolding run step create_contract create_version send_for_signature sign void latest_version
    find_entity_or_throw get_latest_version_entity assert_participant update_contract record_event
    create_version_row assert_mutable attach_pdf resolve_party settle_signature is_admin includes
attempts_fresh = (tt, (refl, tt))

executed_signed_by_both_example : LatestSignedByBoth 100 (run pdf_named calls (empty_db start))
executed_signed_by_both_example =
    executed_signed_by_both pdf_named calls start 100 executed_contract calls_fresh calls_executed
      refl

run-IsSound_example : IsSound (run pdf_named calls (empty_db start))
run-IsSound_example =
    run-IsSound pdf_named calls (empty_db start) calls_fresh (empty_db-IsSound start)

run-Untouched_of_executed_example :
    Untouched 100
      (run pdf_named calls (empty_db start))
      (run pdf_named attempts (run pdf_named calls (empty_db start)))
run-Untouched_of_executed_example =
    run-Untouched_of_executed pdf_named attempts 100 (run pdf_named calls (empty_db start))
      executed_contract calls_executed refl attempts_fresh
