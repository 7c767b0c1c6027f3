-- ===== src/Payments/Examples.antt =====
-- A payment of 1000 for a deal with a share of 10 percent for the platform: it is created, charged,
-- released to the creator (20), and neither released again nor refunded.
use collabos_backend.Base.{
  is_admin, includes, same_text, false, ℕ, ◌≡◌, refl, arith, none, some, String, Result, ok, List,
  [], ◌∷◌, AuthenticatedUser, true,
}
use collabos_backend.Schema.Collaboration.{Deal, DealStatus}
use collabos_backend.Schema.Money.{
  Payment, PaymentStatus, PaymentSplit, SplitStatus, ConnectAccountStatus, ConnectedAccount,
}
use collabos_backend.Payments.State.{
  find_entity_or_throw, PaymentsDb, Transfer, update_payment, record_transaction,
}
use collabos_backend.Payments.Service.{
  create_for_deal, platform_fee, NewKeys, PaymentParams, Intent, create_payment,
}
use collabos_backend.Prisma.{find_unique}
use collabos_backend.Payments.Release.{
  refund, refund_unreleased, write_refund, any_released, release, assert_fulfilled, release_splits,
}
use collabos_backend.Payments.Webhook.{
  handle, verify, StripeEvent, StripeObject, handle_event, process_event, is_logged, log_event,
  handle_payment_succeeded, succeeded_found, charge, enqueue, schedule_dispatch,
}
use collabos_backend.Payments.Calls.{
  step, was_refunded, Call, pay_deal_call, release_call, refund_call, webhook_call, run,
  RunHasFreshKeys,
}
use collabos_backend.Payments.Fees.{split_total, create_payment-split_total}
use collabos_backend.Payments.Idempotence.{redelivery_changes_nothing}
use collabos_backend.Payments.Escrow.Allowance.{transferred, IsEscrow}
use collabos_backend.Payments.Escrow.Safety.{refunded_never_transferred, run-IsEscrow}

abbrev user_with : ℕ → List String → AuthenticatedUser
user_with id roles = record {
  id = id;
  email = "user@example.com";
  is_email_verified = true;
  is_active = true;
  roles = roles;
  permissions = [];
}

abbrev deal : Deal
deal = record {
  application_id = 1;
  brief_id = 1;
  brand_id = 1;
  creator_id = 20;
  title = "Summer campaign";
  status = DealStatus.active;
  total_value = some 1000;
  currency = "USD";
  revenue_split_brand = some 60;
  revenue_split_creator = some 40;
  start_date = none;
  end_date = none;
  activated_at = some 1;
  completed_at = none;
  cancelled_at = none;
  cancel_reason = none;
}

abbrev account : ConnectedAccount
account = record {
  user_id = 20;
  status = ConnectAccountStatus.active;
  stripe_account_id = 77;
  charges_enabled = true;
  payouts_enabled = true;
  details_submitted = true;
}

abbrev start : PaymentsDb
start = record {
  brands = (1, record { owner_id = 10; is_active = true }) ∷ [];
  orders = [];
  deals = (5, deal) ∷ [];
  payments = [];
  splits = [];
  accounts = (1, account) ∷ [];
  transactions = [];
  webhook_events = [];
  outbox = [];
  transfers = [];
  stripe_refunds = [];
  jobs = [];
}

abbrev keys : NewKeys
keys = record { payment = 100; fee_split = 200; recipient_split = 201 }

abbrev intent : Intent
intent = record { id = 500; client_secret = some "secret" }

abbrev create_intent : ℕ → String → Result Intent
create_intent amount currency = ok intent

abbrev create_transfer : Transfer → Result ℕ
create_transfer transfer = ok 900

abbrev create_refund : ℕ → Result ℕ
create_refund payment_intent = ok 901

abbrev charged : StripeEvent
charged = record { id = 1; object = StripeObject.payment_succeeded 500 }

abbrev construct_event : String → String → Result StripeEvent
construct_event body signature = ok charged

abbrev calls : List Call
calls =
    pay_deal_call 10 create_intent keys 5 (user_with 10 [])
    ∷ webhook_call construct_event true 300 "" (some "signature")
    ∷ release_call create_transfer 100 (user_with 1 ("ADMIN" ∷ [])) 9
    ∷ release_call create_transfer 100 (user_with 1 ("ADMIN" ∷ [])) 10
    ∷ refund_call create_refund 100 (user_with 10 [])
    ∷ []

abbrev params : PaymentParams
params = record {
  payer_id = 10;
  amount = 1000;
  currency = "USD";
  order_id = none;
  deal_id = some 5;
  recipient_user_id = 20;
}

start-IsEscrow : IsEscrow start
start-IsEscrow = record { distinct = tt; within = λ k. omega arith; exclusive = λ k. refl }

calls_fresh : RunHasFreshKeys calls start
calls_fresh = (
  record {
    fee_unused = refl;
    recipient_unused = refl;
    different = λ e. omega arith;
    never_refunded = refl;
  },
  (tt, (tt, (tt, (tt, tt)))),
)

run-IsEscrow_example : IsEscrow (run calls start)
run-IsEscrow_example = run-IsEscrow calls start calls_fresh start-IsEscrow

create_payment-split_total_example :
    (p : Payment) × ((create_payment 10 create_intent keys params start).0 ≡ ok p)
    × (find_unique 100 (create_payment 10 create_intent keys params start).1.payments ≡ some p)
    × (split_total 100 (create_payment 10 create_intent keys params start).1.splits ≡ p.amount)
    × (p.amount ≡ 1000)
    × (p.payer_id ≡ 10)
    × (p.currency ≡ "USD")
    × (p.status ≡ PaymentStatus.requires_payment)
create_payment-split_total_example =
    create_payment-split_total 10 create_intent keys params start intent (omega arith) refl refl
      refl

abbrev funded : PaymentsDb
funded = (create_payment 10 create_intent keys params start).1

charged_ok : (handle_event true 300 charged funded).0 ≡ ok tt
unfolding handle_event process_event is_logged log_event handle_payment_succeeded succeeded_found
    charge create_payment platform_fee update_payment enqueue schedule_dispatch record_transaction
charged_ok = refl

redelivery_changes_nothing_example :
    handle_event true 301 charged (handle_event true 300 charged funded).1
    ≡ (ok tt, (handle_event true 300 charged funded).1)
redelivery_changes_nothing_example =
    redelivery_changes_nothing true 300 301 charged funded charged_ok

-- The same payment, refunded before it is released; the release is then refused.
abbrev refund_calls : List Call
refund_calls =
    pay_deal_call 10 create_intent keys 5 (user_with 10 [])
    ∷ webhook_call construct_event true 300 "" (some "signature")
    ∷ refund_call create_refund 100 (user_with 10 [])
    ∷ release_call create_transfer 100 (user_with 1 ("ADMIN" ∷ [])) 9
    ∷ []

abbrev refunded_split : PaymentSplit
refunded_split = record {
  payment_id = 100;
  recipient_user_id = some 20;
  is_platform_fee = false;
  amount = 900;
  status = SplitStatus.refunded;
  stripe_transfer_id = none;
  released_at = none;
}

refund_calls_fresh : RunHasFreshKeys refund_calls start
refund_calls_fresh = (
  record {
    fee_unused = refl;
    recipient_unused = refl;
    different = λ e. omega arith;
    never_refunded = refl;
  },
  (tt, (tt, (tt, tt))),
)

split_found : find_unique 201 (run refund_calls start).splits ≡ some refunded_split
unfolding run step create_for_deal create_payment platform_fee handle verify handle_event
    process_event is_logged log_event handle_payment_succeeded succeeded_found charge update_payment
    enqueue schedule_dispatch record_transaction refund refund_unreleased write_refund any_released
    find_entity_or_throw release is_admin includes same_text assert_fulfilled release_splits
split_found = refl

refund_made : was_refunded 100 (run refund_calls start).stripe_refunds ≡ true
unfolding run step create_for_deal create_payment platform_fee handle verify handle_event
    process_event is_logged log_event handle_payment_succeeded succeeded_found charge update_payment
    enqueue schedule_dispatch record_transaction refund refund_unreleased write_refund any_released
    find_entity_or_throw release is_admin includes same_text assert_fulfilled release_splits
refund_made = refl

refunded_never_transferred_example : transferred 201 (run refund_calls start).transfers ≡ 0
refunded_never_transferred_example =
    refunded_never_transferred refund_calls start 201 refunded_split refund_calls_fresh
      start-IsEscrow split_found refund_made
