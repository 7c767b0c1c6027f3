-- ===== src/Payments/Webhook.antt =====
-- The Stripe webhook of the payments (src/payments/services/webhook.service.ts) with the account
-- state it copies (ConnectService in src/payments/services/connect.service.ts) and the outbox row
-- it queues (src/events/outbox.service.ts, src/events/outbox-publisher.service.ts).
-- `construct_event` is Stripe's check of the signature, `acquired` is whether Redis gave the lock.
use text.Mathlib.Text.{◌==◌ as str_eq}
use collabos_backend.Base.{
  ℕ, pos, neg_ℤ, ◌&&◌, ◌||◌, not, Option, none, some, String, List, [], ◌∷◌, ◌==◌, Bool, false,
  if◌then◌else◌, Action, Result, ok, err, ◌>>=◌, ◌>>◌, gets, modify, pure, lift, transaction, ◌is◌,
  unauthorized,
}
use collabos_backend.Prisma.{Table, find_first, create}
use collabos_backend.Schema.Money.{
  ConnectAccountStatus, ConnectedAccount, Payment, PaymentStatus, payment_status_enum,
  TransactionType, WebhookEvent, OutboxEventStatus,
}
use collabos_backend.Payments.State.{
  PaymentsDb, OutboxEvent, record_transaction, update_payment, update_account,
}
use collabos_backend.Payments.Release.{set_status}

-- What the webhook reads of a Stripe account.
pub record StripeAccount : Type 0 where
  pub id : ℕ
  pub charges_enabled : Bool
  pub payouts_enabled : Bool
  pub details_submitted : Bool
  pub disabled_reason : Option String

-- `event.type` with `event.data.object`
pub data StripeObject : Type 0 where
  payment_succeeded : ℕ → StripeObject
  payment_failed : ℕ → StripeObject
  account_updated : StripeAccount → StripeObject
  unhandled : StripeObject

pub record StripeEvent : Type 0 where
  pub id : ℕ
  pub object : StripeObject

-- A reason that is missing or empty is falsy.
abbrev pub is_truthy : Option String → Bool
is_truthy none = false
is_truthy (some reason) = not (str_eq reason "")

unfoldable pub resolve_status : StripeAccount → ConnectAccountStatus
resolve_status a =
    if is_truthy a.disabled_reason
    then ConnectAccountStatus.restricted
    else (if a.charges_enabled && a.payouts_enabled
        then ConnectAccountStatus.active
        else ConnectAccountStatus.pending)

abbrev pub synced : StripeAccount → ConnectedAccount → ConnectedAccount
synced stripe a = record a {
  status = resolve_status stripe;
  charges_enabled = stripe.charges_enabled;
  payouts_enabled = stripe.payouts_enabled;
  details_submitted = stripe.details_submitted;
}

unfoldable pub sync_found :
    StripeAccount → Option (ℕ × ConnectedAccount) → Action PaymentsDb (Unit {0})
sync_found stripe none = pure tt
sync_found stripe (some (id, _)) = update_account id (synced stripe)

unfoldable pub sync_from_stripe_account : StripeAccount → Action PaymentsDb (Unit {0})
unfolding sync_found
sync_from_stripe_account stripe = do
  found ← gets (λ s. find_first (λ _ a. a.stripe_account_id == stripe.id) s.accounts)
  sync_found stripe found

abbrev pub find_by_intent : ℕ → Table Payment → Option (ℕ × Payment)
find_by_intent intent = find_first (λ _ p. p.stripe_payment_intent_id == intent)

-- `OutboxService.enqueue`
unfoldable pub enqueue : ℕ → OutboxEvent → Action PaymentsDb (Unit {0})
enqueue key event = modify (λ s. record s { outbox = create key event s.outbox })

-- `OutboxPublisherService.scheduleDispatch`
unfoldable pub schedule_dispatch : ℕ → Action PaymentsDb (Unit {0})
schedule_dispatch key = modify (λ s. record s { jobs = key ∷ s.jobs })

-- The branch of `handlePaymentSucceeded` for a payment that was found.
unfoldable pub charge : ℕ → ℕ → Payment → Action PaymentsDb (Unit {0})
charge key id payment = do
  transaction (do
    update_payment id (set_status PaymentStatus.succeeded)
    enqueue key (record {
      payment_id = id;
      payer_id = payment.payer_id;
      amount = payment.amount;
      currency = payment.currency;
      status = OutboxEventStatus.pending;
    }))
  schedule_dispatch key
  record_transaction (record {
    user_id = payment.payer_id;
    payment_id = some id;
    type = TransactionType.charge;
    amount = neg_ℤ (pos payment.amount);
    currency = payment.currency;
    description = "Payment charged";
  })

unfoldable pub succeeded_found : ℕ → Option (ℕ × Payment) → Action PaymentsDb (Unit {0})
unfolding charge
succeeded_found key none = pure tt
succeeded_found key (some (id, payment)) =
    if payment.status is PaymentStatus.succeeded then pure tt else charge key id payment

unfoldable pub handle_payment_succeeded : ℕ → ℕ → Action PaymentsDb (Unit {0})
unfolding succeeded_found
handle_payment_succeeded key intent = do
  found ← gets (λ s. find_by_intent intent s.payments)
  succeeded_found key found

unfoldable pub failed_found : Option (ℕ × Payment) → Action PaymentsDb (Unit {0})
failed_found none = pure tt
failed_found (some (id, payment)) =
    if payment.status is PaymentStatus.succeeded
    then pure tt
    else update_payment id (set_status PaymentStatus.failed)

unfoldable pub handle_payment_failed : ℕ → Action PaymentsDb (Unit {0})
unfolding failed_found
handle_payment_failed intent = do
  found ← gets (λ s. find_by_intent intent s.payments)
  failed_found found

-- `WEBHOOK_SOURCE`
abbrev pub webhook_source : String
webhook_source = "stripe_payments"

unfoldable pub is_logged : ℕ → List WebhookEvent → Bool
is_logged id [] = false
is_logged id (e ∷ es) = str_eq e.source webhook_source && e.event_id == id || is_logged id es

-- `key` is the key of a new outbox row.
abbrev pub dispatch : ℕ → StripeObject → Action PaymentsDb (Unit {0})
dispatch key (payment_succeeded intent) = handle_payment_succeeded key intent
dispatch key (payment_failed intent) = handle_payment_failed intent
dispatch key (account_updated account) = sync_from_stripe_account account
dispatch key unhandled = pure tt

unfoldable pub log_event : ℕ → Action PaymentsDb (Unit {0})
log_event id = modify λ s. record s {
  webhook_events = record { source = webhook_source; event_id = id } ∷ s.webhook_events;
}

-- The function that runs under the lock.
unfoldable pub process_event : ℕ → StripeEvent → Action PaymentsDb (Unit {0})
process_event key event = do
  processed ← gets (λ s. is_logged event.id s.webhook_events)
  (if processed then pure tt else (do dispatch key event.object; log_event event.id))

unfoldable pub handle_event : Bool → ℕ → StripeEvent → Action PaymentsDb (Unit {0})
unfolding process_event
handle_event acquired key event = do
  processed ← gets (λ s. is_logged event.id s.webhook_events)
  (if processed || not acquired then pure tt else process_event key event)

-- A missing or empty signature is refused; a bad one is reported by `construct_event`.
unfoldable pub verify :
    (String → String → Result StripeEvent) → String → Option String → Result StripeEvent
verify construct_event raw_body none = err (unauthorized "Missing Stripe-Signature header")
verify construct_event raw_body (some signature) =
    if str_eq signature ""
    then err (unauthorized "Missing Stripe-Signature header")
    else elim (construct_event raw_body signature) [
      | ok event ↦ ok event
      | err _ ↦ err (unauthorized "Invalid Stripe webhook signature")
    ]

unfoldable pub handle :
    (String → String → Result StripeEvent)
    → Bool
    → ℕ
    → String
    → Option String
    → Action PaymentsDb (Unit {0})
unfolding verify
handle construct_event acquired key raw_body signature = do
  event ← lift (verify construct_event raw_body signature)
  handle_event acquired key event
