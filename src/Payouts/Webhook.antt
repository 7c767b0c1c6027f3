-- ===== src/Payouts/Webhook.antt =====
-- The Stripe webhook of the payouts (src/payouts/services/webhook.service.ts), whose events arrive
-- with a signature that `construct_event` checks.
use text.Mathlib.Text.{◌==◌ as str_eq}
use collabos_backend.Base.{
  ℕ, pos, ◌&&◌, ◌||◌, not, Option, none, some, String, List, [], ◌∷◌, ◌==◌, or_else, Bool,
  if◌then◌else◌, Action, Result, ok, err, ◌>>=◌, ◌>>◌, gets, lift, modify, pure, ◌is◌, unauthorized,
}
use collabos_backend.Prisma.{find_first, update}
use collabos_backend.Schema.Money.{
  Payout, PayoutStatus, payout_status_enum, TransactionType, WebhookEvent,
}
use collabos_backend.Payouts.Service.{PayoutsDb}

-- What the webhook reads of a Stripe payout.
pub record StripePayout : Type 0 where
  pub id : ℕ
  pub failure_message : Option String

pub data PayoutEvent : Type 0 where
  payout_paid payout_failed payout_canceled : StripePayout → PayoutEvent
  unhandled : PayoutEvent

abbrev pub is_payout : ℕ → Option ℕ → Bool
is_payout id none = Bool.false
is_payout id (some other) = other == id

abbrev pub to_reported : StripePayout → PayoutStatus → Payout → Payout
to_reported stripe status p = record p {
  status = status;
  failure_reason =
      if status is PayoutStatus.failed
      then some (or_else stripe.failure_message "Payout failed")
      else p.failure_reason;
}

-- The entry that gives the funds back.
unfoldable pub return_funds : PayoutStatus → Payout → Action PayoutsDb (Unit {0})
return_funds status payout =
    if status is PayoutStatus.failed || status is PayoutStatus.canceled
    then (modify λ s. record s {
      transactions =
          record {
            user_id = payout.user_id;
            payment_id = none;
            type = TransactionType.payout;
            amount = pos payout.amount;
            currency = payout.currency;
            description =
                if status is PayoutStatus.failed
                then "Payout failed - funds returned to balance"
                else "Payout canceled - funds returned to balance";
          }
          ∷ s.transactions;
    })
    else pure tt

unfoldable pub status_found :
    StripePayout → PayoutStatus → Option (ℕ × Payout) → Action PayoutsDb (Unit {0})
unfolding return_funds
status_found stripe status none = pure tt
status_found stripe status (some (id, payout)) = if payout.status is status then pure tt else (do
  modify (λ s. record s { payouts = update id (to_reported stripe status) s.payouts })
  return_funds status payout)

unfoldable pub update_payout_status : StripePayout → PayoutStatus → Action PayoutsDb (Unit {0})
unfolding status_found
update_payout_status stripe status = do
  found ← gets (λ s. find_first (λ _ p. is_payout stripe.id p.stripe_payout_id) s.payouts)
  status_found stripe status found

abbrev pub dispatch_payout : PayoutEvent → Action PayoutsDb (Unit {0})
dispatch_payout (payout_paid stripe) = update_payout_status stripe PayoutStatus.paid
dispatch_payout (payout_failed stripe) = update_payout_status stripe PayoutStatus.failed
dispatch_payout (payout_canceled stripe) = update_payout_status stripe PayoutStatus.canceled
dispatch_payout unhandled = pure tt

-- `WEBHOOK_SOURCE`
abbrev pub payouts_source : String
payouts_source = "stripe_payouts"

unfoldable pub is_handled : ℕ → List WebhookEvent → Bool
is_handled id [] = Bool.false
is_handled id (e ∷ es) = str_eq e.source payouts_source && e.event_id == id || is_handled id es

-- The function that runs under the lock.
unfoldable pub process_payout_event : ℕ → PayoutEvent → Action PayoutsDb (Unit {0})
process_payout_event id event = do
  processed ← gets (λ s. is_handled id s.webhook_events)
  (if processed then pure tt else (do
    dispatch_payout event
    modify λ s. record s {
      webhook_events = record { source = payouts_source; event_id = id } ∷ s.webhook_events;
    }))

-- `acquired` is whether Redis gave the lock.
unfoldable pub handle_payout_event : Bool → ℕ → PayoutEvent → Action PayoutsDb (Unit {0})
unfolding process_payout_event
handle_payout_event acquired id event = do
  processed ← gets (λ s. is_handled id s.webhook_events)
  (if processed || not acquired then pure tt else process_payout_event id event)

-- A missing or empty signature is refused; a bad one is reported by `construct_event`.
unfoldable pub verify_payout_event :
    (String → String → Result (ℕ × PayoutEvent)) → String → Option String → Result (ℕ × PayoutEvent)
verify_payout_event construct_event raw_body none =
    err (unauthorized "Missing Stripe-Signature header")
verify_payout_event construct_event raw_body (some signature) =
    if str_eq signature ""
    then err (unauthorized "Missing Stripe-Signature header")
    else elim (construct_event raw_body signature) [
      | ok event ↦ ok event
      | err _ ↦ err (unauthorized "Invalid Stripe webhook signature")
    ]

unfoldable pub handle_payout_webhook :
    (String → String → Result (ℕ × PayoutEvent))
    → Bool
    → String
    → Option String
    → Action PayoutsDb (Unit {0})
unfolding verify_payout_event
handle_payout_webhook construct_event acquired raw_body signature = do
  (id, event) ← lift (verify_payout_event construct_event raw_body signature)
  handle_payout_event acquired id event
