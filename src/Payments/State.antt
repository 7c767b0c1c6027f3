-- ===== src/Payments/State.antt =====
-- The tables that the payment services use, and what they have asked of Stripe and of the queue.
-- `transfers` and `stripe_refunds` list the requests that Stripe has accepted, the newest first.
use collabos_backend.Base.{
  ℕ, ◌*◌, not, List, ◌∷◌, ◌==◌, String, Action, ◌>>=◌, ◌>>◌, gets, some_or_throw, throw_if, modify,
  pure, not_found, record_not_found, conflict,
}
use collabos_backend.Prisma.{Table, find_unique, find_first, has_key, update}
use collabos_backend.Schema.Collaboration.{Brand, Deal}
use collabos_backend.Schema.Commerce.{Order}
use collabos_backend.Schema.Money.{
  ConnectedAccount, Payment, PaymentSplit, Transaction, WebhookEvent, OutboxEventStatus,
}

-- The payload of the outbox event `payment.succeeded`.
pub record OutboxEvent : Type 0 where
  pub payment_id : ℕ
  pub payer_id : ℕ
  pub amount : ℕ
  pub currency : String
  pub status : OutboxEventStatus

-- `transfers.create` of Stripe, in minor units.
pub record Transfer : Type 0 where
  pub split_id : ℕ
  pub amount : ℕ
  pub destination : ℕ

pub record PaymentsDb : Type 0 where
  pub brands : Table Brand
  pub orders : Table Order
  pub deals : Table Deal
  pub payments : Table Payment
  pub splits : Table PaymentSplit
  pub accounts : Table ConnectedAccount
  pub transactions : List Transaction
  pub webhook_events : List WebhookEvent
  pub outbox : Table OutboxEvent
  pub transfers : List Transfer
  -- the payment intents that were refunded
  pub stripe_refunds : List ℕ
  -- the outbox events handed to the dispatch queue
  pub jobs : List ℕ

-- `toMinorUnits`: amounts are whole units, so the product is already round.
abbrev pub to_minor_units : ℕ → ℕ
to_minor_units amount = amount * 100

-- `findEntityOrThrow`
unfoldable pub find_entity_or_throw : ℕ → Action PaymentsDb Payment
find_entity_or_throw id = do
  found ← gets (λ s. find_unique id s.payments)
  some_or_throw found (not_found "Payment not found")

-- `TransactionsService.record`
unfoldable pub record_transaction : Transaction → Action PaymentsDb (Unit {0})
record_transaction t = modify (λ s. record s { transactions = t ∷ s.transactions })

-- `ConnectService.getRecipientAccountOrThrow`
unfoldable pub get_recipient_account_or_throw : ℕ → Action PaymentsDb ℕ
get_recipient_account_or_throw user_id = do
  found ← gets (λ s. find_first (λ _ a. a.user_id == user_id) s.accounts)
  (_, account) ← some_or_throw found (conflict "The recipient has not completed payout onboarding")
  throw_if (not account.payouts_enabled)
      (conflict "The recipient has not completed payout onboarding")
  pure account.stripe_account_id

-- `prisma.payment.update`
unfoldable pub update_payment : ℕ → (Payment → Payment) → Action PaymentsDb (Unit {0})
update_payment id f = do
  throw_if (not (← gets (λ s. has_key id s.payments))) record_not_found
  modify (λ s. record s { payments = update id f s.payments })

-- `prisma.paymentSplit.update`
unfoldable pub update_split : ℕ → (PaymentSplit → PaymentSplit) → Action PaymentsDb (Unit {0})
update_split id f = do
  throw_if (not (← gets (λ s. has_key id s.splits))) record_not_found
  modify (λ s. record s { splits = update id f s.splits })

-- `prisma.connectedAccount.update`
unfoldable pub update_account :
    ℕ → (ConnectedAccount → ConnectedAccount) → Action PaymentsDb (Unit {0})
update_account id f = do
  throw_if (not (← gets (λ s. has_key id s.accounts))) record_not_found
  modify (λ s. record s { accounts = update id f s.accounts })
