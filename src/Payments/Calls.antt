-- ===== src/Payments/Calls.antt =====
-- The calls of the payment endpoints and of the Stripe webhook, as steps on the tables.
use collabos_backend.Base.{
  ◌==◌, ◌||◌, false, ℕ, ◌≡◌, ◌≢◌, Bool, Option, none, String, List, [], ◌∷◌, Result,
  AuthenticatedUser,
}
use collabos_backend.Prisma.{find_unique}
use collabos_backend.Payments.State.{PaymentsDb, Transfer}
use collabos_backend.Payments.Service.{NewKeys, Intent, create_for_order, create_for_deal}
use collabos_backend.Payments.Release.{release, refund}
use collabos_backend.Payments.Webhook.{StripeEvent, handle}

-- A call with its caller, its body, the answers of Stripe, the keys of the rows that it may
-- insert and its time.
pub data Call : Type 0 where
  pay_order_call : ℕ → (ℕ → String → Result Intent) → NewKeys → ℕ → AuthenticatedUser → Call
  pay_deal_call : ℕ → (ℕ → String → Result Intent) → NewKeys → ℕ → AuthenticatedUser → Call
  release_call : (Transfer → Result ℕ) → ℕ → AuthenticatedUser → ℕ → Call
  refund_call : (ℕ → Result ℕ) → ℕ → AuthenticatedUser → Call
  webhook_call : (String → String → Result StripeEvent) → Bool → ℕ → String → Option String → Call

-- The tables after a call, which may throw.
unfoldable pub step : Call → PaymentsDb → PaymentsDb
step (pay_order_call percent create_intent keys id user) s =
    (create_for_order percent create_intent keys id user s).1
step (pay_deal_call percent create_intent keys id user) s =
    (create_for_deal percent create_intent keys id user s).1
step (release_call create_transfer id user now) s = (release create_transfer id user now s).1
step (refund_call create_refund id user) s = (refund create_refund id user s).1
step (webhook_call construct_event acquired key body signature) s =
    (handle construct_event acquired key body signature s).1

unfoldable pub run : List Call → PaymentsDb → PaymentsDb
unfolding step
run [] s = s
run (c ∷ cs) s = run cs (step c s)

-- Is the payment among those that Stripe has refunded?
abbrev pub was_refunded : ℕ → List ℕ → Bool
was_refunded id [] = false
was_refunded id (i ∷ rest) = i == id || was_refunded id rest

-- The keys of two new splits are different and not in use, and no payment with the new payment's
-- key was refunded.
pub record IsFresh (keys : NewKeys) (s : PaymentsDb) : Type 0 where
  pub fee_unused : find_unique keys.fee_split s.splits ≡ none
  pub recipient_unused : find_unique keys.recipient_split s.splits ≡ none
  pub different : keys.recipient_split ≢ keys.fee_split
  pub never_refunded : was_refunded keys.payment s.stripe_refunds ≡ false

-- The database hands out keys that it has not used.
abbrev pub HasFreshKeys : Call → PaymentsDb → Type 0
HasFreshKeys (pay_order_call percent create_intent keys id user) s = IsFresh keys s
HasFreshKeys (pay_deal_call percent create_intent keys id user) s = IsFresh keys s
HasFreshKeys _ s = Unit

abbrev pub RunHasFreshKeys : List Call → PaymentsDb → Type 0
RunHasFreshKeys [] s = Unit
RunHasFreshKeys (c ∷ cs) s = HasFreshKeys c s × RunHasFreshKeys cs (step c s)
