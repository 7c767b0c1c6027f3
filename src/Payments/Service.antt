-- ===== src/Payments/Service.antt =====
-- PaymentsService (src/payments/services/payments.service.ts): payments for orders and deals.
-- The platform's fee is a whole number of percent, as the default is; then `amount * percent / 100`
-- is exact or ends in at most two decimals, and `Math.round` rounds a half up.
use collabos_backend.Base.{
  ℕ, zero, suc, ◌+◌, ◌-◌, ◌*◌, ◌/◌, not, Option, none, some, String, ◌==◌, is_some, Bool, true,
  false, Action, Result, ◌>>=◌, ◌>>◌, gets, some_or_throw, throw_if, modify, pure, lift,
  AuthenticatedUser, same_user, ◌is◌, bad_request, conflict, forbidden, not_found, unique_violation,
}
use collabos_backend.Prisma.{Table, find_unique, find_first, create}
use collabos_backend.Schema.Collaboration.{DealStatus, deal_status_enum}
use collabos_backend.Schema.Commerce.{OrderStatus, order_status_enum}
use collabos_backend.Schema.Money.{Payment, PaymentSplit, PaymentStatus, SplitStatus}
use collabos_backend.Payments.State.{PaymentsDb, to_minor_units}

-- `Math.round(p / q)` for numbers that are not negative.
abbrev pub round_div : ℕ → ℕ → ℕ
round_div p q = (2 * p + q) / (2 * q)

-- `platformFeeAmount`
unfoldable pub platform_fee : ℕ → ℕ → ℕ
platform_fee fee_percent amount = round_div (amount * fee_percent) 100

-- The keys of a new payment and of its two splits.
pub record NewKeys : Type 0 where
  pub payment : ℕ
  pub fee_split : ℕ
  pub recipient_split : ℕ

-- The parameters of `createPayment`.
pub record PaymentParams : Type 0 where
  pub payer_id : ℕ
  pub amount : ℕ
  pub currency : String
  pub order_id : Option ℕ
  pub deal_id : Option ℕ
  pub recipient_user_id : ℕ

-- What Stripe gives for a new payment intent.
pub record Intent : Type 0 where
  pub id : ℕ
  pub client_secret : Option String

abbrev pub fee_split : ℕ → ℕ → PaymentSplit
fee_split payment_id amount = record {
  payment_id = payment_id;
  recipient_user_id = none;
  is_platform_fee = true;
  amount = amount;
  status = SplitStatus.pending;
  stripe_transfer_id = none;
  released_at = none;
}

abbrev pub recipient_split : ℕ → ℕ → ℕ → PaymentSplit
recipient_split payment_id user_id amount = record {
  payment_id = payment_id;
  recipient_user_id = some user_id;
  is_platform_fee = false;
  amount = amount;
  status = SplitStatus.pending;
  stripe_transfer_id = none;
  released_at = none;
}

abbrev pub new_payment : Intent → PaymentParams → Payment
new_payment intent params = record {
  stripe_payment_intent_id = intent.id;
  payer_id = params.payer_id;
  order_id = params.order_id;
  deal_id = params.deal_id;
  amount = params.amount;
  currency = params.currency;
  status = PaymentStatus.requires_payment;
  client_secret = intent.client_secret;
}

-- Is this optional id the given one?
abbrev pub is_id : ℕ → Option ℕ → Bool
is_id id none = false
is_id id (some other) = other == id

-- `!deal.totalValue`: no value, or the value 0.
abbrev pub agreed_value : Option ℕ → Option ℕ
agreed_value none = none
agreed_value (some zero) = none
agreed_value (some (suc n)) = some (suc n)

-- `stripePaymentIntentId` is unique.
abbrev pub is_intent_used : ℕ → Table Payment → Bool
is_intent_used intent t = is_some (find_first (λ _ p. p.stripe_payment_intent_id == intent) t)

-- `createPaymentIntent` of StripeService gets the amount in minor units.
module _ (fee_percent : ℕ) (create_intent : ℕ → String → Result Intent) (keys : NewKeys) where
  unfoldable pub create_payment : PaymentParams → Action PaymentsDb Payment
  create_payment params = do
    let fee = platform_fee fee_percent params.amount
    intent ← lift (create_intent (to_minor_units params.amount) params.currency)
    let payment = new_payment intent params
    used ← gets (λ s. is_intent_used intent.id s.payments)
    throw_if used unique_violation
    modify λ s. record s {
      payments = create keys.payment payment s.payments;
      splits =
          create keys.recipient_split
            (recipient_split keys.payment params.recipient_user_id (params.amount - fee))
            (create keys.fee_split (fee_split keys.payment fee) s.splits);
    }
    pure payment

  unfoldable pub create_for_order : ℕ → AuthenticatedUser → Action PaymentsDb Payment
  unfolding create_payment
  create_for_order order_id user = do
    found ← gets (λ s. find_unique order_id s.orders)
    order ← some_or_throw found (not_found "Order not found")
    throw_if (not (same_user order.buyer_id user))
        (forbidden "Only the buyer can pay for this order")
    throw_if (not (order.status is OrderStatus.pending_payment))
        (conflict "This order is not awaiting payment")
    existing ← gets (λ s. find_first (λ _ p. is_id order_id p.order_id) s.payments)
    throw_if (is_some existing) (conflict "A payment already exists for this order")
    brand_found ← gets (λ s. find_unique order.brand_id s.brands)
    brand ← some_or_throw brand_found (not_found "Brand not found")
    create_payment (record {
      payer_id = user.id;
      amount = order.subtotal;
      currency = order.currency;
      order_id = some order_id;
      deal_id = none;
      recipient_user_id = brand.owner_id;
    })

  unfoldable pub create_for_deal : ℕ → AuthenticatedUser → Action PaymentsDb Payment
  unfolding create_payment
  create_for_deal deal_id user = do
    found ← gets (λ s. find_unique deal_id s.deals)
    deal ← some_or_throw found (not_found "Deal not found")
    throw_if (not (deal.status is DealStatus.active)) (conflict "Only active deals can be funded")
    existing ← gets (λ s. find_first (λ _ p. is_id deal_id p.deal_id) s.payments)
    throw_if (is_some existing) (conflict "A payment already exists for this deal")
    amount ←
        some_or_throw (agreed_value deal.total_value)
          (bad_request "This deal has no agreed total value")
    brand_found ← gets (λ s. find_unique deal.brand_id s.brands)
    brand ← some_or_throw brand_found (forbidden "Only the brand owner can fund this deal")
    throw_if (not (same_user brand.owner_id user))
        (forbidden "Only the brand owner can fund this deal")
    create_payment (record {
      payer_id = user.id;
      amount = amount;
      currency = deal.currency;
      order_id = none;
      deal_id = some deal_id;
      recipient_user_id = deal.creator_id;
    })
