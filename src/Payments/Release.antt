-- ===== src/Payments/Release.antt =====
-- PaymentsService.release and .refund (src/payments/services/payments.service.ts).
-- `create_transfer` and `create_refund` are Stripe's answers to the two requests.
use collabos_backend.Base.{
  ℕ, pos, not, ◌&&◌, ◌||◌, Option, none, some, [], ◌∷◌, ◌==◌, Bool, false, if◌then◌else◌, Action,
  Result, ◌>>=◌, ◌>>◌, gets, throw_if, modify, pure, lift, transaction, AuthenticatedUser, is_admin,
  same_user, ◌is◌, one_of, conflict, forbidden,
}
use collabos_backend.Prisma.{Table, find_unique, find_many, update_many}
use collabos_backend.Schema.Collaboration.{DealStatus, deal_status_enum, Deal}
use collabos_backend.Schema.Commerce.{OrderStatus, order_status_enum, Order}
use collabos_backend.Schema.Money.{
  Payment, PaymentSplit, PaymentStatus, payment_status_enum, SplitStatus, split_status_enum,
  TransactionType,
}
use collabos_backend.Payments.State.{
  PaymentsDb, Transfer, to_minor_units, find_entity_or_throw, record_transaction,
  get_recipient_account_or_throw, update_payment, update_split,
}

-- `payment.splits`
abbrev pub splits_of : ℕ → Table PaymentSplit → Table PaymentSplit
splits_of payment_id = find_many (λ _ x. x.payment_id == payment_id)

-- `['FULFILLED', 'COMPLETED'].includes(order.status)` for an order that exists
abbrev pub is_fulfilled : Option Order → Bool
is_fulfilled none = false
is_fulfilled (some o) = one_of (OrderStatus.fulfilled ∷ OrderStatus.completed ∷ []) o.status

abbrev pub is_completed : Option Deal → Bool
is_completed none = false
is_completed (some d) = d.status is DealStatus.completed

abbrev pub assert_deal_completed : Option ℕ → Action PaymentsDb (Unit {0})
assert_deal_completed none = pure tt
assert_deal_completed (some deal_id) = do
  found ← gets (λ s. find_unique deal_id s.deals)
  throw_if (not (is_completed found)) (conflict "The linked deal has not been completed yet")

-- `assertFulfilled`, by the payment's two optional ids
unfoldable pub assert_fulfilled : Option ℕ → Option ℕ → Action PaymentsDb (Unit {0})
assert_fulfilled none deal_id = assert_deal_completed deal_id
assert_fulfilled (some order_id) deal_id = do
  found ← gets (λ s. find_unique order_id s.orders)
  throw_if (not (is_fulfilled found)) (conflict "The linked order has not been fulfilled yet")

abbrev pub to_released : Option ℕ → ℕ → PaymentSplit → PaymentSplit
to_released transfer now x = record x {
  status = SplitStatus.released;
  stripe_transfer_id = transfer;
  released_at = some now;
}

-- The platform keeps its share: the row is released and no transfer is made.
abbrev pub to_kept : ℕ → PaymentSplit → PaymentSplit
to_kept now x = record x { status = SplitStatus.released; released_at = some now }

abbrev pub set_status : PaymentStatus → Payment → Payment
set_status status p = record p { status = status }

abbrev pub to_refunded : PaymentSplit → PaymentSplit
to_refunded x = record x { status = SplitStatus.refunded }

module _ (create_transfer : Transfer → Result ℕ) (payment_id : ℕ) (payment : Payment)
    (now : ℕ) where
  -- The transfer to a recipient, its row and its ledger entry.
  unfoldable pub pay_out : ℕ → PaymentSplit → ℕ → Action PaymentsDb (Unit {0})
  pay_out key split recipient = do
    destination ← get_recipient_account_or_throw recipient
    let transfer : Transfer = record {
      split_id = key;
      amount = to_minor_units split.amount;
      destination = destination;
    }
    transfer_id ← lift (create_transfer transfer)
    modify (λ s. record s { transfers = transfer ∷ s.transfers })
    update_split key (to_released (some transfer_id) now)
    record_transaction (record {
      user_id = recipient;
      payment_id = some payment_id;
      type = TransactionType.transfer;
      amount = pos split.amount;
      currency = payment.currency;
      description = "Escrow release";
    })

  -- A split whose recipient is missing is passed over.
  unfoldable pub pay_recipient : ℕ → PaymentSplit → Option ℕ → Action PaymentsDb (Unit {0})
  pay_recipient key split none = pure tt
  pay_recipient key split (some recipient) = pay_out key split recipient

  -- The body of the loop, for a split as it was read before the loop.
  unfoldable pub release_split : ℕ → PaymentSplit → Action PaymentsDb (Unit {0})
  unfolding pay_recipient
  release_split key split =
      if not (split.status is SplitStatus.pending)
      then pure tt
      else (if split.is_platform_fee
          then update_split key (to_kept now)
          else pay_recipient key split split.recipient_user_id)

  unfoldable pub release_splits : Table PaymentSplit → Action PaymentsDb (Unit {0})
  unfolding release_split
  release_splits [] = pure tt
  release_splits ((key, split) ∷ splits) = do release_split key split; release_splits splits

module _ (create_transfer : Transfer → Result ℕ) where
  unfoldable pub release : ℕ → AuthenticatedUser → ℕ → Action PaymentsDb Payment
  unfolding release_splits
  release id user now = do
    throw_if (not (is_admin user)) (forbidden "Only an administrator can release escrowed funds")
    payment ← find_entity_or_throw id
    throw_if (not (payment.status is PaymentStatus.succeeded))
        (conflict "Only a succeeded payment can be released")
    assert_fulfilled payment.order_id payment.deal_id
    splits ← gets (λ s. splits_of id s.splits)
    release_splits create_transfer id payment now splits
    find_entity_or_throw id

-- `payment.splits.some((split) => split.status === RELEASED)`
unfoldable pub any_released : Table PaymentSplit → Bool
any_released [] = false
any_released ((_, x) ∷ t) = x.status is SplitStatus.released || any_released t

-- The two writes of the refund, as one transaction.
unfoldable pub write_refund : ℕ → Action PaymentsDb (Unit {0})
write_refund id = transaction (do
  update_payment id (set_status PaymentStatus.refunded)
  modify λ s. record s { splits = update_many (λ _ x. x.payment_id == id) to_refunded s.splits })

-- The refund of a payment from the test of its splits on.
unfoldable pub refund_unreleased : (ℕ → Result ℕ) → ℕ → Payment → Action PaymentsDb Payment
refund_unreleased create_refund id payment = do
  splits ← gets (λ s. splits_of id s.splits)
  throw_if (any_released splits)
      (conflict "This payment has already released funds and cannot be refunded automatically")
  lift (create_refund payment.stripe_payment_intent_id)
  modify (λ s. record s { stripe_refunds = id ∷ s.stripe_refunds })
  write_refund id
  record_transaction (record {
    user_id = payment.payer_id;
    payment_id = some id;
    type = TransactionType.refund;
    amount = pos payment.amount;
    currency = payment.currency;
    description = "Payment refunded";
  })
  find_entity_or_throw id

unfoldable pub refund : (ℕ → Result ℕ) → ℕ → AuthenticatedUser → Action PaymentsDb Payment
unfolding refund_unreleased
refund create_refund id user = do
  payment ← find_entity_or_throw id
  throw_if (not (same_user payment.payer_id user) && not (is_admin user))
      (forbidden "You do not have access to this payment")
  throw_if (not (payment.status is PaymentStatus.succeeded))
      (conflict "Only a succeeded payment can be refunded")
  refund_unreleased create_refund id payment
