-- ===== src/Payments/Escrow/Calls.antt =====
-- The escrow under release, refund and the webhook (src/payments/services).
use collabos_backend.Base.{
  same_user, not, ◌&&◌, ◌is◌, throw_if, Exception, forbidden, conflict, is_admin, ℕ, ◌≡◌, inl, inr,
  Bool, false, Option, none, some, ◌∷◌, ◌==◌, arith, Result, ok, Bool-cases, Result-cases,
  Option-cases, AuthenticatedUser, Keeps, Keeps-modify, keeps_rules, Keeps-bind, Keeps-then,
  after_bind, modify, gets, ◌>>=◌, ◌>>◌, Keeps-pure, Keeps-gets,
}
use collabos_backend.Prisma.{
  find_unique, find_first, update, update_many, find_many-AllFound, find_many-IsDistinct,
  update_many-IsDistinct,
}
use collabos_backend.Schema.Money.{
  ConnectedAccount, Payment, PaymentStatus, payment_status_enum, Transaction,
}
use collabos_backend.Payments.State.{
  PaymentsDb, OutboxEvent, Transfer, find_entity_or_throw, record_transaction, update_account,
  update_payment,
}
use collabos_backend.Payments.Release.{
  set_status, write_refund, refund_unreleased, splits_of, any_released, to_refunded,
  assert_deal_completed, assert_fulfilled, release_splits, release, refund,
}
use collabos_backend.Payments.Webhook.{
  find_by_intent, StripeAccount, StripeEvent, StripeObject, sync_found, sync_from_stripe_account,
  charge, succeeded_found, handle_payment_succeeded, failed_found, handle_payment_failed, enqueue,
  schedule_dispatch, log_event, dispatch, process_event, handle_event,
}
use collabos_backend.Payments.Escrow.Allowance.{is_safe-refund, IsEscrow, allowance-refund}
use collabos_backend.Base.{Ends, Ends-throw_if}
use collabos_backend.Payments.Escrow.Loop.{loop-IsEscrow}

-- Steps that write neither splits nor transfers.
payments_written :
    (id : ℕ) (f : Payment → Payment)
    → Keeps IsEscrow (modify (λ s. record s { payments = update id f s.payments }))
payments_written id f =
    Keeps-modify _
      (λ s h. record { distinct = h.distinct; within = h.within; exclusive = h.exclusive })

update_payment-IsEscrow : (id : ℕ) (f : Payment → Payment) → Keeps IsEscrow (update_payment id f)
unfolding update_payment
update_payment-IsEscrow id f = search (keeps_rules, payments_written) depth 9

accounts_written :
    (id : ℕ) (f : ConnectedAccount → ConnectedAccount)
    → Keeps IsEscrow (modify (λ s. record s { accounts = update id f s.accounts }))
accounts_written id f =
    Keeps-modify _
      (λ s h. record { distinct = h.distinct; within = h.within; exclusive = h.exclusive })

update_account-IsEscrow :
    (id : ℕ) (f : ConnectedAccount → ConnectedAccount) → Keeps IsEscrow (update_account id f)
unfolding update_account
update_account-IsEscrow id f = search (keeps_rules, accounts_written) depth 9

record_transaction-IsEscrow : (t : Transaction) → Keeps IsEscrow (record_transaction t)
unfolding record_transaction
record_transaction-IsEscrow t =
    Keeps-modify _
      (λ s h. record { distinct = h.distinct; within = h.within; exclusive = h.exclusive })

enqueue-IsEscrow : (key : ℕ) (e : OutboxEvent) → Keeps IsEscrow (enqueue key e)
unfolding enqueue
enqueue-IsEscrow key e =
    Keeps-modify _
      (λ s h. record { distinct = h.distinct; within = h.within; exclusive = h.exclusive })

schedule-IsEscrow : (key : ℕ) → Keeps IsEscrow (schedule_dispatch key)
unfolding schedule_dispatch
schedule-IsEscrow key =
    Keeps-modify _
      (λ s h. record { distinct = h.distinct; within = h.within; exclusive = h.exclusive })

log-IsEscrow : (id : ℕ) → Keeps IsEscrow (log_event id)
unfolding log_event
log-IsEscrow id =
    Keeps-modify _
      (λ s h. record { distinct = h.distinct; within = h.within; exclusive = h.exclusive })

find_entity-IsEscrow : (id : ℕ) → Keeps IsEscrow (find_entity_or_throw id)
unfolding find_entity_or_throw
find_entity-IsEscrow id = search keeps_rules depth 9

deal_completed-IsEscrow : (deal : Option ℕ) → Keeps IsEscrow (assert_deal_completed deal)
deal_completed-IsEscrow none = Keeps-pure tt
deal_completed-IsEscrow (some deal) = search keeps_rules depth 9

fulfilled-IsEscrow : (order deal : Option ℕ) → Keeps IsEscrow (assert_fulfilled order deal)
unfolding assert_fulfilled
fulfilled-IsEscrow none deal = deal_completed-IsEscrow deal
fulfilled-IsEscrow (some order) deal = search keeps_rules depth 9

ruleset steps = (
  keeps_rules, update_payment-IsEscrow, update_account-IsEscrow, record_transaction-IsEscrow,
  enqueue-IsEscrow, schedule-IsEscrow, log-IsEscrow, find_entity-IsEscrow, fulfilled-IsEscrow,
)

-- The loop, after the splits were read.
read_loop-IsEscrow :
    (create_transfer : Transfer → Result ℕ) (id : ℕ) (payment : Payment) (now : ℕ)
    → Keeps IsEscrow (do
      splits ← gets (λ s. splits_of id s.splits)
      release_splits create_transfer id payment now splits
      find_entity_or_throw id)
read_loop-IsEscrow create_transfer id payment now = record {
  apply = λ s h.
      after_bind (λ _. find_entity_or_throw id)
        (release_splits create_transfer id payment now (splits_of id s.splits) s)
        (λ _. find_entity-IsEscrow id)
        (loop-IsEscrow create_transfer id payment now (splits_of id s.splits) s (record {
          escrow = h;
          found = find_many-AllFound _ s.splits h.distinct;
          rest = find_many-IsDistinct _ s.splits h.distinct;
        }));
}

pub release-IsEscrow :
    (create_transfer : Transfer → Result ℕ) (id : ℕ) (user : AuthenticatedUser) (now : ℕ)
    → Keeps IsEscrow (release create_transfer id user now)
unfolding release
release-IsEscrow create_transfer id user now = search (steps, read_loop-IsEscrow) depth 12

abbrev after_refund : ℕ → PaymentsDb → PaymentsDb
after_refund id s = record s {
  payments = update id (set_status PaymentStatus.refunded) s.payments;
  splits = update_many (λ _ x. x.payment_id == id) to_refunded s.splits;
}

write_refund_ok :
    (id : ℕ) (s : PaymentsDb) (payment : Payment)
    → find_unique id s.payments ≡ some payment
    → write_refund id s ≡ (ok tt, after_refund id s)
unfolding write_refund update_payment
write_refund_ok id s payment e = ground arith

abbrev asked : ℕ → PaymentsDb → PaymentsDb
asked id s = record s { stripe_refunds = id ∷ s.stripe_refunds }

after_refund-IsEscrow :
    (id : ℕ) (s : PaymentsDb)
    → any_released (splits_of id s.splits) ≡ false
    → IsEscrow s
    → IsEscrow (after_refund id (asked id s))
after_refund-IsEscrow id s none_released h = record {
  distinct = update_many-IsDistinct _ to_refunded s.splits h.distinct;
  within = λ k. rw (allowance-refund id k s.splits none_released) (h.within k);
  exclusive = λ k. is_safe-refund id k s.stripe_refunds s.splits (h.exclusive k);
}

unreleased-IsEscrow :
    (create_refund : ℕ → Result ℕ) (id : ℕ) (payment : Payment) (s : PaymentsDb)
    → find_unique id s.payments ≡ some payment
    → IsEscrow s
    → IsEscrow (refund_unreleased create_refund id payment s).1
unfolding refund_unreleased
unreleased-IsEscrow create_refund id payment s found h =
    elim (Bool-cases (any_released (splits_of id s.splits))) [
      | inl e ↦ rw e h
      | inr e ↦ elim (Result-cases (create_refund payment.stripe_payment_intent_id)) [
        | inr (x, refused) ↦ rw (e, refused) h
        | inl (refund_id, accepted) ↦
            rw (e, accepted)
              (after_bind _ (write_refund id (asked id s))
                (λ _. Keeps-then (record_transaction-IsEscrow _) (find_entity-IsEscrow id))
                (rw (write_refund_ok id (asked id s) payment found)
                  (after_refund-IsEscrow id s e h)))
      ]
    ]

guarded_refund :
    (c d : Bool) (x y : Exception) (create_refund : ℕ → Result ℕ) (id : ℕ) (payment : Payment)
    (s : PaymentsDb)
    → find_unique id s.payments ≡ some payment
    → IsEscrow s
    → Ends IsEscrow s (throw_if c x >> (throw_if d y >> refund_unreleased create_refund id payment))
guarded_refund c d x y create_refund id payment s e h =
    Ends-throw_if c x _ h (
      Ends-throw_if d y _ h (record { apply = unreleased-IsEscrow create_refund id payment s e h }))

pub refund-IsEscrow :
    (create_refund : ℕ → Result ℕ) (id : ℕ) (user : AuthenticatedUser) (s : PaymentsDb)
    → IsEscrow s
    → IsEscrow (refund create_refund id user s).1
unfolding refund find_entity_or_throw
refund-IsEscrow create_refund id user s h = elim (Option-cases (find_unique id s.payments)) [
  | inl e ↦ simp e h
  | inr (payment, e) ↦ simp e (
      (guarded_refund (not (same_user payment.payer_id user) && not (is_admin user))
        (not (payment.status is PaymentStatus.succeeded))
        (forbidden "You do not have access to this payment")
        (conflict "Only a succeeded payment can be refunded") create_refund id payment s e h).apply)
]

charge-IsEscrow : (key id : ℕ) (payment : Payment) → Keeps IsEscrow (charge key id payment)
unfolding charge
charge-IsEscrow key id payment = search steps depth 12

succeeded-IsEscrow :
    (key : ℕ) (found : Option (ℕ × Payment)) → Keeps IsEscrow (succeeded_found key found)
unfolding succeeded_found
succeeded-IsEscrow key none = Keeps-pure tt
succeeded-IsEscrow key (some (id, payment)) = search (steps, charge-IsEscrow) depth 9

failed-IsEscrow : (found : Option (ℕ × Payment)) → Keeps IsEscrow (failed_found found)
unfolding failed_found
failed-IsEscrow none = Keeps-pure tt
failed-IsEscrow (some (id, payment)) = search steps depth 9

sync-IsEscrow :
    (stripe : StripeAccount) (found : Option (ℕ × ConnectedAccount))
    → Keeps IsEscrow (sync_found stripe found)
unfolding sync_found
sync-IsEscrow stripe none = Keeps-pure tt
sync-IsEscrow stripe (some (id, account)) = search steps depth 9

dispatch-IsEscrow : (key : ℕ) (object : StripeObject) → Keeps IsEscrow (dispatch key object)
unfolding handle_payment_succeeded handle_payment_failed sync_from_stripe_account
dispatch-IsEscrow key (StripeObject.payment_succeeded intent) =
    Keeps-bind (Keeps-gets (λ s. find_by_intent intent s.payments)) (succeeded-IsEscrow key)
dispatch-IsEscrow key (StripeObject.payment_failed intent) =
    Keeps-bind (Keeps-gets (λ s. find_by_intent intent s.payments)) failed-IsEscrow
dispatch-IsEscrow key (StripeObject.account_updated account) =
    Keeps-bind (Keeps-gets (λ s. find_first (λ _ a. a.stripe_account_id == account.id) s.accounts))
      (sync-IsEscrow account)
dispatch-IsEscrow key StripeObject.unhandled = Keeps-pure tt

pub event-IsEscrow :
    (acquired : Bool) (key : ℕ) (event : StripeEvent)
    → Keeps IsEscrow (handle_event acquired key event)
unfolding handle_event process_event
event-IsEscrow acquired key event = search (steps, dispatch-IsEscrow) depth 12
