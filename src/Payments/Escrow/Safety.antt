-- ===== src/Payments/Escrow/Safety.antt =====
-- Sequences of calls of the payment endpoints and the webhook.
use collabos_backend.Base.{
  ◌≡◌, true, some, arith, ℕ, Bool, Option, String, List, [], ◌∷◌, Result, Keeps, keeps_rules,
}
use collabos_backend.Prisma.{find_unique}
use collabos_backend.Schema.Money.{PaymentSplit}
use collabos_backend.Payments.State.{PaymentsDb}
use collabos_backend.Payments.Webhook.{StripeEvent, handle}
use collabos_backend.Payments.Calls.{
  was_refunded, Call, pay_order_call, pay_deal_call, release_call, refund_call, webhook_call, step,
  run, HasFreshKeys, RunHasFreshKeys,
}
use collabos_backend.Payments.Escrow.Allowance.{transferred, IsEscrow}
use collabos_backend.Payments.Escrow.Calls.{release-IsEscrow, refund-IsEscrow, event-IsEscrow}
use collabos_backend.Payments.Escrow.Creation.{create_for_order-IsEscrow, create_for_deal-IsEscrow}

handle-IsEscrow :
    (construct_event : String → String → Result StripeEvent) (acquired : Bool) (key : ℕ)
    (body : String) (signature : Option String)
    → Keeps IsEscrow (handle construct_event acquired key body signature)
unfolding handle
handle-IsEscrow construct_event acquired key body signature = search (keeps_rules, event-IsEscrow)

step-IsEscrow : (c : Call) (s : PaymentsDb) → HasFreshKeys c s → IsEscrow s → IsEscrow (step c s)
unfolding step
step-IsEscrow (pay_order_call percent create_intent keys id user) s fresh h =
    (create_for_order-IsEscrow percent create_intent keys s fresh h id user).apply
step-IsEscrow (pay_deal_call percent create_intent keys id user) s fresh h =
    (create_for_deal-IsEscrow percent create_intent keys s fresh h id user).apply
step-IsEscrow (release_call create_transfer id user now) s fresh h =
    (release-IsEscrow create_transfer id user now).apply s h
step-IsEscrow (refund_call create_refund id user) s fresh h =
    refund-IsEscrow create_refund id user s h
step-IsEscrow (webhook_call construct_event acquired key body signature) s fresh h =
    (handle-IsEscrow construct_event acquired key body signature).apply s h

-- After any sequence of calls of the payment endpoints and the webhook, refused ones and
-- refusals of Stripe included, what was transferred for each split is at most its amount, and
-- nothing if the split is not released, and the splits of a payment that Stripe has refunded are
-- refunded; new rows get keys that were not in use.
pub run-IsEscrow :
    (cs : List Call) (s : PaymentsDb) → RunHasFreshKeys cs s → IsEscrow s → IsEscrow (run cs s)
unfolding run
run-IsEscrow [] s fresh h = h
run-IsEscrow (c ∷ cs) s fresh h = run-IsEscrow cs (step c s) fresh.1 (step-IsEscrow c s fresh.0 h)

nothing_for_refunded :
    (k : ℕ) (x : PaymentSplit) (s : PaymentsDb)
    → find_unique k s.splits ≡ some x
    → was_refunded x.payment_id s.stripe_refunds ≡ true
    → IsEscrow s
    → transferred k s.transfers ≡ 0
nothing_for_refunded k x s found refunded h = ground (arith, h.within k, h.exclusive k)

-- After any sequence of calls of the payment endpoints and the webhook, nothing was ever
-- transferred for a split of a payment that Stripe has refunded, if the calls began in a state
-- where that was so and new rows get keys that were not in use.
pub refunded_never_transferred :
    (cs : List Call) (s : PaymentsDb) (k : ℕ) (x : PaymentSplit)
    → RunHasFreshKeys cs s
    → IsEscrow s
    → find_unique k (run cs s).splits ≡ some x
    → was_refunded x.payment_id (run cs s).stripe_refunds ≡ true
    → transferred k (run cs s).transfers ≡ 0
refunded_never_transferred cs s k x fresh h found refunded =
    nothing_for_refunded k x (run cs s) found refunded (run-IsEscrow cs s fresh h)
