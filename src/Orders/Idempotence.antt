-- ===== src/Orders/Idempotence.antt =====
-- An event of the orders webhook that is delivered again.
use collabos_backend.Base.{
  success_if, ℕ, ◌≡◌, refl, inl, inr, false, Option, none, some, Option-cases, ◌is◌, Action, ok,
  Ensures, OnSuccess, Keeps, keeps_rules, Keeps-modify, modify, Ensures-of_Keeps, ◌>>◌, ◌>>=◌,
  String, Ensures-last, Ensures-bind, of_success, pure, arith,
}
use collabos_backend.Prisma.{find_unique, update, find_unique-update_self}
use collabos_backend.Schema.Commerce.{
  OrderStatus, order_status_enum, refund_status_enum, Order, Refund,
}
use collabos_backend.Orders.State.{ShopDb, update_order}
use collabos_backend.Orders.Checkout.{restock_order}
use collabos_backend.Orders.Service.{to_cancelled}
use collabos_backend.Orders.Refunds.{update_refund, to_processed, set_status}
use collabos_backend.Orders.Webhook.{
  WebhookEventType, WebhookPayload, awaits_payment, is_pending_refund_of, handle_payment_succeeded,
  handle_payment_failed, handle_refund_processed, process_refund, dispatch, handle_event,
}

-- The order's payment is settled: a further payment event is ignored.
abbrev IsSettled : ℕ → ShopDb → Type 0
IsSettled id s = awaits_payment (find_unique id s.orders) ≡ false

update_order-IsSettled :
    (id : ℕ) (f : Order → Order)
    → ((o : Order) → (f o).status is OrderStatus.pending_payment ≡ false)
    → Ensures (λ _. Unit {0}) (update_order id f) (λ _ t. IsSettled id t)
unfolding update_order
update_order-IsSettled id f leaves = record {
  apply = λ s h. elim (Option-cases (find_unique id s.orders)) [
    | inl e ↦ ground arith
    | inr (o, e) ↦ ground (arith, find_unique-update_self id f s.orders o e, leaves o)
  ];
}

cancelled_not_pending :
    (reason : Option String) (now : ℕ) (o : Order)
    → (to_cancelled reason now o).status is OrderStatus.pending_payment ≡ false
cancelled_not_pending reason now o = ground arith

-- The rest of a handler after the order is written.
IsSettled-then :
    (id : ℕ) (f : Order → Order)
    → ((o : Order) → (f o).status is OrderStatus.pending_payment ≡ false)
    → Ensures (λ _. Unit {0}) (update_order id f >> pure tt) (λ _ t. IsSettled id t)
IsSettled-then id f leaves =
    Ensures-bind (λ _ t. IsSettled id t) (update_order-IsSettled id f leaves)
      (λ _. record { apply = λ s h. h })

succeeded-IsSettled :
    (id : ℕ) (s : ShopDb) → OnSuccess (λ _ t. IsSettled id t) (handle_payment_succeeded id s)
unfolding handle_payment_succeeded
succeeded-IsSettled id s =
    success_if (IsSettled id) (awaits_payment (find_unique id s.orders)) _ _ s
      (λ _. (IsSettled-then id (set_status OrderStatus.paid) (λ o. refl)).apply s tt) (λ e. e)

failed-IsSettled :
    (id now : ℕ) (s : ShopDb) → OnSuccess (λ _ t. IsSettled id t) (handle_payment_failed id now s)
unfolding handle_payment_failed
failed-IsSettled id now s =
    success_if (IsSettled id) (awaits_payment (find_unique id s.orders)) _ _ s
      (λ _.
        (Ensures-last (restock_order id) (λ _.
            IsSettled-then id (to_cancelled (some "Payment failed") now)
              (cancelled_not_pending (some "Payment failed") now))).apply
          s tt)
      (λ e. e)

-- The refund is decided: a further event of it is ignored.
abbrev IsDecided : ℕ → ℕ → ShopDb → Type 0
IsDecided order_id refund_id s =
    is_pending_refund_of order_id (find_unique refund_id s.refunds) ≡ false

update_refund-IsDecided :
    (order_id id now : ℕ)
    → Ensures (λ _. Unit {0}) (update_refund id (to_processed now)) (λ _ t. IsDecided order_id id t)
unfolding update_refund
update_refund-IsDecided order_id id now = record {
  apply = λ s h. elim (Option-cases (find_unique id s.refunds)) [
    | inl e ↦ ground arith
    | inr (r, e) ↦ ground (arith, find_unique-update_self id (to_processed now) s.refunds r e)
  ];
}

orders_written :
    (order_id refund_id id : ℕ) (f : Order → Order)
    → Keeps
        (IsDecided order_id refund_id)
        (modify (λ s. record s { orders = update id f s.orders }))
orders_written order_id refund_id id f = Keeps-modify _ (λ s h. h)

update_order-IsDecided :
    (order_id refund_id id : ℕ) (f : Order → Order)
    → Keeps (IsDecided order_id refund_id) (update_order id f)
unfolding update_order
update_order-IsDecided order_id refund_id id f = search (keeps_rules, orders_written) depth 9

after_update :
    (order_id id now : ℕ) {B : Type 0} (f : Refund → Action ShopDb B)
    → ((r : Refund) → Keeps (IsDecided order_id id) (f r))
    → Ensures
        (λ _. Unit {0})
        (update_refund id (to_processed now) >>= f)
        (λ _ t. IsDecided order_id id t)
after_update order_id id now f keep =
    Ensures-bind (λ _ t. IsDecided order_id id t) (update_refund-IsDecided order_id id now)
      (λ r. Ensures-of_Keeps (keep r))

process-IsDecided :
    (order_id id now : ℕ)
    → Ensures (λ _. Unit {0}) (process_refund order_id id now) (λ _ t. IsDecided order_id id t)
unfolding process_refund
process-IsDecided order_id id now =
    search (after_update, Ensures-last, keeps_rules, update_order-IsDecided) depth 12

processed-IsDecided :
    (order_id id now : ℕ) (s : ShopDb)
    → OnSuccess (λ _ t. IsDecided order_id id t) (handle_refund_processed order_id (some id) now s)
unfolding handle_refund_processed
processed-IsDecided order_id id now s =
    success_if (IsDecided order_id id) (is_pending_refund_of order_id (find_unique id s.refunds)) _
      _ s (λ _. (process-IsDecided order_id id now).apply s tt) (λ e. e)

succeeded_again :
    (id : ℕ) (s : ShopDb) → IsSettled id s → handle_payment_succeeded id s ≡ (ok tt, s)
unfolding handle_payment_succeeded
succeeded_again id s h = simp h

failed_again :
    (id now : ℕ) (s : ShopDb) → IsSettled id s → handle_payment_failed id now s ≡ (ok tt, s)
unfolding handle_payment_failed
failed_again id now s h = simp h

processed_again :
    (order_id id now : ℕ) (s : ShopDb)
    → IsDecided order_id id s
    → handle_refund_processed order_id (some id) now s ≡ (ok tt, s)
unfolding handle_refund_processed
processed_again order_id id now s h = simp h

refund_again :
    (order_id : ℕ) (refund : Option ℕ) (now now_again : ℕ) (s : ShopDb)
    → (handle_refund_processed order_id refund now s).0 ≡ ok tt
    → handle_refund_processed order_id refund now_again
        (handle_refund_processed order_id refund now s).1
      ≡ (ok tt, (handle_refund_processed order_id refund now s).1)
unfolding handle_refund_processed
refund_again order_id none now now_again s h = refl
refund_again order_id (some id) now now_again s h = processed_again order_id id now_again _ (
    of_success (IsDecided order_id id) (handle_refund_processed order_id (some id) now s) tt h
      (processed-IsDecided order_id id now s))

dispatch_again :
    (type : WebhookEventType) (payload : WebhookPayload) (now now_again : ℕ) (s : ShopDb)
    → (dispatch type payload now s).0 ≡ ok tt
    → dispatch type payload now_again (dispatch type payload now s).1
      ≡ (ok tt, (dispatch type payload now s).1)
dispatch_again WebhookEventType.payment_succeeded payload now now_again s h =
    succeeded_again payload.order_id _ (
      of_success (IsSettled payload.order_id) (handle_payment_succeeded payload.order_id s) tt h
        (succeeded-IsSettled payload.order_id s))
dispatch_again WebhookEventType.payment_failed payload now now_again s h =
    failed_again payload.order_id now_again _ (
      of_success (IsSettled payload.order_id) (handle_payment_failed payload.order_id now s) tt h
        (failed-IsSettled payload.order_id now s))
dispatch_again WebhookEventType.refund_processed payload now now_again s h =
    refund_again payload.order_id payload.refund_id now now_again s h

-- An event of the orders webhook that was handled without a throw changes nothing when it is
-- delivered again: the second delivery succeeds and leaves every table as it was.
pub event_again_changes_nothing :
    (payload : WebhookPayload) (now now_again : ℕ) (s : ShopDb)
    → (handle_event payload now s).0 ≡ ok tt
    → handle_event payload now_again (handle_event payload now s).1
      ≡ (ok tt, (handle_event payload now s).1)
unfolding handle_event
event_again_changes_nothing payload now now_again s h =
    dispatch_again payload.event_type payload now now_again s h
