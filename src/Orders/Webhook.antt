-- ===== src/Orders/Webhook.antt =====
-- The events of the orders webhook (src/orders/services/webhook.service.ts), whose signature the
-- controller has verified.
use collabos_backend.Base.{
  ℕ, Bool, false, ◌&&◌, Option, none, some, ◌==◌, if◌then◌else◌, Action, ◌>>=◌, ◌>>◌, gets,
  some_or_throw, pure, ◌is◌, record_not_found,
}
use collabos_backend.Prisma.{find_unique}
use collabos_backend.Schema.Commerce.{
  OrderStatus, order_status_enum, RefundStatus, refund_status_enum, Order, Refund,
}
use collabos_backend.Orders.State.{ShopDb, update_order}
use collabos_backend.Orders.Checkout.{restock_order}
use collabos_backend.Orders.Service.{to_cancelled}
use collabos_backend.Orders.Refunds.{
  processed_total, update_refund, to_processed, set_status, refunded_status,
}

pub data WebhookEventType : Type 0 where
  payment_succeeded payment_failed refund_processed : WebhookEventType

pub record WebhookPayload : Type 0 where
  pub event_type : WebhookEventType
  pub order_id : ℕ
  pub refund_id : Option ℕ

-- `order && order.status === PENDING_PAYMENT`
abbrev pub awaits_payment : Option Order → Bool
awaits_payment none = false
awaits_payment (some o) = o.status is OrderStatus.pending_payment

unfoldable pub handle_payment_succeeded : ℕ → Action ShopDb (Unit {0})
handle_payment_succeeded order_id = do
  found ← gets (λ s. find_unique order_id s.orders)
  (if awaits_payment found
      then (do update_order order_id (set_status OrderStatus.paid); pure tt)
      else pure tt)

unfoldable pub handle_payment_failed : ℕ → ℕ → Action ShopDb (Unit {0})
handle_payment_failed order_id now = do
  found ← gets (λ s. find_unique order_id s.orders)
  (if awaits_payment found
      then (do
        restock_order order_id
        update_order order_id (to_cancelled (some "Payment failed") now)
        pure tt)
      else pure tt)

-- `refund && refund.orderId === orderId && refund.status === PENDING`
abbrev pub is_pending_refund_of : ℕ → Option Refund → Bool
is_pending_refund_of order_id none = false
is_pending_refund_of order_id (some r) = r.order_id == order_id && r.status is RefundStatus.pending

unfoldable pub process_refund : ℕ → ℕ → ℕ → Action ShopDb (Unit {0})
process_refund order_id refund_id now = do
  found ← gets (λ s. find_unique order_id s.orders)
  order ← some_or_throw found record_not_found
  update_refund refund_id (to_processed now)
  refunded ← gets (λ s. processed_total order_id s.refunds)
  update_order order_id (set_status (refunded_status order.subtotal refunded))
  pure tt

unfoldable pub handle_refund_processed : ℕ → Option ℕ → ℕ → Action ShopDb (Unit {0})
unfolding process_refund
handle_refund_processed order_id none now = pure tt
handle_refund_processed order_id (some refund_id) now = do
  found ← gets (λ s. find_unique refund_id s.refunds)
  (if is_pending_refund_of order_id found then process_refund order_id refund_id now else pure tt)

abbrev pub dispatch : WebhookEventType → WebhookPayload → ℕ → Action ShopDb (Unit {0})
dispatch WebhookEventType.payment_succeeded p now = handle_payment_succeeded p.order_id
dispatch WebhookEventType.payment_failed p now = handle_payment_failed p.order_id now
dispatch WebhookEventType.refund_processed p now =
    handle_refund_processed p.order_id p.refund_id now

unfoldable pub handle_event : WebhookPayload → ℕ → Action ShopDb (Unit {0})
handle_event payload now = dispatch payload.event_type payload now
