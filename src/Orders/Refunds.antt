-- ===== src/Orders/Refunds.antt =====
-- RefundsService (src/orders/services/refunds.service.ts).
use collabos_backend.Base.{
  ℕ, ◌+◌, ltb, leb, not, ◌&&◌, none, some, String, List, [], ◌∷◌, ◌==◌, if◌then◌else◌, Action,
  ◌>>=◌, ◌>>◌, gets, some_or_throw, throw_if, modify, pure, AuthenticatedUser, same_user, ◌is◌,
  one_of, bad_request, conflict, forbidden, not_found, record_not_found,
}
use collabos_backend.Prisma.{Table, find_unique, has_key, create, update, sum}
use collabos_backend.Schema.Commerce.{
  OrderStatus, order_status_enum, RefundStatus, refund_status_enum, Order, Refund,
}
use collabos_backend.Orders.State.{
  ShopDb, find_entity_or_throw, assert_brand_owner_or_admin, update_order,
}

abbrev pub refundable_statuses : List OrderStatus
refundable_statuses =
    OrderStatus.paid ∷ OrderStatus.fulfilled ∷ OrderStatus.completed
    ∷ OrderStatus.partially_refunded ∷ []

pub record CreateRefundDto : Type 0 where
  pub amount : ℕ
  pub reason : String

-- `refund.aggregate({ where: { orderId, status: PROCESSED }, _sum: { amount: true } })`
abbrev pub processed_total : ℕ → Table Refund → ℕ
processed_total order_id =
    sum (λ _ r. r.order_id == order_id && r.status is RefundStatus.processed) (λ r. r.amount)

unfoldable pub create_refund : ℕ → AuthenticatedUser → CreateRefundDto → ℕ → Action ShopDb Refund
create_refund order_id user dto key = do
  order ← find_entity_or_throw order_id
  throw_if (not (same_user order.buyer_id user)) (forbidden "Only the buyer can request a refund")
  throw_if (not (one_of refundable_statuses order.status))
      (conflict "This order is not eligible for a refund")
  refunded_so_far ← gets (λ s. processed_total order_id s.refunds)
  throw_if (ltb order.subtotal (refunded_so_far + dto.amount))
      (bad_request "Refund amount exceeds the remaining refundable balance")
  let refund : Refund = record {
    order_id = order_id;
    requested_by_id = user.id;
    amount = dto.amount;
    reason = dto.reason;
    status = RefundStatus.pending;
    rejected_reason = none;
    processed_at = none;
  }
  modify (λ s. record s { refunds = create key refund s.refunds })
  pure refund

-- `prisma.refund.update`
unfoldable pub update_refund : ℕ → (Refund → Refund) → Action ShopDb Refund
update_refund id f = do
  throw_if (not (← gets (λ s. has_key id s.refunds))) record_not_found
  modify (λ s. record s { refunds = update id f s.refunds })
  found ← gets (λ s. find_unique id s.refunds)
  some_or_throw found record_not_found

unfoldable pub find_pending_refund_or_throw : ℕ → ℕ → Action ShopDb Refund
find_pending_refund_or_throw order_id refund_id = do
  found ← gets (λ s. find_unique refund_id s.refunds)
  refund ← some_or_throw found (not_found "Refund not found")
  throw_if (not (refund.order_id == order_id)) (not_found "Refund not found")
  throw_if (not (refund.status is RefundStatus.pending))
      (conflict "Only pending refunds can be decided")
  pure refund

abbrev pub to_processed : ℕ → Refund → Refund
to_processed now r = record r { status = RefundStatus.processed; processed_at = some now }

abbrev pub to_rejected : String → Refund → Refund
to_rejected reason r = record r { status = RefundStatus.rejected; rejected_reason = some reason }

abbrev pub set_status : OrderStatus → Order → Order
set_status status o = record o { status = status }

-- The order's status by what has been refunded.
abbrev pub refunded_status : ℕ → ℕ → OrderStatus
refunded_status subtotal refunded =
    if leb subtotal refunded then OrderStatus.refunded else OrderStatus.partially_refunded

unfoldable pub approve : ℕ → ℕ → AuthenticatedUser → ℕ → Action ShopDb Refund
approve order_id refund_id user now = do
  order ← find_entity_or_throw order_id
  assert_brand_owner_or_admin order user
  find_pending_refund_or_throw order_id refund_id
  processed ← update_refund refund_id (to_processed now)
  refunded ← gets (λ s. processed_total order_id s.refunds)
  update_order order_id (set_status (refunded_status order.subtotal refunded))
  pure processed

unfoldable pub reject : ℕ → ℕ → AuthenticatedUser → String → Action ShopDb Refund
reject order_id refund_id user reason = do
  order ← find_entity_or_throw order_id
  assert_brand_owner_or_admin order user
  find_pending_refund_or_throw order_id refund_id
  update_refund refund_id (to_rejected reason)
