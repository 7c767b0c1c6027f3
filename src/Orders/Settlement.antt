-- ===== src/Orders/Settlement.antt =====
-- A refund that the brand approves: the amounts and the order's status after it.
use collabos_backend.Base.{
  ℕ, ◌+◌, ◌≡◌, refl, true, some, ◌==◌, ◌is◌, ◌||◌, ◌&&◌, ok, arith, AuthenticatedUser, is_admin,
  if◌then◌else◌,
}
use collabos_backend.Prisma.{find_unique, update, find_unique-update_self, sum-update}
use collabos_backend.Schema.Access.{owns_brand}
use collabos_backend.Schema.Commerce.{
  order_status_enum, RefundStatus, refund_status_enum, Order, Refund,
}
use collabos_backend.Orders.State.{
  ShopDb, find_entity_or_throw, assert_brand_owner_or_admin, update_order,
}
use collabos_backend.Orders.Refunds.{
  processed_total, update_refund, find_pending_refund_or_throw, to_processed, set_status,
  refunded_status, approve,
}

module _ (order_id refund_id : ℕ) (user : AuthenticatedUser) (now : ℕ) (s : ShopDb) (order : Order)
    (refund : Refund) (found_order : find_unique order_id s.orders ≡ some order)
    (found_refund : find_unique refund_id s.refunds ≡ some refund)
    (allowed : is_admin user || owns_brand order.brand_id user s.brands ≡ true)
    (same_order : refund.order_id == order_id ≡ true)
    (pending : refund.status is RefundStatus.pending ≡ true) where
  abbrev approved : ShopDb
  approved = record s {
    refunds = update refund_id (to_processed now) s.refunds;
    orders =
        update order_id
          (set_status (
            refunded_status order.subtotal
              (processed_total order_id (update refund_id (to_processed now) s.refunds))))
          s.orders;
  }

  approve_lem : approve order_id refund_id user now s ≡ (ok (to_processed now refund), approved)
  unfolding approve find_entity_or_throw assert_brand_owner_or_admin find_pending_refund_or_throw
      update_refund update_order
  approve_lem = ground (
    arith,
    find_unique-update_self refund_id (to_processed now) s.refunds refund found_refund,
    find_unique-update_self order_id
        (set_status (
          refunded_status order.subtotal
            (processed_total order_id (update refund_id (to_processed now) s.refunds))))
        s.orders order found_order,
  )

  counted_before :
      (if refund.order_id == order_id && refund.status is RefundStatus.processed
        then refund.amount
        else 0)
      ≡ 0
  counted_before = ground arith

  counted_after :
      (if (to_processed now refund).order_id == order_id
          && (to_processed now refund).status is RefundStatus.processed
        then (to_processed now refund).amount
        else 0)
      ≡ refund.amount
  counted_after = ground arith

  processed_total-approve :
      processed_total order_id (update refund_id (to_processed now) s.refunds)
      ≡ processed_total order_id s.refunds + refund.amount
  processed_total-approve = omega (
    arith,
    counted_after,
    counted_before,
    sum-update (λ _ r. r.order_id == order_id && r.status is RefundStatus.processed) (λ r. r.amount)
        refund_id (to_processed now) s.refunds refund found_refund,
  )

  order_after :
      find_unique order_id approved.orders
      ≡ some (
          set_status
            (refunded_status order.subtotal (processed_total order_id s.refunds + refund.amount))
            order)
  order_after = rw⁻¹ processed_total-approve (
      find_unique-update_self order_id
        (set_status (
          refunded_status order.subtotal
            (processed_total order_id (update refund_id (to_processed now) s.refunds))))
        s.orders order found_order)

  settles :
      ((approve order_id refund_id user now s).0 ≡ ok (to_processed now refund))
      × (processed_total order_id (approve order_id refund_id user now s).1.refunds
          ≡ processed_total order_id s.refunds + refund.amount)
      × (find_unique order_id (approve order_id refund_id user now s).1.orders
          ≡ some (
              set_status
                (refunded_status order.subtotal
                  (processed_total order_id s.refunds + refund.amount))
                order))
  settles = rw approve_lem (refl, processed_total-approve, order_after)

-- Approving a pending refund of an order, by an administrator or the brand's owner, succeeds: the
-- refund is processed, the order's processed total grows by its amount, and the order is refunded
-- when that total reaches its subtotal and partially refunded otherwise.
pub approve_settles :
    (order_id refund_id : ℕ) (user : AuthenticatedUser) (now : ℕ) (s : ShopDb) (order : Order)
    (refund : Refund)
    → find_unique order_id s.orders ≡ some order
    → find_unique refund_id s.refunds ≡ some refund
    → is_admin user || owns_brand order.brand_id user s.brands ≡ true
    → refund.order_id == order_id ≡ true
    → refund.status is RefundStatus.pending ≡ true
    → ((approve order_id refund_id user now s).0 ≡ ok (to_processed now refund))
      × (processed_total order_id (approve order_id refund_id user now s).1.refunds
          ≡ processed_total order_id s.refunds + refund.amount)
      × (find_unique order_id (approve order_id refund_id user now s).1.orders
          ≡ some (
              set_status
                (refunded_status order.subtotal
                  (processed_total order_id s.refunds + refund.amount))
                order))
approve_settles order_id refund_id user now s order refund found_order found_refund allowed
      same_order pending =
    settles order_id refund_id user now s order refund found_order found_refund allowed same_order
      pending
