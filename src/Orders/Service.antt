-- ===== src/Orders/Service.antt =====
-- OrdersService.cancel (src/orders/services/orders.service.ts).
use collabos_backend.Base.{
  ℕ, Option, some, String, List, [], ◌∷◌, Action, ◌>>=◌, ◌>>◌, throw_if, AuthenticatedUser, one_of,
  conflict,
}
use collabos_backend.Schema.Commerce.{OrderStatus, order_status_enum, Order}
use collabos_backend.Orders.State.{ShopDb, find_entity_or_throw, assert_participant, update_order}
use collabos_backend.Orders.Checkout.{restock_order}

abbrev pub non_cancellable_statuses : List OrderStatus
non_cancellable_statuses = OrderStatus.cancelled ∷ OrderStatus.completed ∷ OrderStatus.refunded ∷ []

abbrev pub to_cancelled : Option String → ℕ → Order → Order
to_cancelled reason now o = record o {
  status = OrderStatus.cancelled;
  cancelled_at = some now;
  cancel_reason = reason;
}

unfoldable pub cancel : ℕ → AuthenticatedUser → Option String → ℕ → Action ShopDb Order
cancel id user reason now = do
  order ← find_entity_or_throw id
  assert_participant order user
  throw_if (one_of non_cancellable_statuses order.status)
      (conflict "This order can no longer be cancelled")
  restock_order id
  update_order id (to_cancelled reason now)
