-- ===== src/Orders/Shipments.antt =====
-- ShipmentsService (src/orders/services/shipments.service.ts).
use collabos_backend.Base.{
  ℕ, not, Option, none, some, String, List, [], ◌∷◌, ◌==◌, Bool, true, if◌then◌else◌, Action, ◌>>=◌,
  ◌>>◌, gets, some_or_throw, throw_if, modify, pure, AuthenticatedUser, ◌is◌, one_of, conflict,
  not_found, record_not_found,
}
use collabos_backend.Prisma.{Table, find_unique, has_key, create, update}
use collabos_backend.Schema.Commerce.{
  OrderStatus, order_status_enum, ShipmentStatus, shipment_status_enum, Order, Shipment,
}
use collabos_backend.Orders.State.{
  ShopDb, find_entity_or_throw, assert_brand_owner_or_admin, update_order,
}

abbrev pub shippable_statuses : List OrderStatus
shippable_statuses = OrderStatus.paid ∷ OrderStatus.fulfilled ∷ []

pub record CreateShipmentDto : Type 0 where
  pub carrier : String
  pub tracking_number : String
  pub tracking_url : Option String

abbrev pub to_fulfilled : Order → Order
to_fulfilled o = record o { status = OrderStatus.fulfilled }

unfoldable pub create_shipment :
    ℕ → AuthenticatedUser → CreateShipmentDto → ℕ → Action ShopDb Shipment
create_shipment order_id user dto key = do
  order ← find_entity_or_throw order_id
  assert_brand_owner_or_admin order user
  throw_if (not (one_of shippable_statuses order.status))
      (conflict "This order cannot be shipped yet")
  let shipment : Shipment = record {
    order_id = order_id;
    carrier = dto.carrier;
    tracking_number = dto.tracking_number;
    tracking_url = dto.tracking_url;
    status = ShipmentStatus.pending;
    shipped_at = none;
    delivered_at = none;
  }
  modify (λ s. record s { shipments = create key shipment s.shipments })
  (if order.status is OrderStatus.paid
      then (do update_order order_id to_fulfilled; pure tt)
      else pure tt)
  pure shipment

unfoldable pub find_shipment_or_throw : ℕ → ℕ → Action ShopDb Shipment
find_shipment_or_throw order_id shipment_id = do
  found ← gets (λ s. find_unique shipment_id s.shipments)
  shipment ← some_or_throw found (not_found "Shipment not found")
  throw_if (not (shipment.order_id == order_id)) (not_found "Shipment not found")
  pure shipment

-- `findMany({ where: { orderId } })` and `every(item => item.status === DELIVERED)`
unfoldable pub all_delivered : ℕ → Table Shipment → Bool
all_delivered order_id [] = true
all_delivered order_id ((_, x) ∷ t) =
    if x.order_id == order_id
    then (if x.status is ShipmentStatus.delivered then all_delivered order_id t else Bool.false)
    else all_delivered order_id t

abbrev pub set_shipment_status : ShipmentStatus → ℕ → Shipment → Shipment
set_shipment_status status now x = record x {
  status = status;
  shipped_at = if status is ShipmentStatus.shipped then some now else x.shipped_at;
  delivered_at = if status is ShipmentStatus.delivered then some now else x.delivered_at;
}

abbrev pub to_completed : ℕ → Order → Order
to_completed now o = record o { status = OrderStatus.completed; completed_at = some now }

-- The order is completed when all its shipments are delivered.
unfoldable pub complete_if_delivered : ℕ → ℕ → Action ShopDb (Unit {0})
complete_if_delivered order_id now = do
  delivered ← gets (λ s. all_delivered order_id s.shipments)
  (if delivered then (do update_order order_id (to_completed now); pure tt) else pure tt)

unfoldable pub update_status :
    ℕ → ℕ → AuthenticatedUser → ShipmentStatus → ℕ → Action ShopDb Shipment
unfolding complete_if_delivered
update_status order_id shipment_id user status now = do
  order ← find_entity_or_throw order_id
  assert_brand_owner_or_admin order user
  shipment ← find_shipment_or_throw order_id shipment_id
  throw_if (not (← gets (λ s. has_key shipment_id s.shipments))) record_not_found
  modify
      λ s. record s { shipments = update shipment_id (set_shipment_status status now) s.shipments }
  (if status is ShipmentStatus.delivered then complete_if_delivered order_id now else pure tt)
  pure (set_shipment_status status now shipment)
