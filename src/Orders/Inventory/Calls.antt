-- ===== src/Orders/Inventory/Calls.antt =====
-- An invariant of the stock that checkout, restocking and adjusting keep is kept by every call.
use collabos_backend.Base.{
  ℕ, Option, none, some, String, List, [], ◌∷◌, AuthenticatedUser, Keeps, Keeps-bind, Keeps-then,
  Keeps-pure, Keeps-modify, keeps_rules,
}
use collabos_backend.Prisma.{Table}
use collabos_backend.Schema.Commerce.{Order, ProductVariant, StockMovement, Refund, ShipmentStatus}
use collabos_backend.Orders.State.{
  ShopDb, find_entity_or_throw, assert_participant, assert_brand_owner_or_admin, update_order,
}
use collabos_backend.Orders.Checkout.{
  CartLineItem, take_line, take_lines, place_orders, checkout, restock_order,
}
use collabos_backend.Orders.Stock.{AdjustStockDto, adjust}
use collabos_backend.Orders.Service.{cancel}
use collabos_backend.Orders.Refunds.{
  CreateRefundDto, create_refund, update_refund, find_pending_refund_or_throw, approve, reject,
}
use collabos_backend.Orders.Shipments.{
  CreateShipmentDto, create_shipment, find_shipment_or_throw, update_status,
}
use collabos_backend.Orders.Webhook.{
  WebhookPayload, WebhookEventType, dispatch, handle_payment_succeeded, handle_payment_failed,
  handle_refund_processed, handle_event,
}
use collabos_backend.Orders.Calls.{
  Call, checkout_call, adjust_call, cancel_call, create_refund_call, approve_call, reject_call,
  create_shipment_call, update_status_call, webhook_call, step, run,
}

-- A statement about the stock and its journal, at a state of the shop.
abbrev pub OnStock : (Table ProductVariant → List StockMovement → Type 0) → ShopDb → Type 0
OnStock P s = P s.variants s.movements

-- What an invariant of the stock has to show: only these three operations write to it.
pub record IsStockInvariant (P : Table ProductVariant → List StockMovement → Type 0) : Type 0 where
  pub take_line_keeps : (line : CartLineItem) → Keeps (OnStock P) (take_line line)
  pub restock_keeps : (id : ℕ) → Keeps (OnStock P) (restock_order id)
  pub adjust_keeps :
      (product variant : ℕ) (user : AuthenticatedUser) (dto : AdjustStockDto)
      → Keeps (OnStock P) (adjust product variant user dto)

module _ {P : Table ProductVariant → List StockMovement → Type 0} (inv : IsStockInvariant P) where
  open inv use {take_line_keeps, restock_keeps, adjust_keeps}

  take_lines-Keeps : (lines : List CartLineItem) → Keeps (OnStock P) (take_lines lines)
  unfolding take_lines
  take_lines-Keeps [] = Keeps-pure tt
  take_lines-Keeps (line ∷ lines) = Keeps-then (take_line_keeps line) (take_lines-Keeps lines)

  place_orders-Keeps :
      (user : ℕ) (address : Option String) (key : ℕ → ℕ) (groups : List (ℕ × List CartLineItem))
      → Keeps (OnStock P) (place_orders user address key groups)
  unfolding place_orders
  place_orders-Keeps user address key [] = Keeps-pure []
  place_orders-Keeps user address key ((brand, lines) ∷ groups) =
      Keeps-then (Keeps-modify _ (λ s h. h)) (
        Keeps-then (take_lines-Keeps lines)
          (Keeps-bind (place_orders-Keeps user address key groups) (λ rest. Keeps-pure _)))

  checkout-Keeps :
      (user : ℕ) (address : Option String) (key : ℕ → ℕ)
      → Keeps (OnStock P) (checkout user address key)
  unfolding checkout
  checkout-Keeps user address key = search (keeps_rules, Keeps-modify, place_orders-Keeps) depth 12

  find_entity-Keeps : (id : ℕ) → Keeps (OnStock P) (find_entity_or_throw id)
  unfolding find_entity_or_throw
  find_entity-Keeps id = search keeps_rules

  participant-Keeps :
      (order : Order) (user : AuthenticatedUser) → Keeps (OnStock P) (assert_participant order user)
  unfolding assert_participant
  participant-Keeps order user = search keeps_rules

  brand_owner-Keeps :
      (order : Order) (user : AuthenticatedUser)
      → Keeps (OnStock P) (assert_brand_owner_or_admin order user)
  unfolding assert_brand_owner_or_admin
  brand_owner-Keeps order user = search keeps_rules

  update_order-Keeps : (id : ℕ) (f : Order → Order) → Keeps (OnStock P) (update_order id f)
  unfolding update_order
  update_order-Keeps id f = search (keeps_rules, Keeps-modify) depth 9

  update_refund-Keeps : (id : ℕ) (f : Refund → Refund) → Keeps (OnStock P) (update_refund id f)
  unfolding update_refund
  update_refund-Keeps id f = search (keeps_rules, Keeps-modify) depth 9

  pending_refund-Keeps :
      (id refund : ℕ) → Keeps (OnStock P) (find_pending_refund_or_throw id refund)
  unfolding find_pending_refund_or_throw
  pending_refund-Keeps id refund = search keeps_rules depth 9

  shipment-Keeps : (id shipment : ℕ) → Keeps (OnStock P) (find_shipment_or_throw id shipment)
  unfolding find_shipment_or_throw
  shipment-Keeps id shipment = search keeps_rules depth 9

  ruleset reads = (
    keeps_rules, Keeps-modify, find_entity-Keeps, participant-Keeps, brand_owner-Keeps,
    update_order-Keeps, update_refund-Keeps, pending_refund-Keeps, shipment-Keeps,
  )

  cancel-Keeps :
      (id : ℕ) (user : AuthenticatedUser) (reason : Option String) (now : ℕ)
      → Keeps (OnStock P) (cancel id user reason now)
  unfolding cancel
  cancel-Keeps id user reason now = search (reads, restock_keeps) depth 9

  create_refund-Keeps :
      (id : ℕ) (user : AuthenticatedUser) (dto : CreateRefundDto) (key : ℕ)
      → Keeps (OnStock P) (create_refund id user dto key)
  unfolding create_refund
  create_refund-Keeps id user dto key = search reads depth 12

  approve-Keeps :
      (id refund : ℕ) (user : AuthenticatedUser) (now : ℕ)
      → Keeps (OnStock P) (approve id refund user now)
  unfolding approve
  approve-Keeps id refund user now = search reads depth 12

  reject-Keeps :
      (id refund : ℕ) (user : AuthenticatedUser) (reason : String)
      → Keeps (OnStock P) (reject id refund user reason)
  unfolding reject
  reject-Keeps id refund user reason = search reads depth 12

  create_shipment-Keeps :
      (id : ℕ) (user : AuthenticatedUser) (dto : CreateShipmentDto) (key : ℕ)
      → Keeps (OnStock P) (create_shipment id user dto key)
  unfolding create_shipment
  create_shipment-Keeps id user dto key = search reads depth 12

  update_status-Keeps :
      (id shipment : ℕ) (user : AuthenticatedUser) (status : ShipmentStatus) (now : ℕ)
      → Keeps (OnStock P) (update_status id shipment user status now)
  unfolding update_status
  update_status-Keeps id shipment user status now = search reads depth 15

  refund_processed-Keeps :
      (id : ℕ) (refund : Option ℕ) (now : ℕ)
      → Keeps (OnStock P) (handle_refund_processed id refund now)
  unfolding handle_refund_processed
  refund_processed-Keeps id none now = Keeps-pure tt
  refund_processed-Keeps id (some refund) now = search reads depth 12

  payment_succeeded-Keeps : (id : ℕ) → Keeps (OnStock P) (handle_payment_succeeded id)
  unfolding handle_payment_succeeded
  payment_succeeded-Keeps id = search reads depth 12

  payment_failed-Keeps : (id now : ℕ) → Keeps (OnStock P) (handle_payment_failed id now)
  unfolding handle_payment_failed
  payment_failed-Keeps id now = search (reads, restock_keeps) depth 12

  event-Keeps : (payload : WebhookPayload) (now : ℕ) → Keeps (OnStock P) (handle_event payload now)
  unfolding handle_event
  event-Keeps payload now = dispatch-Keeps payload.event_type
    where
      dispatch-Keeps : (type : WebhookEventType) → Keeps (OnStock P) (dispatch type payload now)
      dispatch-Keeps WebhookEventType.payment_succeeded = payment_succeeded-Keeps payload.order_id
      dispatch-Keeps WebhookEventType.payment_failed = payment_failed-Keeps payload.order_id now
      dispatch-Keeps WebhookEventType.refund_processed =
          refund_processed-Keeps payload.order_id payload.refund_id now

  step-OnStock : (c : Call) (s : ShopDb) → OnStock P s → OnStock P (step c s)
  unfolding step
  step-OnStock (checkout_call user address key) = (checkout-Keeps user address key).apply
  step-OnStock (adjust_call product variant user dto) =
      (adjust_keeps product variant user dto).apply
  step-OnStock (cancel_call id user reason now) = (cancel-Keeps id user reason now).apply
  step-OnStock (create_refund_call id user dto key) = (create_refund-Keeps id user dto key).apply
  step-OnStock (approve_call id refund user now) = (approve-Keeps id refund user now).apply
  step-OnStock (reject_call id refund user reason) = (reject-Keeps id refund user reason).apply
  step-OnStock (create_shipment_call id user dto key) =
      (create_shipment-Keeps id user dto key).apply
  step-OnStock (update_status_call id shipment user status now) =
      (update_status-Keeps id shipment user status now).apply
  step-OnStock (webhook_call payload now) = (event-Keeps payload now).apply

  pub run-OnStock : (cs : List Call) (s : ShopDb) → OnStock P s → OnStock P (run cs s)
  unfolding run
  run-OnStock [] s h = h
  run-OnStock (c ∷ cs) s h = run-OnStock cs (step c s) (step-OnStock c s h)
