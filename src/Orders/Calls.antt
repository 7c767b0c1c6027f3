-- ===== src/Orders/Calls.antt =====
-- The calls of the shop's endpoints and of its webhook, as steps on the tables.
use collabos_backend.Base.{ℕ, Option, String, List, [], ◌∷◌, AuthenticatedUser}
use collabos_backend.Schema.Commerce.{ShipmentStatus}
use collabos_backend.Orders.State.{ShopDb}
use collabos_backend.Orders.Checkout.{checkout}
use collabos_backend.Orders.Stock.{AdjustStockDto, adjust}
use collabos_backend.Orders.Service.{cancel}
use collabos_backend.Orders.Refunds.{CreateRefundDto, create_refund, approve, reject}
use collabos_backend.Orders.Shipments.{CreateShipmentDto, create_shipment, update_status}
use collabos_backend.Orders.Webhook.{WebhookPayload, handle_event}

-- A call with its caller, its body, the keys of the rows that it may insert and its time.
pub data Call : Type 0 where
  checkout_call : ℕ → Option String → (ℕ → ℕ) → Call
  adjust_call : ℕ → ℕ → AuthenticatedUser → AdjustStockDto → Call
  cancel_call : ℕ → AuthenticatedUser → Option String → ℕ → Call
  create_refund_call : ℕ → AuthenticatedUser → CreateRefundDto → ℕ → Call
  approve_call : ℕ → ℕ → AuthenticatedUser → ℕ → Call
  reject_call : ℕ → ℕ → AuthenticatedUser → String → Call
  create_shipment_call : ℕ → AuthenticatedUser → CreateShipmentDto → ℕ → Call
  update_status_call : ℕ → ℕ → AuthenticatedUser → ShipmentStatus → ℕ → Call
  webhook_call : WebhookPayload → ℕ → Call

-- The tables after a call, which may throw.
unfoldable pub step : Call → ShopDb → ShopDb
step (checkout_call user address key) s = (checkout user address key s).1
step (adjust_call product variant user dto) s = (adjust product variant user dto s).1
step (cancel_call id user reason now) s = (cancel id user reason now s).1
step (create_refund_call id user dto key) s = (create_refund id user dto key s).1
step (approve_call id refund user now) s = (approve id refund user now s).1
step (reject_call id refund user reason) s = (reject id refund user reason s).1
step (create_shipment_call id user dto key) s = (create_shipment id user dto key s).1
step (update_status_call id shipment user status now) s =
    (update_status id shipment user status now s).1
step (webhook_call payload now) s = (handle_event payload now s).1

unfoldable pub run : List Call → ShopDb → ShopDb
unfolding step
run [] s = s
run (c ∷ cs) s = run cs (step c s)
