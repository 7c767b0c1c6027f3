-- ===== src/Schema/Commerce.antt =====
-- Variants, stock movements, carts, orders, refunds and shipments (prisma/schema.prisma).
use collabos_backend.Base.{ℕ, ℤ, ◌≡◌, Bool, Option, String, List, Enum, arith}

pub data StockMovementType : Type 0 where
  restock sale adjustment customer_return : StockMovementType

abbrev stock_movement_type_code : StockMovementType → ℕ
stock_movement_type_code StockMovementType.restock = 0
stock_movement_type_code StockMovementType.sale = 1
stock_movement_type_code StockMovementType.adjustment = 2
stock_movement_type_code StockMovementType.customer_return = 3

pub stock_movement_type_code_injective :
    (a b : StockMovementType) → stock_movement_type_code a ≡ stock_movement_type_code b → a ≡ b
stock_movement_type_code_injective a b h = ground arith

instance abbrev pub stock_movement_type_enum : Enum StockMovementType
stock_movement_type_enum = record {
  code = stock_movement_type_code;
  code_injective = stock_movement_type_code_injective;
}

pub data OrderStatus : Type 0 where
  pending_payment paid fulfilled completed cancelled refunded partially_refunded : OrderStatus

abbrev order_status_code : OrderStatus → ℕ
order_status_code OrderStatus.pending_payment = 0
order_status_code OrderStatus.paid = 1
order_status_code OrderStatus.fulfilled = 2
order_status_code OrderStatus.completed = 3
order_status_code OrderStatus.cancelled = 4
order_status_code OrderStatus.refunded = 5
order_status_code OrderStatus.partially_refunded = 6

pub order_status_code_injective :
    (a b : OrderStatus) → order_status_code a ≡ order_status_code b → a ≡ b
order_status_code_injective a b h = ground arith

instance abbrev pub order_status_enum : Enum OrderStatus
order_status_enum = record {
  code = order_status_code;
  code_injective = order_status_code_injective;
}

pub data RefundStatus : Type 0 where
  pending approved rejected processed : RefundStatus

abbrev refund_status_code : RefundStatus → ℕ
refund_status_code RefundStatus.pending = 0
refund_status_code RefundStatus.approved = 1
refund_status_code RefundStatus.rejected = 2
refund_status_code RefundStatus.processed = 3

pub refund_status_code_injective :
    (a b : RefundStatus) → refund_status_code a ≡ refund_status_code b → a ≡ b
refund_status_code_injective a b h = ground arith

instance abbrev pub refund_status_enum : Enum RefundStatus
refund_status_enum = record {
  code = refund_status_code;
  code_injective = refund_status_code_injective;
}

pub data ShipmentStatus : Type 0 where
  pending shipped in_transit delivered returned : ShipmentStatus

abbrev shipment_status_code : ShipmentStatus → ℕ
shipment_status_code ShipmentStatus.pending = 0
shipment_status_code ShipmentStatus.shipped = 1
shipment_status_code ShipmentStatus.in_transit = 2
shipment_status_code ShipmentStatus.delivered = 3
shipment_status_code ShipmentStatus.returned = 4

pub shipment_status_code_injective :
    (a b : ShipmentStatus) → shipment_status_code a ≡ shipment_status_code b → a ≡ b
shipment_status_code_injective a b h = ground arith

instance abbrev pub shipment_status_enum : Enum ShipmentStatus
shipment_status_enum = record {
  code = shipment_status_code;
  code_injective = shipment_status_code_injective;
}

pub record Product : Type 0 where
  pub brand_id : ℕ
  pub name : String
  pub price : ℕ
  pub is_active : Bool

pub record ProductVariant : Type 0 where
  pub product_id : ℕ
  pub sku : String
  pub price_override : Option ℕ
  pub stock_quantity : ℤ
  pub is_active : Bool

pub record StockMovement : Type 0 where
  pub variant_id : ℕ
  pub type : StockMovementType
  pub quantity : ℤ
  pub reason : Option String

pub record CartItem : Type 0 where
  pub cart_id : ℕ
  pub variant_id : ℕ
  pub quantity : ℕ

pub record OrderItem : Type 0 where
  pub variant_id : ℕ
  pub product_name : String
  pub sku : String
  pub unit_price : ℕ
  pub quantity : ℕ

pub record Order : Type 0 where
  pub buyer_id : ℕ
  pub brand_id : ℕ
  pub status : OrderStatus
  pub subtotal : ℕ
  pub currency : String
  pub shipping_address : Option String
  pub cancelled_at : Option ℕ
  pub completed_at : Option ℕ
  pub cancel_reason : Option String
  pub items : List OrderItem

pub record Refund : Type 0 where
  pub order_id : ℕ
  pub requested_by_id : ℕ
  pub amount : ℕ
  pub reason : String
  pub status : RefundStatus
  pub rejected_reason : Option String
  pub processed_at : Option ℕ

pub record Shipment : Type 0 where
  pub order_id : ℕ
  pub carrier : String
  pub tracking_number : String
  pub tracking_url : Option String
  pub status : ShipmentStatus
  pub shipped_at : Option ℕ
  pub delivered_at : Option ℕ
