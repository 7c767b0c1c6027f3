-- ===== src/Orders/Examples.antt =====
-- A shop with one variant, whose stock of 5 was journalled: two pieces are bought, the order is
-- paid, and half of it is refunded.
use collabos_backend.Base.{
  ℕ, ℤ, pos, ◌+ℤ◌, ◌≡◌, ◌==◌, ◌||◌, refl, arith, int_laws, none, some, ok, List, [], ◌∷◌,
  AuthenticatedUser, is_admin, includes, true,
}
use collabos_backend.Prisma.{find_unique, find_many}
use collabos_backend.Schema.Access.{owns_brand}
use collabos_backend.Schema.Commerce.{Order, OrderStatus, Refund, RefundStatus, StockMovementType}
use collabos_backend.Orders.State.{ShopDb, update_order, update_variant, create_movement}
use collabos_backend.Orders.Refunds.{approve, to_processed, processed_total}
use collabos_backend.Orders.Webhook.{
  WebhookEventType, WebhookPayload, handle_event, handle_payment_succeeded,
}
use collabos_backend.Orders.Cart.{
  AddCartItemDto, Cart, add_item, upsert_cart, kept_or_created, put_line, write_quantity,
  get_or_create,
}
use collabos_backend.Orders.Checkout.{
  CartLineItem, items_by_brand, to_line_items, to_line_item, new_order, checkout, place_orders,
  group_from, add_line, take_lines, take_line, any_short, subtotal_from,
}
use collabos_backend.Orders.Costs.{answered, ordered, checkout-costs}
use collabos_backend.Orders.Grouping.{group_of, items_by_brand-lines_of}
use collabos_backend.Orders.Lines.{quantity_in, add_item-adds}
use collabos_backend.Orders.Calls.{Call, checkout_call, adjust_call, cancel_call, run}
use collabos_backend.Orders.Inventory.Balance.{IsBalancedAt}
use collabos_backend.Orders.Inventory.Stocked.{
  IsStockedAt, stock_matches_journal, stock_never_negative,
}
use collabos_backend.Orders.Settlement.{approve_settles}
use collabos_backend.Orders.Idempotence.{event_again_changes_nothing}

abbrev user_named : ℕ → AuthenticatedUser
user_named id = record {
  id = id;
  email = "user@example.com";
  is_email_verified = true;
  is_active = true;
  roles = [];
  permissions = [];
}

abbrev order_with : OrderStatus → Order
order_with status = record {
  buyer_id = 30;
  brand_id = 1;
  status = status;
  subtotal = 40;
  currency = "USD";
  shipping_address = none;
  cancelled_at = none;
  completed_at = none;
  cancel_reason = none;
  items = [];
}

abbrev half : Refund
half = record {
  order_id = 61;
  requested_by_id = 30;
  amount = 20;
  reason = "Damaged";
  status = RefundStatus.pending;
  rejected_reason = none;
  processed_at = none;
}

abbrev start : ShopDb
start = record {
  brands = (1, record { owner_id = 10; is_active = true }) ∷ [];
  products = (2, record { brand_id = 1; name = "Shirt"; price = 20; is_active = true }) ∷ [];
  variants =
      (
        3,
        record {
          product_id = 2;
          sku = "S-1";
          price_override = none;
          stock_quantity = pos 5;
          is_active = true;
        },
      )
      ∷ [];
  movements = [];
  carts = (4, 30) ∷ [];
  cart_items = (5, record { cart_id = 4; variant_id = 3; quantity = 2 }) ∷ [];
  orders = (60, order_with OrderStatus.pending_payment) ∷ (61, order_with OrderStatus.paid) ∷ [];
  refunds = (70, half) ∷ [];
  shipments = [];
}

abbrev calls : List Call
calls =
    checkout_call 30 none (λ brand. 62)
    ∷ adjust_call 2 3 (user_named 10)
        (record { type = StockMovementType.restock; quantity = pos 4; reason = none })
    ∷ cancel_call 62 (user_named 30) none 8
    ∷ []

abbrev opening : ℕ → ℤ
opening k = pos 5

plus_nothing : pos 5 +ℤ pos 0 ≡ pos 5
plus_nothing = omega int_laws

start-IsBalanced : IsBalancedAt opening start.variants start.movements
start-IsBalanced k = rw plus_nothing (ground arith)

start-IsStocked : IsStockedAt start.variants start.movements
start-IsStocked k = ground arith

stock_matches_journal_example :
    IsBalancedAt opening (run calls start).variants (run calls start).movements
stock_matches_journal_example = stock_matches_journal opening calls start start-IsBalanced

stock_never_negative_example : IsStockedAt (run calls start).variants (run calls start).movements
stock_never_negative_example = stock_never_negative calls start start-IsStocked

owner_allowed : is_admin (user_named 10) || owns_brand 1 (user_named 10) start.brands ≡ true
unfolding is_admin includes
owner_allowed = refl

approve_settles_example :
    ((approve 61 70 (user_named 10) 9 start).0 ≡ ok (to_processed 9 half))
    × (processed_total 61 (approve 61 70 (user_named 10) 9 start).1.refunds ≡ 20)
    × (find_unique 61 (approve 61 70 (user_named 10) 9 start).1.orders
        ≡ some (order_with OrderStatus.partially_refunded))
approve_settles_example =
    approve_settles 61 70 (user_named 10) 9 start (order_with OrderStatus.paid) half refl refl
      owner_allowed refl refl

abbrev paid_event : WebhookPayload
paid_event = record {
  event_type = WebhookEventType.payment_succeeded;
  order_id = 60;
  refund_id = none;
}

paid_ok : (handle_event paid_event 9 start).0 ≡ ok tt
unfolding handle_event handle_payment_succeeded update_order
paid_ok = refl

event_again_changes_nothing_example :
    handle_event paid_event 10 (handle_event paid_event 9 start).1
    ≡ (ok tt, (handle_event paid_event 9 start).1)
event_again_changes_nothing_example = event_again_changes_nothing paid_event 9 10 start paid_ok

abbrev line_of : ℕ → ℕ → CartLineItem
line_of brand quantity = record {
  variant_id = 5;
  sku = "sku";
  product_name = "Shirt";
  brand_id = brand;
  unit_price = 20;
  quantity = quantity;
  available_stock = pos 9;
}

abbrev cart_lines : List CartLineItem
cart_lines = line_of 1 2 ∷ line_of 2 1 ∷ line_of 1 3 ∷ []

items_by_brand-lines_of_example :
    group_of 1 (items_by_brand cart_lines) ≡ line_of 1 2 ∷ line_of 1 3 ∷ []
items_by_brand-lines_of_example = items_by_brand-lines_of 1 cart_lines

abbrev bought : List CartLineItem
bought =
    record {
      variant_id = 3;
      brand_id = 1;
      product_name = "Shirt";
      sku = "S-1";
      unit_price = 20;
      quantity = 2;
      available_stock = pos 5;
    }
    ∷ []

was_read : to_line_items start (find_many (λ _ i. i.cart_id == 4) start.cart_items) ≡ some bought
unfolding to_line_items to_line_item
was_read = refl

abbrev placed_order : List (ℕ × Order)
placed_order = (62, new_order 30 none 1 bought) ∷ []

was_placed : (checkout 30 none (λ brand. 62) start).0 ≡ ok placed_order
unfolding checkout place_orders items_by_brand group_from add_line take_lines take_line
    to_line_items to_line_item any_short update_variant create_movement subtotal_from
was_placed = refl

checkout-costs_example :
    (answered placed_order ≡ 40) × (ordered (checkout 30 none (λ brand. 62) start).1 ≡ 120)
checkout-costs_example =
    checkout-costs 30 none (λ brand. 62) start (4, 30) bought placed_order refl was_read was_placed

abbrev more : AddCartItemDto
more = record { variant_id = 3; quantity = 3 }

abbrev raised : Cart
raised = record { id = 4; items = (5, record { cart_id = 4; variant_id = 3; quantity = 5 }) ∷ [] }

was_added : (add_item 30 more 80 81 start).0 ≡ ok raised
unfolding add_item upsert_cart kept_or_created put_line write_quantity get_or_create
was_added = refl

add_item-adds_example : quantity_in 4 3 (add_item 30 more 80 81 start).1.cart_items ≡ 5
add_item-adds_example = add_item-adds 30 80 81 4 3 more start raised (refl, tt) was_added
