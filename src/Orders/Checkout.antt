-- ===== src/Orders/Checkout.antt =====
-- CheckoutService (src/orders/services/checkout.service.ts). The text of a message that names the
-- product and the order is kept without the names.
use collabos_backend.Base.{
  ℕ, ℤ, pos, ◌+ℤ◌, ◌-ℤ◌, neg_ℤ, ltb_ℤ, ◌+◌, ◌*◌, Option, none, some, String, List, [], ◌∷◌, ◌++◌,
  ◌==◌, or_else, if◌then◌else◌, Bool, Action, ◌>>=◌, ◌>>◌, gets, some_or_throw, throw_if, modify,
  pure, transaction, bad_request, conflict, record_not_found,
}
use collabos_backend.Prisma.{Table, find_unique, find_first, find_many, create, delete_many}
use collabos_backend.Schema.Commerce.{
  ProductVariant, StockMovement, StockMovementType, CartItem, Order, OrderItem, OrderStatus,
}
use collabos_backend.Orders.State.{ShopDb, update_variant, create_movement}

pub record CartLineItem : Type 0 where
  pub variant_id : ℕ
  pub sku : String
  pub product_name : String
  pub brand_id : ℕ
  pub unit_price : ℕ
  pub quantity : ℕ
  pub available_stock : ℤ

-- The line of a cart item with its variant and product, which foreign keys keep in place.
unfoldable pub to_line_item : ShopDb → CartItem → Option CartLineItem
to_line_item s item = elim (find_unique item.variant_id s.variants) [
  | none ↦ none
  | some variant ↦ elim (find_unique variant.product_id s.products) [
    | none ↦ none
    | some product ↦ some (record {
      variant_id = item.variant_id;
      sku = variant.sku;
      product_name = product.name;
      brand_id = product.brand_id;
      unit_price = or_else variant.price_override product.price;
      quantity = item.quantity;
      available_stock = variant.stock_quantity;
    })
  ]
]

-- `cart.items.map(...)`
unfoldable pub to_line_items : ShopDb → Table CartItem → Option (List CartLineItem)
to_line_items s [] = some []
to_line_items s ((_, item) ∷ items) = elim (to_line_item s item) [
  | none ↦ none
  | some line ↦ elim (to_line_items s items) [ none ↦ none | some lines ↦ some (line ∷ lines) ]
]

-- The first loop over the lines: is any quantity above what was in stock when the cart was read?
unfoldable pub any_short : List CartLineItem → Bool
any_short [] = Bool.false
any_short (line ∷ lines) =
    if ltb_ℤ line.available_stock (pos line.quantity) then Bool.true else any_short lines

-- `itemsByBrand`: a Map, which keeps its keys in the order in which they came.
unfoldable pub add_line : CartLineItem → List (ℕ × List CartLineItem) → List (ℕ × List CartLineItem)
add_line line [] = (line.brand_id, line ∷ []) ∷ []
add_line line ((brand, lines) ∷ groups) =
    if brand == line.brand_id
    then (brand, lines ++ line ∷ []) ∷ groups
    else (brand, lines) ∷ add_line line groups

unfoldable pub group_from :
    List (ℕ × List CartLineItem) → List CartLineItem → List (ℕ × List CartLineItem)
unfolding add_line
group_from groups [] = groups
group_from groups (line ∷ lines) = group_from (add_line line groups) lines

unfoldable pub items_by_brand : List CartLineItem → List (ℕ × List CartLineItem)
unfolding group_from
items_by_brand lines = group_from [] lines

-- `lines.reduce((sum, line) => sum + line.unitPrice * line.quantity, 0)`
unfoldable pub subtotal_from : ℕ → List CartLineItem → ℕ
subtotal_from sum [] = sum
subtotal_from sum (line ∷ lines) = subtotal_from (sum + line.unit_price * line.quantity) lines

abbrev pub to_order_item : CartLineItem → OrderItem
to_order_item line = record {
  variant_id = line.variant_id;
  product_name = line.product_name;
  sku = line.sku;
  unit_price = line.unit_price;
  quantity = line.quantity;
}

abbrev pub to_order_items : List CartLineItem → List OrderItem
to_order_items [] = []
to_order_items (line ∷ lines) = to_order_item line ∷ to_order_items lines

abbrev pub decrement : ℕ → ProductVariant → ProductVariant
decrement quantity v = record v { stock_quantity = v.stock_quantity -ℤ pos quantity }

abbrev pub sale : CartLineItem → StockMovement
sale line = record {
  variant_id = line.variant_id;
  type = StockMovementType.sale;
  quantity = neg_ℤ (pos line.quantity);
  reason = some "Order";
}

-- The inner loop's body: reserve the stock of one line.
unfoldable pub take_line : CartLineItem → Action ShopDb (Unit {0})
take_line line = do
  found ← gets (λ s. find_unique line.variant_id s.variants)
  variant ← some_or_throw found record_not_found
  throw_if (ltb_ℤ variant.stock_quantity (pos line.quantity)) (conflict "Insufficient stock")
  update_variant line.variant_id (decrement line.quantity)
  create_movement (sale line)

unfoldable pub take_lines : List CartLineItem → Action ShopDb (Unit {0})
unfolding take_line
take_lines [] = pure tt
take_lines (line ∷ lines) = do take_line line; take_lines lines

abbrev pub new_order : ℕ → Option String → ℕ → List CartLineItem → Order
new_order user address brand lines = record {
  buyer_id = user;
  brand_id = brand;
  status = OrderStatus.pending_payment;
  subtotal = subtotal_from 0 lines;
  currency = "USD";
  shipping_address = address;
  cancelled_at = none;
  completed_at = none;
  cancel_reason = none;
  items = to_order_items lines;
}

module _ (user : ℕ) (address : Option String) (key : ℕ → ℕ) where
  -- The outer loop: an order for each brand, under the key that the database gives it.
  unfoldable pub place_orders : List (ℕ × List CartLineItem) → Action ShopDb (List (ℕ × Order))
  unfolding take_lines
  place_orders [] = pure []
  place_orders ((brand, lines) ∷ groups) = do
    let order = new_order user address brand lines
    modify (λ s. record s { orders = create (key brand) order s.orders })
    take_lines lines
    rest ← place_orders groups
    pure ((key brand, order) ∷ rest)

  unfoldable pub checkout : Action ShopDb (List (ℕ × Order))
  unfolding place_orders items_by_brand
  checkout = do
    cart ← gets (λ s. find_first (λ _ owner. owner == user) s.carts)
    (cart_id, _) ← some_or_throw cart (bad_request "Your cart is empty")
    items ← gets (λ s. find_many (λ _ i. i.cart_id == cart_id) s.cart_items)
    throw_if (elim items [ [] ↦ Bool.true | _ ∷ _ ↦ Bool.false ]) (bad_request "Your cart is empty")
    found ← gets (λ s. to_line_items s items)
    lines ← some_or_throw found record_not_found
    throw_if (any_short lines) (conflict "Insufficient stock")
    transaction (do
      orders ← place_orders (items_by_brand lines)
      modify λ s. record s { cart_items = delete_many (λ _ i. i.cart_id == cart_id) s.cart_items }
      pure orders)

abbrev pub increment : ℕ → ProductVariant → ProductVariant
increment quantity v = record v { stock_quantity = v.stock_quantity +ℤ pos quantity }

abbrev pub returned_item : OrderItem → StockMovement
returned_item item = record {
  variant_id = item.variant_id;
  type = StockMovementType.customer_return;
  quantity = pos item.quantity;
  reason = some "Order cancelled";
}

unfoldable pub restock_variants : List OrderItem → Action ShopDb (Unit {0})
restock_variants [] = pure tt
restock_variants (item ∷ items) = do
  update_variant item.variant_id (increment item.quantity)
  restock_variants items

unfoldable pub record_returns : List OrderItem → Action ShopDb (Unit {0})
record_returns [] = pure tt
record_returns (item ∷ items) = do create_movement (returned_item item); record_returns items

-- `restockOrder`: one transaction, all increments and then all movements.
unfoldable pub restock_order : ℕ → Action ShopDb (Unit {0})
unfolding restock_variants record_returns
restock_order id = do
  found ← gets (λ s. find_unique id s.orders)
  elim found [
    | none ↦ pure tt
    | some order ↦ transaction (do restock_variants order.items; record_returns order.items)
  ]
