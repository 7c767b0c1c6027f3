-- ===== src/Orders/State.antt =====
-- The tables of the shop (carts, variants, orders, refunds, shipments), and the reads and guards
-- of OrdersService (src/orders/services/orders.service.ts) that its sibling services call.
use collabos_backend.Base.{
  ℕ, not, ◌||◌, List, ◌∷◌, Action, ◌>>=◌, ◌>>◌, gets, some_or_throw, throw_if, modify,
  AuthenticatedUser, is_admin, same_user, forbidden, not_found, record_not_found,
}
use collabos_backend.Prisma.{Table, find_unique, has_key, update}
use collabos_backend.Schema.Collaboration.{Brand}
use collabos_backend.Schema.Access.{owns_brand}
use collabos_backend.Schema.Commerce.{
  Product, ProductVariant, StockMovement, CartItem, Order, Refund, Shipment,
}

pub record ShopDb : Type 0 where
  pub brands : Table Brand
  pub products : Table Product
  pub variants : Table ProductVariant
  -- the newest first
  pub movements : List StockMovement
  -- the owner of each cart
  pub carts : Table ℕ
  pub cart_items : Table CartItem
  pub orders : Table Order
  pub refunds : Table Refund
  pub shipments : Table Shipment

-- `findEntityOrThrow`
unfoldable pub find_entity_or_throw : ℕ → Action ShopDb Order
find_entity_or_throw id = do
  found ← gets (λ s. find_unique id s.orders)
  some_or_throw found (not_found "Order not found")

unfoldable pub assert_participant : Order → AuthenticatedUser → Action ShopDb (Unit {0})
assert_participant order user = do
  owner ← gets (λ s. owns_brand order.brand_id user s.brands)
  throw_if (not (same_user order.buyer_id user || is_admin user || owner))
      (forbidden "You do not have access to this order")

unfoldable pub assert_brand_owner_or_admin : Order → AuthenticatedUser → Action ShopDb (Unit {0})
assert_brand_owner_or_admin order user = do
  owner ← gets (λ s. owns_brand order.brand_id user s.brands)
  throw_if (not (is_admin user || owner)) (forbidden "You do not have access to this order")

-- `prisma.order.update`, which gives the row back.
unfoldable pub update_order : ℕ → (Order → Order) → Action ShopDb Order
update_order id f = do
  throw_if (not (← gets (λ s. has_key id s.orders))) record_not_found
  modify (λ s. record s { orders = update id f s.orders })
  found ← gets (λ s. find_unique id s.orders)
  some_or_throw found record_not_found

-- `prisma.productVariant.update`
unfoldable pub update_variant : ℕ → (ProductVariant → ProductVariant) → Action ShopDb (Unit {0})
update_variant id f = do
  throw_if (not (← gets (λ s. has_key id s.variants))) record_not_found
  modify (λ s. record s { variants = update id f s.variants })

-- `prisma.stockMovement.create`
unfoldable pub create_movement : StockMovement → Action ShopDb (Unit {0})
create_movement m = modify (λ s. record s { movements = m ∷ s.movements })
