-- ===== src/Orders/Stock.antt =====
-- StockService.adjust (src/products/services/stock.service.ts) with the look-ups and guards that
-- it takes from ProductsService and ProductVariantsService (src/products/services).
use collabos_backend.Base.{
  ℕ, ℤ, pos, ◌+ℤ◌, ltb_ℤ, not, ◌&&◌, Option, String, ◌==◌, Action, ◌>>=◌, ◌>>◌, gets, some_or_throw,
  throw_if, pure, AuthenticatedUser, is_admin, same_user, bad_request, forbidden, not_found,
}
use collabos_backend.Prisma.{find_unique}
use collabos_backend.Schema.Commerce.{Product, ProductVariant, StockMovement, StockMovementType}
use collabos_backend.Orders.State.{ShopDb, update_variant, create_movement}

pub record AdjustStockDto : Type 0 where
  pub type : StockMovementType
  pub quantity : ℤ
  pub reason : Option String

-- `ProductsService.findEntityOrThrow`
unfoldable pub find_product_or_throw : ℕ → Action ShopDb Product
find_product_or_throw id = do
  found ← gets (λ s. find_unique id s.products)
  some_or_throw found (not_found "Product not found")

-- `ProductsService.assertOwnerOrAdmin`
unfoldable pub assert_owner_or_admin : Product → AuthenticatedUser → Action ShopDb (Unit {0})
assert_owner_or_admin product user = do
  found ← gets (λ s. find_unique product.brand_id s.brands)
  brand ← some_or_throw found (not_found "Brand not found")
  throw_if (not brand.is_active) (not_found "Brand not found")
  throw_if (not (same_user brand.owner_id user) && not (is_admin user))
      (forbidden "You do not have access to this brand")

-- `ProductVariantsService.findVariantOrThrow`
unfoldable pub find_variant_or_throw : ℕ → ℕ → Action ShopDb ProductVariant
find_variant_or_throw product_id variant_id = do
  found ← gets (λ s. find_unique variant_id s.variants)
  variant ← some_or_throw found (not_found "Variant not found")
  throw_if (not (variant.product_id == product_id)) (not_found "Variant not found")
  pure variant

abbrev pub set_stock : ℤ → ProductVariant → ProductVariant
set_stock stock v = record v { stock_quantity = stock }

abbrev pub adjustment : ℕ → AdjustStockDto → StockMovement
adjustment variant_id dto = record {
  variant_id = variant_id;
  type = dto.type;
  quantity = dto.quantity;
  reason = dto.reason;
}

-- `adjust` writes the stock that it computed from its own read.
unfoldable pub adjust : ℕ → ℕ → AuthenticatedUser → AdjustStockDto → Action ShopDb ProductVariant
unfolding find_product_or_throw assert_owner_or_admin find_variant_or_throw
adjust product_id variant_id user dto = do
  product ← find_product_or_throw product_id
  assert_owner_or_admin product user
  variant ← find_variant_or_throw product_id variant_id
  let new_stock = variant.stock_quantity +ℤ dto.quantity
  throw_if (ltb_ℤ new_stock (pos 0)) (bad_request "This adjustment would result in negative stock")
  create_movement (adjustment variant_id dto)
  update_variant variant_id (set_stock new_stock)
  pure (set_stock new_stock variant)
