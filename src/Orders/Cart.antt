-- ===== src/Orders/Cart.antt =====
-- CartService (src/orders/services/cart.service.ts). Each method ends with the cart and its
-- items, which is what `getOrCreate` answers.
use collabos_backend.Base.{
  ℕ, ◌+◌, Bool, not, ◌&&◌, ◌||◌, Option, none, some, ◌==◌, Action, ◌>>=◌, ◌>>◌, pure, gets,
  some_or_throw, throw_if, modify, not_found, record_not_found, unique_violation,
}
use collabos_backend.Prisma.{
  Table, find_unique, find_first, find_many, has_key, create, update, delete, delete_many,
}
use collabos_backend.Schema.Commerce.{CartItem}
use collabos_backend.Orders.State.{ShopDb}

pub record AddCartItemDto : Type 0 where
  pub variant_id : ℕ
  pub quantity : ℕ

pub record Cart : Type 0 where
  pub id : ℕ
  pub items : Table CartItem

-- The row under a unique column is kept, or one is made under the key that the database gives.
unfoldable pub kept_or_created : ℕ → ℕ → Option (ℕ × ℕ) → Action ShopDb ℕ
kept_or_created user key (some (id, owner)) = pure id
kept_or_created user key none = do
  used ← gets (λ s. has_key key s.carts)
  throw_if used unique_violation
  modify (λ s. record s { carts = create key user s.carts })
  pure key

-- `prisma.cart.upsert`
unfoldable pub upsert_cart : ℕ → ℕ → Action ShopDb ℕ
upsert_cart user key = do
  found ← gets (λ s. find_first (λ _ owner. owner == user) s.carts)
  kept_or_created user key found

unfoldable pub get_or_create : ℕ → ℕ → Action ShopDb Cart
get_or_create user key = do
  cart ← upsert_cart user key
  items ← gets (λ s. find_many (λ _ i. i.cart_id == cart) s.cart_items)
  pure (record { id = cart; items = items })

abbrev pub is_line : ℕ → ℕ → ℕ → CartItem → Bool
is_line cart variant _ i = i.cart_id == cart && i.variant_id == variant

abbrev pub with_quantity : ℕ → CartItem → CartItem
with_quantity quantity i = record i { quantity = quantity }

-- `prisma.cartItem.update`
unfoldable pub write_quantity : ℕ → ℕ → Action ShopDb (Unit {0})
write_quantity id quantity = do
  throw_if (not (← gets (λ s. has_key id s.cart_items))) record_not_found
  modify (λ s. record s { cart_items = update id (with_quantity quantity) s.cart_items })

-- The line is raised if it is there, and made if not.
unfoldable pub put_line : ℕ → AddCartItemDto → ℕ → Option (ℕ × CartItem) → Action ShopDb (Unit {0})
put_line cart dto item_key (some (id, existing)) =
    write_quantity id (existing.quantity + dto.quantity)
put_line cart dto item_key none = do
  used ← gets (λ s. has_key item_key s.cart_items)
  throw_if used unique_violation
  modify λ s. record s {
    cart_items =
        create item_key
          (record { cart_id = cart; variant_id = dto.variant_id; quantity = dto.quantity })
          s.cart_items;
  }

-- `addItem`, with the keys of a new cart and of a new item
unfoldable pub add_item : ℕ → AddCartItemDto → ℕ → ℕ → Action ShopDb Cart
add_item user dto key item_key = do
  found ← gets (λ s. find_unique dto.variant_id s.variants)
  variant ← some_or_throw found (not_found "Product variant not found")
  product_found ← gets (λ s. find_unique variant.product_id s.products)
  product ← some_or_throw product_found (not_found "Product variant not found")
  throw_if (not variant.is_active || not product.is_active) (not_found "Product variant not found")
  cart ← upsert_cart user key
  existing ← gets (λ s. find_first (is_line cart dto.variant_id) s.cart_items)
  put_line cart dto item_key existing
  get_or_create user key

-- `findItemOrThrow`; a foreign key keeps the cart of an item in place
unfoldable pub find_item_or_throw : ℕ → ℕ → Action ShopDb CartItem
find_item_or_throw user id = do
  found ← gets (λ s. find_unique id s.cart_items)
  item ← some_or_throw found (not_found "Cart item not found")
  cart ← gets (λ s. find_unique item.cart_id s.carts)
  owner ← some_or_throw cart (not_found "Cart item not found")
  throw_if (not (owner == user)) (not_found "Cart item not found")
  pure item

unfoldable pub update_item : ℕ → ℕ → ℕ → ℕ → Action ShopDb Cart
update_item user id quantity key = do
  item ← find_item_or_throw user id
  write_quantity id quantity
  get_or_create user key

unfoldable pub remove_item : ℕ → ℕ → ℕ → Action ShopDb Cart
remove_item user id key = do
  item ← find_item_or_throw user id
  throw_if (not (← gets (λ s. has_key id s.cart_items))) record_not_found
  modify (λ s. record s { cart_items = delete id s.cart_items })
  get_or_create user key

unfoldable pub clear_cart : ℕ → ℕ → Action ShopDb Cart
clear_cart user key = do
  cart ← upsert_cart user key
  modify λ s. record s { cart_items = delete_many (λ _ i. i.cart_id == cart) s.cart_items }
  get_or_create user key
