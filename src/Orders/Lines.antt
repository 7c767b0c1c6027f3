-- ===== src/Orders/Lines.antt =====
-- What the operations of a cart do to the quantities in it (src/orders/services/cart.service.ts).
use collabos_backend.Base.{
  Bool-cases, Option-cases, inl, inr, ℕ, ◌+◌, ◌≡◌, true, ◌&&◌, ◌==◌, none, some, arith, ok,
  if◌then◌else◌, OnSuccess, Action, ◌>>=◌, ◌>>◌, Keeps, Reaches, Reaches-gets, Reaches-some,
  Reaches-throw_if, Reaches-bind, Ensures-of_Keeps, of_reached, gets,
}
use collabos_backend.Prisma.{
  Table, find_unique, find_first, has_key, create, update, sum, sum-update, IsDistinct,
  find_unique_of_find_first, find_first_fits,
}
use collabos_backend.Schema.Commerce.{CartItem}
use collabos_backend.Orders.State.{ShopDb}
use collabos_backend.Orders.Cart.{
  AddCartItemDto, Cart, is_line, with_quantity, kept_or_created, upsert_cart, get_or_create,
  write_quantity, put_line, add_item,
}

-- How much of a variant lies in a cart.
abbrev pub quantity_in : ℕ → ℕ → Table CartItem → ℕ
quantity_in cart variant = sum (is_line cart variant) (λ i. i.quantity)

raised :
    (cart variant c v id quantity : ℕ) (existing : CartItem) (t : Table CartItem)
    → find_unique id t ≡ some existing
    → is_line c v id existing ≡ true
    → quantity_in cart variant (update id (with_quantity (existing.quantity + quantity)) t)
      ≡ quantity_in cart variant t + (if c == cart && v == variant then quantity else 0)
raised cart variant c v id quantity existing t e line = ground (
  arith,
  line,
  sum-update (is_line cart variant) (λ i. i.quantity) id
      (with_quantity (existing.quantity + quantity)) t existing e,
)

-- The cart that the user has, or will have under the key.
abbrev pub cart_id : ℕ → ℕ → Table ℕ → ℕ
cart_id user key carts = elim (find_first (λ _ owner. owner == user) carts) [
  | none ↦ key
  | some (id, owner) ↦ id
]

put_line-adds :
    (cart variant c item_key : ℕ) (dto : AddCartItemDto) (s : ShopDb)
    → IsDistinct s.cart_items
    → OnSuccess
        (λ _ t.
          quantity_in cart variant t.cart_items
          ≡ quantity_in cart variant s.cart_items
            + (if c == cart && dto.variant_id == variant then dto.quantity else 0))
        (put_line c dto item_key (find_first (is_line c dto.variant_id) s.cart_items) s)
unfolding put_line write_quantity
put_line-adds cart variant c item_key dto s distinct =
    elim (Option-cases (find_first (is_line c dto.variant_id) s.cart_items)) [
      | inl e ↦ ground (arith, e)
      | inr (v, e) ↦ ground (
        arith,
        e,
        raised cart variant c dto.variant_id v.0 dto.quantity v.1 s.cart_items
            (find_unique_of_find_first (is_line c dto.variant_id) s.cart_items v.0 v.1 distinct e)
            (find_first_fits (is_line c dto.variant_id) s.cart_items v.0 v.1 e),
      )
    ]

Reaches-upsert :
    {B : Type 0} {Q : B → ShopDb → Type 0} (user key : ℕ) (s : ShopDb) (g : ℕ → Action ShopDb B)
    → ((carts : Table ℕ) → Reaches Q (record s { carts = carts }) (g (cart_id user key s.carts)))
    → Reaches Q s (upsert_cart user key >>= g)
unfolding upsert_cart kept_or_created
Reaches-upsert user key s g h =
    elim (Option-cases (find_first (λ _ owner. owner == user) s.carts)) [
      | inr (v, e) ↦ record { apply = ground (arith, e, (h s.carts).apply) }
      | inl e ↦ elim (Bool-cases (has_key key s.carts)) [
        | inl used ↦ record { apply = ground (arith, e, used) }
        | inr free ↦ record { apply = ground (arith, e, free, (h (create key user s.carts)).apply) }
      ]
    ]

-- The answer of every method leaves the lines as they are.
get_or_create-Keeps :
    (cart variant total user key : ℕ)
    → Keeps (λ t. quantity_in cart variant t.cart_items ≡ total) (get_or_create user key)
unfolding get_or_create upsert_cart kept_or_created
get_or_create-Keeps cart variant total user key = record {
  apply = λ s h. elim (Option-cases (find_first (λ _ owner. owner == user) s.carts)) [
    | inl e ↦ ground (arith, e, h)
    | inr (v, e) ↦ ground (arith, e, h)
  ];
}

module _ (user : ℕ) (dto : AddCartItemDto) (key item_key cart variant : ℕ) (s : ShopDb)
    (distinct : IsDistinct s.cart_items) where
  -- The quantities once the line is put.
  abbrev IsAdded : ShopDb → Type 0
  IsAdded t =
      quantity_in cart variant t.cart_items
      ≡ quantity_in cart variant s.cart_items
        + (if cart_id user key s.carts == cart && dto.variant_id == variant
            then dto.quantity
            else 0)

  put_then_answer :
      (carts : Table ℕ)
      → Reaches
          (λ _ t. IsAdded t)
          (record s { carts = carts })
          (gets (λ x. find_first (is_line (cart_id user key s.carts) dto.variant_id) x.cart_items)
            >>= λ existing.
                put_line (cart_id user key s.carts) dto item_key existing >> get_or_create user key)
  put_then_answer carts =
      let put =
        put_line (cart_id user key s.carts) dto item_key
          (find_first (is_line (cart_id user key s.carts) dto.variant_id) s.cart_items) in
      let after =
        Reaches-bind (λ _ t. IsAdded t) put (λ _. get_or_create user key)
          (record {
            apply =
                put_line-adds cart variant (cart_id user key s.carts) item_key dto
                  (record s { carts = carts }) distinct;
          })
          (λ done. Ensures-of_Keeps (get_or_create-Keeps cart variant _ user key)) in
      record { apply = after.apply }

  add_item-Reaches : Reaches (λ _ t. IsAdded t) s (add_item user dto key item_key)
  unfolding add_item
  add_item-Reaches =
      search (Reaches-gets, Reaches-some, Reaches-throw_if, Reaches-upsert, put_then_answer) depth
        20

-- Adding an item raises what the user's cart holds of the variant by the quantity, in the line
-- that is there or in a new one, and changes no other variant and no other cart. It is assumed
-- that the call succeeds and that the keys of cart items were distinct.
pub add_item-adds :
    (user key item_key cart variant : ℕ) (dto : AddCartItemDto) (s : ShopDb) (answer : Cart)
    → IsDistinct s.cart_items
    → (add_item user dto key item_key s).0 ≡ ok answer
    → quantity_in cart variant (add_item user dto key item_key s).1.cart_items
      ≡ quantity_in cart variant s.cart_items
        + (if cart_id user key s.carts == cart && dto.variant_id == variant
            then dto.quantity
            else 0)
add_item-adds user key item_key cart variant dto s answer distinct h =
    of_reached (λ _ t. IsAdded user dto key item_key cart variant s distinct t) s
      (add_item user dto key item_key) answer
      (add_item-Reaches user dto key item_key cart variant s distinct) h
