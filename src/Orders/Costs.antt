-- ===== src/Orders/Costs.antt =====
-- What the orders of a checkout cost (src/orders/services/checkout.service.ts).
use collabos_backend.Base.{
  ℕ, ◌+◌, ◌≡◌, refl, true, Option, some, String, List, [], ◌∷◌, ◌==◌, arith, ok, Result-cases, inl,
  inr, Keeps, Keeps-pure, Ensures, OnSuccess, Ensures-bind, Keeps-bind, Ensures-of_Keeps,
  of_reached,
}
use collabos_backend.Prisma.{find_first, find_many, sum, create}
use collabos_backend.Schema.Commerce.{Order}
use collabos_backend.Orders.State.{ShopDb, update_variant, create_movement}
use collabos_backend.Orders.Checkout.{
  CartLineItem, items_by_brand, subtotal_from, new_order, take_line, take_lines, place_orders,
  to_line_items, checkout,
}
use collabos_backend.Orders.Grouping.{total, order_total, order_total-items_by_brand}

-- The subtotals of the orders that the checkout answers.
abbrev pub answered : List (ℕ × Order) → ℕ
answered [] = 0
answered ((k, order) ∷ orders) = order.subtotal + answered orders

-- The subtotals of all stored orders.
abbrev pub ordered : ShopDb → ℕ
ordered s = sum (λ _ o. true) (λ o. o.subtotal) s.orders

abbrev Costs : ℕ → ShopDb → Type 0
Costs n s = ordered s ≡ n

take_line-Costs : (n : ℕ) (line : CartLineItem) → Keeps (Costs n) (take_line line)
unfolding take_line update_variant create_movement
take_line-Costs n line = record { apply = λ s h. ground (arith, h) }

take_lines-Costs : (n : ℕ) (lines : List CartLineItem) → Keeps (Costs n) (take_lines lines)
unfolding take_lines
take_lines-Costs n [] = Keeps-pure tt
take_lines-Costs n (line ∷ lines) =
    Keeps-bind (take_line-Costs n line) (λ u. take_lines-Costs n lines)

module _ (user : ℕ) (address : Option String) (key : ℕ → ℕ) where
  placed :
      (groups : List (ℕ × List CartLineItem)) (n : ℕ)
      → Ensures
          (Costs n)
          (place_orders user address key groups)
          (λ orders t. (answered orders ≡ order_total groups) × Costs (n + order_total groups) t)
  unfolding place_orders
  placed [] n = record { apply = λ s h. (omega arith, omega (arith, h)) }
  placed ((brand, lines) ∷ groups) n =
      let m = n + subtotal_from 0 lines in
      record {
        apply = λ s h.
            (Ensures-bind (λ _ t. Costs m t) (Ensures-of_Keeps (take_lines-Costs m lines))
                (λ u.
                  Ensures-bind
                    (λ orders t.
                      (answered orders ≡ order_total groups) × Costs (m + order_total groups) t)
                    (placed groups m)
                    (λ rest. record {
                      apply = λ t costs. (ground (arith, costs), ground (arith, costs));
                    }))).apply
              (record s {
                orders = create (key brand) (new_order user address brand lines) s.orders;
              })
              (ground (arith, h));
      }

  checkout_ends :
      (s : ShopDb) (cart : ℕ × ℕ) (lines : List CartLineItem)
      → find_first (λ _ owner. owner == user) s.carts ≡ some cart
      → to_line_items s (find_many (λ _ i. i.cart_id == cart.0) s.cart_items) ≡ some lines
      → OnSuccess
          (λ orders t. (answered orders ≡ total lines) × (ordered t ≡ ordered s + total lines))
          (checkout user address key s)
  unfolding checkout
  checkout_ends s cart lines found read =
      let after = (placed (items_by_brand lines) (ordered s)).apply s refl in
      elim (Result-cases (place_orders user address key (items_by_brand lines) s).0) [
        | inl (orders, e) ↦ ground (arith, found, read, e, after, order_total-items_by_brand lines)
        | inr (x, e) ↦ ground (arith, found, read, e)
      ]

-- When a checkout succeeds, the subtotals of the orders that it returns add up to what the cart's
-- lines cost, and the stored orders cost that much more than before.
pub checkout-costs :
    (user : ℕ) (address : Option String) (key : ℕ → ℕ) (s : ShopDb) (cart : ℕ × ℕ)
    (lines : List CartLineItem) (orders : List (ℕ × Order))
    → find_first (λ _ owner. owner == user) s.carts ≡ some cart
    → to_line_items s (find_many (λ _ i. i.cart_id == cart.0) s.cart_items) ≡ some lines
    → (checkout user address key s).0 ≡ ok orders
    → (answered orders ≡ total lines)
      × (ordered (checkout user address key s).1 ≡ ordered s + total lines)
checkout-costs user address key s cart lines orders found read done =
    of_reached (λ answer t. (answered answer ≡ total lines) × (ordered t ≡ ordered s + total lines))
      s (checkout user address key) orders
      (record { apply = checkout_ends user address key s cart lines found read }) done
