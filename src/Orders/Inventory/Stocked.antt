-- ===== src/Orders/Inventory/Stocked.antt =====
-- The two invariants of the stock under the calls of the shop (src/orders, src/products).
use native.Mathlib.Decide.{ℕ_discrete}
use collabos_backend.Base.{
  ℕ, ℤ, pos, ◌+ℤ◌, ◌-ℤ◌, ◌≤ℤ◌, ltb_ℤ, -ℤ_parts, +ℤ_parts, ◌≡◌, refl, inl, inr, Option, none, some,
  false, List, [], ◌∷◌, Option-cases, AuthenticatedUser, Keeps, Keeps-bind, Keeps-then, Keeps-pure,
  Keeps-modify, Keeps-gets, Keeps-transaction, arith, pure, transaction, ◌>>◌,
}
use collabos_backend.Prisma.{
  Table, find_unique, update, find_unique-update_self, find_unique-update_ne,
}
use collabos_backend.Schema.Commerce.{ProductVariant, StockMovement, OrderItem, Order}
use collabos_backend.Orders.State.{ShopDb, update_variant, create_movement}
use collabos_backend.Orders.Checkout.{
  CartLineItem, decrement, increment, take_line, restock_variants, record_returns, restock_order,
}
use collabos_backend.Orders.Stock.{AdjustStockDto, adjustment, set_stock, adjust}
use collabos_backend.Orders.Inventory.Balance.{IsBalancedAt, write_balanced, take_line-Keeps}
use collabos_backend.Orders.Calls.{Call, run}
use collabos_backend.Orders.Inventory.Restock.{restock_order-Keeps}
use collabos_backend.Orders.Inventory.Calls.{OnStock, IsStockInvariant, run-OnStock}

abbrev pub IsNonNegative : Option ProductVariant → Type 0
IsNonNegative none = Unit
IsNonNegative (some v) = pos 0 ≤ℤ v.stock_quantity

abbrev pub IsStockedAt : Table ProductVariant → List StockMovement → Type 0
IsStockedAt variants movements = (k : ℕ) → IsNonNegative (find_unique k variants)

abbrev IsStocked : ShopDb → Type 0
IsStocked = OnStock IsStockedAt

IsNonNegative-by :
    (found : Option ProductVariant) {o : Option ProductVariant}
    → o ≡ found
    → IsNonNegative found
    → IsNonNegative o
IsNonNegative-by found e h = rw e h

write_stocked :
    (k i : ℕ) (f : ProductVariant → ProductVariant) (v : ProductVariant) (vs : Table ProductVariant)
    → find_unique i vs ≡ some v
    → pos 0 ≤ℤ (f v).stock_quantity
    → IsNonNegative (find_unique k vs)
    → IsNonNegative (find_unique k (update i f vs))
write_stocked k i f v vs e enough h = elim (ℕ_discrete k i) [
  | yes same ↦ IsNonNegative-by (some (f v)) (rw same (find_unique-update_self i f vs v e)) enough
  | no other ↦ IsNonNegative-by (find_unique k vs) (find_unique-update_ne k i f vs other) h
]

sub_nonneg : (a b : ℤ) → ltb_ℤ a b ≡ false → pos 0 ≤ℤ a -ℤ b
sub_nonneg a b h = ground (arith, -ℤ_parts a b)

take_line-IsStocked : (line : CartLineItem) → Keeps IsStocked (take_line line)
unfolding take_line update_variant create_movement
take_line-IsStocked line = record {
  apply = λ s h k. elim (Option-cases (find_unique line.variant_id s.variants)) [
    | inl e ↦ ground (arith, h k)
    | inr (v, e) ↦ ground (
      arith,
      h k,
      sub_nonneg v.stock_quantity (pos line.quantity),
      write_stocked k line.variant_id (decrement line.quantity) v s.variants e,
    )
  ];
}

adjust-IsStocked :
    (product variant : ℕ) (user : AuthenticatedUser) (dto : AdjustStockDto)
    → Keeps IsStocked (adjust product variant user dto)
unfolding adjust update_variant create_movement
adjust-IsStocked product variant user dto = record {
  apply = λ s h k. elim (Option-cases (find_unique variant s.variants)) [
    | inl e ↦ ground (arith, h k)
    | inr (v, e) ↦ ground (
      arith,
      h k,
      write_stocked k variant (set_stock (v.stock_quantity +ℤ dto.quantity)) v s.variants e,
    )
  ];
}

-- Restocking only adds.
update_variant-IsStocked :
    (item : OrderItem) → Keeps IsStocked (update_variant item.variant_id (increment item.quantity))
unfolding update_variant
update_variant-IsStocked item = record {
  apply = λ s h k. elim (Option-cases (find_unique item.variant_id s.variants)) [
    | inl e ↦ ground (arith, h k)
    | inr (v, e) ↦ ground (
      arith,
      h k,
      h item.variant_id,
      +ℤ_parts v.stock_quantity (pos item.quantity),
      write_stocked k item.variant_id (increment item.quantity) v s.variants e,
    )
  ];
}

restock_variants-IsStocked : (items : List OrderItem) → Keeps IsStocked (restock_variants items)
unfolding restock_variants
restock_variants-IsStocked [] = Keeps-pure tt
restock_variants-IsStocked (item ∷ items) =
    Keeps-then (update_variant-IsStocked item) (restock_variants-IsStocked items)

record_returns-IsStocked : (items : List OrderItem) → Keeps IsStocked (record_returns items)
unfolding record_returns create_movement
record_returns-IsStocked [] = Keeps-pure tt
record_returns-IsStocked (item ∷ items) =
    Keeps-then (Keeps-modify _ (λ s h. h)) (record_returns-IsStocked items)

restock_found-IsStocked :
    (found : Option Order)
    → Keeps IsStocked (elim found [
      | none ↦ pure tt
      | some order ↦ transaction (do restock_variants order.items; record_returns order.items)
    ])
restock_found-IsStocked none = Keeps-pure tt
restock_found-IsStocked (some order) =
    Keeps-transaction
      (Keeps-then (restock_variants-IsStocked order.items) (record_returns-IsStocked order.items))

restock_order-IsStocked : (id : ℕ) → Keeps IsStocked (restock_order id)
unfolding restock_order
restock_order-IsStocked id =
    Keeps-bind (Keeps-gets (λ s. find_unique id s.orders)) restock_found-IsStocked

stocked_invariant : IsStockInvariant IsStockedAt
stocked_invariant = record {
  take_line_keeps = take_line-IsStocked;
  restock_keeps = restock_order-IsStocked;
  adjust_keeps = adjust-IsStocked;
}

-- An adjustment writes what it read and its own movement.
adjust-IsBalanced :
    (opening : ℕ → ℤ) (product variant : ℕ) (user : AuthenticatedUser) (dto : AdjustStockDto)
    → Keeps (OnStock (IsBalancedAt opening)) (adjust product variant user dto)
unfolding adjust update_variant create_movement
adjust-IsBalanced opening product variant user dto = record {
  apply = λ s h k. elim (Option-cases (find_unique variant s.variants)) [
    | inl e ↦ ground (arith, h k)
    | inr (v, e) ↦ ground (
      arith,
      h k,
      write_balanced k variant (set_stock (v.stock_quantity +ℤ dto.quantity))
          (adjustment variant dto) v s.variants s.movements (opening k) e refl refl (h k),
    )
  ];
}

balanced_invariant : (opening : ℕ → ℤ) → IsStockInvariant (IsBalancedAt opening)
balanced_invariant opening = record {
  take_line_keeps = take_line-Keeps opening;
  restock_keeps = restock_order-Keeps opening;
  adjust_keeps = adjust-IsBalanced opening;
}

-- After any sequence of calls of the shop's endpoints and its webhook, the stock of every variant
-- is its opening stock and the sum of its journalled movements, if it was so before.
pub stock_matches_journal :
    (opening : ℕ → ℤ) (cs : List Call) (s : ShopDb)
    → IsBalancedAt opening s.variants s.movements
    → IsBalancedAt opening (run cs s).variants (run cs s).movements
stock_matches_journal opening cs s h = run-OnStock (balanced_invariant opening) cs s h

-- After any sequence of calls of the shop's endpoints and its webhook, no variant's stock is
-- below zero, if none was before.
pub stock_never_negative :
    (cs : List Call) (s : ShopDb)
    → IsStockedAt s.variants s.movements
    → IsStockedAt (run cs s).variants (run cs s).movements
stock_never_negative cs s h = run-OnStock stocked_invariant cs s h
