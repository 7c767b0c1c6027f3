-- ===== src/Orders/Inventory/Restock.antt =====
-- Restocking an order gives its items back and journals them (CheckoutService.restockOrder).
use native.Mathlib.Decide.{ℕ_discrete}
use native.Mathlib.Nat.{zero-add, add-zero}
use collabos_backend.Base.{
  ℕ, ℤ, pos, ◌+ℤ◌, ◌≡◌, sym, ap, ◌∙◌, inl, inr, Option, none, some, ◌+◌, List, [], ◌∷◌, ◌==◌,
  if◌then◌else◌, Option-cases, Keeps, Keeps-bind, ◌>>◌, Keeps-pure, Keeps-commit, Ensures,
  Ensures-bind, Ensures-weaken, Ensures-from, Keeps-gets, pure, transaction, subst,
}
use collabos_backend.Prisma.{
  Table, find_unique, update, find_unique-update_self, find_unique-update_ne,
}
use collabos_backend.Schema.Commerce.{ProductVariant, OrderItem, Order}
use collabos_backend.Orders.State.{ShopDb, update_variant, create_movement}
use collabos_backend.Orders.Checkout.{
  increment, returned_item, restock_variants, record_returns, restock_order,
}
use collabos_backend.Orders.Inventory.Balance.{
  moved, StockIs, IsBalanced, StockIs-by, stock_of_StockIs, if_same, if_other, plus_zero, regroup,
  journal, add_more,
}

abbrev pub ordered : ℕ → List OrderItem → ℕ
ordered k [] = 0
ordered k (item ∷ items) = (if item.variant_id == k then item.quantity else 0) + ordered k items

module _ (opening : ℕ → ℤ) where
  -- The stock is ahead of the journal by `ahead`.
  abbrev IsAhead : (ℕ → ℕ) → ShopDb → Type 0
  IsAhead ahead s =
      (k : ℕ)
      → StockIs (find_unique k s.variants) (opening k +ℤ moved k s.movements +ℤ pos (ahead k))

  one_ahead :
      (k : ℕ) (item : OrderItem) (v : ProductVariant) (vs : Table ProductVariant) (x : ℤ) (n : ℕ)
      → find_unique item.variant_id vs ≡ some v
      → StockIs (find_unique k vs) (x +ℤ pos n)
      → StockIs
          (find_unique k (update item.variant_id (increment item.quantity) vs))
          (x +ℤ pos ((if item.variant_id == k then item.quantity else 0) + n))
  one_ahead k item v vs x n e h = elim (ℕ_discrete k item.variant_id) [
    | yes same ↦
        StockIs-by (some (increment item.quantity v)) _
          (rw same (find_unique-update_self item.variant_id (increment item.quantity) vs v e))
          (rw (if_same item.variant_id k item.quantity 0 (sym same)) (
            ap (λ t. t +ℤ pos item.quantity)
              (stock_of_StockIs (find_unique k vs) v _ (ap (λ j. find_unique j vs) same ∙ e) h)
            ∙ add_more x n item.quantity))
    | no other ↦
        StockIs-by (find_unique k vs) _
          (find_unique-update_ne k item.variant_id (increment item.quantity) vs other)
          (rw (if_other item.variant_id k item.quantity 0 (λ p. other (sym p)), zero-add) h)
  ]

  update-IsAhead :
      (item : OrderItem) (ahead : ℕ → ℕ)
      → Ensures
          (IsAhead ahead)
          (update_variant item.variant_id (increment item.quantity))
          (λ _. IsAhead (λ k. (if item.variant_id == k then item.quantity else 0) + ahead k))
  unfolding update_variant
  update-IsAhead item ahead = record {
    apply = λ s h. elim (Option-cases (find_unique item.variant_id s.variants)) [
      | inl e ↦ rw e tt
      | inr (v, e) ↦ rw e (λ k. one_ahead k item v s.variants _ (ahead k) e (h k))
    ];
  }

  restock_variants_lem :
      (items : List OrderItem) (ahead : ℕ → ℕ)
      → Ensures
          (IsAhead ahead)
          (restock_variants items)
          (λ _. IsAhead (λ k. ordered k items + ahead k))
  unfolding restock_variants
  restock_variants_lem [] ahead = record { apply = λ s h k. rw zero-add (h k) }
  restock_variants_lem (item ∷ items) ahead = Ensures-bind _ (update-IsAhead item ahead) (λ _.
      Ensures-weaken _ (restock_variants_lem items _) (λ a s h k.
        subst (λ n. StockIs (find_unique k s.variants) (opening k +ℤ moved k s.movements +ℤ pos n))
          (regroup (if item.variant_id == k then item.quantity else 0) (ordered k items) (ahead k))
          (h k)))

  return-IsAhead :
      (item : OrderItem) (ahead : ℕ → ℕ)
      → Ensures
          (IsAhead (λ k. (if item.variant_id == k then item.quantity else 0) + ahead k))
          (create_movement (returned_item item))
          (λ _. IsAhead ahead)
  unfolding create_movement
  return-IsAhead item ahead = record {
    apply = λ s h k.
        subst (StockIs (find_unique k s.variants))
          (journal (opening k) (moved k s.movements) (item.variant_id == k) (ahead k) item.quantity)
          (h k);
  }

  record_returns_lem :
      (items : List OrderItem)
      → Ensures (IsAhead (λ k. ordered k items)) (record_returns items) (λ _. IsAhead (λ _. 0))
  unfolding record_returns
  record_returns_lem [] = record { apply = λ s h. h }
  record_returns_lem (item ∷ items) =
      Ensures-bind _ (return-IsAhead item (λ k. ordered k items)) (λ _. record_returns_lem items)

  -- All increments and then all movements: the balance is back at the end of the transaction.
  restock_items_lem :
      (items : List OrderItem)
      → Ensures
          (IsBalanced opening)
          (do restock_variants items; record_returns items)
          (λ _. IsBalanced opening)
  restock_items_lem items =
      Ensures-weaken _
        (Ensures-from _ restocked
          (λ s h k. subst (StockIs (find_unique k s.variants)) (sym (plus_zero _)) (h k)))
        (λ a t g k. subst (StockIs (find_unique k t.variants)) (plus_zero _) (g k))
    where
      restocked :
          Ensures
            (IsAhead (λ _. 0))
            (do restock_variants items; record_returns items)
            (λ _. IsAhead (λ _. 0))
      restocked =
          Ensures-bind _
            (Ensures-weaken _ (restock_variants_lem items (λ _. 0)) (λ a t g k.
              subst
                (λ n.
                  StockIs (find_unique k t.variants) (opening k +ℤ moved k t.movements +ℤ pos n))
                (add-zero (ordered k items)) (g k)))
            (λ _. record_returns_lem items)

  restock_found-Keeps :
      (found : Option Order)
      → Keeps (IsBalanced opening) (elim found [
        | none ↦ pure tt
        | some order ↦ transaction (do restock_variants order.items; record_returns order.items)
      ])
  restock_found-Keeps none = Keeps-pure tt
  restock_found-Keeps (some order) = Keeps-commit (restock_items_lem order.items)

  pub restock_order-Keeps : (id : ℕ) → Keeps (IsBalanced opening) (restock_order id)
  unfolding restock_order
  restock_order-Keeps id =
      Keeps-bind (Keeps-gets (λ s. find_unique id s.orders)) restock_found-Keeps
