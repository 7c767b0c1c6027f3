-- ===== src/Orders/Inventory/Balance.antt =====
-- The stock of a variant and the journal of its movements.
use native.Mathlib.Decide.{ℕ_discrete}
use collabos_backend.Base.{
  ℕ, ℤ, pos, ◌+ℤ◌, ◌-ℤ◌, neg_ℤ, int_laws, arith, ◌≡◌, ◌≢◌, refl, sym, ap, ◌∙◌, inl, inr, Option,
  none, some, Bool, true, false, ◌+◌, List, [], ◌∷◌, ◌==◌, if◌then◌else◌, Option-cases, Keeps,
}
use collabos_backend.Prisma.{
  Table, find_unique, update, find_unique-update_self, find_unique-update_ne,
}
use collabos_backend.Schema.Commerce.{ProductVariant, StockMovement}
use collabos_backend.Orders.State.{ShopDb, update_variant, create_movement}
use collabos_backend.Orders.Checkout.{CartLineItem, decrement, sale, take_line}

-- The sum of the movements of a variant.
abbrev pub moved : ℕ → List StockMovement → ℤ
moved k [] = pos 0
moved k (m ∷ ms) = (if m.variant_id == k then m.quantity else pos 0) +ℤ moved k ms

abbrev pub StockIs : Option ProductVariant → ℤ → Type 0
StockIs none x = Unit
StockIs (some v) x = v.stock_quantity ≡ x

-- Every variant holds its opening stock and what the journal has moved since.
abbrev pub IsBalancedAt : (ℕ → ℤ) → Table ProductVariant → List StockMovement → Type 0
IsBalancedAt opening variants movements =
    (k : ℕ) → StockIs (find_unique k variants) (opening k +ℤ moved k movements)

abbrev pub IsBalanced : (ℕ → ℤ) → ShopDb → Type 0
IsBalanced opening s = IsBalancedAt opening s.variants s.movements

pub StockIs-by :
    (found : Option ProductVariant) {o : Option ProductVariant} (x : ℤ)
    → o ≡ found
    → StockIs found x
    → StockIs o x
StockIs-by found x e h = rw e h

pub stock_of_StockIs :
    (o : Option ProductVariant) (v : ProductVariant) (x : ℤ)
    → o ≡ some v
    → StockIs o x
    → v.stock_quantity ≡ x
stock_of_StockIs o v x e h = rw e at h

pub if_same {ℓ} : {A : Type ℓ} (i k : ℕ) (a b : A) → i ≡ k → (if i == k then a else b) ≡ a
if_same i k a b h = ground arith

pub if_other {ℓ} : {A : Type ℓ} (i k : ℕ) (a b : A) → i ≢ k → (if i == k then a else b) ≡ b
if_other i k a b h = ground arith

pub zero_plus : (a : ℤ) → pos 0 +ℤ a ≡ a
zero_plus a = omega int_laws

pub swap_sum : (a b c : ℤ) → a +ℤ b +ℤ c ≡ a +ℤ (c +ℤ b)
swap_sum a b c = omega int_laws

pub add_more : (a : ℤ) (n q : ℕ) → a +ℤ pos n +ℤ pos q ≡ a +ℤ pos (q + n)
add_more a n q = omega int_laws

pub regroup : (a b c : ℕ) → b + (a + c) ≡ a + b + c
regroup a b c = omega arith

-- The movement of a return catches up with the stock.
pub journal :
    (x m : ℤ) (same : Bool) (n q : ℕ)
    → x +ℤ m +ℤ pos ((if same then q else 0) + n)
      ≡ x +ℤ ((if same then pos q else pos 0) +ℤ m) +ℤ pos n
journal x m true n q = omega int_laws
journal x m false n q = omega int_laws

pub plus_zero : (a : ℤ) → a +ℤ pos 0 ≡ a
plus_zero a = omega int_laws

pub sub_eq_add_neg : (a b : ℤ) → a -ℤ b ≡ a +ℤ neg_ℤ b
sub_eq_add_neg a b = omega int_laws

-- A write to one variant together with the movement of the same size keeps the balance of all.
pub write_balanced :
    (k i : ℕ) (f : ProductVariant → ProductVariant) (m : StockMovement) (v : ProductVariant)
    (vs : Table ProductVariant) (ms : List StockMovement) (x : ℤ)
    → find_unique i vs ≡ some v
    → m.variant_id ≡ i
    → (f v).stock_quantity ≡ v.stock_quantity +ℤ m.quantity
    → StockIs (find_unique k vs) (x +ℤ moved k ms)
    → StockIs (find_unique k (update i f vs)) (x +ℤ moved k (m ∷ ms))
write_balanced k i f m v vs ms x e of_i moves h = elim (ℕ_discrete k i) [
  | yes same ↦ StockIs-by (some (f v)) _ (rw same (find_unique-update_self i f vs v e)) (
      rw (if_same m.variant_id k m.quantity (pos 0) (of_i ∙ sym same), moves)
        (ap (λ t. t +ℤ m.quantity)
            (stock_of_StockIs (find_unique k vs) v _ (ap (λ j. find_unique j vs) same ∙ e) h)
          ∙ swap_sum x (moved k ms) m.quantity))
  | no other ↦ StockIs-by (find_unique k vs) _ (find_unique-update_ne k i f vs other) (
      rw
        (
          if_other m.variant_id k m.quantity (pos 0) (λ p. other (sym p ∙ of_i)),
          zero_plus (moved k ms),
        )
        h)
]

module _ (opening : ℕ → ℤ) where
  pub take_line-Keeps : (line : CartLineItem) → Keeps (IsBalanced opening) (take_line line)
  unfolding take_line update_variant create_movement
  take_line-Keeps line = record {
    apply = λ s h k. elim (Option-cases (find_unique line.variant_id s.variants)) [
      | inl e ↦ ground (arith, h k)
      | inr (v, e) ↦ ground (
        arith,
        h k,
        write_balanced k line.variant_id (decrement line.quantity) (sale line) v s.variants
            s.movements (opening k) e refl (sub_eq_add_neg v.stock_quantity (pos line.quantity))
            (h k),
      )
    ];
  }
