-- ===== src/Orders/Grouping.antt =====
-- The cart split by brand, and what the orders of a checkout cost together
-- (src/orders/services/checkout.service.ts).
use collabos_backend.Base.{
  ℕ, ◌+◌, ◌*◌, ◌≡◌, refl, sym, ap, ◌∙◌, Bool, true, false, List, [], ◌∷◌, ◌++◌, ◌==◌, arith,
  if◌then◌else◌,
}
use collabos_backend.Orders.Checkout.{
  CartLineItem, add_line, group_from, items_by_brand, subtotal_from,
}

-- The lines of one brand, in the order of the cart.
abbrev pub lines_of : ℕ → List CartLineItem → List CartLineItem
lines_of brand [] = []
lines_of brand (line ∷ lines) =
    if line.brand_id == brand then line ∷ lines_of brand lines else lines_of brand lines

-- The lines that the groups keep under a brand.
abbrev pub group_of : ℕ → List (ℕ × List CartLineItem) → List CartLineItem
group_of brand [] = []
group_of brand ((b, lines) ∷ groups) = if b == brand then lines else group_of brand groups

-- What the lines cost.
abbrev pub total : List CartLineItem → ℕ
total [] = 0
total (line ∷ lines) = line.unit_price * line.quantity + total lines

-- What the orders of the groups cost together.
abbrev pub order_total : List (ℕ × List CartLineItem) → ℕ
order_total [] = 0
order_total ((b, lines) ∷ groups) = subtotal_from 0 lines + order_total groups

append_nil : (xs : List CartLineItem) → xs ++ [] ≡ xs
append_nil [] = refl
append_nil (x ∷ xs) = ap (λ r. x ∷ r) (append_nil xs)

append_assoc : (xs ys zs : List CartLineItem) → (xs ++ ys) ++ zs ≡ xs ++ (ys ++ zs)
append_assoc [] ys zs = refl
append_assoc (x ∷ xs) ys zs = ap (λ r. x ∷ r) (append_assoc xs ys zs)

group_of-if :
    (brand : ℕ) (c : Bool) (xs ys : List (ℕ × List CartLineItem))
    → group_of brand (if c then xs else ys) ≡ (if c then group_of brand xs else group_of brand ys)
group_of-if brand true xs ys = refl
group_of-if brand false xs ys = refl

-- The step for one group, with what is known of the groups behind it.
chosen_lines :
    (b k brand : ℕ) (lines : List CartLineItem) (line : CartLineItem)
    (rest added : List CartLineItem)
    → added ≡ rest ++ (if k == brand then line ∷ [] else [])
    → (if b == k
        then (if b == brand then lines ++ line ∷ [] else rest)
        else (if b == brand then lines else added))
      ≡ (if b == brand then lines else rest) ++ (if k == brand then line ∷ [] else [])
chosen_lines b k brand lines line rest added h =
    ground (arith, h, append_nil lines, append_nil rest)

group_of-add_line :
    (brand : ℕ) (line : CartLineItem) (groups : List (ℕ × List CartLineItem))
    → group_of brand (add_line line groups)
      ≡ group_of brand groups ++ (if line.brand_id == brand then line ∷ [] else [])
unfolding add_line
group_of-add_line brand line [] = ground arith
group_of-add_line brand line ((b, lines) ∷ groups) =
    group_of-if brand (b == line.brand_id) ((b, lines ++ line ∷ []) ∷ groups)
      ((b, lines) ∷ add_line line groups)
    ∙ chosen_lines b line.brand_id brand lines line (group_of brand groups)
        (group_of brand (add_line line groups)) (group_of-add_line brand line groups)

own_line :
    (c : Bool) (line : CartLineItem) (rest : List CartLineItem)
    → (if c then line ∷ [] else []) ++ rest ≡ (if c then line ∷ rest else rest)
own_line true line rest = refl
own_line false line rest = refl

group_of-group_from :
    (brand : ℕ) (groups : List (ℕ × List CartLineItem)) (lines : List CartLineItem)
    → group_of brand (group_from groups lines) ≡ group_of brand groups ++ lines_of brand lines
unfolding group_from
group_of-group_from brand groups [] = sym (append_nil (group_of brand groups))
group_of-group_from brand groups (line ∷ lines) =
    group_of-group_from brand (add_line line groups) lines
    ∙ ap (λ g. g ++ lines_of brand lines) (group_of-add_line brand line groups)
    ∙ append_assoc (group_of brand groups) (if line.brand_id == brand then line ∷ [] else [])
        (lines_of brand lines)
    ∙ ap (λ r. group_of brand groups ++ r)
        (own_line (line.brand_id == brand) line (lines_of brand lines))

subtotal_from-total :
    (sum : ℕ) (lines : List CartLineItem) → subtotal_from sum lines ≡ sum + total lines
unfolding subtotal_from
subtotal_from-total sum [] = omega arith
subtotal_from-total sum (line ∷ lines) =
    subtotal_from-total (sum + line.unit_price * line.quantity) lines ∙ omega arith

total-append : (xs ys : List CartLineItem) → total (xs ++ ys) ≡ total xs + total ys
total-append [] ys = omega arith
total-append (x ∷ xs) ys = omega (arith, total-append xs ys)

order_total-add_line :
    (line : CartLineItem) (groups : List (ℕ × List CartLineItem))
    → order_total (add_line line groups) ≡ order_total groups + line.unit_price * line.quantity
unfolding add_line
order_total-add_line line [] = omega (arith, subtotal_from-total 0 (line ∷ []))
order_total-add_line line ((b, lines) ∷ groups) = ground (
  arith,
  order_total-add_line line groups,
  subtotal_from-total 0 lines,
  subtotal_from-total 0 (lines ++ line ∷ []),
  total-append lines (line ∷ []),
)

order_total-group_from :
    (groups : List (ℕ × List CartLineItem)) (lines : List CartLineItem)
    → order_total (group_from groups lines) ≡ order_total groups + total lines
unfolding group_from
order_total-group_from groups [] = omega arith
order_total-group_from groups (line ∷ lines) =
    order_total-group_from (add_line line groups) lines
    ∙ omega (arith, order_total-add_line line groups)

-- The checkout's group of a brand is the cart filtered by that brand, in the order of the cart.
pub items_by_brand-lines_of :
    (brand : ℕ) (lines : List CartLineItem)
    → group_of brand (items_by_brand lines) ≡ lines_of brand lines
unfolding items_by_brand
items_by_brand-lines_of brand lines = group_of-group_from brand [] lines

-- The groups cost what the cart costs.
pub order_total-items_by_brand :
    (lines : List CartLineItem) → order_total (items_by_brand lines) ≡ total lines
unfolding items_by_brand
order_total-items_by_brand lines = order_total-group_from [] lines ∙ omega arith
