-- ===== src/Payments/Escrow/Allowance.antt =====
-- What may be transferred for each split.
use native.Mathlib.Decide.{ℕ_discrete}
use collabos_backend.Base.{
  ℕ, ◌+◌, ◌≤◌, ◌≡◌, refl, sym, ap, subst, Bool, not, ◌||◌, true, false, Option, none, some, List,
  [], ◌∷◌, ◌==◌, ◌is◌, arith, if◌then◌else◌,
}
use collabos_backend.Prisma.{
  Table, find_unique, update, update_many, IsDistinct, find_unique-update_self,
  find_unique-update_ne,
}
use collabos_backend.Schema.Money.{PaymentSplit, SplitStatus, split_status_enum}
use collabos_backend.Payments.State.{PaymentsDb, Transfer, to_minor_units}
use collabos_backend.Payments.Calls.{was_refunded}
use collabos_backend.Payments.Release.{splits_of, any_released, to_refunded, to_released, to_kept}

-- What has been transferred for a split, in minor units.
abbrev pub transferred : ℕ → List Transfer → ℕ
transferred key [] = 0
transferred key (t ∷ ts) = (if t.split_id == key then t.amount else 0) + transferred key ts

-- Nothing for a split that is not released, and its amount for one that is.
abbrev pub allowance : Option PaymentSplit → ℕ
allowance none = 0
allowance (some x) = if x.status is SplitStatus.released then to_minor_units x.amount else 0

-- A split is refunded if its payment is among the refunded ones.
abbrev pub is_safe : List ℕ → Option PaymentSplit → Bool
is_safe ids none = true
is_safe ids (some x) = not (was_refunded x.payment_id ids) || x.status is SplitStatus.refunded

pub record IsEscrow (s : PaymentsDb) : Type 0 where
  pub distinct : IsDistinct s.splits
  pub within : (k : ℕ) → transferred k s.transfers ≤ allowance (find_unique k s.splits)
  -- the splits of a payment that Stripe has refunded are refunded
  pub exclusive : (k : ℕ) → is_safe s.stripe_refunds (find_unique k s.splits) ≡ true

-- Refunding the splits of a payment of which none is released changes no allowance.
pub allowance-refund :
    (id k : ℕ) (t : Table PaymentSplit)
    → any_released (splits_of id t) ≡ false
    → allowance (find_unique k (update_many (λ _ x. x.payment_id == id) to_refunded t))
      ≡ allowance (find_unique k t)
unfolding any_released
allowance-refund id k [] h = refl
allowance-refund id k ((j, x) ∷ t) h = ground (arith, allowance-refund id k t)

-- A pending split may change its status, for no refund of its payment was made.
pub is_safe-update :
    (k key : ℕ) (f : PaymentSplit → PaymentSplit) (x : PaymentSplit) (ids : List ℕ)
    (t : Table PaymentSplit)
    → find_unique key t ≡ some x
    → x.status is SplitStatus.pending ≡ true
    → (f x).payment_id ≡ x.payment_id
    → is_safe ids (find_unique k t) ≡ true
    → is_safe ids (find_unique k (update key f t)) ≡ true
is_safe-update k key f x ids t e pending same_payment h = elim (ℕ_discrete k key) [
  | yes same ↦
      subst (λ i. is_safe ids (find_unique i (update key f t)) ≡ true) (sym same)
        (rw (find_unique-update_self key f t x e, same_payment)
          (safe_pending (subst (λ i. is_safe ids (find_unique i t) ≡ true) same h)))
  | no other ↦ rw (find_unique-update_ne k key f t other) h
]
  where
    safe_pending :
        is_safe ids (find_unique key t) ≡ true
        → not (was_refunded x.payment_id ids) || (f x).status is SplitStatus.refunded ≡ true
    safe_pending g = ground (arith, e, g)

pub is_safe-refund :
    (id k : ℕ) (ids : List ℕ) (t : Table PaymentSplit)
    → is_safe ids (find_unique k t) ≡ true
    → is_safe (id ∷ ids) (find_unique k (update_many (λ _ x. x.payment_id == id) to_refunded t))
      ≡ true
is_safe-refund id k ids [] h = refl
is_safe-refund id k ids ((j, x) ∷ t) h = ground (arith, is_safe-refund id k ids t)

-- The transfer of a pending split's amount and the split's release keep every transfer within
-- its allowance.
pub within-pay_out :
    (k key destination : ℕ) (transfer : Option ℕ) (now : ℕ) (x : PaymentSplit) (ts : List Transfer)
    (t : Table PaymentSplit)
    → find_unique key t ≡ some x
    → x.status is SplitStatus.pending ≡ true
    → transferred k ts ≤ allowance (find_unique k t)
    → transferred k (
        record { split_id = key; amount = to_minor_units x.amount; destination = destination } ∷ ts)
      ≤ allowance (find_unique k (update key (to_released transfer now) t))
within-pay_out k key destination transfer now x ts t e pending h = elim (ℕ_discrete k key) [
  | yes same ↦ ground (
    arith,
    find_unique-update_self key (to_released transfer now) t x e,
    ap (λ i. find_unique i (update key (to_released transfer now) t)) same,
    ap (λ i. find_unique i t) same,
  )
  | no other ↦ ground (arith, find_unique-update_ne k key (to_released transfer now) t other)
]

-- The platform keeps its share without a transfer.
pub within-keep :
    (k key now : ℕ) (x : PaymentSplit) (paid : ℕ) (t : Table PaymentSplit)
    → find_unique key t ≡ some x
    → x.status is SplitStatus.pending ≡ true
    → paid ≤ allowance (find_unique k t)
    → paid ≤ allowance (find_unique k (update key (to_kept now) t))
within-keep k key now x paid t e pending h = elim (ℕ_discrete k key) [
  | yes same ↦ ground (
    arith,
    find_unique-update_self key (to_kept now) t x e,
    ap (λ i. find_unique i (update key (to_kept now) t)) same,
    ap (λ i. find_unique i t) same,
  )
  | no other ↦ ground (arith, find_unique-update_ne k key (to_kept now) t other)
]
