-- ===== src/Payments/Escrow/Creation.antt =====
-- The escrow under a new payment (src/payments/services/payments.service.ts).
use native.Mathlib.Nat.{le_trans}
use collabos_backend.Base.{
  ℕ, ◌≤◌, ◌≡◌, ◌-◌, true, none, String, inl, inr, Bool-cases, Result, Result-cases, arith,
  AuthenticatedUser,
}
use collabos_backend.Prisma.{find_unique, create}
use collabos_backend.Payments.State.{PaymentsDb, to_minor_units}
use collabos_backend.Payments.Service.{
  NewKeys, PaymentParams, Intent, platform_fee, new_payment, is_intent_used, fee_split,
  recipient_split, create_payment, create_for_order, create_for_deal,
}
use collabos_backend.Payments.Calls.{IsFresh}
use collabos_backend.Base.{Ends, Ends-gets, Ends-throw_if, Ends-some}
use collabos_backend.Payments.Escrow.Allowance.{is_safe, allowance, IsEscrow}

allowance-create :
    (k : ℕ) (keys : NewKeys) (recipient fee amount : ℕ) (s : PaymentsDb)
    → IsFresh keys s
    → allowance (find_unique k s.splits)
      ≤ allowance (
          find_unique k (
            create keys.recipient_split
              (recipient_split keys.payment recipient amount)
              (create keys.fee_split (fee_split keys.payment fee) s.splits)))
allowance-create k keys recipient fee amount s fresh =
    ground (arith, fresh.fee_unused, fresh.recipient_unused)

is_safe-create :
    (k : ℕ) (keys : NewKeys) (recipient fee amount : ℕ) (s : PaymentsDb)
    → IsFresh keys s
    → is_safe s.stripe_refunds (find_unique k s.splits) ≡ true
    → is_safe s.stripe_refunds (
        find_unique k (
          create keys.recipient_split
            (recipient_split keys.payment recipient amount)
            (create keys.fee_split (fee_split keys.payment fee) s.splits)))
      ≡ true
is_safe-create k keys recipient fee amount s fresh h = ground (arith, fresh.never_refunded)

recipient_unused :
    (keys : NewKeys) (fee : ℕ) (s : PaymentsDb)
    → IsFresh keys s
    → find_unique keys.recipient_split (create keys.fee_split (fee_split keys.payment fee) s.splits)
      ≡ none
recipient_unused keys fee s fresh = ground (arith, fresh.recipient_unused, fresh.different)

module _ (percent : ℕ) (create_intent : ℕ → String → Result Intent) (keys : NewKeys)
    (s : PaymentsDb) (fresh : IsFresh keys s) (h : IsEscrow s) where
  created-IsEscrow :
      (params : PaymentParams) (intent : Intent)
      → IsEscrow (record s {
        payments = create keys.payment (new_payment intent params) s.payments;
        splits =
            create keys.recipient_split
              (recipient_split keys.payment params.recipient_user_id
                (params.amount - platform_fee percent params.amount))
              (create keys.fee_split
                (fee_split keys.payment (platform_fee percent params.amount))
                s.splits);
      })
  created-IsEscrow params intent = record {
    distinct = (
      recipient_unused keys (platform_fee percent params.amount) s fresh,
      (fresh.fee_unused, h.distinct),
    );
    within = λ k. le_trans (h.within k) (
        allowance-create k keys params.recipient_user_id (platform_fee percent params.amount)
          (params.amount - platform_fee percent params.amount) s fresh);
    exclusive = λ k.
        is_safe-create k keys params.recipient_user_id (platform_fee percent params.amount)
          (params.amount - platform_fee percent params.amount) s fresh (h.exclusive k);
  }

  create_payment-IsEscrow :
      (params : PaymentParams) → Ends IsEscrow s (create_payment percent create_intent keys params)
  unfolding create_payment
  create_payment-IsEscrow params =
      elim (Result-cases (create_intent (to_minor_units params.amount) params.currency)) [
        | inr (x, e) ↦ record { apply = rw e h }
        | inl (intent, e) ↦ elim (Bool-cases (is_intent_used intent.id s.payments)) [
          | inl used ↦ record { apply = rw (e, used) h }
          | inr free ↦ record { apply = rw (e, free) (created-IsEscrow params intent) }
        ]
      ]

  pub create_for_order-IsEscrow :
      (id : ℕ) (user : AuthenticatedUser)
      → Ends IsEscrow s (create_for_order percent create_intent keys id user)
  unfolding create_for_order
  create_for_order-IsEscrow id user =
      search (Ends-gets, Ends-throw_if, Ends-some, create_payment-IsEscrow, h) depth 15

  pub create_for_deal-IsEscrow :
      (id : ℕ) (user : AuthenticatedUser)
      → Ends IsEscrow s (create_for_deal percent create_intent keys id user)
  unfolding create_for_deal
  create_for_deal-IsEscrow id user =
      search (Ends-gets, Ends-throw_if, Ends-some, create_payment-IsEscrow, h) depth 18
