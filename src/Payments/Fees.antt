-- ===== src/Payments/Fees.antt =====
-- The platform's fee and the splits of a new payment.
use native.Mathlib.Nat.{mul-le-mul_left}
use collabos_backend.Base.{
  ℕ, ◌-◌, ◌*◌, ◌≤◌, ◌≡◌, false, refl, ap, ◌∙◌, some, ◌==◌, String, Result, ok, arith,
}
use collabos_backend.Prisma.{Table, sum, create, find_unique}
use collabos_backend.Schema.Money.{Payment, PaymentStatus, PaymentSplit}
use collabos_backend.Payments.State.{PaymentsDb, to_minor_units}
use collabos_backend.Payments.Service.{
  is_intent_used, platform_fee, NewKeys, PaymentParams, Intent, fee_split, recipient_split,
  new_payment, create_payment,
}

fee_le_amount : (percent amount : ℕ) → percent ≤ 100 → platform_fee percent amount ≤ amount
unfolding platform_fee
fee_le_amount percent amount h = ground (arith, mul-le-mul_left amount h)

-- What the splits of a payment add up to.
abbrev pub split_total : ℕ → Table PaymentSplit → ℕ
split_total id = sum (λ _ x. x.payment_id == id) (λ x. x.amount)

split_total-create :
    (keys : NewKeys) (recipient fee amount : ℕ) (splits : Table PaymentSplit)
    → fee ≤ amount
    → split_total keys.payment splits ≡ 0
    → split_total keys.payment (
        create keys.recipient_split
          (recipient_split keys.payment recipient (amount - fee))
          (create keys.fee_split (fee_split keys.payment fee) splits))
      ≡ amount
split_total-create keys recipient fee amount splits enough fresh = ground arith

create_payment_ok :
    (percent : ℕ) (create_intent : ℕ → String → Result Intent) (keys : NewKeys)
    (params : PaymentParams) (s : PaymentsDb) (intent : Intent)
    → create_intent (to_minor_units params.amount) params.currency ≡ ok intent
    → is_intent_used intent.id s.payments ≡ false
    → create_payment percent create_intent keys params s ≡ (
      ok (new_payment intent params),
      record s {
        payments = create keys.payment (new_payment intent params) s.payments;
        splits =
            create keys.recipient_split
              (recipient_split keys.payment params.recipient_user_id
                (params.amount - platform_fee percent params.amount))
              (create keys.fee_split
                (fee_split keys.payment (platform_fee percent params.amount))
                s.splits);
      },
    )
unfolding create_payment
create_payment_ok percent create_intent keys params s intent e unused = ground arith

-- When Stripe gives a payment intent for 100 times the requested amount, its cents, the payment
-- that is stored under its key and returned has the requested amount, payer and currency and
-- waits for the charge, and its two splits add up to its amount; the platform's percentage is at
-- most 100 and no split refers to the new payment's key before, and no
-- payment has the intent's id.
pub create_payment-split_total :
    (percent : ℕ) (create_intent : ℕ → String → Result Intent) (keys : NewKeys)
    (params : PaymentParams) (s : PaymentsDb) (intent : Intent)
    → percent ≤ 100
    → split_total keys.payment s.splits ≡ 0
    → create_intent (params.amount * 100) params.currency ≡ ok intent
    → is_intent_used intent.id s.payments ≡ false
    → (p : Payment) × ((create_payment percent create_intent keys params s).0 ≡ ok p)
      × (find_unique keys.payment (create_payment percent create_intent keys params s).1.payments
          ≡ some p)
      × (split_total keys.payment (create_payment percent create_intent keys params s).1.splits
          ≡ p.amount)
      × (p.amount ≡ params.amount)
      × (p.payer_id ≡ params.payer_id)
      × (p.currency ≡ params.currency)
      × (p.status ≡ PaymentStatus.requires_payment)
create_payment-split_total percent create_intent keys params s intent h fresh e unused =
    let state = create_payment_ok percent create_intent keys params s intent e unused in
    (
      new_payment intent params,
      ap (λ r. r.0) state,
      ap (λ r. find_unique keys.payment r.1.payments) state ∙ ground arith,
      ap (λ r. split_total keys.payment r.1.splits) state
          ∙ split_total-create keys params.recipient_user_id (platform_fee percent params.amount)
              params.amount s.splits (fee_le_amount percent params.amount h) fresh,
      refl,
      refl,
      refl,
      refl,
    )
