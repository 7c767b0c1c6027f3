-- ===== src/Payouts/Solvency.antt =====
-- Earnings and withdrawals of the users under PayoutsService.withdraw (src/payouts/services).
use collabos_backend.Base.{
  ℕ, ℤ, pos, negsuc, ltb_ℤ, ◌-ℤ◌, -ℤ_parts, ◌+◌, ◌≤◌, ◌≡◌, ◌*◌, false, Option, String, Result, inl,
  inr, Bool-cases, Result-cases, Option-cases, arith, AuthenticatedUser, ◌==◌, ◌is◌,
}
use collabos_backend.Prisma.{find_first}
use collabos_backend.Schema.Money.{ConnectAccountStatus, connect_account_status_enum}
use collabos_backend.Payouts.Service.{
  PayoutsDb, PayoutRequest, total_earned, pending_withdrawals, total_withdrawn, available, submit,
  withdraw_amount, withdraw, requested,
}

abbrev pub IsSolvent : PayoutsDb → Type 0
IsSolvent s =
    (user : ℕ)
    → pending_withdrawals user s.payouts + total_withdrawn user s.payouts
      ≤ total_earned user s.splits

-- An amount within the balance is within what was earned and not yet withdrawn.
within_balance :
    (user amount : ℕ) (s : PayoutsDb)
    → ltb_ℤ (available user s) (pos amount) ≡ false
    → pending_withdrawals user s.payouts + total_withdrawn user s.payouts + amount
      ≤ total_earned user s.splits
unfolding available
within_balance user amount s h = ground (
  arith,
  -ℤ_parts (pos (total_earned user s.splits)) (pos (pending_withdrawals user s.payouts)),
  -ℤ_parts (pos (total_earned user s.splits) -ℤ pos (pending_withdrawals user s.payouts))
      (pos (total_withdrawn user s.payouts)),
)

module _ (create_payout : PayoutRequest → Result (ℕ × String)) (minimum key user account : ℕ)
    (s : PayoutsDb) (h : IsSolvent s) where
  abbrev request : ℕ → PayoutRequest
  request amount = record {
    amount = amount * 100;
    currency = "USD";
    destination = account;
    payout_id = key;
  }

  withdraw_amount-IsSolvent :
      (amount : ℤ)
      → IsSolvent
          (withdraw_amount create_payout minimum key user account amount (available user s) s).1
  unfolding withdraw_amount submit
  withdraw_amount-IsSolvent (negsuc n) other = ground (arith, h other)
  withdraw_amount-IsSolvent (pos n) other = elim (Bool-cases (ltb_ℤ (available user s) (pos n))) [
    | inl e ↦ ground (arith, h other)
    | inr e ↦ elim (Result-cases (create_payout (request n))) [
      | inl ((id, status), answer) ↦ ground (arith, h other, within_balance user n s e)
      | inr (x, answer) ↦ ground (arith, h other)
    ]
  ]

-- Whatever Stripe answers, and whether the withdrawal is refused, throws or succeeds: if before it
-- no user's pending and paid withdrawals exceeded what they earned, then so it is after it.
pub withdraw-IsSolvent :
    (create_payout : PayoutRequest → Result (ℕ × String)) (minimum key : ℕ)
    (user : AuthenticatedUser) (amount : Option ℕ) (s : PayoutsDb)
    → IsSolvent s
    → IsSolvent (withdraw create_payout minimum key user amount s).1
unfolding withdraw
withdraw-IsSolvent create_payout minimum key user amount s h other =
    elim (Option-cases (find_first (λ _ a. a.user_id == user.id) s.accounts)) [
      | inl e ↦ ground (arith, h other)
      | inr ((i, account), e) ↦ elim (Bool-cases (account.status is ConnectAccountStatus.active)) [
        | inr inactive ↦ simp (e, inactive) (h other)
        | inl active ↦
            simp (e, active)
              (withdraw_amount-IsSolvent create_payout minimum key user.id account.stripe_account_id
                s h (requested amount (available user.id s)) other)
      ]
    ]
