-- ===== src/Payouts/Service.antt =====
-- PayoutsService.withdraw (src/payouts/services/payouts.service.ts) and BalanceService
-- (src/payouts/services/balance.service.ts). `create_payout` is Stripe's answer to the request, an
-- id and a status, or a failure; `minimum` is the configured minimum.
use text.Mathlib.Text.{◌==◌ as str_eq}
use collabos_backend.Base.{
  ℕ, ℤ, pos, pos_part, neg_ℤ, ◌-ℤ◌, ltb_ℤ, leb_ℤ, ◌*◌, not, ◌&&◌, ◌||◌, Option, none, some, String,
  List, ◌∷◌, ◌==◌, Bool, if◌then◌else◌, Exception, external_failure, Action, Result, ok, err, ◌>>=◌,
  ◌>>◌, gets, some_or_throw, throw, throw_if, modify, pure, AuthenticatedUser, ◌is◌, bad_request,
  conflict, not_found,
}
use collabos_backend.Prisma.{Table, find_first, create, update, sum}
use collabos_backend.Schema.Money.{
  ConnectAccountStatus, connect_account_status_enum, ConnectedAccount, PaymentSplit, SplitStatus,
  split_status_enum, Payout, PayoutStatus, payout_status_enum, Transaction, TransactionType,
  WebhookEvent,
}

pub record PayoutsDb : Type 0 where
  pub splits : Table PaymentSplit
  pub accounts : Table ConnectedAccount
  pub payouts : Table Payout
  pub transactions : List Transaction
  pub webhook_events : List WebhookEvent

abbrev pub is_recipient : ℕ → Option ℕ → Bool
is_recipient user none = Bool.false
is_recipient user (some other) = other == user

abbrev pub total_earned : ℕ → Table PaymentSplit → ℕ
total_earned user =
    sum
      (λ _ x.
        is_recipient user x.recipient_user_id
        && (not x.is_platform_fee && x.status is SplitStatus.released))
      (λ x. x.amount)

abbrev pub pending_withdrawals : ℕ → Table Payout → ℕ
pending_withdrawals user =
    sum
      (λ _ p.
        p.user_id == user
        && (p.status is PayoutStatus.pending || p.status is PayoutStatus.in_transit))
      (λ p. p.amount)

abbrev pub total_withdrawn : ℕ → Table Payout → ℕ
total_withdrawn user =
    sum (λ _ p. p.user_id == user && p.status is PayoutStatus.paid) (λ p. p.amount)

-- `balance.available`, which is below zero when more was paid than earned.
unfoldable pub available : ℕ → PayoutsDb → ℤ
available user s =
    pos (total_earned user s.splits)
    -ℤ pos (pending_withdrawals user s.payouts)
    -ℤ pos (total_withdrawn user s.payouts)

unfoldable pub map_stripe_status : String → PayoutStatus
map_stripe_status status =
    if str_eq status "paid"
    then PayoutStatus.paid
    else (if str_eq status "in_transit"
        then PayoutStatus.in_transit
        else (if str_eq status "failed"
            then PayoutStatus.failed
            else (if str_eq status "canceled"
                then PayoutStatus.canceled
                else PayoutStatus.pending)))

-- `error.message`
abbrev pub message_of : Exception → String
message_of (external_failure message) = message
message_of _ = "Stripe payout failed"

-- The request to Stripe, in minor units.
pub record PayoutRequest : Type 0 where
  pub amount : ℕ
  pub currency : String
  pub destination : ℕ
  pub payout_id : ℕ

abbrev pub new_payout : ℕ → ℕ → ℕ → Payout
new_payout user account amount = record {
  user_id = user;
  stripe_account_id = account;
  stripe_payout_id = none;
  amount = amount;
  currency = "USD";
  status = PayoutStatus.pending;
  failure_reason = none;
}

abbrev pub to_submitted : ℕ × String → Payout → Payout
to_submitted (id, status) p = record p {
  stripe_payout_id = some id;
  status = map_stripe_status status;
}

abbrev pub to_failed : String → Payout → Payout
to_failed reason p = record p { status = PayoutStatus.failed; failure_reason = some reason }

-- The `try` and the `catch` around the request, by Stripe's answer.
unfoldable pub submit : ℕ → Payout → Result (ℕ × String) → Action PayoutsDb Payout
submit key payout (ok answer) = do
  modify λ s. record s {
    payouts = update key (to_submitted answer) s.payouts;
    transactions =
        record {
          user_id = payout.user_id;
          payment_id = none;
          type = TransactionType.payout;
          amount = neg_ℤ (pos payout.amount);
          currency = payout.currency;
          description = "Withdrawal requested";
        }
        ∷ s.transactions;
  }
  pure (to_submitted answer payout)
submit key payout (err e) = do
  modify (λ s. record s { payouts = update key (to_failed (message_of e)) s.payouts })
  throw (conflict "Stripe was unable to process this payout")

-- `dto.amount ?? balance.available`
abbrev pub requested : Option ℕ → ℤ → ℤ
requested none balance = balance
requested (some amount) balance = pos amount

module _ (create_payout : PayoutRequest → Result (ℕ × String)) (minimum key : ℕ) where
  -- From the amount on.
  unfoldable pub withdraw_amount : ℕ → ℕ → ℤ → ℤ → Action PayoutsDb Payout
  unfolding submit
  withdraw_amount user account amount balance = do
    throw_if (leb_ℤ amount (pos 0)) (bad_request "Nothing available to withdraw")
    throw_if (ltb_ℤ balance amount) (conflict "Requested amount exceeds available balance")
    throw_if (ltb_ℤ amount (pos minimum)) (bad_request "Below the minimum withdrawal amount")
    let payout = new_payout user account (pos_part amount)
    modify (λ s. record s { payouts = create key payout s.payouts })
    submit key payout (
        create_payout (record {
          amount = pos_part amount * 100;
          currency = "USD";
          destination = account;
          payout_id = key;
        }))

  unfoldable pub withdraw : AuthenticatedUser → Option ℕ → Action PayoutsDb Payout
  unfolding withdraw_amount
  withdraw user amount = do
    found ← gets (λ s. find_first (λ _ a. a.user_id == user.id) s.accounts)
    (_, account) ← some_or_throw found (not_found "Connect a payout account before withdrawing")
    throw_if (not (account.status is ConnectAccountStatus.active))
        (conflict "Your payout account is not yet active")
    balance ← gets (available user.id)
    withdraw_amount user.id account.stripe_account_id (requested amount balance) balance
