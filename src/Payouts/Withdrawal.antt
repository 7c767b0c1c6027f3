-- ===== src/Payouts/Withdrawal.antt =====
-- What a withdrawal does to the user's balance, by Stripe's answer.
use collabos_backend.Base.{
  ap, ◌∙◌, refl, none, ℕ, pos, ltb_ℤ, ◌+◌, ◌*◌, ◌≤◌, ◌≡◌, ◌==◌, ◌is◌, one_of, true, false, some,
  String, [], ◌∷◌, Exception, Result, ok, err, arith, AuthenticatedUser, conflict,
}
use collabos_backend.Prisma.{Table, find_first}
use collabos_backend.Schema.Money.{
  ConnectAccountStatus, connect_account_status_enum, ConnectedAccount, Payout, PayoutStatus,
  payout_status_enum,
}
use collabos_backend.Payouts.Service.{
  PayoutsDb, PayoutRequest, pending_withdrawals, total_withdrawn, available, map_stripe_status,
  new_payout, to_submitted, submit, withdraw_amount, withdraw,
}

-- What the user has withdrawn or is withdrawing.
abbrev pub committed : ℕ → Table Payout → ℕ
committed user payouts = pending_withdrawals user payouts + total_withdrawn user payouts

module _ (create_payout : PayoutRequest → Result (ℕ × String)) (minimum key : ℕ)
    (user : AuthenticatedUser) (amount : ℕ) (s : PayoutsDb) (account : ℕ × ConnectedAccount)
    (found : find_first (λ _ a. a.user_id == user.id) s.accounts ≡ some account)
    (active : account.1.status is ConnectAccountStatus.active ≡ true) (positive : 1 ≤ amount)
    (enough : ltb_ℤ (available user.id s) (pos amount) ≡ false) (at_least : minimum ≤ amount) where
  abbrev request : PayoutRequest
  request = record {
    amount = amount * 100;
    currency = "USD";
    destination = account.1.stripe_account_id;
    payout_id = key;
  }

  accepted_state :
      (answer : ℕ × String)
      → create_payout request ≡ ok answer
      → ((withdraw create_payout minimum key user (some amount) s).0
          ≡ ok (to_submitted answer (new_payout user.id account.1.stripe_account_id amount)))
        × ((withdraw create_payout minimum key user (some amount) s).1.payouts
            ≡ (key, to_submitted answer (new_payout user.id account.1.stripe_account_id amount))
              ∷ s.payouts)
  unfolding withdraw withdraw_amount submit
  accepted_state answer e = ground arith

  refused_state :
      (x : Exception)
      → create_payout request ≡ err x
      → ((withdraw create_payout minimum key user (some amount) s).0
          ≡ err (conflict "Stripe was unable to process this payout"))
        × (committed user.id (withdraw create_payout minimum key user (some amount) s).1.payouts
            ≡ committed user.id s.payouts)
  unfolding withdraw withdraw_amount submit
  refused_state x e = ground arith

reserved :
    (key user account amount id : ℕ) (status : String) (payouts : Table Payout)
    → one_of
        (PayoutStatus.pending ∷ PayoutStatus.in_transit ∷ PayoutStatus.paid ∷ [])
        (map_stripe_status status)
      ≡ true
    → committed user ((key, to_submitted (id, status) (new_payout user account amount)) ∷ payouts)
      ≡ committed user payouts + amount
reserved key user account amount id status payouts h = ground arith

-- The statuses that Stripe gives a payout that it has not failed or canceled, in its words.
pub data Progress : Type 0 where
  awaiting travelling arrived : Progress

abbrev pub stripe_text : Progress → String
stripe_text awaiting = "pending"
stripe_text travelling = "in_transit"
stripe_text arrived = "paid"

-- The payout that is stored for an answer.
abbrev pub granted : ℕ → ℕ → ℕ → ℕ → PayoutStatus → Payout
granted user account amount id status = record {
  user_id = user;
  stripe_account_id = account;
  stripe_payout_id = some id;
  amount = amount;
  currency = "USD";
  status = status;
  failure_reason = none;
}

abbrev pub status_for : Progress → PayoutStatus
status_for awaiting = PayoutStatus.pending
status_for travelling = PayoutStatus.in_transit
status_for arrived = PayoutStatus.paid

read_status : (progress : Progress) → map_stripe_status (stripe_text progress) ≡ status_for progress
unfolding map_stripe_status
read_status awaiting = refl
read_status travelling = refl
read_status arrived = refl

keeps_amount :
    (progress : Progress)
    → one_of
        (PayoutStatus.pending ∷ PayoutStatus.in_transit ∷ PayoutStatus.paid ∷ [])
        (status_for progress)
      ≡ true
keeps_amount awaiting = refl
keeps_amount travelling = refl
keeps_amount arrived = refl

-- A withdrawal of an amount that is positive, within the balance and at least the minimum, from an
-- active account, when Stripe accepts it as "pending", "in_transit" or "paid": it stores the
-- payout under its key, with Stripe's id, the amount and the status PENDING, IN_TRANSIT or PAID,
-- and returns it; what the user has committed grows by the amount.
pub withdraw_reserves :
    (create_payout : PayoutRequest → Result (ℕ × String)) (minimum key : ℕ)
    (user : AuthenticatedUser) (amount : ℕ) (s : PayoutsDb) (account : ℕ × ConnectedAccount)
    (id : ℕ) (progress : Progress)
    → find_first (λ _ a. a.user_id == user.id) s.accounts ≡ some account
    → account.1.status is ConnectAccountStatus.active ≡ true
    → 1 ≤ amount
    → ltb_ℤ (available user.id s) (pos amount) ≡ false
    → minimum ≤ amount
    → create_payout (record {
      amount = amount * 100;
      currency = "USD";
      destination = account.1.stripe_account_id;
      payout_id = key;
    })
      ≡ ok (id, stripe_text progress)
    → ((withdraw create_payout minimum key user (some amount) s).0
        ≡ ok (granted user.id account.1.stripe_account_id amount id (status_for progress)))
      × ((withdraw create_payout minimum key user (some amount) s).1.payouts
          ≡ (key, granted user.id account.1.stripe_account_id amount id (status_for progress))
            ∷ s.payouts)
      × (committed user.id (withdraw create_payout minimum key user (some amount) s).1.payouts
          ≡ committed user.id s.payouts + amount)
withdraw_reserves create_payout minimum key user amount s account id progress found active positive
      enough at_least accepted =
    let after =
      accepted_state create_payout minimum key user amount s account found active positive enough
        at_least (id, stripe_text progress) accepted in
    let named = ap (granted user.id account.1.stripe_account_id amount id) (read_status progress) in
    (
      after.0 ∙ ap ok named,
      after.1 ∙ ap (λ p. (key, p) ∷ s.payouts) named,
      ap (committed user.id) after.1
          ∙ reserved key user.id account.1.stripe_account_id amount id (stripe_text progress)
              s.payouts
              (ap (one_of (PayoutStatus.pending ∷ PayoutStatus.in_transit ∷ PayoutStatus.paid ∷ []))
                  (read_status progress)
                ∙ keeps_amount progress),
    )

-- The same withdrawal when Stripe refuses it: it throws, and what the user has committed is as
-- before, so the amount can be withdrawn again.
pub withdraw_refused :
    (create_payout : PayoutRequest → Result (ℕ × String)) (minimum key : ℕ)
    (user : AuthenticatedUser) (amount : ℕ) (s : PayoutsDb) (account : ℕ × ConnectedAccount)
    (x : Exception)
    → find_first (λ _ a. a.user_id == user.id) s.accounts ≡ some account
    → account.1.status is ConnectAccountStatus.active ≡ true
    → 1 ≤ amount
    → ltb_ℤ (available user.id s) (pos amount) ≡ false
    → minimum ≤ amount
    → create_payout (record {
      amount = amount * 100;
      currency = "USD";
      destination = account.1.stripe_account_id;
      payout_id = key;
    })
      ≡ err x
    → ((withdraw create_payout minimum key user (some amount) s).0
        ≡ err (conflict "Stripe was unable to process this payout"))
      × (committed user.id (withdraw create_payout minimum key user (some amount) s).1.payouts
          ≡ committed user.id s.payouts)
withdraw_refused create_payout minimum key user amount s account x found active positive enough
      at_least refused =
    refused_state create_payout minimum key user amount s account found active positive enough
      at_least x refused
