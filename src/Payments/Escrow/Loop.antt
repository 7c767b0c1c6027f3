-- ===== src/Payments/Escrow/Loop.antt =====
-- The escrow under the loop of `release` (src/payments/services/payments.service.ts).
use collabos_backend.Base.{
  refl, ℕ, ◌≡◌, inl, inr, true, false, Option, none, some, [], ◌∷◌, ◌==◌, ◌is◌, arith, Result, ok,
  err, Result-cases, Option-cases, Bool-cases, Exception, conflict, pos, continue, Action,
}
use collabos_backend.Prisma.{
  Table, find_unique, find_first, update, IsDistinct, AllFound, AllFound-update, update-IsDistinct,
}
use collabos_backend.Schema.Money.{
  PaymentSplit, SplitStatus, split_status_enum, Payment, ConnectedAccount, Transaction,
  TransactionType,
}
use collabos_backend.Payments.State.{
  PaymentsDb, Transfer, to_minor_units, get_recipient_account_or_throw, record_transaction,
  update_split,
}
use collabos_backend.Payments.Release.{
  to_released, to_kept, pay_out, pay_recipient, release_split, release_splits,
}
use collabos_backend.Payments.Escrow.Allowance.{
  is_safe-update, transferred, IsEscrow, within-pay_out, within-keep,
}

-- The loop has yet to see these rows, and each is still as it was read.
pub record IsReleasing (rows : Table PaymentSplit) (s : PaymentsDb) : Type 0 where
  pub escrow : IsEscrow s
  pub found : AllFound rows s.splits
  pub rest : IsDistinct rows

-- What holds after one turn of the loop: on a throw the escrow, else also the rows to come.
abbrev After : Table PaymentSplit → Result (Unit {0}) × PaymentsDb → Type 0
After rows (ok _, s) = IsReleasing rows s
After rows (err _, s) = IsEscrow s

skipped :
    (key : ℕ) (x : PaymentSplit) (rows : Table PaymentSplit) (s : PaymentsDb)
    → IsReleasing ((key, x) ∷ rows) s
    → IsReleasing rows s
skipped key x rows s h = record { escrow = h.escrow; found = h.found.1; rest = h.rest.1 }

abbrev kept_state : ℕ → ℕ → PaymentsDb → PaymentsDb
kept_state key now s = record s { splits = update key (to_kept now) s.splits }

kept :
    (key now : ℕ) (x : PaymentSplit) (rows : Table PaymentSplit) (s : PaymentsDb)
    → x.status is SplitStatus.pending ≡ true
    → IsReleasing ((key, x) ∷ rows) s
    → IsReleasing rows (kept_state key now s)
kept key now x rows s pending h = record {
  escrow = record {
    distinct = update-IsDistinct key (to_kept now) s.splits h.escrow.distinct;
    within = λ k.
        within-keep k key now x (transferred k s.transfers) s.splits h.found.0 pending
          (h.escrow.within k);
    exclusive = λ k.
        is_safe-update k key (to_kept now) x s.stripe_refunds s.splits h.found.0 pending refl
          (h.escrow.exclusive k);
  };
  found = AllFound-update key (to_kept now) rows s.splits h.rest.0 h.found.1;
  rest = h.rest.1;
}

abbrev transfer_of : ℕ → PaymentSplit → ConnectedAccount → Transfer
transfer_of key x account = record {
  split_id = key;
  amount = to_minor_units x.amount;
  destination = account.stripe_account_id;
}

abbrev release_entry : ℕ → Payment → PaymentSplit → ℕ → Transaction
release_entry payment_id payment x recipient = record {
  user_id = recipient;
  payment_id = some payment_id;
  type = TransactionType.transfer;
  amount = pos x.amount;
  currency = payment.currency;
  description = "Escrow release";
}

abbrev paid_state : ℕ → ℕ → ℕ → Transfer → Transaction → PaymentsDb → PaymentsDb
paid_state key transfer_id now transfer entry s = record s {
  transfers = transfer ∷ s.transfers;
  splits = update key (to_released (some transfer_id) now) s.splits;
  transactions = entry ∷ s.transactions;
}

paid :
    (key transfer_id now : ℕ) (x : PaymentSplit) (account : ConnectedAccount) (entry : Transaction)
    (rows : Table PaymentSplit) (s : PaymentsDb)
    → x.status is SplitStatus.pending ≡ true
    → IsReleasing ((key, x) ∷ rows) s
    → IsReleasing rows (paid_state key transfer_id now (transfer_of key x account) entry s)
paid key transfer_id now x account entry rows s pending h = record {
  escrow = record {
    distinct =
        update-IsDistinct key (to_released (some transfer_id) now) s.splits h.escrow.distinct;
    within = λ k.
        within-pay_out k key account.stripe_account_id (some transfer_id) now x s.transfers s.splits
          h.found.0 pending (h.escrow.within k);
    exclusive = λ k.
        is_safe-update k key (to_released (some transfer_id) now) x s.stripe_refunds s.splits
          h.found.0 pending refl (h.escrow.exclusive k);
  };
  found = AllFound-update key (to_released (some transfer_id) now) rows s.splits h.rest.0 h.found.1;
  rest = h.rest.1;
}

After-turn :
    (rows : Table PaymentSplit) (loop : Action PaymentsDb (Unit {0}))
    (r : Result (Unit {0}) × PaymentsDb)
    → After rows r
    → ((t : PaymentsDb) → IsReleasing rows t → IsEscrow (loop t).1)
    → IsEscrow (continue (λ _. loop) r).1
After-turn rows loop (ok _, t) after keep = keep t after
After-turn rows loop (err _, t) after keep = after

module _ (create_transfer : Transfer → Result ℕ) (payment_id : ℕ) (payment : Payment)
    (now : ℕ) where
  abbrev PayOut : ℕ → PaymentSplit → ℕ → PaymentsDb → Result (Unit {0}) × PaymentsDb
  PayOut key x recipient s = pay_out create_transfer payment_id payment now key x recipient s

  pay_out_ok :
      (key recipient transfer_id : ℕ) (x : PaymentSplit) (s : PaymentsDb)
      (account : ℕ × ConnectedAccount)
      → find_first (λ _ a. a.user_id == recipient) s.accounts ≡ some account
      → account.1.payouts_enabled ≡ true
      → create_transfer (transfer_of key x account.1) ≡ ok transfer_id
      → find_unique key s.splits ≡ some x
      → PayOut key x recipient s ≡ (
        ok tt,
        paid_state key transfer_id now
            (transfer_of key x account.1)
            (release_entry payment_id payment x recipient)
            s,
      )
  unfolding pay_out get_recipient_account_or_throw update_split record_transaction
  pay_out_ok key recipient transfer_id x s (i, account) found enabled accepted present =
      ground arith

  pay_out_refused :
      (key recipient : ℕ) (e : Exception) (x : PaymentSplit) (s : PaymentsDb)
      (account : ℕ × ConnectedAccount)
      → find_first (λ _ a. a.user_id == recipient) s.accounts ≡ some account
      → account.1.payouts_enabled ≡ true
      → create_transfer (transfer_of key x account.1) ≡ err e
      → PayOut key x recipient s ≡ (err e, s)
  unfolding pay_out get_recipient_account_or_throw
  pay_out_refused key recipient e x s (i, account) found enabled refused = ground arith

  pay_out_disabled :
      (key recipient : ℕ) (x : PaymentSplit) (s : PaymentsDb) (account : ℕ × ConnectedAccount)
      → find_first (λ _ a. a.user_id == recipient) s.accounts ≡ some account
      → account.1.payouts_enabled ≡ false
      → PayOut key x recipient s
        ≡ (err (conflict "The recipient has not completed payout onboarding"), s)
  unfolding pay_out get_recipient_account_or_throw
  pay_out_disabled key recipient x s (i, account) found disabled = ground arith

  pay_out_unknown :
      (key recipient : ℕ) (x : PaymentSplit) (s : PaymentsDb)
      → find_first (λ _ a. a.user_id == recipient) s.accounts ≡ none
      → PayOut key x recipient s
        ≡ (err (conflict "The recipient has not completed payout onboarding"), s)
  unfolding pay_out get_recipient_account_or_throw
  pay_out_unknown key recipient x s missing = ground arith

  pay_out-After :
      (key recipient : ℕ) (x : PaymentSplit) (rows : Table PaymentSplit) (s : PaymentsDb)
      → x.status is SplitStatus.pending ≡ true
      → IsReleasing ((key, x) ∷ rows) s
      → After rows (PayOut key x recipient s)
  pay_out-After key recipient x rows s pending h =
      elim (Option-cases (find_first (λ _ a. a.user_id == recipient) s.accounts)) [
        | inl e ↦ rw (pay_out_unknown key recipient x s e) h.escrow
        | inr (account, e) ↦ elim (Bool-cases account.1.payouts_enabled) [
          | inl enabled ↦ elim (Result-cases (create_transfer (transfer_of key x account.1))) [
            | inl (id, accepted) ↦
                rw (pay_out_ok key recipient id x s account e enabled accepted h.found.0) (
                  paid key id now x account.1 (release_entry payment_id payment x recipient) rows s
                    pending h)
            | inr (x', refused) ↦
                rw (pay_out_refused key recipient x' x s account e enabled refused) h.escrow
          ]
          | inr disabled ↦ rw (pay_out_disabled key recipient x s account e disabled) h.escrow
        ]
      ]

  keep_ok :
      (key : ℕ) (x : PaymentSplit) (s : PaymentsDb)
      → find_unique key s.splits ≡ some x
      → update_split key (to_kept now) s ≡ (ok tt, kept_state key now s)
  unfolding update_split
  keep_ok key x s present = ground arith

  recipient-After :
      (key : ℕ) (x : PaymentSplit) (recipient : Option ℕ) (rows : Table PaymentSplit)
      (s : PaymentsDb)
      → x.status is SplitStatus.pending ≡ true
      → IsReleasing ((key, x) ∷ rows) s
      → After rows (pay_recipient create_transfer payment_id payment now key x recipient s)
  unfolding pay_recipient
  recipient-After key x none rows s pending h = skipped key x rows s h
  recipient-After key x (some recipient) rows s pending h =
      pay_out-After key recipient x rows s pending h

  turn-After :
      (key : ℕ) (x : PaymentSplit) (rows : Table PaymentSplit) (s : PaymentsDb)
      → IsReleasing ((key, x) ∷ rows) s
      → After rows (release_split create_transfer payment_id payment now key x s)
  unfolding release_split
  turn-After key x rows s h = elim (Bool-cases (x.status is SplitStatus.pending)) [
    | inl pending ↦ elim (Bool-cases x.is_platform_fee) [
      | inl fee ↦ rw (pending, fee, keep_ok key x s h.found.0) (kept key now x rows s pending h)
      | inr other ↦
          simp (pending, other) (recipient-After key x x.recipient_user_id rows s pending h)
    ]
    | inr settled ↦ rw settled (skipped key x rows s h)
  ]

  pub loop-IsEscrow :
      (rows : Table PaymentSplit) (s : PaymentsDb)
      → IsReleasing rows s
      → IsEscrow (release_splits create_transfer payment_id payment now rows s).1
  unfolding release_splits
  loop-IsEscrow [] s h = h.escrow
  loop-IsEscrow ((key, x) ∷ rows) s h =
      After-turn rows _ (release_split create_transfer payment_id payment now key x s)
        (turn-After key x rows s h) (loop-IsEscrow rows)
