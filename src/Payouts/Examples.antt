-- ===== src/Payouts/Examples.antt =====
-- A creator who earned 90 withdraws 50.
use collabos_backend.Base.{
  refl, none, -ℤ_parts, ltb_ℤ, pos, ◌-ℤ◌, ◌≡◌, err, external_failure, conflict, false, ℕ, arith,
  some, String, Result, ok, [], ◌∷◌, AuthenticatedUser, false, true,
}
use collabos_backend.Schema.Money.{
  ConnectedAccount, Payout, PayoutStatus, payout_status_enum, ConnectAccountStatus, SplitStatus,
}
use collabos_backend.Payouts.Service.{
  available, map_stripe_status, to_submitted, new_payout, PayoutsDb, PayoutRequest, withdraw,
}
use collabos_backend.Payouts.Webhook.{
  PayoutEvent, handle_payout_event, process_payout_event, is_handled, update_payout_status,
  status_found, return_funds,
}
use collabos_backend.Payouts.Withdrawal.{Progress, committed, withdraw_reserves, withdraw_refused}
use collabos_backend.Payouts.Idempotence.{payout_event_again_changes_nothing}
use collabos_backend.Payouts.Solvency.{IsSolvent, withdraw-IsSolvent}

abbrev creator : AuthenticatedUser
creator = record {
  id = 20;
  email = "user@example.com";
  is_email_verified = true;
  is_active = true;
  roles = [];
  permissions = [];
}

abbrev account : ConnectedAccount
account = record {
  user_id = 20;
  status = ConnectAccountStatus.active;
  stripe_account_id = 77;
  charges_enabled = true;
  payouts_enabled = true;
  details_submitted = true;
}

abbrev start : PayoutsDb
start = record {
  splits =
      (
        1,
        record {
          payment_id = 100;
          recipient_user_id = some 20;
          is_platform_fee = false;
          amount = 90;
          status = SplitStatus.released;
          stripe_transfer_id = some 900;
          released_at = some 9;
        },
      )
      ∷ [];
  accounts = (1, account) ∷ [];
  payouts = [];
  transactions = [];
  webhook_events = [];
}

abbrev create_payout : PayoutRequest → Result (ℕ × String)
create_payout request = ok (5, "in_transit")

start-IsSolvent : IsSolvent start
start-IsSolvent user = omega arith

withdraw-IsSolvent_example : IsSolvent (withdraw create_payout 20 8 creator (some 50) start).1
withdraw-IsSolvent_example =
    withdraw-IsSolvent create_payout 20 8 creator (some 50) start start-IsSolvent

enough : ltb_ℤ (available 20 start) (pos 50) ≡ false
unfolding available
enough = ground (arith, -ℤ_parts (pos 90) (pos 0), -ℤ_parts (pos 90 -ℤ pos 0) (pos 0))

abbrev travelling_payout : Payout
travelling_payout = record {
  user_id = 20;
  stripe_account_id = 77;
  stripe_payout_id = some 5;
  amount = 50;
  currency = "USD";
  status = PayoutStatus.in_transit;
  failure_reason = none;
}

withdraw_reserves_example :
    ((withdraw create_payout 20 8 creator (some 50) start).0 ≡ ok travelling_payout)
    × ((withdraw create_payout 20 8 creator (some 50) start).1.payouts
        ≡ (8, travelling_payout) ∷ [])
    × (committed 20 (withdraw create_payout 20 8 creator (some 50) start).1.payouts ≡ 50)
withdraw_reserves_example =
    withdraw_reserves create_payout 20 8 creator 50 start (1, account) 5 Progress.travelling refl
      refl (omega arith) enough (omega arith) refl

abbrev refuse_payout : PayoutRequest → Result (ℕ × String)
refuse_payout request = err (external_failure "No such account")

withdraw_refused_example :
    ((withdraw refuse_payout 20 8 creator (some 50) start).0
      ≡ err (conflict "Stripe was unable to process this payout"))
    × (committed 20 (withdraw refuse_payout 20 8 creator (some 50) start).1.payouts ≡ 0)
withdraw_refused_example =
    withdraw_refused refuse_payout 20 8 creator 50 start (1, account)
      (external_failure "No such account") refl refl (omega arith) enough (omega arith) refl

abbrev in_transit : PayoutsDb
in_transit = record start {
  payouts = (8, to_submitted (5, "in_transit") (new_payout 20 77 50)) ∷ [];
}

abbrev failed : PayoutEvent
failed = PayoutEvent.payout_failed (record { id = 5; failure_message = none })

failed_ok : (handle_payout_event true 1 failed in_transit).0 ≡ ok tt
unfolding handle_payout_event process_payout_event is_handled update_payout_status status_found
    return_funds map_stripe_status
failed_ok = refl

payout_event_again_changes_nothing_example :
    handle_payout_event true 1 failed (handle_payout_event true 1 failed in_transit).1
    ≡ (ok tt, (handle_payout_event true 1 failed in_transit).1)
payout_event_again_changes_nothing_example =
    payout_event_again_changes_nothing true 1 failed in_transit failed_ok
