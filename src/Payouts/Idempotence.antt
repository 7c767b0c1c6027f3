-- ===== src/Payouts/Idempotence.antt =====
-- A payout event that Stripe delivers again.
use collabos_backend.Base.{
  ℕ, ◌≡◌, Bool, true, false, List, ◌∷◌, OnSuccess, success_last, success_if, of_success, arith, ok,
  ◌||◌,
}
use collabos_backend.Schema.Money.{WebhookEvent}
use collabos_backend.Payouts.Service.{PayoutsDb}
use collabos_backend.Payouts.Webhook.{
  PayoutEvent, dispatch_payout, payouts_source, is_handled, process_payout_event,
  handle_payout_event,
}

abbrev IsHandled : ℕ → PayoutsDb → Type 0
IsHandled id s = is_handled id s.webhook_events ≡ true

handled_after :
    (id : ℕ) (es : List WebhookEvent)
    → is_handled id (record { source = payouts_source; event_id = id } ∷ es) ≡ true
unfolding is_handled
handled_after id es = ground arith

process-IsHandled :
    (id : ℕ) (event : PayoutEvent) (s : PayoutsDb)
    → OnSuccess (λ _ t. IsHandled id t) (process_payout_event id event s)
unfolding process_payout_event
process-IsHandled id event s =
    success_if (IsHandled id) (is_handled id s.webhook_events) _ _ s (λ h. h)
      (λ _.
        success_last (IsHandled id) _ (dispatch_payout event s)
          (λ t. handled_after id t.webhook_events))

handle-IsHandled :
    (id : ℕ) (event : PayoutEvent) (s : PayoutsDb)
    → OnSuccess (λ _ t. IsHandled id t) (handle_payout_event true id event s)
unfolding handle_payout_event
handle-IsHandled id event s =
    success_if (IsHandled id) (is_handled id s.webhook_events || false) _ _ s
      (λ h. ground (arith, h)) (λ _. process-IsHandled id event s)

handle_again :
    (acquired : Bool) (id : ℕ) (event : PayoutEvent) (s : PayoutsDb)
    → IsHandled id s
    → handle_payout_event acquired id event s ≡ (ok tt, s)
unfolding handle_payout_event
handle_again acquired id event s h = ground (arith, h)

-- A payout event that was handled under the lock without a throw changes nothing when it is
-- delivered again.
pub payout_event_again_changes_nothing :
    (acquired : Bool) (id : ℕ) (event : PayoutEvent) (s : PayoutsDb)
    → (handle_payout_event true id event s).0 ≡ ok tt
    → handle_payout_event acquired id event (handle_payout_event true id event s).1
      ≡ (ok tt, (handle_payout_event true id event s).1)
payout_event_again_changes_nothing acquired id event s h =
    handle_again acquired id event (handle_payout_event true id event s).1 (
      of_success (IsHandled id) (handle_payout_event true id event s) tt h
        (handle-IsHandled id event s))
