-- ===== src/Payments/Idempotence.antt =====
-- A webhook event that Stripe delivers again.
use collabos_backend.Base.{
  success_last, success_if, of_success, ℕ, ◌≡◌, Bool, true, false, List, ◌∷◌, OnSuccess, arith, ok,
  ◌||◌,
}
use collabos_backend.Schema.Money.{WebhookEvent}
use collabos_backend.Payments.State.{PaymentsDb}
use collabos_backend.Payments.Webhook.{
  StripeEvent, handle_event, process_event, is_logged, log_event, dispatch, webhook_source,
}

logged_after :
    (id : ℕ) (es : List WebhookEvent)
    → is_logged id (record { source = webhook_source; event_id = id } ∷ es) ≡ true
unfolding is_logged
logged_after id es = ground arith

abbrev IsLogged : ℕ → PaymentsDb → Type 0
IsLogged id s = is_logged id s.webhook_events ≡ true

process-IsLogged :
    (key : ℕ) (event : StripeEvent) (s : PaymentsDb)
    → OnSuccess (λ _ t. IsLogged event.id t) (process_event key event s)
unfolding process_event log_event
process-IsLogged key event s =
    success_if (IsLogged event.id) (is_logged event.id s.webhook_events) _ _ s (λ h. h)
      (λ _.
        success_last (IsLogged event.id) _ (dispatch key event.object s)
          (λ t. logged_after event.id t.webhook_events))

handle-IsLogged :
    (key : ℕ) (event : StripeEvent) (s : PaymentsDb)
    → OnSuccess (λ _ t. IsLogged event.id t) (handle_event true key event s)
unfolding handle_event
handle-IsLogged key event s =
    success_if (IsLogged event.id) (is_logged event.id s.webhook_events || false) _ _ s
      (λ h. ground (arith, h)) (λ _. process-IsLogged key event s)

handle_again :
    (acquired : Bool) (key : ℕ) (event : StripeEvent) (s : PaymentsDb)
    → IsLogged event.id s
    → handle_event acquired key event s ≡ (ok tt, s)
unfolding handle_event
handle_again acquired key event s h = ground (arith, h)

-- An event that was handled under the lock without a throw changes nothing when it is delivered
-- again: the second delivery succeeds and leaves every table, transfer and job as it was.
pub redelivery_changes_nothing :
    (acquired : Bool) (key key_again : ℕ) (event : StripeEvent) (s : PaymentsDb)
    → (handle_event true key event s).0 ≡ ok tt
    → handle_event acquired key_again event (handle_event true key event s).1
      ≡ (ok tt, (handle_event true key event s).1)
redelivery_changes_nothing acquired key key_again event s h =
    handle_again acquired key_again event (handle_event true key event s).1 (
      of_success (IsLogged event.id) (handle_event true key event s) tt h
        (handle-IsLogged key event s))
