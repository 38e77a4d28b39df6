-- ===== src/Billing/Webhooks/Runs.antt =====
-- Requests and webhooks in a row.
use whatsapp_atendimentos_ag.Prelude.{
  ℕ, ◌≤◌, ◌≡◌, refl, sym, subst, inl, inr, Bool, true, false, ◌&&◌, Option, List, [], ◌∷◌, if_cases,
  All, arith,
}
use whatsapp_atendimentos_ag.Billing.Calendar.{Moment}
use whatsapp_atendimentos_ag.Billing.Types.{
  Field, missing, malformed, reference, Checkout, RefundStatus, requested, reconcile_required,
  refunded,
}
use whatsapp_atendimentos_ag.Billing.Status.{Focus, return_business_to_free_after_refund}
use whatsapp_atendimentos_ag.Billing.Requests.{request_guarantee_refund, subscription_status}
use whatsapp_atendimentos_ag.Billing.Cards.{
  PaymentEvent, payment_confirmed, payment_received, payment_overdue, payment_refund_in_progress,
  payment_partially_refunded, payment_refund_denied, payment_refunded, payment_chargeback_requested,
  payment_awaiting_chargeback_reversal, other_payment_event, Payload, capture_by, capture_card,
}
use whatsapp_atendimentos_ag.Billing.Webhooks.{
  is_of_checkout, note_refund_event, suspend, note_refunded, change_by_payment_event,
  apply_payment_event, SubscriptionEvent, subscription_inactivated, subscription_deleted,
  subscription_created, subscription_updated, other_subscription_event, apply_subscription_event,
  Action, asks_status, cancels, asks_refund, hears_payment, hears_subscription, act, run,
}
use whatsapp_atendimentos_ag.Billing.Status.Cases.{refunds, is_asked}
use whatsapp_atendimentos_ag.Billing.Webhooks.OneRefund.{
  request_subscription_cancellation-IsOnce, refund_by-IsOnce, status_by-IsOnce,
}
use whatsapp_atendimentos_ag.Billing.Webhooks.Once.{Once, IsOnce, Once-asked, Once-ended}

abbrev is_quiet : PaymentEvent → Bool
is_quiet payment_confirmed = false
is_quiet payment_received = false
is_quiet payment_overdue = false
is_quiet _ = true

abbrev is_named_none : Field → Bool
is_named_none (reference r) = false
is_named_none _ = true

-- The actions that do not make an ended subscription run again: all requests, and the webhooks other
-- than a payment that is confirmed, received or overdue or that names a recurring subscription, and a
-- subscription that is active.
unfoldable pub keeps_ended : Action → Bool
keeps_ended (hears_payment amount now e p) = is_quiet e && is_named_none p.subscription
keeps_ended (hears_subscription now (subscription_created true)) = false
keeps_ended (hears_subscription now (subscription_updated true)) = false
keeps_ended _ = true

note_refund_event-IsOnce :
    (q : RefundStatus) (p : Payload) (f : Focus)
    → is_asked q ≡ true
    → IsOnce f
    → IsOnce (note_refund_event q p f)
unfolding note_refund_event
note_refund_event-IsOnce q p f asked h =
    if_cases IsOnce (is_of_checkout f.checkout p.id) (λ _. Once-asked _ _ _ q asked h) (λ _. h)

suspend-IsOnce : (now : Moment) (f : Focus) → IsOnce f → IsOnce (suspend now f)
unfolding suspend
suspend-IsOnce now f h = Once-ended _ _ _ _ refl h

note_refunded-IsOnce :
    (now : Moment) (p : Payload) (f : Focus) → IsOnce f → IsOnce (note_refunded now p f)
unfolding note_refunded return_business_to_free_after_refund
note_refunded-IsOnce now p f h =
    if_cases IsOnce (is_of_checkout f.checkout p.id) (λ _. Once-asked _ _ _ refunded refl h)
      (λ _. h)

change_by_payment_event-IsOnce :
    (amount : Option ℕ) (now : Moment) (e : PaymentEvent) (p : Payload) (f : Focus)
    → is_quiet e ≡ true
    → IsOnce f
    → IsOnce (change_by_payment_event amount now e p f).1
unfolding change_by_payment_event
change_by_payment_event-IsOnce amount now payment_confirmed p f quiet h = cc quiet
change_by_payment_event-IsOnce amount now payment_received p f quiet h = cc quiet
change_by_payment_event-IsOnce amount now payment_overdue p f quiet h = cc quiet
change_by_payment_event-IsOnce amount now payment_refund_in_progress p f quiet h =
    note_refund_event-IsOnce requested p f refl h
change_by_payment_event-IsOnce amount now payment_partially_refunded p f quiet h =
    note_refund_event-IsOnce reconcile_required p f refl h
change_by_payment_event-IsOnce amount now payment_refund_denied p f quiet h =
    note_refund_event-IsOnce reconcile_required p f refl h
change_by_payment_event-IsOnce amount now payment_refunded p f quiet h =
    note_refunded-IsOnce now p _ (suspend-IsOnce now f h)
change_by_payment_event-IsOnce amount now payment_chargeback_requested p f quiet h =
    suspend-IsOnce now f h
change_by_payment_event-IsOnce amount now payment_awaiting_chargeback_reversal p f quiet h =
    suspend-IsOnce now f h
change_by_payment_event-IsOnce amount now other_payment_event p f quiet h = h

capture_by_none :
    (now : Moment) (e : PaymentEvent) (p : Payload) (field : Field) (o : Option Checkout)
    (f : Focus)
    → is_named_none field ≡ true
    → capture_by now e p field o f ≡ f
unfolding capture_by
capture_by_none now e p (reference r) o f h = cc h
capture_by_none now e p missing o f h = refl
capture_by_none now e p malformed o f h = refl

apply_payment_event-IsOnce :
    (amount : Option ℕ) (now : Moment) (e : PaymentEvent) (p : Payload) (f : Focus)
    → (is_quiet e && is_named_none p.subscription) ≡ true
    → IsOnce f
    → IsOnce (apply_payment_event amount now e p f).1
unfolding apply_payment_event capture_card
apply_payment_event-IsOnce amount now e p f quiet h =
    change_by_payment_event-IsOnce amount now e p _ (grind arith)
      (subst IsOnce (sym (capture_by_none now e p p.subscription f.checkout f (grind arith))) h)

apply_subscription_event-IsOnce :
    (now : Moment) (e : SubscriptionEvent) (f : Focus)
    → keeps_ended (hears_subscription now e) ≡ true
    → IsOnce f
    → IsOnce (apply_subscription_event now e f)
unfolding apply_subscription_event keeps_ended
apply_subscription_event-IsOnce now subscription_inactivated f quiet h = Once-ended _ _ _ _ refl h
apply_subscription_event-IsOnce now subscription_deleted f quiet h = Once-ended _ _ _ _ refl h
apply_subscription_event-IsOnce now (subscription_created true) f quiet h = cc quiet
apply_subscription_event-IsOnce now (subscription_created false) f quiet h = h
apply_subscription_event-IsOnce now (subscription_updated true) f quiet h = cc quiet
apply_subscription_event-IsOnce now (subscription_updated false) f quiet h = h
apply_subscription_event-IsOnce now other_subscription_event f quiet h = h

act-IsOnce : (a : Action) (f : Focus) → keeps_ended a ≡ true → IsOnce f → IsOnce (act a f)
unfolding act subscription_status request_guarantee_refund keeps_ended
act-IsOnce (asks_status g now) f quiet h = status_by-IsOnce f.subscription.refund_status g now f h
act-IsOnce (cancels g now) f quiet h = request_subscription_cancellation-IsOnce g now f h
act-IsOnce (asks_refund g now) f quiet h =
    refund_by-IsOnce f.subscription.refund_status g now f refl h
act-IsOnce (hears_payment amount now e p) f quiet h =
    apply_payment_event-IsOnce amount now e p f quiet h
act-IsOnce (hears_subscription now e) f quiet h = apply_subscription_event-IsOnce now e f quiet h

run-IsOnce :
    (actions : List Action) (f : Focus)
    → All (λ a. keeps_ended a ≡ true) actions
    → IsOnce f
    → IsOnce (run actions f)
unfolding run
run-IsOnce [] f quiet h = h
run-IsOnce (a ∷ rest) f quiet h = run-IsOnce rest _ quiet.1 (act-IsOnce a f quiet.0 h)

-- Whatever a business asks about a subscription of which no refund was submitted, in whatever order
-- and however often, and whatever the provider answers, a refund is submitted to the provider at most
-- once; in between may come webhooks that do not make an ended subscription run again: of a payment
-- that names no recurring subscription and is not confirmed, received or overdue, and of a
-- subscription, but for the news that it is active.
pub run_refunds_once :
    (actions : List Action) (f : Focus)
    → All (λ a. keeps_ended a ≡ true) actions
    → refunds f.calls ≡ 0
    → refunds (run actions f).calls ≤ 1
unfolding Once
run_refunds_once actions f quiet fresh = at_most_one (run-IsOnce actions f quiet (inl fresh))
  where
    at_most_one : IsOnce (run actions f) → refunds (run actions f).calls ≤ 1
    at_most_one (inl e) = omega (arith, e)
    at_most_one (inr (e, _, _)) = omega (arith, e)
