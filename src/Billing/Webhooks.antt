-- ===== src/Billing/Webhooks.antt =====
-- app/billing/service.py: what the provider's webhooks change of a subscription
-- (`apply_payment_event` but for Pix, `apply_subscription_event`, and the cancellations of
-- `apply_pix_authorization_event`), with the subscription found.
pub mod Once
pub mod OneRefund
pub mod Runs
pub mod Resubmit
pub mod Extended
use whatsapp_atendimentos_ag.Prelude.{
  ℕ, Bool, true, false, not, ◌&&◌, Option, none, some, List, [], ◌∷◌, ◌==◌, if◌then◌else◌,
}
use whatsapp_atendimentos_ag.Billing.Money.{Value, payment_value_cents}
use whatsapp_atendimentos_ag.Billing.Calendar.{Moment, Cycle, later, earlier, cycle_end}
use whatsapp_atendimentos_ag.Billing.Types.{
  Reference, Field, missing, malformed, reference, Environment, sandbox, production,
  SubscriptionStatus, active, past_due, canceled, suspended, RefundStatus, requested,
  reconcile_required, refunded, Checkout, Subscription, AccessMode, free, Access, Payment, Gateway,
  offer_amount_cents, or_now, same_reference,
}
use whatsapp_atendimentos_ag.Billing.Refunds.{pays}
use whatsapp_atendimentos_ag.Billing.Status.{
  Focus, with_refund_status, return_business_to_free_after_refund,
}
use whatsapp_atendimentos_ag.Billing.Cards.{
  PaymentEvent, payment_confirmed, payment_received, payment_overdue, payment_refund_in_progress,
  payment_partially_refunded, payment_refund_denied, payment_refunded, payment_chargeback_requested,
  payment_awaiting_chargeback_reversal, other_payment_event, Payload, used_in,
  record_operational_history, is_paid_event, renewed, has_session, has_subscription, captured,
  mark_native, capture_card,
}
use whatsapp_atendimentos_ag.Billing.Requests.{
  request_subscription_cancellation, request_guarantee_refund, subscription_status,
}

abbrev pub with_status : SubscriptionStatus → Focus → Focus
with_status s f = record f { subscription = record f.subscription { status = s } }

abbrev anchor : Moment → Option Moment → Moment
anchor now none = now
anchor now (some due) = due

unfoldable pub extend_access : Moment → Focus → Focus
unfolding later
extend_access to f = record f {
  subscription = record f.subscription {
    access_until = later f.subscription.access_until to;
    status = active;
  };
}

-- PAYMENT_CONFIRMED and PAYMENT_RECEIVED
unfoldable pub renew : Option ℕ → Moment → Payload → Focus → Focus
unfolding extend_access record_operational_history cycle_end
renew test_amount now p f =
    let s = f.subscription in
    if pays (offer_amount_cents test_amount s.plan_code s.billing_cycle)
      (payment_value_cents p.value)
    then record_operational_history
        (extend_access (cycle_end (anchor now p.due_date) s.billing_cycle) f)
    else f

-- The id of the payment whose push event is added, where there is one.
abbrev pub action_of : SubscriptionStatus → Field → Option Reference
action_of past_due field = none
action_of _ (reference r) = some r
action_of _ field = none

unfoldable pub is_of_checkout : Option Checkout → Field → Bool
is_of_checkout (some c) (reference r) = same_reference c.provider_payment_id r
is_of_checkout _ _ = false

unfoldable pub note_refund_event : RefundStatus → Payload → Focus → Focus
unfolding is_of_checkout
note_refund_event s p f = if is_of_checkout f.checkout p.id then with_refund_status s f else f

unfoldable pub suspend : Moment → Focus → Focus
unfolding earlier
suspend now f = record f {
  subscription = record f.subscription {
    status = suspended;
    access_until = earlier f.subscription.access_until now;
  };
}

unfoldable pub note_refunded : Moment → Payload → Focus → Focus
unfolding is_of_checkout return_business_to_free_after_refund or_now
note_refunded now p f =
    if is_of_checkout f.checkout p.id
    then return_business_to_free_after_refund (record f {
      subscription = record f.subscription {
        refund_status = refunded;
        refunded_at = or_now f.subscription.refunded_at now;
      };
    })
    else f

-- Lines 1786 to 1862, with the subscription found: the new action event, and the rows.
unfoldable pub change_by_payment_event :
    Option ℕ → Moment → PaymentEvent → Payload → Focus → Option Reference × Focus
unfolding renew note_refund_event suspend note_refunded
change_by_payment_event amount now payment_confirmed p f = (none, renew amount now p f)
change_by_payment_event amount now payment_received p f = (none, renew amount now p f)
change_by_payment_event amount now payment_overdue p f =
    (action_of f.subscription.status p.id, with_status past_due f)
change_by_payment_event amount now payment_refund_in_progress p f =
    (none, note_refund_event requested p f)
change_by_payment_event amount now payment_partially_refunded p f =
    (none, note_refund_event reconcile_required p f)
change_by_payment_event amount now payment_refund_denied p f =
    (none, note_refund_event reconcile_required p f)
change_by_payment_event amount now payment_refunded p f =
    (none, note_refunded now p (suspend now f))
change_by_payment_event amount now payment_chargeback_requested p f = (none, suspend now f)
change_by_payment_event amount now payment_awaiting_chargeback_reversal p f = (none, suspend now f)
change_by_payment_event amount now other_payment_event p f = (none, f)

-- `apply_payment_event` of a payment that is none by Pix, with the subscription found; of a Pix payment
-- too where it is not PAYMENT_CONFIRMED or PAYMENT_RECEIVED, since lines 1760 to 1767 do nothing then.
unfoldable pub apply_payment_event :
    Option ℕ → Moment → PaymentEvent → Payload → Focus → Option Reference × Focus
unfolding capture_card change_by_payment_event
apply_payment_event amount now e p f =
    change_by_payment_event amount now e p (capture_card now e p f)

-- Whether the payload of the event has the status ACTIVE.
pub data SubscriptionEvent : Type 0 where
  subscription_inactivated subscription_deleted : SubscriptionEvent
  subscription_created subscription_updated : Bool → SubscriptionEvent
  other_subscription_event : SubscriptionEvent

abbrev pub close_subscription : Moment → Focus → Focus
close_subscription now f = record f {
  subscription = record f.subscription { status = canceled; canceled_at = some now };
}

abbrev reactivated : SubscriptionStatus → SubscriptionStatus
reactivated suspended = suspended
reactivated past_due = past_due
reactivated _ = active

abbrev reactivate : Bool → Focus → Focus
reactivate true f = with_status (reactivated f.subscription.status) f
reactivate false f = f

-- `apply_subscription_event`
unfoldable pub apply_subscription_event : Moment → SubscriptionEvent → Focus → Focus
apply_subscription_event now subscription_inactivated f = close_subscription now f
apply_subscription_event now subscription_deleted f = close_subscription now f
apply_subscription_event now (subscription_created is_active) f = reactivate is_active f
apply_subscription_event now (subscription_updated is_active) f = reactivate is_active f
apply_subscription_event now other_subscription_event f = f

-- What happens to a subscription: a request of the business, with what the provider answers to it, or
-- a webhook.
pub data Action : Type 0 where
  asks_status cancels asks_refund : Gateway → Moment → Action
  hears_payment : Option ℕ → Moment → PaymentEvent → Payload → Action
  hears_subscription : Moment → SubscriptionEvent → Action

unfoldable pub act : Action → Focus → Focus
unfolding subscription_status request_subscription_cancellation request_guarantee_refund
    apply_payment_event apply_subscription_event
act (asks_status g now) f = (subscription_status g now f).1
act (cancels g now) f = (request_subscription_cancellation g now f).1
act (asks_refund g now) f = (request_guarantee_refund g now f).1
act (hears_payment amount now e p) f = (apply_payment_event amount now e p f).1
act (hears_subscription now e) f = apply_subscription_event now e f

-- One action after the other.
unfoldable pub run : List Action → Focus → Focus
unfolding act
run [] f = f
run (a ∷ rest) f = run rest (act a f)
