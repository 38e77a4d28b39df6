-- ===== src/Billing/Activation.antt =====
-- app/billing/service.py: the card path of `apply_payment_event`, lines 1768 to 1776, on the rows of a
-- business: a payment's webhook finds its checkout, notes the references and activates the
-- subscription, which may be a new one.
use whatsapp_atendimentos_ag.Prelude.{Bool, ◌&&◌, Option, none, some, ◌∷◌, ◌==◌, if◌then◌else◌}
use whatsapp_atendimentos_ag.Booking.Types.{Uuid}
use whatsapp_atendimentos_ag.Billing.Money.{payment_value_cents}
use whatsapp_atendimentos_ag.Billing.Calendar.{Moment, cycle_end}
use whatsapp_atendimentos_ag.Billing.Types.{
  Reference, Field, missing, malformed, reference, Environment, same_environment, CheckoutStatus,
  paid, Checkout, Subscription, SubscriptionStatus, RefundStatus, same_reference, or_now,
}
use whatsapp_atendimentos_ag.Billing.Types
use whatsapp_atendimentos_ag.Billing.Refunds.{pays}
use whatsapp_atendimentos_ag.Billing.Desk.{Desk, first, change_first, is_status, is_credit_card}
use whatsapp_atendimentos_ag.Billing.Create.{active_subscription}
use whatsapp_atendimentos_ag.Billing.Cards.{
  PaymentEvent, Payload, used_in, renewed, has_session, has_subscription, captured, mark_native,
}

-- `_subscription_for_checkout`
abbrev pub is_of : Environment → Uuid → Subscription → Bool
is_of e i s = (s.checkout_id == i) && same_environment s.provider_environment e

abbrev new_subscription : Moment → Reference → Checkout → Desk → Subscription
new_subscription to r c d = record {
  business_id = c.business_id;
  checkout_id = c.id;
  plan_code = c.plan_code;
  billing_cycle = c.billing_cycle;
  payment_method = Types.credit_card;
  provider_environment = d.environment;
  status = SubscriptionStatus.active;
  provider_subscription_id = some r;
  provider_authorization_id = none;
  provider_pix_qr_code_id = none;
  provider_customer_id = c.provider_customer_id;
  access_until = to;
  canceled_at = none;
  cancellation_requested_at = none;
  refund_status = Types.no_refund;
  refund_requested_at = none;
  refunded_at = none;
}

unfoldable pub activate_new : Moment → Reference → Checkout → Option Subscription → Desk → Desk
unfolding used_in
activate_new to r c (some other) d = d
activate_new to r c none d = record d {
  subscriptions = new_subscription to r c d ∷ d.subscriptions;
  access = used_in d.environment d.access;
}

unfoldable pub activate_found :
    Moment → Moment → Reference → Checkout → Option Subscription → Desk → Desk
unfolding activate_new active_subscription renewed change_first used_in
activate_found now to r c none d =
    activate_new to r c (active_subscription d.environment now d.subscriptions) d
activate_found now to r c (some s) d = record d {
  subscriptions = change_first (is_of d.environment c.id) (renewed to r c) d.subscriptions;
  access = used_in d.environment d.access;
}

unfoldable pub activate_with : Moment → Option Reference → Checkout → Desk → Desk
unfolding activate_found first cycle_end
activate_with now none c d = d
activate_with now (some r) c d =
    activate_found now (cycle_end now c.billing_cycle) r c
      (first (is_of d.environment c.id) d.subscriptions) d

-- `_activate_credit_card_subscription_if_ready`
unfoldable pub activate_credit_card_subscription_if_ready : Moment → Checkout → Desk → Desk
unfolding activate_with
activate_credit_card_subscription_if_ready now c d =
    if is_credit_card c.payment_method && is_status c.status paid
    then activate_with now c.provider_subscription_id c d
    else d

unfoldable pub capture_row :
    Moment → PaymentEvent → Payload → Reference → (Checkout → Bool) → Checkout → Desk → Desk
unfolding captured mark_native activate_credit_card_subscription_if_ready change_first
capture_row now e p r test c d =
    if pays c.amount_cents (payment_value_cents p.value)
    then activate_credit_card_subscription_if_ready now (mark_native now e (captured e p r c))
        (record d {
          checkouts = change_first test (λ x. mark_native now e (captured e p r x)) d.checkouts;
        })
    else d

unfoldable pub capture_by_subscription :
    Moment → PaymentEvent → Payload → Reference → Option Checkout → Desk → Desk
unfolding capture_row
capture_by_subscription now e p r none d = d
capture_by_subscription now e p r (some c) d =
    capture_row now e p r (has_subscription d.environment r) c d

unfoldable pub capture_by_session :
    Moment → PaymentEvent → Payload → Reference → Reference → Option Checkout → Desk → Desk
unfolding capture_row capture_by_subscription first
capture_by_session now e p r session (some c) d =
    capture_row now e p r (has_session d.environment session) c d
capture_by_session now e p r session none d =
    capture_by_subscription now e p r (first (has_subscription d.environment r) d.checkouts) d

unfoldable pub capture_from : Moment → PaymentEvent → Payload → Reference → Field → Desk → Desk
unfolding capture_by_session capture_by_subscription first
capture_from now e p r (reference session) d =
    capture_by_session now e p r session (first (has_session d.environment session) d.checkouts) d
capture_from now e p r _ d =
    capture_by_subscription now e p r (first (has_subscription d.environment r) d.checkouts) d

unfoldable pub with_subscription : Moment → PaymentEvent → Payload → Field → Desk → Desk
unfolding capture_from
with_subscription now e p (reference r) d = capture_from now e p r p.checkout_session d
with_subscription now e p _ d = d

-- `_capture_credit_card_checkout_refs` and the activation that follows it
unfoldable pub capture_card_payment : Moment → PaymentEvent → Payload → Desk → Desk
unfolding with_subscription
capture_card_payment now e p d = with_subscription now e p p.subscription d
