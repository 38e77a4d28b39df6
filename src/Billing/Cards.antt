-- ===== src/Billing/Cards.antt =====
-- app/billing/service.py: the first part of `apply_payment_event`, lines 1768 to 1776, on one
-- subscription: a payment that names the card checkout of the subscription is noted in the checkout,
-- and activates the subscription once the checkout is paid.
pub mod Laws
use whatsapp_atendimentos_ag.Prelude.{
  ℕ, Bool, true, false, not, ◌&&◌, ◌||◌, Option, none, some, is_none, List, [], ◌∷◌, ◌==◌,
  if◌then◌else◌,
}
use whatsapp_atendimentos_ag.Billing.Money.{Value, payment_value_cents}
use whatsapp_atendimentos_ag.Billing.Calendar.{Moment, later, cycle_end}
use whatsapp_atendimentos_ag.Billing.Types.{
  Reference, Field, missing, malformed, reference, Environment, sandbox, production,
  same_environment, CheckoutStatus, paid, Checkout, Subscription, SubscriptionStatus, free, Access,
  same_reference, or_now,
}
use whatsapp_atendimentos_ag.Billing.Refunds.{pays}
use whatsapp_atendimentos_ag.Billing.Status.{Focus}
use whatsapp_atendimentos_ag.Billing.Desk.{is_status, is_credit_card}

pub data PaymentEvent : Type 0 where
  payment_confirmed payment_received payment_overdue : PaymentEvent
  payment_refund_in_progress payment_partially_refunded payment_refund_denied : PaymentEvent
  payment_refunded payment_chargeback_requested payment_awaiting_chargeback_reversal : PaymentEvent
  other_payment_event : PaymentEvent

-- The fields of a payment's payload that are read; `due_date` is the midnight of the date that
-- `_parse_due_date` reads.
pub record Payload : Type 0 where
  pub id : Field
  pub value : Value
  pub due_date : Option Moment
  pub checkout_session : Field
  pub subscription : Field
  pub customer : Field

unfoldable pub used : Option Access → Access
used none = record {
  access_mode = free;
  admin_full_access = false;
  has_had_operational_access = true;
}
used (some a) = record a { has_had_operational_access = true }

unfoldable pub used_in : Environment → Option Access → Option Access
unfolding used
used_in sandbox access = access
used_in production access = some (used access)

-- `_record_operational_history`
unfoldable pub record_operational_history : Focus → Focus
unfolding used_in
record_operational_history f = record f { access = used_in f.environment f.access }

abbrev pub is_paid_event : PaymentEvent → Bool
is_paid_event payment_confirmed = true
is_paid_event payment_received = true
is_paid_event _ = false

unfoldable pub renewed : Moment → Reference → Checkout → Subscription → Subscription
unfolding later
renewed to r c s = record s {
  status = SubscriptionStatus.active;
  provider_subscription_id = some r;
  provider_customer_id = c.provider_customer_id;
  access_until = later s.access_until to;
}

abbrev pub is_card_of : Environment → Checkout → Bool
is_card_of e c = is_credit_card c.payment_method && same_environment c.provider_environment e

abbrev pub has_session : Environment → Reference → Checkout → Bool
has_session e r c = same_reference c.provider_checkout_id r && is_card_of e c

abbrev pub has_subscription : Environment → Reference → Checkout → Bool
has_subscription e r c = same_reference c.provider_subscription_id r && is_card_of e c

abbrev pub keeps_customer : Field → Option Reference → Option Reference
keeps_customer (reference r) old = some r
keeps_customer _ old = old

-- `_capture_initial_payment_id`
unfoldable pub initial_payment_id : PaymentEvent → Field → Option Reference → Option Reference
initial_payment_id e (reference r) none = if is_paid_event e then some r else none
initial_payment_id e f old = old

abbrev pub is_missing : Field → Bool
is_missing missing = true
is_missing _ = false

unfoldable pub captured : PaymentEvent → Payload → Reference → Checkout → Checkout
unfolding initial_payment_id
captured e p r c = record c {
  provider_subscription_id = some r;
  provider_customer_id = keeps_customer p.customer c.provider_customer_id;
  provider_payment_id =
      if not (is_missing p.checkout_session) || is_none c.paid_at
      then initial_payment_id e p.id c.provider_payment_id
      else c.provider_payment_id;
}

-- Lines 1769 to 1776: `now` is when a checkout without a hosted session is marked paid.
unfoldable pub mark_native : Moment → PaymentEvent → Checkout → Checkout
unfolding or_now
mark_native now e c =
    if is_none c.provider_checkout_id && is_paid_event e
    then record c { status = paid; paid_at = or_now c.paid_at now }
    else c

-- `_activate_credit_card_subscription_if_ready`, for a checkout that has its subscription.
unfoldable pub activate_by : Moment → Option Reference → Checkout → Focus → Focus
unfolding renewed record_operational_history cycle_end
activate_by now none c f = f
activate_by now (some r) c f =
    record_operational_history
      (record f { subscription = renewed (cycle_end now c.billing_cycle) r c f.subscription })

unfoldable pub activate_if_ready : Moment → Checkout → Focus → Focus
unfolding activate_by
activate_if_ready now c f =
    if is_credit_card c.payment_method && is_status c.status paid
    then activate_by now c.provider_subscription_id c f
    else f

-- Whether the query by the session, or else the one by the subscription, finds the checkout. The session
-- and the subscription that a payment names are those of one checkout.
unfoldable pub is_named : Environment → Payload → Reference → Checkout → Bool
is_named e p r c = elim p.checkout_session [
  | reference session ↦ has_session e session c || has_subscription e r c
  | _ ↦ has_subscription e r c
]

unfoldable pub capture_checkout :
    Moment → PaymentEvent → Payload → Reference → Checkout → Focus → Focus
unfolding captured mark_native activate_if_ready is_named
capture_checkout now e p r c f =
    if is_named f.environment p r c && pays c.amount_cents (payment_value_cents p.value)
    then activate_if_ready now (mark_native now e (captured e p r c))
        (record f { checkout = some (mark_native now e (captured e p r c)) })
    else f

unfoldable pub capture_by :
    Moment → PaymentEvent → Payload → Field → Option Checkout → Focus → Focus
unfolding capture_checkout
capture_by now e p (reference r) (some c) f = capture_checkout now e p r c f
capture_by now e p field o f = f

-- Lines 1768 to 1776
unfoldable pub capture_card : Moment → PaymentEvent → Payload → Focus → Focus
unfolding capture_by
capture_card now e p f = capture_by now e p p.subscription f.checkout f
