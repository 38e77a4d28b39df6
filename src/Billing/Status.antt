-- ===== src/Billing/Status.antt =====
-- app/billing/service.py: one subscription with the rows that go with it, how it is reconciled with
-- the provider's refund, and the status that is answered.
pub mod Cases
pub mod Settled
use whatsapp_atendimentos_ag.Prelude.{
  Bool, true, false, not, ◌&&◌, Option, none, some, List, [], ◌∷◌, if◌then◌else◌,
}
use whatsapp_atendimentos_ag.Booking.Types.{Uuid}
use whatsapp_atendimentos_ag.Billing.Calendar.{Moment, Cycle, at_most, earlier, add_days}
use whatsapp_atendimentos_ag.Billing.Types.{
  Reference, Environment, sandbox, production, same_environment, Plan, PaymentMethod, credit_card,
  pix, pix_automatic, SubscriptionStatus, canceled, suspended, RefundStatus, no_refund, requested,
  reconcile_required, refunded, Checkout, Subscription, AccessMode, free, Access, Payment, Gateway,
  Call, cancel_subscription, cancel_pix_authorization, or_now, same_reference,
}
use whatsapp_atendimentos_ag.Billing.Refunds.{
  ProviderRefundStatus, done, awaiting_authorization, pending, partial, cancelled, unknown,
  provider_refund_status,
}

-- The rows that a request on one subscription reads and writes: the subscription, the checkout of its
-- `checkout_id`, the access row of the business, the id of its first paid checkout, which no request
-- changes, and the calls made to the provider, the last one first.
pub record Focus : Type 0 where
  pub environment : Environment
  pub subscription : Subscription
  pub checkout : Option Checkout
  pub access : Option Access
  pub first_paid : Option Uuid
  pub calls : List Call

abbrev pub with_refund_status : RefundStatus → Focus → Focus
with_refund_status s f = record f { subscription = record f.subscription { refund_status = s } }

unfoldable pub freed : Option Access → Access
freed none = record {
  access_mode = free;
  admin_full_access = false;
  has_had_operational_access = true;
}
freed (some a) = record {
  access_mode = if a.admin_full_access then a.access_mode else free;
  admin_full_access = a.admin_full_access;
  has_had_operational_access = true;
}

unfoldable pub free_in : Environment → Option Access → Option Access
unfolding freed
free_in sandbox access = access
free_in production access = some (freed access)

-- `_return_business_to_free_after_refund`
unfoldable pub return_business_to_free_after_refund : Focus → Focus
unfolding free_in
return_business_to_free_after_refund f = record f { access = free_in f.environment f.access }

unfoldable pub close_refunded : Moment → Subscription → Subscription
unfolding or_now earlier
close_refunded now s = record s {
  refund_status = refunded;
  refunded_at = or_now s.refunded_at now;
  status = suspended;
  access_until = earlier s.access_until now;
}

-- Lines 1001 to 1017: what the provider's status changes.
unfoldable pub settle : Option ProviderRefundStatus → Moment → Focus → Focus
unfolding return_business_to_free_after_refund close_refunded
settle (some done) now f =
    return_business_to_free_after_refund
      (record f { subscription = close_refunded now f.subscription })
settle (some awaiting_authorization) now f = with_refund_status requested f
settle (some pending) now f = with_refund_status requested f
settle (some cancelled) now f = with_refund_status reconcile_required f
settle (some partial) now f = with_refund_status reconcile_required f
settle _ now f = f

unfoldable pub settle_payment :
    Option Payment → Checkout → Moment → Focus → Option ProviderRefundStatus × Focus
unfolding settle
settle_payment none c now f = (some unknown, f)
settle_payment (some p) c now f =
    let status = provider_refund_status p.refunds c.amount_cents in (status, settle status now f)

unfoldable pub ask_provider :
    Gateway → Option Reference → Checkout → Moment → Focus → Option ProviderRefundStatus × Focus
unfolding settle_payment
ask_provider g none c now f = (some unknown, f)
ask_provider g (some p) c now f = settle_payment (g.payment_details p) c now f

unfoldable pub ask_for :
    Gateway → Option Checkout → Moment → Focus → Option ProviderRefundStatus × Focus
unfolding ask_provider
ask_for g none now f = (some unknown, f)
ask_for g (some c) now f = ask_provider g c.provider_payment_id c now f

unfoldable pub reconcile_by :
    RefundStatus → Gateway → Moment → Focus → Option ProviderRefundStatus × Focus
unfolding ask_for
reconcile_by refunded g now f = (some done, f)
reconcile_by no_refund g now f = (none, f)
reconcile_by _ g now f = ask_for g f.checkout now f

-- `_reconcile_provider_refund`
unfoldable pub reconcile_provider_refund :
    Gateway → Moment → Focus → Option ProviderRefundStatus × Focus
unfolding reconcile_by
reconcile_provider_refund g now f = reconcile_by f.subscription.refund_status g now f

abbrev pub is_refunded : RefundStatus → Bool
is_refunded refunded = true
is_refunded _ = false

unfoldable pub seven_days : Bool → Option Moment → Option Moment
unfolding add_days
seven_days true (some paid_at) = some (add_days paid_at 7)
seven_days _ _ = none

-- `paid_at + timedelta(days=7)` of a paid checkout of the environment.
unfoldable pub guarantee_until : Environment → Option Checkout → Option Moment
unfolding seven_days
guarantee_until e none = none
guarantee_until e (some c) = seven_days (same_environment c.provider_environment e) c.paid_at

unfoldable pub guarantee_eligible : Moment → Option Moment → Focus → Bool
unfolding at_most
guarantee_eligible now none f = false
guarantee_eligible now (some limit) f =
    same_reference f.first_paid f.subscription.checkout_id
    && at_most now limit
    && not (is_refunded f.subscription.refund_status)

abbrev deadline : Option Moment → RefundStatus → Option Moment
deadline none s = none
deadline (some asked) s = if is_refunded s then none else some (add_days asked 1)

-- `SubscriptionStatusResponse`
pub record Response : Type 0 where
  pub status : SubscriptionStatus
  pub payment_method : PaymentMethod
  pub plan : Plan
  pub cycle : Cycle
  pub access_until : Moment
  pub canceled_at : Option Moment
  pub cancellation_requested_at : Option Moment
  pub guarantee_until : Option Moment
  pub guarantee_eligible : Bool
  pub refund_status : RefundStatus
  pub refund_provider_status : Option ProviderRefundStatus
  pub refund_deadline_at : Option Moment

unfoldable pub response : Moment → Option ProviderRefundStatus → Focus → Response
unfolding guarantee_until guarantee_eligible
response now provider_status f =
    let s = f.subscription in
    let limit = guarantee_until f.environment f.checkout in
    record {
      status = s.status;
      payment_method = s.payment_method;
      plan = s.plan_code;
      cycle = s.billing_cycle;
      access_until = s.access_until;
      canceled_at = s.canceled_at;
      cancellation_requested_at = s.cancellation_requested_at;
      guarantee_until = limit;
      guarantee_eligible = guarantee_eligible now limit f;
      refund_status = s.refund_status;
      refund_provider_status = provider_status;
      refund_deadline_at = deadline s.refund_requested_at s.refund_status;
    }

-- `_subscription_status_response`
unfoldable pub subscription_status_response : Gateway → Moment → Focus → Response × Focus
unfolding reconcile_provider_refund response
subscription_status_response g now f =
    let (provider_status, f1) = reconcile_provider_refund g now f in
    (response now provider_status f1, f1)

abbrev pub logged : Call → Focus → Focus
logged c f = record f { calls = c ∷ f.calls }

unfoldable pub cancel_recurrence_of :
    Gateway → PaymentMethod → Option Reference → Option Reference → Focus → Bool × Focus
cancel_recurrence_of g credit_card (some s) a f =
    (g.cancel_subscription s, logged (cancel_subscription s) f)
cancel_recurrence_of g credit_card none a f = (false, f)
cancel_recurrence_of g pix_automatic s (some a) f =
    (g.cancel_pix_authorization a, logged (cancel_pix_authorization a) f)
cancel_recurrence_of g pix_automatic (some s) none f =
    (g.cancel_subscription s, logged (cancel_subscription s) f)
cancel_recurrence_of g pix_automatic none none f = (false, f)
cancel_recurrence_of g pix (some s) a f =
    (g.cancel_subscription s, logged (cancel_subscription s) f)
cancel_recurrence_of g pix none a f = (true, f)

-- `_cancel_provider_recurrence`: false is AsaasGatewayError.
unfoldable pub cancel_provider_recurrence : Gateway → Focus → Bool × Focus
unfolding cancel_recurrence_of
cancel_provider_recurrence g f =
    cancel_recurrence_of g f.subscription.payment_method f.subscription.provider_subscription_id
      f.subscription.provider_authorization_id f
