-- ===== src/Billing/Requests.antt =====
-- app/billing/service.py: what a business asks about its subscription: its status, a cancellation, the
-- refund of the seven-day guarantee. Each request reads the clock once, as `now`.

pub mod Retry
pub mod Eligible
use whatsapp_atendimentos_ag.Prelude.{
  ℕ, Bool, true, false, not, Option, none, some, is_none, if◌then◌else◌, ◌&&◌,
}
use whatsapp_atendimentos_ag.Billing.Calendar.{Moment}
use whatsapp_atendimentos_ag.Billing.Types.{
  Reference, PaymentMethod, pix, SubscriptionStatus, canceled, suspended, RefundStatus, no_refund,
  requested, reconcile_required, refunded, Checkout, Subscription, Gateway, refund_payment, or_now,
}
use whatsapp_atendimentos_ag.Billing.Refunds.{resolve_initial_payment_reference}
use whatsapp_atendimentos_ag.Billing.Status.{
  Focus, with_refund_status, Response, subscription_status_response, cancel_provider_recurrence,
  logged,
}

-- The answer of a request, or the status of its HTTPException.
pub data Outcome : Type 0 where
  answered : Response → Outcome
  refused : ℕ → Outcome

abbrev pub answer : Response × Focus → Outcome × Focus
answer (r, f) = (answered r, f)

abbrev pub is_ended : SubscriptionStatus → Bool
is_ended canceled = true
is_ended suspended = true
is_ended _ = false

abbrev pub is_pix : PaymentMethod → Bool
is_pix pix = true
is_pix _ = false

unfoldable pub cancel_now : Moment → Focus → Focus
unfolding or_now
cancel_now now f = record f {
  subscription = record f.subscription {
    status = canceled;
    canceled_at = or_now f.subscription.canceled_at now;
  };
}

unfoldable pub note_cancellation : Moment → Focus → Focus
unfolding or_now
note_cancellation now f = record f {
  subscription = record f.subscription {
    cancellation_requested_at = or_now f.subscription.cancellation_requested_at now;
  };
}

unfoldable pub after_recurrence : Gateway → Moment → Bool × Focus → Outcome × Focus
after_recurrence g now (false, f) = (refused 502, f)
after_recurrence g now (true, f) = answer (subscription_status_response g now (cancel_now now f))

-- Common Pix has no recurrence at the provider.
unfoldable pub cancel_locally : Moment → Focus → Focus
cancel_locally now f = record f {
  subscription = record f.subscription { status = canceled; canceled_at = some now };
}

-- `request_subscription_cancellation`, with the subscription found
unfoldable pub request_subscription_cancellation : Gateway → Moment → Focus → Outcome × Focus
unfolding after_recurrence cancel_locally
request_subscription_cancellation g now f =
    if is_ended f.subscription.status
    then answer (subscription_status_response g now f)
    else if is_pix f.subscription.payment_method && is_none f.subscription.provider_subscription_id
    then answer (subscription_status_response g now (cancel_locally now (note_cancellation now f)))
    else after_recurrence g now (cancel_provider_recurrence g (note_cancellation now f))

unfoldable pub note_refund : RefundStatus → Moment → Focus → Focus
unfolding or_now
note_refund s now f = record f {
  subscription = record f.subscription {
    cancellation_requested_at = or_now f.subscription.cancellation_requested_at now;
    refund_status = s;
    refund_requested_at = or_now f.subscription.refund_requested_at now;
  };
}

-- `refund_payment` and the handler of its AsaasGatewayError.
unfoldable pub submit_refund : Gateway → Reference → Focus → Focus
submit_refund g p f =
    if g.refund_payment p
    then logged (refund_payment p) f
    else with_refund_status reconcile_required (logged (refund_payment p) f)

-- Lines 1242 to 1283, from the answer to the cancellation of the recurrence.
unfoldable pub refund_after : Gateway → Moment → Reference → Bool × Focus → Focus
unfolding submit_refund
refund_after g now p (false, f) = with_refund_status reconcile_required f
refund_after g now p (true, f) = submit_refund g p (cancel_now now f)

abbrev pub with_payment : Checkout → Option Reference → Focus → Focus
with_payment c p f = record f { checkout = some (record c { provider_payment_id = p }) }

-- The reference of the payment, looked up at the provider where the checkout has none.
unfoldable pub payment_of : Gateway → Checkout → Option Reference → Option Reference
payment_of g c (some p) = some p
payment_of g c none = resolve_initial_payment_reference g c

unfoldable pub refund_payment_of : Gateway → Moment → Option Reference → Focus → Focus
unfolding note_refund refund_after
refund_payment_of g now none f = note_refund reconcile_required now f
refund_payment_of g now (some p) f =
    refund_after g now p (cancel_provider_recurrence g (note_refund requested now f))

unfoldable pub refund_checkout : Gateway → Moment → Option Checkout → Focus → Outcome × Focus
unfolding payment_of refund_payment_of
refund_checkout g now none f = (refused 409, f)
refund_checkout g now (some c) f =
    let p = payment_of g c c.provider_payment_id in
    answer (subscription_status_response g now (refund_payment_of g now p (with_payment c p f)))

abbrev pub is_suspended : SubscriptionStatus → Bool
is_suspended suspended = true
is_suspended _ = false

unfoldable pub refund_if_eligible : Gateway → Moment → Response × Focus → Outcome × Focus
unfolding refund_checkout
refund_if_eligible g now (r, f) =
    if not r.guarantee_eligible
    then (refused 409, f)
    else if is_suspended f.subscription.status
    then (refused 409, f)
    else refund_checkout g now f.checkout f

-- The stages of `_resume_refund_before_provider_submission`.
unfoldable pub resume_after : Gateway → Moment → Reference → Bool × Focus → Focus
unfolding submit_refund
resume_after g now p (false, f) = f
resume_after g now p (true, f) = submit_refund g p (with_refund_status requested (cancel_now now f))

unfoldable pub resume_payment : Gateway → Moment → Option Reference → Focus → Focus
unfolding resume_after
resume_payment g now none f = f
resume_payment g now (some p) f = resume_after g now p (cancel_provider_recurrence g f)

unfoldable pub resume_checkout : Gateway → Moment → Option Checkout → Focus → Focus
unfolding resume_payment payment_of
resume_checkout g now none f = f
resume_checkout g now (some c) f =
    let p = payment_of g c c.provider_payment_id in resume_payment g now p (with_payment c p f)

-- `_resume_refund_before_provider_submission`, under the test of its two callers
unfoldable pub resume_refund_before_provider_submission : Gateway → Moment → Focus → Focus
unfolding resume_checkout
resume_refund_before_provider_submission g now f =
    if is_ended f.subscription.status then f else resume_checkout g now f.checkout f

unfoldable pub refund_by : RefundStatus → Gateway → Moment → Focus → Outcome × Focus
unfolding refund_if_eligible resume_refund_before_provider_submission
refund_by requested g now f = answer (subscription_status_response g now f)
refund_by refunded g now f = answer (subscription_status_response g now f)
refund_by reconcile_required g now f =
    answer (subscription_status_response g now (resume_refund_before_provider_submission g now f))
refund_by no_refund g now f = refund_if_eligible g now (subscription_status_response g now f)

-- `request_guarantee_refund`, with the subscription found
unfoldable pub request_guarantee_refund : Gateway → Moment → Focus → Outcome × Focus
unfolding refund_by
request_guarantee_refund g now f = refund_by f.subscription.refund_status g now f

unfoldable pub status_by : RefundStatus → Gateway → Moment → Focus → Outcome × Focus
unfolding resume_refund_before_provider_submission
status_by reconcile_required g now f =
    answer (subscription_status_response g now (resume_refund_before_provider_submission g now f))
status_by _ g now f = answer (subscription_status_response g now f)

-- `subscription_status`, with the subscription found
unfoldable pub subscription_status : Gateway → Moment → Focus → Outcome × Focus
unfolding status_by
subscription_status g now f = status_by f.subscription.refund_status g now f
