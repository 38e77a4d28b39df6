-- ===== src/Billing/Webhooks/OneRefund.antt =====
-- The one-way refund: how often a refund is submitted to the provider.
use whatsapp_atendimentos_ag.Prelude.{
  ◌≡◌, refl, sym, subst, ◌∙◌, inl, Bool, true, false, not, ◌&&◌, Option, none, some, if_cases,
  is_none,
}
use whatsapp_atendimentos_ag.Billing.Calendar.{Moment}
use whatsapp_atendimentos_ag.Billing.Types.{
  Reference, RefundStatus, no_refund, requested, reconcile_required, refunded, Checkout, Gateway,
}
use whatsapp_atendimentos_ag.Billing.Status.{Focus, Response, subscription_status_response}
use whatsapp_atendimentos_ag.Billing.Requests.{
  Outcome, is_ended, is_pix, after_recurrence, cancel_locally, request_subscription_cancellation,
  note_refund, refund_after, refund_payment_of, payment_of, refund_checkout, is_suspended,
  refund_if_eligible, resume_after, resume_payment, resume_checkout,
  resume_refund_before_provider_submission, refund_by, status_by, note_cancellation, cancel_now,
  with_payment,
}
use whatsapp_atendimentos_ag.Billing.Status.Cases.{
  refunds, is_asked, response_unasked, cancel_recurrence_cases,
}
use whatsapp_atendimentos_ag.Billing.Webhooks.Once.{
  Once, IsOnce, Once-ended, Once-calls, Once-no_refund, Once-running, response-IsOnce,
  submit_refund-IsOnce,
}

abbrev Ends : Outcome × Focus → Type 0
Ends x = IsOnce x.1

after_recurrence-IsOnce :
    (b : Bool) (g : Gateway) (now : Moment) (f : Focus)
    → IsOnce f
    → IsOnce (after_recurrence g now (b, f)).1
unfolding after_recurrence cancel_now
after_recurrence-IsOnce false g now f h = h
after_recurrence-IsOnce true g now f h = response-IsOnce g now _ (Once-ended _ _ _ _ refl h)

pub request_subscription_cancellation-IsOnce :
    (g : Gateway) (now : Moment) (f : Focus)
    → IsOnce f
    → IsOnce (request_subscription_cancellation g now f).1
unfolding request_subscription_cancellation note_cancellation cancel_locally
request_subscription_cancellation-IsOnce g now f h =
    if_cases Ends (is_ended f.subscription.status) (λ _. response-IsOnce g now f h)
      (λ _.
        if_cases Ends
          (is_pix f.subscription.payment_method && is_none f.subscription.provider_subscription_id)
          (λ _. response-IsOnce g now _ (Once-ended _ _ _ _ refl h))
          (λ _.
            cancel_recurrence_cases (λ r. IsOnce (after_recurrence g now r).1) g
              (note_cancellation now f)
              (λ b calls e. after_recurrence-IsOnce b g now _ (Once-calls _ _ _ _ e h))))

refund_after-IsOnce :
    (b : Bool) (g : Gateway) (now : Moment) (p : Reference) (f : Focus)
    → refunds f.calls ≡ 0
    → is_asked f.subscription.refund_status ≡ true
    → IsOnce (refund_after g now p (b, f))
unfolding refund_after cancel_now Once
refund_after-IsOnce false g now p f fresh asked = inl fresh
refund_after-IsOnce true g now p f fresh asked = submit_refund-IsOnce g p _ fresh refl asked

refund_payment_of-IsOnce :
    (g : Gateway) (now : Moment) (o : Option Reference) (f : Focus)
    → refunds f.calls ≡ 0
    → IsOnce (refund_payment_of g now o f)
unfolding refund_payment_of note_refund Once
refund_payment_of-IsOnce g now none f fresh = inl fresh
refund_payment_of-IsOnce g now (some p) f fresh =
    cancel_recurrence_cases (λ r. IsOnce (refund_after g now p r)) g (note_refund requested now f)
      (λ b calls e. refund_after-IsOnce b g now p _ (e ∙ fresh) refl)

refund_checkout-IsOnce :
    (g : Gateway) (now : Moment) (o : Option Checkout) (f : Focus)
    → refunds f.calls ≡ 0
    → IsOnce (refund_checkout g now o f).1
unfolding refund_checkout Once
refund_checkout-IsOnce g now none f fresh = inl fresh
refund_checkout-IsOnce g now (some c) f fresh = response-IsOnce g now _ (
    refund_payment_of-IsOnce g now (payment_of g c c.provider_payment_id)
      (with_payment c (payment_of g c c.provider_payment_id) f) fresh)

refund_if_eligible-IsOnce :
    (g : Gateway) (now : Moment) (r : Response) (f : Focus)
    → refunds f.calls ≡ 0
    → IsOnce (refund_if_eligible g now (r, f)).1
unfolding refund_if_eligible Once
refund_if_eligible-IsOnce g now r f fresh =
    if_cases Ends (not r.guarantee_eligible) (λ _. inl fresh)
      (λ _.
        if_cases Ends (is_suspended f.subscription.status) (λ _. inl fresh)
          (λ _. refund_checkout-IsOnce g now f.checkout f fresh))

resume_after-IsOnce :
    (b : Bool) (g : Gateway) (now : Moment) (p : Reference) (f : Focus)
    → refunds f.calls ≡ 0
    → IsOnce (resume_after g now p (b, f))
unfolding resume_after cancel_now Once
resume_after-IsOnce false g now p f fresh = inl fresh
resume_after-IsOnce true g now p f fresh = submit_refund-IsOnce g p _ fresh refl refl

resume_checkout-IsOnce :
    (g : Gateway) (now : Moment) (o : Option Checkout) (f : Focus)
    → refunds f.calls ≡ 0
    → IsOnce (resume_checkout g now o f)
unfolding resume_checkout Once
resume_checkout-IsOnce g now none f fresh = inl fresh
resume_checkout-IsOnce g now (some c) f fresh = of_payment (payment_of g c c.provider_payment_id)
  where
    of_payment : (o : Option Reference) → IsOnce (resume_payment g now o (with_payment c o f))
    of_payment none = inl fresh
    of_payment (some p) =
        cancel_recurrence_cases (λ r. IsOnce (resume_after g now p r)) g (with_payment c (some p) f)
          (λ b calls e. resume_after-IsOnce b g now p _ (e ∙ fresh))

resume-IsOnce :
    (g : Gateway) (now : Moment) (f : Focus)
    → IsOnce f
    → IsOnce (resume_refund_before_provider_submission g now f)
unfolding resume_refund_before_provider_submission
resume-IsOnce g now f h =
    if_cases IsOnce (is_ended f.subscription.status) (λ _. h)
      (λ running. resume_checkout-IsOnce g now f.checkout f (Once-running _ _ _ running h))

pub refund_by-IsOnce :
    (r : RefundStatus) (g : Gateway) (now : Moment) (f : Focus)
    → f.subscription.refund_status ≡ r
    → IsOnce f
    → IsOnce (refund_by r g now f).1
unfolding refund_by
refund_by-IsOnce requested g now f e h = response-IsOnce g now f h
refund_by-IsOnce refunded g now f e h = response-IsOnce g now f h
refund_by-IsOnce reconcile_required g now f e h = response-IsOnce g now _ (resume-IsOnce g now f h)
refund_by-IsOnce no_refund g now f e h =
    refund_if_eligible-IsOnce g now (subscription_status_response g now f).0
      (subscription_status_response g now f).1
      (subst (λ k. refunds k.calls ≡ 0) (sym (response_unasked g now f e))
        (Once-no_refund _ _ (subst (λ r. Once f.calls f.subscription.status r) e h)))

pub status_by-IsOnce :
    (r : RefundStatus) (g : Gateway) (now : Moment) (f : Focus)
    → IsOnce f
    → IsOnce (status_by r g now f).1
unfolding status_by
status_by-IsOnce reconcile_required g now f h = response-IsOnce g now _ (resume-IsOnce g now f h)
status_by-IsOnce no_refund g now f h = response-IsOnce g now f h
status_by-IsOnce requested g now f h = response-IsOnce g now f h
status_by-IsOnce refunded g now f h = response-IsOnce g now f h
