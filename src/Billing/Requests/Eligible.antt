-- ===== src/Billing/Requests/Eligible.antt =====
-- The seven-day guarantee: of which subscriptions a refund is submitted on request.
use whatsapp_atendimentos_ag.Prelude.{
  ◌≡◌, refl, sym, subst, inl, inr, ◌≢◌, Bool-cases, Bool, true, false, ◌&&◌, Option, none, some,
}
use whatsapp_atendimentos_ag.Billing.Calendar.{Moment, at_most, add_days}
use whatsapp_atendimentos_ag.Billing.Types.{
  no_refund, Checkout, Gateway, same_environment, same_reference,
}
use whatsapp_atendimentos_ag.Billing.Status.{
  Focus, Response, reconcile_by, reconcile_provider_refund, subscription_status_response,
  guarantee_until, seven_days, guarantee_eligible, response,
}
use whatsapp_atendimentos_ag.Billing.Requests.{
  refund_if_eligible, refund_by, request_guarantee_refund,
}
use whatsapp_atendimentos_ag.Billing.Status.Cases.{refunds}

-- Within seven days of the payment of the first checkout that the business paid.
pub record IsInGuarantee (now : Moment) (f : Focus) : Type 0 where
  pub checkout : Checkout
  pub paid_at : Moment
  pub has_checkout : f.checkout ≡ some checkout
  pub was_paid : checkout.paid_at ≡ some paid_at
  pub environment : same_environment checkout.provider_environment f.environment ≡ true
  pub in_time : at_most now (add_days paid_at 7) ≡ true
  pub is_first : same_reference f.first_paid f.subscription.checkout_id ≡ true

both : (a b c : Bool) → (a && b && c) ≡ true → (a ≡ true) × (b ≡ true)
both false b c h = cc h
both true false c h = cc h
both true true c h = (refl, refl)

module _ (now : Moment) (f : Focus) (c : Checkout) (has : f.checkout ≡ some c) where
  of_paid :
      (b : Bool) (o : Option Moment)
      → same_environment c.provider_environment f.environment ≡ b
      → c.paid_at ≡ o
      → guarantee_eligible now (seven_days b o) f ≡ true
      → IsInGuarantee now f
  unfolding guarantee_eligible seven_days
  of_paid false o eb eo t = cc t
  of_paid true none eb eo t = cc t
  of_paid true (some paid) eb eo t =
      let (first, in_time) = both _ _ _ t in
      record {
        checkout = c;
        paid_at = paid;
        has_checkout = has;
        was_paid = eo;
        environment = eb;
        in_time = in_time;
        is_first = first;
      }

of_checkout :
    (now : Moment) (f : Focus) (o : Option Checkout)
    → f.checkout ≡ o
    → guarantee_eligible now (guarantee_until f.environment o) f ≡ true
    → IsInGuarantee now f
unfolding guarantee_until guarantee_eligible
of_checkout now f none e t = cc t
of_checkout now f (some c) e t =
    of_paid now f c e (same_environment c.provider_environment f.environment) c.paid_at refl refl t

response_pair :
    (g : Gateway) (now : Moment) (f : Focus)
    → f.subscription.refund_status ≡ no_refund
    → subscription_status_response g now f ≡ (response now none f, f)
unfolding subscription_status_response reconcile_provider_refund reconcile_by
response_pair g now f e =
    subst
      (λ r.
        ◌≡◌ {A = Response × Focus}
          (
            response now (reconcile_by r g now f).0 (reconcile_by r g now f).1,
            (reconcile_by r g now f).1,
          )
          (response now none f, f))
      (sym e) refl

refund_if_eligible-refunds :
    (g : Gateway) (now : Moment) (f : Focus)
    → refunds (refund_if_eligible g now (response now none f, f)).1.calls ≢ refunds f.calls
    → guarantee_eligible now (guarantee_until f.environment f.checkout) f ≡ true
unfolding refund_if_eligible response
refund_if_eligible-refunds g now f changed =
    elim (Bool-cases (guarantee_eligible now (guarantee_until f.environment f.checkout) f)) [
      | inl e ↦ e
      | inr e ↦ absurd (changed (rw e refl))
    ]

-- A request for the refund of a subscription of which no refund was asked before submits one only
-- within seven days of the payment of the first checkout that the business paid in the environment.
pub refund_submitted-IsInGuarantee :
    (g : Gateway) (now : Moment) (f : Focus)
    → f.subscription.refund_status ≡ no_refund
    → refunds (request_guarantee_refund g now f).1.calls ≢ refunds f.calls
    → IsInGuarantee now f
unfolding request_guarantee_refund refund_by
refund_submitted-IsInGuarantee g now f unasked changed = of_checkout now f f.checkout refl (
    refund_if_eligible-refunds g now f (
      subst (λ x. refunds (refund_if_eligible g now x).1.calls ≢ refunds f.calls)
        (response_pair g now f unasked)
        (subst (λ r. refunds (refund_by r g now f).1.calls ≢ refunds f.calls) unasked changed)))
