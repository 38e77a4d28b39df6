-- ===== src/Billing/Webhooks/Resubmit.antt =====
-- A refund whose answer was lost, of a subscription that a webhook makes run again.
use whatsapp_atendimentos_ag.Prelude.{
  ℕ, suc, ◌≡◌, refl, ap, sym, subst, ◌∙◌, Bool, true, false, Option, some, [], ◌∷◌, if_cases,
}
use whatsapp_atendimentos_ag.Billing.Calendar.{Moment}
use whatsapp_atendimentos_ag.Billing.Types.{
  Reference, past_due, requested, reconcile_required, Checkout, Gateway,
}
use whatsapp_atendimentos_ag.Billing.Status.{Focus, with_refund_status, cancel_provider_recurrence}
use whatsapp_atendimentos_ag.Billing.Requests.{
  submit_refund, payment_of, resume_after, resume_payment, resume_checkout,
  resume_refund_before_provider_submission, status_by, subscription_status, cancel_now,
  with_payment,
}
use whatsapp_atendimentos_ag.Billing.Cards.{payment_overdue, Payload, capture_card}
use whatsapp_atendimentos_ag.Billing.Cards.Laws.{capture_card-KeepsPayment}
use whatsapp_atendimentos_ag.Billing.Webhooks.{
  change_by_payment_event, apply_payment_event, with_status, asks_status, hears_payment, act, run,
}
use whatsapp_atendimentos_ag.Billing.Status.Cases.{
  refunds, response-refunds, cancel_recurrence_cases, cancel_recurrence_answer,
}

refunds-submit_refund :
    (g : Gateway) (p : Reference) (f : Focus)
    → refunds (submit_refund g p f).calls ≡ suc (refunds f.calls)
unfolding submit_refund
refunds-submit_refund g p f =
    if_cases (λ (x : Focus). refunds x.calls ≡ suc (refunds f.calls)) (g.refund_payment p)
      (λ _. refl) (λ _. refl)

resume_after-refunds :
    (b : Bool) (g : Gateway) (now : Moment) (r : Reference) (f : Focus)
    → b ≡ true
    → refunds (resume_after g now r (b, f)).calls ≡ suc (refunds f.calls)
unfolding resume_after cancel_now
resume_after-refunds false g now r f h = cc h
resume_after-refunds true g now r f h =
    refunds-submit_refund g r (with_refund_status requested (cancel_now now f))

-- A payment that is known is refunded once the recurrence is cancelled.
resume_payment-refunds :
    (g : Gateway) (now : Moment) (r : Reference) (f : Focus)
    → (cancel_provider_recurrence g f).0 ≡ true
    → refunds (resume_payment g now (some r) f).calls ≡ suc (refunds f.calls)
unfolding resume_payment
resume_payment-refunds g now r f =
    cancel_recurrence_cases
      (λ x. x.0 ≡ true → refunds (resume_after g now r x).calls ≡ suc (refunds f.calls)) g f
      (λ b calls e h. resume_after-refunds b g now r _ h ∙ ap suc e)

abbrev overdue : Focus → Focus
overdue f = with_status past_due f

resume_checkout-refunds :
    (g : Gateway) (now : Moment) (o : Option Checkout) (f : Focus) (c : Checkout) (r : Reference)
    → o ≡ some c
    → c.provider_payment_id ≡ some r
    → (cancel_provider_recurrence g f).0 ≡ true
    → refunds (resume_checkout g now o f).calls ≡ suc (refunds f.calls)
unfolding resume_checkout payment_of cancel_provider_recurrence
resume_checkout-refunds g now o f c r paid known h =
    subst (λ o. refunds (resume_checkout g now o f).calls ≡ suc (refunds f.calls)) (sym paid)
      (subst
        (λ p.
          refunds
            (resume_payment g now (payment_of g c p) (with_payment c (payment_of g c p) f)).calls
          ≡ suc (refunds f.calls))
        (sym known) (resume_payment-refunds g now r _ (cancel_recurrence_answer g _ _ _ _ f ∙ h)))

-- Where a reconciliation is required and the payment is known, a PAYMENT_OVERDUE webhook makes the
-- subscription, ended or not, one of which the next status submits a refund, whatever was submitted
-- before, if the cancellation of the recurrence succeeds.
pub overdue_resubmits :
    (g : Gateway) (amount : Option ℕ) (heard now : Moment) (p : Payload) (f : Focus) (c : Checkout)
    (r : Reference)
    → f.subscription.refund_status ≡ reconcile_required
    → f.checkout ≡ some c
    → c.provider_payment_id ≡ some r
    → (cancel_provider_recurrence g (capture_card heard payment_overdue p f)).0 ≡ true
    → refunds (run (hears_payment amount heard payment_overdue p ∷ asks_status g now ∷ []) f).calls
      ≡ suc (refunds f.calls)
unfolding run act apply_payment_event change_by_payment_event subscription_status status_by
    resume_refund_before_provider_submission cancel_provider_recurrence
overdue_resubmits g amount heard now p f c r asked paid known answers =
    let h = capture_card-KeepsPayment heard payment_overdue p f c r paid known in
    subst (λ q. refunds (status_by q g now (overdue x)).1.calls ≡ suc (refunds f.calls))
      (sym (h.refund_status ∙ asked))
      (response-refunds g now (resume_checkout g now x.checkout (overdue x))
        ∙ resume_checkout-refunds g now x.checkout (overdue x) h.row r h.checkout h.known
            (cancel_recurrence_answer g _ _ _ (overdue x) x ∙ answers)
        ∙ ap (λ calls. suc (refunds calls)) h.calls)
  where
    x : Focus
    x = capture_card heard payment_overdue p f
