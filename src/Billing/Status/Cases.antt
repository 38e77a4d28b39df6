-- ===== src/Billing/Status/Cases.antt =====
-- The outcomes of a reconciliation and of the cancellation of a recurrence, one by one.
-- How often a refund was submitted, and what keeps it to one.
use whatsapp_atendimentos_ag.Prelude.{
  ℕ, suc, ◌≡◌, refl, sym, subst, Bool, true, false, Option, none, some, List, [], ◌∷◌,
}
use whatsapp_atendimentos_ag.Billing.Calendar.{Moment}
use whatsapp_atendimentos_ag.Billing.Types.{
  Reference, PaymentMethod, credit_card, pix, pix_automatic, SubscriptionStatus, RefundStatus,
  no_refund, requested, reconcile_required, refunded, Checkout, Payment, Gateway, Call,
}
use whatsapp_atendimentos_ag.Billing.Types
use whatsapp_atendimentos_ag.Billing.Refunds.{
  ProviderRefundStatus, done, awaiting_authorization, pending, partial, cancelled, unknown,
  provider_refund_status,
}
use whatsapp_atendimentos_ag.Billing.Status.{
  Focus, with_refund_status, settle, settle_payment, ask_provider, ask_for, reconcile_by,
  reconcile_provider_refund, subscription_status_response, cancel_recurrence_of,
  cancel_provider_recurrence, return_business_to_free_after_refund, close_refunded,
}

-- How often a refund was submitted.
abbrev pub refunds : List Call → ℕ
refunds [] = 0
refunds (Types.refund_payment p ∷ cs) = suc (refunds cs)
refunds (_ ∷ cs) = refunds cs

abbrev pub is_asked : RefundStatus → Bool
is_asked no_refund = false
is_asked _ = true

abbrev pub closed_by_refund : Moment → Focus → Focus
closed_by_refund now f =
    return_business_to_free_after_refund
      (record f { subscription = close_refunded now f.subscription })

module _ (P : Focus → Type 0) (now : Moment) (f : Focus) (unchanged : P f)
    (asked : (q : RefundStatus) → is_asked q ≡ true → P (with_refund_status q f))
    (closed : P (closed_by_refund now f)) where
  settle_cases : (o : Option ProviderRefundStatus) → P (settle o now f)
  unfolding settle
  settle_cases (some done) = closed
  settle_cases (some awaiting_authorization) = asked requested refl
  settle_cases (some pending) = asked requested refl
  settle_cases (some cancelled) = asked reconcile_required refl
  settle_cases (some partial) = asked reconcile_required refl
  settle_cases (some unknown) = unchanged
  settle_cases none = unchanged

  settle_payment_cases : (o : Option Payment) (c : Checkout) → P (settle_payment o c now f).1
  unfolding settle_payment
  settle_payment_cases none c = unchanged
  settle_payment_cases (some p) c = settle_cases (provider_refund_status p.refunds c.amount_cents)

  ask_provider_cases :
      (g : Gateway) (o : Option Reference) (c : Checkout) → P (ask_provider g o c now f).1
  unfolding ask_provider
  ask_provider_cases g none c = unchanged
  ask_provider_cases g (some p) c = settle_payment_cases (g.payment_details p) c

  ask_for_cases : (g : Gateway) (o : Option Checkout) → P (ask_for g o now f).1
  unfolding ask_for
  ask_for_cases g none = unchanged
  ask_for_cases g (some c) = ask_provider_cases g c.provider_payment_id c

  reconcile_by_cases : (r : RefundStatus) (g : Gateway) → P (reconcile_by r g now f).1
  unfolding reconcile_by
  reconcile_by_cases no_refund g = unchanged
  reconcile_by_cases refunded g = unchanged
  reconcile_by_cases requested g = ask_for_cases g f.checkout
  reconcile_by_cases reconcile_required g = ask_for_cases g f.checkout

  -- The answer of a status leaves the rows, marks the refund as asked for, or closes the subscription.
  pub response_cases : (g : Gateway) → P (subscription_status_response g now f).1
  unfolding subscription_status_response reconcile_provider_refund
  response_cases g = reconcile_by_cases f.subscription.refund_status g

-- The answer changes nothing where no refund was asked.
pub response_unasked :
    (g : Gateway) (now : Moment) (f : Focus)
    → f.subscription.refund_status ≡ no_refund
    → (subscription_status_response g now f).1 ≡ f
unfolding subscription_status_response reconcile_provider_refund reconcile_by
response_unasked g now f e = subst (λ r. (reconcile_by r g now f).1 ≡ f) (sym e) refl

-- The cancellation of the recurrence adds a call that is no refund, or none.
pub cancel_recurrence_cases :
    (P : Bool × Focus → Type 0) (g : Gateway) (f : Focus)
    → ((b : Bool) (calls : List Call)
        → refunds calls ≡ refunds f.calls
        → P (b, record f { calls = calls }))
    → P (cancel_provider_recurrence g f)
unfolding cancel_provider_recurrence
cancel_recurrence_cases P g f h =
    by_method f.subscription.payment_method f.subscription.provider_subscription_id
      f.subscription.provider_authorization_id
  where
    by_method : (m : PaymentMethod) (s a : Option Reference) → P (cancel_recurrence_of g m s a f)
    by_method credit_card (some s) a = h (g.cancel_subscription s) _ refl
    by_method credit_card none a = h false _ refl
    by_method pix_automatic s (some a) = h (g.cancel_pix_authorization a) _ refl
    by_method pix_automatic (some s) none = h (g.cancel_subscription s) _ refl
    by_method pix_automatic none none = h false _ refl
    by_method pix (some s) a = h (g.cancel_subscription s) _ refl
    by_method pix none a = h true _ refl

-- Whether the recurrence is cancelled depends on the payment method and its references only.
pub cancel_recurrence_answer :
    (g : Gateway) (m : PaymentMethod) (s a : Option Reference) (f x : Focus)
    → (cancel_recurrence_of g m s a f).0 ≡ (cancel_recurrence_of g m s a x).0
unfolding cancel_recurrence_of
cancel_recurrence_answer g credit_card (some s) a f x = refl
cancel_recurrence_answer g credit_card none a f x = refl
cancel_recurrence_answer g pix_automatic s (some a) f x = refl
cancel_recurrence_answer g pix_automatic (some s) none f x = refl
cancel_recurrence_answer g pix_automatic none none f x = refl
cancel_recurrence_answer g pix (some s) a f x = refl
cancel_recurrence_answer g pix none a f x = refl

-- An answer submits no refund.
pub response-refunds :
    (g : Gateway) (now : Moment) (f : Focus)
    → refunds (subscription_status_response g now f).1.calls ≡ refunds f.calls
unfolding return_business_to_free_after_refund close_refunded
response-refunds g now f =
    response_cases (λ x. refunds x.calls ≡ refunds f.calls) now f refl (λ q asked. refl) refl g
