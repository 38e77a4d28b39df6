-- ===== src/Billing/Webhooks/Once.antt =====
-- At most one refund submitted, as a property of the rows, and what keeps it.
use whatsapp_atendimentos_ag.Prelude.{◌≡◌, refl, ◌⊎◌, inl, inr, true, false, List, if_cases, arith}
use whatsapp_atendimentos_ag.Billing.Calendar.{Moment}
use whatsapp_atendimentos_ag.Billing.Types.{
  Reference, SubscriptionStatus, RefundStatus, no_refund, refunded, Gateway, Call,
}
use whatsapp_atendimentos_ag.Billing.Status.{
  Focus, subscription_status_response, return_business_to_free_after_refund, close_refunded,
}
use whatsapp_atendimentos_ag.Billing.Requests.{is_ended, submit_refund}
use whatsapp_atendimentos_ag.Billing.Status.Cases.{refunds, is_asked, response_cases}

-- No refund was submitted yet, or one was, of a subscription that has ended.
unfoldable pub Once : List Call → SubscriptionStatus → RefundStatus → Type 0
Once calls status refund_status =
    (refunds calls ≡ 0)
    ⊎ ((refunds calls ≡ 1) × (is_ended status ≡ true) × (is_asked refund_status ≡ true))

abbrev pub IsOnce : Focus → Type 0
IsOnce f = Once f.calls f.subscription.status f.subscription.refund_status

pub Once-asked :
    (calls : List Call) (s : SubscriptionStatus) (r q : RefundStatus)
    → is_asked q ≡ true
    → Once calls s r
    → Once calls s q
unfolding Once
Once-asked calls s r q h (inl e) = inl e
Once-asked calls s r q h (inr (e, ended, _)) = inr (e, ended, h)

pub Once-ended :
    (calls : List Call) (s t : SubscriptionStatus) (r : RefundStatus)
    → is_ended t ≡ true
    → Once calls s r
    → Once calls t r
unfolding Once
Once-ended calls s t r h (inl e) = inl e
Once-ended calls s t r h (inr (e, _, asked)) = inr (e, h, asked)

pub Once-calls :
    (calls more : List Call) (s : SubscriptionStatus) (r : RefundStatus)
    → refunds more ≡ refunds calls
    → Once calls s r
    → Once more s r
unfolding Once
Once-calls calls more s r h o = ground (arith, h, o)

-- Before a refund was asked, and while the subscription runs, none was submitted.
pub Once-no_refund :
    (calls : List Call) (s : SubscriptionStatus) → Once calls s no_refund → refunds calls ≡ 0
unfolding Once
Once-no_refund calls s (inl e) = e
Once-no_refund calls s (inr (_, _, asked)) = cc asked

pub Once-running :
    (calls : List Call) (s : SubscriptionStatus) (r : RefundStatus)
    → is_ended s ≡ false
    → Once calls s r
    → refunds calls ≡ 0
unfolding Once
Once-running calls s r h (inl e) = e
Once-running calls s r h (inr (_, ended, _)) = cc (h, ended)

pub response-IsOnce :
    (g : Gateway) (now : Moment) (f : Focus)
    → IsOnce f
    → IsOnce (subscription_status_response g now f).1
unfolding return_business_to_free_after_refund close_refunded
response-IsOnce g now f h =
    response_cases IsOnce now f h (λ q asked. Once-asked _ _ _ q asked h)
      (Once-ended _ _ _ _ refl (Once-asked _ _ _ refunded refl h)) g

pub submit_refund-IsOnce :
    (g : Gateway) (p : Reference) (f : Focus)
    → refunds f.calls ≡ 0
    → is_ended f.subscription.status ≡ true
    → is_asked f.subscription.refund_status ≡ true
    → IsOnce (submit_refund g p f)
unfolding submit_refund Once
submit_refund-IsOnce g p f fresh ended asked =
    if_cases IsOnce (g.refund_payment p) (λ _. inr (omega (arith, fresh), ended, asked))
      (λ _. inr (omega (arith, fresh), ended, refl))
