-- ===== src/Billing/Status/Settled.antt =====
-- A refund that the provider shows as done.
use whatsapp_atendimentos_ag.Prelude.{◌≤◌, ◌≡◌, refl, sym, subst, ◌⊎◌, inl, inr, ◌<◌, Option, some}
use whatsapp_atendimentos_ag.Billing.Calendar.{Moment, order_key}
use whatsapp_atendimentos_ag.Billing.Types.{
  Reference, SubscriptionStatus, requested, reconcile_required, refunded, Checkout, Payment,
  Gateway,
}
use whatsapp_atendimentos_ag.Billing.Refunds.{done, provider_refund_status}
use whatsapp_atendimentos_ag.Billing.Status.{
  Focus, settle, settle_payment, ask_provider, ask_for, reconcile_by, reconcile_provider_refund,
  subscription_status_response, return_business_to_free_after_refund, close_refunded, free_in,
}
use whatsapp_atendimentos_ag.Billing.Status.Cases.{closed_by_refund}
use whatsapp_atendimentos_ag.Billing.Refunds.Laws.{done_cents, provider_refund_status_done_iff}
use whatsapp_atendimentos_ag.Billing.Calendar.Laws.{order_key-earlier}

-- The access of a subscription whose refund is done: closed, no later than now.
pub record IsClosed (now : Moment) (before x : Focus) : Type 0 where
  pub refund : x.subscription.refund_status ≡ refunded
  pub status : x.subscription.status ≡ SubscriptionStatus.suspended
  pub no_later : order_key x.subscription.access_until ≤ order_key now
  pub no_longer : order_key x.subscription.access_until ≤ order_key before.subscription.access_until
  pub access : x.access ≡ free_in before.environment before.access

closed_by_refund-IsClosed : (now : Moment) (f : Focus) → IsClosed now f (closed_by_refund now f)
unfolding return_business_to_free_after_refund close_refunded
closed_by_refund-IsClosed now f = record {
  refund = refl;
  status = refl;
  no_later = (order_key-earlier f.subscription.access_until now).1;
  no_longer = (order_key-earlier f.subscription.access_until now).0;
  access = refl;
}

ask_for-closed :
    (g : Gateway) (now : Moment) (f : Focus) (o : Option Checkout) (c : Checkout) (r : Reference)
    (p : Payment)
    → o ≡ some c
    → c.provider_payment_id ≡ some r
    → g.payment_details r ≡ some p
    → provider_refund_status p.refunds c.amount_cents ≡ some done
    → (ask_for g o now f).1 ≡ closed_by_refund now f
unfolding ask_for ask_provider settle_payment settle
ask_for-closed g now f o c r p paid known answered is_done =
    subst (λ o. (ask_for g o now f).1 ≡ closed) (sym paid)
      (subst (λ k. (ask_provider g k c now f).1 ≡ closed) (sym known)
        (subst (λ a. (settle_payment a c now f).1 ≡ closed) (sym answered)
          (subst (λ s. settle s now f ≡ closed) (sym is_done) refl)))
  where
    closed : Focus
    closed = closed_by_refund now f

-- Once the refunds that the provider shows as done come to the amount of the checkout, the next status
-- of a subscription whose refund was asked for marks it refunded and suspended, ends its access now or
-- when it would have ended before, and returns the business to the free mode, unless it has full access
-- by an administrator or the environment is the sandbox.
pub done_refund-IsClosed :
    (g : Gateway) (now : Moment) (f : Focus) (c : Checkout) (r : Reference) (p : Payment)
    → (f.subscription.refund_status ≡ requested)
      ⊎ (f.subscription.refund_status ≡ reconcile_required)
    → f.checkout ≡ some c
    → c.provider_payment_id ≡ some r
    → g.payment_details r ≡ some p
    → 0 < c.amount_cents
    → c.amount_cents ≤ done_cents p.refunds
    → IsClosed now f (subscription_status_response g now f).1
unfolding subscription_status_response reconcile_provider_refund reconcile_by
done_refund-IsClosed g now f c r p asked paid known answered some_amount enough =
    subst (IsClosed now f) (sym (by_status asked)) (closed_by_refund-IsClosed now f)
  where
    closes : (ask_for g f.checkout now f).1 ≡ closed_by_refund now f
    closes =
        ask_for-closed g now f f.checkout c r p paid known answered
          ((provider_refund_status_done_iff p.refunds c.amount_cents some_amount).1 enough)

    by_status :
        (f.subscription.refund_status ≡ requested)
          ⊎ (f.subscription.refund_status ≡ reconcile_required)
        → (reconcile_by f.subscription.refund_status g now f).1 ≡ closed_by_refund now f
    by_status (inl e) =
        subst (λ q. (reconcile_by q g now f).1 ≡ closed_by_refund now f) (sym e) closes
    by_status (inr e) =
        subst (λ q. (reconcile_by q g now f).1 ≡ closed_by_refund now f) (sym e) closes
