-- ===== src/Billing/Webhooks/Extended.antt =====
-- Which events of a card payment extend the access of a subscription.
use whatsapp_atendimentos_ag.Prelude.{
  ℕ, ◌≤◌, ◌≡◌, refl, sym, subst, Bool, true, false, ◌&&◌, Option, none, some, is_none, if_cases,
  arith,
}
use whatsapp_atendimentos_ag.Billing.Money.{payment_value_cents}
use whatsapp_atendimentos_ag.Billing.Calendar.{Moment, cycle_end, order_key}
use whatsapp_atendimentos_ag.Billing.Calendar.Laws.{order_key-later}
use whatsapp_atendimentos_ag.Billing.Types.{
  Reference, reference, paid, Checkout, SubscriptionStatus, RefundStatus, or_now, requested,
  reconcile_required, offer_amount_cents,
}
use whatsapp_atendimentos_ag.Billing.Refunds.{pays}
use whatsapp_atendimentos_ag.Billing.Status.{Focus}
use whatsapp_atendimentos_ag.Billing.Desk.{is_status, is_credit_card}
use whatsapp_atendimentos_ag.Billing.Cards.{
  PaymentEvent, payment_confirmed, payment_received, payment_overdue, payment_refund_in_progress,
  payment_partially_refunded, payment_refund_denied, payment_refunded, payment_chargeback_requested,
  payment_awaiting_chargeback_reversal, other_payment_event, Payload, is_paid_event, renewed,
  record_operational_history, captured, mark_native, activate_by, activate_if_ready, is_named,
  capture_checkout, capture_by, capture_card,
}
use whatsapp_atendimentos_ag.Billing.Webhooks.{
  extend_access, renew, is_of_checkout, note_refund_event, change_by_payment_event,
  apply_payment_event,
}

-- The subscription is active, at least until `to` and until when it was before.
pub record IsExtended (to before : Moment) (x : Focus) : Type 0 where
  pub active : x.subscription.status ≡ SubscriptionStatus.active
  pub until : order_key to ≤ order_key x.subscription.access_until
  pub no_shorter : order_key before ≤ order_key x.subscription.access_until

-- The events that neither end the access nor announce that a payment is overdue.
unfoldable pub leaves_running : PaymentEvent → Bool
leaves_running payment_overdue = false
leaves_running payment_refunded = false
leaves_running payment_chargeback_requested = false
leaves_running payment_awaiting_chargeback_reversal = false
leaves_running _ = true

longer-IsExtended :
    (more to before : Moment) (x : Focus)
    → IsExtended to before x
    → IsExtended to before (record_operational_history (extend_access more x))
unfolding extend_access record_operational_history
longer-IsExtended more to before x h =
    let (longer, _) = order_key-later x.subscription.access_until more in
    record {
      active = refl;
      until = omega (arith, longer, h.until);
      no_shorter = omega (arith, longer, h.no_shorter);
    }

renew-IsExtended :
    (amount : Option ℕ) (now to before : Moment) (p : Payload) (x : Focus)
    → IsExtended to before x
    → IsExtended to before (renew amount now p x)
unfolding renew
renew-IsExtended amount now to before p x h =
    let s = x.subscription in
    if_cases (IsExtended to before)
      (pays (offer_amount_cents amount s.plan_code s.billing_cycle) (payment_value_cents p.value))
      (λ _. longer-IsExtended _ to before x h) (λ _. h)

note_refund_event-IsExtended :
    (q : RefundStatus) (to before : Moment) (p : Payload) (x : Focus)
    → IsExtended to before x
    → IsExtended to before (note_refund_event q p x)
unfolding note_refund_event
note_refund_event-IsExtended q to before p x h =
    if_cases (IsExtended to before) (is_of_checkout x.checkout p.id)
      (λ _. record { active = h.active; until = h.until; no_shorter = h.no_shorter }) (λ _. h)

change-IsExtended :
    (amount : Option ℕ) (now to before : Moment) (e : PaymentEvent) (p : Payload) (x : Focus)
    → leaves_running e ≡ true
    → IsExtended to before x
    → IsExtended to before (change_by_payment_event amount now e p x).1
unfolding change_by_payment_event leaves_running
change-IsExtended amount now to before payment_confirmed p x t h =
    renew-IsExtended amount now to before p x h
change-IsExtended amount now to before payment_received p x t h =
    renew-IsExtended amount now to before p x h
change-IsExtended amount now to before payment_overdue p x t h = cc t
change-IsExtended amount now to before payment_refund_in_progress p x t h =
    note_refund_event-IsExtended requested to before p x h
change-IsExtended amount now to before payment_partially_refunded p x t h =
    note_refund_event-IsExtended reconcile_required to before p x h
change-IsExtended amount now to before payment_refund_denied p x t h =
    note_refund_event-IsExtended reconcile_required to before p x h
change-IsExtended amount now to before payment_refunded p x t h = cc t
change-IsExtended amount now to before payment_chargeback_requested p x t h = cc t
change-IsExtended amount now to before payment_awaiting_chargeback_reversal p x t h = cc t
change-IsExtended amount now to before other_payment_event p x t h = h

activate_by-IsExtended :
    (now : Moment) (o : Option Reference) (r : Reference) (c : Checkout) (x : Focus)
    → o ≡ some r
    → IsExtended (cycle_end now c.billing_cycle) x.subscription.access_until (activate_by now o c x)
unfolding activate_by record_operational_history renewed
activate_by-IsExtended now none r c x known = cc known
activate_by-IsExtended now (some q) r c x known =
    let longer = order_key-later x.subscription.access_until (cycle_end now c.billing_cycle) in
    record { active = refl; until = longer.1; no_shorter = longer.0 }

activate-IsExtended :
    (now : Moment) (r : Reference) (c : Checkout) (x : Focus)
    → is_credit_card c.payment_method ≡ true
    → is_status c.status paid ≡ true
    → c.provider_subscription_id ≡ some r
    → IsExtended
        (cycle_end now c.billing_cycle)
        x.subscription.access_until
        (activate_if_ready now c x)
unfolding activate_if_ready
activate-IsExtended now r c x card was_paid known =
    rw (card, was_paid) (activate_by-IsExtended now c.provider_subscription_id r c x known)

noted : Moment → PaymentEvent → Payload → Reference → Checkout → Focus → Focus
noted now e p r c f = record f { checkout = some (mark_native now e (captured e p r c)) }

capture_checkout-IsExtended :
    (now : Moment) (e : PaymentEvent) (p : Payload) (r : Reference) (c : Checkout) (f : Focus)
    → is_named f.environment p r c ≡ true
    → pays c.amount_cents (payment_value_cents p.value) ≡ true
    → is_credit_card c.payment_method ≡ true
    → is_status c.status paid ≡ true
    → IsExtended
        (cycle_end now c.billing_cycle)
        f.subscription.access_until
        (capture_checkout now e p r c f)
unfolding capture_checkout mark_native captured noted
capture_checkout-IsExtended now e p r c f named amount card was_paid =
    rw (named, amount)
      (if_cases
        (λ c1.
          IsExtended (cycle_end now c.billing_cycle) f.subscription.access_until
            (activate_if_ready now c1 (noted now e p r c f)))
        (is_none c.provider_checkout_id && is_paid_event e)
        (λ _.
          activate-IsExtended now r
            (record (captured e p r c) {
              status = paid;
              paid_at = or_now (captured e p r c).paid_at now;
            })
            (noted now e p r c f) card refl refl)
        (λ _.
          activate-IsExtended now r (captured e p r c) (noted now e p r c f) card was_paid refl))

-- A webhook about a payment of a subscription, also one that only announces a charge or notes a refund
-- in progress, partial or denied, leaves the subscription of a card checkout that was paid once active,
-- with access for a whole cycle from now at least, if the payment names the subscription or the
-- checkout and is of the amount of the checkout. The events that the payment is overdue, was refunded
-- or is charged back are excepted.
pub any_event-IsExtended :
    (amount : Option ℕ) (now : Moment) (e : PaymentEvent) (p : Payload) (r : Reference) (f : Focus)
    (c : Checkout)
    → leaves_running e ≡ true
    → p.subscription ≡ reference r
    → f.checkout ≡ some c
    → is_named f.environment p r c ≡ true
    → pays c.amount_cents (payment_value_cents p.value) ≡ true
    → is_credit_card c.payment_method ≡ true
    → is_status c.status paid ≡ true
    → IsExtended
        (cycle_end now c.billing_cycle)
        f.subscription.access_until
        (apply_payment_event amount now e p f).1
unfolding apply_payment_event capture_card capture_by
any_event-IsExtended amount now e p r f c runs names row named value card was_paid =
    change-IsExtended amount now (cycle_end now c.billing_cycle) f.subscription.access_until e p
      (capture_card now e p f) runs
      (subst (λ field. Extended (capture_by now e p field f.checkout f)) (sym names)
        (subst (λ o. Extended (capture_by now e p (reference r) o f)) (sym row)
          (capture_checkout-IsExtended now e p r c f named value card was_paid)))
  where
    Extended : Focus → Type 0
    Extended = IsExtended (cycle_end now c.billing_cycle) f.subscription.access_until
