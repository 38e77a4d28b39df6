-- ===== src/Billing/Cards/Laws.antt =====
-- What the first part of a payment's webhook keeps, and how it extends the access.
use whatsapp_atendimentos_ag.Prelude.{
  ◌≡◌, refl, sym, subst, ◌&&◌, ◌||◌, not, Option, none, some, is_none, if_cases, if◌then◌else◌,
}
use whatsapp_atendimentos_ag.Billing.Money.{payment_value_cents}
use whatsapp_atendimentos_ag.Billing.Calendar.{Moment}
use whatsapp_atendimentos_ag.Billing.Types.{
  Reference, Field, missing, malformed, reference, paid, Checkout,
}
use whatsapp_atendimentos_ag.Billing.Refunds.{pays}
use whatsapp_atendimentos_ag.Billing.Status.{Focus}
use whatsapp_atendimentos_ag.Billing.Desk.{is_status, is_credit_card}
use whatsapp_atendimentos_ag.Billing.Cards.{
  PaymentEvent, Payload, is_paid_event, is_missing, renewed, record_operational_history,
  initial_payment_id, captured, mark_native, activate_by, activate_if_ready, is_named,
  capture_checkout, capture_by, capture_card,
}

-- The payment of the checkout is still known, and no refund was noted or submitted.
pub record KeepsPayment (f : Focus) (r : Reference) (x : Focus) : Type 0 where
  pub row : Checkout
  pub checkout : x.checkout ≡ some row
  pub known : row.provider_payment_id ≡ some r
  pub refund_status : x.subscription.refund_status ≡ f.subscription.refund_status
  pub calls : x.calls ≡ f.calls

start :
    (f : Focus) (c : Checkout) (r : Reference)
    → f.checkout ≡ some c
    → c.provider_payment_id ≡ some r
    → KeepsPayment f r f
start f c r row known = record {
  row = c;
  checkout = row;
  known = known;
  refund_status = refl;
  calls = refl;
}

activate_by-KeepsPayment :
    (now : Moment) (o : Option Reference) (c : Checkout) (f x : Focus) (r : Reference)
    → KeepsPayment f r x
    → KeepsPayment f r (activate_by now o c x)
unfolding activate_by record_operational_history renewed
activate_by-KeepsPayment now none c f x r k = k
activate_by-KeepsPayment now (some q) c f x r k = record {
  row = k.row;
  checkout = k.checkout;
  known = k.known;
  refund_status = k.refund_status;
  calls = k.calls;
}

activate_if_ready-KeepsPayment :
    (now : Moment) (c : Checkout) (f x : Focus) (r : Reference)
    → KeepsPayment f r x
    → KeepsPayment f r (activate_if_ready now c x)
unfolding activate_if_ready
activate_if_ready-KeepsPayment now c f x r k =
    if_cases (KeepsPayment f r) (is_credit_card c.payment_method && is_status c.status paid)
      (λ _. activate_by-KeepsPayment now c.provider_subscription_id c f x r k) (λ _. k)

initial_payment_id_known :
    (e : PaymentEvent) (field : Field) (o : Option Reference) (r : Reference)
    → o ≡ some r
    → initial_payment_id e field o ≡ some r
unfolding initial_payment_id
initial_payment_id_known e field none r h = cc h
initial_payment_id_known e missing (some q) r h = h
initial_payment_id_known e malformed (some q) r h = h
initial_payment_id_known e (reference x) (some q) r h = h

captured_known :
    (now : Moment) (e : PaymentEvent) (p : Payload) (q r : Reference) (c : Checkout)
    → c.provider_payment_id ≡ some r
    → (mark_native now e (captured e p q c)).provider_payment_id ≡ some r
unfolding mark_native captured
captured_known now e p q r c h =
    if_cases (λ (y : Checkout). y.provider_payment_id ≡ some r)
      (is_none c.provider_checkout_id && is_paid_event e) (λ _. kept) (λ _. kept)
  where
    kept :
        (if not (is_missing p.checkout_session) || is_none c.paid_at
          then initial_payment_id e p.id c.provider_payment_id
          else c.provider_payment_id)
        ≡ some r
    kept =
        if_cases (λ o. o ≡ some r) (not (is_missing p.checkout_session) || is_none c.paid_at)
          (λ _. initial_payment_id_known e p.id c.provider_payment_id r h) (λ _. h)

capture_by-KeepsPayment :
    (now : Moment) (e : PaymentEvent) (p : Payload) (field : Field) (f : Focus) (c : Checkout)
    (r : Reference)
    → f.checkout ≡ some c
    → c.provider_payment_id ≡ some r
    → KeepsPayment f r (capture_by now e p field (some c) f)
unfolding capture_by capture_checkout
capture_by-KeepsPayment now e p missing f c r row known = start f c r row known
capture_by-KeepsPayment now e p malformed f c r row known = start f c r row known
capture_by-KeepsPayment now e p (reference q) f c r row known =
    if_cases (KeepsPayment f r)
      (is_named f.environment p q c && pays c.amount_cents (payment_value_cents p.value))
      (λ _.
        activate_if_ready-KeepsPayment now (mark_native now e (captured e p q c)) f _ r (record {
          row = mark_native now e (captured e p q c);
          checkout = refl;
          known = captured_known now e p q r c known;
          refund_status = refl;
          calls = refl;
        }))
      (λ _. start f c r row known)

pub capture_card-KeepsPayment :
    (now : Moment) (e : PaymentEvent) (p : Payload) (f : Focus) (c : Checkout) (r : Reference)
    → f.checkout ≡ some c
    → c.provider_payment_id ≡ some r
    → KeepsPayment f r (capture_card now e p f)
unfolding capture_card
capture_card-KeepsPayment now e p f c r row known =
    subst (λ o. KeepsPayment f r (capture_by now e p p.subscription o f)) (sym row)
      (capture_by-KeepsPayment now e p p.subscription f c r row known)
