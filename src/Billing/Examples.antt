-- ===== src/Billing/Examples.antt =====
-- A business in production that paid its first month by credit card, and the theorems on it.
mod Checkouts
mod Activations
mod Entitled
use whatsapp_atendimentos_ag.Prelude.{
  ℕ, suc, ◌+◌, ◌≤◌, ◌<◌, ◌≡◌, ◌≢◌, ◌↔◌, inr, refl, true, false, none, some, List, [], ◌∷◌, All, Any,
  arith, min,
}
use whatsapp_atendimentos_ag.Billing.Money.{
  decimal, quantize_limit, half_up_cents, payment_value_cents,
}
use whatsapp_atendimentos_ag.Billing.Money.Laws.{IsNearest, payment_value_cents_iff}
use whatsapp_atendimentos_ag.Billing.Calendar.{
  Moment, monthly, days_in_month, cycle_months, cycle_end, order_key,
}
use whatsapp_atendimentos_ag.Billing.Calendar.Laws.{IsDate, months_of, cycle_end_lem}
use whatsapp_atendimentos_ag.Billing.Types.{
  Checkout, Subscription, Gateway, Payment, Refund, Field, reference, done_refund, pending_refund,
  PaymentState,
}
use whatsapp_atendimentos_ag.Billing.Types
use whatsapp_atendimentos_ag.Billing.Refunds.{
  ProviderRefundStatus, provider_refund_status, resolve_from, unique_matches, sole,
}
use whatsapp_atendimentos_ag.Billing.Refunds.Laws.{
  done_cents, Fits, provider_refund_status_done_iff, resolve_from_sound,
}
use whatsapp_atendimentos_ag.Billing.Status.{
  Focus, subscription_status_response, cancel_provider_recurrence,
}
use whatsapp_atendimentos_ag.Billing.Status.Cases.{refunds}
use whatsapp_atendimentos_ag.Billing.Status.Settled.{IsClosed, done_refund-IsClosed}
use whatsapp_atendimentos_ag.Billing.Requests.{
  cancel_now, is_ended, request_subscription_cancellation, request_guarantee_refund,
}
use whatsapp_atendimentos_ag.Billing.Requests.Retry.{cancel_each, cancellation_succeeds}
use whatsapp_atendimentos_ag.Billing.Requests.Eligible.{
  IsInGuarantee, refund_submitted-IsInGuarantee,
}
use whatsapp_atendimentos_ag.Billing.Cards.{
  Payload, payment_refund_denied, payment_overdue, capture_card,
}
use whatsapp_atendimentos_ag.Billing.Webhooks.{
  Action, asks_status, asks_refund, hears_payment, hears_subscription, run, subscription_deleted,
}
use whatsapp_atendimentos_ag.Billing.Webhooks.Runs.{keeps_ended, run_refunds_once}
use whatsapp_atendimentos_ag.Billing.Webhooks.Resubmit.{overdue_resubmits}

abbrev pub at : ℕ → Moment
at day = record { year = 2026; month = 1; day = day; clock = 0 }

-- 196.995 is read as 197.00.
rounded_up : payment_value_cents (decimal 196995 3) ≡ some 19700
unfolding payment_value_cents half_up_cents quantize_limit
rounded_up = refl

payment_value_cents_iff_example :
    (payment_value_cents (decimal 196995 3) ≡ some 19700)
    ↔ ((0 < 19700) × (19700 < quantize_limit) × IsNearest 196995 3 19700)
payment_value_cents_iff_example = payment_value_cents_iff 196995 3 19700

january_31-IsDate : IsDate (at 31)
unfolding days_in_month
january_31-IsDate = record {
  month_first = omega arith;
  month_last = omega arith;
  day_first = omega arith;
  day_last = omega arith;
}

cycle_end_lem_example :
    let to = cycle_end (at 31) monthly in
    IsDate to
    × (months_of to ≡ months_of (at 31) + cycle_months monthly)
    × (to.day ≡ min 31 (days_in_month to.year to.month))
    × (order_key (at 31) < order_key to)
cycle_end_lem_example = cycle_end_lem (at 31) monthly january_31-IsDate

abbrev pub checkout : Checkout
checkout = record {
  id = 3;
  idempotency_key = 33;
  business_id = 1;
  plan_code = Types.basic;
  billing_cycle = monthly;
  payment_method = Types.credit_card;
  provider_environment = Types.production;
  amount_cents = 19700;
  payer = record { name = some "Maria"; email = some "maria@example.com"; phone = none };
  status = Types.CheckoutStatus.paid;
  provider_checkout_id = some 30;
  provider_authorization_id = none;
  provider_pix_qr_code_id = none;
  provider_subscription_id = some 40;
  provider_customer_id = some 50;
  provider_payment_id = some 60;
  pix_qr_payload = false;
  expires_at = none;
  paid_at = some (at 10);
}

abbrev subscription : Subscription
subscription = record {
  business_id = 1;
  checkout_id = 3;
  plan_code = Types.basic;
  billing_cycle = monthly;
  payment_method = Types.credit_card;
  provider_environment = Types.production;
  status = Types.SubscriptionStatus.active;
  provider_subscription_id = some 40;
  provider_authorization_id = none;
  provider_pix_qr_code_id = none;
  provider_customer_id = some 50;
  access_until = record { year = 2026; month = 2; day = 10; clock = 0 };
  canceled_at = none;
  cancellation_requested_at = none;
  refund_status = Types.no_refund;
  refund_requested_at = none;
  refunded_at = none;
}

abbrev focus : Focus
focus = record {
  environment = Types.production;
  subscription = subscription;
  checkout = some checkout;
  access = none;
  first_paid = some 3;
  calls = [];
}

abbrev refunds_shown : List Refund
refunds_shown =
    (record { status = done_refund; value = decimal 9700 2 })
    ∷ (record { status = pending_refund; value = decimal 5000 2 })
    ∷ (record { status = done_refund; value = decimal 10000 2 })
    ∷ []

abbrev pub payment : Payment
payment = record {
  id = reference 60;
  status = Types.confirmed;
  value = decimal 1970 1;
  refunds = refunds_shown;
}

-- The provider answers every call, or none.
abbrev pub answering : Gateway
answering = record {
  payment_details = λ r. some payment;
  payments_for_static_pix = λ r. some (payment ∷ []);
  payments_for_checkout = λ r. some (payment ∷ []);
  payments_for_subscription = λ r. some (payment ∷ []);
  cancel_subscription = λ r. true;
  cancel_pix_authorization = λ r. true;
  delete_static_pix_qr_code = λ r. true;
  refund_payment = λ r. true;
}

abbrev silent : Gateway
silent = record {
  payment_details = λ r. none;
  payments_for_static_pix = λ r. none;
  payments_for_checkout = λ r. none;
  payments_for_subscription = λ r. none;
  cancel_subscription = λ r. false;
  cancel_pix_authorization = λ r. false;
  delete_static_pix_qr_code = λ r. false;
  refund_payment = λ r. false;
}

-- The recurrence is cancelled, and the answer to the refund is lost.
abbrev losing : Gateway
losing = record silent { cancel_subscription = λ r. true }

provider_refund_status_done_iff_example :
    (provider_refund_status refunds_shown 19700 ≡ some ProviderRefundStatus.done)
    ↔ (19700 ≤ done_cents refunds_shown)
provider_refund_status_done_iff_example =
    provider_refund_status_done_iff refunds_shown 19700 (omega arith)

payment-resolved : resolve_from 19700 (some (payment ∷ payment ∷ [])) ≡ some 60
unfolding resolve_from payment_value_cents quantize_limit unique_matches sole half_up_cents
payment-resolved = refl

resolve_from_sound_example :
    Any (λ p. Fits 19700 p 60) (payment ∷ payment ∷ [])
    × All (λ p. (q : ℕ) → Fits 19700 p q → q ≡ 60) (payment ∷ payment ∷ [])
resolve_from_sound_example = resolve_from_sound 19700 (payment ∷ payment ∷ []) 60 payment-resolved

abbrev payload : Payload
payload = record {
  id = reference 60;
  value = decimal 19700 2;
  due_date = none;
  checkout_session = Types.missing;
  subscription = Types.missing;
  customer = Types.missing;
}

abbrev story : List Action
story =
    asks_refund losing (at 12)
    ∷ asks_refund answering (at 12)
    ∷ hears_payment none (at 13) payment_refund_denied payload
    ∷ hears_subscription (at 13) subscription_deleted
    ∷ asks_status silent (at 14)
    ∷ asks_refund losing (at 14)
    ∷ []

run_refunds_once_example : refunds (run story focus).calls ≤ 1
unfolding keeps_ended
run_refunds_once_example =
    run_refunds_once story focus (refl, (refl, (refl, (refl, (refl, (refl, tt)))))) refl

-- After a refund whose answer was lost.
abbrev pub unsure : Focus
unsure = (request_guarantee_refund losing (at 12) focus).1

pub unsure-facts :
    (unsure.subscription.refund_status ≡ Types.reconcile_required)
    × (unsure.checkout ≡ some checkout)
    × ((cancel_provider_recurrence answering
          (capture_card (at 20) payment_overdue payload unsure)).0
        ≡ true)
    × (refunds unsure.calls ≡ 1)
unfolding request_guarantee_refund subscription_status_response cancel_provider_recurrence
    cancel_now capture_card
unsure-facts = (refl, refl, refl, refl)

overdue_resubmits_example :
    refunds
      (run
        (hears_payment none (at 20) payment_overdue payload ∷ asks_status answering (at 21) ∷ [])
        unsure).calls
    ≡ suc (refunds unsure.calls)
overdue_resubmits_example =
    overdue_resubmits answering none (at 20) (at 21) payload unsure checkout 60 unsure-facts.0
      unsure-facts.1 refl unsure-facts.2

recurrence-answered : (cancel_provider_recurrence answering focus).0 ≡ true
unfolding cancel_provider_recurrence
recurrence-answered = refl

cancellation_succeeds_example :
    let x =
      (request_subscription_cancellation answering
        (at 14)
        (cancel_each ((silent, at 12) ∷ (silent, at 13) ∷ []) focus)).1 in
    (is_ended x.subscription.status ≡ true)
    × (x.subscription.access_until ≡ subscription.access_until)
cancellation_succeeds_example =
    cancellation_succeeds ((silent, at 12) ∷ (silent, at 13) ∷ []) answering (at 14) focus refl
      recurrence-answered

refund-submitted : refunds (request_guarantee_refund answering (at 12) focus).1.calls ≢ 0
unfolding request_guarantee_refund subscription_status_response cancel_provider_recurrence
    cancel_now provider_refund_status payment_value_cents quantize_limit half_up_cents
refund-submitted = omega arith

refund_submitted-IsInGuarantee_example : IsInGuarantee (at 12) focus
refund_submitted-IsInGuarantee_example =
    refund_submitted-IsInGuarantee answering (at 12) focus refl refund-submitted

pub enough_done : 19700 ≤ done_cents refunds_shown
unfolding payment_value_cents quantize_limit half_up_cents
enough_done = omega arith

done_refund-IsClosed_example :
    IsClosed (at 25) unsure (subscription_status_response answering (at 25) unsure).1
done_refund-IsClosed_example =
    done_refund-IsClosed answering (at 25) unsure checkout 60 payment (inr unsure-facts.0)
      unsure-facts.1 refl refl (omega arith) enough_done
