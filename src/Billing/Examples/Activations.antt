-- ===== src/Billing/Examples/Activations.antt =====
-- A month after its first payment by card, the next charge is announced.
use whatsapp_atendimentos_ag.Prelude.{◌≡◌, refl, true, none, some, [], ◌∷◌}
use whatsapp_atendimentos_ag.Billing.Money.{
  decimal, payment_value_cents, half_up_cents, quantize_limit,
}
use whatsapp_atendimentos_ag.Billing.Calendar.{Moment, monthly, cycle_end}
use whatsapp_atendimentos_ag.Billing.Types.{Subscription, missing, reference}
use whatsapp_atendimentos_ag.Billing.Types
use whatsapp_atendimentos_ag.Billing.Refunds.{pays}
use whatsapp_atendimentos_ag.Billing.Status.{Focus}
use whatsapp_atendimentos_ag.Billing.Cards.{Payload, other_payment_event, is_named}
use whatsapp_atendimentos_ag.Billing.Webhooks.{apply_payment_event}
use whatsapp_atendimentos_ag.Billing.Webhooks.Extended.{
  IsExtended, leaves_running, any_event-IsExtended,
}
use whatsapp_atendimentos_ag.Billing.Activation.{capture_card_payment}
use whatsapp_atendimentos_ag.Billing.Desk.{Desk, first, change_first}
use whatsapp_atendimentos_ag.Billing.Examples.Checkouts.{first_checkout, desk}

-- Canceled, with access until the tenth of February.
abbrev canceled_subscription : Subscription
canceled_subscription = record {
  business_id = 1;
  checkout_id = 3;
  plan_code = Types.basic;
  billing_cycle = monthly;
  payment_method = Types.credit_card;
  provider_environment = Types.production;
  status = Types.SubscriptionStatus.canceled;
  provider_subscription_id = some 40;
  provider_authorization_id = none;
  provider_pix_qr_code_id = none;
  provider_customer_id = some 50;
  access_until = record { year = 2026; month = 2; day = 10; clock = 0 };
  canceled_at = some (record { year = 2026; month = 1; day = 20; clock = 0 });
  cancellation_requested_at = none;
  refund_status = Types.no_refund;
  refund_requested_at = none;
  refunded_at = none;
}

abbrev subscribed : Focus
subscribed = record {
  environment = Types.production;
  subscription = canceled_subscription;
  checkout = some first_checkout;
  access = none;
  first_paid = some 3;
  calls = [];
}

-- PAYMENT_CREATED
abbrev announced : Payload
announced = record {
  id = reference 61;
  value = decimal 19700 2;
  due_date = none;
  checkout_session = missing;
  subscription = reference 40;
  customer = reference 50;
}

abbrev february_1 : Moment
february_1 = record { year = 2026; month = 2; day = 1; clock = 0 }

running : leaves_running other_payment_event ≡ true
unfolding leaves_running
running = refl

subscription-named : is_named Types.production announced 40 first_checkout ≡ true
unfolding is_named
subscription-named = refl

amount-paid : pays 19700 (payment_value_cents (decimal 19700 2)) ≡ true
unfolding payment_value_cents half_up_cents quantize_limit
amount-paid = refl

-- The query on the rows of the business does the same to the row.
abbrev rows : Desk
rows = record desk { subscriptions = canceled_subscription ∷ [] }

row-active :
    (capture_card_payment february_1 other_payment_event announced rows).subscriptions
    ≡ (apply_payment_event none february_1 other_payment_event announced subscribed).1.subscription
      ∷ []
unfolding capture_card_payment apply_payment_event payment_value_cents half_up_cents quantize_limit
    first change_first is_named
row-active = refl

any_event-IsExtended_example :
    IsExtended
      (cycle_end february_1 monthly)
      canceled_subscription.access_until
      (apply_payment_event none february_1 other_payment_event announced subscribed).1
any_event-IsExtended_example =
    any_event-IsExtended none february_1 other_payment_event announced 40 subscribed first_checkout
      running refl refl subscription-named amount-paid refl refl
