-- ===== src/Billing/Examples/Entitled.antt =====
-- The access of the business of Billing/Examples after its refund.
use whatsapp_atendimentos_ag.Prelude.{◌≡◌, false, none, [], ◌∷◌, refl, inr, arith}
use whatsapp_atendimentos_ag.Billing.Types.{production}
use whatsapp_atendimentos_ag.Billing.Status.{
  subscription_status_response, cancel_provider_recurrence,
}
use whatsapp_atendimentos_ag.Billing.Requests.{request_guarantee_refund, cancel_now}
use whatsapp_atendimentos_ag.Billing.Entitlements.{
  Query, is_admin, active_subscription_exists, active_operational_access_exists,
}
use whatsapp_atendimentos_ag.Billing.Entitlements.Refunded.{refund_ends_access}
use whatsapp_atendimentos_ag.Billing.Examples.{
  at, checkout, payment, answering, unsure, unsure-facts, enough_done,
}

abbrev query : Query
query = record {
  business_id = 1;
  provider_environment = none;
  at = none;
  configured = production;
  now = at 26;
}

unsure-rows :
    (unsure.environment ≡ production)
    × (is_admin unsure.access ≡ false)
    × (active_subscription_exists query [] ≡ false)
unfolding request_guarantee_refund subscription_status_response cancel_provider_recurrence
    cancel_now active_subscription_exists
unsure-rows = (refl, refl, refl)

refund_ends_access_example :
    active_operational_access_exists query
      (subscription_status_response answering (at 25) unsure).1.access
      ((subscription_status_response answering (at 25) unsure).1.subscription ∷ [])
    ≡ false
refund_ends_access_example =
    refund_ends_access query [] answering (at 25) unsure checkout 60 payment unsure-rows.0
      unsure-rows.1 unsure-rows.2 (inr unsure-facts.0) unsure-facts.1 refl refl (omega arith)
      enough_done
