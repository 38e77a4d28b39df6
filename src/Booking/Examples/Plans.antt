-- ===== src/Booking/Examples/Plans.antt =====
-- Plans on the small business, and the theorems on them.
use whatsapp_atendimentos_ag.Prelude.{◌≡◌, refl, true, false, none, some, [], ◌+◌, ◌-◌, ◌*◌}
use whatsapp_atendimentos_ag.Booking.Types.{BookingPlan, ServiceEstimate, quantize}
use whatsapp_atendimentos_ag.Booking.Results.{Result, ok, err}
use whatsapp_atendimentos_ag.Booking.Slots.{Local, minute, combine}
use whatsapp_atendimentos_ag.Booking.Buffers.{total}
use whatsapp_atendimentos_ag.Booking.Plan.Laws.{
  IsCoherent, IsBookable, build_plan-IsCoherent, build_plan_reserves, build_plan-IsBookable,
  build_plan_distance_fee,
}
use whatsapp_atendimentos_ag.Booking.Examples.{
  quoted, tools, business, service, tubing, provider, requirements,
}
use whatsapp_atendimentos_ag.Booking.Travel.{
  zero_travel_estimate, configured_port, address_tokens, searchable_text,
  same_address_travel_estimate, effective_travel_method, estimate_travel_leg,
}
use whatsapp_atendimentos_ag.Booking.Buffers.{operational_buffers}
use whatsapp_atendimentos_ag.Booking.Additions.{
  catalog_pricing_unit, catalog_charge_quantity, apply_catalog_additions,
}
use whatsapp_atendimentos_ag.Booking.Types.{quantize}
use whatsapp_atendimentos_ag.Booking.Estimator.{with_units, estimate}
use whatsapp_atendimentos_ag.Booking.Plan.{
  price_distance, outside_radius, price_delivery, assemble, plan_travel, plan_service, build_plan,
}
use whatsapp_atendimentos_ag.Booking.Schedule.{
  previous_of, following_of, leg_before, leg_after, schedule_aware_plan,
}

abbrev pub plan_or : ServiceEstimate → Result BookingPlan → BookingPlan
plan_or e (ok p) = p
plan_or e (err x) = record {
  service = e;
  travel = zero_travel_estimate;
  travel_before_minutes = 0;
  travel_after_minutes = 0;
  requires_handoff = true;
  handoff_reason = none;
}

abbrev pub plan : BookingPlan
plan = plan_or quoted (build_plan tools provider (some tubing) business service requirements)

abbrev estimate_or : ServiceEstimate → Result ServiceEstimate → ServiceEstimate
estimate_or e (ok x) = x
estimate_or e (err x) = e

abbrev planned : ServiceEstimate
planned =
    estimate_or quoted (plan_service tools provider (some tubing) business service requirements)

built : build_plan tools provider (some tubing) business service requirements ≡ ok plan
unfolding plan_service build_plan
built = refl

estimated_well :
    plan_service tools provider (some tubing) business service requirements ≡ ok planned
unfolding plan_service
estimated_well = refl

plan_facts :
    (plan.requires_handoff ≡ false)
    × (planned.estimated_price ≡ some 46500)
    × (plan.travel.distance_km ≡ some 2000)
unfolding configured_port address_tokens searchable_text same_address_travel_estimate
    effective_travel_method estimate_travel_leg catalog_pricing_unit catalog_charge_quantity
    apply_catalog_additions with_units estimate price_distance outside_radius price_delivery
    assemble plan_travel plan_service build_plan
plan_facts = (refl, refl, refl)

build_plan-IsCoherent_example : IsCoherent plan
build_plan-IsCoherent_example =
    build_plan-IsCoherent tools provider (some tubing) business service requirements plan built

build_plan_reserves_example :
    plan.travel_before_minutes + plan.travel_after_minutes
    ≡ plan.travel.travel_minutes * 2
      + 5
      + 5
      + total (operational_buffers business.buffers requirements plan.service)
build_plan_reserves_example =
    build_plan_reserves tools provider (some tubing) business service requirements plan built

build_plan-IsBookable_example : IsBookable business requirements plan
build_plan-IsBookable_example =
    build_plan-IsBookable tools provider (some tubing) business service requirements plan built
      plan_facts.0

-- 5 km above the included 15 km, at 2.40 each.
build_plan_distance_fee_example :
    plan.service.estimated_price ≡ some (46500 + quantize ((2000 - 1500) * 240))
build_plan_distance_fee_example =
    build_plan_distance_fee tools provider (some tubing) business service requirements plan planned
      2000 46500 built estimated_well refl plan_facts.1 plan_facts.2

abbrev ten : Local
ten = combine 21 (600 * minute)

abbrev pub scheduled : BookingPlan
scheduled =
    plan_or quoted
      (schedule_aware_plan tools provider business requirements plan 3 ten (ten + 150 * minute) [])

scheduled_well :
    schedule_aware_plan tools provider business requirements plan 3 ten (ten + 150 * minute) []
    ≡ ok scheduled
unfolding previous_of following_of leg_before leg_after schedule_aware_plan
scheduled_well = refl
