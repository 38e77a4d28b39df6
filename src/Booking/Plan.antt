-- ===== src/Booking/Plan.antt =====
-- app/booking/availability.py: `_build_plan` and `_require_automatic_plan`.
pub mod Laws
use text.Mathlib.Text.{◌==◌ as str_eq}
use whatsapp_atendimentos_ag.Prelude.{
  ℕ, ◌+◌, ◌-◌, ◌*◌, ◌/◌, Bool, true, false, not, ◌&&◌, ◌||◌, Option, none, some, List, [], ◌∷◌,
  ◌++◌, max, ltb, ◌==◌, if◌then◌else◌, is_none, get_or,
}
use whatsapp_atendimentos_ag.Booking.Types.{
  Minutes, Cents, Hundredths, quantize, PricingType, fixed, estimated, ServiceAddress, TravelOrigin,
  Fulfillment, no_fulfillment, equipment_delivery, BookingRequirements, fulfillment_rule,
  service_distance_km, service_distance_excess_km, service_distance_fee,
  equipment_delivery_fee_per_km, fixed_value, with_travel_fee, ServiceEstimate, TravelMethod,
  same_address, TravelEstimate, HandoffReason, service_estimate_requires_human_quote,
  travel_estimate_unavailable, address_outside_service_area, delivery_distance_unavailable,
  BookingPlan,
}
use whatsapp_atendimentos_ag.Booking.Estimator.{estimate}
use whatsapp_atendimentos_ag.Booking.Buffers.{Buffers, operational_buffers}
use whatsapp_atendimentos_ag.Booking.Results.{
  BookingError, Result, ok, err, requires_handoff, invalid_configuration, ◌>>=◌, ◌>>◌, raise_if,
}
use whatsapp_atendimentos_ag.Booking.Business.{TextTools, Business, Service, CatalogItem}
use whatsapp_atendimentos_ag.Booking.Travel.{
  RouteProvider, zero_travel_estimate, unavailable_travel_estimate, configured_port,
  same_address_travel_estimate, effective_travel_method, by_method, ConfiguredPort,
}
use whatsapp_atendimentos_ag.Booking.Additions.{apply_catalog_additions}

abbrev pub is_fulfillment : Fulfillment → Bool
is_fulfillment no_fulfillment = false
is_fulfillment _ = true

abbrev pub is_delivery : Fulfillment → Bool
is_delivery equipment_delivery = true
is_delivery _ = false

-- Lines 863 to 873.
unfoldable pub fulfillment_estimate : Business → Fulfillment → ServiceEstimate
fulfillment_estimate b f = record {
  estimated_duration_minutes =
      max 15 (if b.slot_interval_minutes == 0 then 30 else b.slot_interval_minutes);
  estimated_price = some 0;
  pricing_type = fixed;
  requires_human_quote = false;
  applied_rules = fulfillment_rule f ∷ [];
  qualifier = fixed_value;
}

abbrev pub is_same_address : TravelMethod → Bool
is_same_address same_address = true
is_same_address _ = false

-- Lines 1009 to 1031.
add_fee : ServiceEstimate → Cents → Hundredths → Hundredths → Cents → ServiceEstimate
add_fee e price distance excess fee = record e {
  estimated_price = some (price + fee);
  pricing_type = elim e.pricing_type [ fixed ↦ estimated | t ↦ t ];
  qualifier = with_travel_fee;
  applied_rules =
      e.applied_rules
      ++ service_distance_km distance
        ∷ service_distance_excess_km excess
        ∷ service_distance_fee fee
        ∷ [];
}

-- Lines 993 to 1031; the price is `none` where the estimate has none.
with_distance_fee : Business → ServiceEstimate → Hundredths → Option Cents → ServiceEstimate
unfolding add_fee
with_distance_fee b e distance none = e
with_distance_fee b e distance (some price) =
    let excess = distance - get_or b.service_distance_included_km 1500 in
    let fee_per_km = get_or b.service_distance_fee_per_km 240 in
    if ltb 0 excess && ltb 0 fee_per_km
    then add_fee e price distance excess (quantize (excess * fee_per_km))
    else e

-- Lines 983 to 1031 for a travel with a distance, and without one.
unfoldable pub price_distance :
    Business → Fulfillment → Option Hundredths → ServiceEstimate → ServiceEstimate
unfolding with_distance_fee
price_distance b f none e = e
price_distance b f (some distance) e =
    if is_fulfillment f then e else with_distance_fee b e distance e.estimated_price

unfoldable pub outside_radius : Business → Fulfillment → Option Hundredths → Bool
outside_radius b f none = false
outside_radius b f (some distance) =
    not (is_fulfillment f)
    && elim b.service_radius_km [ none ↦ false | some radius ↦ ltb radius distance ]

abbrev pub delivery_distance : TravelEstimate → Option Hundredths
delivery_distance t = if is_same_address t.method then some 0 else t.distance_km

-- Lines 1042 to 1058.
with_delivery_fee : Business → ServiceEstimate → Option Hundredths → ServiceEstimate
with_delivery_fee b e none = e
with_delivery_fee b e (some distance) = record e {
  estimated_price = some (quantize (distance * get_or b.equipment_delivery_fee_per_km 240));
  applied_rules = e.applied_rules ++ equipment_delivery_fee_per_km ∷ [];
}

unfoldable pub price_delivery :
    Business → Fulfillment → TravelEstimate → ServiceEstimate → ServiceEstimate
unfolding with_delivery_fee
price_delivery b f t e = if is_delivery f then with_delivery_fee b e (delivery_distance t) else e

abbrev pub delivery_unavailable : Fulfillment → TravelEstimate → Bool
delivery_unavailable f t = is_delivery f && is_none (delivery_distance t)

unfoldable pub handoff_reason :
    ServiceEstimate → TravelEstimate → Bool → Bool → Option HandoffReason
handoff_reason e t outside no_distance =
    if e.requires_human_quote
    then some service_estimate_requires_human_quote
    else if not t.available
    then some travel_estimate_unavailable
    else if not t.within_service_area || outside
    then some address_outside_service_area
    else if no_distance
    then some delivery_distance_unavailable
    else none

-- Lines 1060 to 1100.
unfoldable pub assemble :
    Business → BookingRequirements → ServiceEstimate → TravelEstimate → Bool → BookingPlan
unfolding handoff_reason
assemble b q e t outside =
    let m = operational_buffers b.buffers q e in
    let no_distance = delivery_unavailable q.fulfillment_type t in
    let interval_before = m.interval / 2 in
    record {
      service = e;
      travel = t;
      travel_before_minutes =
          t.travel_minutes + b.travel_before_buffer_minutes + m.preparation + interval_before;
      travel_after_minutes =
          t.travel_minutes
          + b.travel_after_buffer_minutes
          + m.finishing
          + (m.interval - interval_before);
      requires_handoff =
          e.requires_human_quote
          || not t.available
          || not t.within_service_area
          || outside
          || no_distance;
      handoff_reason = handoff_reason e t outside no_distance;
    }

module _ (tools : TextTools) (provider : RouteProvider) where
  -- The `else` of the `try`, lines 958 to 981.
  travel_from : Business → TravelOrigin → ServiceAddress → ConfiguredPort → Option TravelEstimate
  travel_from b o d p = elim (effective_travel_method tools b (not (is_none provider))) [
    | none ↦ none
    | some m ↦
        some (get_or (same_address_travel_estimate tools o d) (by_method tools provider m p o d))
  ]

  -- `none` is the ValueError that the planner catches.
  try_travel : Business → ServiceAddress → Option TravelEstimate
  unfolding travel_from
  try_travel b d =
      let address = get_or b.service_origin_address "" in
      let origin : TravelOrigin = record {
        address = address;
        is_precise = b.service_origin_is_precise;
      } in
      if str_eq address "" || str_eq (tools.strip address) ""
      then none
      else elim (configured_port b) [ none ↦ none | some p ↦ travel_from b origin d p ]

  unfoldable pub plan_travel : Business → BookingRequirements → ServiceEstimate → TravelEstimate
  unfolding try_travel
  plan_travel b q e = elim q.address [
    | none ↦ zero_travel_estimate
    | some d ↦
        if e.requires_human_quote
        then zero_travel_estimate
        else get_or (try_travel b d) (
            unavailable_travel_estimate
              (record { address = "Operational origin unavailable"; is_precise = false }))
  ]

  -- Lines 862 to 919.
  unfoldable pub plan_service :
      Option CatalogItem → Business → Service → BookingRequirements → Result ServiceEstimate
  plan_service item b s q =
      if is_fulfillment q.fulfillment_type
      then ok (fulfillment_estimate b q.fulfillment_type)
      else elim s.configuration [
        | none ↦ err invalid_configuration
        | some c ↦ ok (apply_catalog_additions tools item s q (estimate c q))
      ]

  abbrev pub plan_with :
      Business → BookingRequirements → ServiceEstimate → TravelEstimate → BookingPlan
  plan_with b q e t =
      let f = q.fulfillment_type in
      assemble b q (price_delivery b f t (price_distance b f t.distance_km e)) t
        (outside_radius b f t.distance_km)

  unfoldable pub build_plan :
      Option CatalogItem → Business → Service → BookingRequirements → Result BookingPlan
  build_plan item b s q = do e ← plan_service item b s q; ok (plan_with b q e (plan_travel b q e))

unfoldable pub require_automatic_plan : BookingPlan → Result (Unit {0})
require_automatic_plan p = raise_if p.requires_handoff (requires_handoff p.handoff_reason)
