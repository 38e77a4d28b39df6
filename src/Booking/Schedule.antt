-- ===== src/Booking/Schedule.antt =====
-- app/booking/availability.py: `_schedule_aware_plan`, the plan of a candidate between the
-- technician's neighbouring commitments of the day.
pub mod Laws
use Prim.Native.String.{String}
use text.Mathlib.Text.{◌==◌ as str_eq}
use whatsapp_atendimentos_ag.Prelude.{
  ℕ, ◌+◌, ◌-◌, ◌/◌, Bool, true, false, not, ◌&&◌, ◌||◌, Option, none, some, List, [], ◌∷◌, max, ltb,
  leb, ◌==◌, if◌then◌else◌, keep_if,
}
use whatsapp_atendimentos_ag.Booking.Types.{
  Uuid, ServiceAddress, TravelOrigin, BookingRequirements, TravelEstimate, joined, HandoffReason,
  travel_estimate_unavailable, address_outside_service_area, BookingPlan,
}
use whatsapp_atendimentos_ag.Booking.Slots.{Instant, Local, Zone, date_of}
use whatsapp_atendimentos_ag.Booking.Buffers.{Buffers, operational_buffers}
use whatsapp_atendimentos_ag.Booking.Capacity.{Appointment, is_confirmed}
use whatsapp_atendimentos_ag.Booking.Results.{Result, ok, err, value_error, ◌>>=◌}
use whatsapp_atendimentos_ag.Booking.Business.{TextTools, Business}
use whatsapp_atendimentos_ag.Booking.Travel.{
  RouteProvider, zero_travel_estimate, unavailable_travel_estimate, searchable_text,
  estimate_travel_leg,
}

-- `max(..., key=ends_at, default=None)`: the first of the greatest.
unfoldable pub latest_end : List Appointment → Option Appointment
latest_end [] = none
latest_end (a ∷ as') = elim (latest_end as') [
  | none ↦ some a
  | some b ↦ if ltb a.ends_at b.ends_at then some b else some a
]

-- `min(..., key=starts_at, default=None)`: the first of the least.
unfoldable pub earliest_start : List Appointment → Option Appointment
earliest_start [] = none
earliest_start (a ∷ as') = elim (earliest_start as') [
  | none ↦ some a
  | some b ↦ if ltb b.starts_at a.starts_at then some b else some a
]

-- Lines 1413 to 1419.
abbrev pub same_day : Zone → Uuid → Local → Appointment → Bool
same_day z employee_id starts_at a =
    a.employee_id == employee_id
    && is_confirmed a.status
    && date_of (z.to_local a.starts_at) == date_of starts_at

unfoldable pub previous_of : Zone → Uuid → Local → List Appointment → Option Appointment
unfolding latest_end
previous_of z employee_id starts_at items = latest_end (
    keep_if (λ a. leb a.ends_at (z.to_utc starts_at))
      (keep_if (same_day z employee_id starts_at) items))

unfoldable pub following_of : Zone → Uuid → Local → Local → List Appointment → Option Appointment
unfolding earliest_start
following_of z employee_id starts_at ends_at items = earliest_start (
    keep_if (λ a. leb (z.to_utc ends_at) a.starts_at)
      (keep_if (same_day z employee_id starts_at) items))

-- Lines 1477 to 1524.
unfoldable pub combine_legs :
    Business → BookingRequirements → BookingPlan → TravelEstimate → TravelEstimate → BookingPlan
combine_legs b q plan before after =
    let m = operational_buffers b.buffers q plan.service in
    let interval_before = m.interval / 2 in
    let available = before.available && after.available in
    let within = before.within_service_area && after.within_service_area in
    record {
      service = plan.service;
      travel = record {
        travel_minutes = max before.travel_minutes after.travel_minutes;
        distance_km = none;
        method = joined before.method after.method;
        estimated = before.estimated || after.estimated;
        within_service_area = within;
        available = available;
        origin_is_precise = before.origin_is_precise;
      };
      travel_before_minutes =
          before.travel_minutes + b.travel_before_buffer_minutes + m.preparation + interval_before;
      travel_after_minutes =
          after.travel_minutes
          + b.travel_after_buffer_minutes
          + m.finishing
          + (m.interval - interval_before);
      requires_handoff = plan.service.requires_human_quote || not available || not within;
      handoff_reason =
          if not available
          then some travel_estimate_unavailable
          else if not within
          then some address_outside_service_area
          else plan.handoff_reason;
    }

module _ (tools : TextTools) where
  blank_to_none : Option String → Option String
  blank_to_none none = none
  blank_to_none (some v) = if str_eq (tools.strip v) "" then none else some v

  -- `ServiceAddress.from_snapshot`
  unfoldable pub from_snapshot : Option ServiceAddress → Option ServiceAddress
  unfolding blank_to_none
  from_snapshot none = none
  from_snapshot (some a) =
      if str_eq (tools.strip a.address_line) ""
      then none
      else some (record {
        address_line = a.address_line;
        number = blank_to_none a.number;
        complement = blank_to_none a.complement;
        neighborhood = blank_to_none a.neighborhood;
        city = blank_to_none a.city;
        state = blank_to_none a.state;
        postal_code = blank_to_none a.postal_code;
      })

  abbrev imprecise : String → TravelOrigin
  imprecise address = record { address = address; is_precise = false }

  module _ (provider : RouteProvider) (b : Business) where
    leg : TravelOrigin → ServiceAddress → Result TravelEstimate
    leg o d = elim (estimate_travel_leg tools provider b o d) [
      | none ↦ err value_error
      | some t ↦ ok t
    ]

    before_from : ServiceAddress → Option ServiceAddress → Result TravelEstimate
    unfolding leg
    before_from destination none =
        ok (unavailable_travel_estimate (imprecise "Previous service location unavailable"))
    before_from destination (some a) = leg (imprecise (searchable_text tools a)) destination

    -- Lines 1431 to 1452.
    unfoldable pub leg_before :
        BookingPlan → ServiceAddress → Option Appointment → Result TravelEstimate
    unfolding before_from
    leg_before plan destination none = ok plan.travel
    leg_before plan destination (some p) = before_from destination (from_snapshot p.service_address)

    after_to : ServiceAddress → Option ServiceAddress → Result TravelEstimate
    unfolding leg
    after_to destination none =
        ok (unavailable_travel_estimate (imprecise (searchable_text tools destination)))
    after_to destination (some a) = leg (imprecise (searchable_text tools destination)) a

    -- Lines 1454 to 1475.
    unfoldable pub leg_after : ServiceAddress → Option Appointment → Result TravelEstimate
    unfolding after_to
    leg_after destination none = ok zero_travel_estimate
    leg_after destination (some f) = after_to destination (from_snapshot f.service_address)

    unfoldable pub plan_for_destination :
        BookingRequirements
        → BookingPlan
        → Uuid
        → Local
        → Local
        → List Appointment
        → ServiceAddress
        → Result BookingPlan
    plan_for_destination q plan employee_id starts_at ends_at items destination = do
      before ← leg_before plan destination (previous_of b.zone employee_id starts_at items)
      after ← leg_after destination (following_of b.zone employee_id starts_at ends_at items)
      ok (combine_legs b q plan before after)

    unfoldable pub schedule_aware_plan :
        BookingRequirements
        → BookingPlan
        → Uuid
        → Local
        → Local
        → List Appointment
        → Result BookingPlan
    unfolding plan_for_destination
    schedule_aware_plan q plan employee_id starts_at ends_at items = elim q.address [
      | none ↦ ok plan
      | some d ↦ plan_for_destination q plan employee_id starts_at ends_at items d
    ]
