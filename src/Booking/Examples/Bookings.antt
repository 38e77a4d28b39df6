-- ===== src/Booking/Examples/Bookings.antt =====
-- Runs of `confirm` on the small business, and the theorems on their stores.
use whatsapp_atendimentos_ag.Prelude.{
  ◌≡◌, ◌≤◌, ◌<◌, ◌⊎◌, ◌↔◌, refl, true, none, List, [], ◌∷◌, All, arith,
}
use whatsapp_atendimentos_ag.Booking.Results.{Result, ok, err, slot_unavailable}
use whatsapp_atendimentos_ag.Booking.Ledger.{Store, exclusion_violated}
use whatsapp_atendimentos_ag.Booking.Capacity.{
  is_confirmed, Appointment, existing_start, existing_end,
}
use whatsapp_atendimentos_ag.Booking.Types.{base_duration}
use whatsapp_atendimentos_ag.Booking.Port.{BookingConfirmation}
use whatsapp_atendimentos_ag.Booking.Confirm.Laws.{IsFoundAgain}
use whatsapp_atendimentos_ag.Booking.Confirm.Again.{confirm_again, confirm_each-unavailable}
use whatsapp_atendimentos_ag.Booking.Confirm.Offered.{IsNewOffer, confirm-IsOffered}
use whatsapp_atendimentos_ag.Booking.History.{Reachable, at_first, after_step, confirmed_by}
use whatsapp_atendimentos_ag.Booking.History.Laws.{Reachable-apart}
use whatsapp_atendimentos_ag.Booking.Examples.{configuration, empty_store, port, database, request}
use whatsapp_atendimentos_ag.Booking.Port.{
  parse_date, parse_time, find_business, find_service, both, load_business_service,
  eligible_employees, rows_of, checked, exact_start,
}
use whatsapp_atendimentos_ag.Booking.Travel.{zero_travel_estimate}
use whatsapp_atendimentos_ag.Booking.Capacity.{
  operating_ranges_for_day, conflicts_block, conflicts_appointment, has_conflict,
}
use whatsapp_atendimentos_ag.Booking.Buffers.{
  uncapped_buffers, operational_buffers, automatic_booking_notice_minutes,
}
use whatsapp_atendimentos_ag.Booking.Additions.{apply_catalog_additions}
use whatsapp_atendimentos_ag.Booking.Ledger.{
  clash, same_key, flush, find_idempotent_appointment, queue_event,
}
use whatsapp_atendimentos_ag.Booking.Estimator.{human_quote, with_units, estimate}
use whatsapp_atendimentos_ag.Booking.Starts.{
  load_capacity, accepts, try_candidate, scan_days, earliest_allowed, search_for, available_starts,
  employees_for_exact_start, minimum_bookable_date,
}
use whatsapp_atendimentos_ag.Booking.Confirm.{
  idempotent_hit, new_appointment, add_appointment, after_flush, confirm_each, rows_to_try, prepare,
  confirm_new, confirm_unless, confirm,
}
use whatsapp_atendimentos_ag.Booking.Plan.{
  price_distance, outside_radius, price_delivery, assemble, plan_travel, plan_service, build_plan,
  require_automatic_plan,
}
use whatsapp_atendimentos_ag.Booking.Schedule.{schedule_aware_plan}
use whatsapp_atendimentos_ag.Booking.Slots.{ceil_to_slot, overlaps, within_site_window}
use whatsapp_atendimentos_ag.Booking.Port.{
  parse_date, parse_time, find_business, find_service, both, load_business_service,
  eligible_employees, rows_of, checked, exact_start,
}
use whatsapp_atendimentos_ag.Booking.Travel.{zero_travel_estimate}
use whatsapp_atendimentos_ag.Booking.Capacity.{
  operating_ranges_for_day, conflicts_block, conflicts_appointment, has_conflict,
}
use whatsapp_atendimentos_ag.Booking.Buffers.{
  uncapped_buffers, operational_buffers, automatic_booking_notice_minutes,
}
use whatsapp_atendimentos_ag.Booking.Additions.{apply_catalog_additions}
use whatsapp_atendimentos_ag.Booking.Ledger.{
  clash, same_key, flush, find_idempotent_appointment, queue_event,
}
use whatsapp_atendimentos_ag.Booking.Estimator.{human_quote, with_units, estimate}
use whatsapp_atendimentos_ag.Booking.Starts.{
  load_capacity, accepts, try_candidate, scan_days, earliest_allowed, search_for, available_starts,
  employees_for_exact_start, minimum_bookable_date,
}
use whatsapp_atendimentos_ag.Booking.Confirm.{
  idempotent_hit, new_appointment, add_appointment, after_flush, confirm_each, rows_to_try, prepare,
  confirm_new, confirm_unless, confirm,
}
use whatsapp_atendimentos_ag.Booking.Plan.{
  price_distance, outside_radius, price_delivery, assemble, plan_travel, plan_service, build_plan,
  require_automatic_plan,
}
use whatsapp_atendimentos_ag.Booking.Schedule.{schedule_aware_plan}
use whatsapp_atendimentos_ag.Booking.Slots.{ceil_to_slot, overlaps, within_site_window}

abbrev no_answer : BookingConfirmation × Store
no_answer =
    (record { appointment_id = 0; starts_at = 0; ends_at = 0; employee_id = 0 }, empty_store)

abbrev pub answer : Result (BookingConfirmation × Store) → BookingConfirmation × Store
answer (ok x) = x
answer (err e) = no_answer

-- A booking of the morning of day 21, and after it one of the afternoon.
abbrev pub first : BookingConfirmation × Store
first = answer (confirm port database 11 (request "10:00" "key-1") empty_store)

abbrev second : BookingConfirmation × Store
second = answer (confirm port database 12 (request "14:00" "key-2") first.1)

-- The row that another customer would get for the morning.
abbrev third : BookingConfirmation × Store
third = answer (confirm port database 13 (request "10:00" "key-3") empty_store)

abbrev no_row : Appointment
no_row = new_appointment 0 (request "" "") 0 0 (record {
  service = human_quote configuration base_duration;
  travel = zero_travel_estimate;
  travel_before_minutes = 0;
  travel_after_minutes = 0;
  requires_handoff = true;
  handoff_reason = none;
})

abbrev newest : List Appointment → Appointment
newest [] = no_row
newest (a ∷ rows) = a

first-runs : confirm port database 11 (request "10:00" "key-1") empty_store ≡ ok first
unfolding parse_date parse_time find_business find_service both load_business_service
    eligible_employees rows_of checked exact_start zero_travel_estimate operating_ranges_for_day
    conflicts_block conflicts_appointment has_conflict uncapped_buffers operational_buffers
    automatic_booking_notice_minutes apply_catalog_additions flush find_idempotent_appointment
    with_units estimate load_capacity accepts try_candidate scan_days earliest_allowed search_for
    available_starts employees_for_exact_start minimum_bookable_date idempotent_hit after_flush
    confirm_each rows_to_try prepare confirm_new confirm_unless confirm price_distance
    outside_radius price_delivery assemble plan_travel plan_service build_plan
    require_automatic_plan schedule_aware_plan ceil_to_slot within_site_window
first-runs = refl

second-runs : confirm port database 12 (request "14:00" "key-2") first.1 ≡ ok second
unfolding parse_date parse_time find_business find_service both load_business_service
    eligible_employees rows_of checked exact_start zero_travel_estimate operating_ranges_for_day
    conflicts_block conflicts_appointment has_conflict uncapped_buffers operational_buffers
    automatic_booking_notice_minutes apply_catalog_additions clash same_key flush
    find_idempotent_appointment queue_event with_units estimate load_capacity accepts try_candidate
    scan_days earliest_allowed search_for available_starts employees_for_exact_start
    minimum_bookable_date idempotent_hit new_appointment add_appointment after_flush confirm_each
    rows_to_try prepare confirm_new confirm_unless confirm price_distance outside_radius
    price_delivery assemble plan_travel plan_service build_plan require_automatic_plan
    schedule_aware_plan ceil_to_slot overlaps within_site_window
second-runs = refl

confirm_again_example :
    confirm port database 13 (request "14:00" "key-1") first.1 ≡ ok (first.0, first.1)
confirm_again_example =
    confirm_again port port database database 11 13 (request "10:00" "key-1")
      (request "14:00" "key-1") empty_store first.1 first.0 "key-1" refl refl refl refl first-runs

confirm-IsOffered_example :
    IsFoundAgain (request "14:00" "key-2") first.1 second.0 second.1
    ⊎ IsNewOffer port (request "14:00" "key-2") first.1 second.0 second.1
confirm-IsOffered_example =
    confirm-IsOffered port database 12 (request "14:00" "key-2") first.1 second.1 second.0
      second-runs

two-Reachable : Reachable second.1
two-Reachable =
    after_step first.1 second.1
      (after_step empty_store first.1 (at_first empty_store refl) (
        confirmed_by port database 11 (request "10:00" "key-1") empty_store first.1 first.0
          first-runs))
      (confirmed_by port database 12 (request "14:00" "key-2") first.1 second.1 second.0
        second-runs)

abbrev row_of : BookingConfirmation × Store → Appointment
row_of (c, st) = newest st.appointments

two-rows : second.1.appointments ≡ row_of second ∷ row_of first ∷ []
unfolding parse_date parse_time find_business find_service both load_business_service
    eligible_employees rows_of checked exact_start zero_travel_estimate operating_ranges_for_day
    conflicts_block conflicts_appointment has_conflict uncapped_buffers operational_buffers
    automatic_booking_notice_minutes apply_catalog_additions clash same_key flush
    find_idempotent_appointment queue_event with_units estimate load_capacity accepts try_candidate
    scan_days earliest_allowed search_for available_starts employees_for_exact_start
    minimum_bookable_date idempotent_hit new_appointment add_appointment after_flush confirm_each
    rows_to_try prepare confirm_new confirm_unless confirm price_distance outside_radius
    price_delivery assemble plan_travel plan_service build_plan require_automatic_plan
    schedule_aware_plan ceil_to_slot overlaps within_site_window
two-rows = refl

-- The two rows are confirmed, of one technician, and each takes some time.
two-facts :
    (is_confirmed (row_of second).status ≡ true)
    × (is_confirmed (row_of first).status ≡ true)
    × ((row_of second).employee_id ≡ (row_of first).employee_id)
    × (existing_start (row_of second) < existing_end (row_of second))
    × (existing_start (row_of first) < existing_end (row_of first))
unfolding parse_date parse_time find_business find_service both load_business_service
    eligible_employees rows_of checked exact_start zero_travel_estimate operating_ranges_for_day
    conflicts_block conflicts_appointment has_conflict uncapped_buffers operational_buffers
    automatic_booking_notice_minutes apply_catalog_additions clash same_key flush
    find_idempotent_appointment queue_event with_units estimate load_capacity accepts try_candidate
    scan_days earliest_allowed search_for available_starts employees_for_exact_start
    minimum_bookable_date idempotent_hit new_appointment add_appointment after_flush confirm_each
    rows_to_try prepare confirm_new confirm_unless confirm price_distance outside_radius
    price_delivery assemble plan_travel plan_service build_plan require_automatic_plan
    schedule_aware_plan ceil_to_slot overlaps within_site_window
two-facts = (refl, refl, refl, omega arith, omega arith)

Reachable-apart_example :
    (existing_end (row_of second) ≤ existing_start (row_of first))
    ⊎ (existing_end (row_of first) ≤ existing_start (row_of second))
Reachable-apart_example =
    Reachable-apart second.1 [] (row_of second) [] (row_of first) [] two-Reachable two-rows
      two-facts.0 two-facts.1 two-facts.2 two-facts.3 two-facts.4

confirm_each-unavailable_example :
    (confirm_each database (request "10:00" "key-3") first.1 (row_of third ∷ [])
      ≡ err slot_unavailable)
    ↔ All (λ a. flush database first.1.appointments a ≡ exclusion_violated) (row_of third ∷ [])
confirm_each-unavailable_example =
    confirm_each-unavailable database (request "10:00" "key-3") first.1 (row_of third ∷ [])
