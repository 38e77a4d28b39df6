-- ===== src/Booking/Examples/Changes.antt =====
-- Runs of `cancel_booking` and `reschedule_booking_atomic` on the small business, and the theorems on
-- them.
use whatsapp_atendimentos_ag.Prelude.{◌≡◌, refl}
use whatsapp_atendimentos_ag.Booking.Results.{ok}
use whatsapp_atendimentos_ag.Booking.Ledger.{Store}
use whatsapp_atendimentos_ag.Booking.Port.{BookingConfirmation}
use whatsapp_atendimentos_ag.Booking.Change.Again.{cancel_again}
use whatsapp_atendimentos_ag.Booking.Examples.{port, database}
use whatsapp_atendimentos_ag.Booking.Port.{
  parse_date, parse_time, find_business, find_service, both, load_business_service,
  eligible_employees, rows_of, apply_snapshot, checked, exact_start,
}
use whatsapp_atendimentos_ag.Booking.Travel.{zero_travel_estimate}
use whatsapp_atendimentos_ag.Booking.Capacity.{
  operating_ranges_for_day, conflicts_block, conflicts_appointment, has_conflict,
}
use whatsapp_atendimentos_ag.Booking.Buffers.{
  uncapped_buffers, operational_buffers, automatic_booking_notice_minutes,
}
use whatsapp_atendimentos_ag.Booking.Change.{
  lock_customer_appointment, with_status, read_notification, cancel_row, cancel_booking,
  can_reschedule, rescheduled_row, after_update, reschedule_each, prepare_reschedule,
  reschedule_booking_atomic,
}
use whatsapp_atendimentos_ag.Booking.Additions.{apply_catalog_additions}
use whatsapp_atendimentos_ag.Booking.Ledger.{
  clash, same_key, flush, write_row, find_idempotent_appointment, queue_event,
}
use whatsapp_atendimentos_ag.Booking.Estimator.{with_units, estimate}
use whatsapp_atendimentos_ag.Booking.Starts.{
  load_capacity, accepts, try_candidate, scan_days, earliest_allowed, search_for, available_starts,
  employees_for_exact_start, minimum_bookable_date,
}
use whatsapp_atendimentos_ag.Booking.Confirm.{
  idempotent_hit, new_appointment, add_appointment, after_flush, confirm_each, rows_to_try, prepare,
  confirm_new, confirm_unless, confirm,
}
use whatsapp_atendimentos_ag.Booking.Plan.{
  price_distance, outside_radius, price_delivery, assemble, plan_travel, plan_service, build_plan,
  require_automatic_plan,
}
use whatsapp_atendimentos_ag.Booking.Schedule.{schedule_aware_plan}
use whatsapp_atendimentos_ag.Booking.Slots.{ceil_to_slot, overlaps, within_site_window}
use whatsapp_atendimentos_ag.Booking.Examples.{at_workshop}
use whatsapp_atendimentos_ag.Booking.Port.{
  parse_date, parse_time, find_business, find_service, both, load_business_service,
  eligible_employees, rows_of, apply_snapshot, checked, exact_start,
}
use whatsapp_atendimentos_ag.Booking.Travel.{zero_travel_estimate}
use whatsapp_atendimentos_ag.Booking.Capacity.{
  operating_ranges_for_day, conflicts_block, conflicts_appointment, has_conflict,
}
use whatsapp_atendimentos_ag.Booking.Buffers.{
  uncapped_buffers, operational_buffers, automatic_booking_notice_minutes,
}
use whatsapp_atendimentos_ag.Booking.Change.{
  lock_customer_appointment, with_status, read_notification, cancel_row, cancel_booking,
  can_reschedule, rescheduled_row, after_update, reschedule_each, prepare_reschedule,
  reschedule_booking_atomic,
}
use whatsapp_atendimentos_ag.Booking.Additions.{apply_catalog_additions}
use whatsapp_atendimentos_ag.Booking.Ledger.{
  clash, same_key, flush, write_row, find_idempotent_appointment, queue_event,
}
use whatsapp_atendimentos_ag.Booking.Estimator.{with_units, estimate}
use whatsapp_atendimentos_ag.Booking.Starts.{
  load_capacity, accepts, try_candidate, scan_days, earliest_allowed, search_for, available_starts,
  employees_for_exact_start, minimum_bookable_date,
}
use whatsapp_atendimentos_ag.Booking.Confirm.{
  idempotent_hit, new_appointment, add_appointment, after_flush, confirm_each, rows_to_try, prepare,
  confirm_new, confirm_unless, confirm,
}
use whatsapp_atendimentos_ag.Booking.Plan.{
  price_distance, outside_radius, price_delivery, assemble, plan_travel, plan_service, build_plan,
  require_automatic_plan,
}
use whatsapp_atendimentos_ag.Booking.Schedule.{schedule_aware_plan}
use whatsapp_atendimentos_ag.Booking.Slots.{ceil_to_slot, overlaps, within_site_window}
use whatsapp_atendimentos_ag.Booking.Examples.Bookings.{answer, first}

abbrev cancellation : BookingConfirmation × Store
cancellation = answer (cancel_booking 7 1 4 11 first.1)

cancellation-runs : cancel_booking 7 1 4 11 first.1 ≡ ok cancellation
unfolding parse_date parse_time find_business find_service both load_business_service
    eligible_employees rows_of checked exact_start zero_travel_estimate operating_ranges_for_day
    conflicts_block conflicts_appointment has_conflict uncapped_buffers operational_buffers
    automatic_booking_notice_minutes lock_customer_appointment cancel_row cancel_booking
    apply_catalog_additions flush find_idempotent_appointment queue_event with_units estimate
    load_capacity accepts try_candidate scan_days earliest_allowed search_for available_starts
    employees_for_exact_start minimum_bookable_date idempotent_hit new_appointment add_appointment
    after_flush confirm_each rows_to_try prepare confirm_new confirm_unless confirm price_distance
    outside_radius price_delivery assemble plan_travel plan_service build_plan
    require_automatic_plan schedule_aware_plan ceil_to_slot within_site_window
cancellation-runs = refl

cancel_again_example : cancel_booking 8 1 4 11 cancellation.1 ≡ ok (cancellation.0, cancellation.1)
cancel_again_example =
    cancel_again 7 8 1 4 11 first.1 cancellation.1 cancellation.0 cancellation-runs

-- The booking of the morning, moved to the afternoon.
abbrev moved : BookingConfirmation × Store
moved = answer (
    reschedule_booking_atomic port database 1 4 11 "0001-01-22" "14:00" (at_workshop "key-1")
      first.1)
