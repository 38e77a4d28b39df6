-- ===== src/Booking/Examples/Search.antt =====
-- Offers on the small business, and the theorems on them.
use whatsapp_atendimentos_ag.Prelude.{◌≡◌, refl, true, none, List, [], ◌∷◌, ◌+◌, ◌*◌, All, Any}
use whatsapp_atendimentos_ag.Booking.Results.{Result, ok, err}
use whatsapp_atendimentos_ag.Booking.Slots.{Local, minute, day_length, combine}
use whatsapp_atendimentos_ag.Booking.Capacity.{CapacityData, Range}
use whatsapp_atendimentos_ag.Booking.Starts.{Offer, Search, Rows, offer, fits_range, service_end}
use whatsapp_atendimentos_ag.Booking.Starts.Complete.{scan_range_finds}
use whatsapp_atendimentos_ag.Booking.Starts.Sound.{CanStartFrom, available_starts-CanStart}
use whatsapp_atendimentos_ag.Booking.Examples.{tools, business, provider, requirements}
use whatsapp_atendimentos_ag.Booking.Travel.{
  zero_travel_estimate, configured_port, address_tokens, searchable_text,
  same_address_travel_estimate, effective_travel_method, by_method, estimate_travel_leg,
}
use whatsapp_atendimentos_ag.Booking.Capacity.{
  operating_ranges_for_day, conflicts_block, conflicts_appointment, has_conflict,
}
use whatsapp_atendimentos_ag.Booking.Buffers.{
  uncapped_buffers, operational_buffers, automatic_booking_notice_minutes,
}
use whatsapp_atendimentos_ag.Booking.Additions.{
  catalog_pricing_unit, catalog_charge_quantity, apply_catalog_additions,
}
use whatsapp_atendimentos_ag.Booking.Estimator.{with_units, estimate}
use whatsapp_atendimentos_ag.Booking.Starts.{
  load_capacity, accepts, try_candidate, scan_range, scan_days, earliest_allowed, search_for,
  available_starts,
}
use whatsapp_atendimentos_ag.Booking.Plan.{
  price_distance, price_delivery, assemble, plan_travel, plan_service, build_plan,
}
use whatsapp_atendimentos_ag.Booking.Schedule.{
  previous_of, following_of, combine_legs, leg_before, leg_after, schedule_aware_plan,
}
use whatsapp_atendimentos_ag.Booking.Slots.{ceil_to_slot, within_site_window}
use whatsapp_atendimentos_ag.Booking.Examples.Plans.{plan, scheduled}

-- The search of day 21, its technician and its hours.
abbrev rows : Rows
rows = record { eligible = 3 ∷ []; working_hours = []; blocks = []; appointments = [] }

abbrev day_capacity : CapacityData
day_capacity = record { employee_ids = 3 ∷ []; working_hours = []; blocks = []; appointments = [] }

abbrev search : Search
search = search_for tools provider business requirements plan day_capacity (14 * day_length)

abbrev hours : Range
hours = record { employee_id = 3; range_start = 540 * minute; range_end = 1020 * minute }

abbrev offers_or : Result (List Offer) → List Offer
offers_or (ok os) = os
offers_or (err e) = []

abbrev day_offers : List Offer
day_offers = offers_or (scan_range search 21 hours)

abbrev all_offers : List Offer
all_offers =
    offers_or
      (available_starts tools provider rows (14 * day_length) business requirements plan 21 21 none)

-- The first slot is ten, and the third eleven.
abbrev first_slot : Local
first_slot = combine 21 (600 * minute)

abbrev eleven : Local
eleven = combine 21 (660 * minute)

scan-facts :
    (scan_range search 21 hours ≡ ok day_offers)
    × (ceil_to_slot (combine 21 (540 * minute) + plan.travel_before_minutes * minute) 30
        ≡ ok first_slot)
    × (fits_range search (combine 21 (1020 * minute)) eleven ≡ true)
    × (schedule_aware_plan tools provider business requirements plan 3 eleven
          (service_end search eleven)
          []
        ≡ ok scheduled)
    × (accepts search 21 3 eleven scheduled ≡ true)
unfolding zero_travel_estimate configured_port address_tokens searchable_text
    same_address_travel_estimate effective_travel_method by_method conflicts_block
    conflicts_appointment has_conflict uncapped_buffers operational_buffers
    automatic_booking_notice_minutes catalog_pricing_unit catalog_charge_quantity
    apply_catalog_additions with_units estimate accepts try_candidate scan_days earliest_allowed
    search_for price_distance price_delivery assemble plan_travel plan_service build_plan
    previous_of following_of combine_legs leg_before leg_after schedule_aware_plan ceil_to_slot
    within_site_window
scan-facts = (refl, refl, refl, refl, refl)

scan_range_finds_example : Any (λ o. o ≡ offer eleven 3 scheduled) day_offers
unfolding search_for build_plan
scan_range_finds_example =
    scan_range_finds search 21 hours first_slot eleven 2 scheduled day_offers scan-facts.0
      scan-facts.1 refl scan-facts.2 scan-facts.3 scan-facts.4

available_well :
    available_starts tools provider rows (14 * day_length) business requirements plan 21 21 none
    ≡ ok all_offers
unfolding configured_port address_tokens searchable_text same_address_travel_estimate
    effective_travel_method estimate_travel_leg operating_ranges_for_day uncapped_buffers
    operational_buffers catalog_pricing_unit catalog_charge_quantity apply_catalog_additions
    with_units estimate load_capacity try_candidate scan_days search_for available_starts
    price_distance price_delivery assemble plan_travel plan_service build_plan previous_of
    following_of leg_before leg_after schedule_aware_plan ceil_to_slot
available_well = refl

available_starts-CanStart_example :
    (c : CapacityData) × (load_capacity rows
        (business.zone.to_utc (combine 21 0))
        (business.zone.to_utc (combine 22 0))
        none
      ≡ ok c)
    × All
        (CanStartFrom
          (search_for tools provider business requirements plan c (14 * day_length))
          21
          1)
        all_offers
available_starts-CanStart_example =
    available_starts-CanStart tools provider rows (14 * day_length) business requirements plan 21 21
      none all_offers available_well
