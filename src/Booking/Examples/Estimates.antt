-- ===== src/Booking/Examples/Estimates.antt =====
-- Estimates, margins, slots, conflicts and travel on the small business, and the theorems on them.
use whatsapp_atendimentos_ag.Prelude.{
  ◌≡◌, ◌≤◌, ◌<◌, ◌⊎◌, ◌↔◌, refl, true, false, none, some, List, [], ◌∷◌, ◌+◌, ◌-◌, ◌*◌, ◌%◌, Any,
  arith, is_none, get_or,
}
use whatsapp_atendimentos_ag.Booking.Types.{TravelOrigin, metro}
use whatsapp_atendimentos_ag.Booking.Results.{ok, err, invalid_slot_interval}
use whatsapp_atendimentos_ag.Booking.Slots.{Local, minute, day_length, combine}
use whatsapp_atendimentos_ag.Booking.Estimator.Laws.{
  needs_person, for_quantity, estimate_human_quote, estimate_price_iff, estimate_total,
  estimate_mono,
}
use whatsapp_atendimentos_ag.Booking.Slots.Laws.{ceil_to_slot_lem}
use whatsapp_atendimentos_ag.Booking.Capacity.{CapacityData}
use whatsapp_atendimentos_ag.Booking.Capacity.Laws.{BlockOf, BookingOf, has_conflict_iff}
use whatsapp_atendimentos_ag.Booking.Travel.{ConfiguredPort}
use whatsapp_atendimentos_ag.Booking.Travel.Laws.{
  Applies, IsSameAddress, IsFallback, configured_available,
}
use whatsapp_atendimentos_ag.Booking.Business.{RegionRule}
use whatsapp_atendimentos_ag.Booking.Examples.{
  quoted, tools, configuration, tubing, address, requirements,
}
use whatsapp_atendimentos_ag.Booking.Travel.{searchable_text, configured_port_estimate}
use whatsapp_atendimentos_ag.Booking.Capacity.{has_conflict}
use whatsapp_atendimentos_ag.Booking.Additions.{catalog_pricing_unit}
use whatsapp_atendimentos_ag.Booking.Estimator.{with_units, estimate}
use whatsapp_atendimentos_ag.Booking.Slots.{ceil_to_slot}

estimate_human_quote_example : quoted.requires_human_quote ≡ needs_person configuration requirements
estimate_human_quote_example = estimate_human_quote configuration requirements

estimate_price_iff_example : is_none quoted.estimated_price ≡ quoted.requires_human_quote
estimate_price_iff_example = estimate_price_iff configuration requirements

-- 60 + 30 + 45 + 15 minutes, and 200 + 80 + 50 in money.
estimate_total_example :
    (quoted.estimated_duration_minutes ≡ 150) × (quoted.estimated_price ≡ some 33000)
estimate_total_example = estimate_total configuration requirements 20000 refl refl

estimate_mono_example :
    ((estimate configuration (for_quantity requirements 1)).estimated_duration_minutes
      ≤ (estimate configuration (for_quantity requirements 3)).estimated_duration_minutes)
    × (get_or (estimate configuration (for_quantity requirements 1)).estimated_price 0
        ≤ get_or (estimate configuration (for_quantity requirements 3)).estimated_price 0)
estimate_mono_example =
    estimate_mono configuration requirements 20000 1 3 refl refl (omega arith) (omega arith)

-- A quarter past ten of day 21.
abbrev quarter_past : Local
quarter_past = combine 21 (615 * minute)

ceil_to_slot_lem_example :
    (ceil_to_slot quarter_past 0 ≡ err invalid_slot_interval)
    × (0 < 30
        → (slot : Local) × (ceil_to_slot quarter_past 30 ≡ ok slot)
          × (quarter_past ≤ slot)
          × (slot < quarter_past + 30 * minute)
          × ((slot - (quarter_past - quarter_past % day_length)) % (30 * minute) ≡ 0))
ceil_to_slot_lem_example = ceil_to_slot_lem quarter_past 30

abbrev capacity : CapacityData
capacity = record {
  employee_ids = 3 ∷ [];
  working_hours = [];
  blocks = record { employee_id = 3; starts_at = 10; ends_at = 20 } ∷ [];
  appointments = [];
}

has_conflict_iff_example :
    (has_conflict 3 15 30 capacity ≡ true)
    ↔ (Any (BlockOf 3 15 30) capacity.blocks ⊎ Any (BookingOf 3 15 30) capacity.appointments)
has_conflict_iff_example = has_conflict_iff 3 15 30 capacity

abbrev rules : List RegionRule
rules =
    record { trusted = false; match_text = some ""; minutes = some 20; served = true }
    ∷ record { trusted = true; match_text = some ""; minutes = some 25; served = true }
    ∷ []

abbrev origin : TravelOrigin
origin = record { address = "Rua das Flores, 100"; is_precise = true }

abbrev region_port : ConfiguredPort
region_port = record { region_rules = rules; fallback_allowed = false; fallback_minutes = none }

configured_available_example :
    ((configured_port_estimate tools region_port origin address).available ≡ true) ↔ (
      IsSameAddress tools origin address
      ⊎ (Any
            (Applies tools (tools.normalize (searchable_text tools address)))
            region_port.region_rules
          ⊎ IsFallback tools region_port))
configured_available_example = configured_available tools region_port origin address

by_metro : catalog_pricing_unit tools tubing.unit_label (some metro) ≡ metro
unfolding catalog_pricing_unit
by_metro = refl

quoted-price : quoted.estimated_price ≡ some 33000
unfolding with_units estimate
quoted-price = refl
