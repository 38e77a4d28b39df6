-- ===== src/Booking/Examples.antt =====
-- A small business on which the examples run: one technician, one service, open on weekdays from
-- nine to five in UTC, and a route provider that answers 20 km in 30 minutes.
mod Estimates
mod Plans
mod Search
mod Bookings
mod Changes
use Prim.Native.String.{String}
use text.Mathlib.Text.{◌==◌ as str_eq}
use whatsapp_atendimentos_ag.Prelude.{
  ℕ, zero, suc, ◌+◌, ◌-◌, ◌*◌, Bool, true, false, Option, none, some, List, [], ◌∷◌, if◌then◌else◌,
}
use whatsapp_atendimentos_ag.Booking.Types.{
  BookingRequirements, normal, difficult, no_fulfillment, ServiceConfiguration, estimated,
  ServiceAddress, standard, route, TravelOrigin, TravelEstimate, provider_method, conservative,
}
use whatsapp_atendimentos_ag.Booking.Buffers.{BufferSettings}
use whatsapp_atendimentos_ag.Booking.Types.{ServiceEstimate}
use whatsapp_atendimentos_ag.Booking.Estimator.{estimate}
use whatsapp_atendimentos_ag.Booking.Slots.{Zone, day_length, minute}
use whatsapp_atendimentos_ag.Booking.Capacity.{OperatingHours}
use whatsapp_atendimentos_ag.Booking.Business.{TextTools, Business, Service, CatalogItem}
use whatsapp_atendimentos_ag.Booking.Travel.{RouteProvider}
use whatsapp_atendimentos_ag.Booking.Ledger.{Store, Database}
use whatsapp_atendimentos_ag.Booking.Port.{Port, BusinessRow, ServiceRow, EmployeeRow}
use whatsapp_atendimentos_ag.Booking.Confirm.{Request}

abbrev pub tools : TextTools
tools = record {
  strip = λ s. s;
  normalize = λ s. s;
  fold_words = λ s. s;
  address_words = λ s. s ∷ [];
  is_digit = λ s. str_eq s "100";
  is_alpha = λ s. str_eq s "A";
  size = λ s. 3;
  join_words = λ ws. "";
  contains = λ text needle. str_eq text needle;
  has_street_and_number = λ s. true;
}

abbrev pub utc : Zone
utc = record { to_utc = λ t. t; to_local = λ t. t; month = λ d. 6; day_of_month = λ d. 2 }

abbrev pub weekdays : OperatingHours
weekdays = record {
  operating_weekdays = 0 ∷ 1 ∷ 2 ∷ 3 ∷ 4 ∷ [];
  weekday_start_time = some (540 * minute);
  weekday_end_time = some (1020 * minute);
  weekend_holiday_enabled = false;
  weekend_holiday_start_time = none;
  weekend_holiday_end_time = none;
}

abbrev pub automatic_margins : BufferSettings
automatic_margins = record {
  preparation_minutes = some 10;
  finishing_minutes = none;
  interval_between_services_minutes = none;
}

abbrev pub business : Business
business = record {
  zone = utc;
  hours = weekdays;
  buffers = automatic_margins;
  slot_interval_minutes = 30;
  minimum_booking_notice_minutes = none;
  service_origin_address = some "Rua das Flores, 100";
  service_origin_street = some "Rua das Flores";
  service_origin_number = some "100";
  service_origin_city = some "Campinas";
  service_origin_state = some "SP";
  service_origin_validated_at = some 1;
  service_origin_is_precise = true;
  travel_calculation_method = some route;
  default_travel_minutes = none;
  travel_fallback_allowed = false;
  travel_region_rules = [];
  travel_before_buffer_minutes = 5;
  travel_after_buffer_minutes = 5;
  service_radius_km = some 5000;
  service_distance_included_km = none;
  service_distance_fee_per_km = none;
  equipment_delivery_fee_per_km = none;
}

abbrev pub configuration : ServiceConfiguration
configuration = record {
  duration_minutes = 60;
  base_price = some 20000;
  pricing_type = estimated;
  automatic_booking = true;
  included_quantity = 1;
  additional_unit_duration_minutes = 30;
  additional_unit_price = some 8000;
  requires_address = false;
  requires_quantity = false;
  considers_difficult_access = true;
  difficult_access_duration_minutes = 45;
  difficult_access_price = some 5000;
  unknown_access_policy = conservative;
  duration_margin_minutes = 15;
}

abbrev pub service : Service
service = record {
  configuration = some configuration;
  asks_tubing_length = true;
  included_tubing_meters = some 300;
}

abbrev pub tubing : CatalogItem
tubing = record { unit_label = some "metro"; price = some 4500 }

abbrev pub address : ServiceAddress
address = record {
  address_line = "Avenida Brasil";
  number = some "7";
  complement = none;
  neighborhood = none;
  city = some "Campinas";
  state = some "SP";
  postal_code = none;
}

abbrev pub provider : RouteProvider
provider = some (λ o d. record {
  travel_minutes = 30;
  distance_km = some 2000;
  method = provider_method "route";
  estimated = false;
  within_service_area = true;
  available = true;
  origin_is_precise = true;
})

-- Two units, difficult access, an address and six metres of tubing.
abbrev pub requirements : BookingRequirements
requirements = record {
  quantity = some 2;
  access_condition = difficult;
  address = some address;
  site_allowed_start = none;
  site_allowed_end = none;
  tubing_meters = some 600;
  fulfillment_type = no_fulfillment;
  tubing_item_quantity = none;
  cleaning_outreach_id = none;
  idempotency_key = some "key-1";
}

-- A request without an address, whose travel is none.
abbrev pub at_workshop : String → BookingRequirements
at_workshop key = record {
  quantity = some 1;
  access_condition = normal;
  address = none;
  site_allowed_start = none;
  site_allowed_end = none;
  tubing_meters = some 300;
  fulfillment_type = no_fulfillment;
  tubing_item_quantity = none;
  cleaning_outreach_id = none;
  idempotency_key = some key;
}

-- The clock stands at the start of a Monday, day 14 of the calendar; the texts name days 21 and 22.
abbrev pub port : Port
port = record {
  businesses = record { id = 1; active = true; columns = business } ∷ [];
  services =
      record {
        id = 2;
        business_id = 1;
        active = true;
        columns = service;
        tubing_item = some tubing;
      }
      ∷ [];
  employees =
      record { id = 3; business_id = 1; service_id = 2; active = true; is_technician = true } ∷ [];
  working_hours = λ b. [];
  blocks = λ b. [];
  tools = tools;
  provider = provider;
  now = 14 * day_length;
  date_fromisoformat = λ s.
      if str_eq s "0001-01-22" then some 21 else if str_eq s "0001-01-23" then some 22 else none;
  isoformat = λ d. elim d [ zero ↦ "0001-01-01" | suc n ↦ "0001-01-22" ];
  time_fromisoformat =
      λ s. if str_eq s "10:00" then some (600 * minute, false) else some (840 * minute, false);
  hours_and_minutes = λ t. elim (t - 600 * minute) [ zero ↦ "10:00" | suc n ↦ "14:00" ];
}

abbrev pub database : Database
database = record { checks = λ a. true; foreign_keys = λ a. true; exclusion_before_key = true }

abbrev pub empty_store : Store
empty_store = record {
  appointments = [];
  notifications = [];
  push_events = [];
  outreaches = [];
  queued_events = [];
}

abbrev pub request : String → String → Request
request time key = record {
  business_id = 1;
  customer_id = 4;
  service_id = 2;
  selected_date = "0001-01-22";
  selected_time = time;
  requirements = at_workshop key;
}

-- The estimate of the first requirements.
abbrev pub quoted : ServiceEstimate
quoted = estimate configuration requirements
