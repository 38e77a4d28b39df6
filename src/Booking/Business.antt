-- ===== src/Booking/Business.antt =====
-- The columns of `Business`, `Service` and `BusinessCatalogItem` (app/models/domain.py) that the
-- booking planner reads, and the text functions of Python that it calls.
use Prim.Native.String.{String}
use whatsapp_atendimentos_ag.Prelude.{ℕ, Bool, Option, List}
use whatsapp_atendimentos_ag.Booking.Types.{
  Cents, Hundredths, Minutes, TravelCalculationMethod, ServiceConfiguration,
}
use whatsapp_atendimentos_ag.Booking.Buffers.{BufferSettings}
use whatsapp_atendimentos_ag.Booking.Capacity.{OperatingHours}
use whatsapp_atendimentos_ag.Booking.Slots.{Instant, Zone}

-- `str`, `re` and `unicodedata` as the planner uses them.
pub record TextTools : Type 0 where
  -- value.strip()
  pub strip : String → String
  -- casefold, NFKD and removal of the combining characters
  pub normalize : String → String
  -- " ".join(value.strip().casefold().split())
  pub fold_words : String → String
  -- the words of the normalized text without its postal code
  pub address_words : String → List String
  pub is_digit : String → Bool
  pub is_alpha : String → Bool
  pub size : String → ℕ
  -- " ".join(parts)
  pub join_words : List String → String
  -- `needle in text`
  pub contains : String → String → Bool
  -- the two regular expressions of a street address with a number
  pub has_street_and_number : String → Bool

-- An entry of `travel_region_rules`. A field is `none` where the entry's value is of another type;
-- `served` is `rule.get("served", True) is not False`.
pub record RegionRule : Type 0 where
  pub trusted : Bool
  pub match_text : Option String
  pub minutes : Option Minutes
  pub served : Bool

pub record Business : Type 0 where
  pub zone : Zone
  pub hours : OperatingHours
  pub buffers : BufferSettings
  pub slot_interval_minutes : Minutes
  pub minimum_booking_notice_minutes : Option Minutes
  pub service_origin_address : Option String
  pub service_origin_street : Option String
  pub service_origin_number : Option String
  pub service_origin_city : Option String
  pub service_origin_state : Option String
  pub service_origin_validated_at : Option Instant
  pub service_origin_is_precise : Bool
  -- `none` where the text is no member of the enumeration
  pub travel_calculation_method : Option TravelCalculationMethod
  pub default_travel_minutes : Option Minutes
  pub travel_fallback_allowed : Bool
  pub travel_region_rules : List RegionRule
  pub travel_before_buffer_minutes : Minutes
  pub travel_after_buffer_minutes : Minutes
  pub service_radius_km : Option Hundredths
  pub service_distance_included_km : Option Hundredths
  pub service_distance_fee_per_km : Option Cents
  pub equipment_delivery_fee_per_km : Option Cents

pub record Service : Type 0 where
  -- `none` where the `ServiceConfiguration` cannot be built
  pub configuration : Option ServiceConfiguration
  pub asks_tubing_length : Bool
  pub included_tubing_meters : Option Hundredths

pub record CatalogItem : Type 0 where
  pub unit_label : Option String
  pub price : Option Cents
