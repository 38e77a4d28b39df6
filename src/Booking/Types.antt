-- ===== src/Booking/Types.antt =====
-- app/booking/domain.py: the value types of the booking core.
-- A price is a number of cents, a length or a distance a number of hundredths of a metre or of a
-- kilometre (the scale 2 of the columns), and a UUID is its number.
use Prim.Native.String.{String}
use whatsapp_atendimentos_ag.Prelude.{
  ℕ, ◌+◌, ◌/◌, ◌%◌, Bool, Option, List, ltb, ◌==◌, if◌then◌else◌,
}

abbrev pub Uuid : Type 0
Uuid = ℕ

abbrev pub Cents : Type 0
Cents = ℕ

abbrev pub Hundredths : Type 0
Hundredths = ℕ

abbrev pub Minutes : Type 0
Minutes = ℕ

-- A time of day, in microseconds since midnight.
abbrev pub TimeOfDay : Type 0
TimeOfDay = ℕ

-- `Decimal(...).quantize(Decimal("0.01"))` of a product of two numbers of scale 2: the default
-- rounding of `decimal`, half to even, of n / 100.
unfoldable pub quantize : ℕ → ℕ
quantize n =
    if ltb (n % 100) 50
    then n / 100
    else if n % 100 == 50
    then n / 100 + n / 100 % 2
    else n / 100 + 1

pub data PricingType : Type 0 where
  fixed estimated human_quote : PricingType

pub data AccessCondition : Type 0 where
  normal difficult unknown : AccessCondition

pub data UnknownAccessPolicy : Type 0 where
  standard conservative human_quote : UnknownAccessPolicy

pub data TravelCalculationMethod : Type 0 where
  route configured_estimate : TravelCalculationMethod

pub record ServiceAddress : Type 0 where
  pub address_line : String
  pub number : Option String
  pub complement : Option String
  pub neighborhood : Option String
  pub city : Option String
  pub state : Option String
  pub postal_code : Option String

pub record TravelOrigin : Type 0 where
  pub address : String
  pub is_precise : Bool

-- `operational_details["fulfillment_type"]`: the two values that the planner tests, or any other.
pub data Fulfillment : Type 0 where
  no_fulfillment equipment_delivery equipment_pickup : Fulfillment

pub record BookingRequirements : Type 0 where
  pub quantity : Option ℕ
  pub access_condition : AccessCondition
  pub address : Option ServiceAddress
  pub site_allowed_start : Option TimeOfDay
  pub site_allowed_end : Option TimeOfDay
  pub tubing_meters : Option Hundredths
  pub fulfillment_type : Fulfillment
  -- `operational_details["catalog_item_quantities"]["extra-tubing-meter"]`, when it is a number
  pub tubing_item_quantity : Option Hundredths
  -- `operational_details["cleaning_outreach_id"]`, when it is a string that reads as a UUID
  pub cleaning_outreach_id : Option Uuid
  pub idempotency_key : Option String

pub record ServiceConfiguration : Type 0 where
  pub duration_minutes : Minutes
  pub base_price : Option Cents
  pub pricing_type : PricingType
  pub automatic_booking : Bool
  pub included_quantity : ℕ
  pub additional_unit_duration_minutes : Minutes
  pub additional_unit_price : Option Cents
  pub requires_address : Bool
  pub requires_quantity : Bool
  pub considers_difficult_access : Bool
  pub difficult_access_duration_minutes : Minutes
  pub difficult_access_price : Option Cents
  pub unknown_access_policy : UnknownAccessPolicy
  pub duration_margin_minutes : Minutes

-- The pricing unit of a catalog item, after `_catalog_pricing_unit`.
pub data PricingUnit : Type 0 where
  metro unidade kit valor_fixo : PricingUnit
  other_unit : String → PricingUnit

-- The entries of `applied_rules`; one that the source formats with a number carries it.
pub data Rule : Type 0 where
  base_duration additional_units unknown_access_conservative unknown_access_standard : Rule
  difficult_access duration_margin : Rule
  additional_units_count additional_units_price difficult_access_price : ℕ → Rule
  quantity_required unknown_access address_required human_quote_configuration : Rule
  tubing_length_unknown extra_tubing_price_unconfigured base_price_required_for_extra_tubing : Rule
  extra_tubing_meters extra_tubing_charge_quantity extra_tubing_price : ℕ → Rule
  extra_tubing_unit extra_tubing_quantity_unconfirmed : PricingUnit → Rule
  service_distance_km service_distance_excess_km service_distance_fee : ℕ → Rule
  fulfillment_rule : Fulfillment → Rule
  equipment_delivery_fee_per_km : Rule

-- The texts that the source puts in `qualifier`.
pub data Qualifier : Type 0 where
  fixed_value estimated_value human_quote_value with_travel_fee : Qualifier
  base_value_tubing_checked_on_site material_checked_on_site base_price_not_configured : Qualifier
  base_value_quantity_to_confirm estimated_with_extra_tubing : Qualifier

pub record ServiceEstimate : Type 0 where
  pub estimated_duration_minutes : Minutes
  pub estimated_price : Option Cents
  pub pricing_type : PricingType
  pub requires_human_quote : Bool
  pub applied_rules : List Rule
  pub qualifier : Qualifier

pub data TravelMethod : Type 0 where
  same_address region_rule configured_fallback unavailable no_travel : TravelMethod
  provider_method : String → TravelMethod
  joined : TravelMethod → TravelMethod → TravelMethod

pub record TravelEstimate : Type 0 where
  pub travel_minutes : Minutes
  pub distance_km : Option Hundredths
  pub method : TravelMethod
  pub estimated : Bool
  pub within_service_area : Bool
  pub available : Bool
  pub origin_is_precise : Bool

pub data HandoffReason : Type 0 where
  service_estimate_requires_human_quote travel_estimate_unavailable : HandoffReason
  address_outside_service_area delivery_distance_unavailable : HandoffReason

pub record BookingPlan : Type 0 where
  pub service : ServiceEstimate
  pub travel : TravelEstimate
  pub travel_before_minutes : Minutes
  pub travel_after_minutes : Minutes
  pub requires_handoff : Bool
  pub handoff_reason : Option HandoffReason
