-- ===== src/Booking/Travel.antt =====
-- app/booking/travel.py without the HTTP client, and the travel functions of
-- app/booking/availability.py. The route provider is a function that the caller may pass.
pub mod Laws
use Prim.Native.String.{String}
use text.Mathlib.Text.{◌==◌ as str_eq}
use whatsapp_atendimentos_ag.Prelude.{
  ℕ, Bool, true, false, not, ◌&&◌, ◌||◌, Option, none, some, List, [], ◌∷◌, ltb, leb, if◌then◌else◌,
  is_none, get_or, any, keep_if, length, map,
}
use whatsapp_atendimentos_ag.Booking.Types.{
  ServiceAddress, TravelOrigin, TravelEstimate, TravelMethod, same_address, region_rule,
  configured_fallback, unavailable, no_travel, TravelCalculationMethod, route, configured_estimate,
  Minutes,
}
use whatsapp_atendimentos_ag.Booking.Business.{TextTools, RegionRule, Business}

-- `TravelTimePort.estimate`, when a provider is configured.
abbrev pub RouteProvider : Type 0
RouteProvider = Option (TravelOrigin → ServiceAddress → TravelEstimate)

unfoldable pub zero_travel_estimate : TravelEstimate
zero_travel_estimate = record {
  travel_minutes = 0;
  distance_km = none;
  method = no_travel;
  estimated = false;
  within_service_area = true;
  available = true;
  origin_is_precise = false;
}

unfoldable pub unavailable_travel_estimate : TravelOrigin → TravelEstimate
unavailable_travel_estimate o = record {
  travel_minutes = 0;
  distance_km = none;
  method = unavailable;
  estimated = true;
  within_service_area = true;
  available = false;
  origin_is_precise = o.is_precise;
}

same_address_result : TravelOrigin → TravelEstimate
same_address_result o = record {
  travel_minutes = 0;
  distance_km = none;
  method = same_address;
  estimated = false;
  within_service_area = true;
  available = true;
  origin_is_precise = o.is_precise;
}

abbrev pub member : String → List String → Bool
member t ts = any (λ u. str_eq u t) ts

-- A Python set of texts as a list without repetition.
to_set : List String → List String
to_set [] = []
to_set (t ∷ ts) = let rest = to_set ts in if member t rest then rest else t ∷ rest

abbrev pub subset : List String → List String → Bool
subset xs ys = not (any (λ t. not (member t ys)) xs)

abbrev pub is_empty : List String → Bool
is_empty [] = true
is_empty (t ∷ ts) = false

-- `ConfiguredTravelTimePort`: what its constructor keeps, unless it raises.
pub record ConfiguredPort : Type 0 where
  pub fallback_minutes : Option Minutes
  pub fallback_allowed : Bool
  pub region_rules : List RegionRule

unfoldable pub configured_port : Business → Option ConfiguredPort
configured_port b =
    if b.travel_fallback_allowed && is_none b.default_travel_minutes
    then none
    else some (record {
      fallback_minutes = b.default_travel_minutes;
      fallback_allowed = b.travel_fallback_allowed;
      region_rules = b.travel_region_rules;
    })

unfoldable pub rule_estimate : TravelOrigin → RegionRule → Minutes → TravelEstimate
rule_estimate o r minutes = record {
  travel_minutes = minutes;
  distance_km = none;
  method = region_rule;
  estimated = true;
  within_service_area = r.served;
  available = true;
  origin_is_precise = o.is_precise;
}

unfoldable pub fallback_estimate : TravelOrigin → Bool → Option Minutes → TravelEstimate
unfolding unavailable_travel_estimate
fallback_estimate o allowed none = unavailable_travel_estimate o
fallback_estimate o allowed (some minutes) =
    if not allowed then unavailable_travel_estimate o else record {
      travel_minutes = minutes;
      distance_km = none;
      method = configured_fallback;
      estimated = true;
      within_service_area = true;
      available = true;
      origin_is_precise = o.is_precise;
    }

abbrev pub rule_or : TravelOrigin → RegionRule → Option Minutes → TravelEstimate → TravelEstimate
rule_or o r none rest = rest
rule_or o r (some minutes) rest = rule_estimate o r minutes

abbrev no_rules : List RegionRule → Bool
no_rules [] = true
no_rules (r ∷ rs) = false

-- Lines 968 to 976 and 1548 to 1553: a provider's estimate, marked by the origin's precision.
abbrev pub mark_origin : TravelOrigin → TravelEstimate → TravelEstimate
mark_origin o t = record t {
  estimated = t.estimated || not o.is_precise;
  origin_is_precise = o.is_precise;
}

module _ (tools : TextTools) where
  street_alias : String → String
  street_alias t =
      if str_eq t "r"
      then "rua"
      else if str_eq t "av" || str_eq t "avda"
      then "avenida"
      else if str_eq t "rod"
      then "rodovia"
      else t

  unfoldable pub address_tokens : String → List String
  unfolding street_alias to_set
  address_tokens value =
      to_set (map street_alias (keep_if (λ t. not (str_eq t "cep")) (tools.address_words value)))

  present : Option String → List String → List String
  present none rest = rest
  present (some v) rest = if str_eq (tools.strip v) "" then rest else tools.strip v ∷ rest

  -- `ServiceAddress.searchable_text`
  unfoldable pub searchable_text : ServiceAddress → String
  unfolding present
  searchable_text a = tools.join_words (
      present (some a.address_line) (
        present a.number (
          present a.complement (
            present a.neighborhood (present a.city (present a.state (present a.postal_code [])))))))

  abbrev pub share_number : List String → List String → Bool
  share_number xs ys = any (λ t. tools.is_digit t && member t ys) xs

  abbrev descriptive : List String → List String
  descriptive = keep_if (λ t. tools.is_alpha t && leb 5 (tools.size t))

  includes : List String → List String → Bool
  includes smaller larger =
      leb 5 (length smaller) && subset smaller larger && leb 2 (length (descriptive smaller))

  -- Lines 58 to 75.
  unfoldable pub equivalent_tokens : List String → List String → Bool
  unfolding includes
  equivalent_tokens xs ys =
      if subset xs ys && subset ys xs
      then true
      else if leb (length xs) (length ys)
      then includes xs ys
      else includes ys xs

  unfoldable pub same_address_travel_estimate :
      TravelOrigin → ServiceAddress → Option TravelEstimate
  unfolding same_address_result
  same_address_travel_estimate o d =
      let xs = address_tokens o.address in
      let ys = address_tokens (searchable_text d) in
      if is_empty xs || is_empty ys
      then none
      else if not (share_number xs ys)
      then none
      else if equivalent_tokens xs ys
      then some (same_address_result o)
      else none

  -- The minutes of a rule that is trusted, well formed and matches the destination.
  unfoldable pub rule_minutes : String → RegionRule → Option Minutes
  rule_minutes text r = elim r.match_text [
    | none ↦ none
    | some m ↦
        if not r.trusted
          || str_eq (tools.strip m) ""
          || not (tools.contains (tools.normalize m) text)
        then none
        else r.minutes
  ]

  -- The loop over the rules: the first that applies decides.
  unfoldable pub by_rules :
      TravelOrigin → String → List RegionRule → TravelEstimate → TravelEstimate
  unfolding rule_minutes rule_estimate
  by_rules o text [] otherwise = otherwise
  by_rules o text (r ∷ rs) otherwise =
      rule_or o r (rule_minutes text r) (by_rules o text rs otherwise)

  unfoldable pub configured_port_estimate :
      ConfiguredPort → TravelOrigin → ServiceAddress → TravelEstimate
  unfolding by_rules fallback_estimate
  configured_port_estimate p o d = get_or (same_address_travel_estimate o d) (
      by_rules o (tools.normalize (searchable_text d)) p.region_rules
        (fallback_estimate o p.fallback_allowed p.fallback_minutes))

  abbrev filled : Option String → Bool
  filled none = false
  filled (some v) = not (str_eq (tools.strip v) "")

  unfoldable pub has_validated_structured_origin : Business → Bool
  has_validated_structured_origin b =
      if not (is_none b.service_origin_validated_at)
        || (filled b.service_origin_street
            && filled b.service_origin_number
            && filled b.service_origin_city
            && filled b.service_origin_state)
      then true
      else tools.has_street_and_number (get_or b.service_origin_address "")

  effective_from : Business → Bool → TravelCalculationMethod → TravelCalculationMethod
  effective_from b provider route = route
  effective_from b provider configured_estimate =
      if provider
        && has_validated_structured_origin b
        && not b.travel_fallback_allowed
        && no_rules b.travel_region_rules
      then route
      else configured_estimate

  -- `_effective_travel_method`; `none` is the ValueError of an unknown method.
  unfoldable pub effective_travel_method : Business → Bool → Option TravelCalculationMethod
  unfolding effective_from
  effective_travel_method b route_provider_available = elim b.travel_calculation_method [
    | none ↦ none
    | some m ↦ some (effective_from b route_provider_available m)
  ]

  unfoldable pub by_method :
      RouteProvider
      → TravelCalculationMethod
      → ConfiguredPort
      → TravelOrigin
      → ServiceAddress
      → TravelEstimate
  by_method (some provider) route p o d = mark_origin o (provider o d)
  by_method none route p o d = configured_port_estimate p o d
  by_method provider configured_estimate p o d = configured_port_estimate p o d

  -- `_estimate_travel_leg`. Its constructor of the configured port stands outside the `try`; the
  -- table's check NOT travel_fallback_allowed OR default_travel_minutes IS NOT NULL keeps it from
  -- raising, and where it would raise this is `none`.
  unfoldable pub estimate_travel_leg :
      RouteProvider → Business → TravelOrigin → ServiceAddress → Option TravelEstimate
  unfolding by_method
  estimate_travel_leg provider b o d = elim (same_address_travel_estimate o d) [
    | some estimate ↦ some estimate
    | none ↦ elim (configured_port b) [
      | none ↦ none
      | some p ↦ elim (effective_travel_method b (not (is_none provider))) [
        | none ↦ some (unavailable_travel_estimate o)
        | some m ↦ some (by_method provider m p o d)
      ]
    ]
  ]
