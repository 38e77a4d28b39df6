-- ===== src/Booking/Estimator.antt =====
-- app/booking/estimator.py: `ServiceEstimator.estimate`, stage by stage. An early return of a human
-- quote is `none` of the access stage, or the branch that builds the quote.
pub mod Laws
use whatsapp_atendimentos_ag.Prelude.{
  ℕ, ◌+◌, ◌-◌, ◌*◌, Bool, true, false, not, ◌&&◌, ◌||◌, Option, none, some, List, [], ◌∷◌, ◌++◌,
  ltb, ◌==◌, if◌then◌else◌, is_none, get_or,
}
use whatsapp_atendimentos_ag.Booking.Types.{
  PricingType, AccessCondition, normal, difficult, unknown, UnknownAccessPolicy, standard,
  conservative, Cents, Minutes, BookingRequirements, ServiceConfiguration, Rule, base_duration,
  additional_units, unknown_access_conservative, unknown_access_standard, difficult_access,
  duration_margin, additional_units_count, additional_units_price, difficult_access_price,
  quantity_required, unknown_access, address_required, human_quote_configuration, fixed_value,
  estimated_value, human_quote_value, Qualifier, ServiceEstimate,
}

-- The local variables `duration`, `price` and `rules`.
pub record Running : Type 0 where
  pub duration : Minutes
  pub price : Option Cents
  pub rules : List Rule

unfoldable pub human_quote : ServiceConfiguration → Rule → ServiceEstimate
human_quote c reason = record {
  estimated_duration_minutes = c.duration_minutes + c.duration_margin_minutes;
  estimated_price = none;
  pricing_type = c.pricing_type;
  requires_human_quote = true;
  applied_rules = reason ∷ [];
  qualifier = human_quote_value;
}

-- `quantity or configuration.included_quantity`
abbrev pub quantity_or_included : ServiceConfiguration → Option ℕ → ℕ
quantity_or_included c none = c.included_quantity
quantity_or_included c (some q) = if q == 0 then c.included_quantity else q

add_price : Option Cents → Cents → Option Cents
add_price none extra = none
add_price (some p) extra = some (p + extra)

-- Lines 28 to 46: the units above the included quantity.
unfoldable pub with_units : ServiceConfiguration → ℕ → Running
unfolding add_price
with_units c quantity =
    let units = quantity - c.included_quantity in
    let units_price = get_or c.additional_unit_price 0 * units in
    if units == 0
    then record { duration = c.duration_minutes; price = c.base_price; rules = base_duration ∷ [] }
    else record {
      duration = c.duration_minutes + units * c.additional_unit_duration_minutes;
      price = add_price c.base_price units_price;
      rules =
          base_duration
          ∷ additional_units
          ∷ (if is_none c.base_price
              then []
              else additional_units_count units ∷ additional_units_price units_price ∷ []);
    }

-- Lines 58 to 69: what difficult access adds.
unfoldable pub add_difficult : ServiceConfiguration → Running → Running
unfolding add_price
add_difficult c r =
    let extra = get_or c.difficult_access_price 0 in
    record {
      duration = r.duration + c.difficult_access_duration_minutes;
      price = add_price r.price extra;
      rules =
          r.rules
          ++ ((if not (is_none r.price) && ltb 0 extra
                then difficult_access_price extra ∷ []
                else [])
              ++ difficult_access ∷ []);
    }

abbrev add_rule : Running → Rule → Running
add_rule r rule = record r { rules = r.rules ++ rule ∷ [] }

by_policy : ServiceConfiguration → Running → UnknownAccessPolicy → Option Running
unfolding add_difficult
by_policy c r UnknownAccessPolicy.human_quote = none
by_policy c r conservative = some (add_difficult c (add_rule r unknown_access_conservative))
by_policy c r standard = some (add_rule r unknown_access_standard)

by_access : ServiceConfiguration → Running → AccessCondition → Option Running
unfolding by_policy
by_access c r normal = some r
by_access c r difficult = some (add_difficult c r)
by_access c r unknown = by_policy c r c.unknown_access_policy

-- Lines 48 to 69; `none` is the human quote for an unknown access.
unfoldable pub with_access : ServiceConfiguration → BookingRequirements → Running → Option Running
unfolding by_access
with_access c q r =
    if c.considers_difficult_access then by_access c r q.access_condition else some r

-- Lines 71 to 73.
unfoldable pub with_margin : ServiceConfiguration → Running → Running
with_margin c r = record {
  duration = r.duration + c.duration_margin_minutes;
  price = r.price;
  rules = r.rules ++ (if c.duration_margin_minutes == 0 then [] else duration_margin ∷ []);
}

is_human_quote : PricingType → Bool
is_human_quote PricingType.human_quote = true
is_human_quote _ = false

qualifier_of : PricingType → Qualifier
qualifier_of PricingType.fixed = fixed_value
qualifier_of _ = estimated_value

-- Lines 75 to 96.
unfoldable pub conclude : ServiceConfiguration → BookingRequirements → Running → ServiceEstimate
unfolding human_quote is_human_quote qualifier_of
conclude c q r =
    if c.requires_address && is_none q.address
    then human_quote c address_required
    else if not c.automatic_booking || is_human_quote c.pricing_type || is_none r.price
    then human_quote c human_quote_configuration
    else record {
      estimated_duration_minutes = r.duration;
      estimated_price = r.price;
      pricing_type = c.pricing_type;
      requires_human_quote = false;
      applied_rules = r.rules;
      qualifier = qualifier_of c.pricing_type;
    }

finish : ServiceConfiguration → BookingRequirements → Option Running → ServiceEstimate
unfolding human_quote with_margin conclude
finish c q none = human_quote c unknown_access
finish c q (some r) = conclude c q (with_margin c r)

unfoldable pub estimate : ServiceConfiguration → BookingRequirements → ServiceEstimate
unfolding human_quote with_access finish
estimate c q =
    if c.requires_quantity && is_none q.quantity
    then human_quote c quantity_required
    else finish c q (with_access c q (with_units c (quantity_or_included c q.quantity)))
