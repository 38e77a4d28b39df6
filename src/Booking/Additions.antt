-- ===== src/Booking/Additions.antt =====
-- app/booking/availability.py: the price of extra tubing (`_catalog_pricing_unit`,
-- `_catalog_charge_quantity`, `_apply_catalog_additions`).
pub mod Laws
use Prim.Native.String.{String}
use text.Mathlib.Text.{◌==◌ as str_eq}
use whatsapp_atendimentos_ag.Prelude.{
  ℕ, ◌+◌, ◌-◌, ◌*◌, Bool, true, false, not, ◌||◌, Option, none, some, List, [], ◌∷◌, ◌++◌, ltb,
  ◌==◌, if◌then◌else◌, is_none, get_or,
}
use whatsapp_atendimentos_ag.Booking.Types.{
  Cents, Hundredths, quantize, PricingType, estimated, BookingRequirements, PricingUnit, metro,
  unidade, kit, valor_fixo, other_unit, Rule, tubing_length_unknown,
  extra_tubing_price_unconfigured, base_price_required_for_extra_tubing, extra_tubing_meters,
  extra_tubing_charge_quantity, extra_tubing_price, extra_tubing_unit,
  extra_tubing_quantity_unconfirmed, ServiceEstimate, base_value_tubing_checked_on_site,
  material_checked_on_site, base_price_not_configured, base_value_quantity_to_confirm,
  estimated_with_extra_tubing,
}
use whatsapp_atendimentos_ag.Booking.Business.{TextTools, Service, CatalogItem}

-- The dictionary `aliases`.
aliased_unit : String → Option PricingUnit
aliased_unit t =
    if str_eq t "metro" || str_eq t "por metro" || str_eq t "m"
    then some metro
    else if str_eq t "unidade" || str_eq t "por unidade" || str_eq t "unit"
    then some unidade
    else if str_eq t "kit" || str_eq t "por kit"
    then some kit
    else if str_eq t "valor fixo" || str_eq t "fixo" || str_eq t "fixed"
    then some valor_fixo
    else none

unfoldable pub catalog_pricing_unit : TextTools → Option String → Option PricingUnit → PricingUnit
unfolding aliased_unit
catalog_pricing_unit tools value default =
    let normalized = tools.fold_words (get_or value "") in
    get_or (aliased_unit normalized)
      (get_or default (if str_eq normalized "" then unidade else other_unit normalized))

positive : Option Hundredths → Option Hundredths
positive none = none
positive (some q) = if q == 0 then none else some q

-- The source normalizes its label again; every label that reaches it is normalized already.
unfoldable pub catalog_charge_quantity :
    PricingUnit → Option Hundredths → Option Hundredths → Option Hundredths
unfolding positive
catalog_charge_quantity valor_fixo measured explicit = some 100
catalog_charge_quantity metro measured explicit = positive measured
catalog_charge_quantity _ measured explicit = positive explicit

-- Lines 1112 to 1131: the length is not known.
unknown_length : ServiceEstimate → ServiceEstimate
unknown_length e = if e.requires_human_quote then e else record e {
  pricing_type = if is_none e.estimated_price then e.pricing_type else estimated;
  requires_human_quote = false;
  qualifier = base_value_tubing_checked_on_site;
  applied_rules = e.applied_rules ++ tubing_length_unknown ∷ [];
}

-- Lines 1144 to 1158: the material has no price.
unpriced_material : ServiceEstimate → Hundredths → ServiceEstimate
unpriced_material e extra = if e.requires_human_quote then e else record e {
  estimated_price = none;
  pricing_type = estimated;
  requires_human_quote = false;
  qualifier = material_checked_on_site;
  applied_rules =
      e.applied_rules ++ extra_tubing_meters extra ∷ extra_tubing_price_unconfigured ∷ [];
}

-- Lines 1173 to 1182.
missing_base : ServiceEstimate → ServiceEstimate
missing_base e = record e {
  requires_human_quote = true;
  qualifier = base_price_not_configured;
  applied_rules = e.applied_rules ++ base_price_required_for_extra_tubing ∷ [];
}

-- Lines 1184 to 1217.
charge :
    ServiceEstimate → Hundredths → PricingUnit → Cents → Cents → Option Hundredths → ServiceEstimate
unfolding quantize
charge e extra unit price base none = record e {
  estimated_price = some base;
  pricing_type = estimated;
  requires_human_quote = false;
  qualifier = base_value_quantity_to_confirm;
  applied_rules =
      e.applied_rules
      ++ extra_tubing_meters extra
        ∷ extra_tubing_unit unit
        ∷ extra_tubing_quantity_unconfirmed unit
        ∷ [];
}
charge e extra unit price base (some quantity) = record e {
  estimated_price = some (base + quantize (quantity * price));
  pricing_type = estimated;
  qualifier = estimated_with_extra_tubing;
  applied_rules =
      e.applied_rules
      ++ extra_tubing_meters extra
        ∷ extra_tubing_unit unit
        ∷ extra_tubing_charge_quantity quantity
        ∷ extra_tubing_price (quantize (quantity * price))
        ∷ [];
}

priced :
    ServiceEstimate
    → Hundredths
    → PricingUnit
    → Cents
    → Option Hundredths
    → Option Cents
    → ServiceEstimate
unfolding missing_base charge
priced e extra unit price quantity none = missing_base e
priced e extra unit price quantity (some base) = charge e extra unit price base quantity

module _ (tools : TextTools) (q : BookingRequirements) (e : ServiceEstimate) where
  with_price : Hundredths → CatalogItem → Option Cents → ServiceEstimate
  unfolding unpriced_material priced
  with_price extra item none = unpriced_material e extra
  with_price extra item (some price) =
      let unit = catalog_pricing_unit tools item.unit_label (some metro) in
      priced e extra unit price (catalog_charge_quantity unit (some extra) q.tubing_item_quantity)
        e.estimated_price

  with_item : Hundredths → Option CatalogItem → ServiceEstimate
  unfolding with_price
  with_item extra none = unpriced_material e extra
  with_item extra (some item) = with_price extra item item.price

  by_length : Hundredths → Option Hundredths → Option CatalogItem → ServiceEstimate
  unfolding unknown_length with_item
  by_length included none item = unknown_length e
  by_length included (some meters) item =
      if ltb included meters then with_item (meters - included) item else e

-- `item` is the active catalog item "extra-tubing-meter" of the business, if there is one.
unfoldable pub apply_catalog_additions :
    TextTools
    → Option CatalogItem
    → Service
    → BookingRequirements
    → ServiceEstimate
    → ServiceEstimate
unfolding by_length
apply_catalog_additions tools item service q e = elim service.included_tubing_meters [
  | none ↦ e
  | some included ↦
      if service.asks_tubing_length then by_length tools q e included q.tubing_meters item else e
]
