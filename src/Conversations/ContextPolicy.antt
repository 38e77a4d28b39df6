-- ===== src/Conversations/ContextPolicy.antt =====
-- app/conversations/context_policy.py: which facts of a conversation a correction of the customer
-- makes stale. A context is a function from its keys; the values are those of the caller, with the
-- comparison `==` that Python has for them.
pub mod Laws
pub mod Again
mod Examples
use whatsapp_atendimentos_ag.Prelude.{
  Bool, true, false, not, ◌&&◌, ◌||◌, Option, none, some, List, [], ◌∷◌, ◌++◌, is_none, get_or,
  if◌then◌else◌,
}
use Prim.Native.String.{String}
use text.Mathlib.Text.{◌==◌ as str_eq}

abbrev pub recommendation_inputs : List String
recommendation_inputs =
    "room_area_m2" ∷ "room_people_max" ∷ "equipment_preference" ∷ "equipment_cycle"
    ∷ "indoor_space_width_cm" ∷ "indoor_space_height_cm" ∷ "indoor_space_depth_cm"
    ∷ "indoor_space_unrestricted" ∷ "outdoor_space_width_cm" ∷ "outdoor_space_height_cm"
    ∷ "outdoor_space_depth_cm" ∷ "outdoor_space_unrestricted" ∷ "equipment_budget_max"
    ∷ "total_budget_max" ∷ []

abbrev pub building_only_fields : List String
building_only_fields =
    "building_hours_start" ∷ "building_hours_end" ∷ "gate_instructions" ∷ "site_allowed_end"
    ∷ "site_limit_answered" ∷ []

abbrev pub scheduling_fields : List String
scheduling_fields = "selected_date" ∷ "selected_time" ∷ "candidate_booking" ∷ []

abbrev pub planning_inputs : List String
planning_inputs =
    ("quantity" ∷ "access_condition" ∷ "service_address" ∷ "delivery_address" ∷ "delivery_method"
      ∷ "fulfillment_type" ∷ "pickup_address" ∷ "equipment_ownership" ∷ "equipment_model"
      ∷ "installation_height_over_3m" ∷ "work_at_height" ∷ "property_type" ∷ "building_hours_start"
      ∷ "building_hours_end" ∷ "gate_instructions" ∷ "tubing_meters" ∷ "site_allowed_end"
      ∷ "site_limit_answered" ∷ "service_budget_max" ∷ "total_budget_max" ∷ [])
    ++ recommendation_inputs

abbrev pub service_reusable_fields : List String
service_reusable_fields =
    "service_address" ∷ "property_type" ∷ "building_hours_start" ∷ "building_hours_end"
    ∷ "gate_instructions" ∷ "onsite_contact_mode" ∷ "onsite_contact_name" ∷ "whatsapp_contact_phone"
    ∷ "contact_phone" ∷ "contact_phone_confirmed" ∷ "cleaning_outreach_id" ∷ []

-- The literal tuples and the set of the function's body.
abbrev pub recommendation_results : List String
recommendation_results =
    "recommended_equipment" ∷ "recommendation_presented" ∷ "quote_presented" ∷ []

abbrev pub planning_results : List String
planning_results = "quote_presented" ∷ scheduling_fields

abbrev pub date_results : List String
date_results = "selected_time" ∷ "candidate_booking" ∷ []

abbrev pub purchase_inputs : List String
purchase_inputs = "purchase_mode" ∷ "purchase_only" ∷ "request_mode" ∷ []

abbrev pub purchase_results : List String
purchase_results =
    ("delivery_method" ∷ "fulfillment_type" ∷ "pickup_address" ∷ "delivery_fee_per_km"
      ∷ "delivery_address" ∷ "address_purpose" ∷ "delivery_installation_match_pending"
      ∷ "quote_presented" ∷ [])
    ++ scheduling_fields

unfoldable pub member : String → List String → Bool
member k [] = false
member k (x ∷ xs) = str_eq k x || member k xs

-- A dict of Python, by what `get` finds.
abbrev pub Context {ℓ} : Type ℓ → Type ℓ
Context Value = String → Option Value

module _ {ℓ} {Value : Type ℓ} where
  -- `updated.pop(field, None)` for each field, under a test.
  unfoldable pub pop_if : Bool → List String → Context Value → Context Value
  pop_if test fields context k = if test && member k fields then none else context k

  -- `context_for_service_change`.
  unfoldable pub context_for_service_change : Context Value → Context Value
  context_for_service_change context k =
      if member k service_reusable_fields then context k else none

module _ {ℓ} {Value : Type ℓ} (null house : Value) (same : Value → Value → Bool) where
  -- Whether a key of one of the contexts is in `changed`.
  unfoldable pub changed : Context Value → Context Value → String → Bool
  changed previous current k =
      not (is_none (previous k) && is_none (current k))
      && not (same (get_or (previous k) null) (get_or (current k) null))

  -- Whether `changed` meets a set of fields.
  unfoldable pub any_changed : Context Value → Context Value → List String → Bool
  any_changed previous current [] = false
  any_changed previous current (k ∷ ks) =
      changed previous current k || any_changed previous current ks

  unfoldable pub is_house : Context Value → Bool
  is_house context = same (get_or (context "property_type") null) house

  -- The `if` statements, one after the other; `changed` is of the context as it came in.
  unfoldable pub after_recommendation : Context Value → Context Value → Context Value
  after_recommendation previous current =
      pop_if (any_changed previous current recommendation_inputs) recommendation_results current

  unfoldable pub after_planning : Context Value → Context Value → Context Value
  after_planning previous current =
      pop_if (any_changed previous current planning_inputs) planning_results
        (after_recommendation previous current)

  unfoldable pub after_date : Context Value → Context Value → Context Value
  after_date previous current =
      pop_if (changed previous current "selected_date") date_results
        (after_planning previous current)

  unfoldable pub after_property : Context Value → Context Value → Context Value
  after_property previous current =
      let updated = after_date previous current in
      pop_if (changed previous current "property_type" && is_house updated) building_only_fields
        updated

  unfoldable pub invalidate_changed_facts : Context Value → Context Value → Context Value
  invalidate_changed_facts previous current =
      pop_if (any_changed previous current purchase_inputs) purchase_results
        (after_property previous current)
