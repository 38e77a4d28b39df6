-- ===== src/Conversations/ContextPolicy/Examples.antt =====
-- app/conversations/context_policy.py: a customer who moves from an apartment to a house after the
-- date was chosen.
use whatsapp_atendimentos_ag.Prelude.{none, some, ◌≡◌, refl, if◌then◌else◌}
use Prim.Native.String.{String}
use text.Mathlib.Text.{◌==◌ as str_eq}
use whatsapp_atendimentos_ag.Conversations.ContextPolicy.{
  Context, member, pop_if, changed, any_changed, is_house, after_recommendation, after_planning,
  after_date, after_property, invalidate_changed_facts, context_for_service_change,
}

abbrev facts : String → String → Context String
facts property date k =
    if str_eq k "property_type"
    then some property
    else if str_eq k "selected_date"
    then some date
    else if str_eq k "gate_instructions"
    then some "bloco B"
    else if str_eq k "service_address"
    then some "Rua A, 1"
    else none

abbrev before : Context String
before = facts "apartment" "2026-03-02"

abbrev now : Context String
now = facts "house" "2026-03-02"

invalidated_date : invalidate_changed_facts "" "house" str_eq before now "selected_date" ≡ none
unfolding invalidate_changed_facts after_property after_date after_planning after_recommendation
    pop_if changed any_changed is_house member
invalidated_date = refl

invalidated_gate : invalidate_changed_facts "" "house" str_eq before now "gate_instructions" ≡ none
unfolding invalidate_changed_facts after_property after_date after_planning after_recommendation
    pop_if changed any_changed is_house member
invalidated_gate = refl

invalidated_address :
    invalidate_changed_facts "" "house" str_eq before now "service_address" ≡ some "Rua A, 1"
unfolding invalidate_changed_facts after_property after_date after_planning after_recommendation
    pop_if changed any_changed is_house member
invalidated_address = refl

reused_gate : context_for_service_change now "gate_instructions" ≡ some "bloco B"
unfolding context_for_service_change member
reused_gate = refl

reused_date : context_for_service_change now "selected_date" ≡ none
unfolding context_for_service_change member
reused_date = refl
