-- ===== src/Conversations/ContextPolicy/Again.antt =====
-- app/conversations/context_policy.py: a second pass.
use whatsapp_atendimentos_ag.Prelude.{Bool, ◌&&◌, none, ◌≡◌, if◌then◌else◌}
use Prim.Native.String.{String}
use whatsapp_atendimentos_ag.Conversations.ContextPolicy.{
  Context, changed, any_changed, is_house, invalidate_changed_facts, recommendation_inputs,
  planning_inputs, purchase_inputs,
}
use whatsapp_atendimentos_ag.Conversations.ContextPolicy.Laws.{stale}

module _ {ℓ} {Value : Type ℓ} (null house : Value) (same : Value → Value → Bool) where
  module _ (p c : Context Value) where
    abbrev pub once : Context Value
    once = invalidate_changed_facts null house same p c

    -- Whether a field is stale: one of the facts that it was derived from was corrected.
    abbrev pub is_stale : String → Bool
    is_stale k =
        stale (any_changed null house same p c recommendation_inputs)
          (any_changed null house same p c planning_inputs)
          (changed null house same p c "selected_date")
          (changed null house same p c "property_type" && is_house null house same c)
          (any_changed null house same p c purchase_inputs) k

    pub record IsInvalidated (k : String) : Type ℓ where
      pub exact : once k ≡ (if is_stale k then none else c k)
      pub settled : invalidate_changed_facts null house same p once k ≡ once k
