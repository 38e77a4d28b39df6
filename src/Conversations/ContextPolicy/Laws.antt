-- ===== src/Conversations/ContextPolicy/Laws.antt =====
-- app/conversations/context_policy.py: what one pass removes, and the tests that a pass cannot change.
use whatsapp_atendimentos_ag.Prelude.{
  Bool, true, false, not, ◌&&◌, ◌||◌, none, List, [], ◌∷◌, ◌≡◌, refl, sym, subst, ◌∙◌, ◌⊎◌, inl,
  inr, if◌then◌else◌, Bool-cases, arith,
}
use Prim.Native.String.{String}
use text.Mathlib.Text.{◌==◌ as str_eq}
use text.Mathlib.TextEquality.{eq_iff}
use whatsapp_atendimentos_ag.Conversations.ContextPolicy.{
  Context, member, pop_if, changed, any_changed, is_house, after_recommendation, after_planning,
  after_date, after_property, invalidate_changed_facts, recommendation_inputs,
  recommendation_results, planning_inputs, planning_results, date_results, building_only_fields,
  purchase_inputs, purchase_results,
}

-- No key of the first list is in the second.
unfoldable pub apart : List String → List String → Bool
apart [] ys = true
apart (x ∷ xs) ys = not (member x ys) && apart xs ys

both : (a b : Bool) → (a && b) ≡ true → (a ≡ true) × (b ≡ true)
both a b h = grind arith

negated : (a : Bool) → not a ≡ true → a ≡ false
negated a h = grind arith

either_false : (a b : Bool) → (a || b) ≡ false → (a ≡ false) × (b ≡ false)
either_false a b h = grind arith

-- Which keys the five tests make stale.
unfoldable pub stale : Bool → Bool → Bool → Bool → Bool → String → Bool
stale rec plan date property purchase k =
    (purchase && member k purchase_results)
    || (property && member k building_only_fields)
    || (date && member k date_results)
    || (plan && member k planning_results)
    || (rec && member k recommendation_results)

nested {κ} :
    {A : Type κ} (u b d l r : Bool) (x y : A)
    → (if u then x else if b then x else if d then x else if l then x else if r then x else y)
      ≡ (if u || b || d || l || r then x else y)
nested true b d l r x y = refl
nested false true d l r x y = refl
nested false false true l r x y = refl
nested false false false true r x y = refl
nested false false false false true x y = refl
nested false false false false false x y = refl

module _ {ℓ} {Value : Type ℓ} where
  pub pop_if-kept :
      (test : Bool) (fields : List String) (c : Context Value) (k : String)
      → (test ≡ false) ⊎ (member k fields ≡ false)
      → pop_if test fields c k ≡ c k
  unfolding pop_if
  pop_if-kept test fields c k (inl h) = rw (h) refl
  pop_if-kept true fields c k (inr h) = rw (h) refl
  pop_if-kept false fields c k (inr h) = refl

module _ {ℓ} {Value : Type ℓ} (null house : Value) (same : Value → Value → Bool) where
  pub changed-cong :
      (p c d : Context Value) (k : String)
      → c k ≡ d k
      → changed null house same p c k ≡ changed null house same p d k
  unfolding changed
  changed-cong p c d k e = rw (e) refl

  any_changed-pop_if :
      (p c : Context Value) (test : Bool) (fields ks : List String)
      → (test ≡ false) ⊎ (apart ks fields ≡ true)
      → any_changed null house same p (pop_if test fields c) ks ≡ any_changed null house same p c ks
  unfolding any_changed apart
  any_changed-pop_if p c test fields [] h = refl
  any_changed-pop_if p c test fields (k ∷ ks) (inl h) =
      rw
        (
          changed-cong p (pop_if test fields c) c k (pop_if-kept test fields c k (inl h)),
          any_changed-pop_if p c test fields ks (inl h),
        )
        refl
  any_changed-pop_if p c test fields (k ∷ ks) (inr h) =
      let t = both (not (member k fields)) (apart ks fields) h in
      rw
        (
          changed-cong p (pop_if test fields c) c k
              (pop_if-kept test fields c k (inr (negated (member k fields) t.0))),
          any_changed-pop_if p c test fields ks (inr t.1),
        )
        refl

  pub changed-any :
      (p c : Context Value) (k : String) (ks : List String)
      → member k ks ≡ true
      → any_changed null house same p c ks ≡ false
      → changed null house same p c k ≡ false
  unfolding any_changed member
  changed-any p c k [] m h = grind arith
  changed-any p c k (x ∷ xs) m h =
      let t = either_false (changed null house same p c x) (any_changed null house same p c xs) h in
      elim (Bool-cases (str_eq k x)) [
        | inl e ↦ subst (λ y. changed null house same p c y ≡ false) (sym ((eq_iff k x).0 e)) t.0
        | inr e ↦ changed-any p c k xs (sym (rw (e) refl) ∙ m) t.1
      ]

  module _ (p c : Context Value) where
    abbrev pub is_rec : Bool
    is_rec = any_changed null house same p c recommendation_inputs

    abbrev pub is_plan : Bool
    is_plan = any_changed null house same p c planning_inputs

    abbrev pub is_date : Bool
    is_date = changed null house same p c "selected_date"

    abbrev pub is_property : Bool
    is_property =
        changed null house same p c "property_type"
        && is_house null house same (after_date null house same p c)

    abbrev pub is_purchase : Bool
    is_purchase = any_changed null house same p c purchase_inputs

    -- A field goes exactly when one of the five corrections makes it stale.
    pub invalidate_lem :
        (k : String)
        → invalidate_changed_facts null house same p c k
          ≡ (if stale is_rec is_plan is_date is_property is_purchase k then none else c k)
    unfolding invalidate_changed_facts after_property after_date after_planning after_recommendation
        pop_if stale
    invalidate_lem k =
        nested (is_purchase && member k purchase_results)
          (is_property && member k building_only_fields) (is_date && member k date_results)
          (is_plan && member k planning_results) (is_rec && member k recommendation_results) none
          (c k)

    pub any_changed-invalidate :
        (ks : List String)
        → (is_rec ≡ false) ⊎ (apart ks recommendation_results ≡ true)
        → (is_plan ≡ false) ⊎ (apart ks planning_results ≡ true)
        → (is_date ≡ false) ⊎ (apart ks date_results ≡ true)
        → (is_property ≡ false) ⊎ (apart ks building_only_fields ≡ true)
        → (is_purchase ≡ false) ⊎ (apart ks purchase_results ≡ true)
        → any_changed null house same p (invalidate_changed_facts null house same p c) ks
          ≡ any_changed null house same p c ks
    unfolding invalidate_changed_facts after_property after_date after_planning after_recommendation
    any_changed-invalidate ks r l d b u =
        any_changed-pop_if p (after_property null house same p c) is_purchase purchase_results ks u
        ∙ any_changed-pop_if p (after_date null house same p c) is_property building_only_fields ks
            b
        ∙ any_changed-pop_if p (after_planning null house same p c) is_date date_results ks d
        ∙ any_changed-pop_if p (after_recommendation null house same p c) is_plan planning_results
            ks l
        ∙ any_changed-pop_if p c is_rec recommendation_results ks r
