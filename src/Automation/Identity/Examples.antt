-- ===== src/Automation/Identity/Examples.antt =====
-- A Brazilian mobile number without its country code, 11 9 8765 4321.
use whatsapp_atendimentos_ag.Prelude.{◌≡◌, refl, some, List, [], ◌∷◌, All}
use whatsapp_atendimentos_ag.Automation.Identity.{
  Text, with_country_code, whatsapp_id_lookup_aliases, first_of,
  normalize_automation_exclusion_whatsapp_id,
}
use whatsapp_atendimentos_ag.Automation.Identity.Laws.{aliases_agree}

abbrev strip : Text → Text
strip t = t

abbrev national : Text
national = 49 ∷ 49 ∷ 57 ∷ 56 ∷ 55 ∷ 54 ∷ 53 ∷ 52 ∷ 51 ∷ 50 ∷ 49 ∷ []

abbrev both_forms : List Text
both_forms = with_country_code national ∷ national ∷ []

national-aliases : whatsapp_id_lookup_aliases strip national ≡ some both_forms
unfolding whatsapp_id_lookup_aliases
national-aliases = refl

aliases_agree_example :
    (c : Text) × (first_of both_forms ≡ some c)
    × All (λ a. normalize_automation_exclusion_whatsapp_id strip a ≡ some c) both_forms
aliases_agree_example = aliases_agree strip (λ t h. refl) national both_forms national-aliases
