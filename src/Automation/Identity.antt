-- ===== src/Automation/Identity.antt =====
-- app/automation/domain.py: `normalize_whatsapp_id`, `_looks_like_brazil_national_number`,
-- `whatsapp_id_lookup_aliases` and `normalize_automation_exclusion_whatsapp_id`.
-- A text is the list of its code points: "0" is 48, "5" is 53, "9" is 57, "+" is 43. `none` is the
-- ValueError of a text that names no individual, and `strip` is `str.strip`, a parameter.
pub mod Laws
mod Examples
use whatsapp_atendimentos_ag.Prelude.{
  ℕ, ◌+◌, ◌-◌, ◌*◌, Bool, true, false, not, ◌&&◌, ◌||◌, Option, none, some, List, [], ◌∷◌, leb,
  ◌==◌, if◌then◌else◌, length,
}

abbrev pub Text : Type 0
Text = List ℕ

abbrev pub is_digit : ℕ → Bool
is_digit c = leb 48 c && leb c 57

abbrev pub isdigit : Text → Bool
isdigit [] = true
isdigit (c ∷ cs) = is_digit c && isdigit cs

unfoldable pub without_plus : Text → Text
without_plus [] = []
without_plus (c ∷ cs) = if c == 43 then cs else c ∷ cs

-- The full match of ^[1-9][0-9]{6,14}$.
unfoldable pub is_individual_id : Text → Bool
is_individual_id [] = false
is_individual_id (c ∷ cs) =
    leb 49 c && leb c 57 && isdigit cs && leb 6 (length cs) && leb (length cs) 14

unfoldable pub normalize_whatsapp_id : (Text → Text) → Text → Option Text
unfolding without_plus is_individual_id
normalize_whatsapp_id strip value =
    let normalized = without_plus (strip value) in
    if is_individual_id normalized then some normalized else none

unfoldable pub looks_like_brazil_national_number : Text → Bool
looks_like_brazil_national_number (a ∷ b ∷ c ∷ cs) =
    let size = length (a ∷ b ∷ c ∷ cs) in
    let area_code = (a - 48) * 10 + (b - 48) in
    if not (size == 10 || size == 11) || not (isdigit (a ∷ b ∷ c ∷ cs))
    then false
    else if not (leb 11 area_code && leb area_code 99)
    then false
    else if size == 11
    then c == 57
    else leb 50 c && leb c 53
looks_like_brazil_national_number _ = false

-- What follows the prefix "55".
unfoldable pub after_country_code : Text → Option Text
after_country_code (a ∷ b ∷ cs) = if a == 53 && b == 53 then some cs else none
after_country_code _ = none

abbrev pub with_country_code : Text → Text
with_country_code t = 53 ∷ 53 ∷ t

-- The branches from `elif` on.
unfoldable pub local_aliases : Text → List Text
local_aliases n =
    if looks_like_brazil_national_number n then with_country_code n ∷ n ∷ [] else n ∷ []

unfoldable pub aliases_after : Option Text → Text → List Text
aliases_after none n = local_aliases n
aliases_after (some t) n =
    let rest = local_aliases n in if looks_like_brazil_national_number t then n ∷ t ∷ [] else rest

-- The candidates for a normalized text; they differ in length, so `dict.fromkeys` keeps them all.
unfoldable pub candidates : Text → List Text
unfolding aliases_after local_aliases after_country_code looks_like_brazil_national_number
candidates n = aliases_after (after_country_code n) n

unfoldable pub whatsapp_id_lookup_aliases : (Text → Text) → Text → Option (List Text)
unfolding normalize_whatsapp_id candidates
whatsapp_id_lookup_aliases strip value = elim (normalize_whatsapp_id strip value) [
  | none ↦ none
  | some n ↦ some (candidates n)
]

abbrev pub first_of : List Text → Option Text
first_of [] = none
first_of (t ∷ ts) = some t

unfoldable pub normalize_automation_exclusion_whatsapp_id : (Text → Text) → Text → Option Text
unfolding whatsapp_id_lookup_aliases
normalize_automation_exclusion_whatsapp_id strip value =
    elim (whatsapp_id_lookup_aliases strip value) [ none ↦ none | some ts ↦ first_of ts ]
