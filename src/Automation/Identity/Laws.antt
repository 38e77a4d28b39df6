-- ===== src/Automation/Identity/Laws.antt =====
-- The aliases of a text and their canonical identities.
use whatsapp_atendimentos_ag.Prelude.{
  ◌+◌, ◌≡◌, refl, sym, ◌∙◌, ap, subst, ◌⊎◌, inl, inr, true, false, ◌&&◌, some, List, [], ◌∷◌, ◌==◌,
  length, All, arith, Bool-cases, Option-cases,
}
use whatsapp_atendimentos_ag.Automation.Identity.{
  Text, isdigit, without_plus, is_individual_id, normalize_whatsapp_id,
  looks_like_brazil_national_number, after_country_code, with_country_code, local_aliases,
  aliases_after, candidates, whatsapp_id_lookup_aliases, first_of,
  normalize_automation_exclusion_whatsapp_id,
}

looks-length :
    (t : Text) → looks_like_brazil_national_number t ≡ true → (length t ≡ 10) ⊎ (length t ≡ 11)
unfolding looks_like_brazil_national_number
looks-length [] h = cc h
looks-length (a ∷ []) h = cc h
looks-length (a ∷ b ∷ []) h = cc h
looks-length (a ∷ b ∷ c ∷ cs) h = ground (arith, h)

after_country_code-eq : (t u : Text) → after_country_code t ≡ some u → t ≡ with_country_code u
unfolding after_country_code
after_country_code-eq [] u h = cc h
after_country_code-eq (a ∷ []) u h = cc h
after_country_code-eq (a ∷ b ∷ cs) u h = elim (Bool-cases (a == 53 && b == 53)) [
  | inl e ↦
      (let same : cs ≡ u = ground (arith, h, e) in
        let first : a ≡ 53 = ground (arith, e) in
        let second : b ≡ 53 = ground (arith, e) in cc (same, first, second))
  | inr e ↦ ground (arith, h, e)
]

-- A national number is an individual, and so it is with the country code.
looks-IsIndividual :
    (t : Text)
    → looks_like_brazil_national_number t ≡ true
    → (is_individual_id t ≡ true)
      × (is_individual_id (with_country_code t) ≡ true)
      × (isdigit t ≡ true)
unfolding looks_like_brazil_national_number is_individual_id
looks-IsIndividual [] h = cc h
looks-IsIndividual (a ∷ []) h = cc h
looks-IsIndividual (a ∷ b ∷ []) h = cc h
looks-IsIndividual (a ∷ b ∷ c ∷ cs) h = ground (arith, h)

candidates-international :
    (t : Text)
    → looks_like_brazil_national_number t ≡ true
    → candidates (with_country_code t) ≡ with_country_code t ∷ t ∷ []
unfolding candidates
candidates-international t h = ground (arith, h)

-- What follows the country code in a national number is too short to be one.
not-national :
    (t u : Text)
    → looks_like_brazil_national_number t ≡ true
    → after_country_code t ≡ some u
    → looks_like_brazil_national_number u ≡ false
not-national t u h e = elim (Bool-cases (looks_like_brazil_national_number u)) [
  | inr k ↦ k
  | inl k ↦
      (let size : length t ≡ length u + 2 =
          omega (arith, ap (λ (x : Text). length x) (after_country_code-eq t u e)) in
        absurd (omega (arith, looks-length t h, looks-length u k, size)))
]

candidates-national :
    (t : Text)
    → looks_like_brazil_national_number t ≡ true
    → candidates t ≡ with_country_code t ∷ t ∷ []
unfolding candidates aliases_after local_aliases
candidates-national t h = elim (Option-cases (after_country_code t)) [
  | inl e ↦ ap (λ o. aliases_after o t) e ∙ ground (arith, h)
  | inr (u, e) ↦ ap (λ o. aliases_after o t) e ∙ ground (arith, h, not-national t u h e)
]

IsIndividual-without_plus : (t : Text) → is_individual_id t ≡ true → without_plus t ≡ t
unfolding is_individual_id without_plus
IsIndividual-without_plus [] h = refl
IsIndividual-without_plus (c ∷ cs) h = ground (arith, h)

IsIndividual-isdigit : (t : Text) → is_individual_id t ≡ true → isdigit t ≡ true
unfolding is_individual_id
IsIndividual-isdigit [] h = cc h
IsIndividual-isdigit (c ∷ cs) h = ground (arith, h)

module _ (strip : Text → Text) (digits_stay : (t : Text) → isdigit t ≡ true → strip t ≡ t) where
  normalize-individual :
      (t : Text) → is_individual_id t ≡ true → normalize_whatsapp_id strip t ≡ some t
  unfolding normalize_whatsapp_id
  normalize-individual t h =
      let stays = digits_stay t (IsIndividual-isdigit t h) in
      let plain = IsIndividual-without_plus t h in ground (arith, h, ap without_plus stays ∙ plain)

  canonical-individual :
      (t : Text)
      → is_individual_id t ≡ true
      → normalize_automation_exclusion_whatsapp_id strip t ≡ first_of (candidates t)
  unfolding normalize_automation_exclusion_whatsapp_id whatsapp_id_lookup_aliases
  canonical-individual t h = ground (arith, normalize-individual t h)

  abbrev NamesAs : Text → Text → Type 0
  NamesAs c t = normalize_automation_exclusion_whatsapp_id strip t ≡ some c

  both-NamesAs :
      (t : Text)
      → looks_like_brazil_national_number t ≡ true
      → All (NamesAs (with_country_code t)) (with_country_code t ∷ t ∷ [])
  both-NamesAs t h =
      let (one, two, _) = looks-IsIndividual t h in
      (
        canonical-individual (with_country_code t) two ∙ ap first_of (candidates-international t h),
        (canonical-individual t one ∙ ap first_of (candidates-national t h), tt),
      )

  abbrev Agree : List Text → Type 0
  Agree ts = (c : Text) × (first_of ts ≡ some c) × All (NamesAs c) ts

  both-Agree :
      (t : Text) → looks_like_brazil_national_number t ≡ true → Agree (with_country_code t ∷ t ∷ [])
  both-Agree t h = (with_country_code t, refl, both-NamesAs t h)

  candidates-Agree : (n : Text) → is_individual_id n ≡ true → Agree (candidates n)
  unfolding candidates aliases_after local_aliases
  candidates-Agree n h =
      let alone : candidates n ≡ n ∷ [] → Agree (candidates n) =
        λ e. subst Agree (sym e) (n, refl, (canonical-individual n h ∙ ap first_of e, tt)) in
      elim (Bool-cases (looks_like_brazil_national_number n)) [
        | inl k ↦ subst Agree (sym (candidates-national n k)) (both-Agree n k)
        | inr k ↦ elim (Option-cases (after_country_code n)) [
          | inl e ↦ alone (ap (λ o. aliases_after o n) e ∙ ground (arith, k))
          | inr (t, e) ↦ elim (Bool-cases (looks_like_brazil_national_number t)) [
            | inl l ↦
                subst Agree
                  (sym (ap candidates (after_country_code-eq n t e) ∙ candidates-international t l))
                  (both-Agree t l)
            | inr l ↦ alone (ap (λ o. aliases_after o n) e ∙ ground (arith, k, l))
          ]
        ]
      ]

  normalized :
      (value : Text) (aliases : List Text)
      → whatsapp_id_lookup_aliases strip value ≡ some aliases
      → (n : Text) × (is_individual_id n ≡ true) × (candidates n ≡ aliases)
  unfolding whatsapp_id_lookup_aliases normalize_whatsapp_id
  normalized value aliases h = elim (Bool-cases (is_individual_id (without_plus (strip value)))) [
    | inl e ↦ (without_plus (strip value), e, ground (arith, h, e))
    | inr e ↦ ground (arith, h, e)
  ]

  -- The aliases of a text, when it names an individual, begin with one canonical identity, and each
  -- alias has that canonical identity in its turn: an exclusion that is stored under any alias is
  -- canonicalised alike. `strip` leaves digits as they are.
  pub aliases_agree :
      (value : Text) (aliases : List Text)
      → whatsapp_id_lookup_aliases strip value ≡ some aliases
      → (c : Text) × (first_of aliases ≡ some c)
        × All (λ a. normalize_automation_exclusion_whatsapp_id strip a ≡ some c) aliases
  aliases_agree value aliases h =
      let (n, individual, same) = normalized value aliases h in
      subst Agree same (candidates-Agree n individual)
