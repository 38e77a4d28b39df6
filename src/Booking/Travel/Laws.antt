-- ===== src/Booking/Travel/Laws.antt =====
-- When a travel estimate is available, and which rules count.
use Prim.Native.String.{String}
use whatsapp_atendimentos_ag.Prelude.{
  ℕ, ◌≡◌, ◌≢◌, refl, sym, ◌∙◌, Bool, true, false, not, ◌&&◌, ◌||◌, Option, none, some, List, [],
  ◌∷◌, arith, is_none, any, keep_if, Option-cases, inl, inr, ◌⊎◌, ◌↔◌, Any,
}
use whatsapp_atendimentos_ag.Booking.Types.{ServiceAddress, TravelOrigin, TravelEstimate}
use whatsapp_atendimentos_ag.Booking.Business.{TextTools, RegionRule}
use whatsapp_atendimentos_ag.Booking.Travel.{
  ConfiguredPort, rule_minutes, rule_estimate, by_rules, fallback_estimate,
  configured_port_estimate, same_address_travel_estimate, searchable_text, share_number,
  address_tokens, equivalent_tokens, is_empty,
}
use text.Mathlib.Text.{◌==◌ as str_eq}

both : (a b : Bool) → (a && b) ≡ true → (a ≡ true) × (b ≡ true)
both a b h = grind arith

filled_in : (o : Option ℕ) → not (is_none o) ≡ true → (m : ℕ) × (o ≡ some m)
filled_in none h = cc h
filled_in (some m) h = (m, refl)

three_iff : (a b c : Bool) → ((not a || b || c) ≡ true) ↔ ((a ≡ false) ⊎ ((b ≡ true) ⊎ (c ≡ true)))
three_iff a b c = grind arith

module _ (tools : TextTools) where
  -- A rule that decides on the text of an address.
  pub record Applies (text : String) (r : RegionRule) : Type 0 where
    pub matched : String
    pub minutes : ℕ
    pub trusted : r.trusted ≡ true
    pub has_text : r.match_text ≡ some matched
    pub not_blank : str_eq (tools.strip matched) "" ≡ false
    pub contained : tools.contains (tools.normalize matched) text ≡ true
    pub has_minutes : r.minutes ≡ some minutes

  abbrev pub IsSameAddress : TravelOrigin → ServiceAddress → Type 0
  IsSameAddress o d =
      let xs = address_tokens tools o.address in
      let ys = address_tokens tools (searchable_text tools d) in
      (share_number tools xs ys ≡ true) × (equivalent_tokens tools xs ys ≡ true)

  abbrev pub IsFallback : ConfiguredPort → Type 0
  IsFallback p = (p.fallback_allowed ≡ true) × ((m : ℕ) × (p.fallback_minutes ≡ some m))

  rule-Applies :
      (text : String) (r : RegionRule) (m : ℕ) → rule_minutes tools text r ≡ some m → Applies text r
  unfolding rule_minutes
  rule-Applies text r m h = elim (Option-cases r.match_text) [
    | inl e ↦ absurd (grind arith)
    | inr (x, e) ↦
        (let t : (r.trusted ≡ true)
              × (str_eq (tools.strip x) "" ≡ false)
              × (tools.contains (tools.normalize x) text ≡ true)
              × (r.minutes ≡ some m) =
            (grind arith, grind arith, grind arith, grind arith) in
          record {
            matched = x;
            minutes = m;
            trusted = t.0;
            has_text = e;
            not_blank = t.1;
            contained = t.2;
            has_minutes = t.3;
          })
  ]

  Applies-rule :
      (text : String) (r : RegionRule)
      → Applies text r
      → is_none (rule_minutes tools text r) ≡ false
  unfolding rule_minutes
  Applies-rule text r a = rw (a.has_text, a.trusted, a.not_blank, a.contained, a.has_minutes) refl

  no_member : (xs : List String) → share_number tools xs [] ≢ true
  no_member [] h = cc h
  no_member (x ∷ xs) h = no_member xs (grind arith)

  share_number-nonempty :
      (xs ys : List String)
      → share_number tools xs ys ≡ true
      → (is_empty xs ≡ false) × (is_empty ys ≡ false)
  share_number-nonempty [] ys h = cc h
  share_number-nonempty (x ∷ xs) [] h = absurd (no_member (x ∷ xs) h)
  share_number-nonempty (x ∷ xs) (y ∷ ys) h = (refl, refl)

  IsSameAddress-iff :
      (o : TravelOrigin) (d : ServiceAddress)
      → (is_none (same_address_travel_estimate tools o d) ≡ false) ↔ IsSameAddress o d
  unfolding same_address_travel_estimate
  IsSameAddress-iff o d = (
    λ h. (grind arith, grind arith),
    λ (s, e). (let (x, y) = share_number-nonempty _ _ s in rw (x, y, s, e) refl),
  )

  same_address_available :
      (o : TravelOrigin) (d : ServiceAddress) (t : TravelEstimate)
      → same_address_travel_estimate tools o d ≡ some t
      → (t.available ≡ true)
        × (t.travel_minutes ≡ 0)
        × (share_number tools
              (address_tokens tools o.address)
              (address_tokens tools (searchable_text tools d))
            ≡ true)
  unfolding same_address_travel_estimate
  same_address_available o d t h = ground arith

  by_rules_available :
      (o : TravelOrigin) (text : String) (rs : List RegionRule) (other : TravelEstimate)
      → (by_rules tools o text rs other).available
        ≡ any (λ r. not (is_none (rule_minutes tools text r))) rs || other.available
  unfolding by_rules rule_estimate
  by_rules_available o text [] other = refl
  by_rules_available o text (r ∷ rs) other = ground (arith, by_rules_available o text rs other)

  fallback_available :
      (o : TravelOrigin) (allowed : Bool) (m : Option ℕ)
      → (fallback_estimate o allowed m).available ≡ (allowed && not (is_none m))
  unfolding fallback_estimate
  fallback_available o allowed m = ground arith

  rule_untrusted :
      (text : String) (r : RegionRule) → r.trusted ≡ false → rule_minutes tools text r ≡ none
  unfolding rule_minutes
  rule_untrusted text r h = ground arith

  by_rules_trusted :
      (o : TravelOrigin) (text : String) (rs : List RegionRule) (other : TravelEstimate)
      → by_rules tools o text rs other ≡ by_rules tools o text (keep_if (λ r. r.trusted) rs) other
  unfolding by_rules
  by_rules_trusted o text [] other = refl
  by_rules_trusted o text (r ∷ rs) other =
      ground (arith, by_rules_trusted o text rs other, rule_untrusted text r)

  any_rule_iff :
      (text : String) (rs : List RegionRule)
      → (any (λ r. not (is_none (rule_minutes tools text r))) rs ≡ true) ↔ Any (Applies text) rs
  any_rule_iff text [] = (λ h. cc h, λ h. absurd h)
  any_rule_iff text (r ∷ rs) =
      let (out, back) = any_rule_iff text rs in
      (
        λ h. (elim (Option-cases (rule_minutes tools text r)) [
          | inr (m, e) ↦ inl (rule-Applies text r m e)
          | inl e ↦ inr (out (sym (rw e refl) ∙ h))
        ]),
        λ h. (elim h [
          | inl a ↦ (let e = Applies-rule text r a in rw e refl)
          | inr m ↦ (let e = back m in grind arith)
        ]),
      )

  availability :
      (p : ConfiguredPort) (o : TravelOrigin) (d : ServiceAddress)
      → (configured_port_estimate tools p o d).available
        ≡ not (is_none (same_address_travel_estimate tools o d))
          || any
              (λ r.
                not (is_none (rule_minutes tools (tools.normalize (searchable_text tools d)) r)))
              p.region_rules
          || (p.fallback_allowed && not (is_none p.fallback_minutes))
  unfolding configured_port_estimate
  availability p o d =
      let text = tools.normalize (searchable_text tools d) in
      let other = fallback_estimate o p.fallback_allowed p.fallback_minutes in
      elim (Option-cases (same_address_travel_estimate tools o d)) [
        | inl e ↦ rw e (
            rw (by_rules_available o text p.region_rules other)
              (rw (fallback_available o p.fallback_allowed p.fallback_minutes) refl))
        | inr (t, e) ↦ rw e ((same_address_available o d t e).0)
      ]

  IsFallback-iff :
      (p : ConfiguredPort)
      → ((p.fallback_allowed && not (is_none p.fallback_minutes)) ≡ true) ↔ IsFallback p
  IsFallback-iff p = (
    λ h.
        (let t = both p.fallback_allowed (not (is_none p.fallback_minutes)) h in
          (t.0, filled_in p.fallback_minutes t.1)),
    λ (a, (m, e)). rw (a, e) refl,
  )

  -- The configured estimate fails closed: it is available exactly when the two addresses share a
  -- number and have equivalent words, a rule applies, or the business allowed a fallback and
  -- configured its minutes. A rule applies if it is trusted, has minutes and a text to match that is not
  -- blank, and the address contains this text.
  pub configured_available :
      (p : ConfiguredPort) (o : TravelOrigin) (d : ServiceAddress)
      → ((configured_port_estimate tools p o d).available ≡ true) ↔ (
          IsSameAddress o d
          ⊎ (Any (Applies (tools.normalize (searchable_text tools d))) p.region_rules
              ⊎ IsFallback p))
  configured_available p o d =
      let (same_out, same_back) = IsSameAddress-iff o d in
      let (rule_out, rule_back) =
        any_rule_iff (tools.normalize (searchable_text tools d)) p.region_rules in
      let (other_out, other_back) = IsFallback-iff p in
      let (split, join) =
        three_iff (is_none (same_address_travel_estimate tools o d)) _
          (p.fallback_allowed && not (is_none p.fallback_minutes)) in
      (
        λ h. (elim (split (sym (availability p o d) ∙ h)) [
          | inl e ↦ inl (same_out e)
          | inr (inl e) ↦ inr (inl (rule_out e))
          | inr (inr e) ↦ inr (inr (other_out e))
        ]),
        λ h.
            availability p o d
            ∙ join (elim h [
              | inl e ↦ inl (same_back e)
              | inr (inl e) ↦ inr (inl (rule_back e))
              | inr (inr e) ↦ inr (inr (other_back e))
            ]),
      )

  -- Rules that are not trusted have no influence on the estimate.
  pub untrusted_rules_ignored :
      (p : ConfiguredPort) (o : TravelOrigin) (d : ServiceAddress)
      → configured_port_estimate tools p o d
        ≡ configured_port_estimate tools
            (record p { region_rules = keep_if (λ r. r.trusted) p.region_rules })
            o
            d
  unfolding configured_port_estimate
  untrusted_rules_ignored p o d =
      rw
        (by_rules_trusted o (tools.normalize (searchable_text tools d)) p.region_rules
          (fallback_estimate o p.fallback_allowed p.fallback_minutes))
        refl
