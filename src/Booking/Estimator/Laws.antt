-- ===== src/Booking/Estimator/Laws.antt =====
-- What `estimate` promises: when it asks for a person, and the closed form of what it computes.
use whatsapp_atendimentos_ag.Prelude.{
  ℕ, ◌+◌, ◌-◌, ◌*◌, ◌≤◌, ◌<◌, ◌≡◌, refl, inl, inr, Bool-cases, ==_iff, ◌==◌, Bool, true, false, not,
  ◌&&◌, ◌||◌, some, arith, if◌then◌else◌, is_none, get_or,
}
use whatsapp_atendimentos_ag.Booking.Types.{
  PricingType, AccessCondition, normal, difficult, unknown, UnknownAccessPolicy, Cents,
  conservative, BookingRequirements, ServiceConfiguration,
}
use whatsapp_atendimentos_ag.Booking.Estimator.{estimate, quantity_or_included, with_units}

-- Whether the access condition counts as difficult under the service's policy.
abbrev pub counts_as_difficult : ServiceConfiguration → AccessCondition → Bool
counts_as_difficult c normal = false
counts_as_difficult c difficult = c.considers_difficult_access
counts_as_difficult c unknown =
    c.considers_difficult_access && elim c.unknown_access_policy [ conservative ↦ true | _ ↦ false ]

abbrev refuses_unknown : ServiceConfiguration → AccessCondition → Bool
refuses_unknown c unknown =
    c.considers_difficult_access
    && elim c.unknown_access_policy [ UnknownAccessPolicy.human_quote ↦ true | _ ↦ false ]
refuses_unknown c _ = false

abbrev is_quote_type : PricingType → Bool
is_quote_type PricingType.human_quote = true
is_quote_type _ = false

-- The six reasons for which a person has to quote.
abbrev pub needs_person : ServiceConfiguration → BookingRequirements → Bool
needs_person c q =
    (c.requires_quantity && is_none q.quantity)
    || refuses_unknown c q.access_condition
    || (c.requires_address && is_none q.address)
    || not c.automatic_booking
    || is_quote_type c.pricing_type
    || is_none c.base_price

-- The price is unset exactly when the base price is.
is_none-with_units :
    (c : ServiceConfiguration) (k : ℕ) → is_none (with_units c k).price ≡ is_none c.base_price
unfolding with_units
is_none-with_units c k = ground arith

-- A human quote is required exactly when the quantity or the address is missing though required,
-- the access is unknown and the policy refuses it, or the service is not bookable automatically.
pub estimate_human_quote :
    (c : ServiceConfiguration) (q : BookingRequirements)
    → (estimate c q).requires_human_quote ≡ needs_person c q
unfolding estimate
estimate_human_quote c q = ground (arith, is_none-with_units c (quantity_or_included c q.quantity))

-- A price is quoted exactly when no person has to quote.
pub estimate_price_iff :
    (c : ServiceConfiguration) (q : BookingRequirements)
    → is_none (estimate c q).estimated_price ≡ (estimate c q).requires_human_quote
unfolding estimate
estimate_price_iff c q = ground arith

-- `with_units` in closed form, where the base price is set.
with_units_lem :
    (c : ServiceConfiguration) (k : ℕ) (base : Cents)
    → c.base_price ≡ some base
    → ((with_units c k).duration
        ≡ c.duration_minutes + (k - c.included_quantity) * c.additional_unit_duration_minutes)
      × ((with_units c k).price
          ≡ some (base + get_or c.additional_unit_price 0 * (k - c.included_quantity)))
unfolding with_units
with_units_lem c k base b = elim (Bool-cases ((k - c.included_quantity) == 0)) [
  | inl e ↦
      let z : k - c.included_quantity ≡ 0 = omega (arith, (==_iff _ _).0 e) in
      rw (e, z) (omega arith, ground (arith, b))
  | inr e ↦ rw e (refl, rw b refl)
]

abbrev pub extra_units : ServiceConfiguration → BookingRequirements → ℕ
extra_units c q = quantity_or_included c q.quantity - c.included_quantity

-- The duration and the price of an automatic estimate, in closed form.
pub estimate_total :
    (c : ServiceConfiguration) (q : BookingRequirements) (base : Cents)
    → c.base_price ≡ some base
    → needs_person c q ≡ false
    → ((estimate c q).estimated_duration_minutes
        ≡ c.duration_minutes
          + extra_units c q * c.additional_unit_duration_minutes
          + (if counts_as_difficult c q.access_condition
              then c.difficult_access_duration_minutes
              else 0)
          + c.duration_margin_minutes)
      × ((estimate c q).estimated_price
          ≡ some (
              base
              + get_or c.additional_unit_price 0 * extra_units c q
              + (if counts_as_difficult c q.access_condition
                  then get_or c.difficult_access_price 0
                  else 0)))
unfolding estimate
estimate_total c q base b h =
    ground (arith, with_units_lem c (quantity_or_included c q.quantity) base b)

mul_mono : (a b u : ℕ) → a ≤ b → a * u ≤ b * u
mul_mono a b u h = grind arith

abbrev pub for_quantity : BookingRequirements → ℕ → BookingRequirements
for_quantity q n = record q { quantity = some n }

extra_units_mono :
    (c : ServiceConfiguration) (q : BookingRequirements) (m n : ℕ)
    → m ≤ n
    → 0 < m
    → extra_units c (for_quantity q m) ≤ extra_units c (for_quantity q n)
extra_units_mono c q m n l p = ground arith

-- More units never make an automatic estimate shorter or cheaper.
pub estimate_mono :
    (c : ServiceConfiguration) (q : BookingRequirements) (base m n : ℕ)
    → c.base_price ≡ some base
    → needs_person c (for_quantity q m) ≡ false
    → 0 < m
    → m ≤ n
    → ((estimate c (for_quantity q m)).estimated_duration_minutes
        ≤ (estimate c (for_quantity q n)).estimated_duration_minutes)
      × (get_or (estimate c (for_quantity q m)).estimated_price 0
          ≤ get_or (estimate c (for_quantity q n)).estimated_price 0)
estimate_mono c q base m n b h p l =
    let (dm, pm) = estimate_total c (for_quantity q m) base b h in
    let (dn, pn) = estimate_total c (for_quantity q n) base b h in
    let more = extra_units_mono c q m n l p in
    rw (dm, dn, pm, pn)
      (
        omega (arith, mul_mono _ _ c.additional_unit_duration_minutes more),
        omega (arith, mul_mono _ _ (get_or c.additional_unit_price 0) more),
      )
