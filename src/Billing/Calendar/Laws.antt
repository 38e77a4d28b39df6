-- ===== src/Billing/Calendar/Laws.antt =====
-- The end of a billing cycle.
use whatsapp_atendimentos_ag.Prelude.{
  ℕ, ◌+◌, ◌-◌, ◌*◌, ◌≤◌, ◌<◌, ◌≡◌, refl, leb, min, arith, if_cases, leb→le,
}
use whatsapp_atendimentos_ag.Billing.Calendar.{
  Moment, days_in_month, order_key, at_most, later, earlier, Cycle, monthly, quarterly, annual,
  cycle_months, cycle_end,
}

-- A date of the calendar.
pub record IsDate (m : Moment) : Type 0 where
  pub month_first : 1 ≤ m.month
  pub month_last : m.month ≤ 12
  pub day_first : 1 ≤ m.day
  pub day_last : m.day ≤ days_in_month m.year m.month

pub months_of : Moment → ℕ
months_of m = m.year * 12 + (m.month - 1)

days_in_month-least : (y m : ℕ) → 28 ≤ days_in_month y m
unfolding days_in_month
days_in_month-least y m = ground arith

days_in_month-most : (y m : ℕ) → days_in_month y m ≤ 31
unfolding days_in_month
days_in_month-most y m = ground arith

cycle_end-IsDate : (m : Moment) (c : Cycle) → IsDate m → IsDate (cycle_end m c)
unfolding cycle_end
cycle_end-IsDate m c d = record {
  month_first = omega arith;
  month_last = omega arith;
  day_first = clamped _ (days_in_month-least to.year to.month);
  day_last = omega arith;
}
  where
    to : Moment
    to = cycle_end m c

    clamped : (last : ℕ) → 28 ≤ last → 1 ≤ min m.day last
    clamped last h = omega (arith, d.day_first)

months_of-cycle_end :
    (m : Moment) (c : Cycle)
    → 1 ≤ m.month
    → months_of (cycle_end m c) ≡ months_of m + cycle_months c
unfolding months_of cycle_end
months_of-cycle_end m c h = omega (arith, h)

cycle_months-least : (c : Cycle) → 1 ≤ cycle_months c
unfolding cycle_months
cycle_months-least monthly = omega arith
cycle_months-least quarterly = omega arith
cycle_months-least annual = omega arith

-- A later month is later, whatever the days.
order_key-months_of :
    (a b : Moment)
    → IsDate a
    → IsDate b
    → a.clock ≡ b.clock
    → months_of a < months_of b
    → order_key a < order_key b
unfolding order_key months_of
order_key-months_of a b p q e h = omega (
  arith,
  e,
  h,
  p.month_first,
  q.month_first,
  p.day_last,
  q.day_first,
  days_in_month-most a.year a.month,
)

-- From a date of the calendar, a billing cycle ends on a date of the calendar, as many months on as
-- the cycle has, on the same day or on the last of the month, and strictly later.
pub cycle_end_lem :
    (m : Moment) (c : Cycle)
    → IsDate m
    → let to = cycle_end m c in
      IsDate to
      × (months_of to ≡ months_of m + cycle_months c)
      × (to.day ≡ min m.day (days_in_month to.year to.month))
      × (order_key m < order_key to)
unfolding cycle_end
cycle_end_lem m c d =
    let to = cycle_end-IsDate m c d in
    let months = months_of-cycle_end m c d.month_first in
    (
      to,
      months,
      refl,
      order_key-months_of m (cycle_end m c) d to refl (omega (arith, months, cycle_months-least c)),
    )

-- The earlier of two times is no later than either.
pub order_key-earlier :
    (a b : Moment)
    → (order_key (earlier a b) ≤ order_key a) × (order_key (earlier a b) ≤ order_key b)
unfolding earlier at_most
order_key-earlier a b =
    if_cases (λ x. (order_key x ≤ order_key a) × (order_key x ≤ order_key b))
      (leb (order_key a) (order_key b)) (λ t. (omega arith, leb→le _ _ t))
      (λ t. (ground (arith, t), omega arith))

-- The later of two times is no earlier than either.
pub order_key-later :
    (a b : Moment) → (order_key a ≤ order_key (later a b)) × (order_key b ≤ order_key (later a b))
unfolding later at_most
order_key-later a b =
    if_cases (λ x. (order_key a ≤ order_key x) × (order_key b ≤ order_key x))
      (leb (order_key b) (order_key a)) (λ t. (omega arith, leb→le _ _ t))
      (λ t. (ground (arith, t), omega arith))
