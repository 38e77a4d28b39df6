-- ===== src/Billing/Calendar.antt =====
-- app/billing/service.py, `_cycle_end`, and the calendar of the standard library that it uses: UTC
-- times as civil dates with a time of day.
pub mod Laws
use whatsapp_atendimentos_ag.Prelude.{
  ℕ, ◌+◌, ◌-◌, ◌*◌, ◌/◌, ◌%◌, Bool, true, false, not, ◌&&◌, ◌||◌, ◌==◌, ltb, leb, if◌then◌else◌,
  min,
}

-- A `datetime` in UTC: `clock` is the time of day in microseconds.
pub record Moment : Type 0 where
  pub year : ℕ
  pub month : ℕ
  pub day : ℕ
  pub clock : ℕ

-- 366 days: each fourth year, of the full centuries each fourth.
unfoldable pub has_leap_day : ℕ → Bool
has_leap_day y = if y % 100 == 0 then y % 400 == 0 else y % 4 == 0

-- `calendar.monthrange(year, month)[1]`
unfoldable pub days_in_month : ℕ → ℕ → ℕ
unfolding has_leap_day
days_in_month y m =
    if (m == 4) || (m == 6) || (m == 9) || (m == 11)
    then 30
    else if not (m == 2)
    then 31
    else if has_leap_day y
    then 29
    else 28

abbrev pub day_clock : ℕ
day_clock = 86400000000

-- Two times in one zone compare field by field, so by this number.
unfoldable pub order_key : Moment → ℕ
order_key m = ((m.year * 12 + m.month) * 32 + m.day) * day_clock + m.clock

unfoldable pub at_most : Moment → Moment → Bool
unfolding order_key
at_most a b = leb (order_key a) (order_key b)

unfoldable pub later : Moment → Moment → Moment
unfolding at_most
later a b = if at_most b a then a else b

unfoldable pub earlier : Moment → Moment → Moment
unfolding at_most
earlier a b = if at_most a b then a else b

-- `m + timedelta(days=n)` for at most 28 days, which end in the month or in the next.
unfoldable pub add_days : Moment → ℕ → Moment
unfolding days_in_month
add_days m n =
    let last = days_in_month m.year m.month in
    if leb (m.day + n) last
    then record m { day = m.day + n }
    else if m.month == 12
    then record m { year = m.year + 1; month = 1; day = m.day + n - last }
    else record m { month = m.month + 1; day = m.day + n - last }

pub data Cycle : Type 0 where
  monthly quarterly annual : Cycle

-- `cycle_months`
unfoldable pub cycle_months : Cycle → ℕ
cycle_months monthly = 1
cycle_months quarterly = 3
cycle_months annual = 12

-- `_cycle_end`
unfoldable pub cycle_end : Moment → Cycle → Moment
unfolding cycle_months days_in_month
cycle_end anchor c =
    let month_index = anchor.month - 1 + cycle_months c in
    let y = anchor.year + month_index / 12 in
    let m = month_index % 12 + 1 in
    record anchor { year = y; month = m; day = min anchor.day (days_in_month y m) }
