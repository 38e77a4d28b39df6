-- ===== src/Booking/Slots.antt =====
-- app/booking/availability.py: the clock arithmetic of the planner, `_ceil_to_slot`, `_overlaps`
-- and `_within_site_window`.
-- A datetime is a number of microseconds since 0001-01-01 00:00, in UTC (`Instant`) or on the wall
-- clock of the business (`Local`); two local datetimes share their tzinfo, so Python adds to them
-- and compares them on the wall clock. A date is the number of days since 0001-01-01, a Monday.
pub mod Laws
use whatsapp_atendimentos_ag.Prelude.{
  ℕ, zero, suc, ◌+◌, ◌-◌, ◌*◌, ◌/◌, ◌%◌, Bool, true, false, not, ◌&&◌, Option, none, some, ltb, leb,
  ◌==◌, if◌then◌else◌,
}
use whatsapp_atendimentos_ag.Booking.Types.{TimeOfDay, Minutes}
use whatsapp_atendimentos_ag.Booking.Results.{Result, ok, err, invalid_slot_interval}

abbrev pub Instant : Type 0
Instant = ℕ

abbrev pub Local : Type 0
Local = ℕ

abbrev pub Date : Type 0
Date = ℕ

abbrev pub minute : ℕ
minute = 60_000_000

abbrev pub day_length : ℕ
day_length = 86_400_000_000

-- `zoneinfo` and `datetime`: the conversion between the wall clock of the business and UTC, and the
-- month and the day of a date.
pub record Zone : Type 0 where
  pub to_utc : Local → Instant
  pub to_local : Instant → Local
  pub month : Date → ℕ
  pub day_of_month : Date → ℕ

-- `datetime.combine(day, time, timezone_info)`
abbrev pub combine : Date → TimeOfDay → Local
combine day time = day * day_length + time

abbrev pub date_of : Local → Date
date_of t = t / day_length

abbrev pub weekday : Date → ℕ
weekday d = d % 7

-- ± timedelta(minutes = m). Python raises OverflowError below 0001-01-01, where this stops at 0.
abbrev pub plus_minutes : ℕ → Minutes → ℕ
plus_minutes t m = t + m * minute

abbrev pub minus_minutes : ℕ → Minutes → ℕ
minus_minutes t m = t - m * minute

-- The least multiple of `step` at or above `n`: `math.ceil(n / step) * step`.
abbrev pub ceil_to : ℕ → ℕ → ℕ
ceil_to n step = (n + step - 1) / step * step

unfoldable pub ceil_to_slot : Local → Minutes → Result Local
ceil_to_slot value interval_minutes =
    if interval_minutes == 0
    then err invalid_slot_interval
    else (let midnight = value - value % day_length in
        ok (midnight + ceil_to (value % day_length) (interval_minutes * minute)))

unfoldable pub overlaps : Instant → Instant → Instant → Instant → Bool
overlaps first_start first_end second_start second_end =
    ltb first_start second_end && ltb second_start first_end

starts_too_early : Date → Local → Option TimeOfDay → Bool
starts_too_early day start none = false
starts_too_early day start (some allowed) = ltb start (combine day allowed)

ends_too_late : Date → Local → Option TimeOfDay → Bool
ends_too_late day end none = false
ends_too_late day end (some allowed) = ltb (combine day allowed) end

unfoldable pub within_site_window :
    Date → Local → Local → Option TimeOfDay → Option TimeOfDay → Bool
unfolding starts_too_early ends_too_late
within_site_window day service_start service_end site_allowed_start site_allowed_end =
    not (starts_too_early day service_start site_allowed_start)
    && not (ends_too_late day service_end site_allowed_end)
