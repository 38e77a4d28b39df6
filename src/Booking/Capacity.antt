-- ===== src/Booking/Capacity.antt =====
-- app/booking/availability.py: `_CapacityData`, `_operating_ranges_for_day` and `_has_conflict`.
pub mod Laws
use Prim.Native.String.{String}
use whatsapp_atendimentos_ag.Prelude.{
  ℕ, ◌+◌, ◌-◌, ◌%◌, Bool, true, false, not, ◌&&◌, ◌||◌, Option, none, some, List, [], ◌∷◌, map, ltb,
  leb, ◌==◌, if◌then◌else◌, is_none, any, keep_if,
}
use whatsapp_atendimentos_ag.Booking.Types.{
  Uuid, TimeOfDay, Minutes, Cents, Hundredths, ServiceAddress, AccessCondition, PricingType, Rule,
}
use whatsapp_atendimentos_ag.Booking.Slots.{
  Instant, Date, Zone, weekday, plus_minutes, minus_minutes, overlaps,
}

pub record WorkingHours : Type 0 where
  pub employee_id : Uuid
  pub weekday : ℕ
  pub start_time : TimeOfDay
  pub end_time : TimeOfDay

pub record ScheduleBlock : Type 0 where
  pub employee_id : Uuid
  pub starts_at : Instant
  pub ends_at : Instant

pub data AppointmentStatus : Type 0 where
  pending confirmed cancelled completed : AppointmentStatus

-- The columns of `Appointment` that the booking port reads or writes. Of `estimate_details` it has
-- the two flags of a reschedule and the rules of the estimate.
pub record Appointment : Type 0 where
  pub id : Uuid
  pub business_id : Uuid
  pub customer_id : Uuid
  pub service_id : Uuid
  pub employee_id : Uuid
  pub starts_at : Instant
  pub ends_at : Instant
  pub status : AppointmentStatus
  pub service_address : Option ServiceAddress
  pub quantity : ℕ
  pub tubing_meters : Option Hundredths
  pub access_condition : AccessCondition
  pub estimated_duration_minutes : Minutes
  pub travel_before_minutes : Minutes
  pub travel_after_minutes : Minutes
  pub estimated_price : Option Cents
  pub pricing_type : PricingType
  pub applied_rules : List Rule
  pub reschedule_pending : Bool
  pub rescheduled : Bool
  pub site_allowed_end : Option TimeOfDay
  pub idempotency_key : Option String

pub record CapacityData : Type 0 where
  pub employee_ids : List Uuid
  pub working_hours : List WorkingHours
  pub blocks : List ScheduleBlock
  pub appointments : List Appointment

-- The operating hours of a business.
pub record OperatingHours : Type 0 where
  pub operating_weekdays : List ℕ
  pub weekday_start_time : Option TimeOfDay
  pub weekday_end_time : Option TimeOfDay
  pub weekend_holiday_enabled : Bool
  pub weekend_holiday_start_time : Option TimeOfDay
  pub weekend_holiday_end_time : Option TimeOfDay

-- BRAZIL_NATIONAL_FIXED_HOLIDAYS
abbrev holiday : ℕ → ℕ → Bool
holiday month day =
    (month == 1 && day == 1)
    || (month == 4 && day == 21)
    || (month == 5 && day == 1)
    || (month == 9 && day == 7)
    || (month == 10 && day == 12)
    || (month == 11 && (day == 2 || day == 15 || day == 20))
    || (month == 12 && day == 25)

unfoldable pub is_brazil_national_holiday : Zone → Date → Bool
is_brazil_national_holiday z d = holiday (z.month d) (z.day_of_month d)

pub record Range : Type 0 where
  pub employee_id : Uuid
  pub range_start : TimeOfDay
  pub range_end : TimeOfDay

abbrev pub configured_weekdays : OperatingHours → List ℕ
configured_weekdays b = keep_if (λ v. leb v 4) b.operating_weekdays

abbrev is_empty : List ℕ → Bool
is_empty [] = true
is_empty (x ∷ xs) = false

abbrev pub company_hours_configured : OperatingHours → Bool
company_hours_configured b =
    not (is_empty (configured_weekdays b))
    && not (is_none b.weekday_start_time)
    && not (is_none b.weekday_end_time)

-- The hours of all employees, `None` for either end meaning none.
unfoldable pub everybody : List Uuid → Option TimeOfDay → Option TimeOfDay → List Range
everybody ids (some s) (some e) =
    map (λ i. record { employee_id = i; range_start = s; range_end = e }) ids
everybody ids _ _ = []

unfoldable pub own_hours : Date → List WorkingHours → List Range
own_hours d items =
    map
      (λ w. record {
        employee_id = w.employee_id;
        range_start = w.start_time;
        range_end = w.end_time;
      })
      (keep_if (λ w. w.weekday == weekday d) items)

unfoldable pub operating_ranges_for_day : Zone → OperatingHours → Date → CapacityData → List Range
unfolding everybody own_hours is_brazil_national_holiday
operating_ranges_for_day z b d c =
    if not (company_hours_configured b)
    then own_hours d c.working_hours
    else if leb 5 (weekday d) || is_brazil_national_holiday z d
    then (if b.weekend_holiday_enabled
        then everybody c.employee_ids b.weekend_holiday_start_time b.weekend_holiday_end_time
        else [])
    else if any (λ v. v == weekday d) (configured_weekdays b)
    then everybody c.employee_ids b.weekday_start_time b.weekday_end_time
    else []

abbrev pub is_confirmed : AppointmentStatus → Bool
is_confirmed confirmed = true
is_confirmed _ = false

-- What an appointment takes of its employee's time, the travel included.
abbrev pub existing_start : Appointment → Instant
existing_start a = minus_minutes a.starts_at a.travel_before_minutes

abbrev pub existing_end : Appointment → Instant
existing_end a = plus_minutes a.ends_at a.travel_after_minutes

abbrev pub block_conflicts : Uuid → Instant → Instant → ScheduleBlock → Bool
block_conflicts employee_id start end b =
    b.employee_id == employee_id && overlaps start end b.starts_at b.ends_at

abbrev pub appointment_conflicts : Uuid → Instant → Instant → Appointment → Bool
appointment_conflicts employee_id start end a =
    a.employee_id == employee_id
    && is_confirmed a.status
    && overlaps start end (existing_start a) (existing_end a)

-- The two loops of the source, each left by `return True` at the first conflict.
unfoldable pub conflicts_block : Uuid → Instant → Instant → List ScheduleBlock → Bool
conflicts_block employee_id start end [] = false
conflicts_block employee_id start end (b ∷ bs) =
    let rest = conflicts_block employee_id start end bs in
    if block_conflicts employee_id start end b then true else rest

unfoldable pub conflicts_appointment : Uuid → Instant → Instant → List Appointment → Bool
conflicts_appointment employee_id start end [] = false
conflicts_appointment employee_id start end (a ∷ as') =
    let rest = conflicts_appointment employee_id start end as' in
    if not (a.employee_id == employee_id) || not (is_confirmed a.status)
    then rest
    else if overlaps start end (existing_start a) (existing_end a)
    then true
    else rest

unfoldable pub has_conflict : Uuid → Instant → Instant → CapacityData → Bool
has_conflict employee_id start end c =
    if conflicts_block employee_id start end c.blocks
    then true
    else conflicts_appointment employee_id start end c.appointments
