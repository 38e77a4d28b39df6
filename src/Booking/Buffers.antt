-- ===== src/Booking/Buffers.antt =====
-- app/booking/availability.py: `_operational_buffers` and `_automatic_booking_notice_minutes`, the
-- margins that the planner reserves around a service.
pub mod Laws
use whatsapp_atendimentos_ag.Prelude.{
  ℕ, ◌+◌, ◌-◌, ◌*◌, ◌/◌, Bool, true, false, ◌&&◌, ◌||◌, Option, none, some, min, max, ltb, leb,
  ◌==◌, if◌then◌else◌, is_none, get_or,
}
use whatsapp_atendimentos_ag.Booking.Types.{
  AccessCondition, difficult, Minutes, BookingRequirements, ServiceEstimate,
}

-- The three settings of a business, `None` meaning automatic.
pub record BufferSettings : Type 0 where
  pub preparation_minutes : Option Minutes
  pub finishing_minutes : Option Minutes
  pub interval_between_services_minutes : Option Minutes

pub record Buffers : Type 0 where
  pub preparation : Minutes
  pub finishing : Minutes
  pub interval : Minutes

abbrev pub is_difficult : AccessCondition → Bool
is_difficult difficult = true
is_difficult _ = false

-- `max(1, requirements.quantity or 1)`
abbrev pub at_least_one : Option ℕ → ℕ
at_least_one none = 1
at_least_one (some q) = max 1 q

abbrev pub automatic_preparation : ℕ → AccessCondition → Minutes
automatic_preparation quantity access =
    min 25 (8 + min 12 ((quantity - 1) * 4) + (if is_difficult access then 8 else 0))

abbrev pub automatic_finishing : Minutes → Minutes
automatic_finishing duration = if ltb duration 180 then 8 else 12

abbrev pub automatic_interval : Minutes → Minutes
automatic_interval duration = if ltb duration 120 then 5 else 10

-- One step of the reduction: what is left of an automatic margin and of the overflow.
reduce : Bool → Minutes → ℕ → Minutes
reduce automatic margin overflow = if automatic then margin - min margin overflow else margin

left_over : Bool → Minutes → ℕ → ℕ
left_over automatic margin overflow = if automatic then overflow - min margin overflow else overflow

-- Lines 2019 to 2030: interval first, then finishing, then preparation.
shrink : BufferSettings → Buffers → ℕ → Buffers
unfolding reduce left_over
shrink s b overflow =
    let after_interval =
      left_over (is_none s.interval_between_services_minutes) b.interval overflow in
    let after_finishing = left_over (is_none s.finishing_minutes) b.finishing after_interval in
    record {
      preparation = reduce (is_none s.preparation_minutes) b.preparation after_finishing;
      finishing = reduce (is_none s.finishing_minutes) b.finishing after_interval;
      interval = reduce (is_none s.interval_between_services_minutes) b.interval overflow;
    }

abbrev pub any_automatic : BufferSettings → Bool
any_automatic s =
    is_none s.preparation_minutes
    || is_none s.finishing_minutes
    || is_none s.interval_between_services_minutes

abbrev pub total : Buffers → Minutes
total b = b.preparation + b.finishing + b.interval

-- The margins before the cap: the configured value, or the automatic one.
unfoldable pub uncapped_buffers : BufferSettings → BookingRequirements → ServiceEstimate → Buffers
uncapped_buffers s q e = record {
  preparation =
      get_or s.preparation_minutes
        (automatic_preparation (at_least_one q.quantity) q.access_condition);
  finishing = get_or s.finishing_minutes (automatic_finishing e.estimated_duration_minutes);
  interval =
      get_or s.interval_between_services_minutes (automatic_interval e.estimated_duration_minutes);
}

unfoldable pub operational_buffers :
    BufferSettings → BookingRequirements → ServiceEstimate → Buffers
unfolding shrink
operational_buffers s q e =
    let b = uncapped_buffers s q e in
    if any_automatic s && ltb 50 (total b) then shrink s b (total b - 50) else b

unfoldable pub automatic_booking_notice_minutes : BookingRequirements → ServiceEstimate → Minutes
automatic_booking_notice_minutes q e =
    let notice = if leb 180 e.estimated_duration_minutes then 180 else 120 in
    if leb 3 (at_least_one q.quantity) || is_difficult q.access_condition
    then max notice 240
    else notice
