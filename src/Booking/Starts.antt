-- ===== src/Booking/Starts.antt =====
-- app/booking/availability.py: `_load_capacity` over the rows of the business, `_available_starts`,
-- `_employees_for_exact_start` and `_minimum_bookable_date`.
pub mod Laws
pub mod Sound
pub mod Complete
use whatsapp_atendimentos_ag.Prelude.{
  ℕ, zero, suc, ◌+◌, ◌-◌, ◌*◌, ◌/◌, Bool, true, false, not, ◌&&◌, ◌||◌, Option, none, some, List,
  [], ◌∷◌, ◌++◌, ltb, leb, ◌==◌, if◌then◌else◌, keep_if, any,
}
use whatsapp_atendimentos_ag.Booking.Types.{
  Uuid, TimeOfDay, Minutes, BookingRequirements, BookingPlan,
}
use whatsapp_atendimentos_ag.Booking.Slots.{
  Instant, Local, Date, Zone, minute, combine, date_of, plus_minutes, minus_minutes, ceil_to_slot,
  within_site_window,
}
use whatsapp_atendimentos_ag.Booking.Buffers.{automatic_booking_notice_minutes}
use whatsapp_atendimentos_ag.Booking.Capacity.{
  Appointment, ScheduleBlock, WorkingHours, CapacityData, Range, is_confirmed, existing_start,
  existing_end, has_conflict, operating_ranges_for_day,
}
use whatsapp_atendimentos_ag.Booking.Results.{
  Result, ok, err, no_technician, slot_unavailable, ◌>>=◌,
}
use whatsapp_atendimentos_ag.Booking.Business.{TextTools, Business}
use whatsapp_atendimentos_ag.Booking.Travel.{RouteProvider}
use whatsapp_atendimentos_ag.Booking.Schedule.{schedule_aware_plan}

-- The rows of one business that the capacity queries read; `eligible` are its active technicians
-- for the service, in the order of their ids.
pub record Rows : Type 0 where
  pub eligible : List Uuid
  pub working_hours : List WorkingHours
  pub blocks : List ScheduleBlock
  pub appointments : List Appointment

abbrev pub listed : Uuid → List Uuid → Bool
listed i ids = any (λ j. j == i) ids

abbrev not_excluded : Option Uuid → Uuid → Bool
not_excluded none i = true
not_excluded (some x) i = not (i == x)

abbrev pub loads_block : List Uuid → Instant → Instant → ScheduleBlock → Bool
loads_block ids utc_start utc_end k =
    listed k.employee_id ids && ltb k.starts_at utc_end && ltb utc_start k.ends_at

abbrev pub loads_appointment : List Uuid → Instant → Instant → Option Uuid → Appointment → Bool
loads_appointment ids utc_start utc_end exclude a =
    listed a.employee_id ids
    && is_confirmed a.status
    && ltb (existing_start a) utc_end
    && ltb utc_start (existing_end a)
    && not_excluded exclude a.id

unfoldable pub load_capacity : Rows → Instant → Instant → Option Uuid → Result CapacityData
load_capacity r utc_start utc_end exclude = elim r.eligible [
  | [] ↦ err no_technician
  | i ∷ ids ↦ ok (record {
    employee_ids = i ∷ ids;
    working_hours = keep_if (λ w. listed w.employee_id (i ∷ ids)) r.working_hours;
    blocks = keep_if (loads_block (i ∷ ids) utc_start utc_end) r.blocks;
    appointments = keep_if (loads_appointment (i ∷ ids) utc_start utc_end exclude) r.appointments;
  })
]

-- A candidate that the search keeps: an entry of `starts` and of `_candidate_plans`.
pub record Offer : Type 0 where
  pub start : Local
  pub employee_id : Uuid
  pub plan : BookingPlan

-- What the loops read and do not change.
pub record Search : Type 0 where
  pub tools : TextTools
  pub provider : RouteProvider
  pub business : Business
  pub requirements : BookingRequirements
  pub plan : BookingPlan
  pub capacity : CapacityData
  pub earliest_allowed_start : Local

abbrev pub service_end : Search → Local → Local
service_end s candidate = plus_minutes candidate s.plan.service.estimated_duration_minutes

-- The test of lines 1298 to 1314.
unfoldable pub accepts : Search → Date → Uuid → Local → BookingPlan → Bool
accepts s day employee_id candidate p =
    let z = s.business.zone in
    let end = service_end s candidate in
    ltb s.earliest_allowed_start candidate
    && not p.requires_handoff
    && within_site_window day candidate end s.requirements.site_allowed_start
        s.requirements.site_allowed_end
    && not (
        has_conflict employee_id (z.to_utc (minus_minutes candidate p.travel_before_minutes))
          (z.to_utc (plus_minutes end p.travel_after_minutes)) s.capacity)

abbrev pub offer : Local → Uuid → BookingPlan → Offer
offer start employee_id plan = record { start = start; employee_id = employee_id; plan = plan }

-- One round of the inner loop, lines 1280 to 1321.
unfoldable pub try_candidate : Search → Date → Uuid → Local → Result (List Offer)
try_candidate s day employee_id candidate = do
  p ←
      schedule_aware_plan s.tools s.provider s.business s.requirements s.plan employee_id candidate
        (service_end s candidate) s.capacity.appointments
  ok (if accepts s day employee_id candidate p then offer candidate employee_id p ∷ [] else [])

-- `while candidate <= latest_service_start`, with the subtraction of line 1269 on the other side.
abbrev pub fits_range : Search → Local → Local → Bool
fits_range s operational_end candidate =
    leb
      (candidate
        + (s.plan.service.estimated_duration_minutes + s.plan.travel_after_minutes) * minute)
      operational_end

unfoldable pub scan : ℕ → Search → Date → Uuid → Local → Local → Result (List Offer)
scan zero s day employee_id operational_end candidate = ok []
scan (suc fuel) s day employee_id operational_end candidate =
    let rest =
      scan fuel s day employee_id operational_end
        (plus_minutes candidate s.business.slot_interval_minutes) in
    if fits_range s operational_end candidate
    then (do here ← try_candidate s day employee_id candidate; more ← rest; ok (here ++ more))
    else ok []

-- One candidate every interval, from the first to the end of the range.
abbrev pub rounds : Search → Local → ℕ
rounds s operational_end = operational_end / (s.business.slot_interval_minutes * minute) + 1

-- Lines 1264 to 1322 for one range.
unfoldable pub scan_range : Search → Date → Range → Result (List Offer)
unfolding scan
scan_range s day r = do
  first ←
      ceil_to_slot (plus_minutes (combine day r.range_start) s.plan.travel_before_minutes)
        s.business.slot_interval_minutes
  scan (rounds s (combine day r.range_end)) s day r.employee_id (combine day r.range_end) first

unfoldable pub scan_ranges : Search → Date → List Range → Result (List Offer)
unfolding scan_range
scan_ranges s day [] = ok []
scan_ranges s day (r ∷ rs) = do
  here ← scan_range s day r
  more ← scan_ranges s day rs
  ok (here ++ more)

-- `while day <= last_date`, by the number of days left.
unfoldable pub scan_days : ℕ → Search → Date → Result (List Offer)
unfolding scan_ranges
scan_days zero s day = ok []
scan_days (suc n) s day = do
  here ←
      scan_ranges s day (operating_ranges_for_day s.business.zone s.business.hours day s.capacity)
  more ← scan_days n s (day + 1)
  ok (here ++ more)

unfoldable pub earliest_allowed : Business → BookingRequirements → BookingPlan → Instant → Local
earliest_allowed b q plan now =
    plus_minutes (b.zone.to_local now) (elim b.minimum_booking_notice_minutes [
      | none ↦ automatic_booking_notice_minutes q plan.service
      | some notice ↦ notice
    ])

unfoldable pub search_for :
    TextTools
    → RouteProvider
    → Business
    → BookingRequirements
    → BookingPlan
    → CapacityData
    → Instant
    → Search
search_for tools provider b q plan capacity now = record {
  tools = tools;
  provider = provider;
  business = b;
  requirements = q;
  plan = plan;
  capacity = capacity;
  earliest_allowed_start = earliest_allowed b q plan now;
}

-- `_available_starts`: the offers in the order in which the loops find them.
unfoldable pub available_starts :
    TextTools
    → RouteProvider
    → Rows
    → Instant
    → Business
    → BookingRequirements
    → BookingPlan
    → Date
    → Date
    → Option Uuid
    → Result (List Offer)
available_starts tools provider rows now b q plan first_date last_date exclude = do
  capacity ←
      load_capacity rows (b.zone.to_utc (combine first_date 0))
        (b.zone.to_utc (combine (last_date + 1) 0)) exclude
  scan_days (last_date + 1 - first_date) (search_for tools provider b q plan capacity now)
      first_date

-- `_candidate_plans[(employee_id, start in UTC)]`: the entry written last.
unfoldable pub candidate_plan : Zone → Uuid → Instant → List Offer → Option BookingPlan
candidate_plan z employee_id start [] = none
candidate_plan z employee_id start (o ∷ os) = elim (candidate_plan z employee_id start os) [
  | some p ↦ some p
  | none ↦ if o.employee_id == employee_id && z.to_utc o.start == start then some o.plan else none
]

abbrev pub travel_total : BookingPlan → Minutes
travel_total p = p.travel_before_minutes + p.travel_after_minutes

abbrev pub total_of : Zone → List Offer → Instant → Uuid → Minutes
total_of z os start employee_id = elim (candidate_plan z employee_id start os) [
  | none ↦ 0
  | some p ↦ travel_total p
]

-- The sort key of lines 1328 to 1336: the reserved travel, then the id.
abbrev pub before : Zone → List Offer → Instant → Uuid → Uuid → Bool
before z os start i j =
    let ti = total_of z os start i in
    let tj = total_of z os start j in ltb ti tj || (ti == tj && leb i j)

unfoldable pub insert_by : (Uuid → Uuid → Bool) → Uuid → List Uuid → List Uuid
insert_by le i [] = i ∷ []
insert_by le i (j ∷ js) = let rest = insert_by le i js in if le i j then i ∷ j ∷ js else j ∷ rest

-- `starts[start]` as a sorted tuple; the source's set keeps each id once.
unfoldable pub employees_at : Zone → List Offer → Local → List Offer → List Uuid
unfolding insert_by candidate_plan
employees_at z all start [] = []
employees_at z all start (o ∷ os) =
    let rest = employees_at z all start os in
    if o.start == start && not (listed o.employee_id rest)
    then insert_by (before z all (z.to_utc start)) o.employee_id rest
    else rest

-- `if not employee_ids: raise`
unfoldable pub if_any : List Uuid → Instant → List Offer → Result (List Uuid × Instant × List Offer)
if_any [] start offers = err slot_unavailable
if_any (i ∷ ids) start offers = ok (i ∷ ids, start, offers)

-- `_employees_for_exact_start`
unfoldable pub employees_for_exact_start :
    TextTools
    → RouteProvider
    → Rows
    → Instant
    → Business
    → BookingRequirements
    → BookingPlan
    → Date
    → TimeOfDay
    → Option Uuid
    → Result (List Uuid × Instant × List Offer)
unfolding employees_at if_any
employees_for_exact_start tools provider rows now b q plan day time exclude = do
  offers ← available_starts tools provider rows now b q plan day day exclude
  if_any (employees_at b.zone offers (combine day time) offers) (b.zone.to_utc (combine day time))
      offers

-- `_minimum_bookable_date`, with MIN_FULL_BOOKING_LEAD_DAYS
unfoldable pub minimum_bookable_date : Business → Instant → Date
minimum_bookable_date b now = date_of (b.zone.to_local now) + (3 + 1)
