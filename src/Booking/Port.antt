-- ===== src/Booking/Port.antt =====
-- app/booking/availability.py: what `confirm`, `cancel_booking` and `reschedule_booking_atomic`
-- share: the tables that they read, the parsing of a date and a time, `_load_business_service`,
-- `_require_eligible_employees`, `_apply_snapshot` and `_confirmation`.
-- The column `notes` is left out: no operation reads it except to write it again.
use Prim.Native.String.{String}
use text.Mathlib.Text.{◌==◌ as str_eq}
use whatsapp_atendimentos_ag.Prelude.{
  ℕ, Bool, false, not, ◌&&◌, ◌||◌, Option, none, some, List, [], ◌∷◌, ◌==◌, if◌then◌else◌, map,
  keep_if,
}
use whatsapp_atendimentos_ag.Booking.Types.{Uuid, TimeOfDay, BookingRequirements, BookingPlan}
use whatsapp_atendimentos_ag.Booking.Results.{
  Result, ok, err, service_unavailable, invalid_date, invalid_time,
}
use whatsapp_atendimentos_ag.Booking.Slots.{Instant, Date}
use whatsapp_atendimentos_ag.Booking.Capacity.{Appointment, WorkingHours, ScheduleBlock}
use whatsapp_atendimentos_ag.Booking.Business.{TextTools, Business, Service, CatalogItem}
use whatsapp_atendimentos_ag.Booking.Travel.{RouteProvider}
use whatsapp_atendimentos_ag.Booking.Starts.{Rows}
use whatsapp_atendimentos_ag.Booking.Ledger.{Store}
use whatsapp_atendimentos_ag.Booking.Plan.{build_plan, require_automatic_plan}
use whatsapp_atendimentos_ag.Booking.Starts.{
  Rows, Offer, employees_for_exact_start, minimum_bookable_date,
}
use whatsapp_atendimentos_ag.Booking.Results.{◌>>=◌, ◌>>◌, raise_if, date_unavailable}
use whatsapp_atendimentos_ag.Booking.Slots.{Instant}
use whatsapp_atendimentos_ag.Booking.Ledger.{Store}
use whatsapp_atendimentos_ag.Prelude.{ltb}

pub record BusinessRow : Type 0 where
  pub id : Uuid
  pub active : Bool
  pub columns : Business

pub record ServiceRow : Type 0 where
  pub id : Uuid
  pub business_id : Uuid
  pub active : Bool
  pub columns : Service
  -- the catalog item that prices extra tubing
  pub tubing_item : Option CatalogItem

-- A row of `employees` joined with one of `employee_services`.
pub record EmployeeRow : Type 0 where
  pub id : Uuid
  pub business_id : Uuid
  pub service_id : Uuid
  pub active : Bool
  pub is_technician : Bool

-- The tables that a booking only reads, `employees` ordered by id, and what the port is built with:
-- the route provider, the clock and the text and date functions of Python.
pub record Port : Type 0 where
  pub businesses : List BusinessRow
  pub services : List ServiceRow
  pub employees : List EmployeeRow
  pub working_hours : Uuid → List WorkingHours
  pub blocks : Uuid → List ScheduleBlock
  pub tools : TextTools
  pub provider : RouteProvider
  pub now : Instant
  -- date.fromisoformat and its inverse
  pub date_fromisoformat : String → Option Date
  pub isoformat : Date → String
  -- time.fromisoformat: the time and whether it has a tzinfo; strftime("%H:%M")
  pub time_fromisoformat : String → Option (TimeOfDay × Bool)
  pub hours_and_minutes : TimeOfDay → String

unfoldable pub parse_date : Port → String → Result Date
parse_date p value = elim (p.date_fromisoformat value) [
  | none ↦ err invalid_date
  | some d ↦ if str_eq (p.isoformat d) value then ok d else err invalid_date
]

unfoldable pub parse_time : Port → String → Result TimeOfDay
parse_time p value = elim (p.time_fromisoformat value) [
  | none ↦ err invalid_time
  | some (t, zoned) ↦
      if not (str_eq (p.hours_and_minutes t) value) || zoned then err invalid_time else ok t
]

unfoldable pub find_business : Uuid → List BusinessRow → Option BusinessRow
find_business i [] = none
find_business i (r ∷ rs) =
    let rest = find_business i rs in if r.id == i && r.active then some r else rest

unfoldable pub find_service : Uuid → Uuid → List ServiceRow → Option ServiceRow
find_service b i [] = none
find_service b i (r ∷ rs) =
    let rest = find_service b i rs in
    if r.business_id == b && r.id == i && r.active then some r else rest

unfoldable pub both : Option BusinessRow → Option ServiceRow → Result (BusinessRow × ServiceRow)
both (some b) (some s) = ok (b, s)
both _ _ = err service_unavailable

unfoldable pub load_business_service : Port → Uuid → Uuid → Result (BusinessRow × ServiceRow)
load_business_service p business_id service_id =
    both (find_business business_id p.businesses) (find_service business_id service_id p.services)

-- The query of `_require_eligible_employees`.
unfoldable pub eligible_employees : Port → Uuid → Uuid → List Uuid
eligible_employees p business_id service_id =
    map (λ e. e.id)
      (keep_if
        (λ e.
          e.business_id == business_id && e.active && e.is_technician && e.service_id == service_id)
        p.employees)

unfoldable pub rows_of : Port → Store → Uuid → Uuid → Rows
rows_of p st business_id service_id = record {
  eligible = eligible_employees p business_id service_id;
  working_hours = p.working_hours business_id;
  blocks = p.blocks business_id;
  appointments = keep_if (λ a. a.business_id == business_id) st.appointments;
}

pub record BookingConfirmation : Type 0 where
  pub appointment_id : Uuid
  pub starts_at : Instant
  pub ends_at : Instant
  pub employee_id : Uuid

unfoldable pub confirmation : Appointment → BookingConfirmation
confirmation a = record {
  appointment_id = a.id;
  starts_at = a.starts_at;
  ends_at = a.ends_at;
  employee_id = a.employee_id;
}

-- `requirements.quantity or 1`
abbrev or_one : Option ℕ → ℕ
or_one none = 1
or_one (some n) = if n == 0 then 1 else n

-- `_apply_snapshot`; `service_address` stands for the snapshot of the address, its `to_snapshot()`.
unfoldable pub apply_snapshot : Appointment → BookingRequirements → BookingPlan → Appointment
apply_snapshot a q p = record {
  id = a.id;
  business_id = a.business_id;
  customer_id = a.customer_id;
  service_id = a.service_id;
  employee_id = a.employee_id;
  starts_at = a.starts_at;
  ends_at = a.ends_at;
  status = a.status;
  service_address = q.address;
  quantity = or_one q.quantity;
  tubing_meters = q.tubing_meters;
  access_condition = q.access_condition;
  estimated_duration_minutes = p.service.estimated_duration_minutes;
  travel_before_minutes = p.travel_before_minutes;
  travel_after_minutes = p.travel_after_minutes;
  estimated_price = p.service.estimated_price;
  pricing_type = p.service.pricing_type;
  applied_rules = p.service.applied_rules;
  reschedule_pending = false;
  rescheduled = false;
  site_allowed_end = q.site_allowed_end;
  idempotency_key = q.idempotency_key;
}

-- What a request asks for, once it is parsed, its rows are loaded and its plan needs no person.
pub record Checked : Type 0 where
  pub day : Date
  pub time : TimeOfDay
  pub business : Business
  pub service : Service
  pub plan : BookingPlan

-- Lines 502 to 510, and again lines 735 to 743.
unfoldable pub checked : Port → Uuid → Uuid → String → String → BookingRequirements → Result Checked
checked p business_id service_id selected_date selected_time q = do
  day ← parse_date p selected_date
  time ← parse_time p selected_time
  (b, s) ← load_business_service p business_id service_id
  raise_if (ltb day (minimum_bookable_date b.columns p.now)) date_unavailable
  plan ← build_plan p.tools p.provider s.tubing_item b.columns s.columns q
  require_automatic_plan plan
  ok (record { day = day; time = time; business = b.columns; service = s.columns; plan = plan })

-- `_employees_for_exact_start` on what is checked.
unfoldable pub exact_start :
    Port
    → Store
    → Uuid
    → Uuid
    → BookingRequirements
    → Option Uuid
    → Checked
    → Result (List Uuid × Instant × List Offer)
exact_start p st business_id service_id q exclude w =
    employees_for_exact_start p.tools p.provider (rows_of p st business_id service_id) p.now
      w.business q w.plan w.day w.time exclude
