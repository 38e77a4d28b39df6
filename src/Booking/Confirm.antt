-- ===== src/Booking/Confirm.antt =====
-- app/booking/availability.py: `confirm`. An error is the exception that leaves the operation; each
-- attempt at a row runs in a savepoint that the exception rolls back, so an error has no store.
pub mod Laws
pub mod Again
pub mod Offered
use Prim.Native.String.{String}
use text.Mathlib.Text.{◌==◌ as str_eq}
use whatsapp_atendimentos_ag.Prelude.{
  ℕ, Bool, true, false, not, ◌&&◌, ◌||◌, Option, none, some, List, [], ◌∷◌, ltb, ◌==◌,
  if◌then◌else◌, any, map, keep_if, get_or, is_none,
}
use whatsapp_atendimentos_ag.Booking.Types.{Uuid, TimeOfDay, BookingRequirements, BookingPlan}
use whatsapp_atendimentos_ag.Booking.Results.{
  Result, ok, err, ◌>>=◌, ◌>>◌, raise_if, service_unavailable, date_unavailable, slot_unavailable,
  invalid_date, invalid_time, appointment_not_found, cannot_be_cancelled, cannot_be_rescheduled,
  integrity_error,
}
use whatsapp_atendimentos_ag.Booking.Slots.{Instant, Date, plus_minutes}
use whatsapp_atendimentos_ag.Booking.Capacity.{
  Appointment, AppointmentStatus, pending, confirmed, cancelled, completed, is_confirmed,
}
use whatsapp_atendimentos_ag.Booking.Business.{TextTools, Business, Service, CatalogItem}
use whatsapp_atendimentos_ag.Booking.Plan.{build_plan, require_automatic_plan}
use whatsapp_atendimentos_ag.Booking.Starts.{
  Rows, Offer, candidate_plan, employees_for_exact_start, minimum_bookable_date,
}
use whatsapp_atendimentos_ag.Booking.Ledger.{
  Notification, WebPushEvent, CustomerOutreach, OutreachType, cleaning_6m, OutreachStatus, sent,
  responded, accepted, Store, Flush, written, exclusion_violated, key_violated, other_violated,
  Database, flush, other_rows, write_row, find_row, find_idempotent_appointment, queue_event,
}
use whatsapp_atendimentos_ag.Booking.Port.{
  Port, parse_date, parse_time, load_business_service, rows_of, BookingConfirmation, confirmation,
  apply_snapshot,
}
use whatsapp_atendimentos_ag.Booking.Port.{checked, exact_start, Checked}

-- `idempotency_key` where it is truthy: neither None nor the empty string.
abbrev pub truthy_key : Option String → Option String
truthy_key none = none
truthy_key (some k) = if str_eq k "" then none else some k

pub record Request : Type 0 where
  pub business_id : Uuid
  pub customer_id : Uuid
  pub service_id : Uuid
  pub selected_date : String
  pub selected_time : String
  pub requirements : BookingRequirements

-- The appointment that an earlier request with the same key has booked.
unfoldable pub idempotent_hit : Store → Request → Option Appointment
idempotent_hit st r = elim (truthy_key r.requirements.idempotency_key) [
  | none ↦ none
  | some k ↦ find_idempotent_appointment st r.business_id r.customer_id k
]

-- The new row of lines 524 to 536, with the snapshot; `id` is the default of its column.
unfoldable pub new_appointment : Uuid → Request → Uuid → Instant → BookingPlan → Appointment
unfolding apply_snapshot
new_appointment id r employee_id starts_at p =
    apply_snapshot
      (record {
        id = id;
        business_id = r.business_id;
        customer_id = r.customer_id;
        service_id = r.service_id;
        employee_id = employee_id;
        starts_at = starts_at;
        ends_at = plus_minutes starts_at p.service.estimated_duration_minutes;
        status = confirmed;
        service_address = none;
        quantity = 1;
        tubing_meters = none;
        access_condition = r.requirements.access_condition;
        estimated_duration_minutes = 0;
        travel_before_minutes = 0;
        travel_after_minutes = 0;
        estimated_price = none;
        pricing_type = p.service.pricing_type;
        applied_rules = [];
        reschedule_pending = false;
        rescheduled = false;
        site_allowed_end = none;
        idempotency_key = none;
      })
      r.requirements p

abbrev is_cleaning : OutreachType → Bool
is_cleaning cleaning_6m = true
is_cleaning _ = false

abbrev is_answerable : OutreachStatus → Bool
is_answerable sent = true
is_answerable responded = true
is_answerable _ = false

abbrev accepted_with : Uuid → CustomerOutreach → CustomerOutreach
accepted_with i o = record {
  id = o.id;
  business_id = o.business_id;
  customer_id = o.customer_id;
  outreach_type = o.outreach_type;
  status = accepted;
  result_appointment_id = some i;
}

-- The UPDATE of `customer_outreach`, lines 559 to 575.
unfoldable pub accept_outreach :
    Option Uuid → Appointment → List CustomerOutreach → List CustomerOutreach
accept_outreach none a os = os
accept_outreach (some i) a os =
    map
      (λ o.
        if o.id == i
          && o.business_id == a.business_id
          && o.customer_id == a.customer_id
          && is_cleaning o.outreach_type
          && is_answerable o.status
        then accepted_with a.id o
        else o)
      os

-- The writes of one savepoint whose flushes pass.
unfoldable pub add_appointment : Appointment → Option Uuid → Store → Store
unfolding accept_outreach
add_appointment a outreach st = record {
  appointments = a ∷ st.appointments;
  notifications =
      record { business_id = a.business_id; appointment_id = a.id; read_at = none }
      ∷ st.notifications;
  push_events = record { business_id = a.business_id; appointment_id = a.id } ∷ st.push_events;
  outreaches = accept_outreach outreach a st.outreaches;
  queued_events = st.queued_events;
}

abbrev pub found : Appointment → Store → Result (BookingConfirmation × Store)
found a st = ok (confirmation a, queue_event a.id st)

-- The handler of an IntegrityError of the key's index.
unfoldable pub after_key_violation :
    Option Appointment → Store → Result (BookingConfirmation × Store)
unfolding confirmation
after_key_violation none st = err integrity_error
after_key_violation (some a) st = found a st

unfoldable pub after_flush :
    Flush
    → Appointment
    → Request
    → Store
    → Result (BookingConfirmation × Store)
    → Result (BookingConfirmation × Store)
unfolding confirmation
after_flush written a r st rest = found a (add_appointment a r.requirements.cleaning_outreach_id st)
after_flush exclusion_violated a r st rest = rest
after_flush key_violated a r st rest = after_key_violation (idempotent_hit st r) st
after_flush other_violated a r st rest = err integrity_error

-- The loop of lines 519 to 599 over the rows to try.
unfoldable pub confirm_each :
    Database → Request → Store → List Appointment → Result (BookingConfirmation × Store)
confirm_each db r st [] = err slot_unavailable
confirm_each db r st (a ∷ rows) =
    let rest = confirm_each db r st rows in after_flush (flush db st.appointments a) a r st rest

-- The rows of the loop: for each employee the new row with the plan of the search.
unfoldable pub rows_to_try :
    Uuid → Request → Business → BookingPlan → List Uuid → Instant → List Offer → List Appointment
rows_to_try id r b plan employee_ids starts_at offers =
    map
      (λ i.
        new_appointment id r i starts_at (get_or (candidate_plan b.zone i starts_at offers) plan))
      employee_ids

-- Lines 502 to 518: what a request without an earlier booking tries, before it writes.
unfoldable pub prepare : Port → Uuid → Request → Store → Result (List Appointment)
prepare p id r st = do
  w ← checked p r.business_id r.service_id r.selected_date r.selected_time r.requirements
  e ← exact_start p st r.business_id r.service_id r.requirements none w
  ok (rows_to_try id r w.business w.plan e.0 e.1 e.2)

unfoldable pub confirm_new :
    Port → Database → Uuid → Request → Store → Result (BookingConfirmation × Store)
confirm_new p db id r st = do rows ← prepare p id r st; confirm_each db r st rows

-- By the booking that the key has made before.
unfoldable pub confirm_unless :
    Option Appointment
    → Port
    → Database
    → Uuid
    → Request
    → Store
    → Result (BookingConfirmation × Store)
unfolding confirmation
confirm_unless (some a) p db id r st = found a st
confirm_unless none p db id r st = confirm_new p db id r st

unfoldable pub confirm :
    Port → Database → Uuid → Request → Store → Result (BookingConfirmation × Store)
confirm p db id r st = confirm_unless (idempotent_hit st r) p db id r st
