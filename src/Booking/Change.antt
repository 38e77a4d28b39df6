-- ===== src/Booking/Change.antt =====
-- app/booking/availability.py: `cancel_booking` and `reschedule_booking_atomic`. An error is the
-- exception that leaves the operation, with no store: its savepoints are rolled back.
pub mod Laws
pub mod Again
pub mod Moved
use Prim.Native.String.{String}
use text.Mathlib.Text.{◌==◌ as str_eq}
use whatsapp_atendimentos_ag.Prelude.{
  ℕ, Bool, true, false, not, ◌&&◌, ◌||◌, Option, none, some, List, [], ◌∷◌, ltb, ◌==◌,
  if◌then◌else◌, any, map, keep_if, get_or, is_none,
}
use whatsapp_atendimentos_ag.Booking.Types.{Uuid, TimeOfDay, BookingRequirements, BookingPlan}
use whatsapp_atendimentos_ag.Booking.Results.{
  Result, ok, err, ◌>>=◌, ◌>>◌, raise_if, service_unavailable, date_unavailable, slot_unavailable,
  invalid_date, invalid_time, appointment_not_found, cannot_be_cancelled, cannot_be_rescheduled,
  integrity_error,
}
use whatsapp_atendimentos_ag.Booking.Slots.{Instant, Date, plus_minutes}
use whatsapp_atendimentos_ag.Booking.Capacity.{
  Appointment, AppointmentStatus, pending, confirmed, cancelled, completed, is_confirmed,
}
use whatsapp_atendimentos_ag.Booking.Business.{TextTools, Business, Service, CatalogItem}
use whatsapp_atendimentos_ag.Booking.Plan.{build_plan, require_automatic_plan}
use whatsapp_atendimentos_ag.Booking.Starts.{
  Rows, Offer, candidate_plan, employees_for_exact_start, minimum_bookable_date,
}
use whatsapp_atendimentos_ag.Booking.Ledger.{
  Notification, WebPushEvent, CustomerOutreach, OutreachType, cleaning_6m, OutreachStatus, sent,
  responded, accepted, Store, Flush, written, exclusion_violated, key_violated, other_violated,
  Database, flush, other_rows, write_row, find_row, find_idempotent_appointment, queue_event,
}
use whatsapp_atendimentos_ag.Booking.Port.{
  Port, parse_date, parse_time, load_business_service, rows_of, BookingConfirmation, confirmation,
  apply_snapshot,
}
use whatsapp_atendimentos_ag.Booking.Port.{checked, exact_start, Checked}

-- `_lock_customer_appointment`
unfoldable pub lock_customer_appointment : Store → Uuid → Uuid → Uuid → Result Appointment
lock_customer_appointment st business_id customer_id i =
    elim (find_row (λ a. a.id == i && a.business_id == business_id && a.customer_id == customer_id)
      st.appointments) [ none ↦ err appointment_not_found | some a ↦ ok a ]

-- The row with another status.
unfoldable pub with_status : AppointmentStatus → Appointment → Appointment
with_status status a = record {
  id = a.id;
  business_id = a.business_id;
  customer_id = a.customer_id;
  service_id = a.service_id;
  employee_id = a.employee_id;
  starts_at = a.starts_at;
  ends_at = a.ends_at;
  status = status;
  service_address = a.service_address;
  quantity = a.quantity;
  tubing_meters = a.tubing_meters;
  access_condition = a.access_condition;
  estimated_duration_minutes = a.estimated_duration_minutes;
  travel_before_minutes = a.travel_before_minutes;
  travel_after_minutes = a.travel_after_minutes;
  estimated_price = a.estimated_price;
  pricing_type = a.pricing_type;
  applied_rules = a.applied_rules;
  reschedule_pending = a.reschedule_pending;
  rescheduled = a.rescheduled;
  site_allowed_end = a.site_allowed_end;
  idempotency_key = a.idempotency_key;
}

abbrev marked_read : Instant → Notification → Notification
marked_read now n = record {
  business_id = n.business_id;
  appointment_id = n.appointment_id;
  read_at = some (get_or n.read_at now);
}

-- The notification of an appointment, of which the table has one at most, marked as read.
unfoldable pub read_notification : Instant → Uuid → Uuid → List Notification → List Notification
read_notification now business_id appointment_id ns =
    map
      (λ n.
        if n.business_id == business_id && n.appointment_id == appointment_id
        then marked_read now n
        else n)
      ns

-- The store with another row of an id.
abbrev pub save_row : Appointment → Store → Store
save_row a st = record {
  appointments = write_row a st.appointments;
  notifications = st.notifications;
  push_events = st.push_events;
  outreaches = st.outreaches;
  queued_events = st.queued_events;
}

abbrev set_notifications : List Notification → Store → Store
set_notifications ns st = record {
  appointments = st.appointments;
  notifications = ns;
  push_events = st.push_events;
  outreaches = st.outreaches;
  queued_events = st.queued_events;
}

unfoldable pub cancel_row :
    AppointmentStatus → Instant → Appointment → Store → Result (BookingConfirmation × Store)
unfolding write_row with_status read_notification confirmation
cancel_row confirmed now a st = ok (
  confirmation (with_status cancelled a),
  set_notifications (read_notification now a.business_id a.id st.notifications)
      (save_row (with_status cancelled a) st),
)
cancel_row cancelled now a st = ok (confirmation a, st)
cancel_row _ now a st = err cannot_be_cancelled

unfoldable pub cancel_booking :
    Instant → Uuid → Uuid → Uuid → Store → Result (BookingConfirmation × Store)
cancel_booking now business_id customer_id i st = do
  a ← lock_customer_appointment st business_id customer_id i
  cancel_row a.status now a st

abbrev is_pending : AppointmentStatus → Bool
is_pending pending = true
is_pending _ = false

-- `status == "confirmed"` or `is_pending_reschedule`
unfoldable pub can_reschedule : Appointment → Bool
can_reschedule a = is_confirmed a.status || (is_pending a.status && a.reschedule_pending)

abbrev moved_to : Uuid → Instant → Instant → Appointment → Appointment
moved_to employee_id starts_at ends_at a = record {
  id = a.id;
  business_id = a.business_id;
  customer_id = a.customer_id;
  service_id = a.service_id;
  employee_id = employee_id;
  starts_at = starts_at;
  ends_at = ends_at;
  status = a.status;
  service_address = a.service_address;
  quantity = a.quantity;
  tubing_meters = a.tubing_meters;
  access_condition = a.access_condition;
  estimated_duration_minutes = a.estimated_duration_minutes;
  travel_before_minutes = a.travel_before_minutes;
  travel_after_minutes = a.travel_after_minutes;
  estimated_price = a.estimated_price;
  pricing_type = a.pricing_type;
  applied_rules = a.applied_rules;
  reschedule_pending = a.reschedule_pending;
  rescheduled = a.rescheduled;
  site_allowed_end = a.site_allowed_end;
  idempotency_key = a.idempotency_key;
}

-- The last assignments of the attempt: the details, the status and the key from before.
abbrev completed_as : Option String → Appointment → Appointment
completed_as key a = record {
  id = a.id;
  business_id = a.business_id;
  customer_id = a.customer_id;
  service_id = a.service_id;
  employee_id = a.employee_id;
  starts_at = a.starts_at;
  ends_at = a.ends_at;
  status = confirmed;
  service_address = a.service_address;
  quantity = a.quantity;
  tubing_meters = a.tubing_meters;
  access_condition = a.access_condition;
  estimated_duration_minutes = a.estimated_duration_minutes;
  travel_before_minutes = a.travel_before_minutes;
  travel_after_minutes = a.travel_after_minutes;
  estimated_price = a.estimated_price;
  pricing_type = a.pricing_type;
  applied_rules = a.applied_rules;
  reschedule_pending = false;
  rescheduled = true;
  site_allowed_end = a.site_allowed_end;
  idempotency_key = key;
}

-- The row that an attempt with one employee flushes, lines 755 to 782.
unfoldable pub rescheduled_row :
    Appointment → BookingRequirements → BookingPlan → Uuid → Instant → Appointment
unfolding apply_snapshot
rescheduled_row a q p employee_id starts_at = completed_as a.idempotency_key (
    apply_snapshot
      (moved_to employee_id starts_at (plus_minutes starts_at p.service.estimated_duration_minutes)
        a)
      q p)

unfoldable pub after_update :
    Flush
    → Appointment
    → Store
    → Result (BookingConfirmation × Store)
    → Result (BookingConfirmation × Store)
unfolding write_row confirmation
after_update written a st rest = ok (confirmation a, save_row a st)
after_update exclusion_violated a st rest = rest
after_update key_violated a st rest = err integrity_error
after_update other_violated a st rest = err integrity_error

-- The loop of lines 753 to 790 over the rows to try.
unfoldable pub reschedule_each :
    Database → Store → List Appointment → Result (BookingConfirmation × Store)
reschedule_each db st [] = err slot_unavailable
reschedule_each db st (a ∷ rows) =
    let rest = reschedule_each db st rows in
    after_update (flush db (other_rows a.id st.appointments) a) a st rest

-- Lines 722 to 752: the rows to try.
unfoldable pub prepare_reschedule :
    Port → Appointment → String → String → BookingRequirements → Store → Result (List Appointment)
prepare_reschedule p a selected_date selected_time q st = do
  raise_if (not (can_reschedule a)) cannot_be_rescheduled
  w ← checked p a.business_id a.service_id selected_date selected_time q
  e ← exact_start p st a.business_id a.service_id q (some a.id) w
  ok (map (λ i. rescheduled_row a q w.plan i e.1) e.0)

unfoldable pub reschedule_booking_atomic :
    Port
    → Database
    → Uuid
    → Uuid
    → Uuid
    → String
    → String
    → BookingRequirements
    → Store
    → Result (BookingConfirmation × Store)
reschedule_booking_atomic p db business_id customer_id i selected_date selected_time q st = do
  a ← lock_customer_appointment st business_id customer_id i
  rows ← prepare_reschedule p a selected_date selected_time q st
  reschedule_each db st rows
