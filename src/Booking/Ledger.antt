-- ===== src/Booking/Ledger.antt =====
-- app/models/domain.py: the tables that a booking writes, and the constraints of `appointments`
-- that PostgreSQL checks at each flush.
pub mod Laws
use Prim.Native.String.{String}
use text.Mathlib.Text.{◌==◌ as str_eq}
use whatsapp_atendimentos_ag.Prelude.{
  ℕ, Bool, true, false, not, ◌&&◌, ◌||◌, Option, none, some, List, [], ◌∷◌, ltb, ◌==◌,
  if◌then◌else◌, any, map, keep_if,
}
use whatsapp_atendimentos_ag.Booking.Types.{Uuid}
use whatsapp_atendimentos_ag.Booking.Slots.{Instant}
use whatsapp_atendimentos_ag.Booking.Capacity.{
  Appointment, is_confirmed, existing_start, existing_end,
}

-- A row of `business_notifications`, its event being the only one that the table allows.
pub record Notification : Type 0 where
  pub business_id : Uuid
  pub appointment_id : Uuid
  pub read_at : Option Instant

-- A row of `web_push_events` of the type `automatic_booking`.
pub record WebPushEvent : Type 0 where
  pub business_id : Uuid
  pub appointment_id : Uuid

pub data OutreachType : Type 0 where
  incomplete_24h cleaning_6m : OutreachType

pub data OutreachStatus : Type 0 where
  pending sent skipped responded accepted declined failed : OutreachStatus

pub record CustomerOutreach : Type 0 where
  pub id : Uuid
  pub business_id : Uuid
  pub customer_id : Uuid
  pub outreach_type : OutreachType
  pub status : OutreachStatus
  pub result_appointment_id : Option Uuid

-- `queued_events` is the set of ids that `session.info` keeps for the analytics.
pub record Store : Type 0 where
  pub appointments : List Appointment
  pub notifications : List Notification
  pub push_events : List WebPushEvent
  pub outreaches : List CustomerOutreach
  pub queued_events : List Uuid

-- The `tstzrange`s with bounds `[)` share an instant (`&&`); an empty range shares none.
abbrev pub ranges_overlap : Instant → Instant → Instant → Instant → Bool
ranges_overlap s e s' e' = ltb s e && ltb s' e' && ltb s e' && ltb s' e

-- `excl_appointments_employee_confirmed_overlap` refuses the two rows.
unfoldable pub clash : Appointment → Appointment → Bool
clash a b =
    is_confirmed a.status
    && is_confirmed b.status
    && a.employee_id == b.employee_id
    && ranges_overlap (existing_start a) (existing_end a) (existing_start b) (existing_end b)

abbrev pub same_present_key : Option String → Option String → Bool
same_present_key (some k) (some l) = str_eq k l
same_present_key _ _ = false

-- `uq_appointments_idempotency_key_present` refuses the two rows.
unfoldable pub same_key : Appointment → Appointment → Bool
same_key a b = same_present_key a.idempotency_key b.idempotency_key

-- The primary key refuses the two rows.
abbrev pub same_id : Appointment → Appointment → Bool
same_id a b = a.id == b.id

-- The outcome of a flush of one row of `appointments`.
pub data Flush : Type 0 where
  written exclusion_violated key_violated other_violated : Flush

-- PostgreSQL: the constraints of a row alone (CHECK) come first, then the indexes, the primary key's
-- the first and the other two in an order that is the database's, then the foreign keys.
pub record Database : Type 0 where
  pub checks : Appointment → Bool
  pub foreign_keys : Appointment → Bool
  pub exclusion_before_key : Bool

-- The outcome for the row `a` beside the other rows.
unfoldable pub flush : Database → List Appointment → Appointment → Flush
flush db others a =
    let excluded = any (clash a) others in
    let taken = any (same_key a) others in
    if not (db.checks a) || any (same_id a) others
    then other_violated
    else if excluded && (db.exclusion_before_key || not taken)
    then exclusion_violated
    else if taken
    then key_violated
    else if db.foreign_keys a
    then written
    else other_violated

abbrev pub other_rows : Uuid → List Appointment → List Appointment
other_rows i rows = keep_if (λ a. not (a.id == i)) rows

-- The table after an UPDATE of the row with the id of `a`.
unfoldable pub write_row : Appointment → List Appointment → List Appointment
write_row a rows = map (λ b. if b.id == a.id then a else b) rows

-- The first row that a test accepts: `session.scalar(select(...))`.
abbrev pub find_row : (Appointment → Bool) → List Appointment → Option Appointment
find_row p [] = none
find_row p (a ∷ rows) = let rest = find_row p rows in if p a then some a else rest

-- `_find_idempotent_appointment`
unfoldable pub find_idempotent_appointment : Store → Uuid → Uuid → String → Option Appointment
find_idempotent_appointment st business_id customer_id key =
    find_row
      (λ a.
        a.business_id == business_id
        && a.customer_id == customer_id
        && same_present_key a.idempotency_key (some key))
      st.appointments

-- Adds to a set.
unfoldable pub put : Uuid → List Uuid → List Uuid
put i is = if any (λ j. j == i) is then is else i ∷ is

-- `queue_automatic_booking_posthog` (app/analytics/posthog.py)
unfoldable pub queue_event : Uuid → Store → Store
queue_event i st = record {
  appointments = st.appointments;
  notifications = st.notifications;
  push_events = st.push_events;
  outreaches = st.outreaches;
  queued_events = put i st.queued_events;
}
