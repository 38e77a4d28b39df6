-- ===== src/Booking/History.antt =====
-- The histories of the table of appointments: the steps that `confirm`, `cancel_booking` and
-- `reschedule_booking_atomic` (app/booking/availability.py) make, in any order and for any requests.
-- The operations run in transactions that the database serialises, one step after the other.
pub mod Laws
use Prim.Native.String.{String}
use whatsapp_atendimentos_ag.Prelude.{◌≡◌, List, []}
use whatsapp_atendimentos_ag.Booking.Types.{Uuid, BookingRequirements}
use whatsapp_atendimentos_ag.Booking.Slots.{Instant}
use whatsapp_atendimentos_ag.Booking.Results.{Result, ok}
use whatsapp_atendimentos_ag.Booking.Ledger.{Store, Database}
use whatsapp_atendimentos_ag.Booking.Port.{Port, BookingConfirmation}
use whatsapp_atendimentos_ag.Booking.Confirm.{Request, confirm}
use whatsapp_atendimentos_ag.Booking.Change.{cancel_booking, reschedule_booking_atomic}

pub data Step : Store → Store → Type 0 where
  confirmed_by :
      (p : Port) (db : Database) (id : Uuid) (r : Request) (st st' : Store)
      (c : BookingConfirmation)
      → confirm p db id r st ≡ ok (c, st')
      → Step st st'
  cancelled_by :
      (now : Instant) (business_id customer_id i : Uuid) (st st' : Store) (c : BookingConfirmation)
      → cancel_booking now business_id customer_id i st ≡ ok (c, st')
      → Step st st'
  rescheduled_by :
      (p : Port) (db : Database) (business_id customer_id i : Uuid) (day time : String)
      (q : BookingRequirements) (st st' : Store) (c : BookingConfirmation)
      → reschedule_booking_atomic p db business_id customer_id i day time q st ≡ ok (c, st')
      → Step st st'

pub data Reachable : Store → Type 0 where
  at_first : (st : Store) → st.appointments ≡ [] → Reachable st
  after_step : (st st' : Store) → Reachable st → Step st st' → Reachable st'
