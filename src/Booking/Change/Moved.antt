-- ===== src/Booking/Change/Moved.antt =====
-- What a reschedule does to the row that it moves.
use Prim.Native.String.{String}
use whatsapp_atendimentos_ag.Prelude.{◌≡◌, true, false}
use whatsapp_atendimentos_ag.Booking.Types.{Uuid}
use whatsapp_atendimentos_ag.Booking.Results.{ok}
use whatsapp_atendimentos_ag.Booking.Capacity.{Appointment, confirmed}
use whatsapp_atendimentos_ag.Booking.Ledger.{Store}
use whatsapp_atendimentos_ag.Booking.Port.{Port, BookingConfirmation, confirmation}
use whatsapp_atendimentos_ag.Booking.Change.{lock_customer_appointment, save_row, can_reschedule}

-- The row is the old one at another time: its identity, its owner and its key stay.
pub record IsMoved (a b : Appointment) : Type 0 where
  pub same_id : b.id ≡ a.id
  pub same_business : b.business_id ≡ a.business_id
  pub same_customer : b.customer_id ≡ a.customer_id
  pub same_service : b.service_id ≡ a.service_id
  pub same_key : b.idempotency_key ≡ a.idempotency_key
  pub is_booked : b.status ≡ confirmed
  pub settled : b.reschedule_pending ≡ false

abbrev pub Moves : Uuid → Uuid → Uuid → Store → BookingConfirmation → Store → Type 0
Moves business_id customer_id i st k st' =
    (a : Appointment) × (lock_customer_appointment st business_id customer_id i ≡ ok a)
    × (can_reschedule a ≡ true)
    × (b : Appointment) × IsMoved a b
    × (k ≡ confirmation b)
    × (st' ≡ save_row b st)
