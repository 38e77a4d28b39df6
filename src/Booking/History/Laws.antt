-- ===== src/Booking/History/Laws.antt =====
-- Two rows of a reachable store.
use whatsapp_atendimentos_ag.Prelude.{
  ◌≤◌, ◌<◌, ◌≡◌, sym, subst, ◌⊎◌, true, false, List, [], ◌∷◌, ◌++◌, arith, All,
}
use whatsapp_atendimentos_ag.Booking.Capacity.{
  Appointment, is_confirmed, existing_start, existing_end,
}
use whatsapp_atendimentos_ag.Booking.Ledger.{Store, clash}
use whatsapp_atendimentos_ag.Booking.Ledger.Laws.{IsConsistent, AreCompatible}
use whatsapp_atendimentos_ag.Booking.Confirm.Laws.{confirm-IsConsistent}
use whatsapp_atendimentos_ag.Booking.Change.Laws.{
  cancel_booking-IsConsistent, reschedule_booking_atomic-IsConsistent,
}
use whatsapp_atendimentos_ag.Booking.History.{
  Step, confirmed_by, cancelled_by, rescheduled_by, Reachable, at_first, after_step,
}

Step-IsConsistent :
    (st st' : Store) → Step st st' → IsConsistent st.appointments → IsConsistent st'.appointments
Step-IsConsistent st st' (confirmed_by p db id r _ _ c h) k =
    confirm-IsConsistent p db id r st c st' k h
Step-IsConsistent st st' (cancelled_by now b cu i _ _ c h) k =
    cancel_booking-IsConsistent now b cu i st c st' k h
Step-IsConsistent st st' (rescheduled_by p db b cu i day time q _ _ c h) k =
    reschedule_booking_atomic-IsConsistent p db b cu i day time q st c st' k h

Reachable-IsConsistent : (st : Store) → Reachable st → IsConsistent st.appointments
Reachable-IsConsistent st (at_first _ e) = subst IsConsistent (sym e) tt
Reachable-IsConsistent st (after_step before _ r s) =
    Step-IsConsistent before st s (Reachable-IsConsistent before r)

All-within :
    (P : Appointment → Type 0) (ys : List Appointment) (b : Appointment) (zs : List Appointment)
    → All P (ys ++ b ∷ zs)
    → P b
All-within P [] b zs h = h.0
All-within P (y ∷ ys) b zs h = All-within P ys b zs h.1

IsConsistent-pair :
    (xs : List Appointment) (a : Appointment) (ys : List Appointment) (b : Appointment)
    (zs : List Appointment)
    → IsConsistent (xs ++ a ∷ ys ++ b ∷ zs)
    → AreCompatible a b
IsConsistent-pair [] a ys b zs h = All-within (AreCompatible a) ys b zs h.0
IsConsistent-pair (x ∷ xs) a ys b zs h = IsConsistent-pair xs a ys b zs h.1

clash-apart :
    (a b : Appointment)
    → clash a b ≡ false
    → is_confirmed a.status ≡ true
    → is_confirmed b.status ≡ true
    → a.employee_id ≡ b.employee_id
    → existing_start a < existing_end a
    → existing_start b < existing_end b
    → (existing_end a ≤ existing_start b) ⊎ (existing_end b ≤ existing_start a)
unfolding clash
clash-apart a b h ca cb e pa pb = ground (arith, h, ca, cb)

-- In every reachable store, two confirmed appointments of one employee that each take some time do
-- not overlap, their travel before and after included: one ends by the time the other starts.
pub Reachable-apart :
    (st : Store) (xs : List Appointment) (a : Appointment) (ys : List Appointment) (b : Appointment)
    (zs : List Appointment)
    → Reachable st
    → st.appointments ≡ xs ++ a ∷ ys ++ b ∷ zs
    → is_confirmed a.status ≡ true
    → is_confirmed b.status ≡ true
    → a.employee_id ≡ b.employee_id
    → existing_start a < existing_end a
    → existing_start b < existing_end b
    → (existing_end a ≤ existing_start b) ⊎ (existing_end b ≤ existing_start a)
Reachable-apart st xs a ys b zs r e ca cb same pa pb =
    clash-apart a b
      (IsConsistent-pair xs a ys b zs (subst IsConsistent e (Reachable-IsConsistent st r))).no_clash
      ca cb same pa pb
