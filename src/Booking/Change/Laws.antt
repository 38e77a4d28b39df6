-- ===== src/Booking/Change/Laws.antt =====
-- What a cancellation and a reschedule leave in the store.
use whatsapp_atendimentos_ag.Prelude.{
  ◌≡◌, refl, sym, ap, subst, inl, inr, Bool, ◌&&◌, some, List, [], ◌∷◌, arith, Any, All-map, ◌==◌,
}
use Prim.Native.String.{String}
use whatsapp_atendimentos_ag.Booking.Types.{Uuid, BookingRequirements}
use whatsapp_atendimentos_ag.Booking.Slots.{Instant}
use whatsapp_atendimentos_ag.Booking.Results.{ok, ◌>>=◌, >>=-eq-ok, ok-injective}
use whatsapp_atendimentos_ag.Booking.Capacity.{
  Appointment, AppointmentStatus, pending, confirmed, cancelled, completed,
}
use whatsapp_atendimentos_ag.Booking.Ledger.{
  Store, Flush, written, exclusion_violated, key_violated, other_violated, Database, flush, clash,
  same_key, find_row, other_rows,
}
use whatsapp_atendimentos_ag.Booking.Ledger.Laws.{
  IsConsistent, AreCompatible, Fits, flush-Fits, find_row-Fits, write_row-IsConsistent,
}
use whatsapp_atendimentos_ag.Booking.Port.{Port, BookingConfirmation, confirmation}
use whatsapp_atendimentos_ag.Booking.Change.{
  lock_customer_appointment, with_status, save_row, cancel_row, cancel_booking, after_update,
  reschedule_each, prepare_reschedule, reschedule_booking_atomic,
}

-- A cancelled row is compatible with whatever the row was compatible with.
cancelled-AreCompatible :
    (a b : Appointment) → AreCompatible a b → AreCompatible (with_status cancelled a) b
unfolding with_status clash same_key
cancelled-AreCompatible a b c = record {
  no_clash = refl;
  no_shared_key = c.no_shared_key;
  no_shared_id = c.no_shared_id;
}

cancelled-Fits :
    (a : Appointment) (rows : List Appointment) → Fits a rows → Fits (with_status cancelled a) rows
unfolding with_status
cancelled-Fits a rows f = All-map rows (λ b g t. cancelled-AreCompatible a b (g t)) f

abbrev pub matches : Uuid → Uuid → Uuid → Appointment → Bool
matches business_id customer_id i a =
    a.id == i && a.business_id == business_id && a.customer_id == customer_id

pub lock-find :
    (st : Store) (b c i : Uuid) (a : Appointment)
    → lock_customer_appointment st b c i ≡ ok a
    → find_row (matches b c i) st.appointments ≡ some a
unfolding lock_customer_appointment
lock-find st b c i a h = ground (arith, h)

cancel_row-IsConsistent :
    (status : AppointmentStatus) (now : Instant) (a : Appointment) (st : Store)
    (k : BookingConfirmation) (st' : Store)
    → Fits a st.appointments
    → IsConsistent st.appointments
    → cancel_row status now a st ≡ ok (k, st')
    → IsConsistent st'.appointments
unfolding cancel_row
cancel_row-IsConsistent confirmed now a st k st' f c h =
    let same = ap (λ x. x.1) (ok-injective h) in
    subst (λ x. IsConsistent x.appointments) same
      (write_row-IsConsistent (with_status cancelled a) st.appointments
        (cancelled-Fits a st.appointments f) c)
cancel_row-IsConsistent cancelled now a st k st' f c h =
    subst (λ x. IsConsistent x.appointments) (ap (λ x. x.1) (ok-injective h)) c
cancel_row-IsConsistent pending now a st k st' f c h = cc h
cancel_row-IsConsistent completed now a st k st' f c h = cc h

-- A cancellation keeps the constraints of the table.
pub cancel_booking-IsConsistent :
    (now : Instant) (business_id customer_id i : Uuid) (st : Store) (k : BookingConfirmation)
    (st' : Store)
    → IsConsistent st.appointments
    → cancel_booking now business_id customer_id i st ≡ ok (k, st')
    → IsConsistent st'.appointments
unfolding cancel_booking
cancel_booking-IsConsistent now b c i st k st' con h =
    let (a, e, h') =
      >>=-eq-ok (lock_customer_appointment st b c i) (λ a. cancel_row a.status now a st) h in
    let (f, _) = find_row-Fits (matches b c i) st.appointments a con (lock-find st b c i a e) in
    cancel_row-IsConsistent a.status now a st k st' f con h'

-- A reschedule writes one of its rows, and only where its flush passes.
pub reschedule_each-written :
    (db : Database) (st : Store) (rows : List Appointment) (k : BookingConfirmation) (st' : Store)
    → reschedule_each db st rows ≡ ok (k, st')
    → (a : Appointment) × Any (λ x. x ≡ a) rows
      × (flush db (other_rows a.id st.appointments) a ≡ written)
      × (k ≡ confirmation a)
      × (st' ≡ save_row a st)
unfolding reschedule_each after_update
reschedule_each-written db st [] k st' h = cc h
reschedule_each-written db st (a ∷ rows) k st' h =
    go (flush db (other_rows a.id st.appointments) a) refl h
      (reschedule_each-written db st rows k st')
  where
    go :
        (f : Flush)
        → flush db (other_rows a.id st.appointments) a ≡ f
        → after_update f a st (reschedule_each db st rows) ≡ ok (k, st')
        → (reschedule_each db st rows ≡ ok (k, st')
            → (b : Appointment) × Any (λ x. x ≡ b) rows
              × (flush db (other_rows b.id st.appointments) b ≡ written)
              × (k ≡ confirmation b)
              × (st' ≡ save_row b st))
        → (b : Appointment) × Any (λ x. x ≡ b) (a ∷ rows)
          × (flush db (other_rows b.id st.appointments) b ≡ written)
          × (k ≡ confirmation b)
          × (st' ≡ save_row b st)
    go written e h rest =
        let same = ok-injective h in
        (a, inl refl, e, sym (ap (λ x. x.0) same), sym (ap (λ x. x.1) same))
    go exclusion_violated e h rest = let (b, m, f, ks, ss) = rest h in (b, inr m, f, ks, ss)
    go key_violated e h rest = cc h
    go other_violated e h rest = cc h

-- A reschedule keeps the constraints of the table.
pub reschedule_booking_atomic-IsConsistent :
    (p : Port) (db : Database) (business_id customer_id i : Uuid) (day time : String)
    (q : BookingRequirements) (st : Store) (k : BookingConfirmation) (st' : Store)
    → IsConsistent st.appointments
    → reschedule_booking_atomic p db business_id customer_id i day time q st ≡ ok (k, st')
    → IsConsistent st'.appointments
unfolding reschedule_booking_atomic
reschedule_booking_atomic-IsConsistent p db b c i day time q st k st' con h =
    let (a, _, h') =
      >>=-eq-ok (lock_customer_appointment st b c i)
        (λ a. prepare_reschedule p a day time q st >>= λ rows. reschedule_each db st rows) h in
    let (rows, _, h'') =
      >>=-eq-ok (prepare_reschedule p a day time q st) (λ rows. reschedule_each db st rows) h' in
    let (row, _, f, _, s) = reschedule_each-written db st rows k st' h'' in
    subst (λ x. IsConsistent x.appointments) (sym s)
      (write_row-IsConsistent row st.appointments (flush-Fits db row st.appointments f) con)
