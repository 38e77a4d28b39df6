-- ===== src/Booking/Change/Again.antt =====
-- A repeated cancellation.
use whatsapp_atendimentos_ag.Prelude.{
  ◌≡◌, refl, sym, ap, subst, inl, inr, Bool, true, some, List, [], ◌∷◌, arith, Bool-cases, ◌==◌,
  ==_refl,
}
use whatsapp_atendimentos_ag.Booking.Types.{Uuid}
use whatsapp_atendimentos_ag.Booking.Slots.{Instant}
use whatsapp_atendimentos_ag.Booking.Results.{ok, ◌>>=◌, >>=-eq-ok, ok-injective}
use whatsapp_atendimentos_ag.Booking.Capacity.{
  Appointment, AppointmentStatus, pending, confirmed, cancelled, completed,
}
use whatsapp_atendimentos_ag.Booking.Ledger.{Store, find_row, write_row}
use whatsapp_atendimentos_ag.Booking.Port.{BookingConfirmation, confirmation}
use whatsapp_atendimentos_ag.Booking.Change.{
  lock_customer_appointment, with_status, cancel_row, cancel_booking,
}
use whatsapp_atendimentos_ag.Booking.Change.Laws.{matches, lock-find}

find-write_row :
    (p : Appointment → Bool) (rows : List Appointment) (a a' : Appointment)
    → find_row p rows ≡ some a
    → a'.id ≡ a.id
    → p a' ≡ true
    → find_row p (write_row a' rows) ≡ some a'
unfolding write_row
find-write_row p [] a a' h e t = ground (arith, h)
find-write_row p (x ∷ rows) a a' h e t = elim (Bool-cases (x.id == a'.id)) [
  | inl i ↦ ground (arith, i, t)
  | inr i ↦ elim (Bool-cases (p x)) [
    | inl m ↦
        (let same : x ≡ a = ground (arith, h, m) in
          ground (arith, i, e, ==_refl x.id, ap (λ y. y.id) same))
    | inr m ↦ ground (arith, i, m, find-write_row p rows a a' (ground (arith, h, m)) e t)
  ]
]

lock-ok :
    (st : Store) (b c i : Uuid) (a : Appointment)
    → find_row (matches b c i) st.appointments ≡ some a
    → lock_customer_appointment st b c i ≡ ok a
unfolding lock_customer_appointment
lock-ok st b c i a h = ground (arith, h)

find_row-accepts :
    (p : Appointment → Bool) (rows : List Appointment) (a : Appointment)
    → find_row p rows ≡ some a
    → p a ≡ true
find_row-accepts p [] a h = ground (arith, h)
find_row-accepts p (x ∷ rows) a h = elim (Bool-cases (p x)) [
  | inl m ↦ (let same : x ≡ a = ground (arith, h, m) in subst (λ y. p y ≡ true) same m)
  | inr m ↦ find_row-accepts p rows a (ground (arith, h, m))
]

cancel-cancelled :
    (now : Instant) (b c i : Uuid) (a : Appointment) (st : Store)
    → find_row (matches b c i) st.appointments ≡ some a
    → a.status ≡ cancelled
    → cancel_booking now b c i st ≡ ok (confirmation a, st)
unfolding cancel_row cancel_booking
cancel-cancelled now b c i a st f s =
    subst (λ m. (m >>= λ x. cancel_row x.status now x st) ≡ ok (confirmation a, st))
      (sym (lock-ok st b c i a f))
      (subst (λ t. cancel_row t now a st ≡ ok (confirmation a, st)) (sym s) refl)

cancel_row-again :
    (now now' : Instant) (b c i : Uuid) (a : Appointment) (status : AppointmentStatus)
    (st st' : Store) (k : BookingConfirmation)
    → find_row (matches b c i) st.appointments ≡ some a
    → a.status ≡ status
    → cancel_row status now a st ≡ ok (k, st')
    → cancel_booking now' b c i st' ≡ ok (k, st')
unfolding cancel_row with_status
cancel_row-again now now' b c i a confirmed st st' k f s h =
    let same = ok-injective h in
    let a' : Appointment = with_status cancelled a in
    let found : find_row (matches b c i) (write_row a' st.appointments) ≡ some a' =
      find-write_row (matches b c i) st.appointments a a' f refl
        (find_row-accepts (matches b c i) st.appointments a f) in
    subst (λ x. cancel_booking now' b c i x.1 ≡ ok x) same
      (cancel-cancelled now' b c i a' _ found refl)
cancel_row-again now now' b c i a cancelled st st' k f s h =
    subst (λ x. cancel_booking now' b c i x.1 ≡ ok x) (ok-injective h)
      (cancel-cancelled now' b c i a st f s)
cancel_row-again now now' b c i a pending st st' k f s h = cc h
cancel_row-again now now' b c i a completed st st' k f s h = cc h

-- A cancellation that is repeated answers the same and changes nothing more.
pub cancel_again :
    (now now' : Instant) (business_id customer_id i : Uuid) (st st' : Store)
    (k : BookingConfirmation)
    → cancel_booking now business_id customer_id i st ≡ ok (k, st')
    → cancel_booking now' business_id customer_id i st' ≡ ok (k, st')
unfolding cancel_booking
cancel_again now now' b c i st st' k h =
    let (a, e, h') =
      >>=-eq-ok (lock_customer_appointment st b c i) (λ a. cancel_row a.status now a st) h in
    cancel_row-again now now' b c i a a.status st st' k (lock-find st b c i a e) refl h'
