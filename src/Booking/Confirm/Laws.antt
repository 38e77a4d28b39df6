-- ===== src/Booking/Confirm/Laws.antt =====
-- What a confirmation leaves in the store.
use Prim.Native.String.{String}
use whatsapp_atendimentos_ag.Prelude.{
  ◌≡◌, refl, sym, ap, subst, ◌⊎◌, inl, inr, Bool, ◌&&◌, Option, none, some, List, [], ◌∷◌, All, Any,
  ◌==◌,
}
use whatsapp_atendimentos_ag.Booking.Types.{Uuid, BookingPlan}
use whatsapp_atendimentos_ag.Booking.Results.{ok, ◌>>=◌, >>=-eq-ok, ok-injective}
use whatsapp_atendimentos_ag.Booking.Slots.{Instant}
use whatsapp_atendimentos_ag.Booking.Capacity.{Appointment, confirmed}
use whatsapp_atendimentos_ag.Booking.Business.{Business}
use whatsapp_atendimentos_ag.Booking.Starts.{Offer}
use whatsapp_atendimentos_ag.Booking.Ledger.{
  Store, Flush, written, exclusion_violated, key_violated, other_violated, Database, flush,
  queue_event, same_present_key,
}
use whatsapp_atendimentos_ag.Booking.Ledger.Laws.{IsConsistent, flush-AreCompatible}
use whatsapp_atendimentos_ag.Booking.Port.{Port, BookingConfirmation, confirmation}
use whatsapp_atendimentos_ag.Booking.Confirm.{
  Request, idempotent_hit, new_appointment, add_appointment, after_key_violation, after_flush,
  found, confirm_unless, confirm_each, rows_to_try, prepare, confirm_new, confirm,
}
use whatsapp_atendimentos_ag.Booking.Port.{checked, exact_start}

-- The earlier booking of the key is reported, and only the analytics' set changes.
abbrev pub IsFoundAgain : Request → Store → BookingConfirmation → Store → Type 0
IsFoundAgain r st c st' =
    (a : Appointment) × (idempotent_hit st r ≡ some a)
    × (c ≡ confirmation a)
    × (st' ≡ queue_event a.id st)

-- One of the rows is booked.
abbrev pub IsNew :
    Database → Request → Store → List Appointment → BookingConfirmation → Store → Type 0
IsNew db r st rows c st' =
    (a : Appointment) × Any (λ x. x ≡ a) rows
    × (flush db st.appointments a ≡ written)
    × (c ≡ confirmation a)
    × (st' ≡ queue_event a.id (add_appointment a r.requirements.cleaning_outreach_id st))

found-injective :
    (a : Appointment) (st : Store) {c : BookingConfirmation} {st' : Store}
    → found a st ≡ ok (c, st')
    → (c ≡ confirmation a) × (st' ≡ queue_event a.id st)
found-injective a st h =
    let same = ok-injective h in (sym (ap (λ x. x.0) same), sym (ap (λ x. x.1) same))

Flush-cases :
    (f : Flush)
    → (f ≡ written) ⊎ (f ≡ exclusion_violated) ⊎ (f ≡ key_violated) ⊎ (f ≡ other_violated)
Flush-cases written = inl refl
Flush-cases exclusion_violated = inr (inl refl)
Flush-cases key_violated = inr (inr (inl refl))
Flush-cases other_violated = inr (inr (inr refl))

after_flush-outcome :
    (db : Database) (r : Request) (st : Store) (a : Appointment) (rows : List Appointment)
    (c : BookingConfirmation) (st' : Store) (f : Flush) (hit : Option Appointment)
    → flush db st.appointments a ≡ f
    → idempotent_hit st r ≡ hit
    → (confirm_each db r st rows ≡ ok (c, st') → IsFoundAgain r st c st' ⊎ IsNew db r st rows c st')
    → after_flush f a r st (confirm_each db r st rows) ≡ ok (c, st')
    → IsFoundAgain r st c st' ⊎ IsNew db r st (a ∷ rows) c st'
unfolding after_flush after_key_violation
after_flush-outcome db r st a rows c st' written hit e k rest h =
    let (cs, ss) = found-injective a (add_appointment a r.requirements.cleaning_outreach_id st) h in
    inr (a, inl refl, e, cs, ss)
after_flush-outcome db r st a rows c st' exclusion_violated hit e k rest h = elim (rest h) [
  | inl again ↦ inl again
  | inr (b, m, f, cs, ss) ↦ inr (b, inr m, f, cs, ss)
]
after_flush-outcome db r st a rows c st' key_violated (some b) e k rest h =
    let h' : after_key_violation (some b) st ≡ ok (c, st') =
      subst (λ x. after_key_violation x st ≡ ok (c, st')) k h in
    (let (cs, ss) = found-injective b st h' in inl (b, k, cs, ss))
after_flush-outcome db r st a rows c st' key_violated none e k rest h =
    cc (subst (λ x. after_key_violation x st ≡ ok (c, st')) k h)
after_flush-outcome db r st a rows c st' other_violated hit e k rest h = cc h

confirm_each-outcome :
    (db : Database) (r : Request) (st : Store) (rows : List Appointment) (c : BookingConfirmation)
    (st' : Store)
    → confirm_each db r st rows ≡ ok (c, st')
    → IsFoundAgain r st c st' ⊎ IsNew db r st rows c st'
unfolding confirm_each
confirm_each-outcome db r st [] c st' h = cc h
confirm_each-outcome db r st (a ∷ rows) c st' h =
    after_flush-outcome db r st a rows c st' (flush db st.appointments a) (idempotent_hit st r) refl
      refl (confirm_each-outcome db r st rows c st') h

confirm_unless-outcome :
    (p : Port) (db : Database) (id : Uuid) (r : Request) (st : Store) (c : BookingConfirmation)
    (st' : Store) (hit : Option Appointment)
    → idempotent_hit st r ≡ hit
    → confirm_unless hit p db id r st ≡ ok (c, st')
    → IsFoundAgain r st c st'
      ⊎ ((rows : List Appointment) × (prepare p id r st ≡ ok rows) × IsNew db r st rows c st')
unfolding confirm_unless confirm_new
confirm_unless-outcome p db id r st c st' (some a) e h =
    let (cs, ss) = found-injective a st h in inl (a, e, cs, ss)
confirm_unless-outcome p db id r st c st' none e h =
    let (rows, e', h') = >>=-eq-ok (prepare p id r st) (λ rows. confirm_each db r st rows) h in
    elim (confirm_each-outcome db r st rows c st' h') [
      | inl again ↦ inl again
      | inr new ↦ inr (rows, e', new)
    ]

-- A confirmation either finds the booking that its key has made before, or books one of the rows
-- that the search has prepared.
pub confirm-outcome :
    (p : Port) (db : Database) (id : Uuid) (r : Request) (st : Store) (c : BookingConfirmation)
    (st' : Store)
    → confirm p db id r st ≡ ok (c, st')
    → IsFoundAgain r st c st'
      ⊎ ((rows : List Appointment) × (prepare p id r st ≡ ok rows) × IsNew db r st rows c st')
unfolding confirm
confirm-outcome p db id r st c st' h =
    confirm_unless-outcome p db id r st c st' (idempotent_hit st r) refl h

-- A confirmation keeps the constraints of the table.
pub confirm-IsConsistent :
    (p : Port) (db : Database) (id : Uuid) (r : Request) (st : Store) (c : BookingConfirmation)
    (st' : Store)
    → IsConsistent st.appointments
    → confirm p db id r st ≡ ok (c, st')
    → IsConsistent st'.appointments
unfolding queue_event add_appointment
confirm-IsConsistent p db id r st c st' k h = elim (confirm-outcome p db id r st c st' h) [
  | inl (a, e, same, s) ↦ subst (λ x. IsConsistent x.appointments) (sym s) k
  | inr (rows, e, (a, m, f, same, s)) ↦
      subst (λ x. IsConsistent x.appointments) (sym s)
        (flush-AreCompatible db a st.appointments f, k)
]

-- The rows of a request carry its business, its customer and its key.
abbrev pub IsOf : Request → Appointment → Type 0
IsOf r a =
    (a.business_id ≡ r.business_id)
    × (a.customer_id ≡ r.customer_id)
    × (a.idempotency_key ≡ r.requirements.idempotency_key)
    × (a.status ≡ confirmed)

rows_to_try-IsOf :
    (id : Uuid) (r : Request) (b : Business) (plan : BookingPlan) (ids : List Uuid) (t : Instant)
    (os : List Offer)
    → All (IsOf r) (rows_to_try id r b plan ids t os)
unfolding rows_to_try new_appointment
rows_to_try-IsOf id r b plan [] t os = tt
rows_to_try-IsOf id r b plan (i ∷ ids) t os =
    ((refl, refl, refl, refl), rows_to_try-IsOf id r b plan ids t os)

abbrev find_in : Request → String → Appointment → Bool
find_in r k a =
    a.business_id == r.business_id
    && a.customer_id == r.customer_id
    && same_present_key a.idempotency_key (some k)

pub prepare-IsOf :
    (p : Port) (id : Uuid) (r : Request) (st : Store) (rows : List Appointment)
    → prepare p id r st ≡ ok rows
    → All (IsOf r) rows
unfolding prepare
prepare-IsOf p id r st rows h =
    let (w, _, h') =
      >>=-eq-ok
        (checked p r.business_id r.service_id r.selected_date r.selected_time r.requirements)
        (λ w. exact_start p st r.business_id r.service_id r.requirements none w >>= λ e.
          ok (rows_to_try id r w.business w.plan e.0 e.1 e.2))
        h in
    let (e, _, same) =
      >>=-eq-ok (exact_start p st r.business_id r.service_id r.requirements none w)
        (λ e. ok (rows_to_try id r w.business w.plan e.0 e.1 e.2)) h' in
    subst (All (IsOf r)) (ok-injective same) (rows_to_try-IsOf id r w.business w.plan e.0 e.1 e.2)
