-- ===== src/Booking/Confirm/Again.antt =====
-- A repeated confirmation, and a confirmation for which no employee is left.
use Prim.Native.String.{String}
use text.Mathlib.TextEquality.{eq_iff}
use whatsapp_atendimentos_ag.Prelude.{
  ◌≡◌, refl, sym, ◌∙◌, ap, subst, inl, inr, ◌↔◌, Option, none, some, List, [], ◌∷◌, any, arith, All,
  All-at, Bool-cases, ◌==◌, ==_refl,
}
use whatsapp_atendimentos_ag.Booking.Types.{Uuid}
use whatsapp_atendimentos_ag.Booking.Results.{Result, ok, err, slot_unavailable, integrity_error}
use whatsapp_atendimentos_ag.Booking.Capacity.{Appointment}
use whatsapp_atendimentos_ag.Booking.Ledger.{
  Store, Flush, written, exclusion_violated, key_violated, other_violated, Database, flush,
  find_idempotent_appointment, put, queue_event,
}
use whatsapp_atendimentos_ag.Booking.Port.{Port, BookingConfirmation, confirmation}
use whatsapp_atendimentos_ag.Booking.Confirm.{
  Request, truthy_key, idempotent_hit, add_appointment, after_key_violation, after_flush, found,
  confirm_unless, confirm_each, confirm,
}
use whatsapp_atendimentos_ag.Booking.Confirm.Laws.{IsOf, confirm-outcome, prepare-IsOf}

put_again : (i : Uuid) (is : List Uuid) → put i (put i is) ≡ put i is
unfolding put
put_again i is = elim (Bool-cases (any (λ j. j == i) is)) [
  | inl e ↦ ground (arith, e)
  | inr e ↦ ground (arith, e, ==_refl i)
]

queue_event_again : (i : Uuid) (st : Store) → queue_event i (queue_event i st) ≡ queue_event i st
unfolding queue_event
queue_event_again i st = cc (put_again i st.queued_events)

truthy_key-some : (o : Option String) (k : String) → truthy_key o ≡ some k → o ≡ some k
truthy_key-some none k h = cc h
truthy_key-some (some l) k h = ground (arith, h)

-- The request and the row agree on all that the search for an earlier booking compares.
find-new :
    (st : Store) (r : Request) (a : Appointment) (k : String) (b c : Uuid)
    → a.business_id ≡ b
    → a.customer_id ≡ c
    → a.idempotency_key ≡ some k
    → find_idempotent_appointment
        (queue_event a.id (add_appointment a r.requirements.cleaning_outreach_id st))
        b
        c
        k
      ≡ some a
unfolding find_idempotent_appointment queue_event add_appointment
find-new st r a k b c hb hc hk =
    ground (arith, hb, hc, hk, ==_refl b, ==_refl c, (eq_iff k k).1 refl)

hit-eq :
    (st : Store) (r : Request) (k : String)
    → truthy_key r.requirements.idempotency_key ≡ some k
    → idempotent_hit st r ≡ find_idempotent_appointment st r.business_id r.customer_id k
unfolding idempotent_hit
hit-eq st r k h = ground (arith, h)

flush-exclusion :
    (db : Database) (r : Request) (st : Store) (a : Appointment)
    (rest : Result (BookingConfirmation × Store)) (f : Flush) (hit : Option Appointment)
    → idempotent_hit st r ≡ hit
    → (after_flush f a r st rest ≡ err slot_unavailable)
      ↔ ((f ≡ exclusion_violated) × (rest ≡ err slot_unavailable))
unfolding after_flush after_key_violation
flush-exclusion db r st a rest written hit e = ground (arith)
flush-exclusion db r st a rest exclusion_violated hit e = ground arith
flush-exclusion db r st a rest key_violated none e =
    let k : after_key_violation (idempotent_hit st r) st ≡ err integrity_error =
      subst (λ x. after_key_violation x st ≡ err integrity_error) (sym e) refl in
    ground (arith, k)
flush-exclusion db r st a rest key_violated (some b) e =
    let k : after_key_violation (idempotent_hit st r) st ≡ found b st =
      subst (λ x. after_key_violation x st ≡ found b st) (sym e) refl in
    ground (arith, k)
flush-exclusion db r st a rest other_violated hit e = ground arith

-- A loop over the rows fails for want of a slot exactly when every row violates the exclusion.
pub confirm_each-unavailable :
    (db : Database) (r : Request) (st : Store) (rows : List Appointment)
    → (confirm_each db r st rows ≡ err slot_unavailable)
      ↔ All (λ a. flush db st.appointments a ≡ exclusion_violated) rows
unfolding confirm_each
confirm_each-unavailable db r st [] = ((λ _. tt), λ _. refl)
confirm_each-unavailable db r st (a ∷ rows) =
    let (fwd, back) =
      flush-exclusion db r st a (confirm_each db r st rows) (flush db st.appointments a)
        (idempotent_hit st r) refl in
    let (down, up) = confirm_each-unavailable db r st rows in
    ((λ h. ((fwd h).0, down (fwd h).1)), λ h. back (h.0, up h.1))

find-queued :
    (i : Uuid) (st : Store) (b c : Uuid) (k : String)
    → find_idempotent_appointment (queue_event i st) b c k ≡ find_idempotent_appointment st b c k
unfolding queue_event find_idempotent_appointment
find-queued i st b c k = refl

-- The key finds in the later store what the first confirmation has returned.
find-after :
    (p : Port) (db : Database) (id : Uuid) (r : Request) (st st' : Store) (c : BookingConfirmation)
    (k : String)
    → truthy_key r.requirements.idempotency_key ≡ some k
    → confirm p db id r st ≡ ok (c, st')
    → (a : Appointment) × (find_idempotent_appointment st' r.business_id r.customer_id k ≡ some a)
      × (c ≡ confirmation a)
      × (queue_event a.id st' ≡ st')
find-after p db id r st st' c k key h = elim (confirm-outcome p db id r st c st' h) [
  | inl (a, e, same, s) ↦ (
    a,
    subst (λ x. find_idempotent_appointment x r.business_id r.customer_id k ≡ some a) (sym s)
        (find-queued a.id st r.business_id r.customer_id k ∙ sym (hit-eq st r k key) ∙ e),
    same,
    subst (λ x. queue_event a.id x ≡ x) (sym s) (queue_event_again a.id st),
  )
  | inr (rows, e, (a, m, f, same, s)) ↦
      (let (hb, hc, hk, _) = All-at (IsOf r) rows a (prepare-IsOf p id r st rows e) m in
        let new = add_appointment a r.requirements.cleaning_outreach_id st in
        (
          a,
          subst (λ x. find_idempotent_appointment x r.business_id r.customer_id k ≡ some a) (sym s)
              (find-new st r a k r.business_id r.customer_id hb hc
                (hk ∙ truthy_key-some r.requirements.idempotency_key k key)),
          same,
          subst (λ x. queue_event a.id x ≡ x) (sym s) (queue_event_again a.id new),
        ))
]

-- Once a confirmation with a key has returned, a confirmation on the store that it left, of the same
-- customer with the same key, whatever else it asks for and whatever the clock says, returns the same
-- booking and leaves the store as it is. The key is present and not empty.
pub confirm_again :
    (p p' : Port) (db db' : Database) (id id' : Uuid) (r r' : Request) (st st' : Store)
    (c : BookingConfirmation) (k : String)
    → truthy_key r.requirements.idempotency_key ≡ some k
    → truthy_key r'.requirements.idempotency_key ≡ some k
    → r'.business_id ≡ r.business_id
    → r'.customer_id ≡ r.customer_id
    → confirm p db id r st ≡ ok (c, st')
    → confirm p' db' id' r' st' ≡ ok (c, st')
unfolding confirm confirm_unless
confirm_again p p' db db' id id' r r' st st' c k key key' hb hc h =
    let (a, e, same, kept) = find-after p db id r st st' c k key h in
    let hit : idempotent_hit st' r' ≡ some a = cc (hit-eq st' r' k key', hb, hc, e) in
    subst (λ o. confirm_unless o p' db' id' r' st' ≡ ok (c, st')) (sym hit)
      (ap ok (cc (same, kept)))
