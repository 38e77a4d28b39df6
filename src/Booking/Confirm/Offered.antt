-- ===== src/Booking/Confirm/Offered.antt =====
-- A new booking and the offers of its day.
use whatsapp_atendimentos_ag.Prelude.{
  ◌≡◌, ◌≢◌, ◌-◌, ◌+◌, refl, sym, ◌∙◌, ap, subst, ◌⊎◌, inl, inr, Bool, false, not, ◌&&◌, List, [],
  ◌∷◌, Option, none, some, get_or, Option-cases, arith, All, Any, All-map, All-at, if_cases,
  if◌then◌else◌, true, ◌==◌, ==_iff,
}
use mathlib.Core.Option.{some-injective}
use whatsapp_atendimentos_ag.Booking.Types.{Uuid, BookingPlan, BookingRequirements}
use whatsapp_atendimentos_ag.Booking.Results.{ok, ◌>>=◌, >>=-eq-ok, ok-injective}
use whatsapp_atendimentos_ag.Booking.Slots.{Instant, Local, Zone, combine, plus_minutes}
use whatsapp_atendimentos_ag.Booking.Capacity.{Appointment, CapacityData}
use whatsapp_atendimentos_ag.Booking.Business.{Business}
use whatsapp_atendimentos_ag.Booking.Starts.{
  Offer, candidate_plan, listed, insert_by, before, employees_at, available_starts, search_for,
  if_any, load_capacity, employees_for_exact_start,
}
use whatsapp_atendimentos_ag.Booking.Starts.Sound.{CanStartFrom, available_starts-CanStart}
use whatsapp_atendimentos_ag.Booking.Ledger.{Store, Database, queue_event}
use whatsapp_atendimentos_ag.Booking.Port.{
  Port, apply_snapshot, BookingConfirmation, confirmation, Checked, checked, exact_start, rows_of,
}
use whatsapp_atendimentos_ag.Booking.Confirm.{
  Request, new_appointment, rows_to_try, prepare, confirm, add_appointment,
}
use whatsapp_atendimentos_ag.Booking.Confirm.Laws.{IsFoundAgain, confirm-outcome}

insert_by-All :
    (P : Uuid → Type 0) (le : Uuid → Uuid → Bool) (i : Uuid) (js : List Uuid)
    → P i
    → All P js
    → All P (insert_by le i js)
unfolding insert_by
insert_by-All P le i [] p h = (p, tt)
insert_by-All P le i (j ∷ js) p h =
    if_cases (All P) (le i j) (λ _. (p, h)) (λ _. (h.0, insert_by-All P le i js p h.1))

-- An employee is offered at a start.
abbrev OfferedAt : Local → List Offer → Uuid → Type 0
OfferedAt start os i = Any (λ o. (o.employee_id ≡ i) × (o.start ≡ start)) os

employees_at-OfferedAt :
    (z : Zone) (all : List Offer) (start : Local) (os : List Offer)
    → All (OfferedAt start os) (employees_at z all start os)
unfolding employees_at
employees_at-OfferedAt z all start [] = tt
employees_at-OfferedAt z all start (o ∷ os) =
    let rest =
      All-map (employees_at z all start os) (λ i m. inr m)
        (employees_at-OfferedAt z all start os) in
    if_cases (All (OfferedAt start (o ∷ os)))
      (o.start == start && not (listed o.employee_id (employees_at z all start os)))
      (λ t.
        insert_by-All (OfferedAt start (o ∷ os)) (before z all (z.to_utc start)) o.employee_id
          (employees_at z all start os) (inl (refl, ground (arith, t))) rest)
      (λ _. rest)

if_any-ok :
    (is ids : List Uuid) (t t' : Instant) (os os' : List Offer)
    → if_any is t os ≡ ok (ids, t', os')
    → (ids ≡ is) × (t' ≡ t) × (os' ≡ os)
unfolding if_any
if_any-ok [] ids t t' os os' h = cc h
if_any-ok (i ∷ is) ids t t' os os' h =
    let same = sym (ok-injective h) in (ap (λ x. x.0) same, ap (λ x. x.1) same, ap (λ x. x.2) same)

-- What `_employees_for_exact_start` answers.
exact_start-OfferedAt :
    (p : Port) (st : Store) (b s : Uuid) (q : BookingRequirements) (ex : Option Uuid) (w : Checked)
    (ids : List Uuid) (t : Instant) (os : List Offer)
    → exact_start p st b s q ex w ≡ ok (ids, t, os)
    → (available_starts p.tools p.provider
          (rows_of p st b s)
          p.now
          w.business
          q
          w.plan
          w.day
          w.day
          ex
        ≡ ok os)
      × (t ≡ w.business.zone.to_utc (combine w.day w.time))
      × All (OfferedAt (combine w.day w.time) os) ids
unfolding exact_start employees_for_exact_start
exact_start-OfferedAt p st b s q ex w ids t os h =
    let start = combine w.day w.time in
    let z = w.business.zone in
    let (found, e, h') =
      >>=-eq-ok
        (available_starts p.tools p.provider (rows_of p st b s) p.now w.business q w.plan w.day
          w.day ex)
        (λ os. if_any (employees_at z os start os) (z.to_utc start) os) h in
    let (same_ids, same_t, same_os) =
      if_any-ok (employees_at z found start found) ids (z.to_utc start) t found os h' in
    (
      e ∙ ap ok (sym same_os),
      same_t,
      subst (λ x. All (OfferedAt start x) ids) (sym same_os)
          (subst (All (OfferedAt start found)) (sym same_ids)
            (employees_at-OfferedAt z found start found)),
    )

-- The row reserves the travel, lasts as long and costs as the plan says.
abbrev pub Books : Appointment → BookingPlan → Type 0
Books a plan =
    (a.travel_before_minutes ≡ plan.travel_before_minutes)
    × (a.travel_after_minutes ≡ plan.travel_after_minutes)
    × (a.estimated_price ≡ plan.service.estimated_price)
    × (a.ends_at ≡ plus_minutes a.starts_at plan.service.estimated_duration_minutes)

-- The row books an employee whom the search for the day offers at the start that was chosen, and its
-- travel is that of the plan that the search made for this employee and this instant.
abbrev pub IsOffered : Port → Store → Request → Checked → Appointment → Type 0
IsOffered p st r w a =
    let z = w.business.zone in
    (offers : List Offer) × (available_starts p.tools p.provider
        (rows_of p st r.business_id r.service_id) p.now w.business r.requirements w.plan w.day w.day
        none
      ≡ ok offers)
    × (capacity : CapacityData) × (load_capacity (rows_of p st r.business_id r.service_id)
          (z.to_utc (combine w.day 0)) (z.to_utc (combine (w.day + 1) 0)) none
        ≡ ok capacity)
    × All
        (CanStartFrom
          (search_for p.tools p.provider w.business r.requirements w.plan capacity p.now) w.day
          (w.day + 1 - w.day))
        offers
    × (a.starts_at ≡ z.to_utc (combine w.day w.time))
    × OfferedAt (combine w.day w.time) offers a.employee_id
    × Any (λ o. (o.employee_id ≡ a.employee_id) × (z.to_utc o.start ≡ a.starts_at) × Books a o.plan)
        offers

-- The plan that the search keeps for an employee and an instant at which it offers one.
abbrev PlannedAs : Zone → Uuid → Instant → BookingPlan → Offer → Type 0
PlannedAs z i t plan o = (o.employee_id ≡ i) × (z.to_utc o.start ≡ t) × (o.plan ≡ plan)

candidate_plan-none :
    (z : Zone) (i : Uuid) (t : Instant) (os : List Offer)
    → Any (λ o. (o.employee_id ≡ i) × (z.to_utc o.start ≡ t)) os
    → candidate_plan z i t os ≢ none
unfolding candidate_plan
candidate_plan-none z i t [] m h = absurd m
candidate_plan-none z i t (o ∷ os) (inl (e, f)) h =
    let named = (==_iff o.employee_id i).1 e in
    let there = (==_iff (z.to_utc o.start) t).1 f in
    elim (Option-cases (candidate_plan z i t os)) [
      | inl n ↦ cc (rw (n, named, there) at h)
      | inr (q, n) ↦ cc (rw n at h)
    ]
candidate_plan-none z i t (o ∷ os) (inr m) h = elim (Option-cases (candidate_plan z i t os)) [
  | inl n ↦ candidate_plan-none z i t os m n
  | inr (q, n) ↦ cc (rw n at h)
]

taken :
    (b : Bool) (x y : BookingPlan) → (if b then some x else none) ≡ some y → (b ≡ true) × (x ≡ y)
taken true x y h = (refl, some-injective x y h)
taken false x y h = cc h

candidate_plan-Any :
    (z : Zone) (i : Uuid) (t : Instant) (os : List Offer) (plan : BookingPlan)
    → candidate_plan z i t os ≡ some plan
    → Any (PlannedAs z i t plan) os
unfolding candidate_plan
candidate_plan-Any z i t [] plan h = cc h
candidate_plan-Any z i t (o ∷ os) plan h = elim (Option-cases (candidate_plan z i t os)) [
  | inr (q, e) ↦ inr (candidate_plan-Any z i t os plan (sym (rw e refl) ∙ h))
  | inl e ↦
      (let (test, same) =
          taken (o.employee_id == i && z.to_utc o.start == t) o.plan plan (sym (rw e refl) ∙ h) in
        inl (ground (arith, test), ground (arith, test), same))
]

chosen_plan :
    (z : Zone) (i : Uuid) (t : Instant) (os : List Offer) (general : BookingPlan)
    → Any (λ o. (o.employee_id ≡ i) × (z.to_utc o.start ≡ t)) os
    → Any (PlannedAs z i t (get_or (candidate_plan z i t os) general)) os
chosen_plan z i t os general m = elim (Option-cases (candidate_plan z i t os)) [
  | inl e ↦ absurd (candidate_plan-none z i t os m e)
  | inr (q, e) ↦ rw e (candidate_plan-Any z i t os q e)
]

rows_to_try-All :
    (Q : Uuid → Type 0) (P : Appointment → Type 0) (id : Uuid) (r : Request) (b : Business)
    (plan : BookingPlan) (ids : List Uuid) (t : Instant) (os : List Offer)
    → ((i : Uuid) → Q i → P (new_appointment id r i t (get_or (candidate_plan b.zone i t os) plan)))
    → All Q ids
    → All P (rows_to_try id r b plan ids t os)
unfolding rows_to_try
rows_to_try-All Q P id r b plan [] t os f h = tt
rows_to_try-All Q P id r b plan (i ∷ ids) t os f h =
    (f i h.0, rows_to_try-All Q P id r b plan ids t os f h.1)

planned_Any :
    (id : Uuid) (r : Request) (z : Zone) (i : Uuid) (t : Instant) (plan : BookingPlan)
    (os : List Offer)
    → Any (PlannedAs z i t plan) os
    → let a = new_appointment id r i t plan in
      Any
        (λ o. (o.employee_id ≡ a.employee_id) × (z.to_utc o.start ≡ a.starts_at) × Books a o.plan)
        os
unfolding new_appointment apply_snapshot
planned_Any id r z i t plan [] m = m
planned_Any id r z i t plan (o ∷ os) (inl (e, f, same)) = inl (
  e,
  f,
  (
    ap (λ (x : BookingPlan). x.travel_before_minutes) (sym same),
    ap (λ (x : BookingPlan). x.travel_after_minutes) (sym same),
    ap (λ (x : BookingPlan). x.service.estimated_price) (sym same),
    ap (λ (x : BookingPlan). plus_minutes t x.service.estimated_duration_minutes) (sym same),
  ),
)
planned_Any id r z i t plan (o ∷ os) (inr m) = inr (planned_Any id r z i t plan os m)

Any-at_instant :
    (z : Zone) (start : Local) (i : Uuid) (t : Instant) (os : List Offer)
    → t ≡ z.to_utc start
    → OfferedAt start os i
    → Any (λ o. (o.employee_id ≡ i) × (z.to_utc o.start ≡ t)) os
Any-at_instant z start i t [] e m = m
Any-at_instant z start i t (o ∷ os) e (inl (same, at)) = inl (same, ap z.to_utc at ∙ sym e)
Any-at_instant z start i t (o ∷ os) e (inr m) = inr (Any-at_instant z start i t os e m)

new-IsOffered :
    (p : Port) (st : Store) (id : Uuid) (r : Request) (w : Checked) (t : Instant) (os : List Offer)
    (capacity : CapacityData)
    → available_starts p.tools p.provider
        (rows_of p st r.business_id r.service_id)
        p.now
        w.business
        r.requirements
        w.plan
        w.day
        w.day
        none
      ≡ ok os
    → load_capacity
        (rows_of p st r.business_id r.service_id)
        (w.business.zone.to_utc (combine w.day 0))
        (w.business.zone.to_utc (combine (w.day + 1) 0))
        none
      ≡ ok capacity
    → All
        (CanStartFrom
          (search_for p.tools p.provider w.business r.requirements w.plan capacity p.now)
          w.day
          (w.day + 1 - w.day))
        os
    → t ≡ w.business.zone.to_utc (combine w.day w.time)
    → (i : Uuid) → OfferedAt (combine w.day w.time) os i
    → IsOffered p st r w
        (new_appointment id r i t (get_or (candidate_plan w.business.zone i t os) w.plan))
unfolding new_appointment apply_snapshot
new-IsOffered p st id r w t os capacity found loaded can e i m =
    let z = w.business.zone in
    let planned =
      planned_Any id r z i t (get_or (candidate_plan z i t os) w.plan) os
        (chosen_plan z i t os w.plan (Any-at_instant z (combine w.day w.time) i t os e m)) in
    (os, found, capacity, loaded, can, e, m, planned)

prepare-IsOffered :
    (p : Port) (st : Store) (id : Uuid) (r : Request) (rows : List Appointment)
    → prepare p id r st ≡ ok rows
    → (w : Checked) × (checked p r.business_id r.service_id r.selected_date r.selected_time
          r.requirements
        ≡ ok w)
      × All (IsOffered p st r w) rows
unfolding prepare
prepare-IsOffered p st id r rows h =
    let q = r.requirements in
    let (w, found, h') =
      >>=-eq-ok (checked p r.business_id r.service_id r.selected_date r.selected_time q)
        (λ w. exact_start p st r.business_id r.service_id q none w >>= λ e.
          ok (rows_to_try id r w.business w.plan e.0 e.1 e.2))
        h in
    let (e, at, same) =
      >>=-eq-ok (exact_start p st r.business_id r.service_id q none w)
        (λ e. ok (rows_to_try id r w.business w.plan e.0 e.1 e.2)) h' in
    let (offers, start, offered) =
      exact_start-OfferedAt p st r.business_id r.service_id q none w e.0 e.1 e.2 at in
    let (capacity, loaded, can) =
      available_starts-CanStart p.tools p.provider (rows_of p st r.business_id r.service_id) p.now
        w.business q w.plan w.day w.day none e.2 offers in
    (
      w,
      found,
      subst (All (IsOffered p st r w)) (ok-injective same) (
          rows_to_try-All (OfferedAt (combine w.day w.time) e.2) (IsOffered p st r w) id r
            w.business w.plan e.0 e.1 e.2
            (new-IsOffered p st id r w e.1 e.2 capacity offers loaded can start) offered),
    )

-- A row is booked whose start the search offers.
abbrev pub IsNewOffer : Port → Request → Store → BookingConfirmation → Store → Type 0
IsNewOffer p r st c st' =
    (w : Checked) × (checked p r.business_id r.service_id r.selected_date r.selected_time
        r.requirements
      ≡ ok w)
    × (a : Appointment) × (c ≡ confirmation a)
    × (st'.appointments ≡ a ∷ st.appointments)
    × IsOffered p st r w a

-- A confirmation that returns a booking either finds the booking that its key has made before, or has
-- added a row to the table, of a technician whom available_starts offers on that day at the start that
-- the customer chose; the row has the travel, the duration and the price of the plan that this search
-- made for the technician and the instant. Every offer of the search can start, as available_starts
-- says of it on the capacity loaded from the store.
pub confirm-IsOffered :
    (p : Port) (db : Database) (id : Uuid) (r : Request) (st st' : Store) (c : BookingConfirmation)
    → confirm p db id r st ≡ ok (c, st')
    → IsFoundAgain r st c st' ⊎ IsNewOffer p r st c st'
unfolding queue_event add_appointment
confirm-IsOffered p db id r st st' c h = elim (confirm-outcome p db id r st c st' h) [
  | inl again ↦ inl again
  | inr (rows, e, (a, m, _, same, s)) ↦
      (let (w, found, all) = prepare-IsOffered p st id r rows e in
        inr (
          w,
          found,
          a,
          same,
          ap (λ (x : Store). x.appointments) s,
          All-at (IsOffered p st r w) rows a all m,
        ))
]
