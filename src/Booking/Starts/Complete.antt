-- ===== src/Booking/Starts/Complete.antt =====
-- The candidate loop and the rounds that it is given: the slots that it finds.
use whatsapp_atendimentos_ag.Prelude.{
  ℕ, zero, suc, ◌+◌, ◌*◌, ◌/◌, ◌≤◌, ◌<◌, ◌≡◌, refl, sym, subst, inl, inr, true, List, [], ◌∷◌, ◌++◌,
  arith, Any, leb→le,
}
use whatsapp_atendimentos_ag.Booking.Types.{Uuid, BookingPlan}
use whatsapp_atendimentos_ag.Booking.Slots.{
  Local, Date, plus_minutes, minute, combine, ceil_to_slot,
}
use whatsapp_atendimentos_ag.Booking.Slots.Laws.{ceil_to_slot_lem}
use whatsapp_atendimentos_ag.Booking.Capacity.{Range}
use whatsapp_atendimentos_ag.Booking.Results.{ok, ◌>>=◌, >>=-eq-ok, ok-injective}
use whatsapp_atendimentos_ag.Booking.Schedule.{schedule_aware_plan}
use whatsapp_atendimentos_ag.Booking.Starts.{
  Offer, Search, offer, service_end, accepts, try_candidate, fits_range, scan, scan_range, rounds,
}
use whatsapp_atendimentos_ag.Booking.Starts.Laws.{step}

Any-append_left : (P : Offer → Type 0) (xs ys : List Offer) → Any P xs → Any P (xs ++ ys)
Any-append_left P [] ys h = absurd h
Any-append_left P (x ∷ xs) ys (inl h) = inl h
Any-append_left P (x ∷ xs) ys (inr h) = inr (Any-append_left P xs ys h)

Any-append_right : (P : Offer → Type 0) (xs ys : List Offer) → Any P ys → Any P (xs ++ ys)
Any-append_right P [] ys h = h
Any-append_right P (x ∷ xs) ys h = inr (Any-append_right P xs ys h)

-- The candidate `c` after `k` more intervals.
abbrev pub after_slots : Search → Local → ℕ → Local
after_slots s c k = c + k * step s

module _ (s : Search) (day : Date) (employee : Uuid) (end : Local) (p : BookingPlan) where
  try_finds :
      (t : Local) (os : List Offer)
      → schedule_aware_plan s.tools s.provider s.business s.requirements s.plan employee t
          (service_end s t)
          s.capacity.appointments
        ≡ ok p
      → accepts s day employee t p ≡ true
      → try_candidate s day employee t ≡ ok os
      → Any (λ o. o ≡ offer t employee p) os
  unfolding try_candidate
  try_finds t os planned good h =
      let e : offer t employee p ∷ [] ≡ os = ok-injective (rw (planned, good) at h) in
      subst (Any (λ o. o ≡ offer t employee p)) e (inl refl)

  -- One round of the loop that goes on.
  scan_round :
      (fuel : ℕ) (c : Local) (os : List Offer)
      → fits_range s end c ≡ true
      → scan (suc fuel) s day employee end c ≡ ok os
      → (here : List Offer) × (more : List Offer) × (try_candidate s day employee c ≡ ok here)
        × (scan fuel s day employee end (plus_minutes c s.business.slot_interval_minutes) ≡ ok more)
        × (here ++ more ≡ os)
  unfolding scan
  scan_round fuel c os fit h =
      let next = plus_minutes c s.business.slot_interval_minutes in
      let (here, h1, h2) =
        >>=-eq-ok (try_candidate s day employee c)
          (λ here. scan fuel s day employee end next >>= λ more. ok (here ++ more)) (rw fit at h) in
      let (more, h3, h4) =
        >>=-eq-ok (scan fuel s day employee end next) (λ more. ok (here ++ more)) h2 in
      (here, more, h1, h3, ok-injective h4)

  module _ (t : Local)
      (planned : schedule_aware_plan s.tools s.provider s.business s.requirements s.plan employee t
          (service_end s t)
          s.capacity.appointments
        ≡ ok p)
      (good : accepts s day employee t p ≡ true) (fit : fits_range s end t ≡ true) where
    -- A slot within reach of the fuel, that fits the range and passes the test, is found.
    scan_finds :
        (k fuel : ℕ) (c : Local) (os : List Offer)
        → k < fuel
        → t ≡ after_slots s c k
        → scan fuel s day employee end c ≡ ok os
        → Any (λ o. o ≡ offer t employee p) os
    scan_finds k zero c os l e h = absurd (omega arith)
    scan_finds zero (suc fuel) c os l e h =
        let same : c ≡ t = omega (arith, e) in
        let (here, more, h1, _, h3) =
          scan_round fuel c os (subst (λ x. fits_range s end x ≡ true) (sym same) fit) h in
        subst (Any (λ o. o ≡ offer t employee p)) h3 (
          Any-append_left _ here more (
            try_finds t here planned good
              (subst (λ x. try_candidate s day employee x ≡ ok here) same h1)))
    scan_finds (suc k) (suc fuel) c os l e h =
        let earlier : fits_range s end c ≡ true = ground (arith, fit, e) in
        let (here, more, _, h2, h3) = scan_round fuel c os earlier h in
        subst (Any (λ o. o ≡ offer t employee p)) h3 (
          Any-append_right _ here more (
            scan_finds k fuel (plus_minutes c s.business.slot_interval_minutes) more (omega arith)
              (omega (arith, e)) h2))

slot_interval_positive :
    (value interval : ℕ) (slot : Local)
    → ceil_to_slot value interval ≡ ok slot
    → 0 < interval * minute
slot_interval_positive value zero slot h = cc (h, (ceil_to_slot_lem value zero).0)
slot_interval_positive value (suc n) slot h = omega arith

le_rounds : (k end d : ℕ) → 0 < d → k * d ≤ end → k < end / d + 1
le_rounds k end d h l = grind arith

-- Nothing is left out: in a range of operating hours, every slot of the grid at which the service
-- and the travel after it still end in time, and which passes the test of the loop with the plan of
-- the technician's day, is offered with that plan. The rounds of the model are enough for it.
pub scan_range_finds :
    (s : Search) (day : Date) (r : Range) (first t : Local) (k : ℕ) (p : BookingPlan)
    (os : List Offer)
    → scan_range s day r ≡ ok os
    → ceil_to_slot
        (plus_minutes (combine day r.range_start) s.plan.travel_before_minutes)
        s.business.slot_interval_minutes
      ≡ ok first
    → t ≡ after_slots s first k
    → fits_range s (combine day r.range_end) t ≡ true
    → schedule_aware_plan s.tools s.provider s.business s.requirements s.plan r.employee_id t
        (service_end s t)
        s.capacity.appointments
      ≡ ok p
    → accepts s day r.employee_id t p ≡ true
    → Any (λ o. o ≡ offer t r.employee_id p) os
unfolding scan_range
scan_range_finds s day r first t k p os h e slot fit planned good =
    let end = combine day r.range_end in
    let positive : 0 < step s = slot_interval_positive _ _ first e in
    let reach : k < rounds s end =
      le_rounds k end (step s) positive (omega (arith, leb→le _ _ fit, slot)) in
    scan_finds s day r.employee_id end p t planned good fit k (rounds s end) first os reach slot
      (rw e at h)
