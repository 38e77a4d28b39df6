-- ===== src/Booking/Starts/Laws.antt =====
-- What the candidate loop finds.
use whatsapp_atendimentos_ag.Prelude.{
  ℕ, zero, suc, ◌+◌, ◌*◌, ◌≡◌, refl, subst, inl, inr, true, List, [], ◌∷◌, ◌++◌, arith, All,
  All-append, All-map, Bool-cases, if◌then◌else◌,
}
use whatsapp_atendimentos_ag.Booking.Types.{Uuid}
use whatsapp_atendimentos_ag.Booking.Slots.{Local, Date, minute, plus_minutes}
use whatsapp_atendimentos_ag.Booking.Results.{ok, ◌>>=◌, >>=-eq-ok, ok-injective}
use whatsapp_atendimentos_ag.Booking.Schedule.{schedule_aware_plan}
use whatsapp_atendimentos_ag.Booking.Starts.{
  Offer, Search, offer, service_end, accepts, try_candidate, fits_range, scan,
}

abbrev pub step : Search → ℕ
step s = s.business.slot_interval_minutes * minute

-- The plan is the one computed for the technician's day, and the test of the loop accepted it.
pub record IsAccepted (s : Search) (day : Date) (employee : Uuid) (o : Offer) : Type 0 where
  pub employee_same : o.employee_id ≡ employee
  pub planned :
      schedule_aware_plan s.tools s.provider s.business s.requirements s.plan employee o.start
        (service_end s o.start)
        s.capacity.appointments
      ≡ ok o.plan
  pub accepted : accepts s day employee o.start o.plan ≡ true

-- A start found by `scan` from the candidate `c`.
pub record IsFound (s : Search) (day : Date) (employee : Uuid) (end c : Local) (o : Offer)
    : Type 0 where
  pub is_accepted : IsAccepted s day employee o
  pub fits : fits_range s end o.start ≡ true
  pub on_grid : (k : ℕ) × (o.start ≡ c + k * step s)

try_candidate-IsAccepted :
    (s : Search) (day : Date) (employee : Uuid) (c : Local) (os : List Offer)
    → try_candidate s day employee c ≡ ok os
    → All (λ o. IsAccepted s day employee o × (o.start ≡ c)) os
unfolding try_candidate
try_candidate-IsAccepted s day employee c os h =
    let (p, planned, kept) =
      >>=-eq-ok
        (schedule_aware_plan s.tools s.provider s.business s.requirements s.plan employee c
          (service_end s c) s.capacity.appointments)
        (λ p. ok (if accepts s day employee c p then offer c employee p ∷ [] else [])) h in
    elim (Bool-cases (accepts s day employee c p)) [
      | inl yes' ↦
          let e : offer c employee p ∷ [] ≡ os = ok-injective (rw yes' at kept) in
          subst (All (λ o. IsAccepted s day employee o × (o.start ≡ c))) e (
            let found : IsAccepted s day employee (offer c employee p) = record {
              employee_same = refl;
              planned = planned;
              accepted = yes';
            } in
            ((found, refl), tt))
      | inr no' ↦
          let e : [] ≡ os = ok-injective (rw no' at kept) in
          subst (All (λ o. IsAccepted s day employee o × (o.start ≡ c))) e tt
    ]

pub scan-IsFound :
    (fuel : ℕ) (s : Search) (day : Date) (employee : Uuid) (end c : Local) (os : List Offer)
    → scan fuel s day employee end c ≡ ok os
    → All (IsFound s day employee end c) os
unfolding scan
scan-IsFound zero s day employee end c os h =
    subst (All (IsFound s day employee end c)) (ok-injective h) tt
scan-IsFound (suc fuel) s day employee end c os h = elim (Bool-cases (fits_range s end c)) [
  | inr no' ↦ subst (All (IsFound s day employee end c)) (ok-injective (rw no' at h)) tt
  | inl fit ↦
      let next = plus_minutes c s.business.slot_interval_minutes in
      let (here, h1, h2) =
        >>=-eq-ok (try_candidate s day employee c)
          (λ here. scan fuel s day employee end next >>= λ more. ok (here ++ more)) (rw fit at h) in
      let (more, h3, h4) =
        >>=-eq-ok (scan fuel s day employee end next) (λ more. ok (here ++ more)) h2 in
      subst (All (IsFound s day employee end c)) (ok-injective h4) (
        All-append (IsFound s day employee end c) here more
          (All-map here
            (λ o a. record {
              is_accepted = a.0;
              fits = rw (a.1) fit;
              on_grid = (0, omega (arith, a.1));
            })
            (try_candidate-IsAccepted s day employee c here h1))
          (All-map more
            (λ o f. record {
              is_accepted = f.is_accepted;
              fits = f.fits;
              on_grid = (suc f.on_grid.0, omega (arith, f.on_grid.1));
            })
            (scan-IsFound fuel s day employee end next more h3)))
]
