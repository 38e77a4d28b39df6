-- ===== src/Booking/Starts/Sound.antt =====
-- What `available_starts` offers, from the candidate loop up to the days.
use whatsapp_atendimentos_ag.Prelude.{
  ℕ, zero, suc, ◌+◌, ◌-◌, ◌≤◌, ◌<◌, ◌≡◌, sym, ◌∙◌, subst, inl, inr, true, false, List, [], ◌∷◌,
  ◌++◌, Option, arith, All, All-append, All-map, Any, leb→le,
}
use whatsapp_atendimentos_ag.Booking.Types.{Uuid, BookingPlan, BookingRequirements, Minutes}
use whatsapp_atendimentos_ag.Booking.Slots.{
  Instant, Local, Date, combine, plus_minutes, minus_minutes, ceil_to_slot, within_site_window,
}
use whatsapp_atendimentos_ag.Booking.Slots.Laws.{ceil_to_slot_lem}
use whatsapp_atendimentos_ag.Booking.Capacity.{
  CapacityData, Range, has_conflict, operating_ranges_for_day,
}
use whatsapp_atendimentos_ag.Booking.Results.{ok, ◌>>=◌, >>=-eq-ok, ok-injective}
use whatsapp_atendimentos_ag.Booking.Business.{TextTools, Business}
use whatsapp_atendimentos_ag.Booking.Travel.{RouteProvider}
use whatsapp_atendimentos_ag.Booking.Starts.{
  Offer, Search, service_end, accepts, scan, scan_range, scan_ranges, scan_days, rounds, Rows,
  load_capacity, search_for, available_starts,
}
use whatsapp_atendimentos_ag.Booking.Starts.Laws.{IsFound, scan-IsFound}

-- A start in a range of operating hours that a customer can be offered.
pub record CanStart (s : Search) (day : Date) (r : Range) (o : Offer) : Type 0 where
  pub employee_same : o.employee_id ≡ r.employee_id
  pub after_notice : s.earliest_allowed_start < o.start
  pub automatic : o.plan.requires_handoff ≡ false
  pub in_window :
      within_site_window day o.start
        (service_end s o.start)
        s.requirements.site_allowed_start
        s.requirements.site_allowed_end
      ≡ true
  pub free :
      has_conflict r.employee_id
        (s.business.zone.to_utc (minus_minutes o.start o.plan.travel_before_minutes))
        (s.business.zone.to_utc (plus_minutes (service_end s o.start) o.plan.travel_after_minutes))
        s.capacity
      ≡ false
  pub starts_in_hours :
      plus_minutes (combine day r.range_start) s.plan.travel_before_minutes ≤ o.start
  pub ends_in_hours :
      plus_minutes (service_end s o.start) s.plan.travel_after_minutes ≤ combine day r.range_end

IsFound-CanStart :
    (s : Search) (day : Date) (r : Range) (first : Local) (o : Offer)
    → plus_minutes (combine day r.range_start) s.plan.travel_before_minutes ≤ first
    → IsFound s day r.employee_id (combine day r.range_end) first o
    → CanStart s day r o
unfolding accepts
IsFound-CanStart s day r first o le f =
    let (k, slot) = f.on_grid in
    let a = f.is_accepted.accepted in
    record {
      employee_same = f.is_accepted.employee_same;
      after_notice = ground (arith, a);
      automatic = ground (arith, a);
      in_window = ground (arith, a);
      free = ground (arith, a);
      starts_in_hours = omega (arith, slot);
      ends_in_hours = omega (arith, leb→le _ _ f.fits);
    }

ceil_to_slot_le :
    (value : Local) (interval : Minutes) (slot : Local)
    → ceil_to_slot value interval ≡ ok slot
    → value ≤ slot
ceil_to_slot_le value zero slot h = cc (h, (ceil_to_slot_lem value zero).0)
ceil_to_slot_le value (suc n) slot h =
    let (found, e, le, _, _) = (ceil_to_slot_lem value (suc n)).1 (omega arith) in
    let same : found ≡ slot = ok-injective (sym e ∙ h) in omega (arith, le, same)

scan_range-CanStart :
    (s : Search) (day : Date) (r : Range) (os : List Offer)
    → scan_range s day r ≡ ok os
    → All (CanStart s day r) os
unfolding scan_range
scan_range-CanStart s day r os h =
    let start = plus_minutes (combine day r.range_start) s.plan.travel_before_minutes in
    let end = combine day r.range_end in
    let (first, e, found) =
      >>=-eq-ok (ceil_to_slot start s.business.slot_interval_minutes)
        (λ first. scan (rounds s end) s day r.employee_id end first) h in
    All-map os (λ o. IsFound-CanStart s day r first o (ceil_to_slot_le start _ first e))
      (scan-IsFound (rounds s end) s day r.employee_id end first os found)

scan_ranges-CanStart :
    (s : Search) (day : Date) (rs : List Range) (os : List Offer)
    → scan_ranges s day rs ≡ ok os
    → All (λ o. Any (λ r. CanStart s day r o) rs) os
unfolding scan_ranges
scan_ranges-CanStart s day [] os h = subst (All (λ o. ⊥)) (ok-injective h) tt
scan_ranges-CanStart s day (r ∷ rs) os h =
    let P : Offer → Type 0 = λ o. Any (λ r'. CanStart s day r' o) (r ∷ rs) in
    let (here, h1, h2) =
      >>=-eq-ok (scan_range s day r) (λ here. scan_ranges s day rs >>= λ more. ok (here ++ more))
        h in
    let (more, h3, h4) = >>=-eq-ok (scan_ranges s day rs) (λ more. ok (here ++ more)) h2 in
    subst (All P) (ok-injective h4) (
      All-append P here more (All-map here (λ o f. inl f) (scan_range-CanStart s day r here h1))
        (All-map more (λ o f. inr f) (scan_ranges-CanStart s day rs more h3)))

-- A start on one of the `n` days from `first`, within the hours of that day.
abbrev pub CanStartFrom : Search → Date → ℕ → Offer → Type 0
CanStartFrom s first n o =
    (day : Date) × (first ≤ day)
    × (day < first + n)
    × Any (λ r. CanStart s day r o)
        (operating_ranges_for_day s.business.zone s.business.hours day s.capacity)

scan_days-CanStart :
    (n : ℕ) (s : Search) (day : Date) (os : List Offer)
    → scan_days n s day ≡ ok os
    → All (CanStartFrom s day n) os
unfolding scan_days
scan_days-CanStart zero s day os h = subst (All (CanStartFrom s day 0)) (ok-injective h) tt
scan_days-CanStart (suc n) s day os h =
    let ranges = operating_ranges_for_day s.business.zone s.business.hours day s.capacity in
    let P : Offer → Type 0 = CanStartFrom s day (suc n) in
    let (here, h1, h2) =
      >>=-eq-ok (scan_ranges s day ranges)
        (λ here. scan_days n s (day + 1) >>= λ more. ok (here ++ more)) h in
    let (more, h3, h4) = >>=-eq-ok (scan_days n s (day + 1)) (λ more. ok (here ++ more)) h2 in
    subst (All P) (ok-injective h4) (
      All-append P here more
        (All-map here (λ o f. (day, omega arith, omega arith, f))
          (scan_ranges-CanStart s day ranges here h1))
        (All-map more (λ o f. (f.0, omega (arith, f.1), omega (arith, f.2), f.3))
          (scan_days-CanStart n s (day + 1) more h3)))

-- Every offered start lies on a day of the requested span, within the operating hours of its
-- employee that day with the reserved travel, after the booking notice, within the hours of the
-- site, and free of conflicts with the loaded capacity; its plan needs no person.
pub available_starts-CanStart :
    (tools : TextTools) (provider : RouteProvider) (rows : Rows) (now : Instant) (b : Business)
    (q : BookingRequirements) (plan : BookingPlan) (first_date last_date : Date)
    (exclude : Option Uuid) (os : List Offer)
    → available_starts tools provider rows now b q plan first_date last_date exclude ≡ ok os
    → (capacity : CapacityData) × (load_capacity rows
          (b.zone.to_utc (combine first_date 0))
          (b.zone.to_utc (combine (last_date + 1) 0))
          exclude
        ≡ ok capacity)
      × All
          (CanStartFrom
            (search_for tools provider b q plan capacity now)
            first_date
            (last_date + 1 - first_date))
          os
unfolding available_starts
available_starts-CanStart tools provider rows now b q plan first_date last_date exclude os h =
    let n = last_date + 1 - first_date in
    let (capacity, h1, h2) =
      >>=-eq-ok
        (load_capacity rows (b.zone.to_utc (combine first_date 0))
          (b.zone.to_utc (combine (last_date + 1) 0)) exclude)
        (λ capacity. scan_days n (search_for tools provider b q plan capacity now) first_date) h in
    (
      capacity,
      h1,
      scan_days-CanStart n (search_for tools provider b q plan capacity now) first_date os h2,
    )
