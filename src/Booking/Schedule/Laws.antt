-- ===== src/Booking/Schedule/Laws.antt =====
-- The service estimate in the plan of a technician's day.
use whatsapp_atendimentos_ag.Prelude.{◌≡◌, sym, ap, Option, none, some, List}
use whatsapp_atendimentos_ag.Booking.Types.{
  Uuid, BookingRequirements, BookingPlan, TravelEstimate, ServiceAddress,
}
use whatsapp_atendimentos_ag.Booking.Slots.{Local}
use whatsapp_atendimentos_ag.Booking.Capacity.{Appointment}
use whatsapp_atendimentos_ag.Booking.Results.{Result, ok, ◌>>=◌, >>=-eq-ok, ok-injective}
use whatsapp_atendimentos_ag.Booking.Business.{TextTools, Business}
use whatsapp_atendimentos_ag.Booking.Travel.{RouteProvider}
use whatsapp_atendimentos_ag.Booking.Schedule.{
  previous_of, following_of, combine_legs, schedule_aware_plan, plan_for_destination, leg_before,
  leg_after,
}

service-plan_for_destination :
    (tools : TextTools) (provider : RouteProvider) (b : Business) (q : BookingRequirements)
    (plan : BookingPlan) (employee : Uuid) (starts_at ends_at : Local) (items : List Appointment)
    (d : ServiceAddress) (p : BookingPlan)
    → plan_for_destination tools provider b q plan employee starts_at ends_at items d ≡ ok p
    → p.service ≡ plan.service
unfolding plan_for_destination combine_legs
service-plan_for_destination tools provider b q plan employee starts_at ends_at items d p h =
    let follow = following_of b.zone employee starts_at ends_at items in
    let next = λ (before : TravelEstimate).
      leg_after tools provider b d follow >>= λ after. ok (combine_legs b q plan before after) in
    let (before, _, h1) =
      >>=-eq-ok (leg_before tools provider b plan d (previous_of b.zone employee starts_at items))
        next h in
    let (after, _, h2) =
      >>=-eq-ok (leg_after tools provider b d follow)
        (λ after. ok (combine_legs b q plan before after)) h1 in
    ap (λ (x : BookingPlan). x.service) (sym (ok-injective h2))

-- The plan of a candidate keeps the service estimate of the general plan.
service-schedule_aware_plan :
    (tools : TextTools) (provider : RouteProvider) (b : Business) (q : BookingRequirements)
    (plan : BookingPlan) (employee : Uuid) (starts_at ends_at : Local) (items : List Appointment)
    (p : BookingPlan)
    → schedule_aware_plan tools provider b q plan employee starts_at ends_at items ≡ ok p
    → p.service ≡ plan.service
unfolding schedule_aware_plan
service-schedule_aware_plan tools provider b q plan employee starts_at ends_at items p h =
    by_address q.address h
  where
    by_address :
        (o : Option ServiceAddress)
        → ◌≡◌ {A = Result BookingPlan}
            (elim o [
              | none ↦ ok plan
              | some d ↦
                  plan_for_destination tools provider b q plan employee starts_at ends_at items d
            ])
            (ok p)
        → p.service ≡ plan.service
    by_address none e = ap (λ (x : BookingPlan). x.service) (sym (ok-injective e))
    by_address (some d) e =
        service-plan_for_destination tools provider b q plan employee starts_at ends_at items d p e
