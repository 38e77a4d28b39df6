-- ===== src/Booking/Plan/Laws.antt =====
-- What a plan reserves, charges and hands off.
use whatsapp_atendimentos_ag.Prelude.{
  ℕ, ◌+◌, ◌-◌, ◌*◌, ◌≡◌, refl, sym, ◌↔◌, Bool, true, false, not, Option, some, ◌∙◌, subst, arith,
  is_none, get_or, ◌⊎◌, inl, inr, ◌≢◌, ◌≤◌, none, Bool-cases,
}
use whatsapp_atendimentos_ag.Booking.Types.{
  Cents, Hundredths, quantize, BookingRequirements, ServiceEstimate, TravelEstimate, BookingPlan,
  no_fulfillment, Fulfillment, equipment_delivery, TravelMethod, same_address,
}
use whatsapp_atendimentos_ag.Booking.Buffers.{total, operational_buffers}
use whatsapp_atendimentos_ag.Booking.Results.{ok, >>=-eq-ok, ok-injective}
use whatsapp_atendimentos_ag.Booking.Business.{TextTools, Business, Service, CatalogItem}
use whatsapp_atendimentos_ag.Booking.Travel.{RouteProvider}
use whatsapp_atendimentos_ag.Booking.Plan.{
  assemble, build_plan, plan_with, plan_travel, plan_service, price_distance, price_delivery,
  outside_radius, require_automatic_plan, delivery_unavailable, is_fulfillment, is_delivery,
  is_same_address,
}

-- What the plan says of the handoff fits together, and automatic booking goes on exactly without one.
abbrev pub IsCoherent : BookingPlan → Type 0
IsCoherent p =
    (is_none p.handoff_reason ≡ not p.requires_handoff)
    × ((require_automatic_plan p ≡ ok tt) ↔ (p.requires_handoff ≡ false))

assemble-IsCoherent :
    (b : Business) (q : BookingRequirements) (e : ServiceEstimate) (t : TravelEstimate) (o : Bool)
    → IsCoherent (assemble b q e t o)
unfolding assemble require_automatic_plan
assemble-IsCoherent b q e t o = (ground arith, (λ h. ground arith, λ h. ground arith))

assemble_reserves :
    (b : Business) (q : BookingRequirements) (e : ServiceEstimate) (t : TravelEstimate) (o : Bool)
    → let p = assemble b q e t o in
      p.travel_before_minutes + p.travel_after_minutes
      ≡ p.travel.travel_minutes * 2
        + b.travel_before_buffer_minutes
        + b.travel_after_buffer_minutes
        + total (operational_buffers b.buffers q p.service)
unfolding assemble
assemble_reserves b q e t o = omega arith

abbrev IsInRadius : Fulfillment → Option Hundredths → Option Hundredths → Type 0
IsInRadius f distance radius =
    (f ≢ no_fulfillment)
    ⊎ ((distance ≡ none)
        ⊎ ((radius ≡ none)
            ⊎ ((d r : Hundredths) × (distance ≡ some d) × (radius ≡ some r) × (d ≤ r))))

abbrev HasDistance : Fulfillment → TravelMethod → Option Hundredths → Type 0
HasDistance f method distance =
    (f ≢ equipment_delivery) ⊎ ((method ≡ same_address) ⊎ ((d : Hundredths) × (distance ≡ some d)))

abbrev pub IsBookable : Business → BookingRequirements → BookingPlan → Type 0
IsBookable b q p =
    (p.travel.available ≡ true)
    × (p.travel.within_service_area ≡ true)
    × (p.service.requires_human_quote ≡ false)
    × IsInRadius q.fulfillment_type p.travel.distance_km b.service_radius_km
    × HasDistance q.fulfillment_type p.travel.method p.travel.distance_km

not_service : (f : Fulfillment) → is_fulfillment f ≡ true → f ≢ no_fulfillment
not_service f h e = cc (h, e)

not_delivery : (f : Fulfillment) → is_delivery f ≡ false → f ≢ equipment_delivery
not_delivery f h e = cc (h, e)

of_same_address : (m : TravelMethod) → is_same_address m ≡ true → m ≡ same_address
of_same_address same_address h = refl
of_same_address m h = cc h

outside_radius-IsInRadius :
    (b : Business) (f : Fulfillment) (distance radius : Option Hundredths)
    → b.service_radius_km ≡ radius
    → outside_radius b f distance ≡ false
    → IsInRadius f distance radius
unfolding outside_radius
outside_radius-IsInRadius b f none radius e h = inr (inl refl)
outside_radius-IsInRadius b f (some d) none e h = inr (inr (inl refl))
outside_radius-IsInRadius b f (some d) (some r) e h = elim (Bool-cases (is_fulfillment f)) [
  | inl t ↦ inl (not_service f t)
  | inr t ↦ inr (inr (inr (d, r, refl, refl, ground arith)))
]

delivery-HasDistance :
    (f : Fulfillment) (t : TravelEstimate)
    → delivery_unavailable f t ≡ false
    → HasDistance f t.method t.distance_km
delivery-HasDistance f t h = elim (Bool-cases (is_delivery f)) [
  | inr e ↦ inl (not_delivery f e)
  | inl e ↦ (elim (Bool-cases (is_same_address t.method)) [
    | inl m ↦ inr (inl (of_same_address t.method m))
    | inr m ↦ inr (inr (known t.distance_km (ground arith)))
  ])
]
  where
    known : (o : Option Hundredths) → is_none o ≡ false → (d : Hundredths) × (o ≡ some d)
    known none h = cc h
    known (some d) h = (d, refl)

assemble-IsBookable :
    (b : Business) (q : BookingRequirements) (e : ServiceEstimate) (t : TravelEstimate)
    → let p = assemble b q e t (outside_radius b q.fulfillment_type t.distance_km) in
      p.requires_handoff ≡ false → IsBookable b q p
unfolding assemble
assemble-IsBookable b q e t h =
    let inside : outside_radius b q.fulfillment_type t.distance_km ≡ false = ground arith in
    let measured : delivery_unavailable q.fulfillment_type t ≡ false = ground arith in
    (
      ground arith,
      ground arith,
      ground arith,
      outside_radius-IsInRadius b q.fulfillment_type t.distance_km b.service_radius_km refl inside,
      delivery-HasDistance q.fulfillment_type t measured,
    )

module _ (tools : TextTools) (provider : RouteProvider) (item : Option CatalogItem) (b : Business)
    (s : Service) (q : BookingRequirements) (p : BookingPlan)
    (built : build_plan tools provider item b s q ≡ ok p) where
  parts :
      (e : ServiceEstimate) × (plan_service tools provider item b s q ≡ ok e)
      × (p ≡ plan_with tools provider b q e (plan_travel tools provider b q e))
  unfolding build_plan
  parts =
      let (e, planned, same) =
        >>=-eq-ok (plan_service tools provider item b s q)
          (λ e. ok (plan_with tools provider b q e (plan_travel tools provider b q e))) built in
      (e, planned, sym (ok-injective same))

  -- A plan names a reason exactly when it requires a handoff, and `require_automatic_plan` lets it
  -- pass exactly when it requires none.
  pub build_plan-IsCoherent : IsCoherent p
  build_plan-IsCoherent = rw parts.2 (assemble-IsCoherent _ _ _ _ _)

  -- The plan reserves the travel twice, the two configured buffers and the operational buffers
  -- whole: halving the interval loses no minute.
  pub build_plan_reserves :
      p.travel_before_minutes + p.travel_after_minutes
      ≡ p.travel.travel_minutes * 2
        + b.travel_before_buffer_minutes
        + b.travel_after_buffer_minutes
        + total (operational_buffers b.buffers q p.service)
  build_plan_reserves = rw parts.2 (assemble_reserves _ _ _ _ _)

-- Where the handoff comes from.
module _ (tools : TextTools) (provider : RouteProvider) (item : Option CatalogItem) (b : Business)
    (s : Service) (q : BookingRequirements) (p : BookingPlan)
    (built : build_plan tools provider item b s q ≡ ok p) where
  -- A plan without handoff has an available travel within the served area and needs no human quote.
  -- Where a service is done at the customer's, and the distance and a radius are known, the distance is
  -- at most the radius; where equipment is delivered, the distance is known or the addresses are the
  -- same.
  pub build_plan-IsBookable : p.requires_handoff ≡ false → IsBookable b q p
  build_plan-IsBookable =
      let (e, _, same) = parts tools provider item b s q p built in
      let t = plan_travel tools provider b q e in
      let f = q.fulfillment_type in
      subst (λ x. x.requires_handoff ≡ false → IsBookable b q x) (sym same)
        (assemble-IsBookable b q (price_delivery b f t (price_distance b f t.distance_km e)) t)

quantize-zero : quantize 0 ≡ 0
unfolding quantize
quantize-zero = refl

fee-zero : (x y : ℕ) → (x ≡ 0) ⊎ (y ≡ 0) → quantize (x * y) ≡ 0
fee-zero x y h = let z : x * y ≡ 0 = grind arith in rw z quantize-zero

price_distance_lem :
    (b : Business) (d : Hundredths) (e : ServiceEstimate) (price : Cents)
    → e.estimated_price ≡ some price
    → (price_distance b no_fulfillment (some d) e).estimated_price
      ≡ some (
          price
          + quantize (
              (d - get_or b.service_distance_included_km 1500)
              * get_or b.service_distance_fee_per_km 240))
unfolding price_distance
price_distance_lem b d e price h = ground (
  arith,
  fee-zero (d - get_or b.service_distance_included_km 1500)
      (get_or b.service_distance_fee_per_km 240),
)

price_lem :
    (b : Business) (t : TravelEstimate) (e : ServiceEstimate) (d : Hundredths) (base : Cents)
    (f : Fulfillment) (o : Option Hundredths)
    → f ≡ no_fulfillment
    → o ≡ some d
    → e.estimated_price ≡ some base
    → (price_delivery b f t (price_distance b f o e)).estimated_price
      ≡ some (
          base
          + quantize (
              (d - get_or b.service_distance_included_km 1500)
              * get_or b.service_distance_fee_per_km 240))
unfolding price_delivery
price_lem b t e d base f o hf ho h = rw (hf, ho) (price_distance_lem b d e base h)

-- The distance fee of a service at the customer's address: what lies beyond the included distance,
-- at the fee per kilometre, rounded half to even to the cent, is added to the price of the service.
pub build_plan_distance_fee :
    (tools : TextTools) (provider : RouteProvider) (item : Option CatalogItem) (b : Business)
    (s : Service) (q : BookingRequirements) (p : BookingPlan) (e : ServiceEstimate) (d : Hundredths)
    (base : Cents)
    → build_plan tools provider item b s q ≡ ok p
    → plan_service tools provider item b s q ≡ ok e
    → q.fulfillment_type ≡ no_fulfillment
    → e.estimated_price ≡ some base
    → p.travel.distance_km ≡ some d
    → p.service.estimated_price
      ≡ some (
          base
          + quantize (
              (d - get_or b.service_distance_included_km 1500)
              * get_or b.service_distance_fee_per_km 240))
unfolding assemble
build_plan_distance_fee tools provider item b s q p e d base built planned f h k =
    let (e', planned', same) = parts tools provider item b s q p built in
    let agree : e ≡ e' = ok-injective (sym planned ∙ planned') in
    let h' : e'.estimated_price ≡ some base = subst (λ x. x.estimated_price ≡ some base) agree h in
    let t = plan_travel tools provider b q e' in
    let k' : t.distance_km ≡ some d =
      subst (λ (x : BookingPlan). x.travel.distance_km ≡ some d) same k in
    rw same (price_lem b t e' d base q.fulfillment_type t.distance_km f k' h')
