-- ===== src/Booking/Buffers/Laws.antt =====
-- The cap on automatic margins, and what it may touch.
use whatsapp_atendimentos_ag.Prelude.{
  ◌+◌, ◌<◌, ◌-◌, ◌≤◌, ◌≡◌, true, ◌||◌, some, max, min, arith, leb, ltb, ltb→lt, Bool-cases, inl,
  inr, get_or,
}
use whatsapp_atendimentos_ag.Booking.Types.{Minutes, BookingRequirements, ServiceEstimate}
use whatsapp_atendimentos_ag.Booking.Buffers.{
  BufferSettings, Buffers, any_automatic, total, uncapped_buffers, operational_buffers, shrink,
  at_least_one, is_difficult, automatic_booking_notice_minutes,
}

-- The minutes that the business configured itself.
abbrev pub configured : BufferSettings → Minutes
configured s =
    get_or s.preparation_minutes 0
    + get_or s.finishing_minutes 0
    + get_or s.interval_between_services_minutes 0

abbrev Respects : BufferSettings → Buffers → Type 0
Respects s b =
    (b.preparation ≡ get_or s.preparation_minutes b.preparation)
    × (b.finishing ≡ get_or s.finishing_minutes b.finishing)
    × (b.interval ≡ get_or s.interval_between_services_minutes b.interval)

uncapped-Respects :
    (s : BufferSettings) (q : BookingRequirements) (e : ServiceEstimate)
    → Respects s (uncapped_buffers s q e)
unfolding uncapped_buffers
uncapped-Respects s q e = (ground arith, ground arith, ground arith)

total-shrink :
    (s : BufferSettings) (b : Buffers)
    → any_automatic s ≡ true
    → 50 < total b
    → Respects s b
    → total (shrink s b (total b - 50)) ≡ max 50 (configured s)
unfolding shrink
total-shrink s b h l r = ground arith

configured_le : (s : BufferSettings) (b : Buffers) → Respects s b → configured s ≤ total b
configured_le s b r = ground arith

-- Where a setting is automatic, the margins take the uncapped total, cut down to 50 minutes or to
-- what the business configured itself, whichever is more.
pub total-operational_buffers :
    (s : BufferSettings) (q : BookingRequirements) (e : ServiceEstimate)
    → any_automatic s ≡ true
    → total (operational_buffers s q e)
      ≡ min (total (uncapped_buffers s q e)) (max 50 (configured s))
unfolding operational_buffers
total-operational_buffers s q e h =
    let b = uncapped_buffers s q e in
    let r = uncapped-Respects s q e in
    elim (Bool-cases (ltb 50 (total b))) [
      | inl l ↦
          rw (h, l)
            (omega (arith, total-shrink s b h (ltb→lt _ _ l) r, configured_le s b r, ltb→lt _ _ l))
      | inr l ↦ rw (h, l) (ground (arith, l))
    ]

-- A margin that the business configured is reserved as configured.
pub operational_buffers_configured :
    (s : BufferSettings) (q : BookingRequirements) (e : ServiceEstimate) (m : Minutes)
    → (s.preparation_minutes ≡ some m → (operational_buffers s q e).preparation ≡ m)
      × (s.finishing_minutes ≡ some m → (operational_buffers s q e).finishing ≡ m)
      × (s.interval_between_services_minutes ≡ some m → (operational_buffers s q e).interval ≡ m)
unfolding operational_buffers uncapped_buffers
operational_buffers_configured s q e m = (λ h. ground arith, λ h. ground arith, λ h. ground arith)

-- The automatic notice is between two and four hours, and four hours for three units or more and
-- for difficult access.
pub notice_bounds :
    (q : BookingRequirements) (e : ServiceEstimate)
    → (120 ≤ automatic_booking_notice_minutes q e)
      × (automatic_booking_notice_minutes q e ≤ 240)
      × (leb 3 (at_least_one q.quantity) || is_difficult q.access_condition ≡ true
          → automatic_booking_notice_minutes q e ≡ 240)
unfolding automatic_booking_notice_minutes
notice_bounds q e = (ground arith, ground arith, λ h. ground arith)
