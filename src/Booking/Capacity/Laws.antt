-- ===== src/Booking/Capacity/Laws.antt =====
-- What `has_conflict` decides.
use whatsapp_atendimentos_ag.Prelude.{◌≡◌, ◌↔◌, ◌⊎◌, true, List, [], ◌∷◌, arith, Any, ◌<◌}
use whatsapp_atendimentos_ag.Booking.Types.{Uuid}
use whatsapp_atendimentos_ag.Booking.Slots.{Instant, overlaps}
use whatsapp_atendimentos_ag.Booking.Capacity.{
  Appointment, ScheduleBlock, CapacityData, confirmed, existing_start, existing_end,
  conflicts_block, conflicts_appointment, has_conflict,
}

-- The time [start, end) of an employee is shared with [a, b).
abbrev pub Shares : Instant → Instant → Instant → Instant → Type 0
Shares start end a b = (start < b) × (a < end)

abbrev pub BlockOf : Uuid → Instant → Instant → ScheduleBlock → Type 0
BlockOf e start end b = (b.employee_id ≡ e) × Shares start end b.starts_at b.ends_at

abbrev pub BookingOf : Uuid → Instant → Instant → Appointment → Type 0
BookingOf e start end a =
    (a.employee_id ≡ e)
    × (a.status ≡ confirmed)
    × Shares start end (existing_start a) (existing_end a)

conflicts_block_iff :
    (e : Uuid) (start end : Instant) (bs : List ScheduleBlock)
    → (conflicts_block e start end bs ≡ true) ↔ Any (BlockOf e start end) bs
unfolding conflicts_block overlaps
conflicts_block_iff e start end [] = (λ h. cc, λ h. absurd h)
conflicts_block_iff e start end (b ∷ bs) = (
  λ h. ground (arith, conflicts_block_iff e start end bs),
  λ h. ground (arith, conflicts_block_iff e start end bs),
)

conflicts_appointment_iff :
    (e : Uuid) (start end : Instant) (as' : List Appointment)
    → (conflicts_appointment e start end as' ≡ true) ↔ Any (BookingOf e start end) as'
unfolding conflicts_appointment overlaps
conflicts_appointment_iff e start end [] = (λ h. cc, λ h. absurd h)
conflicts_appointment_iff e start end (a ∷ as') = (
  λ h. ground (arith, conflicts_appointment_iff e start end as'),
  λ h. ground (arith, conflicts_appointment_iff e start end as'),
)

-- A conflict is reported exactly when the employee has a block, or a confirmed appointment with its
-- travel, that shares time with the interval.
pub has_conflict_iff :
    (e : Uuid) (start end : Instant) (c : CapacityData)
    → (has_conflict e start end c ≡ true)
      ↔ (Any (BlockOf e start end) c.blocks ⊎ Any (BookingOf e start end) c.appointments)
unfolding has_conflict
has_conflict_iff e start end c = (
  λ h. ground (
    arith,
    conflicts_block_iff e start end c.blocks,
    conflicts_appointment_iff e start end c.appointments,
  ),
  λ h. ground (
    arith,
    conflicts_block_iff e start end c.blocks,
    conflicts_appointment_iff e start end c.appointments,
  ),
)
