-- ===== src/Booking/Slots/Laws.antt =====
-- The slot grid and the overlap test.
use native.Mathlib.Nat.{mul-mod_left}
use whatsapp_atendimentos_ag.Prelude.{
  ℕ, zero, ◌+◌, ◌-◌, ◌*◌, ◌%◌, ◌≤◌, ◌<◌, ◌≡◌, refl, ◌↔◌, true, arith, max,
}
use whatsapp_atendimentos_ag.Booking.Types.{Minutes}
use whatsapp_atendimentos_ag.Booking.Results.{ok, err, invalid_slot_interval}
use whatsapp_atendimentos_ag.Booking.Slots.{
  Instant, Local, minute, day_length, ceil_to, ceil_to_slot, overlaps,
}

pub ceil_to_bounds :
    (n step : ℕ)
    → 0 < step
    → (n ≤ ceil_to n step) × (ceil_to n step < n + step) × (ceil_to n step % step ≡ 0)
ceil_to_bounds n step h = (grind arith, grind arith, mul-mod_left _ _)

-- For a positive interval the result is the first slot of the day's grid at or after the given time;
-- otherwise the business is handed off.
pub ceil_to_slot_lem :
    (value : Local) (interval : Minutes)
    → (ceil_to_slot value zero ≡ err invalid_slot_interval)
      × (0 < interval
          → (slot : Local) × (ceil_to_slot value interval ≡ ok slot)
            × (value ≤ slot)
            × (slot < value + interval * minute)
            × ((slot - (value - value % day_length)) % (interval * minute) ≡ 0))
unfolding ceil_to_slot
ceil_to_slot_lem value interval = (
  refl,
  λ h.
      let midnight : ℕ = value - value % day_length in
      let c : ℕ = ceil_to (value % day_length) (interval * minute) in
      let b = ceil_to_bounds (value % day_length) (interval * minute) (omega arith) in
      let same : midnight + c - midnight ≡ c = omega arith in
      (midnight + c, ground arith, omega (arith, b.0), omega (arith, b.1), rw same b.2),
)

-- Two intervals overlap exactly when some instant lies in both, if neither is empty.
pub overlaps_iff :
    (a b c d : Instant)
    → a < b
    → c < d
    → (overlaps a b c d ≡ true) ↔ ((t : Instant) × (a ≤ t) × (t < b) × (c ≤ t) × (t < d))
unfolding overlaps
overlaps_iff a b c d h k =
    (λ o. (max a c, ground arith, ground arith, ground arith, ground arith), λ t. ground arith)
