-- ===== src/Booking/Results.antt =====
-- The exceptions of app/conversations/ports.py that the booking port raises, and the chaining of
-- steps that may raise one.
use whatsapp_atendimentos_ag.Prelude.{Bool, true, false, Option, ◌≡◌, refl}
use whatsapp_atendimentos_ag.Booking.Types.{HandoffReason}

-- What each `raise` says.
pub data BookingError : Type 0 where
  -- BookingRequiresHandoff
  requires_handoff : Option HandoffReason → BookingError
  service_unavailable no_technician invalid_configuration invalid_timezone : BookingError
  invalid_slot_interval : BookingError
  -- SlotUnavailable
  date_unavailable slot_unavailable invalid_date invalid_time : BookingError
  -- BookingNotFound
  appointment_not_found cannot_be_cancelled cannot_be_rescheduled : BookingError
  -- an IntegrityError that the port passes on
  integrity_error : BookingError
  -- a ValueError that no handler catches
  value_error : BookingError

pub data Result {ℓ} (X : Type ℓ) : Type ℓ where
  err : BookingError → Result X
  ok : X → Result X

infixl 5 ◌>>=◌ ◌>>◌
-- An exception skips what comes after it.
abbrev pub ◌>>=◌ {ℓ κ} : {X : Type ℓ} {Y : Type κ} → Result X → (X → Result Y) → Result Y
err raised >>= next = err raised
ok value >>= next = next value

-- `if test: raise e`
abbrev pub raise_if : Bool → BookingError → Result (Unit {0})
raise_if false raised = ok tt
raise_if true raised = err raised

abbrev pub ◌>>◌ {ℓ} : {Y : Type ℓ} → Result (Unit {0}) → Result Y → Result Y
check >> rest = check >>= λ _. rest

-- What a chain that ends well tells of its first step.
pub >>=-eq-ok {ℓ κ} :
    {X : Type ℓ} {Y : Type κ} (first : Result X) (next : X → Result Y) {y : Y}
    → (first >>= next) ≡ ok y
    → (x : X) × (first ≡ ok x) × (next x ≡ ok y)
>>=-eq-ok (err raised) next h = cc
>>=-eq-ok (ok value) next h = (value, refl, h)

pub ok-injective {ℓ} : {X : Type ℓ} {x y : X} → ok x ≡ ok y → x ≡ y
ok-injective h = cc
