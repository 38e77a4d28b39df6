-- ===== src/Billing/Money.antt =====
-- app/billing/service.py, `_payment_value_cents`, and app/billing/catalog.py: the amounts of payments
-- and offers in cents.
pub mod Laws
use whatsapp_atendimentos_ag.Prelude.{
  ℕ, suc, ◌+◌, ◌*◌, ◌/◌, ◌%◌, ◌^◌, Bool, true, false, Option, none, some, ◌==◌, ltb, ◌||◌, ◌&&◌,
  if◌then◌else◌,
}

-- The value of a payment as `Decimal(str(value))` reads it: a text that is no number, a number below
-- zero, or the digits with the count of those behind the point.
pub data Value : Type 0 where
  unreadable below_zero : Value
  decimal : ℕ → ℕ → Value

-- `quantize` refuses a result of more digits than the precision of the decimal context, 28.
unfoldable pub quantize_limit : ℕ
quantize_limit = 10 ^ 28

-- ROUND_HALF_UP to whole cents.
unfoldable pub half_up_cents : ℕ → ℕ → ℕ
half_up_cents digits scale = (2 * (digits * 100) + 10 ^ scale) / (2 * 10 ^ scale)

unfoldable pub payment_value_cents : Value → Option ℕ
unfolding half_up_cents
payment_value_cents unreadable = none
payment_value_cents below_zero = none
payment_value_cents (decimal digits scale) =
    let cents = half_up_cents digits scale in
    if cents == 0 || not_representable cents then none else some cents
  where
    not_representable : ℕ → Bool
    not_representable cents = if ltb cents quantize_limit then false else true
