-- ===== src/Billing/Money/Laws.antt =====
-- The reading of a payment's value.
use whatsapp_atendimentos_ag.Prelude.{
  ℕ, suc, zero, ◌+◌, ◌*◌, ◌/◌, ◌^◌, ◌≤◌, ◌<◌, ◌≡◌, ◌↔◌, some, arith,
}
use native.Mathlib.Nat.{le-div_iff_mul-le, div-lt_iff_lt-mul}
use whatsapp_atendimentos_ag.Billing.Money.{
  decimal, quantize_limit, half_up_cents, payment_value_cents,
}

ten_to_positive : (s : ℕ) → 0 < 10 ^ s
ten_to_positive zero = omega arith
ten_to_positive (suc s) = let h = ten_to_positive s in omega (arith, h)

-- `c` cents are at most half a cent more than the value, and less than half a cent below it.
pub record IsNearest (digits scale c : ℕ) : Type 0 where
  pub up : 2 * c * 10 ^ scale ≤ 200 * digits + 10 ^ scale
  pub down : 200 * digits < 2 * c * 10 ^ scale + 10 ^ scale

rounds :
    (digits n c : ℕ)
    → 0 < n
    → ((2 * (digits * 100) + n) / (2 * n) ≡ c)
      ↔ ((2 * c * n ≤ 200 * digits + n) × (200 * digits < 2 * c * n + n))
rounds digits n c h =
    let k : 0 < 2 * n = omega (arith, h) in
    let low = le-div_iff_mul-le {k = 2 * n} {x = c} {y = 2 * (digits * 100) + n} k in
    let high = div-lt_iff_lt-mul {k = 2 * n} {x = 2 * (digits * 100) + n} {y = suc c} k in
    (
      λ e.
          (let a = low.0 (omega (arith, e)) in
            let b = high.0 (omega (arith, e)) in (grind arith, grind arith)),
      λ (a, b).
          (let x = low.1 (grind arith) in let y = high.1 (grind arith) in omega (arith, x, y)),
    )

-- A payment's value above zero with any count of decimals is read as `c` cents exactly when `c` is
-- above zero, below the limit of the decimal context, and the nearest to the value, the upper one of two.
pub payment_value_cents_iff :
    (digits scale c : ℕ)
    → (payment_value_cents (decimal digits scale) ≡ some c)
      ↔ ((0 < c) × (c < quantize_limit) × IsNearest digits scale c)
unfolding payment_value_cents half_up_cents
payment_value_cents_iff digits scale c =
    let (out, back) = rounds digits (10 ^ scale) c (ten_to_positive scale) in
    (
      λ e.
          (let (same, above, below) = read e in
            let (a, b) = out same in (above, below, record { up = a; down = b })),
      λ (above, below, n). (let same = back (n.up, n.down) in ground (arith, same, above, below)),
    )
  where
    read :
        payment_value_cents (decimal digits scale) ≡ some c
        → (half_up_cents digits scale ≡ c) × (0 < c) × (c < quantize_limit)
    read e = (ground arith, ground arith, ground arith)
