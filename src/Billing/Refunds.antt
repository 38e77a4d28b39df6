-- ===== src/Billing/Refunds.antt =====
-- app/billing/service.py: how a refund stands at the provider (`_provider_refund_status`), and which
-- payment a refund is of (`_resolve_initial_payment_reference`).
pub mod Laws
use whatsapp_atendimentos_ag.Prelude.{
  ℕ, ◌+◌, Bool, true, false, not, ◌&&◌, ◌||◌, Option, none, some, List, [], ◌∷◌, ◌==◌, ltb, leb,
  if◌then◌else◌, keep_if,
}
use whatsapp_atendimentos_ag.Billing.Money.{payment_value_cents}
use whatsapp_atendimentos_ag.Billing.Types.{
  Reference, reference_of, PaymentMethod, pix, Checkout, RefundState, done_refund, pending_refund,
  cancelled_refund, awaiting_refund, other_refund, Refund, PaymentState, other_payment, Payment,
  Gateway,
}

-- `ProviderRefundStatus`
pub data ProviderRefundStatus : Type 0 where
  done awaiting_authorization pending partial cancelled unknown : ProviderRefundStatus

-- `totals` and `observed`, in cents.
pub record Totals : Type 0 where
  pub done : ℕ
  pub pending : ℕ
  pub cancelled : ℕ
  pub awaiting : ℕ
  pub observed : Bool

abbrev pub no_totals : Totals
no_totals = record { done = 0; pending = 0; cancelled = 0; awaiting = 0; observed = false }

unfoldable pub add_refund : RefundState → Option ℕ → Totals → Totals
add_refund s none t = t
add_refund done_refund (some c) t = record t { done = t.done + c; observed = true }
add_refund pending_refund (some c) t = record t { pending = t.pending + c; observed = true }
add_refund cancelled_refund (some c) t = record t { cancelled = t.cancelled + c; observed = true }
add_refund awaiting_refund (some c) t = record t { awaiting = t.awaiting + c; observed = true }
add_refund other_refund (some c) t = t

-- The loop over the refunds.
unfoldable pub add_refunds : List Refund → Totals → Totals
unfolding add_refund
add_refunds [] t = t
add_refunds (r ∷ rs) t = add_refunds rs (add_refund r.status (payment_value_cents r.value) t)

unfoldable pub classify : ℕ → Totals → ProviderRefundStatus
classify amount_cents t =
    if not t.observed
    then unknown
    else if leb amount_cents t.done
    then done
    else if leb amount_cents t.awaiting
    then awaiting_authorization
    else if leb amount_cents (t.done + t.pending) && ltb 0 t.pending
    then pending
    else if ltb 0 t.done || ltb 0 t.pending
    then partial
    else if ltb 0 t.cancelled
    then cancelled
    else unknown

-- `_provider_refund_status`
unfoldable pub provider_refund_status : List Refund → ℕ → Option ProviderRefundStatus
unfolding add_refunds classify
provider_refund_status [] amount_cents = none
provider_refund_status (r ∷ rs) amount_cents =
    some (classify amount_cents (add_refunds (r ∷ rs) no_totals))

abbrev pub is_settled : PaymentState → Bool
is_settled other_payment = false
is_settled _ = true

abbrev pub pays : ℕ → Option ℕ → Bool
pays amount_cents none = false
pays amount_cents (some c) = c == amount_cents

-- The id of a payment that may be the initial one, in the loop over the payments.
unfoldable pub candidate : ℕ → Payment → Option Reference
candidate amount_cents p =
    if is_settled p.status && pays amount_cents (payment_value_cents p.value)
    then reference_of p.id
    else none

abbrev pub consed : Option Reference → List Reference → List Reference
consed none rs = rs
consed (some r) rs = r ∷ rs

unfoldable pub matches : ℕ → List Payment → List Reference
unfolding candidate
matches amount_cents [] = []
matches amount_cents (p ∷ ps) = consed (candidate amount_cents p) (matches amount_cents ps)

-- `list(dict.fromkeys(matches))`
unfoldable pub unique_matches : List Reference → List Reference
unique_matches [] = []
unique_matches (r ∷ rs) = r ∷ keep_if (λ q. not (q == r)) (unique_matches rs)

unfoldable pub sole : List Reference → Option Reference
sole (r ∷ []) = some r
sole _ = none

unfoldable pub resolve_from : ℕ → Option (List Payment) → Option Reference
unfolding matches unique_matches sole
resolve_from amount_cents none = none
resolve_from amount_cents (some ps) = sole (unique_matches (matches amount_cents ps))

-- The calls of lines 1389 to 1402, from the first reference that the checkout has.
unfoldable pub payments_for :
    Gateway
    → PaymentMethod
    → Option Reference
    → Option Reference
    → Option Reference
    → Option (List Payment)
payments_for g pix (some qr) checkout subscription = g.payments_for_static_pix qr
payments_for g method qr (some c) subscription = g.payments_for_checkout c
payments_for g method qr none (some s) = g.payments_for_subscription s
payments_for g method qr none none = none

-- `_resolve_initial_payment_reference`
unfoldable pub resolve_initial_payment_reference : Gateway → Checkout → Option Reference
unfolding payments_for resolve_from
resolve_initial_payment_reference g c = resolve_from c.amount_cents (
    payments_for g c.payment_method c.provider_pix_qr_code_id c.provider_checkout_id
      c.provider_subscription_id)
