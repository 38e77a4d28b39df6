-- ===== src/Billing/Types.antt =====
-- app/models/billing.py and the payloads of the provider Asaas: checkouts, subscriptions, payments.
use whatsapp_atendimentos_ag.Prelude.{
  ℕ, Bool, true, false, Option, none, some, List, ◌==◌, ◌*◌, ◌-◌, ◌/◌,
}
use Prim.Native.String.{String}
use whatsapp_atendimentos_ag.Booking.Types.{Uuid}
use whatsapp_atendimentos_ag.Billing.Money.{Value}
use whatsapp_atendimentos_ag.Billing.Calendar.{
  Moment, Cycle, cycle_months, monthly, quarterly, annual,
}

-- An id that the provider gives out, a text that is not empty.
abbrev pub Reference : Type 0
Reference = ℕ

-- A field of a payload that should hold a reference: missing (None), not a text, an empty one or one
-- longer than the column (`malformed`), or a reference.
pub data Field : Type 0 where
  missing malformed : Field
  reference : Reference → Field

abbrev pub reference_of : Field → Option Reference
reference_of (reference r) = some r
reference_of _ = none

pub data Environment : Type 0 where
  sandbox production : Environment

abbrev pub same_environment : Environment → Environment → Bool
same_environment sandbox sandbox = true
same_environment production production = true
same_environment _ _ = false

pub data Plan : Type 0 where
  basic plus : Plan

abbrev pub same_plan : Plan → Plan → Bool
same_plan basic basic = true
same_plan plus plus = true
same_plan _ _ = false

abbrev pub same_cycle : Cycle → Cycle → Bool
same_cycle monthly monthly = true
same_cycle quarterly quarterly = true
same_cycle annual annual = true
same_cycle _ _ = false

pub data PaymentMethod : Type 0 where
  credit_card pix pix_automatic : PaymentMethod

abbrev pub same_method : PaymentMethod → PaymentMethod → Bool
same_method credit_card credit_card = true
same_method pix pix = true
same_method pix_automatic pix_automatic = true
same_method _ _ = false

pub data CheckoutStatus : Type 0 where
  creating active paid canceled expired failed : CheckoutStatus

pub data SubscriptionStatus : Type 0 where
  active past_due canceled suspended : SubscriptionStatus

pub data RefundStatus : Type 0 where
  no_refund requested reconcile_required refunded : RefundStatus

-- The data of the payer in a checkout.
pub record Payer : Type 0 where
  pub name : Option String
  pub email : Option String
  pub phone : Option String

-- `BillingCheckout`, without the picture of the QR code; `pix_qr_payload` is whether there is a text of
-- one.
pub record Checkout : Type 0 where
  pub id : Uuid
  pub idempotency_key : Uuid
  pub business_id : Uuid
  pub plan_code : Plan
  pub billing_cycle : Cycle
  pub payment_method : PaymentMethod
  pub provider_environment : Environment
  pub amount_cents : ℕ
  pub payer : Payer
  pub status : CheckoutStatus
  pub provider_checkout_id : Option Reference
  pub provider_authorization_id : Option Reference
  pub provider_pix_qr_code_id : Option Reference
  pub provider_subscription_id : Option Reference
  pub provider_customer_id : Option Reference
  pub provider_payment_id : Option Reference
  pub pix_qr_payload : Bool
  pub expires_at : Option Moment
  pub paid_at : Option Moment

-- `CommercialSubscription`
pub record Subscription : Type 0 where
  pub business_id : Uuid
  pub checkout_id : Uuid
  pub plan_code : Plan
  pub billing_cycle : Cycle
  pub payment_method : PaymentMethod
  pub provider_environment : Environment
  pub status : SubscriptionStatus
  pub provider_subscription_id : Option Reference
  pub provider_authorization_id : Option Reference
  pub provider_pix_qr_code_id : Option Reference
  pub provider_customer_id : Option Reference
  pub access_until : Moment
  pub canceled_at : Option Moment
  pub cancellation_requested_at : Option Moment
  pub refund_status : RefundStatus
  pub refund_requested_at : Option Moment
  pub refunded_at : Option Moment

pub data AccessMode : Type 0 where
  free paid : AccessMode

-- `BusinessAccess`, the row of one business.
pub record Access : Type 0 where
  pub access_mode : AccessMode
  pub admin_full_access : Bool
  pub has_had_operational_access : Bool

-- One entry of `payment["refunds"]`; an entry that is no object is one of `other_refund` and an unreadable
-- value, which the code passes over in the same way; `awaiting_refund` is
-- AWAITING_CRITICAL_ACTION_AUTHORIZATION, and `other_refund` a status that the code does not name.
pub data RefundState : Type 0 where
  done_refund pending_refund cancelled_refund awaiting_refund other_refund : RefundState

pub record Refund : Type 0 where
  pub status : RefundState
  pub value : Value

pub data PaymentState : Type 0 where
  confirmed received refunded other_payment : PaymentState

-- A payment as the provider shows it. `refunds` is empty where the field is missing or no list.
pub record Payment : Type 0 where
  pub id : Field
  pub status : PaymentState
  pub value : Value
  pub refunds : List Refund

-- What the provider answers to the calls of one request: none and false are AsaasGatewayError.
pub record Gateway : Type 0 where
  pub payment_details : Reference → Option Payment
  pub payments_for_static_pix : Reference → Option (List Payment)
  pub payments_for_checkout : Reference → Option (List Payment)
  pub payments_for_subscription : Reference → Option (List Payment)
  pub cancel_subscription : Reference → Bool
  pub cancel_pix_authorization : Reference → Bool
  pub delete_static_pix_qr_code : Reference → Bool
  pub refund_payment : Reference → Bool

-- The calls that change something at the provider.
pub data Call : Type 0 where
  cancel_subscription cancel_pix_authorization delete_static_pix_qr_code : Reference → Call
  refund_payment : Reference → Call

-- app/billing/catalog.py: `get_offer(plan, cycle).amount_cents`; `test_amount` is the answer of
-- `_sandbox_test_amount_cents`.
abbrev monthly_cents : Plan → ℕ
monthly_cents basic = 19700
monthly_cents plus = 39700

abbrev discount_bps : Cycle → ℕ
discount_bps monthly = 0
discount_bps quarterly = 1000
discount_bps annual = 1500

unfoldable pub offer_amount_cents : Option ℕ → Plan → Cycle → ℕ
unfolding cycle_months
offer_amount_cents (some amount) p c = amount
offer_amount_cents none p c = monthly_cents p * cycle_months c * (10000 - discount_bps c) / 10000

unfoldable pub or_now : Option Moment → Moment → Option Moment
or_now none now = some now
or_now (some m) now = some m

abbrev pub same_reference : Option Reference → Reference → Bool
same_reference none r = false
same_reference (some q) r = q == r
