-- ===== src/Billing/Prepare.antt =====
-- app/billing/service.py: a new checkout and its preparation at the provider, and the settings of
-- app/billing/catalog.py.
use whatsapp_atendimentos_ag.Prelude.{ℕ, Bool, false, ◌&&◌, Option, none, some, ◌∷◌, if◌then◌else◌}
use Prim.Native.String.{String}
use whatsapp_atendimentos_ag.Booking.Types.{Uuid}
use whatsapp_atendimentos_ag.Billing.Calendar.{Moment, Cycle}
use whatsapp_atendimentos_ag.Billing.Types.{
  Reference, Plan, PaymentMethod, credit_card, pix, pix_automatic, creating, active, failed,
  Checkout,
}
use whatsapp_atendimentos_ag.Billing.Desk.{
  Desk, Outcome, answered, refused, is_credit_card, with_status,
}

-- `_sandbox_test_amount_cents`: BillingCatalogConfigurationError, no test amount, or one.
pub data TestAmount : Type 0 where
  misconfigured no_test_amount : TestAmount
  test_amount : ℕ → TestAmount

-- The variables BILLING_PLUS_ENABLED, BILLING_PIX_AUTOMATIC_ENABLED and
-- BILLING_NATIVE_CARD_CHECKOUT_ENABLED as they are read, and the test amount.
pub record Settings : Type 0 where
  pub plus_enabled : Bool
  pub pix_automatic_enabled : Bool
  pub native_card_enabled : Bool
  pub amount : TestAmount

pub record Request : Type 0 where
  pub origin_allowed : Bool
  pub plan : Plan
  pub cycle : Cycle
  pub payment_method : PaymentMethod
  pub idempotency_key : Uuid
  pub payer_name : Option String
  pub payer_email : String
  pub payer_phone : Option String

-- What a call of the provider ends with: its result, AsaasGatewayTimeoutError, or another
-- AsaasGatewayError.
pub data Answer {ℓ} (A : Type ℓ) : Type ℓ where
  answer : A → Answer A
  timed_out gateway_error : Answer A

infixl 5 ◌>>=◌
abbrev pub ◌>>=◌ {ℓ κ} : {A : Type ℓ} {B : Type κ} → Answer A → (A → Answer B) → Answer B
answer a >>= f = f a
timed_out >>= f = timed_out
gateway_error >>= f = gateway_error

pub record Authorization : Type 0 where
  pub authorization_id : Reference
  pub subscription_id : Option Reference
  pub payload : Bool
  pub expires_at : Option Moment

-- The calls that prepare a checkout.
pub record Provider : Type 0 where
  pub create_checkout : Checkout → Answer Reference
  pub active_pix_address_key : Answer Reference
  pub create_static_pix_qr_code : Reference → Checkout → Answer (Reference × Bool × Moment)
  pub find_customer : Uuid → Answer (Option Reference)
  pub create_customer : Uuid → Answer Reference
  pub create_pix_authorization : Reference → Checkout → Answer Authorization

-- `_prepare_credit_card`
unfoldable pub prepare_credit_card : Provider → Checkout → Answer Checkout
prepare_credit_card p c = do
  created ← p.create_checkout c
  answer (record c { provider_checkout_id = some created })

-- `_prepare_common_pix`
unfoldable pub prepare_common_pix : Provider → Checkout → Answer Checkout
prepare_common_pix p c = do
  address_key ← p.active_pix_address_key
  qr ← p.create_static_pix_qr_code address_key c
  answer (
      let (qr_code_id, payload, expires_at) = qr in
      record c {
        provider_pix_qr_code_id = some qr_code_id;
        provider_subscription_id = none;
        provider_customer_id = none;
        pix_qr_payload = payload;
        expires_at = some expires_at;
      })

unfoldable pub customer_of : Provider → Uuid → Option Reference → Answer Reference
customer_of p business (some customer) = answer customer
customer_of p business none = p.create_customer business

abbrev or_else : Option Moment → Option Moment → Option Moment
or_else none m = m
or_else (some e) m = some e

-- `_prepare_pix_automatic`
unfoldable pub prepare_pix_automatic : Provider → Checkout → Answer Checkout
unfolding customer_of
prepare_pix_automatic p c = do
  found ← p.find_customer c.business_id
  customer ← customer_of p c.business_id found
  a ← p.create_pix_authorization customer c
  answer (record c {
    provider_customer_id = some customer;
    provider_authorization_id = some a.authorization_id;
    provider_subscription_id = a.subscription_id;
    pix_qr_payload = a.payload;
    expires_at = or_else a.expires_at c.expires_at;
  })

unfoldable pub prepare : Provider → PaymentMethod → Checkout → Answer Checkout
unfolding prepare_credit_card prepare_common_pix prepare_pix_automatic
prepare p pix_automatic c = prepare_pix_automatic p c
prepare p pix c = prepare_common_pix p c
prepare p credit_card c = prepare_credit_card p c

abbrev pub add_row : Checkout → Desk → Desk
add_row c d = record d { checkouts = c ∷ d.checkouts }

-- Lines 372 to 393: a timed out authorization stays `creating` and blocks.
unfoldable pub after_prepare : PaymentMethod → Checkout → Answer Checkout → Desk → Outcome × Desk
after_prepare m c (answer made) d =
    (answered (with_status active made), add_row (with_status active made) d)
after_prepare pix_automatic c timed_out d = (refused 502, add_row (with_status creating c) d)
after_prepare m c timed_out d = (refused 502, add_row (with_status failed c) d)
after_prepare m c gateway_error d = (refused 502, add_row (with_status failed c) d)

-- The row of lines 324 to 338; `deadline` is fifteen minutes from now.
unfoldable pub new_checkout : Uuid → Moment → ℕ → Request → Desk → Checkout
new_checkout id deadline amount r d = record {
  id = id;
  idempotency_key = r.idempotency_key;
  business_id = d.business_id;
  plan_code = r.plan;
  billing_cycle = r.cycle;
  payment_method = r.payment_method;
  provider_environment = d.environment;
  amount_cents = amount;
  payer = record { name = r.payer_name; email = some r.payer_email; phone = r.payer_phone };
  status = creating;
  provider_checkout_id = none;
  provider_authorization_id = none;
  provider_pix_qr_code_id = none;
  provider_subscription_id = none;
  provider_customer_id = none;
  provider_payment_id = none;
  pix_qr_payload = false;
  expires_at = some deadline;
  paid_at = none;
}

unfoldable pub add_checkout : Settings → Provider → Checkout → Desk → Outcome × Desk
unfolding prepare after_prepare
add_checkout s p c d =
    if is_credit_card c.payment_method && s.native_card_enabled
    then (answered (with_status active c), add_row (with_status active c) d)
    else after_prepare c.payment_method c (prepare p c.payment_method c) d
