-- ===== src/Billing/Desk.antt =====
-- app/billing/service.py: the checkouts of one business, which of them blocks another, and how one is
-- read and cancelled.
pub mod Rows
pub mod Kept
use whatsapp_atendimentos_ag.Prelude.{
  ℕ, Bool, true, false, not, ◌&&◌, ◌||◌, Option, none, some, is_none, List, [], ◌∷◌, ◌==◌,
  if◌then◌else◌,
}
use whatsapp_atendimentos_ag.Booking.Types.{Uuid}
use whatsapp_atendimentos_ag.Billing.Calendar.{Moment, at_most}
use whatsapp_atendimentos_ag.Billing.Types.{
  Reference, Environment, same_environment, PaymentMethod, credit_card, pix, pix_automatic,
  CheckoutStatus, creating, active, paid, canceled, expired, failed, Checkout, Subscription, Access,
  Gateway, Call, cancel_subscription, cancel_pix_authorization, delete_static_pix_qr_code,
}

-- The rows of one business, the last one made first, whether its WhatsApp is connected, and the calls
-- made to the provider.
pub record Desk : Type 0 where
  pub business_id : Uuid
  pub environment : Environment
  pub checkouts : List Checkout
  pub subscriptions : List Subscription
  pub access : Option Access
  pub whatsapp_connected : Bool
  pub calls : List Call

abbrev pub is_status : CheckoutStatus → CheckoutStatus → Bool
is_status creating creating = true
is_status active active = true
is_status paid paid = true
is_status canceled canceled = true
is_status expired expired = true
is_status failed failed = true
is_status _ _ = false

abbrev pub is_open : CheckoutStatus → Bool
is_open s = is_status s creating || is_status s active

-- The condition of `_blocking_checkout_for_business` on a row.
unfoldable pub blocks_as : PaymentMethod → CheckoutStatus → Checkout → Bool
blocks_as m creating c = true
blocks_as m active c = true
blocks_as pix_automatic paid c = false
blocks_as pix_automatic expired c =
    not (is_none c.paid_at) || not (is_none c.provider_authorization_id)
blocks_as pix_automatic s c = not (is_none c.paid_at)
blocks_as pix expired c = not (is_none c.provider_subscription_id)
blocks_as m s c = false

unfoldable pub blocks : Environment → Checkout → Bool
unfolding blocks_as
blocks e c = same_environment c.provider_environment e && blocks_as c.payment_method c.status c

-- The row that a query finds, in the order of the list, and a change of this row.
unfoldable pub first {ℓ} : {A : Type ℓ} → (A → Bool) → List A → Option A
first p [] = none
first p (c ∷ cs) = let rest = first p cs in if p c then some c else rest

unfoldable pub change_first {ℓ} : {A : Type ℓ} → (A → Bool) → (A → A) → List A → List A
change_first p f [] = []
change_first p f (c ∷ cs) = let rest = change_first p f cs in if p c then f c ∷ cs else c ∷ rest

-- `_blocking_checkout_for_business`
unfoldable pub blocking_checkout : Environment → List Checkout → Option Checkout
unfolding first blocks
blocking_checkout e cs = first (blocks e) cs

abbrev pub has_id : Uuid → Checkout → Bool
has_id i c = c.id == i

abbrev pub with_status : CheckoutStatus → Checkout → Checkout
with_status s c = record c { status = s }

-- The checkout that is answered, or the status of an HTTPException.
pub data Outcome : Type 0 where
  answered : Checkout → Outcome
  refused : ℕ → Outcome

abbrev pub is_past : Option Moment → Moment → Bool
is_past none now = false
is_past (some e) now = at_most e now

abbrev pub expires_locally : PaymentMethod → Option Reference → Bool
expires_locally credit_card qr = true
expires_locally pix qr = not (is_none qr)
expires_locally pix_automatic qr = false

abbrev pub belongs : Desk → Checkout → Bool
belongs d c =
    (c.business_id == d.business_id) && same_environment c.provider_environment d.environment

unfoldable pub status_of : Moment → Uuid → Desk → Checkout → Outcome × Desk
unfolding change_first
status_of now i d c =
    if is_status c.status active
      && is_past c.expires_at now
      && is_none c.paid_at
      && expires_locally c.payment_method c.provider_pix_qr_code_id
    then (
      answered (with_status expired c),
      record d { checkouts = change_first (has_id i) (with_status expired) d.checkouts },
    )
    else (answered c, d)

unfoldable pub status_found : Moment → Uuid → Desk → Option Checkout → Outcome × Desk
unfolding status_of
status_found now i d none = (refused 404, d)
status_found now i d (some c) = if not (belongs d c) then (refused 404, d) else status_of now i d c

-- `checkout_status`
unfoldable pub checkout_status : Moment → Uuid → Desk → Outcome × Desk
unfolding status_found first
checkout_status now i d = status_found now i d (first (has_id i) d.checkouts)

-- The call of `cancel_checkout`, and whether it succeeds.
unfoldable pub cancel_call :
    Gateway
    → PaymentMethod
    → Option Reference
    → Option Reference
    → Option Reference
    → Bool × Option Call
cancel_call g pix_automatic (some a) qr s =
    (g.cancel_pix_authorization a, some (cancel_pix_authorization a))
cancel_call g pix a (some q) s = (g.delete_static_pix_qr_code q, some (delete_static_pix_qr_code q))
cancel_call g pix a none (some s) = (g.cancel_subscription s, some (cancel_subscription s))
cancel_call g m a qr s = (true, none)

abbrev pub log : Option Call → Desk → Desk
log none d = d
log (some c) d = record d { calls = c ∷ d.calls }

unfoldable pub after_cancel_call : Uuid → Bool × Option Call → Checkout → Desk → Outcome × Desk
unfolding change_first
after_cancel_call i (false, call) c d = (refused 502, log call d)
after_cancel_call i (true, call) c d = (
  answered (with_status canceled c),
  record (log call d) { checkouts = change_first (has_id i) (with_status canceled) d.checkouts },
)

abbrev pub is_credit_card : PaymentMethod → Bool
is_credit_card credit_card = true
is_credit_card _ = false

abbrev pub is_common_pix : PaymentMethod → Bool
is_common_pix pix = true
is_common_pix _ = false

unfoldable pub cancel_pix_checkout : Gateway → Uuid → Desk → Checkout → Outcome × Desk
unfolding cancel_call after_cancel_call
cancel_pix_checkout g i d c =
    if is_credit_card c.payment_method
    then (refused 409, d)
    else if is_status c.status paid || not (is_none c.paid_at)
    then (refused 409, d)
    else if is_status c.status canceled || is_status c.status failed
    then (answered c, d)
    else after_cancel_call i
        (cancel_call g c.payment_method c.provider_authorization_id c.provider_pix_qr_code_id
          c.provider_subscription_id)
        c d

unfoldable pub cancel_found : Gateway → Uuid → Desk → Option Checkout → Outcome × Desk
unfolding cancel_pix_checkout
cancel_found g i d none = (refused 404, d)
cancel_found g i d (some c) =
    if not (belongs d c) then (refused 404, d) else cancel_pix_checkout g i d c

-- `cancel_checkout`
unfoldable pub cancel_checkout : Gateway → Uuid → Desk → Outcome × Desk
unfolding cancel_found first
cancel_checkout g i d = cancel_found g i d (first (has_id i) d.checkouts)
