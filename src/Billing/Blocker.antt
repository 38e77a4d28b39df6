-- ===== src/Billing/Blocker.antt =====
-- app/billing/service.py: what a blocking checkout means for a new one (`create_checkout`, lines 219 to
-- 322).
pub mod Kept
use whatsapp_atendimentos_ag.Prelude.{
  Bool, true, false, not, ◌&&◌, ◌||◌, Option, none, some, is_none, ◌∷◌, if◌then◌else◌,
}
use whatsapp_atendimentos_ag.Billing.Calendar.{Moment}
use whatsapp_atendimentos_ag.Billing.Types.{
  Reference, same_plan, same_cycle, PaymentMethod, credit_card, pix, pix_automatic, same_method,
  creating, active, canceled, expired, Checkout, Gateway, cancel_subscription,
}
use whatsapp_atendimentos_ag.Billing.Desk.{
  Desk, Outcome, answered, refused, is_status, is_past, is_credit_card, with_status, change_first,
  blocks,
}
use whatsapp_atendimentos_ag.Billing.Prepare.{Request}

-- What a blocking checkout leaves to do: a new one, its own answer, or an error.
pub data Verdict : Type 0 where
  goes_on : Desk → Verdict
  stops : Outcome × Desk → Verdict

abbrev pub same_offer : Request → Checkout → Bool
same_offer r c = same_plan c.plan_code r.plan && same_cycle c.billing_cycle r.cycle

-- `_reusable_pix_checkout`
unfoldable pub reusable_pix_checkout : Moment → Checkout → Bool
reusable_pix_checkout now c =
    (is_status c.status creating || is_status c.status active)
    && is_none c.paid_at
    && not (is_none c.provider_authorization_id)
    && c.pix_qr_payload
    && not (is_none c.expires_at)
    && not (is_past c.expires_at now)

abbrev pub is_pix_automatic : PaymentMethod → Bool
is_pix_automatic pix_automatic = true
is_pix_automatic _ = false

-- Lines 220 to 252, for an unpaid Pix checkout, and the refusal of line 294 where it is neither.
unfoldable pub retire_pix :
    Moment → Gateway → Option Reference → Option Reference → Option Moment → Desk → Verdict
unfolding change_first blocks
retire_pix now g (some qr) s expires_at d =
    if is_past expires_at now
    then goes_on (record d {
      checkouts = change_first (blocks d.environment) (with_status expired) d.checkouts;
    })
    else stops (refused 409, d)
retire_pix now g none (some s) expires_at d =
    if g.cancel_subscription s
    then goes_on (record d {
      checkouts = change_first (blocks d.environment) (with_status canceled) d.checkouts;
      calls = cancel_subscription s ∷ d.calls;
    })
    else stops (refused 502, record d { calls = cancel_subscription s ∷ d.calls })
retire_pix now g none none expires_at d = stops (refused 409, d)

-- Lines 254 to 267
unfoldable pub paid_blocker : Request → Checkout → Desk → Verdict
paid_blocker r c d =
    if not (is_credit_card r.payment_method)
      && same_method c.payment_method r.payment_method
      && same_offer r c
    then stops (answered c, d)
    else stops (refused 409, d)

-- Lines 268 to 293
unfoldable pub card_blocker : Moment → Request → Checkout → Desk → Verdict
unfolding change_first blocks
card_blocker now r c d =
    if is_none c.provider_subscription_id && is_past c.expires_at now
    then goes_on (record d {
      checkouts = change_first (blocks d.environment) (with_status expired) d.checkouts;
    })
    else if is_credit_card r.payment_method && same_offer r c && is_status c.status active
    then stops (answered c, d)
    else stops (refused 409, d)

-- Lines 300 to 319
unfoldable pub automatic_blocker : Moment → Request → Checkout → Desk → Verdict
unfolding reusable_pix_checkout
automatic_blocker now r c d =
    if is_pix_automatic r.payment_method && reusable_pix_checkout now c && same_offer r c
    then stops (answered c, d)
    else stops (refused 409, d)

unfoldable pub unpaid_blocker :
    Moment → Gateway → Request → PaymentMethod → Checkout → Desk → Verdict
unfolding retire_pix card_blocker automatic_blocker
unpaid_blocker now g r pix c d =
    retire_pix now g c.provider_pix_qr_code_id c.provider_subscription_id c.expires_at d
unpaid_blocker now g r credit_card c d = card_blocker now r c d
unpaid_blocker now g r pix_automatic c d = automatic_blocker now r c d

unfoldable pub blocker : Moment → Gateway → Request → Option Checkout → Desk → Verdict
unfolding paid_blocker unpaid_blocker
blocker now g r none d = goes_on d
blocker now g r (some c) d =
    if not (is_none c.paid_at)
    then paid_blocker r c d
    else unpaid_blocker now g r c.payment_method c d
