-- ===== src/Billing/Create.antt =====
-- app/billing/service.py: `create_checkout`. The lock on the business makes each call one step.
pub mod Filled
pub mod Kept
pub mod Runs
use whatsapp_atendimentos_ag.Prelude.{
  ℕ, Bool, true, false, not, ◌&&◌, ◌||◌, Option, none, some, is_none, List, [], ◌∷◌, ◌==◌,
  if◌then◌else◌,
}
use Prim.Native.String.{String}
use text.Mathlib.Text.{◌==◌ as str_eq}
use whatsapp_atendimentos_ag.Booking.Types.{Uuid}
use whatsapp_atendimentos_ag.Billing.Calendar.{Moment, at_most}
use whatsapp_atendimentos_ag.Billing.Types.{
  Environment, same_environment, Plan, basic, plus, same_plan, same_cycle, PaymentMethod, pix,
  pix_automatic, same_method, active, paid, expired, Checkout, Subscription, SubscriptionStatus,
  Access, Gateway, offer_amount_cents,
}
use whatsapp_atendimentos_ag.Billing.Desk.{
  Desk, Outcome, answered, refused, is_status, is_past, is_credit_card, is_common_pix, with_status,
  blocking_checkout, change_first, first,
}
use whatsapp_atendimentos_ag.Billing.Prepare.{
  Settings, misconfigured, no_test_amount, test_amount, TestAmount, Request, Provider, new_checkout,
  add_checkout,
}
use whatsapp_atendimentos_ag.Billing.Blocker.{Verdict, goes_on, stops, blocker}

-- `plan_is_enabled` and `payment_method_is_enabled`
unfoldable pub plan_is_enabled : Settings → Plan → Bool
plan_is_enabled s basic = true
plan_is_enabled s plus = s.plus_enabled

unfoldable pub payment_method_is_enabled : Settings → PaymentMethod → Bool
payment_method_is_enabled s pix_automatic = s.pix_automatic_enabled
payment_method_is_enabled s _ = true

abbrev grants : SubscriptionStatus → Bool
grants SubscriptionStatus.active = true
grants SubscriptionStatus.canceled = true
grants _ = false

-- `_active_subscription_for_business`
unfoldable pub active_subscription : Environment → Moment → List Subscription → Option Subscription
unfolding at_most
active_subscription e now [] = none
active_subscription e now (s ∷ ss) =
    let rest = active_subscription e now ss in
    if same_environment s.provider_environment e
      && grants s.status
      && not (at_most s.access_until now)
    then some s
    else rest

-- `_require_whatsapp_before_first_activation`: whether checkout goes on.
unfoldable pub may_activate : Option Access → Bool → Bool
may_activate none connected = true
may_activate (some a) connected = a.admin_full_access || a.has_had_operational_access || connected

abbrev pub has_key : Environment → Uuid → Checkout → Bool
has_key e k c = same_environment c.provider_environment e && (c.idempotency_key == k)

-- `payload.payer_name` and `payload.payer_phone` where they are truthy.
abbrev truthy : Option String → Option String
truthy none = none
truthy (some t) = if str_eq t "" then none else some t

abbrev pub or_given : Option String → Option String → Option String
or_given none given = given
or_given (some t) given = some t

-- Lines 185 to 190: what is missing of the payer is filled in.
unfoldable pub fill_payer : Request → Checkout → Checkout
fill_payer r c = record c {
  payer = record {
    name = or_given c.payer.name (truthy r.payer_name);
    email = or_given c.payer.email (some r.payer_email);
    phone = or_given c.payer.phone (truthy r.payer_phone);
  };
}

-- The existing row, with the payer filled in, as `commit` leaves it.
abbrev pub fill_existing : Request → (Checkout → Checkout) → Desk → Desk
fill_existing r f d = record d {
  checkouts =
      change_first (has_key d.environment r.idempotency_key) (λ c. f (fill_payer r c)) d.checkouts;
}

-- Lines 184 to 211; `refused` with the rows as they were is a rollback.
unfoldable pub repeat_checkout : Moment → Request → Checkout → Desk → Outcome × Desk
unfolding change_first fill_payer
repeat_checkout now r c d =
    if not (
      same_plan c.plan_code r.plan
      && same_cycle c.billing_cycle r.cycle
      && same_method c.payment_method r.payment_method)
    then (refused 409, d)
    else if not (is_credit_card c.payment_method) && not (is_none c.paid_at)
    then (answered (fill_payer r c), fill_existing r (λ x. x) d)
    else if is_common_pix c.payment_method
        && is_status c.status active
        && is_past c.expires_at now
        && is_none c.paid_at
    then (refused 409, fill_existing r (with_status expired) d)
    else if is_status c.status active || is_status c.status paid
    then (answered (fill_payer r c), fill_existing r (λ x. x) d)
    else (refused 409, d)

unfoldable pub add_unless : Settings → Provider → Checkout → Verdict → Outcome × Desk
unfolding add_checkout
add_unless s p c (goes_on d) = add_checkout s p c d
add_unless s p c (stops o) = o

-- Lines 213 to 393
unfoldable pub create_new :
    Settings → Provider → Gateway → Uuid → Moment → Moment → ℕ → Request → Desk → Outcome × Desk
unfolding active_subscription may_activate blocker add_unless new_checkout blocking_checkout
create_new s p g id now deadline amount r d =
    if not (is_none (active_subscription d.environment now d.subscriptions))
    then (refused 409, d)
    else if not (may_activate d.access d.whatsapp_connected)
    then (refused 409, d)
    else add_unless s p (new_checkout id deadline amount r d)
        (blocker now g r (blocking_checkout d.environment d.checkouts) d)

unfoldable pub create_unless :
    Settings
    → Provider
    → Gateway
    → Uuid
    → Moment
    → Moment
    → ℕ
    → Request
    → Option Checkout
    → Desk
    → Outcome × Desk
unfolding repeat_checkout create_new
create_unless s p g id now deadline amount r none d = create_new s p g id now deadline amount r d
create_unless s p g id now deadline amount r (some c) d = repeat_checkout now r c d

unfoldable pub create_at :
    Settings
    → Provider
    → Gateway
    → Uuid
    → Moment
    → Moment
    → TestAmount
    → Request
    → Desk
    → Outcome × Desk
unfolding create_unless first offer_amount_cents
create_at s p g id now deadline misconfigured r d = (refused 503, d)
create_at s p g id now deadline no_test_amount r d =
    create_unless s p g id now deadline (offer_amount_cents none r.plan r.cycle) r
      (first (has_key d.environment r.idempotency_key) d.checkouts) d
create_at s p g id now deadline (test_amount n) r d =
    create_unless s p g id now deadline (offer_amount_cents (some n) r.plan r.cycle) r
      (first (has_key d.environment r.idempotency_key) d.checkouts) d

-- `create_checkout`, with the id that is generated and the end of its fifteen minutes
unfoldable pub create_checkout :
    Settings → Provider → Gateway → Uuid → Moment → Moment → Request → Desk → Outcome × Desk
unfolding plan_is_enabled payment_method_is_enabled create_at
create_checkout s p g id now deadline r d =
    if not r.origin_allowed
    then (refused 400, d)
    else if not (plan_is_enabled s r.plan)
    then (refused 409, d)
    else if not (payment_method_is_enabled s r.payment_method)
    then (refused 409, d)
    else create_at s p g id now deadline s.amount r d
