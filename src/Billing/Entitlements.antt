-- ===== src/Billing/Entitlements.antt =====
-- app/billing/entitlements.py: what the rows of a business entitle it to. Each `exists` is a query on
-- the access row of the business and on the table of subscriptions, which holds those of all.
pub mod Refunded
use whatsapp_atendimentos_ag.Prelude.{
  Bool, true, false, not, ◌&&◌, ◌||◌, Option, none, some, List, [], ◌∷◌, ◌==◌, get_or,
}
use whatsapp_atendimentos_ag.Booking.Types.{Uuid}
use whatsapp_atendimentos_ag.Billing.Calendar.{Moment, at_most}
use whatsapp_atendimentos_ag.Billing.Types.{
  Environment, same_environment, Plan, plus, same_plan, SubscriptionStatus, Subscription,
  AccessMode, paid, Access,
}

-- The arguments of a query, the environment that is configured, and the time of the database.
pub record Query : Type 0 where
  pub business_id : Uuid
  pub provider_environment : Option Environment
  pub at : Option Moment
  pub configured : Environment
  pub now : Moment

abbrev pub is_admin : Option Access → Bool
is_admin none = false
is_admin (some a) = a.admin_full_access

-- `admin_full_access_exists`
unfoldable pub admin_full_access_exists : Option Access → Bool
admin_full_access_exists access = is_admin access

-- `status.in_(("active", "canceled"))`
abbrev pub is_valid : SubscriptionStatus → Bool
is_valid SubscriptionStatus.active = true
is_valid SubscriptionStatus.canceled = true
is_valid _ = false

-- The conditions of the query of `active_subscription_exists`.
unfoldable pub is_entitled : Query → Subscription → Bool
is_entitled q s =
    (s.business_id == q.business_id)
    && same_environment s.provider_environment (get_or q.provider_environment q.configured)
    && is_valid s.status
    && not (at_most s.access_until (get_or q.at q.now))

unfoldable pub active_subscription_exists : Query → List Subscription → Bool
active_subscription_exists q [] = false
active_subscription_exists q (s ∷ ss) = is_entitled q s || active_subscription_exists q ss

abbrev is_paid : AccessMode → Bool
is_paid paid = true
is_paid _ = false

-- `legacy_paid_access_exists`: a missing row counts as paid.
unfoldable pub legacy_paid_access_exists : Option Access → Bool
legacy_paid_access_exists none = true
legacy_paid_access_exists (some a) = is_paid a.access_mode

unfoldable pub active_operational_access_exists : Query → Option Access → List Subscription → Bool
active_operational_access_exists q access subscriptions =
    admin_full_access_exists access
    || legacy_paid_access_exists access
    || active_subscription_exists q subscriptions

-- The query of `plus_features_access_exists`.
unfoldable pub commercial_plus : Query → List Subscription → Bool
commercial_plus q [] = false
commercial_plus q (s ∷ ss) = (same_plan s.plan_code plus && is_entitled q s) || commercial_plus q ss

unfoldable pub plus_features_access_exists : Query → Option Access → List Subscription → Bool
plus_features_access_exists q access subscriptions =
    admin_full_access_exists access || commercial_plus q subscriptions
