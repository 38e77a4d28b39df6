-- ===== src/Billing/Entitlements/Refunded.antt =====
-- app/billing/entitlements.py, with the status of app/billing/service.py: the access of a business
-- whose refund is done, and the features of a plan.
use whatsapp_atendimentos_ag.Prelude.{
  ◌≤◌, ◌<◌, ◌≡◌, refl, sym, ap, subst, ◌∙◌, ◌⊎◌, Bool, true, false, ◌||◌, ◌&&◌, Option, none, some,
  List, [], ◌∷◌, arith,
}
use whatsapp_atendimentos_ag.Billing.Calendar.{Moment}
use whatsapp_atendimentos_ag.Billing.Types.{
  Reference, production, requested, reconcile_required, Checkout, Payment, Gateway, Subscription,
  Access, SubscriptionStatus, same_plan, plus,
}
use whatsapp_atendimentos_ag.Billing.Status.{Focus, subscription_status_response, freed, free_in}
use whatsapp_atendimentos_ag.Billing.Status.Settled.{IsClosed, done_refund-IsClosed}
use whatsapp_atendimentos_ag.Billing.Refunds.Laws.{done_cents}
use whatsapp_atendimentos_ag.Billing.Entitlements.{
  Query, is_admin, admin_full_access_exists, is_entitled, active_subscription_exists,
  legacy_paid_access_exists, active_operational_access_exists, commercial_plus,
  plus_features_access_exists,
}

suspended-unentitled :
    (q : Query) (s : Subscription)
    → s.status ≡ SubscriptionStatus.suspended
    → is_entitled q s ≡ false
unfolding is_entitled
suspended-unentitled q s e = rw (e) grind arith

freed-locked :
    (a : Option Access)
    → is_admin a ≡ false
    → (admin_full_access_exists (some (freed a)) || legacy_paid_access_exists (some (freed a)))
      ≡ false
unfolding admin_full_access_exists legacy_paid_access_exists freed
freed-locked none h = refl
freed-locked (some a) h = rw (h) refl

with_rest : (p e a b : Bool) → (a ≡ true → b ≡ true) → ((p && e) || a) ≡ true → (e || b) ≡ true
with_rest p e a b f h = grind arith

plus-operational :
    (q : Query) (ss : List Subscription)
    → commercial_plus q ss ≡ true
    → active_subscription_exists q ss ≡ true
unfolding commercial_plus active_subscription_exists
plus-operational q [] h = h
plus-operational q (s ∷ ss) h =
    with_rest (same_plan s.plan_code plus) (is_entitled q s) (commercial_plus q ss)
      (active_subscription_exists q ss) (plus-operational q ss) h

none_of : (a b e o : Bool) → (a || b) ≡ false → e ≡ false → o ≡ false → (a || b || (e || o)) ≡ false
none_of a b e o h k l = grind arith

with_legacy : (a p b o : Bool) → (p ≡ true → o ≡ true) → (a || p) ≡ true → (a || b || o) ≡ true
with_legacy a p b o f h = grind arith

locked :
    (q : Query) (now : Moment) (f x : Focus) (others : List Subscription)
    → f.environment ≡ production
    → is_admin f.access ≡ false
    → active_subscription_exists q others ≡ false
    → IsClosed now f x
    → active_operational_access_exists q x.access (x.subscription ∷ others) ≡ false
unfolding active_operational_access_exists active_subscription_exists free_in
locked q now f x others live none_admin alone closed =
    subst (λ a. active_operational_access_exists q a (x.subscription ∷ others) ≡ false)
      (sym (closed.access ∙ ap (λ e. free_in e f.access) live))
      (none_of (admin_full_access_exists after) (legacy_paid_access_exists after)
        (is_entitled q x.subscription) (active_subscription_exists q others)
        (freed-locked f.access none_admin) (suspended-unentitled q x.subscription closed.status)
        alone)
  where
    after : Option Access
    after = some (freed f.access)

-- In production and without full access by an administrator, where no other subscription entitles the
-- business: once the refunds that the provider shows as done come to the amount of the checkout, the
-- next status of a subscription whose refund was asked for leaves the business without operational
-- access, whatever time and environment one asks for.
pub refund_ends_access :
    (q : Query) (others : List Subscription) (g : Gateway) (now : Moment) (f : Focus) (c : Checkout)
    (r : Reference) (p : Payment)
    → f.environment ≡ production
    → is_admin f.access ≡ false
    → active_subscription_exists q others ≡ false
    → (f.subscription.refund_status ≡ requested)
      ⊎ (f.subscription.refund_status ≡ reconcile_required)
    → f.checkout ≡ some c
    → c.provider_payment_id ≡ some r
    → g.payment_details r ≡ some p
    → 0 < c.amount_cents
    → c.amount_cents ≤ done_cents p.refunds
    → active_operational_access_exists q
        (subscription_status_response g now f).1.access
        ((subscription_status_response g now f).1.subscription ∷ others)
      ≡ false
refund_ends_access q others g now f c r p live none_admin alone asked paid known answered amount
      enough =
    locked q now f (subscription_status_response g now f).1 others live none_admin alone
      (done_refund-IsClosed g now f c r p asked paid known answered amount enough)

-- The features of the plan Plus come only with operational access.
pub plus_features-operational :
    (q : Query) (access : Option Access) (ss : List Subscription)
    → plus_features_access_exists q access ss ≡ true
    → active_operational_access_exists q access ss ≡ true
unfolding plus_features_access_exists active_operational_access_exists
plus_features-operational q access ss h =
    with_legacy (admin_full_access_exists access) (commercial_plus q ss)
      (legacy_paid_access_exists access) (active_subscription_exists q ss) (plus-operational q ss) h
