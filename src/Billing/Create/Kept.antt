-- ===== src/Billing/Create/Kept.antt =====
-- What `create_checkout` keeps.
use whatsapp_atendimentos_ag.Prelude.{
  ℕ, ◌≡◌, refl, sym, subst, inr, Bool, true, false, not, ◌&&◌, ◌||◌, Option, none, some, is_none,
  List, ◌∷◌, if_cases, arith,
}
use whatsapp_atendimentos_ag.Booking.Types.{Uuid}
use whatsapp_atendimentos_ag.Billing.Calendar.{Moment}
use whatsapp_atendimentos_ag.Billing.Types.{
  Reference, Environment, same_plan, same_cycle, PaymentMethod, credit_card, pix, pix_automatic,
  active, paid, Checkout, same_method, Gateway,
}
use whatsapp_atendimentos_ag.Billing.Desk.{
  Desk, blocks, first, blocking_checkout, is_status, is_past, is_credit_card, is_common_pix,
}
use whatsapp_atendimentos_ag.Billing.Desk.Rows.{open_count}
use whatsapp_atendimentos_ag.Billing.Desk.Kept.{is_sound, IsSound, Kept, KeptDesk, KeptEnd}
use whatsapp_atendimentos_ag.Billing.Prepare.{
  Settings, TestAmount, misconfigured, no_test_amount, test_amount, Request, Answer, answer,
  timed_out, gateway_error, ◌>>=◌, Provider, prepare_credit_card, prepare_common_pix, customer_of,
  prepare_pix_automatic, prepare, after_prepare, new_checkout, add_checkout,
}
use whatsapp_atendimentos_ag.Billing.Blocker.{Verdict, goes_on, stops, blocker}
use whatsapp_atendimentos_ag.Billing.Blocker.Kept.{KeptVerdict, blocker-KeptVerdict}
use whatsapp_atendimentos_ag.Billing.Create.Filled.{
  bit-most, fill_existing-KeptDesk, fill_existing-expired,
}
use whatsapp_atendimentos_ag.Billing.Create.{
  plan_is_enabled, payment_method_is_enabled, active_subscription, may_activate, has_key,
  repeat_checkout, add_unless, create_new, create_unless, create_at, create_checkout,
}

-- Every result of a call of the provider has a property.
abbrev Every {ℓ} : {A : Type ℓ} → (A → Type 0) → Answer A → Type 0
Every P (answer a) = P a
Every P _ = Unit

Every-bind :
    {A B : Type 0} (P : B → Type 0) (m : Answer A) (f : A → Answer B)
    → ((a : A) → Every P (f a))
    → Every P (m >>= f)
Every-bind P (answer a) f h = h a
Every-bind P timed_out f h = tt
Every-bind P gateway_error f h = tt

prepare-IsSound :
    (p : Provider) (m : PaymentMethod) (c : Checkout)
    → c.payment_method ≡ m
    → IsSound c
    → Every IsSound (prepare p m c)
unfolding prepare prepare_credit_card prepare_common_pix prepare_pix_automatic
prepare-IsSound p credit_card c e sound = Every-bind IsSound (p.create_checkout c) _ (λ a. sound)
prepare-IsSound p pix c e sound = Every-bind IsSound p.active_pix_address_key _ (λ key.
    Every-bind IsSound (p.create_static_pix_qr_code key c) _ (λ (qr, payload, expires). refl))
prepare-IsSound p pix_automatic c e sound =
    Every-bind IsSound (p.find_customer c.business_id) _ (λ found.
      Every-bind IsSound (customer_of p c.business_id found) _ (λ customer.
        Every-bind IsSound (p.create_pix_authorization customer c) _
          (λ a. automatic_sound c.provider_pix_qr_code_id a.subscription_id)))
  where
    no_common_pix : (qr s : Option Reference) → is_sound pix_automatic qr s ≡ true
    no_common_pix none s = refl
    no_common_pix (some q) none = refl
    no_common_pix (some q) (some s) = refl

    automatic_sound : (qr s : Option Reference) → is_sound c.payment_method qr s ≡ true
    automatic_sound qr s = subst (λ m. is_sound m qr s ≡ true) (sym e) (no_common_pix qr s)

Kept-add :
    (e : Environment) (before rows : List Checkout) (c : Checkout)
    → Kept e before rows
    → open_count e rows ≡ 0
    → IsSound c
    → Kept e before (c ∷ rows)
Kept-add e before rows c k none_open sound = record {
  once = omega (arith, none_open, bit-most (blocks e c));
  sound = (sound, k.sound);
  still = λ x was_paid m. inr (k.still x was_paid m);
}

after_prepare-KeptEnd :
    (m : PaymentMethod) (c : Checkout) (a : Answer Checkout) (d : Desk) (before : List Checkout)
    → KeptDesk before d
    → open_count d.environment d.checkouts ≡ 0
    → IsSound c
    → Every IsSound a
    → KeptEnd before (after_prepare m c a d)
unfolding after_prepare
after_prepare-KeptEnd m c (answer made) d before k z sound every = Kept-add _ _ _ _ k z every
after_prepare-KeptEnd pix_automatic c timed_out d before k z sound every =
    Kept-add _ _ _ _ k z sound
after_prepare-KeptEnd pix c timed_out d before k z sound every = Kept-add _ _ _ _ k z sound
after_prepare-KeptEnd credit_card c timed_out d before k z sound every = Kept-add _ _ _ _ k z sound
after_prepare-KeptEnd m c gateway_error d before k z sound every = Kept-add _ _ _ _ k z sound

add_checkout-KeptEnd :
    (s : Settings) (p : Provider) (c : Checkout) (d : Desk) (before : List Checkout)
    → KeptDesk before d
    → open_count d.environment d.checkouts ≡ 0
    → IsSound c
    → KeptEnd before (add_checkout s p c d)
unfolding add_checkout
add_checkout-KeptEnd s p c d before k z sound =
    if_cases (KeptEnd before) (is_credit_card c.payment_method && s.native_card_enabled)
      (λ _. Kept-add _ _ _ _ k z sound)
      (λ _.
        after_prepare-KeptEnd c.payment_method c (prepare p c.payment_method c) d before k z sound
          (prepare-IsSound p c.payment_method c refl sound))

add_unless-KeptEnd :
    (s : Settings) (p : Provider) (c : Checkout) (v : Verdict) (before : List Checkout)
    → KeptVerdict before v
    → IsSound c
    → KeptEnd before (add_unless s p c v)
unfolding add_unless KeptVerdict
add_unless-KeptEnd s p c (goes_on d) before (k, z) sound =
    add_checkout-KeptEnd s p c d before k z sound
add_unless-KeptEnd s p c (stops x) before k sound = k

repeat_checkout-KeptEnd :
    (now : Moment) (r : Request) (c : Checkout) (d : Desk) (before : List Checkout)
    → KeptDesk before d
    → first (has_key d.environment r.idempotency_key) d.checkouts ≡ some c
    → KeptEnd before (repeat_checkout now r c d)
unfolding repeat_checkout
repeat_checkout-KeptEnd now r c d before k found =
    if_cases (KeptEnd before)
      (not (
        same_plan c.plan_code r.plan
        && same_cycle c.billing_cycle r.cycle
        && same_method c.payment_method r.payment_method))
      (λ _. k)
      (λ _.
        if_cases (KeptEnd before) (not (is_credit_card c.payment_method) && not (is_none c.paid_at))
          (λ _. fill_existing-KeptDesk r c d before k found)
          (λ _.
            if_cases (KeptEnd before)
              (is_common_pix c.payment_method
                && is_status c.status active
                && is_past c.expires_at now
                && is_none c.paid_at)
              (λ t.
                let (is_active, unpaid) =
                  second_last (is_common_pix c.payment_method) (is_status c.status active)
                    (is_past c.expires_at now) (is_none c.paid_at) t in
                fill_existing-expired r c d before k found unpaid is_active)
              (λ _.
                if_cases (KeptEnd before) (is_status c.status active || is_status c.status paid)
                  (λ _. fill_existing-KeptDesk r c d before k found) (λ _. k))))
  where
    second_last : (a b c d : Bool) → (a && b && c && d) ≡ true → (b ≡ true) × (d ≡ true)
    second_last false b c d h = cc h
    second_last true false c d h = cc h
    second_last true true false d h = cc h
    second_last true true true d h = (refl, h)

new_checkout-IsSound :
    (id : Uuid) (deadline : Moment) (amount : ℕ) (r : Request) (d : Desk)
    → IsSound (new_checkout id deadline amount r d)
unfolding new_checkout
new_checkout-IsSound id deadline amount r d = refl

create_new-KeptEnd :
    (s : Settings) (p : Provider) (g : Gateway) (id : Uuid) (now deadline : Moment) (amount : ℕ)
    (r : Request) (d : Desk) (before : List Checkout)
    → KeptDesk before d
    → KeptEnd before (create_new s p g id now deadline amount r d)
unfolding create_new
create_new-KeptEnd s p g id now deadline amount r d before k =
    if_cases (KeptEnd before)
      (not (is_none (active_subscription d.environment now d.subscriptions))) (λ _. k)
      (λ _.
        if_cases (KeptEnd before) (not (may_activate d.access d.whatsapp_connected)) (λ _. k)
          (λ _.
            add_unless-KeptEnd s p (new_checkout id deadline amount r d)
              (blocker now g r (blocking_checkout d.environment d.checkouts) d) before
              (blocker-KeptVerdict now g r before d k)
              (new_checkout-IsSound id deadline amount r d)))

create_unless-KeptEnd :
    (s : Settings) (p : Provider) (g : Gateway) (id : Uuid) (now deadline : Moment) (amount : ℕ)
    (r : Request) (o : Option Checkout) (d : Desk) (before : List Checkout)
    → first (has_key d.environment r.idempotency_key) d.checkouts ≡ o
    → KeptDesk before d
    → KeptEnd before (create_unless s p g id now deadline amount r o d)
unfolding create_unless
create_unless-KeptEnd s p g id now deadline amount r none d before found k =
    create_new-KeptEnd s p g id now deadline amount r d before k
create_unless-KeptEnd s p g id now deadline amount r (some c) d before found k =
    repeat_checkout-KeptEnd now r c d before k found

create_at-KeptEnd :
    (s : Settings) (p : Provider) (g : Gateway) (id : Uuid) (now deadline : Moment)
    (amount : TestAmount) (r : Request) (d : Desk) (before : List Checkout)
    → KeptDesk before d
    → KeptEnd before (create_at s p g id now deadline amount r d)
unfolding create_at
create_at-KeptEnd s p g id now deadline misconfigured r d before k = k
create_at-KeptEnd s p g id now deadline no_test_amount r d before k =
    create_unless-KeptEnd s p g id now deadline _ r _ d before refl k
create_at-KeptEnd s p g id now deadline (test_amount n) r d before k =
    create_unless-KeptEnd s p g id now deadline _ r _ d before refl k

pub create_checkout-KeptEnd :
    (s : Settings) (p : Provider) (g : Gateway) (id : Uuid) (now deadline : Moment) (r : Request)
    (d : Desk) (before : List Checkout)
    → KeptDesk before d
    → KeptEnd before (create_checkout s p g id now deadline r d)
unfolding create_checkout
create_checkout-KeptEnd s p g id now deadline r d before k =
    if_cases (KeptEnd before) (not r.origin_allowed) (λ _. k)
      (λ _.
        if_cases (KeptEnd before) (not (plan_is_enabled s r.plan)) (λ _. k)
          (λ _.
            if_cases (KeptEnd before) (not (payment_method_is_enabled s r.payment_method)) (λ _. k)
              (λ _. create_at-KeptEnd s p g id now deadline s.amount r d before k)))
