-- ===== src/Billing/Create/Filled.antt =====
-- What the filling in of the payer of an existing checkout keeps.
use whatsapp_atendimentos_ag.Prelude.{
  ◌≤◌, ◌≡◌, refl, sym, subst, inr, Bool, true, false, ◌&&◌, Option, none, some, is_none, List,
  arith, ap, inl,
}
use Prim.Native.String.{String}
use whatsapp_atendimentos_ag.Billing.Types.{
  Environment, same_environment, PaymentMethod, CheckoutStatus, creating, active, paid, canceled,
  expired, failed, Checkout,
}
use whatsapp_atendimentos_ag.Billing.Desk.{Desk, blocks_as, blocks, first, with_status, is_status}
use whatsapp_atendimentos_ag.Billing.Desk.Rows.{
  bit, open_count-change_first, change_first-All, change_first-Any,
}
use whatsapp_atendimentos_ag.Billing.Desk.Kept.{IsSound, KeptDesk, IsKept, Stays}
use whatsapp_atendimentos_ag.Billing.Prepare.{Request}
use whatsapp_atendimentos_ag.Billing.Create.{has_key, or_given, fill_payer, fill_existing}

pub bit-most : (b : Bool) → bit b ≤ 1
bit-most true = omega arith
bit-most false = omega arith

active_as :
    (m : PaymentMethod) (s : CheckoutStatus) (c : Checkout)
    → is_status s active ≡ true
    → blocks_as m s c ≡ true
unfolding blocks_as
active_as m active c h = refl
active_as m creating c h = refl
active_as m paid c h = cc h
active_as m canceled c h = cc h
active_as m expired c h = cc h
active_as m failed c h = cc h

-- An active checkout blocks already.
pub active-blocks :
    (e : Environment) (s : CheckoutStatus) (c : Checkout)
    → is_status c.status active ≡ true
    → bit (blocks e (with_status s c)) ≤ bit (blocks e c)
unfolding blocks
active-blocks e s c h =
    subst
      (λ b.
        bit (
          same_environment c.provider_environment e
          && blocks_as c.payment_method s (with_status s c))
        ≤ bit (same_environment c.provider_environment e && b))
      (sym (active_as c.payment_method c.status c h))
      (less (same_environment c.provider_environment e) _)
  where
    less : (a b : Bool) → bit (a && b) ≤ bit (a && true)
    less true b = bit-most b
    less false b = omega arith

given-Stays : (old new given : Option String) → Stays old new → Stays old (or_given new given)
given-Stays old none given (inl e) = inl e
given-Stays none none given (inr e) = inl refl
given-Stays (some t) none given (inr e) = cc e
given-Stays old (some u) given h = h

fill_payer-IsKept : (r : Request) (c x : Checkout) → IsKept c x → IsKept c (fill_payer r x)
unfolding fill_payer
fill_payer-IsKept r c x k = record {
  same = k.same;
  name = given-Stays c.payer.name x.payer.name _ k.name;
  email = given-Stays c.payer.email x.payer.email _ k.email;
  phone = given-Stays c.payer.phone x.payer.phone _ k.phone;
}

fill_payer-blocks_as :
    (m : PaymentMethod) (s : CheckoutStatus) (r : Request) (c : Checkout)
    → blocks_as m s (fill_payer r c) ≡ blocks_as m s c
unfolding blocks_as fill_payer
fill_payer-blocks_as m s r c = grind arith

fill_payer-blocks :
    (e : Environment) (r : Request) (c : Checkout) → blocks e (fill_payer r c) ≡ blocks e c
unfolding blocks fill_payer
fill_payer-blocks e r c =
    ap (λ b. same_environment c.provider_environment e && b)
      (fill_payer-blocks_as c.payment_method c.status r c)

expired_payer-blocks :
    (e : Environment) (r : Request) (c : Checkout)
    → blocks e (with_status expired (fill_payer r c)) ≡ blocks e (with_status expired c)
unfolding blocks fill_payer
expired_payer-blocks e r c =
    ap (λ b. same_environment c.provider_environment e && b)
      (fill_payer-blocks_as c.payment_method expired r (with_status expired c))

pub fill_existing-KeptDesk :
    (r : Request) (c : Checkout) (d : Desk) (before : List Checkout)
    → KeptDesk before d
    → first (has_key d.environment r.idempotency_key) d.checkouts ≡ some c
    → KeptDesk before (fill_existing r (λ x. x) d)
unfolding fill_payer blocks
fill_existing-KeptDesk r c d before k found = record {
  once = omega (
    arith,
    k.once,
    open_count-change_first d.environment (has_key d.environment r.idempotency_key) (fill_payer r)
        d.checkouts c found,
    ap bit (fill_payer-blocks d.environment r c),
  );
  sound = change_first-All IsSound _ (fill_payer r) d.checkouts (λ x h. h) k.sound;
  still = λ x was_paid m.
      change_first-Any (IsKept x) _ (fill_payer r) d.checkouts c found (fill_payer-IsKept r x c)
        (k.still x was_paid m);
}

pub fill_existing-expired :
    (r : Request) (c : Checkout) (d : Desk) (before : List Checkout)
    → KeptDesk before d
    → first (has_key d.environment r.idempotency_key) d.checkouts ≡ some c
    → is_none c.paid_at ≡ true
    → is_status c.status active ≡ true
    → KeptDesk before (fill_existing r (with_status expired) d)
unfolding fill_payer blocks
fill_existing-expired r c d before k found unpaid is_active = record {
  once = omega (
    arith,
    k.once,
    active-blocks d.environment expired c is_active,
    open_count-change_first d.environment (has_key d.environment r.idempotency_key)
        (λ x. with_status expired (fill_payer r x)) d.checkouts c found,
    ap bit (expired_payer-blocks d.environment r c),
  );
  sound = change_first-All IsSound _ _ d.checkouts (λ x h. h) k.sound;
  still = λ x was_paid m.
      change_first-Any (IsKept x) _ _ d.checkouts c found
        (λ kept. cc (ap (λ (y : Checkout). is_none y.paid_at) kept.same, unpaid, was_paid))
        (k.still x was_paid m);
}
