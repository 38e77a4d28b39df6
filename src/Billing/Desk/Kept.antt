-- ===== src/Billing/Desk/Kept.antt =====
-- What every operation on a business's checkouts keeps.
use whatsapp_atendimentos_ag.Prelude.{
  ◌≤◌, ◌≡◌, refl, ap, Bool, true, false, not, ◌&&◌, ◌||◌, Option, none, some, is_none, List,
  if_cases, All, Any, arith, ◌⊎◌, inr,
}
use Prim.Native.String.{String}
use whatsapp_atendimentos_ag.Booking.Types.{Uuid}
use whatsapp_atendimentos_ag.Billing.Calendar.{Moment}
use whatsapp_atendimentos_ag.Billing.Types.{
  Reference, Environment, PaymentMethod, credit_card, pix, pix_automatic, CheckoutStatus, active,
  paid, canceled, expired, failed, Checkout, Gateway, Call,
}
use whatsapp_atendimentos_ag.Billing.Desk.{
  Desk, Outcome, blocks_as, blocks, first, change_first, has_id, with_status, is_status, is_past,
  is_credit_card, is_common_pix, belongs, expires_locally, status_of, status_found, checkout_status,
  cancel_call, after_cancel_call, cancel_pix_checkout, cancel_found, cancel_checkout,
}
use whatsapp_atendimentos_ag.Billing.Desk.Rows.{
  bit, open_count, first_holds, first-All, open_count-change_first, change_first-All,
  change_first-Any,
}

-- A common Pix checkout with a QR code has no recurring subscription at the provider.
abbrev pub is_sound : PaymentMethod → Option Reference → Option Reference → Bool
is_sound m qr s = not (not (is_none qr) && not (is_none s) && is_common_pix m)

abbrev pub IsSound : Checkout → Type 0
IsSound c = is_sound c.payment_method c.provider_pix_qr_code_id c.provider_subscription_id ≡ true

-- A text that was there stays.
abbrev pub Stays : Option String → Option String → Type 0
Stays old new = (old ≡ none) ⊎ (new ≡ old)

-- The same checkout, of whose payer only what was missing may have been filled in.
pub record IsKept (c y : Checkout) : Type 0 where
  pub same : record y { payer = c.payer } ≡ c
  pub name : Stays c.payer.name y.payer.name
  pub email : Stays c.payer.email y.payer.email
  pub phone : Stays c.payer.phone y.payer.phone

pub IsKept-refl : (c y : Checkout) → y ≡ c → IsKept c y
IsKept-refl c y e = record {
  same = ap (λ (x : Checkout). record x { payer = c.payer }) e;
  name = inr (ap (λ (x : Checkout). x.payer.name) e);
  email = inr (ap (λ (x : Checkout). x.payer.email) e);
  phone = inr (ap (λ (x : Checkout). x.payer.phone) e);
}

-- At most one checkout blocks, and the checkouts whose payment was received before are still there.
pub record Kept (e : Environment) (before rows : List Checkout) : Type 0 where
  pub once : open_count e rows ≤ 1
  pub sound : All IsSound rows
  pub still :
      (c : Checkout) → is_none c.paid_at ≡ false → Any (λ y. y ≡ c) before → Any (IsKept c) rows

abbrev pub KeptDesk : List Checkout → Desk → Type 0
KeptDesk before d = Kept d.environment before d.checkouts

abbrev pub KeptEnd : List Checkout → Outcome × Desk → Type 0
KeptEnd before x = KeptDesk before x.1

module _ (e : Environment) (before rows : List Checkout) (p : Checkout → Bool) (s : CheckoutStatus)
    (x : Checkout) (k : Kept e before rows) (found : first p rows ≡ some x)
    (unpaid : is_none x.paid_at ≡ true) where
  changed : List Checkout
  changed = change_first p (with_status s) rows

  changed-still :
      (c : Checkout) → is_none c.paid_at ≡ false → Any (λ y. y ≡ c) before → Any (IsKept c) changed
  unfolding changed
  changed-still c was_paid m =
      change_first-Any (IsKept c) p (with_status s) rows x found
        (λ kept. cc (ap (λ (y : Checkout). is_none y.paid_at) kept.same, unpaid, was_paid))
        (k.still c was_paid m)

  -- A change of the status of an unpaid row that does not make it block.
  pub Kept-change :
      bit (blocks e (with_status s x)) ≤ bit (blocks e x)
      → Kept e before (change_first p (with_status s) rows)
  unfolding changed
  Kept-change less = record {
    once = omega (arith, k.once, less, open_count-change_first e p (with_status s) rows x found);
    sound = change_first-All IsSound p (with_status s) rows (λ c h. h) k.sound;
    still = changed-still;
  }

-- The row that blocks is changed to one that does not: then none blocks.
pub open_count-retired :
    (e : Environment) (before rows : List Checkout) (s : CheckoutStatus) (x : Checkout)
    → Kept e before rows
    → first (blocks e) rows ≡ some x
    → blocks e (with_status s x) ≡ false
    → open_count e (change_first (blocks e) (with_status s) rows) ≡ 0
open_count-retired e before rows s x k found not_open = omega (
  arith,
  k.once,
  ap bit not_open,
  ap bit (first_holds (blocks e) rows x found),
  open_count-change_first e (blocks e) (with_status s) rows x found,
)

-- Where the row does not block after the change, one that blocks no more.
pub Kept-closed :
    (e : Environment) (before rows : List Checkout) (p : Checkout → Bool) (s : CheckoutStatus)
    (x : Checkout)
    → Kept e before rows
    → first p rows ≡ some x
    → is_none x.paid_at ≡ true
    → blocks e (with_status s x) ≡ false
    → Kept e before (change_first p (with_status s) rows)
Kept-closed e before rows p s x k found unpaid closed =
    Kept-change e before rows p s x k found unpaid (omega (arith, ap bit closed))

pub last_two : (a b c d : Bool) → (a && b && c && d) ≡ true → (c ≡ true) × (d ≡ true)
last_two false b c d h = cc h
last_two true false c d h = cc h
last_two true true false d h = cc h
last_two true true true d h = (refl, h)

and_false : (a b : Bool) → b ≡ false → (a && b) ≡ false
and_false true b h = h
and_false false b h = refl

-- An expired checkout of this service alone does not block.
expired_as :
    (m : PaymentMethod) (c : Checkout)
    → expires_locally m c.provider_pix_qr_code_id ≡ true
    → is_sound m c.provider_pix_qr_code_id c.provider_subscription_id ≡ true
    → blocks_as m expired c ≡ false
unfolding blocks_as
expired_as credit_card c here sound = refl
expired_as pix c here sound = of_qr c.provider_pix_qr_code_id c.provider_subscription_id here sound
  where
    of_qr :
        (qr s : Option Reference)
        → not (is_none qr) ≡ true
        → is_sound pix qr s ≡ true
        → not (is_none s) ≡ false
    of_qr none s h k = cc h
    of_qr (some q) none h k = refl
    of_qr (some q) (some s) h k = cc k
expired_as pix_automatic c here sound = cc here

pub expired-blocks :
    (e : Environment) (c : Checkout)
    → expires_locally c.payment_method c.provider_pix_qr_code_id ≡ true
    → IsSound c
    → blocks e (with_status expired c) ≡ false
unfolding blocks
expired-blocks e c here sound =
    and_false _ _ (expired_as c.payment_method (with_status expired c) here sound)

canceled_as :
    (m : PaymentMethod) (c : Checkout) → is_none c.paid_at ≡ true → blocks_as m canceled c ≡ false
unfolding blocks_as
canceled_as credit_card c h = refl
canceled_as pix c h = refl
canceled_as pix_automatic c h = ap not h

pub canceled-blocks :
    (e : Environment) (c : Checkout)
    → is_none c.paid_at ≡ true
    → blocks e (with_status canceled c) ≡ false
unfolding blocks
canceled-blocks e c unpaid =
    and_false _ _ (canceled_as c.payment_method (with_status canceled c) unpaid)

status_of-KeptEnd :
    (now : Moment) (i : Uuid) (d : Desk) (c : Checkout) (before : List Checkout)
    → KeptDesk before d
    → first (has_id i) d.checkouts ≡ some c
    → KeptEnd before (status_of now i d c)
unfolding status_of
status_of-KeptEnd now i d c before k found =
    if_cases (KeptEnd before) _
      (λ t.
        let (unpaid, here) =
          last_two (is_status c.status active) (is_past c.expires_at now) (is_none c.paid_at)
            (expires_locally c.payment_method c.provider_pix_qr_code_id) t in
        Kept-closed d.environment before d.checkouts (has_id i) expired c k found unpaid
          (expired-blocks d.environment c here (first-All IsSound _ _ c found k.sound)))
      (λ _. k)

pub checkout_status-KeptEnd :
    (now : Moment) (i : Uuid) (d : Desk) (before : List Checkout)
    → KeptDesk before d
    → KeptEnd before (checkout_status now i d)
unfolding checkout_status status_found
checkout_status-KeptEnd now i d before k = of_row (first (has_id i) d.checkouts) refl
  where
    of_row :
        (o : Option Checkout)
        → first (has_id i) d.checkouts ≡ o
        → KeptEnd before (status_found now i d o)
    of_row none found = k
    of_row (some c) found =
        if_cases (KeptEnd before) (not (belongs d c)) (λ _. k)
          (λ _. status_of-KeptEnd now i d c before k found)

after_cancel_call-KeptEnd :
    (r : Bool × Option Call) (i : Uuid) (c : Checkout) (d : Desk) (before : List Checkout)
    → KeptDesk before d
    → first (has_id i) d.checkouts ≡ some c
    → is_none c.paid_at ≡ true
    → KeptEnd before (after_cancel_call i r c d)
unfolding after_cancel_call
after_cancel_call-KeptEnd (false, none) i c d before k found unpaid = k
after_cancel_call-KeptEnd (false, some call) i c d before k found unpaid = k
after_cancel_call-KeptEnd (true, none) i c d before k found unpaid =
    Kept-closed d.environment before d.checkouts (has_id i) canceled c k found unpaid
      (canceled-blocks d.environment c unpaid)
after_cancel_call-KeptEnd (true, some call) i c d before k found unpaid =
    Kept-closed d.environment before d.checkouts (has_id i) canceled c k found unpaid
      (canceled-blocks d.environment c unpaid)

cancel_pix_checkout-KeptEnd :
    (g : Gateway) (i : Uuid) (d : Desk) (c : Checkout) (before : List Checkout)
    → KeptDesk before d
    → first (has_id i) d.checkouts ≡ some c
    → KeptEnd before (cancel_pix_checkout g i d c)
unfolding cancel_pix_checkout
cancel_pix_checkout-KeptEnd g i d c before k found =
    if_cases (KeptEnd before) (is_credit_card c.payment_method) (λ _. k)
      (λ _.
        if_cases (KeptEnd before) (is_status c.status paid || not (is_none c.paid_at)) (λ _. k)
          (λ t.
            if_cases (KeptEnd before) (is_status c.status canceled || is_status c.status failed)
              (λ _. k)
              (λ _.
                after_cancel_call-KeptEnd
                  (cancel_call g c.payment_method c.provider_authorization_id
                    c.provider_pix_qr_code_id c.provider_subscription_id)
                  i c d before k found
                  (second_false (is_status c.status paid) (is_none c.paid_at) t))))
  where
    second_false : (a b : Bool) → (a || not b) ≡ false → b ≡ true
    second_false false true h = refl
    second_false false false h = cc h
    second_false true b h = cc h

pub cancel_checkout-KeptEnd :
    (g : Gateway) (i : Uuid) (d : Desk) (before : List Checkout)
    → KeptDesk before d
    → KeptEnd before (cancel_checkout g i d)
unfolding cancel_checkout cancel_found
cancel_checkout-KeptEnd g i d before k = of_row (first (has_id i) d.checkouts) refl
  where
    of_row :
        (o : Option Checkout)
        → first (has_id i) d.checkouts ≡ o
        → KeptEnd before (cancel_found g i d o)
    of_row none found = k
    of_row (some c) found =
        if_cases (KeptEnd before) (not (belongs d c)) (λ _. k)
          (λ _. cancel_pix_checkout-KeptEnd g i d c before k found)
