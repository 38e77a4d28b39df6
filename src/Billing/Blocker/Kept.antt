-- ===== src/Billing/Blocker/Kept.antt =====
-- What a blocking checkout leaves: it still blocks and nothing is made, or none blocks.
use whatsapp_atendimentos_ag.Prelude.{
  ◌≡◌, refl, sym, subst, Bool, true, false, not, ◌&&◌, Option, none, some, is_none, List,
  if◌then◌else◌, if_cases,
}
use whatsapp_atendimentos_ag.Billing.Calendar.{Moment}
use whatsapp_atendimentos_ag.Billing.Types.{
  Reference, PaymentMethod, credit_card, pix, pix_automatic, CheckoutStatus, active, canceled,
  expired, Checkout, same_method, Gateway,
}
use whatsapp_atendimentos_ag.Billing.Desk.{
  Desk, answered, refused, blocks, first, change_first, blocking_checkout, with_status, is_status,
  is_past, is_credit_card, expires_locally,
}
use whatsapp_atendimentos_ag.Billing.Desk.Rows.{open_count, first-All, open_count-none}
use whatsapp_atendimentos_ag.Billing.Desk.Kept.{
  IsSound, Kept, KeptDesk, KeptEnd, Kept-closed, open_count-retired, expired-blocks,
  canceled-blocks,
}
use whatsapp_atendimentos_ag.Billing.Prepare.{Request}
use whatsapp_atendimentos_ag.Billing.Blocker.{
  Verdict, goes_on, stops, retire_pix, paid_blocker, card_blocker, automatic_blocker,
  unpaid_blocker, blocker, same_offer, is_pix_automatic, reusable_pix_checkout,
}

-- Either the call ends, or it goes on with rows of which none blocks.
unfoldable pub KeptVerdict : List Checkout → Verdict → Type 0
KeptVerdict before (goes_on d) = KeptDesk before d × (open_count d.environment d.checkouts ≡ 0)
KeptVerdict before (stops x) = KeptEnd before x

module _ (now : Moment) (g : Gateway) (r : Request) (before : List Checkout) (d : Desk)
    (c : Checkout) (k : KeptDesk before d)
    (found : first (blocks d.environment) d.checkouts ≡ some c)
    (unpaid : is_none c.paid_at ≡ true) where
  retired :
      (s : CheckoutStatus)
      → blocks d.environment (with_status s c) ≡ false
      → Kept d.environment before (change_first (blocks d.environment) (with_status s) d.checkouts)
        × (open_count d.environment
              (change_first (blocks d.environment) (with_status s) d.checkouts)
            ≡ 0)
  retired s closed = (
    Kept-closed d.environment before d.checkouts _ s c k found unpaid closed,
    open_count-retired d.environment before d.checkouts s c k found closed,
  )

  found-IsSound : IsSound c
  found-IsSound = first-All IsSound _ _ c found k.sound

  answers :
      (b : Bool) → KeptVerdict before (if b then stops (answered c, d) else stops (refused 409, d))
  unfolding KeptVerdict
  answers true = k
  answers false = k

  retire_pix-Kept :
      (qr s : Option Reference)
      → (not (is_none qr) ≡ true → blocks d.environment (with_status expired c) ≡ false)
      → KeptVerdict before (retire_pix now g qr s c.expires_at d)
  unfolding retire_pix KeptVerdict
  retire_pix-Kept (some qr) s closed =
      if_cases (KeptVerdict before) (is_past c.expires_at now) (λ _. retired expired (closed refl))
        (λ _. k)
  retire_pix-Kept none (some s) closed =
      if_cases (KeptVerdict before) (g.cancel_subscription s)
        (λ _. retired canceled (canceled-blocks d.environment c unpaid)) (λ _. k)
  retire_pix-Kept none none closed = k

  card_blocker-Kept :
      is_credit_card c.payment_method ≡ true → KeptVerdict before (card_blocker now r c d)
  unfolding card_blocker KeptVerdict
  card_blocker-Kept card =
      if_cases (KeptVerdict before) (is_none c.provider_subscription_id && is_past c.expires_at now)
        (λ _.
          retired expired
            (expired-blocks d.environment c (expires_card c.payment_method card) found-IsSound))
        (λ _.
          answers (is_credit_card r.payment_method && same_offer r c && is_status c.status active))
    where
      expires_card :
          (m : PaymentMethod)
          → is_credit_card m ≡ true
          → expires_locally m c.provider_pix_qr_code_id ≡ true
      expires_card credit_card h = refl
      expires_card pix h = cc h
      expires_card pix_automatic h = cc h

  unpaid_blocker-Kept :
      (m : PaymentMethod) → c.payment_method ≡ m → KeptVerdict before (unpaid_blocker now g r m c d)
  unfolding unpaid_blocker KeptVerdict automatic_blocker
  unpaid_blocker-Kept pix e =
      retire_pix-Kept c.provider_pix_qr_code_id c.provider_subscription_id (λ h.
        expired-blocks d.environment c
          (subst (λ m. expires_locally m c.provider_pix_qr_code_id ≡ true) (sym e) h) found-IsSound)
  unpaid_blocker-Kept credit_card e =
      card_blocker-Kept (subst (λ m. is_credit_card m ≡ true) (sym e) refl)
  unpaid_blocker-Kept pix_automatic e =
      answers (is_pix_automatic r.payment_method && reusable_pix_checkout now c && same_offer r c)

pub blocker-KeptVerdict :
    (now : Moment) (g : Gateway) (r : Request) (before : List Checkout) (d : Desk)
    → KeptDesk before d
    → KeptVerdict before (blocker now g r (blocking_checkout d.environment d.checkouts) d)
unfolding blocking_checkout KeptVerdict blocker paid_blocker
blocker-KeptVerdict now g r before d k = of_row (first (blocks d.environment) d.checkouts) refl
  where
    negated : (b : Bool) → not b ≡ false → b ≡ true
    negated true h = refl
    negated false h = cc h

    paid_answers :
        (b : Bool) (c : Checkout)
        → KeptVerdict before (if b then stops (answered c, d) else stops (refused 409, d))
    paid_answers true c = k
    paid_answers false c = k

    of_row :
        (o : Option Checkout)
        → first (blocks d.environment) d.checkouts ≡ o
        → KeptVerdict before (blocker now g r o d)
    of_row none found = (k, open_count-none d.environment d.checkouts found)
    of_row (some c) found =
        if_cases (KeptVerdict before) (not (is_none c.paid_at))
          (λ _.
            paid_answers
              (not (is_credit_card r.payment_method)
                && same_method c.payment_method r.payment_method
                && same_offer r c)
              c)
          (λ t.
            unpaid_blocker-Kept now g r before d c k found (negated (is_none c.paid_at) t)
              c.payment_method refl)
