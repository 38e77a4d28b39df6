-- ===== src/Billing/Create/Runs.antt =====
-- The operations on a business's checkouts in a row.
use whatsapp_atendimentos_ag.Prelude.{◌≤◌, ◌≡◌, false, is_none, List, [], ◌∷◌, All, Any, inl, inr}
use whatsapp_atendimentos_ag.Booking.Types.{Uuid}
use whatsapp_atendimentos_ag.Billing.Calendar.{Moment}
use whatsapp_atendimentos_ag.Billing.Types.{Checkout, Gateway}
use whatsapp_atendimentos_ag.Billing.Desk.{Desk, checkout_status, cancel_checkout}
use whatsapp_atendimentos_ag.Billing.Desk.Rows.{open_count}
use whatsapp_atendimentos_ag.Billing.Desk.Kept.{
  IsSound, IsKept, IsKept-refl, KeptDesk, checkout_status-KeptEnd, cancel_checkout-KeptEnd,
}
use whatsapp_atendimentos_ag.Billing.Prepare.{Settings, Request, Provider}
use whatsapp_atendimentos_ag.Billing.Create.{create_checkout}
use whatsapp_atendimentos_ag.Billing.Create.Kept.{create_checkout-KeptEnd}

-- What a business asks about its checkouts, with the settings, the answers of the provider, the id that
-- is generated, the clock and the end of the fifteen minutes of each call.
pub data Operation : Type 0 where
  creates : Settings → Provider → Gateway → Uuid → Moment → Moment → Request → Operation
  cancels : Gateway → Uuid → Operation
  reads : Moment → Uuid → Operation

unfoldable pub operate : Operation → Desk → Desk
unfolding create_checkout cancel_checkout checkout_status
operate (creates s p g id now deadline r) d = (create_checkout s p g id now deadline r d).1
operate (cancels g i) d = (cancel_checkout g i d).1
operate (reads now i) d = (checkout_status now i d).1

unfoldable pub operate_all : List Operation → Desk → Desk
unfolding operate
operate_all [] d = d
operate_all (o ∷ os) d = operate_all os (operate o d)

operate-KeptDesk :
    (o : Operation) (d : Desk) (before : List Checkout)
    → KeptDesk before d
    → KeptDesk before (operate o d)
unfolding operate
operate-KeptDesk (creates s p g id now deadline r) d before k =
    create_checkout-KeptEnd s p g id now deadline r d before k
operate-KeptDesk (cancels g i) d before k = cancel_checkout-KeptEnd g i d before k
operate-KeptDesk (reads now i) d before k = checkout_status-KeptEnd now i d before k

operate_all-KeptDesk :
    (os : List Operation) (d : Desk) (before : List Checkout)
    → KeptDesk before d
    → KeptDesk before (operate_all os d)
unfolding operate_all
operate_all-KeptDesk [] d before k = k
operate_all-KeptDesk (o ∷ os) d before k =
    operate_all-KeptDesk os _ before (operate-KeptDesk o d before k)

Any-map :
    {P Q : Checkout → Type 0} (cs : List Checkout)
    → ((c : Checkout) → P c → Q c)
    → Any P cs
    → Any Q cs
Any-map [] f h = h
Any-map (c ∷ cs) f (inl h) = inl (f c h)
Any-map (c ∷ cs) f (inr h) = inr (Any-map cs f h)

start-KeptDesk :
    (d : Desk)
    → open_count d.environment d.checkouts ≤ 1
    → All IsSound d.checkouts
    → KeptDesk d.checkouts d
start-KeptDesk d once sound = record {
  once = once;
  sound = sound;
  still = λ c was_paid m. Any-map d.checkouts (IsKept-refl c) m;
}

-- Of a business of which at most one checkout blocks, and whose common Pix checkouts with a QR code
-- have no subscription at the provider, at most one checkout blocks after any creations, cancellations
-- and readings, whatever the provider answers.
pub operate_all_one_open :
    (os : List Operation) (d : Desk)
    → open_count d.environment d.checkouts ≤ 1
    → All IsSound d.checkouts
    → open_count (operate_all os d).environment (operate_all os d).checkouts ≤ 1
operate_all_one_open os d once sound =
    (operate_all-KeptDesk os d d.checkouts (start-KeptDesk d once sound)).once

-- On the same conditions, a checkout whose initial payment was received is still there after all these
-- operations, with the same columns; only a name, an address of email or a telephone of the payer that
-- was missing may have been filled in.
pub operate_all_keeps_paid :
    (os : List Operation) (d : Desk) (c : Checkout)
    → open_count d.environment d.checkouts ≤ 1
    → All IsSound d.checkouts
    → is_none c.paid_at ≡ false
    → Any (λ y. y ≡ c) d.checkouts
    → Any (IsKept c) (operate_all os d).checkouts
operate_all_keeps_paid os d c once sound was_paid m =
    (operate_all-KeptDesk os d d.checkouts (start-KeptDesk d once sound)).still c was_paid m
