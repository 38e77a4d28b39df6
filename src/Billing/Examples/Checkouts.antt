-- ===== src/Billing/Examples/Checkouts.antt =====
-- A business that pays again: its checkouts, and the theorems on them.
use whatsapp_atendimentos_ag.Prelude.{
  ℕ, ◌≤◌, ◌≡◌, refl, inl, true, false, none, some, List, [], ◌∷◌, Any, arith, map,
}
use whatsapp_atendimentos_ag.Billing.Calendar.{Moment, monthly}
use whatsapp_atendimentos_ag.Billing.Types.{Checkout, Gateway, Reference}
use whatsapp_atendimentos_ag.Billing.Types
use whatsapp_atendimentos_ag.Billing.Desk.{Desk, blocks}
use whatsapp_atendimentos_ag.Billing.Desk.Rows.{open_count}
use whatsapp_atendimentos_ag.Billing.Desk.Kept.{IsKept}
use whatsapp_atendimentos_ag.Billing.Prepare.{
  Settings, Request, Provider, answer, timed_out, no_test_amount,
}
use whatsapp_atendimentos_ag.Billing.Create.Runs.{
  Operation, creates, cancels, reads, operate_all, operate_all_one_open, operate_all_keeps_paid,
}

abbrev at : ℕ → Moment
at day = record { year = 2026; month = 3; day = day; clock = 0 }

-- A month that was paid by card.
abbrev pub first_checkout : Checkout
first_checkout = record {
  id = 3;
  idempotency_key = 33;
  business_id = 1;
  plan_code = Types.basic;
  billing_cycle = monthly;
  payment_method = Types.credit_card;
  provider_environment = Types.production;
  amount_cents = 19700;
  payer = record { name = some "Maria"; email = some "maria@example.com"; phone = none };
  status = Types.CheckoutStatus.paid;
  provider_checkout_id = some 30;
  provider_authorization_id = none;
  provider_pix_qr_code_id = none;
  provider_subscription_id = some 40;
  provider_customer_id = some 50;
  provider_payment_id = some 60;
  pix_qr_payload = false;
  expires_at = none;
  paid_at = some (record { year = 2026; month = 1; day = 10; clock = 0 });
}

abbrev pub desk : Desk
desk = record {
  business_id = 1;
  environment = Types.production;
  checkouts = first_checkout ∷ [];
  subscriptions = [];
  access = none;
  whatsapp_connected = false;
  calls = [];
}

abbrev settings : Settings
settings = record {
  plus_enabled = false;
  pix_automatic_enabled = true;
  native_card_enabled = false;
  amount = no_test_amount;
}

-- The provider prepares common Pix and times out on an authorization.
abbrev provider : Provider
provider = record {
  create_checkout = λ c. answer 31;
  active_pix_address_key = answer 90;
  create_static_pix_qr_code = λ key c. answer (91, true, at 5);
  find_customer = λ b. answer none;
  create_customer = λ b. answer 50;
  create_pix_authorization = λ customer c. timed_out;
}

abbrev gateway : Gateway
gateway = record {
  payment_details = λ r. none;
  payments_for_static_pix = λ r. none;
  payments_for_checkout = λ r. none;
  payments_for_subscription = λ r. none;
  cancel_subscription = λ r. true;
  cancel_pix_authorization = λ r. true;
  delete_static_pix_qr_code = λ r. true;
  refund_payment = λ r. true;
}

abbrev request : Types.PaymentMethod → ℕ → Request
request m k = record {
  origin_allowed = true;
  plan = Types.basic;
  cycle = monthly;
  payment_method = m;
  idempotency_key = k;
  payer_name = some "Maria";
  payer_email = "maria@example.com";
  payer_phone = some "11999990000";
}

abbrev creates_at : ℕ → Types.PaymentMethod → ℕ → ℕ → Operation
creates_at day m k id = creates settings provider gateway id (at day) (at 5) (request m k)

-- A Pix checkout, the same once more, another beside it, its cancellation, an authorization that times
-- out, another beside it.
abbrev operations : List Operation
operations =
    creates_at 4 Types.pix 70 7
    ∷ creates_at 4 Types.pix 70 8
    ∷ creates_at 4 Types.credit_card 71 9
    ∷ cancels gateway 7
    ∷ creates_at 4 Types.pix_automatic 72 10
    ∷ creates_at 4 Types.pix 73 11
    ∷ reads (at 6) 10
    ∷ []

made : map (λ (c : Checkout). c.id) (operate_all operations desk).checkouts ≡ 10 ∷ 7 ∷ 3 ∷ []
unfolding operate_all
made = refl

desk-open_count : open_count desk.environment desk.checkouts ≤ 1
unfolding blocks
desk-open_count = omega arith

operate_all_one_open_example :
    open_count (operate_all operations desk).environment (operate_all operations desk).checkouts ≤ 1
operate_all_one_open_example = operate_all_one_open operations desk desk-open_count (refl, tt)

operate_all_keeps_paid_example : Any (IsKept first_checkout) (operate_all operations desk).checkouts
operate_all_keeps_paid_example =
    operate_all_keeps_paid operations desk first_checkout desk-open_count (refl, tt) refl (inl refl)
