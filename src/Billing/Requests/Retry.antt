-- ===== src/Billing/Requests/Retry.antt =====
-- A cancellation that is asked for again until the provider answers.
use whatsapp_atendimentos_ag.Prelude.{
  ◌≡◌, refl, sym, subst, ◌∙◌, Bool, true, false, ◌&&◌, Option, List, [], ◌∷◌, if_cases, is_none,
}
use whatsapp_atendimentos_ag.Billing.Calendar.{Moment}
use whatsapp_atendimentos_ag.Billing.Types.{Reference, PaymentMethod, no_refund, Gateway}
use whatsapp_atendimentos_ag.Billing.Status.{
  Focus, subscription_status_response, cancel_recurrence_of, cancel_provider_recurrence,
}
use whatsapp_atendimentos_ag.Billing.Requests.{
  Outcome, is_ended, is_pix, after_recurrence, cancel_locally, request_subscription_cancellation,
  note_cancellation, cancel_now,
}
use whatsapp_atendimentos_ag.Billing.Status.Cases.{
  response_unasked, cancel_recurrence_cases, cancel_recurrence_answer,
}

-- One attempt: what the provider answers to it, and when.
abbrev pub cancel_each : List (Gateway × Moment) → Focus → Focus
cancel_each [] f = f
cancel_each ((g, now) ∷ rest) f = cancel_each rest (request_subscription_cancellation g now f).1

-- What no cancellation changes, of a subscription of which no refund was asked.
record Keeps (f x : Focus) : Type 0 where
  access : x.subscription.access_until ≡ f.subscription.access_until
  unasked : x.subscription.refund_status ≡ no_refund
  method : x.subscription.payment_method ≡ f.subscription.payment_method
  recurrence : x.subscription.provider_subscription_id ≡ f.subscription.provider_subscription_id
  authorization :
      x.subscription.provider_authorization_id ≡ f.subscription.provider_authorization_id

response-Keeps :
    (g : Gateway) (now : Moment) (f x : Focus)
    → Keeps f x
    → Keeps f (subscription_status_response g now x).1
response-Keeps g now f x k = subst (Keeps f) (sym (response_unasked g now x k.unasked)) k

after_recurrence-Keeps :
    (b : Bool) (g : Gateway) (now : Moment) (f x : Focus)
    → Keeps f x
    → Keeps f (after_recurrence g now (b, x)).1
unfolding after_recurrence cancel_now
after_recurrence-Keeps false g now f x k = k
after_recurrence-Keeps true g now f x k = response-Keeps g now f (cancel_now now x) (record {
  access = k.access;
  unasked = k.unasked;
  method = k.method;
  recurrence = k.recurrence;
  authorization = k.authorization;
})

request_subscription_cancellation-Keeps :
    (g : Gateway) (now : Moment) (f x : Focus)
    → Keeps f x
    → Keeps f (request_subscription_cancellation g now x).1
unfolding request_subscription_cancellation note_cancellation cancel_locally
request_subscription_cancellation-Keeps g now f x k =
    if_cases Ends (is_ended x.subscription.status) (λ _. response-Keeps g now f x k)
      (λ _.
        if_cases Ends
          (is_pix x.subscription.payment_method && is_none x.subscription.provider_subscription_id)
          (λ _. response-Keeps g now f (cancel_locally now (note_cancellation now x)) (record {
            access = k.access;
            unasked = k.unasked;
            method = k.method;
            recurrence = k.recurrence;
            authorization = k.authorization;
          }))
          (λ _.
            cancel_recurrence_cases (λ r. Keeps f (after_recurrence g now r).1) g
              (note_cancellation now x)
              (λ b calls e. after_recurrence-Keeps b g now f _ (record {
                access = k.access;
                unasked = k.unasked;
                method = k.method;
                recurrence = k.recurrence;
                authorization = k.authorization;
              }))))
  where
    Ends : Outcome × Focus → Type 0
    Ends r = Keeps f r.1

cancel_each-Keeps :
    (tries : List (Gateway × Moment)) (f x : Focus) → Keeps f x → Keeps f (cancel_each tries x)
cancel_each-Keeps [] f x k = k
cancel_each-Keeps ((g, now) ∷ rest) f x k =
    cancel_each-Keeps rest f _ (request_subscription_cancellation-Keeps g now f x k)

abbrev HasEnded : Focus → Type 0
HasEnded x = is_ended x.subscription.status ≡ true

response-HasEnded :
    (g : Gateway) (now : Moment) (x : Focus)
    → x.subscription.refund_status ≡ no_refund
    → HasEnded x
    → HasEnded (subscription_status_response g now x).1
response-HasEnded g now x e h = subst HasEnded (sym (response_unasked g now x e)) h

after_recurrence-HasEnded :
    (b : Bool) (g : Gateway) (now : Moment) (x : Focus)
    → x.subscription.refund_status ≡ no_refund
    → b ≡ true
    → HasEnded (after_recurrence g now (b, x)).1
unfolding after_recurrence cancel_now
after_recurrence-HasEnded false g now x e h = cc h
after_recurrence-HasEnded true g now x e h = response-HasEnded g now (cancel_now now x) e refl

same_answer :
    (g : Gateway) (m n : PaymentMethod) (s t a b : Option Reference) (f x : Focus)
    → m ≡ n
    → s ≡ t
    → a ≡ b
    → (cancel_recurrence_of g n t b f).0 ≡ true
    → (cancel_recurrence_of g m s a x).0 ≡ true
same_answer g m n s t a b f x e1 e2 e3 h =
    rw (e1, e2, e3) (cancel_recurrence_answer g n t b x f ∙ h)

answers-Keeps :
    (g : Gateway) (now : Moment) (f x : Focus)
    → Keeps f x
    → (cancel_provider_recurrence g f).0 ≡ true
    → (cancel_provider_recurrence g (note_cancellation now x)).0 ≡ true
unfolding cancel_provider_recurrence note_cancellation
answers-Keeps g now f x k h =
    same_answer g _ _ _ _ _ _ f (note_cancellation now x) k.method k.recurrence k.authorization h

answering_cancellation-HasEnded :
    (g : Gateway) (now : Moment) (f x : Focus)
    → Keeps f x
    → (cancel_provider_recurrence g f).0 ≡ true
    → HasEnded (request_subscription_cancellation g now x).1
unfolding request_subscription_cancellation note_cancellation cancel_locally
answering_cancellation-HasEnded g now f x k h =
    if_cases Ends (is_ended x.subscription.status) (response-HasEnded g now x k.unasked) (λ _.
      if_cases Ends
        (is_pix x.subscription.payment_method && is_none x.subscription.provider_subscription_id)
        (λ _. response-HasEnded g now (cancel_locally now (note_cancellation now x)) k.unasked refl)
        (λ _.
          cancel_recurrence_cases (λ r. r.0 ≡ true → HasEnded (after_recurrence g now r).1) g
            (note_cancellation now x)
            (λ b calls e answer. after_recurrence-HasEnded b g now _ k.unasked answer)
            (answers-Keeps g now f x k h)))
  where
    Ends : Outcome × Focus → Type 0
    Ends r = HasEnded r.1

-- However often the cancellation of a subscription of which no refund was asked fails for want of an
-- answer of the provider, the first attempt that the provider answers leaves it canceled or suspended,
-- and no attempt changes until when the access was paid.
pub cancellation_succeeds :
    (tries : List (Gateway × Moment)) (g : Gateway) (now : Moment) (f : Focus)
    → f.subscription.refund_status ≡ no_refund
    → (cancel_provider_recurrence g f).0 ≡ true
    → let x = (request_subscription_cancellation g now (cancel_each tries f)).1 in
      (is_ended x.subscription.status ≡ true)
      × (x.subscription.access_until ≡ f.subscription.access_until)
cancellation_succeeds tries g now f unasked answered_then =
    let k = cancel_each-Keeps tries f f start in
    (
      answering_cancellation-HasEnded g now f _ k answered_then,
      (request_subscription_cancellation-Keeps g now f _ k).access,
    )
  where
    start : Keeps f f
    start = record {
      access = refl;
      unasked = unasked;
      method = refl;
      recurrence = refl;
      authorization = refl;
    }
