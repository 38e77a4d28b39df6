-- ===== src/Outbound/Worker/Laws.antt =====
-- The worker: its guards, and tasks in a row.
use Prim.Native.String.{String}
use whatsapp_atendimentos_ag.Prelude.{
  ℕ, suc, ◌≤◌, ◌≡◌, refl, sym, ◌∙◌, ap, subst, true, false, not, ◌||◌, Option, none, some, List, [],
  ◌∷◌, ◌==◌, ==_iff, if◌then◌else◌, if_cases, leb, Bool-cases, inl, inr, ◌⊎◌, arith, Option-cases,
}
use whatsapp_atendimentos_ag.Booking.Types.{Uuid}
use whatsapp_atendimentos_ag.Booking.Slots.{Instant}
use whatsapp_atendimentos_ag.Outbound.Types.{MessageStatus, Message, Payload, World}
use whatsapp_atendimentos_ag.Outbound.Gates.{Readings, Flags, flags_of, is_pending}
use whatsapp_atendimentos_ag.Outbound.Rows.{
  max_outbound_retry_attempts, current_outbound_retry_attempt, fail_outreach, note_sent, after_sent,
  mark_sent, mark_failed, mark_retry_pending,
}
use whatsapp_atendimentos_ag.Outbound.Worker.{
  Delivery, delivered, temporary, invalid_response, permanent, validation, Sender,
  send_with_fallback, Outcome, after_retry, after_delivery, deliver, guarded, process_stored,
  process_outbound_message, Task, run_tasks, accept,
}

-- How often an id is in a list.
abbrev pub count : Uuid → List Uuid → ℕ
count i [] = 0
count i (j ∷ js) = let rest = count i js in if j == i then suc rest else rest

abbrev Messages : Type 0
Messages = Uuid → Option Message

-- The messages stand under their ids, none is accepted twice, and one that still waits was not
-- accepted.
record IsGood (ms : Messages) (accepted : List Uuid) : Type 0 where
  keyed : (i : Uuid) (m : Message) → ms i ≡ some m → m.id ≡ i
  once : (i : Uuid) → count i accepted ≤ 1
  waits :
      (i : Uuid) (m : Message) → ms i ≡ some m → is_pending m.status ≡ true → count i accepted ≡ 0

abbrev changed : Uuid → (Message → Message) → Messages → Messages
changed i f ms = λ j. elim (ms j) [ none ↦ none | some m ↦ some (if j == i then f m else m) ]

-- A row of the changed messages is a changed row of the id or an untouched row of another.
changed-cases :
    (i j : Uuid) (f : Message → Message) (ms : Messages) (m : Message)
    → changed i f ms j ≡ some m
    → (x : Message) × (ms j ≡ some x) × (((j ≡ i) × (m ≡ f x)) ⊎ (((j == i) ≡ false) × (m ≡ x)))
changed-cases i j f ms m h = elim (Option-cases (ms j)) [
  | inl e ↦ ground (arith, h, e)
  | inr (x, e) ↦ elim (Bool-cases (j == i)) [
    | inl t ↦ (x, e, inl ((==_iff j i).0 t, ground (arith, h, e, t)))
    | inr t ↦ (x, e, inr (t, ground (arith, h, e, t)))
  ]
]

module _ (i : Uuid) (f : Message → Message) (ms : Messages) (accepted : List Uuid)
    (keeps : (x : Message) → (f x).id ≡ x.id) (g : IsGood ms accepted) where
  changed-keyed : (j : Uuid) (m : Message) → changed i f ms j ≡ some m → m.id ≡ j
  changed-keyed j m h =
      let (x, e, how) = changed-cases i j f ms m h in
      elim how [
        | inl (same, to) ↦ ap (λ (y : Message). y.id) to ∙ keeps x ∙ g.keyed j x e
        | inr (other, to) ↦ ap (λ (y : Message). y.id) to ∙ g.keyed j x e
      ]

  -- A change that makes no message wait that the provider has accepted.
  IsGood-changed :
      ((x : Message) → ms i ≡ some x → is_pending (f x).status ≡ true → count i accepted ≡ 0)
      → IsGood (changed i f ms) accepted
  IsGood-changed quiet = record {
    keyed = changed-keyed;
    once = g.once;
    waits = λ j m h p.
        let (x, e, how) = changed-cases i j f ms m h in
        elim how [
          | inl (same, to) ↦
              subst (λ k. count k accepted ≡ 0) (sym same)
                (quiet x (subst (λ k. ms k ≡ some x) same e)
                  (subst (λ (y : Message). is_pending y.status ≡ true) to p))
          | inr (other, to) ↦
              g.waits j x e (subst (λ (y : Message). is_pending y.status ≡ true) to p)
        ];
  }

  -- A message that the provider accepts, and that waits no longer.
  IsGood-accepted :
      ((x : Message) → is_pending (f x).status ≡ false)
      → count i accepted ≡ 0
      → IsGood (changed i f ms) (i ∷ accepted)
  IsGood-accepted closed fresh = record {
    keyed = changed-keyed;
    once = λ j.
        if_cases (λ n. n ≤ 1) (i == j)
          (λ t.
            let none_yet = subst (λ k. count k accepted ≡ 0) ((==_iff i j).0 t) fresh in
            omega (arith, none_yet))
          (λ t. g.once j);
    waits = λ j m h p.
        let (x, e, how) = changed-cases i j f ms m h in
        elim how [
          | inl (same, to) ↦ cc (closed x, p, ap (λ (y : Message). is_pending y.status) to)
          | inr (other, to) ↦
              (let rest =
                  g.waits j x e (subst (λ (y : Message). is_pending y.status ≡ true) to p) in
                ground (arith, other, rest))
        ];
  }

abbrev Good : World → Type 0
Good w = IsGood w.messages w.accepted

fail_outreach-Good : (o : Option Uuid) (w : World) → Good w → Good (fail_outreach o w)
unfolding fail_outreach
fail_outreach-Good none w g = g
fail_outreach-Good (some o) w g = g

mark_failed-Good : (m : Message) (w : World) → Good w → Good (mark_failed m w)
unfolding mark_failed
mark_failed-Good m w g = fail_outreach-Good _ _ (
    IsGood-changed m.id (λ x. record x { status = MessageStatus.failed }) w.messages w.accepted
      (λ x. refl) g (λ x e p. cc p))

after_sent-Good : (m : Message) (p : Option Payload) (w : World) → Good w → Good (after_sent m p w)
unfolding after_sent
after_sent-Good m none w g = g
after_sent-Good m (some p) w g = note_sent-Good p.outreach_id
  where
    note_sent-Good : (o : Option Uuid) → Good (note_sent m p o w)
    note_sent-Good none = g
    note_sent-Good (some o) = g

mark_sent-Good :
    (now : Instant) (m : Message) (provider_id : String) (w : World)
    → count m.id w.accepted ≡ 0
    → Good w
    → Good (mark_sent now m provider_id (accept m.id w))
unfolding mark_sent
mark_sent-Good now m provider_id w fresh g =
    after_sent-Good m m.outbound_payload _
      (IsGood-accepted m.id _ w.messages w.accepted (λ x. refl) g (λ x. refl) fresh)

mark_retry_pending-Good :
    (m : Message) (w : World) → count m.id w.accepted ≡ 0 → Good w → Good (mark_retry_pending m w).1
unfolding mark_retry_pending
mark_retry_pending-Good m w fresh g =
    if_cases (λ (x : Option ℕ × World). Good x.1)
      (leb max_outbound_retry_attempts (current_outbound_retry_attempt m.outbound_payload))
      (λ _. IsGood-changed m.id _ w.messages w.accepted (λ x. refl) g (λ x e p. fresh))
      (λ _. IsGood-changed m.id _ w.messages w.accepted (λ x. refl) g (λ x e p. fresh))

after_retry-Good : (o : Option ℕ) (w : World) → Good w → Good (after_retry (o, w)).1
unfolding after_retry
after_retry-Good none w g = g
after_retry-Good (some n) w g = g

after_delivery-Good :
    (now : Instant) (m : Message) (d : Delivery) (w : World)
    → count m.id w.accepted ≡ 0
    → Good w
    → Good (after_delivery now m d w).1
unfolding after_delivery
after_delivery-Good now m (delivered provider_id) w fresh g =
    mark_sent-Good now m provider_id w fresh g
after_delivery-Good now m temporary w fresh g = g
after_delivery-Good now m invalid_response w fresh g = g
after_delivery-Good now m permanent w fresh g =
    after_retry-Good _ _ (mark_retry_pending-Good m w fresh g)
after_delivery-Good now m validation w fresh g = mark_failed-Good m w g

deliver-Good :
    (now : Instant) (s : Option Sender) (m : Message) (w : World)
    → count m.id w.accepted ≡ 0
    → Good w
    → Good (deliver now s m w).1
unfolding deliver
deliver-Good now none m w fresh g = g
deliver-Good now (some c) m w fresh g = after_delivery-Good now m (send_with_fallback c m) w fresh g

guarded-Good :
    (r : Readings) (f : Flags) (s : Option Sender) (m : Message) (w : World)
    → (is_pending m.status ≡ true → count m.id w.accepted ≡ 0)
    → Good w
    → Good (guarded r f s m w).1
unfolding guarded
guarded-Good r f s m w fresh g =
    if_cases GoodEnd (not (is_pending m.status)) (λ _. g)
      (λ t.
        if_cases GoodEnd (f.automation_blocked || f.service_window_blocked || f.quota_blocked)
          (λ _. mark_failed-Good m w g)
          (λ _.
            if_cases GoodEnd (not r.recipient_is_individual) (λ _. mark_failed-Good m w g)
              (λ _. deliver-Good r.now s m w (fresh (ground (arith, t))) g)))
  where
    GoodEnd : Outcome × World → Type 0
    GoodEnd x = Good x.1

process_stored-Good :
    (r : Readings) (s : Option Sender) (o : Option Message) (i : Uuid) (w : World)
    → w.messages i ≡ o
    → Good w
    → Good (process_stored r s o w).1
unfolding process_stored
process_stored-Good r s none i w e g = g
process_stored-Good r s (some m) i w e g =
    guarded-Good r (flags_of r m) s m w
      (λ p. subst (λ k. count k w.accepted ≡ 0) (sym (g.keyed i m e)) (g.waits i m e p)) g

run_tasks-Good : (ts : List Task) (w : World) → Good w → Good (run_tasks ts w)
unfolding run_tasks process_outbound_message
run_tasks-Good [] w g = g
run_tasks-Good (t ∷ ts) w g =
    run_tasks-Good ts _
      (process_stored-Good t.readings t.sender (w.messages t.message_id) t.message_id w refl g)

-- Whatever tasks the queue runs, in whatever order and however often, whatever the guards read and
-- whatever the client answers, it returns the provider's id for a message at most once, if the
-- messages stand under their ids and none was accepted before.
pub run_tasks_once :
    (ts : List Task) (w : World) (i : Uuid)
    → ((j : Uuid) (m : Message) → w.messages j ≡ some m → m.id ≡ j)
    → w.accepted ≡ []
    → count i (run_tasks ts w).accepted ≤ 1
run_tasks_once ts w i keyed none_yet =
    (run_tasks-Good ts w (
        subst (IsGood w.messages) (sym none_yet)
          (record { keyed = keyed; once = λ j. omega arith; waits = λ j m e p. refl }))).once
      i

guarded_stops :
    (r : Readings) (f : Flags) (s : Option Sender) (m : Message) (w : World)
    → (is_pending m.status ≡ false)
      ⊎ (f.automation_blocked ≡ true)
      ⊎ (f.service_window_blocked ≡ true)
      ⊎ (f.quota_blocked ≡ true)
      ⊎ (r.recipient_is_individual ≡ false)
    → guarded r f s m w
      ≡ (if is_pending m.status then (Outcome.failed, mark_failed m w) else (Outcome.skipped, w))
unfolding guarded
guarded_stops r f s m w why = ground (arith, why)
