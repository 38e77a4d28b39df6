-- ===== src/Billing/Refunds/Laws.antt =====
-- The totals of a payment's refunds, and the one payment that a checkout's refund is of.
use whatsapp_atendimentos_ag.Prelude.{
  ℕ, ◌+◌, ◌≤◌, ◌<◌, ◌≡◌, refl, sym, ap, ◌∙◌, subst, ◌↔◌, ◌⊎◌, inl, inr, Bool, true, false, not,
  Option, none, some, List, [], ◌∷◌, ◌==◌, ==_iff, Bool-cases, keep_if, All, Any, All-map,
  All-keep_if, arith,
}
use mathlib.Core.Option.{some-injective}
use whatsapp_atendimentos_ag.Billing.Money.{payment_value_cents}
use whatsapp_atendimentos_ag.Billing.Types.{
  Reference, RefundState, done_refund, pending_refund, cancelled_refund, awaiting_refund,
  other_refund, Refund, Payment, PaymentState, confirmed, received, other_payment, Field, missing,
  malformed, reference, reference_of,
}
use whatsapp_atendimentos_ag.Billing.Refunds.{
  ProviderRefundStatus, Totals, no_totals, add_refund, add_refunds, classify,
  provider_refund_status, is_settled, pays, candidate, consed, matches, unique_matches, sole,
  resolve_from,
}

-- The cents of one refund that is done: 0 for another status or a value that is not readable.
abbrev done_cents_of : RefundState → Option ℕ → ℕ
done_cents_of done_refund (some c) = c
done_cents_of _ _ = 0

abbrev pub done_cents : List Refund → ℕ
done_cents [] = 0
done_cents (r ∷ rs) = done_cents_of r.status (payment_value_cents r.value) + done_cents rs

add_refund-done :
    (s : RefundState) (c : Option ℕ) (t : Totals)
    → (add_refund s c t).done ≡ t.done + done_cents_of s c
unfolding add_refund
add_refund-done done_refund none t = omega arith
add_refund-done pending_refund none t = omega arith
add_refund-done cancelled_refund none t = omega arith
add_refund-done awaiting_refund none t = omega arith
add_refund-done other_refund none t = omega arith
add_refund-done done_refund (some c) t = refl
add_refund-done pending_refund (some c) t = omega arith
add_refund-done cancelled_refund (some c) t = omega arith
add_refund-done awaiting_refund (some c) t = omega arith
add_refund-done other_refund (some c) t = omega arith

add_refunds-done :
    (rs : List Refund) (t : Totals) → (add_refunds rs t).done ≡ t.done + done_cents rs
unfolding add_refunds
add_refunds-done [] t = omega arith
add_refunds-done (r ∷ rs) t = omega (
  arith,
  add_refunds-done rs (add_refund r.status (payment_value_cents r.value) t),
  add_refund-done r.status (payment_value_cents r.value) t,
)

-- Nothing is done where no refund was observed.
abbrev Seen : Totals → Type 0
Seen t = t.observed ≡ false → t.done ≡ 0

add_refund-Seen : (s : RefundState) (c : Option ℕ) (t : Totals) → Seen t → Seen (add_refund s c t)
unfolding add_refund
add_refund-Seen s none t h = h
add_refund-Seen done_refund (some c) t h = λ e. cc e
add_refund-Seen pending_refund (some c) t h = λ e. cc e
add_refund-Seen cancelled_refund (some c) t h = λ e. cc e
add_refund-Seen awaiting_refund (some c) t h = λ e. cc e
add_refund-Seen other_refund (some c) t h = h

add_refunds-Seen : (rs : List Refund) (t : Totals) → Seen t → Seen (add_refunds rs t)
unfolding add_refunds
add_refunds-Seen [] t h = h
add_refunds-Seen (r ∷ rs) t h =
    add_refunds-Seen rs _ (add_refund-Seen r.status (payment_value_cents r.value) t h)

classify-done :
    (amount_cents : ℕ) (t : Totals)
    → 0 < amount_cents
    → Seen t
    → (some (classify amount_cents t) ≡ some ProviderRefundStatus.done) ↔ (amount_cents ≤ t.done)
unfolding classify
classify-done a t h seen = elim (Bool-cases t.observed) [
  | inl e ↦ rw e (ground arith)
  | inr e ↦ (let empty = seen e in rw e (ground (arith, empty, h)))
]

-- The refund of a checkout whose amount is above zero stands as done exactly when the refunds that the
-- provider shows as done come to the amount.
pub provider_refund_status_done_iff :
    (rs : List Refund) (amount_cents : ℕ)
    → 0 < amount_cents
    → (provider_refund_status rs amount_cents ≡ some ProviderRefundStatus.done)
      ↔ (amount_cents ≤ done_cents rs)
unfolding provider_refund_status
provider_refund_status_done_iff [] a h = ((λ e. cc e), λ k. absurd (omega (arith, h, k)))
provider_refund_status_done_iff (r ∷ rs) a h =
    subst
      (λ n.
        (some (classify a (add_refunds (r ∷ rs) no_totals)) ≡ some ProviderRefundStatus.done)
        ↔ (a ≤ n))
      (omega (arith, add_refunds-done (r ∷ rs) no_totals))
      (classify-done a (add_refunds (r ∷ rs) no_totals) h
        (add_refunds-Seen (r ∷ rs) no_totals (λ _. refl)))

-- What the list without repetitions says of all elements, it says of every one.
All-unique_matches :
    (P : Reference → Type 0) (rs : List Reference) → All P (unique_matches rs) → All P rs
unfolding unique_matches
All-unique_matches P [] h = tt
All-unique_matches P (r ∷ rs) h = (
  h.0,
  All-unique_matches P rs (
      All-map (unique_matches rs)
        (λ q other. elim (Bool-cases (q == r)) [
          | inl e ↦ subst P (sym ((==_iff q r).0 e)) h.0
          | inr e ↦ other (ap not e)
        ])
        (All-keep_if P (λ q. not (q == r)) (unique_matches rs) h.1)),
)

sole-All :
    (rs : List Reference) (r : Reference)
    → sole rs ≡ some r
    → All (λ q. q ≡ r) rs × Any (λ q. q ≡ r) rs
unfolding sole
sole-All [] r h = cc h
sole-All (q ∷ []) r h = ((some-injective q r h, tt), inl (some-injective q r h))
sole-All (q ∷ p ∷ rs) r h = cc h

Any-kept :
    (P : Reference → Type 0) (b : Bool) (r : Reference) (rest back : List Reference)
    → (Any P rest → Any P back)
    → Any P (elim b [ true ↦ r ∷ rest | false ↦ rest ])
    → P r ⊎ Any P back
Any-kept P true r rest back f (inl h) = inl h
Any-kept P true r rest back f (inr h) = inr (f h)
Any-kept P false r rest back f h = inr (f h)

Any-keep_if :
    (P : Reference → Type 0) (p : Reference → Bool) (rs : List Reference)
    → Any P (keep_if p rs)
    → Any P rs
Any-keep_if P p [] h = h
Any-keep_if P p (r ∷ rs) h = Any-kept P (p r) r (keep_if p rs) rs (Any-keep_if P p rs) h

Any-unique_matches :
    (P : Reference → Type 0) (rs : List Reference) → Any P (unique_matches rs) → Any P rs
unfolding unique_matches
Any-unique_matches P [] h = h
Any-unique_matches P (r ∷ rs) (inl p) = inl p
Any-unique_matches P (r ∷ rs) (inr m) =
    inr (Any-unique_matches P rs (Any-keep_if P (λ q. not (q == r)) (unique_matches rs) m))

Any-map :
    {P Q : Payment → Type 0} (ps : List Payment) → ((p : Payment) → P p → Q p) → Any P ps → Any Q ps
Any-map [] f h = h
Any-map (p ∷ ps) f (inl h) = inl (f p h)
Any-map (p ∷ ps) f (inr h) = inr (Any-map ps f h)

-- The payments whose status and amount fit the checkout, with their ids: confirmed, received or
-- refunded, of a value that is read as the amount.
pub record Fits (amount_cents : ℕ) (p : Payment) (r : Reference) : Type 0 where
  pub settled :
      (p.status ≡ confirmed) ⊎ ((p.status ≡ received) ⊎ (p.status ≡ PaymentState.refunded))
  pub value : payment_value_cents p.value ≡ some amount_cents
  pub id : p.id ≡ reference r

settled_state :
    (s : PaymentState)
    → is_settled s ≡ true
    → (s ≡ confirmed) ⊎ ((s ≡ received) ⊎ (s ≡ PaymentState.refunded))
settled_state confirmed h = inl refl
settled_state received h = inr (inl refl)
settled_state PaymentState.refunded h = inr (inr refl)
settled_state other_payment h = cc h

settled_test :
    (s : PaymentState)
    → (s ≡ confirmed) ⊎ ((s ≡ received) ⊎ (s ≡ PaymentState.refunded))
    → is_settled s ≡ true
settled_test s (inl e) = rw e refl
settled_test s (inr (inl e)) = rw e refl
settled_test s (inr (inr e)) = rw e refl

paid_value : (a : ℕ) (o : Option ℕ) → pays a o ≡ true → o ≡ some a
paid_value a none h = cc h
paid_value a (some c) h = ap some ((==_iff c a).0 h)

named : (f : Field) (r : Reference) → reference_of f ≡ some r → f ≡ reference r
named missing r h = cc h
named malformed r h = cc h
named (reference q) r h = ap reference (some-injective q r h)

candidate-Fits : (a : ℕ) (p : Payment) (r : Reference) → candidate a p ≡ some r → Fits a p r
unfolding candidate
candidate-Fits a p r h =
    let t : (is_settled p.status ≡ true)
        × (pays a (payment_value_cents p.value) ≡ true)
        × (reference_of p.id ≡ some r) =
      grind arith in
    record {
      settled = settled_state p.status t.0;
      value = paid_value a (payment_value_cents p.value) t.1;
      id = named p.id r t.2;
    }

Fits-candidate : (a : ℕ) (p : Payment) (r : Reference) → Fits a p r → candidate a p ≡ some r
unfolding candidate
Fits-candidate a p r h =
    rw (settled_test p.status h.settled, h.value, h.id, (==_iff a a).1 refl) refl

consed-All :
    (P : Reference → Type 0) (o : Option Reference) (rs : List Reference)
    → All P (consed o rs)
    → ((q : Reference) → o ≡ some q → P q) × All P rs
consed-All P none rs h = ((λ q e. cc e), h)
consed-All P (some r) rs h = ((λ q e. subst P (some-injective r q e) h.0), h.1)

consed-Any :
    (P : Reference → Type 0) (o : Option Reference) (rs : List Reference)
    → Any P (consed o rs)
    → ((q : Reference) × (o ≡ some q) × P q) ⊎ Any P rs
consed-Any P none rs h = inr h
consed-Any P (some r) rs (inl h) = inl (r, refl, h)
consed-Any P (some r) rs (inr h) = inr h

matches-All :
    (a : ℕ) (P : Reference → Type 0) (ps : List Payment)
    → All P (matches a ps)
    → All (λ p. (q : Reference) → candidate a p ≡ some q → P q) ps
unfolding matches
matches-All a P [] h = tt
matches-All a P (p ∷ ps) h =
    let (this, rest) = consed-All P (candidate a p) (matches a ps) h in
    (this, matches-All a P ps rest)

matches-Any :
    (a : ℕ) (P : Reference → Type 0) (ps : List Payment)
    → Any P (matches a ps)
    → Any (λ p. (q : Reference) × (candidate a p ≡ some q) × P q) ps
unfolding matches
matches-Any a P [] h = h
matches-Any a P (p ∷ ps) h = elim (consed-Any P (candidate a p) (matches a ps) h) [
  | inl this ↦ inl this
  | inr rest ↦ inr (matches-Any a P ps rest)
]

-- A refund is of the payment `r` only if some payment that the provider lists has this id, is
-- confirmed, received or refunded, and its value is read as the amount of the checkout, and no such
-- payment has another id.
pub resolve_from_sound :
    (amount_cents : ℕ) (ps : List Payment) (r : Reference)
    → resolve_from amount_cents (some ps) ≡ some r
    → Any (λ p. Fits amount_cents p r) ps
      × All (λ p. (q : Reference) → Fits amount_cents p q → q ≡ r) ps
unfolding resolve_from
resolve_from_sound a ps r h =
    let (all, some_one) = sole-All (unique_matches (matches a ps)) r h in
    let found =
      matches-Any a (λ q. q ≡ r) ps (Any-unique_matches (λ q. q ≡ r) (matches a ps) some_one) in
    (
      Any-map ps (λ p (q, e, same). candidate-Fits a p r (e ∙ ap some same)) found,
      All-map ps (λ p only q fits. only q (Fits-candidate a p q fits))
          (matches-All a (λ q. q ≡ r) ps (All-unique_matches (λ q. q ≡ r) (matches a ps) all)),
    )
