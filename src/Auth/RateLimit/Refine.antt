-- ===== src/Auth/RateLimit/Refine.antt =====
-- Calls in a row: the limiter and the limiter of the specification.
use whatsapp_atendimentos_ag.Prelude.{
  ℕ, ◌≤◌, ◌<◌, ◌≡◌, refl, sym, ap, ◌∙◌, subst, List, [], ◌∷◌, ◌++◌, leb, length, length-append,
  keep_if, if_cases, All-map, arith,
}
use whatsapp_atendimentos_ag.Auth.RateLimit.{
  Key, Limits, Limiter, no_attempts, prune, acquire_email, retry_after, Outcome, accepted, limited,
  acquire, pop, success, Call, acquires, succeeds, run,
}
use whatsapp_atendimentos_ag.Auth.RateLimit.Window.{
  counts, Spec, spec_acquire, spec_run, Ordered, Represents, window_of, Agrees, acquire-Agrees,
  add_accepted, attempts-acquire_email,
}

abbrev pub no_history : Spec
no_history = record { history = []; emails = [] }

record Matches (l : Limits) (t : ℕ) (x : Limiter) (y : Spec) : Type 0 where
  emails : x.emails ≡ y.emails
  attempts : Represents (window_of l) t x.attempts y.history

acquire-Matches :
    (l : Limits) (t now : ℕ) (k : Key) (x : Limiter) (y : Spec)
    → t ≤ now
    → Matches l t x y
    → Agrees l now (acquire l now k x) (spec_acquire l now k y)
acquire-Matches l t now k x y h m =
    subst
      (λ em.
        Agrees l now (acquire l now k (record { attempts = x.attempts; emails = em }))
          (spec_acquire l now k y))
      (sym m.emails) (acquire-Agrees l t now k x.attempts y.history y.emails h m.attempts)

Represents-later :
    (window t later : ℕ) (kept history : List ℕ)
    → t ≤ later
    → Represents window t kept history
    → Represents window later kept history
Represents-later window t later kept history h r = record {
  past = All-map kept (λ a le. omega (arith, le, h)) r.past;
  same = λ now le. r.same now (omega (arith, le, h));
}

run-Matches :
    (l : Limits) (cs : List Call) (t last : ℕ) (x : Limiter) (y : Spec)
    → Ordered t cs last
    → Matches l t x y
    → ((run l cs x).0 ≡ (spec_run l cs y).0) × Matches l last (run l cs x).1 (spec_run l cs y).1
unfolding run spec_run success
run-Matches l [] t last x y h m = (
  refl,
  record {
    emails = m.emails;
    attempts = Represents-later (window_of l) t last x.attempts y.history h m.attempts;
  },
)
run-Matches l (acquires now k ∷ cs) t last x y h m =
    let a = acquire-Matches l t now k x y h.0 m in
    let (same, after) =
      run-Matches l cs now last _ _ h.1 (record { emails = a.emails; attempts = a.attempts }) in
    (
      ap (λ o. o ∷ (run l cs (acquire l now k x).1).0) a.outcome
          ∙ ap (λ os. (spec_acquire l now k y).0 ∷ os) same,
      after,
    )
run-Matches l (succeeds k ∷ cs) t last x y h m =
    run-Matches l cs t last _ _ h (record { emails = ap (pop k) m.emails; attempts = m.attempts })

start-Matches : (l : Limits) → Matches l 0 no_attempts no_history
unfolding prune
start-Matches l = record { emails = refl; attempts = record { past = tt; same = λ now le. refl } }

length-prune : (now window : ℕ) (ts : List ℕ) → length (prune now window ts) ≤ length ts
unfolding prune
length-prune now window [] = omega arith
length-prune now window (t ∷ ts) = ground (arith, length-prune now window ts)

length-add_accepted :
    (now : ℕ) (o : Outcome) (ts : List ℕ) (n : ℕ)
    → length ts < n
    → length (add_accepted now o ts) ≤ n
length-add_accepted now accepted ts n h = omega (arith, h, length-append ts (now ∷ []))
length-add_accepted now (limited r) ts n h = omega (arith, h)

attempts-acquire :
    (l : Limits) (now : ℕ) (k : Key) (x : Limiter)
    → length x.attempts ≤ l.global_limit
    → length (acquire l now k x).1.attempts ≤ l.global_limit
unfolding acquire window_of
attempts-acquire l now k x h =
    if_cases (λ (r : Outcome × Limiter). length r.1.attempts ≤ l.global_limit)
      (leb l.global_limit (length counted))
      {x = (limited (retry_after now (window_of l) counted), record x { attempts = counted })}
      (λ _. omega (arith, length-prune now (window_of l) x.attempts, h))
      (λ room.
        subst (λ ts. length ts ≤ l.global_limit)
          (sym (attempts-acquire_email l now k counted x.emails))
          (length-add_accepted now (acquire_email l now k counted x.emails).0 counted l.global_limit
            (ground (arith, room))))
  where
    counted : List ℕ
    counted = prune now (window_of l) x.attempts

-- If the clock does not go back, the limiter, which forgets the attempts that have expired, answers
-- each call, with its Retry-After, and keeps the buckets of the accounts, as the limiter of the
-- specification, which counts the attempts of the last window in the whole history of accepted ones,
-- and then asks for less than the account's limit among the attempts in the account's bucket.
pub run_refines :
    (l : Limits) (cs : List Call) (last : ℕ)
    → Ordered 0 cs last
    → ((run l cs no_attempts).0 ≡ (spec_run l cs no_history).0)
      × ((run l cs no_attempts).1.emails ≡ (spec_run l cs no_history).1.emails)
run_refines l cs last h =
    let (same, after) = run-Matches l cs 0 last no_attempts no_history h (start-Matches l) in
    (same, after.emails)

attempts-run :
    (l : Limits) (cs : List Call) (x : Limiter)
    → length x.attempts ≤ l.global_limit
    → length (run l cs x).1.attempts ≤ l.global_limit
unfolding run success
attempts-run l [] x h = h
attempts-run l (acquires now k ∷ cs) x h = attempts-run l cs _ (attempts-acquire l now k x h)
attempts-run l (succeeds k ∷ cs) x h = attempts-run l cs _ h

-- The times of the attempts that the answers accept.
abbrev pub accepted_at : List Call → List Outcome → List ℕ
accepted_at [] os = []
accepted_at (succeeds k ∷ cs) os = accepted_at cs os
accepted_at (acquires now k ∷ cs) [] = []
accepted_at (acquires now k ∷ cs) (accepted ∷ os) = now ∷ accepted_at cs os
accepted_at (acquires now k ∷ cs) (limited r ∷ os) = accepted_at cs os

append_assoc : (xs ys zs : List ℕ) → (xs ++ ys) ++ zs ≡ xs ++ (ys ++ zs)
append_assoc [] ys zs = refl
append_assoc (x ∷ xs) ys zs = ap (λ ts. x ∷ ts) (append_assoc xs ys zs)

append_none : (xs : List ℕ) → xs ++ [] ≡ xs
append_none [] = refl
append_none (x ∷ xs) = ap (λ ts. x ∷ ts) (append_none xs)

accepted_then :
    (now : ℕ) (k : Key) (cs : List Call) (o : Outcome) (os : List Outcome) (history : List ℕ)
    → add_accepted now o history ++ accepted_at cs os
      ≡ history ++ accepted_at (acquires now k ∷ cs) (o ∷ os)
accepted_then now k cs accepted os history = append_assoc history (now ∷ []) (accepted_at cs os)
accepted_then now k cs (limited r) os history = refl

history-spec_acquire :
    (l : Limits) (now : ℕ) (k : Key) (y : Spec)
    → (spec_acquire l now k y).1.history ≡ add_accepted now (spec_acquire l now k y).0 y.history
unfolding spec_acquire
history-spec_acquire l now k y =
    if_cases (λ (x : Outcome × Spec). x.1.history ≡ add_accepted now x.0 y.history) _ (λ _. refl)
      (λ _. refl)

history-spec_run :
    (l : Limits) (cs : List Call) (y : Spec)
    → (spec_run l cs y).1.history ≡ y.history ++ accepted_at cs (spec_run l cs y).0
unfolding spec_run
history-spec_run l [] y = sym (append_none y.history)
history-spec_run l (acquires now k ∷ cs) y =
    history-spec_run l cs (spec_acquire l now k y).1
    ∙ ap (λ h. h ++ accepted_at cs (spec_run l cs (spec_acquire l now k y).1).0)
        (history-spec_acquire l now k y)
    ∙ accepted_then now k cs (spec_acquire l now k y).0 (spec_run l cs (spec_acquire l now k y).1).0
        y.history
history-spec_run l (succeeds k ∷ cs) y = history-spec_run l cs _

-- If the clock does not go back, then at each time, in whatever calls before it, the attempts that the
-- limiter accepted in the window that ends there are no more than the global limit.
pub run_window_bound :
    (l : Limits) (cs : List Call) (last : ℕ)
    → Ordered 0 cs last
    → length (keep_if (counts last (window_of l)) (accepted_at cs (run l cs no_attempts).0))
      ≤ l.global_limit
run_window_bound l cs last h =
    let (answers, after) = run-Matches l cs 0 last no_attempts no_history h (start-Matches l) in
    let same = after.attempts.same last (omega arith) in
    let times : (spec_run l cs no_history).1.history ≡ accepted_at cs (run l cs no_attempts).0 =
      history-spec_run l cs no_history ∙ ap (accepted_at cs) (sym answers) in
    let counted = ap length (same ∙ ap (keep_if (counts last (window_of l))) times) in
    omega (
      arith,
      counted,
      length-prune last (window_of l) (run l cs no_attempts).1.attempts,
      attempts-run l cs no_attempts (omega arith),
    )
