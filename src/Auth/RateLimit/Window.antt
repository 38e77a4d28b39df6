-- ===== src/Auth/RateLimit/Window.antt =====
-- The global budget: a limiter that keeps the whole history of accepted attempts decides the same.
use whatsapp_atendimentos_ag.Prelude.{
  ℕ, ◌+◌, ◌*◌, ◌≤◌, ◌≡◌, refl, sym, ap, ◌∙◌, subst, inl, inr, Bool, true, false, not, List, [], ◌∷◌,
  ◌++◌, leb, ltb, length, keep_if, if◌then◌else◌, if_cases, Bool-cases, All, All-append, All-map,
  arith,
}
use whatsapp_atendimentos_ag.Auth.RateLimit.{
  Key, second, Limits, Bucket, Limiter, prune, bucket_of, put, cleanup_email_buckets, retry_after,
  acquire_email, Outcome, accepted, limited, acquire, pop, Call, acquires, succeeds,
}

-- An attempt counts for one window after it was made.
abbrev pub counts : ℕ → ℕ → ℕ → Bool
counts now window t = not (leb (t + window) now)

-- The limiter of the specification: all accepted attempts, oldest first, and the same buckets.
pub record Spec : Type 0 where
  pub history : List ℕ
  pub emails : List Bucket

abbrev pub add_accepted : ℕ → Outcome → List ℕ → List ℕ
add_accepted now accepted h = h ++ now ∷ []
add_accepted now (limited r) h = h

-- The account's part of the specification: the test, the wait and the buckets that are kept, written
-- anew; the buckets hold the attempts of the accounts that are not forgotten.
unfoldable pub spec_email : Limits → ℕ → Key → List Bucket → Outcome × List Bucket
spec_email l now k emails =
    let window = l.email_window_seconds * second in
    let recent = prune now window (bucket_of k emails) in
    if ltb (length recent) l.email_limit
    then (accepted, cleanup_email_buckets l now (put k (recent ++ now ∷ []) emails))
    else (limited (retry_after now window recent), put k recent emails)

unfoldable pub spec_acquire : Limits → ℕ → Key → Spec → Outcome × Spec
unfolding spec_email
spec_acquire l now k s =
    let window = l.global_window_seconds * second in
    let counted = keep_if (counts now window) s.history in
    if leb l.global_limit (length counted)
    then (limited (retry_after now window counted), s)
    else let (o, emails) = spec_email l now k s.emails in
      (o, record { history = add_accepted now o s.history; emails = emails })

unfoldable pub spec_run : Limits → List Call → Spec → List Outcome × Spec
unfolding spec_acquire pop
spec_run l [] s = ([], s)
spec_run l (acquires now k ∷ cs) s =
    let (o, s1) = spec_acquire l now k s in let (os, s2) = spec_run l cs s1 in (o ∷ os, s2)
spec_run l (succeeds k ∷ cs) s = spec_run l cs (record s { emails = pop k s.emails })

-- The clock does not go back.
abbrev pub Ordered : ℕ → List Call → ℕ → Type 0
Ordered t [] last = t ≤ last
Ordered t (acquires now k ∷ cs) last = (t ≤ now) × Ordered now cs last
Ordered t (succeeds k ∷ cs) last = Ordered t cs last

-- The attempts kept are, at every later time, those of the history that count.
pub record Represents (window t : ℕ) (kept history : List ℕ) : Type 0 where
  pub past : All (λ a. a ≤ t) kept
  pub same : (now : ℕ) → t ≤ now → prune now window kept ≡ keep_if (counts now window) history

prune-prune :
    (now later window : ℕ) (ts : List ℕ)
    → now ≤ later
    → prune later window (prune now window ts) ≡ prune later window ts
unfolding prune
prune-prune now later window [] h = refl
prune-prune now later window (t ∷ ts) h =
    let rest = prune-prune now later window ts h in ground (arith, h, rest)

prune-All : (P : ℕ → Type 0) (now window : ℕ) (ts : List ℕ) → All P ts → All P (prune now window ts)
unfolding prune
prune-All P now window [] h = tt
prune-All P now window (t ∷ ts) h =
    if_cases (All P) (leb (t + window) now) (λ _. prune-All P now window ts h.1) (λ _. h)

-- A new attempt is pruned after all older ones.
prune-append :
    (now t window : ℕ) (ts : List ℕ)
    → t ≤ now
    → All (λ a. a ≤ t) ts
    → prune now window (ts ++ t ∷ []) ≡ prune now window ts ++ keep_if (counts now window) (t ∷ [])
unfolding prune
prune-append now t window [] h p = ground arith
prune-append now t window (a ∷ ts) h p =
    let rest = prune-append now t window ts h p.1 in
    elim (Bool-cases (leb (a + window) now)) [
      | inl e ↦ rw e rest
      | inr e ↦ rw e (ap (λ zs. (a ∷ ts) ++ zs) (sym (still_counts e)))
    ]
  where
    still_counts : leb (a + window) now ≡ false → keep_if (counts now window) (t ∷ []) ≡ t ∷ []
    still_counts e = ground (arith, e, p.0)

kept_append :
    (b : Bool) (x : ℕ) (whole front back : List ℕ)
    → whole ≡ front ++ back
    → elim b [ true ↦ x ∷ whole | false ↦ whole ]
      ≡ elim b [ true ↦ x ∷ front | false ↦ front ] ++ back
kept_append true x whole front back e = ap (λ zs. x ∷ zs) e
kept_append false x whole front back e = e

keep_if-append :
    (p : ℕ → Bool) (xs ys : List ℕ) → keep_if p (xs ++ ys) ≡ keep_if p xs ++ keep_if p ys
keep_if-append p [] ys = refl
keep_if-append p (x ∷ xs) ys =
    kept_append (p x) x (keep_if p (xs ++ ys)) (keep_if p xs) (keep_if p ys)
      (keep_if-append p xs ys)

Represents-prune :
    (window t now : ℕ) (kept history : List ℕ)
    → t ≤ now
    → Represents window t kept history
    → Represents window now (prune now window kept) history
Represents-prune window t now kept history h r = record {
  past = prune-All _ now window kept (All-map kept (λ a le. omega (arith, le, h)) r.past);
  same = λ later le. prune-prune now later window kept le ∙ r.same later (omega (arith, le, h));
}

Represents-append :
    (window now : ℕ) (kept history : List ℕ)
    → Represents window now kept history
    → Represents window now (kept ++ now ∷ []) (history ++ now ∷ [])
Represents-append window now kept history r = record {
  past = All-append _ kept (now ∷ []) r.past (omega arith, tt);
  same = λ later le.
      prune-append later now window kept le r.past
      ∙ ap (λ ts. ts ++ keep_if (counts later window) (now ∷ [])) (r.same later le)
      ∙ sym (keep_if-append (counts later window) history (now ∷ []));
}

unfoldable pub window_of : Limits → ℕ
window_of l = l.global_window_seconds * second

-- The same outcome, the same buckets, and attempts that represent the history.
pub record Agrees (l : Limits) (t : ℕ) (x : Outcome × Limiter) (y : Outcome × Spec) : Type 0 where
  pub outcome : x.0 ≡ y.0
  pub emails : x.1.emails ≡ y.1.emails
  pub attempts : Represents (window_of l) t x.1.attempts y.1.history

agree_if :
    (l : Limits) (t : ℕ) (b : Bool) {x1 x2 : Outcome × Limiter} {y1 y2 : Outcome × Spec}
    → Agrees l t x1 y1
    → Agrees l t x2 y2
    → Agrees l t (if b then x1 else x2) (if b then y1 else y2)
agree_if l t true h k = h
agree_if l t false h k = k

pub attempts-acquire_email :
    (l : Limits) (now : ℕ) (k : Key) (counted : List ℕ) (emails : List Bucket)
    → let (o, after) = acquire_email l now k counted emails in
      after.attempts ≡ add_accepted now o counted
unfolding acquire_email
attempts-acquire_email l now k counted emails =
    if_cases (λ (x : Outcome × Limiter). x.1.attempts ≡ add_accepted now x.0 counted) _ (λ _. refl)
      (λ _. refl)

Represents-add_accepted :
    (window now : ℕ) (o : Outcome) (kept history : List ℕ)
    → Represents window now kept history
    → Represents window now (add_accepted now o kept) (add_accepted now o history)
Represents-add_accepted window now accepted kept history r =
    Represents-append window now kept history r
Represents-add_accepted window now (limited n) kept history r = r

less_or_not : (a b : ℕ) → leb b a ≡ not (ltb a b)
less_or_not a b = ground arith

spec_email_lem :
    (l : Limits) (now : ℕ) (k : Key) (counted : List ℕ) (emails : List Bucket)
    → spec_email l now k emails
      ≡ ((acquire_email l now k counted emails).0, (acquire_email l now k counted emails).1.emails)
unfolding spec_email acquire_email
spec_email_lem l now k counted emails =
    let window = l.email_window_seconds * second in
    let recent = prune now window (bucket_of k emails) in
    rw (less_or_not (length recent) l.email_limit)
      (elim (Bool-cases (ltb (length recent) l.email_limit)) [
        | inl t ↦ rw t refl
        | inr t ↦ rw t refl
      ])

pub acquire-Agrees :
    (l : Limits) (t now : ℕ) (k : Key) (kept history : List ℕ) (emails : List Bucket)
    → t ≤ now
    → Represents (window_of l) t kept history
    → Agrees l now
        (acquire l now k (record { attempts = kept; emails = emails }))
        (spec_acquire l now k (record { history = history; emails = emails }))
unfolding acquire spec_acquire window_of
acquire-Agrees l t now k kept history emails h r =
    subst
      (λ counted. Agrees l now (acquire l now k (record { attempts = kept; emails = emails })) (
        if leb l.global_limit (length counted)
        then (limited (retry_after now (window_of l) counted), s)
        else let (o, after) = spec_email l now k emails in
          (o, record { history = add_accepted now o history; emails = after })))
      (r.same now h)
      (rw (spec_email_lem l now k counted emails) (
        agree_if l now (leb l.global_limit (length counted))
          (record { outcome = refl; emails = refl; attempts = kept_now })
          (record {
            outcome = refl;
            emails = refl;
            attempts =
                subst (λ ts. Represents (window_of l) now ts (add_accepted now o history))
                  (sym (attempts-acquire_email l now k counted emails))
                  (Represents-add_accepted (window_of l) now o counted history kept_now);
          })))
  where
    s : Spec
    s = record { history = history; emails = emails }

    counted : List ℕ
    counted = prune now (window_of l) kept

    o : Outcome
    o = (acquire_email l now k counted emails).0

    kept_now : Represents (window_of l) now counted history
    kept_now = Represents-prune (window_of l) t now kept history h r
