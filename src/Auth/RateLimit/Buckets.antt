-- ===== src/Auth/RateLimit/Buckets.antt =====
-- How many buckets the limiter keeps.
use whatsapp_atendimentos_ag.Prelude.{
  ℕ, ◌≤◌, ◌≡◌, refl, ◌⊎◌, inl, inr, List, [], ◌∷◌, ◌++◌, leb, leb→le, length, if_cases, arith, ◌*◌,
}
use whatsapp_atendimentos_ag.Auth.RateLimit.{
  Key, second, Limits, Bucket, Limiter, prune, bucket_of, put, pop, trim, cleanup_email_buckets,
  acquire_email, retry_after, limited, Outcome, acquire, success, Call, acquires, succeeds, run,
}

length-trim : (most : ℕ) (bs : List Bucket) → length (trim most bs) ≤ most
unfolding trim
length-trim most [] = omega arith
length-trim most (b ∷ bs) = ground (arith, length-trim most bs)

length-cleanup_email_buckets :
    (l : Limits) (now : ℕ) (bs : List Bucket)
    → length (cleanup_email_buckets l now bs) ≤ l.max_email_buckets
unfolding cleanup_email_buckets
length-cleanup_email_buckets l now bs =
    if_cases (λ (r : List Bucket). length r ≤ l.max_email_buckets)
      (leb (length bs) l.max_email_buckets) (λ t. leb→le _ _ t) (λ _. length-trim _ _)

-- The buckets grow only by a key that has none.
length-put :
    (k : Key) (ts : List ℕ) (bs : List Bucket)
    → (length (put k ts bs) ≡ length bs) ⊎ (bucket_of k bs ≡ [])
unfolding put bucket_of
length-put k ts [] = inr refl
length-put k ts (b ∷ bs) = let rest = length-put k ts bs in ground (arith, rest)

length-pop : (k : Key) (bs : List Bucket) → length (pop k bs) ≤ length bs
unfolding pop
length-pop k [] = omega arith
length-pop k (b ∷ bs) = ground (arith, length-pop k bs)

prune-empty : (now window : ℕ) (ts : List ℕ) → ts ≡ [] → length (prune now window ts) ≡ 0
unfolding prune
prune-empty now window [] e = refl
prune-empty now window (t ∷ ts) e = cc e

length-acquire_email :
    (l : Limits) (now : ℕ) (k : Key) (counted : List ℕ) (bs : List Bucket)
    → 1 ≤ l.email_limit
    → length bs ≤ l.max_email_buckets
    → length (acquire_email l now k counted bs).1.emails ≤ l.max_email_buckets
unfolding acquire_email
length-acquire_email l now k counted bs some_limit h =
    if_cases Bounded (leb l.email_limit (length bucket))
      {x = (
        limited (retry_after now window bucket),
        record { attempts = counted; emails = put k bucket bs },
      )}
      (λ full. elim (length-put k bucket bs) [
        | inl e ↦ omega (arith, e, h)
        | inr e ↦
            (let empty = prune-empty now window (bucket_of k bs) e in
              absurd (ground (arith, full, empty, some_limit)))
      ])
      (λ _. length-cleanup_email_buckets l now (put k (bucket ++ now ∷ []) bs))
  where
    window : ℕ
    window = l.email_window_seconds * second

    bucket : List ℕ
    bucket = prune now window (bucket_of k bs)

    Bounded : Outcome × Limiter → Type 0
    Bounded x = length x.1.emails ≤ l.max_email_buckets

length-acquire :
    (l : Limits) (now : ℕ) (k : Key) (s : Limiter)
    → 1 ≤ l.email_limit
    → length s.emails ≤ l.max_email_buckets
    → length (acquire l now k s).1.emails ≤ l.max_email_buckets
unfolding acquire
length-acquire l now k s some_limit h =
    if_cases (λ (x : Outcome × Limiter). length x.1.emails ≤ l.max_email_buckets)
      (leb l.global_limit (length counted))
      {x = (limited (retry_after now window counted), record s { attempts = counted })} (λ _. h)
      (λ _. length-acquire_email l now k counted s.emails some_limit h)
  where
    window : ℕ
    window = l.global_window_seconds * second

    counted : List ℕ
    counted = prune now window s.attempts

-- Where an account may make an attempt at all, no calls make the limiter keep more buckets than its
-- maximum.
pub run_buckets :
    (l : Limits) (cs : List Call) (s : Limiter)
    → 1 ≤ l.email_limit
    → length s.emails ≤ l.max_email_buckets
    → length (run l cs s).1.emails ≤ l.max_email_buckets
unfolding run success
run_buckets l [] s some_limit h = h
run_buckets l (acquires now k ∷ cs) s some_limit h =
    run_buckets l cs _ some_limit (length-acquire l now k s some_limit h)
run_buckets l (succeeds k ∷ cs) s some_limit h =
    run_buckets l cs _ some_limit (omega (arith, h, length-pop k s.emails))
