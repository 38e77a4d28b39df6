-- ===== src/Auth/RateLimit.antt =====
-- app/auth/rate_limit.py: LoginRateLimiter. The clock is in microseconds; the key of an account is the
-- hash of its email address. The lock makes each call one step.
pub mod Window
pub mod Refine
pub mod Buckets
use whatsapp_atendimentos_ag.Prelude.{
  ℕ, suc, ◌+◌, ◌-◌, ◌*◌, ◌/◌, max, Bool, true, false, not, List, [], ◌∷◌, ◌++◌, ◌==◌, leb, ltb,
  length, if◌then◌else◌,
}

abbrev pub Key : Type 0
Key = ℕ

abbrev pub second : ℕ
second = 1000000

pub record Limits : Type 0 where
  pub global_limit : ℕ
  pub global_window_seconds : ℕ
  pub email_limit : ℕ
  pub email_window_seconds : ℕ
  pub max_email_buckets : ℕ

-- The entry of a key in `_emails`, oldest attempt first.
pub record Bucket : Type 0 where
  pub key : Key
  pub attempts : List ℕ

-- The buckets in the order in which their keys came in.
pub record Limiter : Type 0 where
  pub attempts : List ℕ
  pub emails : List Bucket

abbrev pub no_attempts : Limiter
no_attempts = record { attempts = []; emails = [] }

-- `_prune`: the comparison with `now - window`, which may lie before 0.
unfoldable pub prune : ℕ → ℕ → List ℕ → List ℕ
prune now window [] = []
prune now window (t ∷ ts) =
    let rest = prune now window ts in if leb (t + window) now then rest else t ∷ ts

-- `_retry_after` and `_limited`, in whole seconds.
unfoldable pub retry_after : ℕ → ℕ → List ℕ → ℕ
retry_after now window [] = 1
retry_after now window (t ∷ ts) = max 1 ((t + window - now + 999999) / second)

unfoldable pub bucket_of : Key → List Bucket → List ℕ
bucket_of k [] = []
bucket_of k (b ∷ bs) = let rest = bucket_of k bs in if b.key == k then b.attempts else rest

-- A new key comes last.
unfoldable pub put : Key → List ℕ → List Bucket → List Bucket
put k ts [] = (record { key = k; attempts = ts }) ∷ []
put k ts (b ∷ bs) =
    let rest = put k ts bs in if b.key == k then record b { attempts = ts } ∷ bs else b ∷ rest

unfoldable pub pop : Key → List Bucket → List Bucket
pop k [] = []
pop k (b ∷ bs) = let rest = pop k bs in if b.key == k then bs else b ∷ rest

-- A bucket whose attempts have all expired is deleted.
unfoldable pub kept : Key → List ℕ → List Bucket → List Bucket
kept k [] bs = bs
kept k (t ∷ ts) bs = (record { key = k; attempts = t ∷ ts }) ∷ bs

unfoldable pub sweep : ℕ → ℕ → List Bucket → List Bucket
unfolding kept prune
sweep now window [] = []
sweep now window (b ∷ bs) = kept b.key (prune now window b.attempts) (sweep now window bs)

-- The oldest keys go while there are too many.
unfoldable pub trim : ℕ → List Bucket → List Bucket
trim most [] = []
trim most (b ∷ bs) = let rest = trim most bs in if ltb most (length (b ∷ bs)) then rest else b ∷ bs

-- `_cleanup_email_buckets`
unfoldable pub cleanup_email_buckets : Limits → ℕ → List Bucket → List Bucket
unfolding sweep trim
cleanup_email_buckets l now bs =
    if leb (length bs) l.max_email_buckets
    then bs
    else trim l.max_email_buckets (sweep now (l.email_window_seconds * second) bs)

-- `limited` is HTTPException 429 with its Retry-After.
pub data Outcome : Type 0 where
  accepted : Outcome
  limited : ℕ → Outcome

-- Lines 88 to 97, with the attempts that the global budget still counts.
unfoldable pub acquire_email : Limits → ℕ → Key → List ℕ → List Bucket → Outcome × Limiter
unfolding prune retry_after bucket_of put cleanup_email_buckets
acquire_email l now k counted emails =
    let window = l.email_window_seconds * second in
    let bucket = prune now window (bucket_of k emails) in
    if leb l.email_limit (length bucket)
    then (
      limited (retry_after now window bucket),
      record { attempts = counted; emails = put k bucket emails },
    )
    else (
      accepted,
      record {
        attempts = counted ++ now ∷ [];
        emails = cleanup_email_buckets l now (put k (bucket ++ now ∷ []) emails);
      },
    )

-- `acquire`
unfoldable pub acquire : Limits → ℕ → Key → Limiter → Outcome × Limiter
unfolding prune retry_after acquire_email
acquire l now k s =
    let window = l.global_window_seconds * second in
    let counted = prune now window s.attempts in
    if leb l.global_limit (length counted)
    then (limited (retry_after now window counted), record s { attempts = counted })
    else acquire_email l now k counted s.emails

-- `success`
unfoldable pub success : Key → Limiter → Limiter
unfolding pop
success k s = record s { emails = pop k s.emails }

-- A call with the time that the clock shows, and calls in a row with their outcomes.
pub data Call : Type 0 where
  acquires : ℕ → Key → Call
  succeeds : Key → Call

unfoldable pub run : Limits → List Call → Limiter → List Outcome × Limiter
unfolding acquire success
run l [] s = ([], s)
run l (acquires now k ∷ cs) s =
    let (o, s1) = acquire l now k s in let (os, s2) = run l cs s1 in (o ∷ os, s2)
run l (succeeds k ∷ cs) s = run l cs (success k s)
