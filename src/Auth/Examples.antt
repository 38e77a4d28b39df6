-- ===== src/Auth/Examples.antt =====
-- Two attempts a minute for everybody, two in fifteen minutes for an account.
use whatsapp_atendimentos_ag.Prelude.{◌*◌, ◌≤◌, ◌≡◌, refl, List, [], ◌∷◌, length, keep_if, arith}
use whatsapp_atendimentos_ag.Auth.RateLimit.{
  second, Limits, no_attempts, accepted, limited, Call, acquires, succeeds, run,
}
use whatsapp_atendimentos_ag.Auth.RateLimit.Window.{counts, spec_run, Ordered, window_of}
use whatsapp_atendimentos_ag.Auth.RateLimit.Refine.{
  no_history, accepted_at, run_refines, run_window_bound,
}
use whatsapp_atendimentos_ag.Auth.RateLimit.Buckets.{run_buckets}

abbrev limits : Limits
limits = record {
  global_limit = 2;
  global_window_seconds = 60;
  email_limit = 2;
  email_window_seconds = 900;
  max_email_buckets = 1;
}

abbrev calls : List Call
calls =
    acquires 0 7
    ∷ acquires (20 * second) 7
    ∷ acquires (50 * second) 8
    ∷ acquires (61 * second) 7
    ∷ succeeds 7
    ∷ acquires (81 * second) 8
    ∷ []

calls-Ordered : Ordered 0 calls (81 * second)
calls-Ordered =
    (omega arith, (omega arith, (omega arith, (omega arith, (omega arith, omega arith)))))

-- The third is one too many in its minute, the fourth one too many for its account.
run-calls :
    (run limits calls no_attempts).0
    ≡ accepted ∷ accepted ∷ limited 10 ∷ limited 839 ∷ accepted ∷ []
unfolding run
run-calls = refl

run_refines_example :
    ((run limits calls no_attempts).0 ≡ (spec_run limits calls no_history).0)
    × ((run limits calls no_attempts).1.emails ≡ (spec_run limits calls no_history).1.emails)
run_refines_example = run_refines limits calls (81 * second) calls-Ordered

run_window_bound_example :
    length (
      keep_if
        (counts (81 * second) (window_of limits))
        (accepted_at calls (run limits calls no_attempts).0))
    ≤ 2
run_window_bound_example = run_window_bound limits calls (81 * second) calls-Ordered

run_buckets_example : length (run limits calls no_attempts).1.emails ≤ 1
run_buckets_example = run_buckets limits calls no_attempts (omega arith) (omega arith)
