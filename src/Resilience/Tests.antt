-- ===== src/Resilience/Tests.antt =====
-- The resilience patterns at work, and their theorems at concrete inputs.
use vela_flow_public.Prelude.{
  ℕ, zero, suc, ◌+◌, ◌≤◌, ◌≡◌, refl, some, List, [], ◌∷◌, All, str_eq, arith,
}
use vela_flow_public.Dict.{lookup}
use vela_flow_public.Breaker.Retry.{Outcome, returned, raised, Call}
use vela_flow_public.Resilience.{
  opened, half_open, CircuitBreaker, init, begin, record_failure, record_success, finished, call,
  calls,
}
use vela_flow_public.Resilience.Recovery.{IsSettled, calls-IsSettled, call_opened, late_success}
use vela_flow_public.Resilience.Degrader.{Execution, execute_all, last_error, degraded_exact}
use vela_flow_public.Resilience.Retry.{
  Policy, delay, delays, retries, retry_with_backoff, retry_exact,
}

abbrev fails : ℕ → Call ℕ
fails t = record { asked = t; ended = t; outcome = raised "timeout" }

abbrev works : ℕ → Call ℕ
works t = record { asked = t; ended = t; outcome = returned 7 }

abbrev notion : CircuitBreaker
notion = init "notion" 3 60

calls-IsSettled_run :
    IsSettled (calls (fails 1 ∷ fails 2 ∷ fails 3 ∷ works 10 ∷ works 63 ∷ []) notion)
calls-IsSettled_run =
    calls-IsSettled (fails 1 ∷ fails 2 ∷ fails 3 ∷ works 10 ∷ works 63 ∷ []) notion (omega arith)
      (omega arith)

abbrev down : CircuitBreaker
down = record notion { state = opened; failure_count = 3; last_failure_time = 3 }

down_calls : calls (fails 1 ∷ fails 2 ∷ fails 3 ∷ works 10 ∷ []) notion ≡ down
unfolding calls call begin record_failure record_success
down_calls = refl

call_opened_example :
    call (works 63) down ≡ (finished (returned 7), record notion { last_failure_time = 3 })
call_opened_example = call_opened (works 63) down refl (omega arith)

late_success_run :
    let after = record_success down in
    let tested = record after { state = half_open } in
    let failed = record_failure 70 tested in
    (after.state ≡ opened)
    × (begin 63 after ≡ some tested)
    × (failed.state ≡ half_open)
    × (begin 71 failed ≡ some failed)
late_success_run = late_success down 63 70 71 refl (omega arith) (omega arith)

abbrev work : List (Execution ℕ)
work =
    record { outcome = raised "down"; fallback = 0; operation = "todoist" }
    ∷ record { outcome = returned 5; fallback = 0; operation = "todoist" }
    ∷ record { outcome = raised "late"; fallback = 0; operation = "notion" }
    ∷ []

degraded-work : lookup "notion" (execute_all work []) ≡ some "late"
unfolding last_error lookup
degraded-work = degraded_exact "notion" work []

degraded_exact_run :
    lookup "todoist" (execute_all work []) ≡ last_error "todoist" work (lookup "todoist" [])
degraded_exact_run = degraded_exact "todoist" work []

abbrev policy : Policy
policy = record {
  max_retries = 3;
  base_delay = 1;
  max_delay = 30;
  backoff_factor = 2;
  retryable = λ e. str_eq e "timeout";
}

abbrev flaky : ℕ → Outcome ℕ
flaky zero = raised "timeout"
flaky (suc zero) = raised "timeout"
flaky (suc (suc n)) = raised "bad request"

retry-flaky :
    retry_with_backoff flaky policy
    ≡ (raised "bad request", record { sleeps = 1 ∷ 2 ∷ []; calls = 3 })
unfolding retries delays delay
retry-flaky = (retry_exact flaky policy).0

retry_exact_example :
    let n = retries flaky policy 3 0 in
    (retry_with_backoff flaky policy
      ≡ (flaky n, record { sleeps = delays policy 0 n; calls = n + 1 }))
    × (n ≤ 3)
    × All (λ d. d ≤ 30) (delays policy 0 n)
retry_exact_example = retry_exact flaky policy
