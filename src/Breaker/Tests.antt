-- ===== src/Breaker/Tests.antt =====
-- Runs of circuit breakers, and the theorems at concrete inputs.
use vela_flow_public.Prelude.{
  ℕ, zero, suc, ◌≤◌, ◌≡◌, ◌≢◌, refl, true, false, ◌&&◌, none, some, List, [], ◌∷◌, length, All,
  arith, String,
}
use vela_flow_public.Dict.{Dict, lookup, erase}
use vela_flow_public.Breaker.{
  closed, opened, half_open, default_config, Breaker, init, Op, execute, failure, poll, success,
  step, run, can_execute, record_failure, Attempt, attempts,
}
use vela_flow_public.Breaker.Invariant.{IsValid, test_calls, run-IsValid}
use vela_flow_public.Breaker.Trip.{
  failures, opens_at_threshold, opened_until_timeout, failed_test_reopens,
}
use vela_flow_public.Breaker.Recovery.{never_closes, exhausted_stays, recovers}
use vela_flow_public.Breaker.Retry.{returned, raised, Call, Policy, start, retry_with_backoff}
use vela_flow_public.Breaker.Retry.Bounds.{retry_bounds}
use vela_flow_public.Breaker.Retry.Results.{retry_first_success, retry_fallback, retry_opened}
use vela_flow_public.Breaker.Registry.{ServiceHealth, update, is_ready, is_ready-update}

abbrev todoist : Breaker
todoist = init "todoist" default_config

-- failures at 1 to 5, a rejected call, a granted one after the timeout, and its success
abbrev outage : List Op
outage =
    failure 1
    ∷ failure 2
    ∷ failure 3
    ∷ failure 4
    ∷ failure 5
    ∷ execute 30
    ∷ execute 65
    ∷ success
    ∷ poll 70
    ∷ []

run-outage : run outage todoist ≡ record todoist {
  state = half_open;
  failure_count = 5;
  success_count = 1;
  last_failure_time = 5;
  half_open_calls = 1;
}
unfolding run step
run-outage = refl

todoist-IsValid : IsValid todoist
todoist-IsValid = ground arith

run-IsValid_example : IsValid (run outage todoist) × (test_calls outage todoist 0 ≤ 1)
run-IsValid_example =
    run-IsValid outage todoist (record { fails = omega arith; heals = omega arith }) todoist-IsValid

opens_at_threshold_example :
    (failures (1 ∷ 2 ∷ 3 ∷ 4 ∷ 5 ∷ []) (init "n" default_config)).state ≡ opened
opens_at_threshold_example =
    opens_at_threshold "n" default_config (1 ∷ 2 ∷ 3 ∷ 4 ∷ 5 ∷ []) (omega arith)

abbrev down : Breaker
down = record todoist { state = opened; failure_count = 5; last_failure_time = 5 }

opened_until_timeout_example :
    ((can_execute 64 down).0 ≡ false) × ((can_execute 64 down).1.state ≡ opened)
opened_until_timeout_example = opened_until_timeout 64 down refl

failed_test_reopens_example :
    ((record_failure 70 (record down { state = half_open })).state ≡ opened)
    × ((can_execute 100 (record_failure 70 (record down { state = half_open }))).0 ≡ false)
failed_test_reopens_example =
    failed_test_reopens 70 100 (record down { state = half_open }) refl (omega arith)

abbrev tries : List Attempt
tries =
    (record { asked = 70; ended = 71; succeeds = true })
    ∷ (record { asked = 80; ended = 81; succeeds = true })
    ∷ []

never_closes_example : (attempts tries down).state ≢ closed
never_closes_example = never_closes tries down (omega arith) refl

abbrev tested : Breaker
tested = record down { state = half_open; half_open_calls = 1; success_count = 1 }

exhausted_stays_example : attempts tries tested ≡ tested
exhausted_stays_example = exhausted_stays tries tested refl (omega arith)

abbrev roomy : Breaker
roomy = record down { config = record default_config { half_open_max_calls = 2 } }

recovers_run : (attempts tries roomy).state ≡ closed
recovers_run =
    recovers (record { asked = 70; ended = 71; succeeds = true })
      ((record { asked = 80; ended = 81; succeeds = true }) ∷ []) roomy refl (omega arith)
      (refl, (refl, tt)) refl (omega arith)

abbrev policy : Policy
policy = record { max_retries = 3; base_delay = 1; max_delay = 30 }

abbrev flaky : ℕ → Call ℕ
flaky zero = record { asked = 0; ended = 1; outcome = raised "timeout" }
flaky (suc n) = record { asked = n; ended = n; outcome = returned 7 }

abbrev broken : ℕ → Call ℕ
broken n = record { asked = n; ended = n; outcome = raised "timeout" }

retry_bounds_run :
    let s = (retry_with_backoff broken policy none none).1 in
    (s.calls ≤ 4) × (length s.sleeps ≤ 3) × All (λ d. d ≤ 30) s.sleeps
retry_bounds_run = retry_bounds broken policy none none

raises_before_one : (i : ℕ) → suc i ≤ 1 → (x : String) × ((flaky i).outcome ≡ raised x)
raises_before_one zero h = ("timeout", refl)
raises_before_one (suc i) h = absurd (omega arith)

retry_first_success_example :
    ((retry_with_backoff flaky policy none none).0 ≡ returned 7)
    × ((retry_with_backoff flaky policy none none).1.calls ≡ 2)
retry_first_success_example =
    retry_first_success flaky policy 1 none 7 (omega arith) raises_before_one refl

retry_fallback_example :
    ((retry_with_backoff broken policy none (some (returned 0))).0 ≡ returned 0)
    × ((retry_with_backoff broken policy none (some (returned 0))).1.calls ≡ 4)
retry_fallback_example = retry_fallback broken policy (returned 0) (λ i. ("timeout", refl))

retry_opened_example :
    retry_with_backoff broken policy (some down) (some (returned 0))
    ≡ (returned 0, start (some down))
retry_opened_example = retry_opened broken policy down (returned 0) refl (omega arith)

retry_sleeps : (retry_with_backoff broken policy none none).1.sleeps ≡ 1 ∷ 2 ∷ 4 ∷ []
unfolding retry_with_backoff
retry_sleeps = refl

abbrev services : Dict ServiceHealth
services =
    (
      "todoist",
      record { name = "todoist"; healthy = true; last_check = 0; error = ""; latency_ms = 5 },
    )
    ∷ []

is_ready-update_example :
    is_ready (update 9 "todoist" false "down" 0 services)
    ≡ (false && is_ready (erase "todoist" services))
is_ready-update_example =
    is_ready-update 9 "todoist" false "down" 0 services (unfold lookup in (refl, tt))
