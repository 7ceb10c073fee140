-- ===== src/Breaker/Trip.antt =====
-- When a circuit breaker opens, and that an open one rejects calls until its timeout.
use vela_flow_public.Prelude.{
  ℕ, Bool-cases, inl, inr, leb, ◌&&◌, ◌+◌, ◌<◌, ◌≡◌, refl, false, String, List, [], ◌∷◌, length,
  arith, ltb, if◌then◌else◌,
}
use vela_flow_public.Breaker.{
  closed, opened, half_open, Config, Breaker, init, can_execute, record_failure,
}

-- Failures that are reported one after another, at the given times.
abbrev pub failures : List ℕ → Breaker → Breaker
failures [] b = b
failures (t ∷ ts) b = failures ts (record_failure t b)

opened_stays : (ts : List ℕ) (b : Breaker) → b.state ≡ opened → (failures ts b).state ≡ opened
opened_stays [] b h = h
opened_stays (t ∷ ts) b h =
    opened_stays ts (record_failure t b) (unfold record_failure in ground arith)

failures_from :
    (ts : List ℕ) (b : Breaker)
    → b.state ≡ closed
    → b.failure_count < b.config.failure_threshold
    → (failures ts b).state
      ≡ (if ltb (b.failure_count + length ts) b.config.failure_threshold then closed else opened)
failures_from [] b h lt = ground arith
failures_from (t ∷ ts) b h lt =
    elim (Bool-cases (ltb (b.failure_count + 1) b.config.failure_threshold)) [
      | inl more ↦
          rw
            (failures_from ts (record_failure t b) (unfold record_failure in ground arith)
              (unfold record_failure in ground arith))
            (unfold record_failure in ground arith)
      | inr trips ↦
          rw (opened_stays ts (record_failure t b) (unfold record_failure in ground arith))
            (ground arith)
    ]

-- From a new breaker, `failure_threshold` failures in a row open it, and fewer leave it closed.
pub opens_at_threshold :
    (name : String) (c : Config) (ts : List ℕ)
    → 0 < c.failure_threshold
    → (failures ts (init name c)).state
      ≡ (if ltb (length ts) c.failure_threshold then closed else opened)
opens_at_threshold name c ts h = ground (arith, failures_from ts (init name c) refl h)

-- An open breaker lets a call through exactly if its timeout has passed since the last failure and
-- `half_open_max_calls` is positive; it is half-open from that time on, and before it stays open.
pub opened_until_timeout :
    (now : ℕ) (b : Breaker)
    → b.state ≡ opened
    → let due = leb (b.last_failure_time + b.config.recovery_timeout) now in
      ((can_execute now b).0 ≡ (due && ltb 0 b.config.half_open_max_calls))
      × ((can_execute now b).1.state ≡ (if due then half_open else opened))
unfolding can_execute
opened_until_timeout now b h = ground arith

-- A failure reported while half-open opens the breaker again and restarts its timeout, so no call
-- is let through before the timeout has passed once more.
pub failed_test_reopens :
    (t now : ℕ) (b : Breaker)
    → b.state ≡ half_open
    → now < t + b.config.recovery_timeout
    → ((record_failure t b).state ≡ opened) × ((can_execute now (record_failure t b)).0 ≡ false)
unfolding can_execute record_failure
failed_test_reopens t now b h lt = ground arith
