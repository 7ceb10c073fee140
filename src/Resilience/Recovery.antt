-- ===== src/Resilience/Recovery.antt =====
-- When a plain circuit breaker opens, rejects and closes.
use vela_flow_public.Prelude.{ℕ, ◌+◌, ◌≤◌, ◌<◌, ◌≡◌, some, List, [], ◌∷◌, leb, arith, if◌then◌else◌}
use vela_flow_public.Breaker.Retry.{returned, raised, Call}
use vela_flow_public.Resilience.{
  closed, opened, half_open, CircuitBreaker, begin, record_failure, record_success, finished,
  rejected, call, calls,
}

-- Between calls that do not overlap, the circuit is open exactly when the consecutive failures
-- have reached the threshold, and it is never half-open.
abbrev pub IsSettled : CircuitBreaker → Type 0
IsSettled b = elim b.state [
  | closed ↦ b.failure_count < b.failure_threshold
  | opened ↦ b.failure_threshold ≤ b.failure_count
  | half_open ↦ 1 ≤ 0
]

module _ {ℓ} {A : Type ℓ} where
  call-IsSettled :
      (c : Call A) (b : CircuitBreaker)
      → 1 ≤ b.failure_threshold
      → IsSettled b
      → IsSettled (call c b).1
  unfolding call begin record_failure record_success
  call-IsSettled c b pos h = ground arith

  threshold-call :
      (c : Call A) (b : CircuitBreaker) → (call c b).1.failure_threshold ≡ b.failure_threshold
  unfolding call begin record_failure record_success
  threshold-call c b = ground arith

  -- From a settled circuit with a threshold of at least one, after any sequence of calls that do
  -- not overlap, the circuit is closed with fewer consecutive failures than the threshold, or open
  -- with at least that many; it is never left half-open.
  pub calls-IsSettled :
      (cs : List (Call A)) (b : CircuitBreaker)
      → 1 ≤ b.failure_threshold
      → IsSettled b
      → IsSettled (calls cs b)
  unfolding calls
  calls-IsSettled [] b pos h = h
  calls-IsSettled (c ∷ cs) b pos h =
      calls-IsSettled cs (call c b).1 (omega (arith, threshold-call c b)) (call-IsSettled c b pos h)

  -- An open circuit answers by the timeout: before it ends, a call is rejected and changes nothing;
  -- from then on the call is made, and its success closes the circuit with no failures counted,
  -- while its failure, if the failures counted have reached the threshold, opens it again from
  -- the time of that failure.
  pub call_opened :
      (c : Call A) (b : CircuitBreaker)
      → b.state ≡ opened
      → b.failure_threshold ≤ b.failure_count
      → (call c b) ≡ (
          if leb (b.last_failure_time + b.reset_timeout) c.asked
          then elim c.outcome [
            | returned a ↦ (finished (returned a), record b { state = closed; failure_count = 0 })
            | raised e ↦ (
              finished (raised e),
              record b {
                state = opened;
                failure_count = b.failure_count + 1;
                last_failure_time = c.ended;
              },
            )
          ]
          else (rejected, b))
  unfolding call begin record_failure record_success
  call_opened c b h fails = ground arith

-- A call that began before the circuit opened and succeeds while it is open clears the count of
-- failures and leaves the circuit open. If the threshold is at least two, the test call after
-- the timeout can then fail without opening the circuit: it stays half-open, and every further
-- call is let through, at whatever time.
pub late_success :
    (b : CircuitBreaker) (asked ended later : ℕ)
    → b.state ≡ opened
    → 2 ≤ b.failure_threshold
    → b.last_failure_time + b.reset_timeout ≤ asked
    → let after = record_success b in
      let tested = record after { state = half_open } in
      let failed = record_failure ended tested in
      (after.state ≡ opened)
      × (begin asked after ≡ some tested)
      × (failed.state ≡ half_open)
      × (begin later failed ≡ some failed)
unfolding begin record_failure record_success
late_success b asked ended later h two le = ground arith
