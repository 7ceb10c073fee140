-- ===== src/Breaker/Recovery.antt =====
-- How a half-open circuit breaker recovers, for a client that makes one call after another.
use vela_flow_public.Prelude.{
  ap, ◌∙◌, ◌+◌, ◌≤◌, ◌<◌, ◌≡◌, ◌≢◌, refl, true, List, [], ◌∷◌, length, All, arith,
}
use vela_flow_public.Breaker.{
  closed, opened, half_open, Breaker, can_execute, record_success, record_failure, Attempt, attempt,
  attempts,
}

-- Of a breaker that has opened: each success was counted after a call was let through, and the
-- calls that were let through are within their limit.
record IsTripped (b : Breaker) : Type 0 where
  not_closed : b.state ≢ closed
  counted : b.state ≡ half_open → b.success_count ≤ b.half_open_calls
  within : b.state ≡ half_open → b.half_open_calls ≤ b.config.half_open_max_calls

attempt-config : (a : Attempt) (b : Breaker) → (attempt a b).config ≡ b.config
unfolding attempt can_execute record_success record_failure
attempt-config a b = ground arith

attempt-IsTripped :
    (a : Attempt) (b : Breaker)
    → b.config.half_open_max_calls < b.config.success_threshold
    → IsTripped b
    → IsTripped (attempt a b)
unfolding attempt can_execute record_success record_failure
attempt-IsTripped a b few v = ground arith

attempts-IsTripped :
    (calls : List Attempt) (b : Breaker)
    → b.config.half_open_max_calls < b.config.success_threshold
    → IsTripped b
    → IsTripped (attempts calls b)
unfolding attempts
attempts-IsTripped [] b few v = v
attempts-IsTripped (a ∷ calls) b few v =
    attempts-IsTripped calls (attempt a b) (rw attempt-config few) (attempt-IsTripped a b few v)

-- Where fewer calls may be made half-open than successes are needed to close, as in the default
-- configuration (1 and 2), an open breaker never closes again, whatever calls a client makes one
-- after another and however they end.
pub never_closes :
    (calls : List Attempt) (b : Breaker)
    → b.config.half_open_max_calls < b.config.success_threshold
    → b.state ≡ opened
    → (attempts calls b).state ≢ closed
never_closes calls b few h =
    (attempts-IsTripped calls b few (record {
      not_closed = ground arith;
      counted = ground arith;
      within = ground arith;
    })).not_closed

-- Once half-open with all its calls made, a breaker lets no further call through at any time, and
-- no attempt changes it.
pub exhausted_stays :
    (calls : List Attempt) (b : Breaker)
    → b.state ≡ half_open
    → b.config.half_open_max_calls ≤ b.half_open_calls
    → attempts calls b ≡ b
unfolding attempts attempt can_execute
exhausted_stays [] b h full = refl
exhausted_stays (a ∷ calls) b h full = ground (arith, exhausted_stays calls b h full)

abbrev pub Succeeds : Attempt → Type 0
Succeeds a = a.succeeds ≡ true

recovers_from :
    (calls : List Attempt) (b : Breaker)
    → All Succeeds calls
    → b.state ≡ half_open
    → b.success_count + length calls ≡ b.config.success_threshold
    → b.half_open_calls + length calls ≤ b.config.half_open_max_calls
    → 0 < length calls
    → (attempts calls b).state ≡ closed
unfolding attempts
recovers_from [] b ok h n room some_left = absurd (omega arith)
recovers_from (a ∷ []) b ok h n room some_left =
    unfold attempt can_execute record_success in ground arith
recovers_from (a ∷ a' ∷ calls) b ok h n room some_left =
    recovers_from (a' ∷ calls) (attempt a b) ok.1
      (unfold attempt can_execute record_success in ground arith)
      (unfold attempt can_execute record_success in ground arith)
      (unfold attempt can_execute record_success in ground arith) (omega arith)

-- `b` as the recovery check leaves it
abbrev fresh : Breaker → Breaker
fresh b = record b { state = half_open; half_open_calls = 0; success_count = 0 }

attempt-fresh :
    (a : Attempt) (b : Breaker)
    → b.state ≡ opened
    → b.last_failure_time + b.config.recovery_timeout ≤ a.asked
    → attempt a b ≡ attempt a (fresh b)
unfolding attempt can_execute
attempt-fresh a b h due = ground arith

-- Where at least as many calls may be made half-open as successes are needed, an open breaker whose
-- timeout has passed at the first of `success_threshold` successful calls, made one after another,
-- is closed after the last.
pub recovers :
    (a : Attempt) (calls : List Attempt) (b : Breaker)
    → b.state ≡ opened
    → b.last_failure_time + b.config.recovery_timeout ≤ a.asked
    → All Succeeds (a ∷ calls)
    → length (a ∷ calls) ≡ b.config.success_threshold
    → b.config.success_threshold ≤ b.config.half_open_max_calls
    → (attempts (a ∷ calls) b).state ≡ closed
unfolding attempts
recovers a calls b h due ok n room =
    ap (λ c. (attempts calls c).state) (attempt-fresh a b h due)
    ∙ recovers_from (a ∷ calls) (fresh b) ok refl (omega arith) (omega arith) (omega arith)
