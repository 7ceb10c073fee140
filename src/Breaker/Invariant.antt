-- ===== src/Breaker/Invariant.antt =====
-- The counters of a circuit breaker stay below the thresholds that its state implies.
use vela_flow_public.Prelude.{
  ℕ, ◌+◌, ◌≤◌, ◌<◌, ◌≡◌, ◌≢◌, refl, subst, Bool, true, false, List, [], ◌∷◌, arith, if◌then◌else◌,
}
use vela_flow_public.Breaker.{
  CircuitState, closed, half_open, can_execute, check_recovery, Config, Breaker, Op, execute,
  failure, poll, success, step, run,
}

pub record IsUsable (c : Config) : Type 0 where
  pub fails : 0 < c.failure_threshold
  pub heals : 0 < c.success_threshold

pub record IsValid (b : Breaker) : Type 0 where
  pub when_closed : b.state ≡ closed → b.failure_count < b.config.failure_threshold
  pub calls : b.state ≡ half_open → b.half_open_calls ≤ b.config.half_open_max_calls
  pub successes : b.success_count < b.config.success_threshold
  pub only_testing : b.state ≢ half_open → b.success_count ≡ 0

step-config : (o : Op) (b : Breaker) → (step o b).config ≡ b.config
unfolding step
step-config (execute now) b = ground arith
step-config (failure now) b = ground arith
step-config (poll now) b = ground arith
step-config success b = ground arith

step-IsValid : (o : Op) (b : Breaker) → IsUsable b.config → IsValid b → IsValid (step o b)
unfolding step
step-IsValid (execute now) b u v = ground arith
step-IsValid (failure now) b u v = ground arith
step-IsValid (poll now) b u v = ground arith
step-IsValid success b u v = ground arith

-- the answer of an operation that asks
abbrev lets : Op → Breaker → Bool
lets (execute now) b = (can_execute now b).0
lets o b = false

abbrev is_testing : CircuitState → Bool
is_testing half_open = true
is_testing s = false

-- The calls that are let through while the breaker is half-open without a break: the count begins
-- anew where it becomes half-open, and is 0 in any other state.
abbrev counted : Op → Breaker → ℕ → ℕ
counted o b n =
    let before = if is_testing b.state then n else 0 in
    if is_testing (step o b).state then before + (if lets o b then 1 else 0) else 0

abbrev pub test_calls : List Op → Breaker → ℕ → ℕ
test_calls [] b n = n
test_calls (o ∷ os) b n = test_calls os (step o b) (counted o b n)

-- the breaker's own count is not behind
record IsCounted (b : Breaker) (n : ℕ) : Type 0 where
  testing : b.state ≡ half_open → n ≤ b.half_open_calls
  otherwise : b.state ≢ half_open → n ≡ 0

step-IsCounted :
    (o : Op) (b : Breaker) (n : ℕ) → IsCounted b n → IsCounted (step o b) (counted o b n)
unfolding step can_execute check_recovery
step-IsCounted (execute now) b n c = ground arith
step-IsCounted (failure now) b n c = ground arith
step-IsCounted (poll now) b n c = ground arith
step-IsCounted success b n c = ground arith

begins : (b : Breaker) → IsCounted b 0
begins b = record { testing = λ h. omega arith; otherwise = λ h. refl }

counted_bound : (b : Breaker) (n : ℕ) → IsValid b → IsCounted b n → n ≤ b.config.half_open_max_calls
counted_bound b n v c = ground arith

test_calls-bound :
    (os : List Op) (b : Breaker) (n : ℕ)
    → IsUsable b.config
    → IsValid b
    → IsCounted b n
    → test_calls os b n ≤ b.config.half_open_max_calls
test_calls-bound [] b n u v c = counted_bound b n v c
test_calls-bound (o ∷ os) b n u v c =
    subst (λ g. test_calls os (step o b) (counted o b n) ≤ g.half_open_max_calls) (step-config o b)
      (test_calls-bound os (step o b) (counted o b n) (rw (step-config o b) u)
        (step-IsValid o b u v) (step-IsCounted o b n c))

counted_from : (os : List Op) (b : Breaker) → IsUsable b.config → IsValid b → IsValid (run os b)
unfolding run
counted_from [] b u v = v
counted_from (o ∷ os) b u v =
    counted_from os (step o b) (rw (step-config o b) u) (step-IsValid o b u v)

-- Whatever calls are made, from a valid breaker with positive thresholds, the breaker stays valid: a
-- closed one has counted fewer failures than its threshold, a half-open one counts at most
-- `half_open_max_calls` calls, and successes are counted below their threshold, in no state but
-- half-open. And of the calls that were made since the breaker last became half-open, at most
-- `half_open_max_calls` were let through; in a breaker that is half-open at first, they are counted
-- from there on.
pub run-IsValid :
    (os : List Op) (b : Breaker)
    → IsUsable b.config
    → IsValid b
    → IsValid (run os b) × (test_calls os b 0 ≤ b.config.half_open_max_calls)
run-IsValid os b u v = (counted_from os b u v, test_calls-bound os b 0 u v (begins b))
