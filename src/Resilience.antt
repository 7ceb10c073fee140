-- ===== src/Resilience.antt =====
-- security/resilience.py: the plain `CircuitBreaker`, `retry_with_backoff` and
-- `GracefulDegrader`. Each block under the breaker's lock is one step, so that the calls of
-- several threads are a sequence of `begin`, `record_failure` and `record_success`.
pub mod Degrader
pub mod Retry
pub mod Recovery
mod Tests
use vela_flow_public.Prelude.{
  ℕ, ◌+◌, String, Bool, true, false, Option, none, some, List, [], ◌∷◌, leb, if◌then◌else◌,
}
use vela_flow_public.Breaker.Retry.{Outcome, returned, raised, Call}

-- `CircuitState`; `OPEN` is `opened`
pub data CircuitState : Type 0 where
  closed opened half_open : CircuitState

pub record CircuitBreaker : Type 0 where
  pub name : String
  pub failure_threshold : ℕ
  pub reset_timeout : ℕ
  pub state : CircuitState
  pub failure_count : ℕ
  pub last_failure_time : ℕ

abbrev pub init : String → ℕ → ℕ → CircuitBreaker
init name failure_threshold reset_timeout = record {
  name = name;
  failure_threshold = failure_threshold;
  reset_timeout = reset_timeout;
  state = closed;
  failure_count = 0;
  last_failure_time = 0;
}

-- The block of `call` before the function runs; `none` is a `CircuitOpenError`.
unfoldable pub begin : ℕ → CircuitBreaker → Option CircuitBreaker
begin now b = elim b.state [
  | opened ↦
      if leb (b.last_failure_time + b.reset_timeout) now
      then some (record b { state = half_open })
      else none
  | _ ↦ some b
]

unfoldable pub record_failure : ℕ → CircuitBreaker → CircuitBreaker
record_failure now b =
    let counted = record b { failure_count = b.failure_count + 1; last_failure_time = now } in
    if leb b.failure_threshold (b.failure_count + 1)
    then record counted { state = opened }
    else counted

unfoldable pub record_success : CircuitBreaker → CircuitBreaker
record_success b =
    let cleared = record b { failure_count = 0 } in
    elim b.state [ half_open ↦ record cleared { state = closed } | _ ↦ cleared ]

unfoldable pub reset : CircuitBreaker → CircuitBreaker
reset b = record b { state = closed; failure_count = 0; last_failure_time = 0 }

-- How `call` ends: as the function does, or with a `CircuitOpenError`.
pub data CallResult {ℓ} (A : Type ℓ) : Type ℓ where
  finished : Outcome A → CallResult A
  rejected : CallResult A

module _ {ℓ} {A : Type ℓ} where
  unfoldable pub call : Call A → CircuitBreaker → CallResult A × CircuitBreaker
  call c b = elim (begin c.asked b) [
    | none ↦ (rejected, b)
    | some b' ↦ elim c.outcome [
      | returned a ↦ (finished (returned a), record_success b')
      | raised e ↦ (finished (raised e), record_failure c.ended b')
    ]
  ]

  -- calls that do not overlap, one after another
  unfoldable pub calls : List (Call A) → CircuitBreaker → CircuitBreaker
  calls [] b = b
  calls (c ∷ cs) b = calls cs (call c b).1
