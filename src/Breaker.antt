-- ===== src/Breaker.antt =====
-- security/circuit_breaker.py: `CircuitBreaker`. A time is a number of ticks of the monotonic
-- clock, and each method takes the reading that it makes. The lock makes every method one step.
pub mod Registry
pub mod Retry
pub mod Invariant
pub mod Trip
pub mod Recovery
mod Tests
use vela_flow_public.Prelude.{
  ℕ, ◌+◌, ◌-◌, String, Bool, true, false, Option, none, some, List, [], ◌∷◌, ltb, leb,
  if◌then◌else◌,
}

-- `CircuitState`; `OPEN` is `opened`
pub data CircuitState : Type 0 where
  closed opened half_open : CircuitState

pub record Config : Type 0 where
  pub failure_threshold : ℕ
  pub recovery_timeout : ℕ
  pub half_open_max_calls : ℕ
  pub success_threshold : ℕ

-- the defaults, with a tick of a second
abbrev pub default_config : Config
default_config = record {
  failure_threshold = 5;
  recovery_timeout = 60;
  half_open_max_calls = 1;
  success_threshold = 2;
}

pub record Breaker : Type 0 where
  pub name : String
  pub config : Config
  pub state : CircuitState
  pub failure_count : ℕ
  pub success_count : ℕ
  pub last_failure_time : ℕ
  pub half_open_calls : ℕ

abbrev pub init : String → Config → Breaker
init name config = record {
  name = name;
  config = config;
  state = closed;
  failure_count = 0;
  success_count = 0;
  last_failure_time = 0;
  half_open_calls = 0;
}

-- `now - last_failure_time >= recovery_timeout`, with the subtraction moved to the other side
unfoldable pub check_recovery : ℕ → Breaker → Breaker
check_recovery now b = elim b.state [
  | opened ↦
      if leb (b.last_failure_time + b.config.recovery_timeout) now
      then record b { state = half_open; half_open_calls = 0; success_count = 0 }
      else b
  | _ ↦ b
]

-- the part of `can_execute` after `_check_recovery`
admit : Breaker → Bool × Breaker
admit b = elim b.state [
  | closed ↦ (true, b)
  | half_open ↦
      if ltb b.half_open_calls b.config.half_open_max_calls
      then (true, record b { half_open_calls = b.half_open_calls + 1 })
      else (false, b)
  | opened ↦ (false, b)
]

unfoldable pub can_execute : ℕ → Breaker → Bool × Breaker
unfolding check_recovery admit
can_execute now b = admit (check_recovery now b)

unfoldable pub record_success : Breaker → Breaker
record_success b = elim b.state [
  | half_open ↦
      if leb b.config.success_threshold (b.success_count + 1)
      then record b { state = closed; failure_count = 0; success_count = 0 }
      else record b { success_count = b.success_count + 1 }
  | _ ↦ record b { failure_count = 0 }
]

unfoldable pub record_failure : ℕ → Breaker → Breaker
record_failure now b =
    let counted = record b { failure_count = b.failure_count + 1; last_failure_time = now } in
    elim b.state [
      | half_open ↦ record counted { state = opened; half_open_calls = 0; success_count = 0 }
      | _ ↦
          if leb b.config.failure_threshold (b.failure_count + 1)
          then record counted { state = opened }
          else counted
    ]

pub record Status : Type 0 where
  pub name : String
  pub state : CircuitState
  pub failure_count : ℕ
  pub last_failure_age : Option ℕ

-- `get_status` polls the recovery too, so it can change the state
unfoldable pub get_status : ℕ → Breaker → Status × Breaker
unfolding check_recovery
get_status now b =
    let b' = check_recovery now b in
    (
      record {
        name = b'.name;
        state = b'.state;
        failure_count = b'.failure_count;
        last_failure_age =
            if ltb 0 b'.last_failure_time then some (now - b'.last_failure_time) else none;
      },
      b',
    )

-- The calls that clients make, in any order and from any thread.
pub data Op : Type 0 where
  execute failure poll : ℕ → Op
  success : Op

unfoldable pub step : Op → Breaker → Breaker
unfolding can_execute record_success record_failure get_status
step (execute now) b = (can_execute now b).1
step (failure now) b = record_failure now b
step (poll now) b = (get_status now b).1
step success b = record_success b

unfoldable pub run : List Op → Breaker → Breaker
run [] b = b
run (o ∷ os) b = run os (step o b)

-- One call of a client that follows the usage note of the class: it asks, calls the service if it
-- may, and reports how the call ended.
pub record Attempt : Type 0 where
  pub asked : ℕ
  pub ended : ℕ
  pub succeeds : Bool

unfoldable pub attempt : Attempt → Breaker → Breaker
attempt a b =
    let (granted, b') = can_execute a.asked b in
    if granted then (if a.succeeds then record_success b' else record_failure a.ended b') else b'

unfoldable pub attempts : List Attempt → Breaker → Breaker
attempts [] b = b
attempts (a ∷ rest) b = attempts rest (attempt a b)
