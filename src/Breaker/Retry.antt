-- ===== src/Breaker/Retry.antt =====
-- security/circuit_breaker.py: `retry_with_backoff`. What the function does at each attempt, and
-- the clock readings around it, are given by the environment.
pub mod Rounds
pub mod Bounds
pub mod Results
use vela_flow_public.Prelude.{
  ℕ, zero, suc, ◌+◌, ◌*◌, ◌^◌, min, String, Bool, true, false, Option, none, some, List, [], ◌∷◌,
  ◌++◌, ltb, if◌then◌else◌,
}
use vela_flow_public.Breaker.{Breaker, can_execute, record_success, record_failure}

-- How a call of Python ends; an exception is its text.
pub data Outcome {ℓ} (A : Type ℓ) : Type ℓ where
  returned : A → Outcome A
  raised : String → Outcome A

pub record Call {ℓ} (A : Type ℓ) : Type ℓ where
  pub asked : ℕ
  pub ended : ℕ
  pub outcome : Outcome A

pub record Policy : Type 0 where
  pub max_retries : ℕ
  pub base_delay : ℕ
  pub max_delay : ℕ

-- What the loop leaves behind: the breaker, the delays slept and the number of calls of `fn`.
pub record Progress : Type 0 where
  pub circuit_breaker : Option Breaker
  pub sleeps : List ℕ
  pub calls : ℕ

abbrev pub start : Option Breaker → Progress
start cb = record { circuit_breaker = cb; sleeps = []; calls = 0 }

unfoldable pub delay : Policy → ℕ → ℕ
delay p attempt = min (p.base_delay * 2 ^ attempt) p.max_delay

-- `circuit_breaker and not circuit_breaker.can_execute()` is the negation of `.0`
unfoldable pub allowed : ℕ → Progress → Bool × Progress
allowed now s = elim s.circuit_breaker [
  | none ↦ (true, s)
  | some b ↦
      let (granted, b') = can_execute now b in (granted, record s { circuit_breaker = some b' })
]

unfoldable pub succeeded : Progress → Progress
succeeded s = record s {
  circuit_breaker = elim s.circuit_breaker [ none ↦ none | some b ↦ some (record_success b) ];
  calls = s.calls + 1;
}

-- the `except` block: the breaker is told, and unless this was the last attempt the loop sleeps
unfoldable pub failed : Policy → ℕ → ℕ → Progress → Progress
unfolding delay
failed p attempt now s = record s {
  circuit_breaker = elim s.circuit_breaker [ none ↦ none | some b ↦ some (record_failure now b) ];
  sleeps = if ltb attempt p.max_retries then s.sleeps ++ delay p attempt ∷ [] else s.sleeps;
  calls = s.calls + 1;
}

-- How the loop ends: by a result, or with the last error, if any.
pub data Ended {ℓ} (A : Type ℓ) : Type ℓ where
  done : A → Ended A
  exhausted : Option String → Ended A

module _ {ℓ} {A : Type ℓ} where
  -- the first argument counts the rounds of `range(max_retries + 1)` that are left
  unfoldable pub loop :
      (ℕ → Call A) → Policy → ℕ → ℕ → Option String → Progress → Ended A × Progress
  loop env p zero attempt last s = (exhausted last, s)
  loop env p (suc rounds) attempt last s =
      let (granted, s') = allowed (env attempt).asked s in
      elim granted [
        | false ↦ (exhausted last, s')
        | true ↦ elim (env attempt).outcome [
          | returned a ↦ (done a, succeeded s')
          | raised e ↦
              loop env p rounds (attempt + 1) (some e) (failed p attempt (env attempt).ended s')
        ]
      ]

  -- what follows the loop: the fallback, or the last error
  unfoldable pub finish : Option (Outcome A) → Ended A → Outcome A
  finish fallback (done a) = returned a
  finish (some r) (exhausted last) = r
  finish none (exhausted (some e)) = raised e
  finish none (exhausted none) = raised "All retries exhausted with no error captured"

  unfoldable pub retry_with_backoff :
      (ℕ → Call A) → Policy → Option Breaker → Option (Outcome A) → Outcome A × Progress
  unfolding loop finish allowed succeeded failed
  retry_with_backoff env p cb fallback =
      let (e, s) = loop env p (p.max_retries + 1) 0 none (start cb) in (finish fallback e, s)
