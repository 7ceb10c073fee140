-- ===== src/Breaker/Retry/Bounds.antt =====
-- How often `retry_with_backoff` calls its function, how long it sleeps, and what it returns.
use vela_flow_public.Prelude.{
  inl, inr, Bool-cases, ℕ, zero, suc, ◌+◌, ◌≤◌, min, String, Option, none, some, [], ◌∷◌, length,
  All, All-append, length-append, arith,
}
use vela_flow_public.Breaker.{Breaker}
use vela_flow_public.Breaker.Retry.{
  Outcome, Call, Policy, Progress, start, delay, allowed, succeeded, failed, loop,
  retry_with_backoff,
}
use vela_flow_public.Breaker.Retry.Rounds.{Outcome-cases, loop-refused, loop-returned, loop-raised}

abbrev Capped : Policy → ℕ → Type 0
Capped p d = d ≤ p.max_delay

-- within a loop that has `rounds` rounds left at attempt number `attempt`
record IsWithin (p : Policy) (attempt : ℕ) (s : Progress) : Type 0 where
  capped : All (Capped p) s.sleeps
  called : s.calls ≤ attempt
  slept : length s.sleeps ≤ min attempt p.max_retries

allowed-IsWithin :
    (p : Policy) (attempt now : ℕ) (s : Progress)
    → IsWithin p attempt s
    → IsWithin p attempt (allowed now s).1
unfolding allowed
allowed-IsWithin p attempt now s w = ground arith

succeeded-IsWithin :
    (p : Policy) (attempt : ℕ) (s : Progress)
    → IsWithin p attempt s
    → IsWithin p (attempt + 1) (succeeded s)
unfolding succeeded
succeeded-IsWithin p attempt s w = ground arith

delay-Capped : (p : Policy) (n : ℕ) → delay p n ≤ p.max_delay
unfolding delay
delay-Capped p n = omega arith

failed-IsWithin :
    (p : Policy) (attempt now : ℕ) (s : Progress)
    → IsWithin p attempt s
    → IsWithin p (attempt + 1) (failed p attempt now s)
unfolding failed
failed-IsWithin p attempt now s w = ground (
  arith,
  All-append (Capped p) s.sleeps (delay p attempt ∷ []) w.capped (delay-Capped p attempt, tt),
  length-append s.sleeps (delay p attempt ∷ []),
)

IsWithin-mono : (p : Policy) (m n : ℕ) (s : Progress) → m ≤ n → IsWithin p m s → IsWithin p n s
IsWithin-mono p m n s le w = ground arith

module _ {ℓ} {A : Type ℓ} (env : ℕ → Call A) (p : Policy) where
  loop-IsWithin :
      (rounds attempt : ℕ) (last : Option String) (s : Progress)
      → IsWithin p attempt s
      → IsWithin p (attempt + rounds) (loop env p rounds attempt last s).1
  unfolding loop
  loop-IsWithin zero attempt last s w = IsWithin-mono p attempt (attempt + 0) s (omega arith) w
  loop-IsWithin (suc rounds) attempt last s w =
      let now = (env attempt).asked in
      let s' = (allowed now s).1 in
      let w' = allowed-IsWithin p attempt now s w in
      elim (Bool-cases (allowed now s).0) [
        | inl granted ↦ elim (Outcome-cases (env attempt).outcome) [
          | inl (a, e) ↦ rw (loop-returned env p rounds attempt last s a granted e) (
              IsWithin-mono p (attempt + 1) (attempt + suc rounds) (succeeded s') (omega arith)
                (succeeded-IsWithin p attempt s' w'))
          | inr (x, e) ↦ rw (loop-raised env p rounds attempt last s x granted e) (
              IsWithin-mono p (attempt + 1 + rounds) (attempt + suc rounds) _ (omega arith) (
                loop-IsWithin rounds (attempt + 1) (some x)
                  (failed p attempt (env attempt).ended s')
                  (failed-IsWithin p attempt (env attempt).ended s' w')))
        ]
        | inr refused ↦
            rw (loop-refused env p rounds attempt last s refused)
              (IsWithin-mono p attempt (attempt + suc rounds) s' (omega arith) w')
      ]

  -- The function is called at most `max_retries + 1` times, at most `max_retries` delays are slept,
  -- and each is at most `max_delay`, whatever the function does and whatever the breaker answers.
  pub retry_bounds :
      (cb : Option Breaker) (fallback : Option (Outcome A))
      → let s = (retry_with_backoff env p cb fallback).1 in
        (s.calls ≤ p.max_retries + 1)
        × (length s.sleeps ≤ p.max_retries)
        × All (λ d. d ≤ p.max_delay) s.sleeps
  unfolding retry_with_backoff
  retry_bounds cb fallback =
      let w =
        loop-IsWithin (p.max_retries + 1) 0 none (start cb)
          (record { capped = tt; called = omega arith; slept = omega arith }) in
      (omega arith, omega arith, w.capped)
