-- ===== src/Resilience/Retry.antt =====
-- security/resilience.py: the decorator `retry_with_backoff`, whose policy names the exceptions
-- that are retried, by their texts; the others leave the loop at once. Delays are numbers of ticks,
-- and the factor of the backoff is a whole number.
use vela_flow_public.Prelude.{
  ℕ, zero, suc, ◌+◌, ◌*◌, ◌^◌, ◌≤◌, ◌≡◌, min, String, Bool, true, false, List, [], ◌∷◌, ◌++◌, All,
  if◌then◌else◌, arith, ◌∙◌, Bool-cases, inl, inr,
}
use mathlib.Core.List.{append-nil, append_assoc}
use vela_flow_public.Breaker.Retry.Rounds.{Outcome-cases}
use vela_flow_public.Breaker.Retry.{Outcome, returned, raised}

pub record Policy : Type 0 where
  pub max_retries : ℕ
  pub base_delay : ℕ
  pub max_delay : ℕ
  pub backoff_factor : ℕ
  pub retryable : String → Bool

-- what the loop leaves behind: the delays slept and the number of calls of `func`
pub record Progress : Type 0 where
  pub sleeps : List ℕ
  pub calls : ℕ

unfoldable pub delay : Policy → ℕ → ℕ
delay p attempt = min (p.base_delay * p.backoff_factor ^ attempt) p.max_delay

-- the delays after the attempts from number `attempt` on, `n` of them
unfoldable pub delays : Policy → ℕ → ℕ → List ℕ
delays p attempt zero = []
delays p attempt (suc n) = delay p attempt ∷ delays p (attempt + 1) n

delays-capped : (p : Policy) (attempt n : ℕ) → All (λ d. d ≤ p.max_delay) (delays p attempt n)
unfolding delays delay
delays-capped p attempt zero = tt
delays-capped p attempt (suc n) = (omega arith, delays-capped p (attempt + 1) n)

module _ {ℓ} {A : Type ℓ} where
  -- The first argument counts the rounds after this one; `attempt == max_retries` where it is zero.
  unfoldable pub loop : (ℕ → Outcome A) → Policy → ℕ → ℕ → Progress → Outcome A × Progress
  loop env p zero attempt s = (env attempt, record s { calls = s.calls + 1 })
  loop env p (suc rounds) attempt s = elim (env attempt) [
    | returned a ↦ (returned a, record s { calls = s.calls + 1 })
    | raised e ↦ elim (p.retryable e) [
      | false ↦ (raised e, record s { calls = s.calls + 1 })
      | true ↦
          loop env p rounds (attempt + 1)
            (record { sleeps = s.sleeps ++ delay p attempt ∷ []; calls = s.calls + 1 })
    ]
  ]

  -- the decorated function; in its last round every exception is raised again
  unfoldable pub retry_with_backoff : (ℕ → Outcome A) → Policy → Outcome A × Progress
  retry_with_backoff env p = loop env p p.max_retries 0 (record { sleeps = []; calls = 0 })

  -- the call that decides: it returns, or raises what is not retried
  abbrev pub is_final : Policy → Outcome A → Bool
  is_final p (returned a) = true
  is_final p (raised e) = if p.retryable e then false else true

  -- Reference: the number of attempts that are not final, from number `attempt` on, at most `rounds`.
  unfoldable pub retries : (ℕ → Outcome A) → Policy → ℕ → ℕ → ℕ
  retries env p zero attempt = 0
  retries env p (suc rounds) attempt =
      if is_final p (env attempt) then 0 else suc (retries env p rounds (attempt + 1))

  module _ (env : ℕ → Outcome A) (p : Policy) (rounds attempt : ℕ) (s : Progress) where
    retried : Progress
    retried = record { sleeps = s.sleeps ++ delay p attempt ∷ []; calls = s.calls + 1 }

    loop-final :
        is_final p (env attempt) ≡ true
        → loop env p (suc rounds) attempt s ≡ (env attempt, record s { calls = s.calls + 1 })
    unfolding loop
    loop-final h = elim (Outcome-cases (env attempt)) [
      | inl (a, e) ↦ ground arith
      | inr (x, e) ↦ ground arith
    ]

    loop-retried :
        is_final p (env attempt) ≡ false
        → loop env p (suc rounds) attempt s ≡ loop env p rounds (attempt + 1) retried
    unfolding loop retried
    loop-retried h = elim (Outcome-cases (env attempt)) [
      | inl (a, e) ↦ ground arith
      | inr (x, e) ↦ ground arith
    ]

  -- the loop's end where `n` attempts from number `attempt` on are retried
  ended : (ℕ → Outcome A) → Policy → ℕ → ℕ → Progress → Outcome A × Progress
  ended env p attempt n s = (
    env (attempt + n),
    record { sleeps = s.sleeps ++ delays p attempt n; calls = s.calls + n + 1 },
  )

  ended-zero :
      (env : ℕ → Outcome A) (p : Policy) (attempt : ℕ) (s : Progress)
      → (env attempt, record s { calls = s.calls + 1 }) ≡ ended env p attempt 0 s
  unfolding ended delays
  ended-zero env p attempt s = ground (arith, append-nil s.sleeps)

  ended-suc :
      (env : ℕ → Outcome A) (p : Policy) (attempt n : ℕ) (s : Progress)
      → ended env p (attempt + 1) n (retried env p 0 attempt s) ≡ ended env p attempt (suc n) s
  unfolding ended delays retried
  ended-suc env p attempt n s =
      ground (arith, append_assoc s.sleeps (delay p attempt ∷ []) (delays p (attempt + 1) n))

  loop_lem :
      (env : ℕ → Outcome A) (p : Policy) (rounds attempt : ℕ) (s : Progress)
      → loop env p rounds attempt s ≡ ended env p attempt (retries env p rounds attempt) s
  unfolding loop retries retried
  loop_lem env p zero attempt s = ended-zero env p attempt s
  loop_lem env p (suc rounds) attempt s = elim (Bool-cases (is_final p (env attempt))) [
    | inl final ↦ loop-final env p rounds attempt s final ∙ rw final (ended-zero env p attempt s)
    | inr again ↦
        loop-retried env p rounds attempt s again
        ∙ loop_lem env p rounds (attempt + 1) (retried env p rounds attempt s)
        ∙ rw again (ended-suc env p attempt (retries env p rounds (attempt + 1)) s)
  ]

  retries-le :
      (env : ℕ → Outcome A) (p : Policy) (rounds attempt : ℕ)
      → retries env p rounds attempt ≤ rounds
  unfolding retries
  retries-le env p zero attempt = omega arith
  retries-le env p (suc rounds) attempt = ground (arith, retries-le env p rounds (attempt + 1))

  ended-start :
      (env : ℕ → Outcome A) (p : Policy) (n : ℕ)
      → ended env p 0 n (record { sleeps = []; calls = 0 })
        ≡ (env n, record { sleeps = delays p 0 n; calls = n + 1 })
  unfolding ended
  ended-start env p n = ground arith

  -- The decorated function calls `func` once more than there are attempts, among the first
  -- `max_retries`, before the first that returns or raises what is not retried; it ends as the last
  -- of those calls does, and it sleeps the capped exponential delay after each call but the last.
  pub retry_exact :
      (env : ℕ → Outcome A) (p : Policy)
      → let n = retries env p p.max_retries 0 in
        (retry_with_backoff env p ≡ (env n, record { sleeps = delays p 0 n; calls = n + 1 }))
        × (n ≤ p.max_retries)
        × All (λ d. d ≤ p.max_delay) (delays p 0 n)
  unfolding retry_with_backoff
  retry_exact env p =
      let n = retries env p p.max_retries 0 in
      (
        loop_lem env p p.max_retries 0 (record { sleeps = []; calls = 0 }) ∙ ended-start env p n,
        retries-le env p p.max_retries 0,
        delays-capped p 0 n,
      )
