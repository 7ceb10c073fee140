-- ===== src/Breaker/Retry/Results.antt =====
-- What `retry_with_backoff` returns.
use native.Mathlib.Numerals.{add-one}
use vela_flow_public.Prelude.{
  subst, ℕ, zero, suc, ◌+◌, ◌≤◌, ◌<◌, String, ◌≡◌, refl, ap, true, false, Option, none, some, arith,
}
use vela_flow_public.Breaker.{Breaker, opened, can_execute}
use vela_flow_public.Breaker.Retry.{
  Outcome, returned, raised, Call, Policy, Progress, start, allowed, succeeded, failed, done,
  exhausted, loop, retry_with_backoff,
}
use vela_flow_public.Breaker.Retry.Rounds.{loop-refused, loop-returned, loop-raised}

module _ {ℓ} {A : Type ℓ} (env : ℕ → Call A) (p : Policy) where
  free : (now : ℕ) (s : Progress) → s.circuit_breaker ≡ none → allowed now s ≡ (true, s)
  unfolding allowed
  free now s h = ground arith

  failed-free :
      (attempt now : ℕ) (s : Progress)
      → s.circuit_breaker ≡ none
      → (failed p attempt now s).circuit_breaker ≡ none
  unfolding failed
  failed-free attempt now s h = ground arith

  calls-failed : (attempt now : ℕ) (s : Progress) → (failed p attempt now s).calls ≡ s.calls + 1
  unfolding failed
  calls-failed attempt now s = refl

  -- `k` attempts that raise, then one that returns
  loop_first_success :
      (k rounds attempt : ℕ) (last : Option String) (s : Progress) (a : A)
      → s.circuit_breaker ≡ none
      → k < rounds
      → ((i : ℕ) → i < k → (x : String) × ((env (attempt + i)).outcome ≡ raised x))
      → (env (attempt + k)).outcome ≡ returned a
      → ((loop env p rounds attempt last s).0 ≡ done a)
        × ((loop env p rounds attempt last s).1.calls ≡ s.calls + k + 1)
  loop_first_success k zero attempt last s a h lt fails good = absurd (omega arith)
  loop_first_success zero (suc rounds) attempt last s a h lt fails good =
      rw
        (
          loop-returned env p rounds attempt last s a (ap (λ r. r.0) (free (env attempt).asked s h))
              (subst (λ n. (env n).outcome ≡ returned a) (omega arith) good),
          free (env attempt).asked s h,
        )
        (refl, unfold succeeded in omega arith)
  loop_first_success (suc k) (suc rounds) attempt last s a h lt fails good =
      let now = (env attempt).ended in
      let (x, e) = fails 0 (omega arith) in
      let (out, n) =
        loop_first_success k rounds (attempt + 1) (some x) (failed p attempt now s) a
          (failed-free attempt now s h) (omega arith)
          (λ i below.
            let (y, e') = fails (suc i) (omega arith) in
            (y, subst (λ n. (env n).outcome ≡ raised y) (omega arith) e'))
          (subst (λ n. (env n).outcome ≡ returned a) (omega arith) good) in
      rw
        (
          loop-raised env p rounds attempt last s x (ap (λ r. r.0) (free (env attempt).asked s h))
              (subst (λ n. (env n).outcome ≡ raised x) (omega arith) e),
          free (env attempt).asked s h,
        )
        (out, omega (arith, calls-failed attempt now s))

  loop_all_raise :
      (rounds attempt : ℕ) (last : Option String) (s : Progress)
      → s.circuit_breaker ≡ none
      → ((i : ℕ) → (x : String) × ((env i).outcome ≡ raised x))
      → (e : Option String) × ((loop env p rounds attempt last s).0 ≡ exhausted e)
        × ((loop env p rounds attempt last s).1.calls ≡ s.calls + rounds)
  loop_all_raise zero attempt last s h fails =
      (last, unfold loop in refl, unfold loop in omega arith)
  loop_all_raise (suc rounds) attempt last s h fails =
      let now = (env attempt).ended in
      let (x, e) = fails attempt in
      let (last', out, n) =
        loop_all_raise rounds (attempt + 1) (some x) (failed p attempt now s)
          (failed-free attempt now s h) fails in
      rw
        (
          loop-raised env p rounds attempt last s x (ap (λ r. r.0) (free (env attempt).asked s h))
              e,
          free (env attempt).asked s h,
        )
        (last', out, omega (arith, calls-failed attempt now s))

  -- Without a breaker, where the attempts before number `k` raise and that one returns, its value is
  -- returned after exactly `k + 1` calls, provided `k` is at most `max_retries`.
  pub retry_first_success :
      (k : ℕ) (fallback : Option (Outcome A)) (a : A)
      → k ≤ p.max_retries
      → ((i : ℕ) → i < k → (x : String) × ((env i).outcome ≡ raised x))
      → (env k).outcome ≡ returned a
      → ((retry_with_backoff env p none fallback).0 ≡ returned a)
        × ((retry_with_backoff env p none fallback).1.calls ≡ k + 1)
  unfolding retry_with_backoff
  retry_first_success k fallback a le fails good =
      let (out, n) =
        loop_first_success k (p.max_retries + 1) 0 none (start none) a refl (omega arith)
          (λ i below.
            let (y, e') = fails i below in
            (y, subst (λ n. (env n).outcome ≡ raised y) (omega arith) e'))
          (subst (λ n. (env n).outcome ≡ returned a) (omega arith) good) in
      (rw out, omega arith)

  -- With a fallback, a function that raises at every attempt is called `max_retries + 1` times in the
  -- absence of a breaker, and the fallback's outcome is the result.
  pub retry_fallback :
      (r : Outcome A)
      → ((i : ℕ) → (x : String) × ((env i).outcome ≡ raised x))
      → ((retry_with_backoff env p none (some r)).0 ≡ r)
        × ((retry_with_backoff env p none (some r)).1.calls ≡ p.max_retries + 1)
  unfolding retry_with_backoff
  retry_fallback r fails =
      let (last, out, n) = loop_all_raise (p.max_retries + 1) 0 none (start none) refl fails in
      (rw out, omega arith)

  blocked :
      (b : Breaker) (now : ℕ)
      → b.state ≡ opened
      → now < b.last_failure_time + b.config.recovery_timeout
      → allowed now (start (some b)) ≡ (false, start (some b))
  unfolding allowed can_execute
  blocked b now h early = ground arith

  -- A breaker that is open, and whose timeout has not passed, keeps the function from being called
  -- at all: nothing is slept, the breaker stays as it was, and the fallback is the result.
  pub retry_opened :
      (b : Breaker) (r : Outcome A)
      → b.state ≡ opened
      → (env 0).asked < b.last_failure_time + b.config.recovery_timeout
      → retry_with_backoff env p (some b) (some r) ≡ (r, start (some b))
  unfolding retry_with_backoff
  retry_opened b r h early =
      let shut = blocked b (env 0).asked h early in
      rw (add-one, loop-refused env p p.max_retries 0 none (start (some b)) (ap (λ q. q.0) shut))
        (ap (λ q. (r, q.1)) shut)
