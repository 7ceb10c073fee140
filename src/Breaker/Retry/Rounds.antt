-- ===== src/Breaker/Retry/Rounds.antt =====
-- One round of the loop of `retry_with_backoff`, by what the breaker and the function do.
use vela_flow_public.Prelude.{
  ℕ, suc, ◌+◌, String, ◌≡◌, refl, ◌⊎◌, inl, inr, true, false, Option, some, arith,
}
use vela_flow_public.Breaker.Retry.{
  Outcome, returned, raised, Call, Policy, Progress, allowed, succeeded, failed, done, exhausted,
  loop,
}

pub Outcome-cases {ℓ} :
    {A : Type ℓ} (o : Outcome A) → ((a : A) × (o ≡ returned a)) ⊎ ((e : String) × (o ≡ raised e))
Outcome-cases (returned a) = inl (a, refl)
Outcome-cases (raised e) = inr (e, refl)

module _ {ℓ} {A : Type ℓ} (env : ℕ → Call A) (p : Policy) (rounds attempt : ℕ) where
  pub loop-refused :
      (last : Option String) (s : Progress)
      → (allowed (env attempt).asked s).0 ≡ false
      → loop env p (suc rounds) attempt last s ≡ (exhausted last, (allowed (env attempt).asked s).1)
  unfolding loop
  loop-refused last s refused = ground arith

  pub loop-returned :
      (last : Option String) (s : Progress) (a : A)
      → (allowed (env attempt).asked s).0 ≡ true
      → (env attempt).outcome ≡ returned a
      → loop env p (suc rounds) attempt last s
        ≡ (done a, succeeded (allowed (env attempt).asked s).1)
  unfolding loop
  loop-returned last s a granted e = ground arith

  pub loop-raised :
      (last : Option String) (s : Progress) (x : String)
      → (allowed (env attempt).asked s).0 ≡ true
      → (env attempt).outcome ≡ raised x
      → loop env p (suc rounds) attempt last s
        ≡ loop env p rounds
            (attempt + 1)
            (some x)
            (failed p attempt (env attempt).ended (allowed (env attempt).asked s).1)
  unfolding loop
  loop-raised last s x granted e = ground arith
