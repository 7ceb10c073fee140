-- ===== src/Resilience/Degrader.antt =====
-- security/resilience.py: `GracefulDegrader`.
use vela_flow_public.Prelude.{
  ◌≡◌, refl, String, Bool, true, false, Option, none, some, List, [], ◌∷◌, str_eq, if◌then◌else◌,
  ap, ◌∙◌,
}
use vela_flow_public.Dict.{Dict, lookup, insert, erase, lookup-insert, lookup-erase}
use vela_flow_public.Breaker.Retry.{Outcome, returned, raised}

abbrev pub GracefulDegrader : Type 0
GracefulDegrader = Dict String

-- what `primary` does is given
unfoldable pub execute {ℓ} :
    {A : Type ℓ} → Outcome A → A → String → GracefulDegrader → A × GracefulDegrader
execute (returned a) fallback operation d = (a, erase operation d)
execute (raised e) fallback operation d = (fallback, insert operation e d)

abbrev pub is_degraded : GracefulDegrader → Bool
is_degraded [] = false
is_degraded (entry ∷ d) = true

pub record Execution {ℓ} (A : Type ℓ) : Type ℓ where
  pub outcome : Outcome A
  pub fallback : A
  pub operation : String

module _ {ℓ} {A : Type ℓ} where
  unfoldable pub execute_all : List (Execution A) → GracefulDegrader → GracefulDegrader
  execute_all [] d = d
  execute_all (x ∷ xs) d = execute_all xs (execute x.outcome x.fallback x.operation d).1

  -- the error that a run of the primary function ends with
  abbrev error_of : Outcome A → Option String
  error_of (returned a) = none
  error_of (raised e) = some e

  -- the error of the last execution of an operation, or what was there before all of them
  unfoldable pub last_error : String → List (Execution A) → Option String → Option String
  last_error operation [] before = before
  last_error operation (x ∷ xs) before =
      last_error operation xs (if str_eq x.operation operation then error_of x.outcome else before)

  lookup-execute :
      (o : Outcome A) (fallback : A) (key operation : String) (d : GracefulDegrader)
      → lookup operation (execute o fallback key d).1
        ≡ (if str_eq key operation then error_of o else lookup operation d)
  unfolding execute
  lookup-execute (returned a) fallback key operation d = lookup-erase key operation d
  lookup-execute (raised e) fallback key operation d = lookup-insert key operation e d

  -- After any sequence of executions, an operation is recorded as degraded exactly when its last
  -- execution raised, with the error of that execution.
  pub degraded_exact :
      (operation : String) (xs : List (Execution A)) (d : GracefulDegrader)
      → lookup operation (execute_all xs d) ≡ last_error operation xs (lookup operation d)
  unfolding execute_all last_error
  degraded_exact operation [] d = refl
  degraded_exact operation (x ∷ xs) d =
      degraded_exact operation xs (execute x.outcome x.fallback x.operation d).1
      ∙ ap (λ e. last_error operation xs e)
          (lookup-execute x.outcome x.fallback x.operation operation d)
