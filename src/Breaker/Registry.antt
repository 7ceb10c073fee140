-- ===== src/Breaker/Registry.antt =====
-- security/circuit_breaker.py: the named breakers and the health registry. Clients share a breaker
-- by reference: a method that is called on it writes it back under its name.
use vela_flow_public.Prelude.{
  Option-cases, inl, inr, eq_refl, ℕ, String, ◌≡◌, Bool, true, false, none, some, List, [], ◌∷◌,
  arith, eq_iff, ◌&&◌, if◌then◌else◌,
}
use vela_flow_public.Dict.{Dict, lookup, insert, erase, lookup-insert}
use vela_flow_public.Dict.Unique.{IsUnique, erase-absent}
use vela_flow_public.Breaker.{Breaker, Status, init, default_config, get_status}

-- get or create
unfoldable pub get_circuit_breaker : String → Dict Breaker → Breaker × Dict Breaker
get_circuit_breaker name breakers = elim (lookup name breakers) [
  | some b ↦ (b, breakers)
  | none ↦ let b = init name default_config in (b, insert name b breakers)
]

-- a method call through the reference that `get_circuit_breaker` returned
unfoldable pub update_breaker : String → (Breaker → Breaker) → Dict Breaker → Dict Breaker
unfolding get_circuit_breaker
update_breaker name f breakers =
    let (b, breakers') = get_circuit_breaker name breakers in insert name (f b) breakers'

unfoldable pub get_all_circuit_breaker_status : ℕ → Dict Breaker → List Status × Dict Breaker
get_all_circuit_breaker_status now [] = ([], [])
get_all_circuit_breaker_status now ((name, b) ∷ rest) =
    let (status, b') = get_status now b in
    let (others, rest') = get_all_circuit_breaker_status now rest in
    (status ∷ others, (name, b') ∷ rest')

pub record ServiceHealth : Type 0 where
  pub name : String
  pub healthy : Bool
  pub last_check : ℕ
  pub error : String
  pub latency_ms : ℕ

unfoldable pub update : ℕ → String → Bool → String → ℕ → Dict ServiceHealth → Dict ServiceHealth
update now name healthy error latency services =
    insert name
      (record {
        name = name;
        healthy = healthy;
        last_check = now;
        error = error;
        latency_ms = latency;
      })
      services

unfoldable pub is_ready : Dict ServiceHealth → Bool
is_ready [] = true
is_ready ((name, service) ∷ rest) = if service.healthy then is_ready rest else false

-- A second request for a name returns the breaker of the first and creates nothing, and a request
-- creates no breaker that a request for another name would return.
pub get_circuit_breaker_once :
    (name other : String) (breakers : Dict Breaker)
    → let (b, after) = get_circuit_breaker name breakers in
      (get_circuit_breaker name after ≡ (b, after))
      × ((get_circuit_breaker other after).0 ≡ (get_circuit_breaker other breakers).0)
unfolding get_circuit_breaker
get_circuit_breaker_once name other breakers = elim (Option-cases (lookup name breakers)) [
  | inl new ↦ ground (
    arith,
    lookup-insert name name (init name default_config) breakers,
    lookup-insert name other (init name default_config) breakers,
    eq_refl name,
    eq_iff name other,
  )
  | inr (b, old) ↦ ground arith
]

-- An update makes the registry ready exactly if the service is reported healthy and the registry
-- without it was ready: one service reported unhealthy is enough to lose readiness, and a report
-- replaces the earlier one on the same service.
pub is_ready-update :
    (now : ℕ) (name : String) (healthy : Bool) (error : String) (latency : ℕ)
    (services : Dict ServiceHealth)
    → IsUnique services
    → is_ready (update now name healthy error latency services)
      ≡ (healthy && is_ready (erase name services))
unfolding update is_ready insert erase
is_ready-update now name healthy error latency [] u = ground arith
is_ready-update now name healthy error latency ((n, s) ∷ rest) u = ground (
  arith,
  is_ready-update now name healthy error latency rest u.1,
  erase-absent name rest,
  eq_iff n name,
)
