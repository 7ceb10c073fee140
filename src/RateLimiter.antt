-- ===== src/RateLimiter.antt =====
-- security/resilience.py: `RateLimiter`. A time is a number of ticks of the monotonic clock.
pub mod Storage
pub mod Admission
pub mod Window
mod Tests
use vela_flow_public.Prelude.{
  ℕ, ◌+◌, ◌-◌, ◌*◌, String, Bool, true, false, not, ◌&&◌, Option, none, some, List, [], ◌∷◌, ◌++◌,
  keep, last?, length, ltb, leb, str_eq, if◌then◌else◌,
}
use vela_flow_public.Dict.{Dict, lookup, insert, erase}

pub record RateLimiter : Type 0 where
  pub max_requests : ℕ
  pub window : ℕ
  pub requests : Dict (List ℕ)
  pub last_prune : ℕ
  pub prune_interval : ℕ

abbrev pub init : ℕ → ℕ → RateLimiter
init max_requests window = record {
  max_requests = max_requests;
  window = window;
  requests = [];
  last_prune = 0;
  prune_interval = window * 5;
}

-- `t > now - window`, with the subtraction moved to the other side
abbrev pub is_fresh : ℕ → ℕ → ℕ → Bool
is_fresh now window t = ltb now (t + window)

-- `not ts or ts[-1] <= cutoff`
abbrev pub is_idle : ℕ → ℕ → List ℕ → Bool
is_idle now window ts = elim (last? ts) [ none ↦ true | some t ↦ not (is_fresh now window t) ]

unfoldable pub idle_keys : ℕ → ℕ → Dict (List ℕ) → List String
idle_keys now window [] = []
idle_keys now window ((k, ts) ∷ rest) =
    let others = idle_keys now window rest in if is_idle now window ts then k ∷ others else others

unfoldable pub erase_all : List String → Dict (List ℕ) → Dict (List ℕ)
erase_all [] d = d
erase_all (k ∷ ks) d = erase_all ks (erase k d)

unfoldable pub prune_idle_keys : ℕ → RateLimiter → RateLimiter
unfolding idle_keys erase_all
prune_idle_keys now r = if ltb now (r.last_prune + r.prune_interval) then r else record r {
  last_prune = now;
  requests = erase_all (idle_keys now r.window r.requests) r.requests;
}

-- `self._requests[key]` of the `defaultdict`
abbrev pub stored : String → RateLimiter → List ℕ
stored key r = elim (lookup key r.requests) [ none ↦ [] | some ts ↦ ts ]

-- the part of `allow` after the idle keys have been removed
unfoldable pub admit : ℕ → String → RateLimiter → Bool × RateLimiter
admit now key r =
    let active = keep (is_fresh now r.window) (stored key r) in
    if leb r.max_requests (length active)
    then (false, record r { requests = insert key active r.requests })
    else (true, record r { requests = insert key (active ++ now ∷ []) r.requests })

unfoldable pub allow : ℕ → String → RateLimiter → Bool × RateLimiter
allow now key r = admit now key (prune_idle_keys now r)

-- the read makes the `defaultdict` store an empty list for a new key
unfoldable pub remaining : ℕ → String → RateLimiter → ℕ × RateLimiter
remaining now key r = (
  r.max_requests - length (keep (is_fresh now r.window) (stored key r)),
  record r { requests = insert key (stored key r) r.requests },
)

pub record Request : Type 0 where
  pub time : ℕ
  pub key : String

-- The limiter after a sequence of requests.
unfoldable pub serve : List Request → RateLimiter → RateLimiter
serve [] r = r
serve (q ∷ qs) r = serve qs (allow q.time q.key r).1

-- The times at which requests of one key were granted, in order.
unfoldable pub granted : String → List Request → RateLimiter → List ℕ
granted key [] r = []
granted key (q ∷ qs) r =
    let (ok, r') = allow q.time q.key r in
    let rest = granted key qs r' in if ok && str_eq q.key key then q.time ∷ rest else rest
