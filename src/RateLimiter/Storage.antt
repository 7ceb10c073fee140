-- ===== src/RateLimiter/Storage.antt =====
-- What a rate limiter stores for a key, through pruning and admission.
use vela_flow_public.Prelude.{
  ℕ, ◌+◌, ◌≤◌, ◌≡◌, refl, String, Bool, true, false, Option, none, some, List, [], ◌∷◌, ◌++◌, keep,
  length, All, All-append, ltb, eq_iff, arith, if◌then◌else◌, Bool-cases, inl, inr,
}
use vela_flow_public.Prelude.Keys.{has}
use vela_flow_public.Dict.{Dict, lookup, erase, lookup-erase}
use vela_flow_public.Dict.Unique.{IsUnique, erase-IsUnique}
use vela_flow_public.RateLimiter.{
  RateLimiter, is_fresh, is_idle, idle_keys, erase_all, prune_idle_keys, stored,
}

lookup-erase_all :
    (ks : List String) (d : Dict (List ℕ)) (key : String)
    → lookup key (erase_all ks d) ≡ (if has key ks then none else lookup key d)
unfolding erase_all
lookup-erase_all [] d key = refl
lookup-erase_all (k ∷ ks) d key =
    ground (arith, lookup-erase_all ks (erase k d) key, lookup-erase k key d)

erase_all-IsUnique : (ks : List String) (d : Dict (List ℕ)) → IsUnique d → IsUnique (erase_all ks d)
unfolding erase_all
erase_all-IsUnique [] d u = u
erase_all-IsUnique (k ∷ ks) d u = erase_all-IsUnique ks (erase k d) (erase-IsUnique k d u)

abbrev idle_entry : ℕ → ℕ → Option (List ℕ) → Bool
idle_entry now window none = false
idle_entry now window (some ts) = is_idle now window ts

has-idle_keys :
    (now window : ℕ) (d : Dict (List ℕ)) (key : String)
    → IsUnique d
    → has key (idle_keys now window d) ≡ idle_entry now window (lookup key d)
unfolding idle_keys lookup
has-idle_keys now window [] key u = refl
has-idle_keys now window ((k, ts) ∷ rest) key u =
    ground (arith, has-idle_keys now window rest key u.1, eq_iff k key, u.0)

-- each item is at most every later one
abbrev pub IsAscending : List ℕ → Type 0
IsAscending [] = Unit
IsAscending (t ∷ ts) = All (λ u. t ≤ u) ts × IsAscending ts

pub All-keep : (p : ℕ → Bool) (Q : ℕ → Type 0) (ts : List ℕ) → All Q ts → All Q (keep p ts)
All-keep p Q [] h = tt
All-keep p Q (t ∷ ts) h = ground (arith, All-keep p Q ts h.1)

pub keep-IsAscending : (p : ℕ → Bool) (ts : List ℕ) → IsAscending ts → IsAscending (keep p ts)
keep-IsAscending p [] h = tt
keep-IsAscending p (t ∷ ts) h =
    ground (arith, keep-IsAscending p ts h.1, All-keep p (λ u. t ≤ u) ts h.0)

pub append-IsAscending :
    (ts : List ℕ) (now : ℕ) → IsAscending ts → All (λ t. t ≤ now) ts → IsAscending (ts ++ now ∷ [])
append-IsAscending [] now h below = (tt, tt)
append-IsAscending (t ∷ ts) now h below =
    (All-append (λ u. t ≤ u) ts (now ∷ []) h.0 (below.0, tt), append-IsAscending ts now h.1 below.1)

-- an idle list has no item that is fresh at a later time
idle_none_fresh :
    (now later window : ℕ) (ts : List ℕ)
    → IsAscending ts
    → is_idle now window ts ≡ true
    → now ≤ later
    → keep (is_fresh later window) ts ≡ []
idle_none_fresh now later window [] h idle le = refl
idle_none_fresh now later window (t ∷ []) h idle le = ground arith
idle_none_fresh now later window (t ∷ u ∷ us) h idle le =
    ground (arith, idle_none_fresh now later window (u ∷ us) h.1)

-- what holds of a limiter whose latest request was at `clock`, for the entry of `key`
pub record IsOrdered (key : String) (clock : ℕ) (r : RateLimiter) : Type 0 where
  pub unique : IsUnique r.requests
  pub ascending : IsAscending (stored key r)
  pub past : All (λ t. t ≤ clock) (stored key r)

-- Pruning the idle keys keeps the fresh times of every key.
pub prune-fresh :
    (now later : ℕ) (key : String) (r : RateLimiter) (clock : ℕ)
    → IsOrdered key clock r
    → now ≤ later
    → keep (is_fresh later r.window) (stored key (prune_idle_keys now r))
      ≡ keep (is_fresh later r.window) (stored key r)
unfolding prune_idle_keys
prune-fresh now later key r clock o le = ground (
  arith,
  lookup-erase_all (idle_keys now r.window r.requests) r.requests key,
  has-idle_keys now r.window r.requests key o.unique,
  idle_none_fresh now later r.window (stored key r) o.ascending,
)

pub prune-IsOrdered :
    (now : ℕ) (key : String) (r : RateLimiter) (clock : ℕ)
    → IsOrdered key clock r
    → IsOrdered key clock (prune_idle_keys now r)
unfolding prune_idle_keys
prune-IsOrdered now key r clock o = elim (Bool-cases (ltb now (r.last_prune + r.prune_interval))) [
  | inl recent ↦ rw recent o
  | inr due ↦
      let ks = idle_keys now r.window r.requests in
      rw due (record {
        unique = erase_all-IsUnique ks r.requests o.unique;
        ascending = ground (arith, lookup-erase_all ks r.requests key, o.ascending);
        past = ground (arith, lookup-erase_all ks r.requests key, o.past);
      })
]

pub length-prune :
    (now : ℕ) (key : String) (r : RateLimiter)
    → length (stored key (prune_idle_keys now r)) ≤ length (stored key r)
unfolding prune_idle_keys
length-prune now key r =
    ground (arith, lookup-erase_all (idle_keys now r.window r.requests) r.requests key)
