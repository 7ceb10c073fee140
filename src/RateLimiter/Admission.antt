-- ===== src/RateLimiter/Admission.antt =====
-- What one request leaves in a rate limiter, for its own key and for the others.
use vela_flow_public.Prelude.{
  ℕ, ◌≤◌, ◌≡◌, refl, sym, subst, ◌∙◌, ap, String, Bool, true, false, not, List, [], ◌∷◌, ◌++◌, keep,
  keep-append, length-append, length-keep, length, All, All-append, All-mono, leb, str_eq, eq_refl,
  arith, if◌then◌else◌,
}
use vela_flow_public.Dict.{lookup-insert}
use vela_flow_public.Dict.Unique.{IsUnique, insert-IsUnique}
use vela_flow_public.RateLimiter.{RateLimiter, is_fresh, prune_idle_keys, stored, admit, allow}
use vela_flow_public.RateLimiter.Storage.{
  IsAscending, IsOrdered, prune-fresh, prune-IsOrdered, keep-IsAscending, append-IsAscending,
  All-keep,
}

pub window-prune : (now : ℕ) (r : RateLimiter) → (prune_idle_keys now r).window ≡ r.window
unfolding prune_idle_keys
window-prune now r = ground arith

pub max-prune : (now : ℕ) (r : RateLimiter) → (prune_idle_keys now r).max_requests ≡ r.max_requests
unfolding prune_idle_keys
max-prune now r = ground arith

pub window-allow :
    (now : ℕ) (key : String) (r : RateLimiter) → (allow now key r).1.window ≡ r.window
unfolding allow admit
window-allow now key r = ground (arith, window-prune now r)

pub max-allow :
    (now : ℕ) (key : String) (r : RateLimiter) → (allow now key r).1.max_requests ≡ r.max_requests
unfolding allow admit
max-allow now key r = ground (arith, max-prune now r)

-- a request of another key leaves the entry of `key` alone
admit-other :
    (now : ℕ) (other key : String) (r : RateLimiter)
    → str_eq other key ≡ false
    → stored key (admit now other r).1 ≡ stored key r
unfolding admit
admit-other now other key r h =
    let active = keep (is_fresh now r.window) (stored other r) in
    ground (
      arith,
      lookup-insert other key active r.requests,
      lookup-insert other key (active ++ now ∷ []) r.requests,
    )

-- what a request of `key` itself stores
pub admit-stored :
    (now : ℕ) (key : String) (r : RateLimiter)
    → let active = keep (is_fresh now r.window) (stored key r) in
      let (ok, r') = admit now key r in
      (ok ≡ not (leb r.max_requests (length active)))
      × (stored key r' ≡ (if ok then active ++ now ∷ [] else active))
unfolding admit
admit-stored now key r =
    let active = keep (is_fresh now r.window) (stored key r) in
    ground (
      arith,
      lookup-insert key key active r.requests,
      lookup-insert key key (active ++ now ∷ []) r.requests,
      eq_refl key,
    )

admit-IsUnique :
    (now : ℕ) (key : String) (r : RateLimiter)
    → IsUnique r.requests
    → IsUnique (admit now key r).1.requests
unfolding admit
admit-IsUnique now key r u =
    let active = keep (is_fresh now r.window) (stored key r) in
    ground (
      arith,
      insert-IsUnique key active r.requests u,
      insert-IsUnique key (active ++ now ∷ []) r.requests u,
    )

-- what was fresh later was fresh before
keep-keep :
    (now later window : ℕ) (ts : List ℕ)
    → now ≤ later
    → keep (is_fresh later window) (keep (is_fresh now window) ts) ≡ keep (is_fresh later window) ts
keep-keep now later window [] le = refl
keep-keep now later window (t ∷ ts) le = ground (arith, keep-keep now later window ts le)

-- `log` holds the times at which requests of `key` were granted: the limiter stores those that
-- are still fresh, and never more than its maximum.
pub record IsFaithful (key : String) (clock : ℕ) (log : List ℕ) (r : RateLimiter) : Type 0 where
  pub ordered : IsOrdered key clock r
  pub faithful :
      (later : ℕ)
      → clock ≤ later
      → keep (is_fresh later r.window) log ≡ keep (is_fresh later r.window) (stored key r)
  pub bounded : length (stored key r) ≤ r.max_requests

weaken-past : (c d : ℕ) (ts : List ℕ) → c ≤ d → All (λ t. t ≤ c) ts → All (λ t. t ≤ d) ts
weaken-past c d ts le h = All-mono (λ t. t ≤ c) (λ t. t ≤ d) ts (λ t p. omega arith) h

module _ (key : String) (clock now : ℕ) (log : List ℕ) (r : RateLimiter) (le : clock ≤ now) where
  pub prune-IsFaithful :
      IsFaithful key clock log r
      → ((later : ℕ)
          → now ≤ later
          → keep (is_fresh later r.window) log
            ≡ keep (is_fresh later r.window) (stored key (prune_idle_keys now r)))
  prune-IsFaithful f later after =
      f.faithful later (omega arith) ∙ sym (prune-fresh now later key r clock f.ordered after)

  -- a request of another key
  pub other-IsFaithful :
      (other : String)
      → str_eq other key ≡ false
      → length (stored key (prune_idle_keys now r)) ≤ r.max_requests
      → IsFaithful key clock log r
      → IsFaithful key now log (allow now other r).1
  other-IsFaithful other differ fits f =
      let p = prune_idle_keys now r in
      let o = prune-IsOrdered now key r clock f.ordered in
      let same = admit-other now other key p differ in
      record {
        ordered = record {
          unique = unfold allow in admit-IsUnique now other p o.unique;
          ascending = unfold allow in subst IsAscending (sym same) o.ascending;
          past =
              unfold allow in
              subst (All (λ t. t ≤ now)) (sym same)
                (weaken-past clock now (stored key p) le o.past);
        };
        faithful = λ later after. rw window-allow (
            prune-IsFaithful f later after
            ∙ (unfold allow in ap (keep (is_fresh later r.window)) (sym same)));
        bounded = rw max-allow (unfold allow in rw same fits);
      }

window-admit : (now : ℕ) (key : String) (r : RateLimiter) → (admit now key r).1.window ≡ r.window
unfolding admit
window-admit now key r = ground arith

max-admit :
    (now : ℕ) (key : String) (r : RateLimiter) → (admit now key r).1.max_requests ≡ r.max_requests
unfolding admit
max-admit now key r = ground arith

-- a request of the key itself, once the idle keys have been removed
module _ (key : String) (clock now : ℕ) (log : List ℕ) (p : RateLimiter) (le : clock ≤ now) where
  abbrev active : List ℕ
  active = keep (is_fresh now p.window) (stored key p)

  -- the new entry, by whether the request is granted
  abbrev entry : Bool → List ℕ
  entry ok = if ok then active ++ now ∷ [] else active

  abbrev pub logged : Bool → List ℕ
  logged ok = if ok then log ++ now ∷ [] else log

  entry-faithful :
      (ok : Bool) (later : ℕ)
      → now ≤ later
      → keep (is_fresh later p.window) log ≡ keep (is_fresh later p.window) (stored key p)
      → keep (is_fresh later p.window) (logged ok) ≡ keep (is_fresh later p.window) (entry ok)
  entry-faithful true later after same =
      rw
        (
          keep-append (is_fresh later p.window) log (now ∷ []),
          keep-append (is_fresh later p.window) active (now ∷ []),
          keep-keep now later p.window (stored key p) after,
          same,
        )
        refl
  entry-faithful false later after same =
      rw (keep-keep now later p.window (stored key p) after) same

  entry-IsAscending : (ok : Bool) → IsOrdered key clock p → IsAscending (entry ok)
  entry-IsAscending true o =
      append-IsAscending active now
        (keep-IsAscending (is_fresh now p.window) (stored key p) o.ascending)
        (All-keep (is_fresh now p.window) (λ t. t ≤ now) (stored key p)
          (weaken-past clock now (stored key p) le o.past))
  entry-IsAscending false o = keep-IsAscending (is_fresh now p.window) (stored key p) o.ascending

  entry-past : (ok : Bool) → IsOrdered key clock p → All (λ t. t ≤ now) (entry ok)
  entry-past ok o =
      let h =
        All-keep (is_fresh now p.window) (λ t. t ≤ now) (stored key p)
          (weaken-past clock now (stored key p) le o.past) in
      elim ok as (λ b. All (λ t. t ≤ now) (entry b)) [
        | true ↦ All-append (λ t. t ≤ now) active (now ∷ []) h (omega arith, tt)
        | false ↦ h
      ]

  entry-bounded :
      (ok : Bool)
      → ok ≡ not (leb p.max_requests (length active))
      → length (stored key p) ≤ p.max_requests
      → length (entry ok) ≤ p.max_requests
  entry-bounded ok test fits =
      ground
        (arith, length-append active (now ∷ []), length-keep (is_fresh now p.window) (stored key p))

  pub admit-IsFaithful :
      IsOrdered key clock p
      → length (stored key p) ≤ p.max_requests
      → ((later : ℕ)
          → now ≤ later
          → keep (is_fresh later p.window) log ≡ keep (is_fresh later p.window) (stored key p))
      → let (ok, r') = admit now key p in IsFaithful key now (logged ok) r'
  admit-IsFaithful o fits same =
      let (ok, r') = admit now key p in
      let (test, kept) = admit-stored now key p in
      let shrinks = length-keep (is_fresh now p.window) (stored key p) in
      record {
        ordered = record {
          unique = admit-IsUnique now key p o.unique;
          ascending = subst IsAscending (sym kept) (entry-IsAscending ok o);
          past = subst (All (λ t. t ≤ now)) (sym kept) (entry-past ok o);
        };
        faithful = λ later after. rw (window-admit now key p) (
            entry-faithful ok later after (same later after)
            ∙ ap (keep (is_fresh later p.window)) (sym kept));
        bounded = rw (max-admit now key p, kept) (entry-bounded ok test fits);
      }
