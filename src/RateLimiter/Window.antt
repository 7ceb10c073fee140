-- ===== src/RateLimiter/Window.antt =====
-- No window of a rate limiter holds more granted requests of a key than its maximum.
use vela_flow_public.Prelude.{
  ℕ, ◌≤◌, ◌≡◌, refl, sym, subst, ◌∙◌, String, true, false, not, ◌&&◌, List, [], ◌∷◌, ◌++◌, keep,
  length, leb, ltb, ◌-◌, str_eq, eq_iff, arith, if◌then◌else◌, Bool-cases, inl, inr, length-keep,
}
use mathlib.Core.List.{append-nil, append_assoc}
use vela_flow_public.Dict.{lookup}
use vela_flow_public.RateLimiter.{
  RateLimiter, is_fresh, init, prune_idle_keys, stored, allow, remaining, Request, serve, granted,
}
use vela_flow_public.RateLimiter.Storage.{length-prune, prune-fresh, prune-IsOrdered}
use vela_flow_public.RateLimiter.Admission.{
  IsFaithful, admit-stored, admit-IsFaithful, prune-IsFaithful, other-IsFaithful, window-prune,
  max-prune, window-allow, max-allow,
}

own-IsFaithful :
    (key : String) (clock now : ℕ) (log : List ℕ) (r : RateLimiter)
    → clock ≤ now
    → IsFaithful key clock log r
    → let (ok, r') = allow now key r in IsFaithful key now (if ok then log ++ now ∷ [] else log) r'
own-IsFaithful key clock now log r le f =
    let p = prune_idle_keys now r in
    unfold allow in
    admit-IsFaithful key clock now log p le (prune-IsOrdered now key r clock f.ordered)
      (omega (arith, length-prune now key r, f.bounded, max-prune now r))
      (λ later after.
        rw (window-prune now r) (prune-IsFaithful key clock now log r le f later after))

-- `times` of the requests never go back, and start at `clock` or later
abbrev pub IsChronological : ℕ → List Request → Type 0
IsChronological clock [] = Unit
IsChronological clock (q ∷ qs) = (clock ≤ q.time) × IsChronological q.time qs

-- the time of the latest request
abbrev pub latest : ℕ → List Request → ℕ
latest clock [] = clock
latest clock (q ∷ qs) = latest q.time qs

-- the log after one request
abbrev extend : String → Request → RateLimiter → List ℕ → List ℕ
extend key q r log =
    if (allow q.time q.key r).0 && str_eq q.key key then log ++ q.time ∷ [] else log

extend-own :
    (key : String) (q : Request) (r : RateLimiter) (log : List ℕ)
    → str_eq q.key key ≡ true
    → extend key q r log ≡ (if (allow q.time q.key r).0 then log ++ q.time ∷ [] else log)
extend-own key q r log own = elim (Bool-cases (allow q.time q.key r).0) [
  | inl granted ↦ simp (granted, own)
  | inr refused ↦ simp (refused, own)
]

extend-other :
    (key : String) (q : Request) (r : RateLimiter) (log : List ℕ)
    → str_eq q.key key ≡ false
    → extend key q r log ≡ log
extend-other key q r log other = elim (Bool-cases (allow q.time q.key r).0) [
  | inl granted ↦ simp (granted, other)
  | inr refused ↦ simp (refused, other)
]

allow-IsFaithful :
    (key : String) (clock : ℕ) (q : Request) (log : List ℕ) (r : RateLimiter)
    → clock ≤ q.time
    → IsFaithful key clock log r
    → IsFaithful key q.time (extend key q r log) (allow q.time q.key r).1
allow-IsFaithful key clock q log r le f = elim (Bool-cases (str_eq q.key key)) [
  | inl own ↦
      let same = (eq_iff q.key key).0 own in
      let kept = own-IsFaithful key clock q.time log r le f in
      let h =
        subst
          (λ k.
            IsFaithful key q.time (if (allow q.time k r).0 then log ++ q.time ∷ [] else log)
              (allow q.time k r).1)
          (sym same) kept in
      subst (λ l. IsFaithful key q.time l (allow q.time q.key r).1)
        (sym (extend-own key q r log own)) h
  | inr other ↦
      subst (λ l. IsFaithful key q.time l (allow q.time q.key r).1)
        (sym (extend-other key q r log other))
        (other-IsFaithful key clock q.time log r le q.key other
          (omega (arith, length-prune q.time key r, f.bounded)) f)
]

extend-granted :
    (key : String) (q : Request) (qs : List Request) (r : RateLimiter) (log : List ℕ)
    → log ++ granted key (q ∷ qs) r ≡ extend key q r log ++ granted key qs (allow q.time q.key r).1
unfolding granted
extend-granted key q qs r log =
    ground (arith, append_assoc log (q.time ∷ []) (granted key qs (allow q.time q.key r).1))

serve-IsFaithful :
    (key : String) (clock : ℕ) (qs : List Request) (log : List ℕ) (r : RateLimiter)
    → IsChronological clock qs
    → IsFaithful key clock log r
    → IsFaithful key (latest clock qs) (log ++ granted key qs r) (serve qs r)
unfolding serve
serve-IsFaithful key clock [] log r c f = unfold granted in rw (append-nil log) f
serve-IsFaithful key clock (q ∷ qs) log r c f = rw (extend-granted key q qs r log) (
    serve-IsFaithful key q.time qs (extend key q r log) (allow q.time q.key r).1 c.1
      (allow-IsFaithful key clock q log r c.0 f))

max-serve : (qs : List Request) (r : RateLimiter) → (serve qs r).max_requests ≡ r.max_requests
unfolding serve
max-serve [] r = refl
max-serve (q ∷ qs) r = max-serve qs (allow q.time q.key r).1 ∙ max-allow q.time q.key r

window-serve : (qs : List Request) (r : RateLimiter) → (serve qs r).window ≡ r.window
unfolding serve
window-serve [] r = refl
window-serve (q ∷ qs) r = window-serve qs (allow q.time q.key r).1 ∙ window-allow q.time q.key r

init-IsFaithful :
    (key : String) (max_requests window : ℕ) → IsFaithful key 0 [] (init max_requests window)
unfolding lookup
init-IsFaithful key max_requests window = record {
  ordered = record { unique = tt; ascending = tt; past = tt };
  faithful = λ later le. refl;
  bounded = omega arith;
}

bounded-window :
    (key : String) (clock now : ℕ) (log : List ℕ) (r : RateLimiter) (window max_requests : ℕ)
    → clock ≤ now
    → IsFaithful key clock log r
    → r.window ≡ window
    → r.max_requests ≡ max_requests
    → length (keep (is_fresh now window) log) ≤ max_requests
bounded-window key clock now log r window max_requests le f same_window same_max =
    rw (sym same_window, f.faithful now le)
      (omega (arith, length-keep (is_fresh now r.window) (stored key r), f.bounded, same_max))

not-leb : (m n : ℕ) → not (leb m n) ≡ ltb n m
not-leb m n = ground arith

next-exact :
    (key : String) (clock now : ℕ) (log : List ℕ) (r : RateLimiter) (window max_requests : ℕ)
    → clock ≤ now
    → IsFaithful key clock log r
    → r.window ≡ window
    → r.max_requests ≡ max_requests
    → let used = length (keep (is_fresh now window) log) in
      ((allow now key r).0 ≡ ltb used max_requests)
      × ((remaining now key r).0 ≡ max_requests - used)
unfolding allow remaining
next-exact key clock now log r window max_requests le f same_window same_max =
    let p = prune_idle_keys now r in
    let (test, _) = admit-stored now key p in
    rw (sym same_window, sym same_max)
      (
        test
            ∙ rw
                (
                  max-prune now r,
                  window-prune now r,
                  prune-fresh now now key r clock f.ordered (omega arith),
                  f.faithful now le,
                )
                (not-leb r.max_requests (length (keep (is_fresh now r.window) (stored key r)))),
        rw (f.faithful now le) refl,
      )

-- From a new limiter, however many requests of however many keys arrive in the order of their
-- times, the requests of one key that are granted in the window before any moment, not before the
-- latest request, are at most the maximum.
pub within_rate :
    (max_requests window : ℕ) (key : String) (qs : List Request) (now : ℕ)
    → IsChronological 0 qs
    → latest 0 qs ≤ now
    → length (keep (is_fresh now window) (granted key qs (init max_requests window))) ≤ max_requests
within_rate max_requests window key qs now c le =
    let r = init max_requests window in
    let f = serve-IsFaithful key 0 qs [] r c (init-IsFaithful key max_requests window) in
    bounded-window key (latest 0 qs) now (granted key qs r) (serve qs r) window max_requests le f
      (window-serve qs r) (max-serve qs r)

module _ (max_requests window : ℕ) (key : String) (qs : List Request) (now : ℕ) where
  -- the limiter after the requests, and the granted times that count at `now`
  abbrev served : RateLimiter
  served = serve qs (init max_requests window)

  abbrev counted : List ℕ
  counted = keep (is_fresh now window) (granted key qs (init max_requests window))

  -- After requests in the order of their times, the next request of a key is granted exactly when
  -- fewer than the maximum of the key's requests were granted in the window before it; and
  -- `remaining` reports how many are left.
  pub allow_exact :
      IsChronological 0 qs
      → latest 0 qs ≤ now
      → ((allow now key served).0 ≡ ltb (length counted) max_requests)
        × ((remaining now key served).0 ≡ max_requests - length counted)
  allow_exact c le =
      let r = init max_requests window in
      let f = serve-IsFaithful key 0 qs [] r c (init-IsFaithful key max_requests window) in
      next-exact key (latest 0 qs) now (granted key qs r) served window max_requests le f
        (window-serve qs r) (max-serve qs r)
