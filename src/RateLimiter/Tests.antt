-- ===== src/RateLimiter/Tests.antt =====
-- A rate limiter at work, and its theorems at concrete inputs.
use vela_flow_public.Prelude.{ℕ, ◌≤◌, ◌≡◌, refl, List, [], ◌∷◌, keep, length, ltb, ◌-◌, arith}
use vela_flow_public.Dict.{lookup, insert}
use vela_flow_public.RateLimiter.{
  is_fresh, init, prune_idle_keys, idle_keys, erase_all, admit, allow, Request, granted, serve,
  remaining,
}
use vela_flow_public.RateLimiter.Window.{within_rate, allow_exact}

abbrev at : ℕ → Request
at t = record { time = t; key = "tenant" }

-- two requests per ten ticks: the third is refused, and the fourth, ten ticks after the first,
-- is granted
abbrev burst : List Request
burst = at 1 ∷ at 2 ∷ record { time = 3; key = "other" } ∷ at 4 ∷ at 11 ∷ []

granted-burst : granted "tenant" burst (init 2 10) ≡ 1 ∷ 2 ∷ 11 ∷ []
unfolding granted allow admit prune_idle_keys idle_keys erase_all lookup insert
granted-burst = refl

within_rate_example : length (keep (is_fresh 11 10) (granted "tenant" burst (init 2 10))) ≤ 2
within_rate_example =
    within_rate 2 10 "tenant" burst 11
      (omega arith, (omega arith, (omega arith, (omega arith, (omega arith, tt))))) (omega arith)

allow_exact_example :
    let r = serve burst (init 2 10) in
    ((allow 12 "tenant" r).0
      ≡ ltb (length (keep (is_fresh 12 10) (granted "tenant" burst (init 2 10)))) 2)
    × ((remaining 12 "tenant" r).0
        ≡ 2 - length (keep (is_fresh 12 10) (granted "tenant" burst (init 2 10))))
allow_exact_example =
    allow_exact 2 10 "tenant" burst 12
      (omega arith, (omega arith, (omega arith, (omega arith, (omega arith, tt))))) (omega arith)
