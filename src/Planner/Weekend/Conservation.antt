-- ===== src/Planner/Weekend/Conservation.antt =====
-- The weekend plan loses no task that its loop has reached.
use mathlib.Core.List.{Perm, perm_append_singleton, perm_middle, append-nil, append_assoc}
use mathlib.Core.List.Perm
use vela_flow_public.Prelude.{
  ◌⊎◌, ℕ, suc, ◌+◌, ◌*◌, ◌≤◌, ◌≡◌, refl, ap, Bool, true, false, Bool-cases, inl, inr, List, [], ◌∷◌,
  ◌++◌, length, take, arith, leb,
}
use vela_flow_public.Planner.{Task, Settings, ScoredTask, duration_of}
use vela_flow_public.Planner.Rank.{rank_tasks}
use vela_flow_public.Planner.Weekend.{
  days_to_saturday, free_minutes, put_saturday, put_sunday, Event, Plan, empty_plan, place,
  allocate, build_weekend_digest,
}

abbrev pub everything : Plan → List ScoredTask
everything p = p.saturday ++ (p.sunday ++ p.overflow)

snoc-perm :
    (s : ScoredTask) (xs ys : List ScoredTask) → Perm ((xs ++ s ∷ []) ++ ys) (s ∷ (xs ++ ys))
snoc-perm s xs ys = rw append_assoc (perm_middle xs ys)

module _ (settings : Settings) (sat_free sun_free : ℕ) where
  place-cases :
      (s : ScoredTask) (p : Plan)
      → let q = place settings sat_free sun_free s p in
        let dur = duration_of settings s.task in
        (q ≡ put_saturday s dur p)
        ⊎ ((q ≡ put_sunday s dur p) ⊎ (q ≡ record p { overflow = p.overflow ++ s ∷ [] }))
  unfolding place
  place-cases s p = ground arith

  place-perm :
      (s : ScoredTask) (p : Plan)
      → Perm (everything (place settings sat_free sun_free s p)) (s ∷ everything p)
  place-perm s p =
      let rest = p.sunday ++ p.overflow in
      elim (place-cases s p) [
        | inl sat ↦ rw sat (snoc-perm s p.saturday rest)
        | inr (inl sun) ↦ rw sun (
            Perm.trans (Perm.append_left p.saturday (snoc-perm s p.sunday p.overflow))
              (perm_middle p.saturday rest))
        | inr (inr out) ↦
            rw
              (
                out,
                ← append_assoc p.sunday p.overflow (s ∷ []),
                ← append_assoc p.saturday rest (s ∷ []),
              )
              (perm_append_singleton s (everything p))
      ]

  -- the two ways on after a task has been placed
  module _ (s : ScoredTask) (rest : List ScoredTask) (p : Plan) where
    abbrev is_full : Bool
    is_full =
        let q = place settings sat_free sun_free s p in
        leb settings.weekend_task_limit (length q.saturday + length q.sunday)

    allocate-full :
        is_full ≡ true
        → allocate settings sat_free sun_free (s ∷ rest) p ≡ place settings sat_free sun_free s p
    unfolding allocate
    allocate-full h = ground arith

    allocate-room :
        is_full ≡ false
        → allocate settings sat_free sun_free (s ∷ rest) p
          ≡ allocate settings sat_free sun_free rest (place settings sat_free sun_free s p)
    unfolding allocate
    allocate-room h = ground arith

  -- how far the loop got: to the end, or until the days held the limit
  abbrev pub IsReached : ℕ → List ScoredTask → Plan → Type 0
  IsReached n tasks plan =
      (take n tasks ≡ tasks)
      ⊎ (settings.weekend_task_limit ≤ length plan.saturday + length plan.sunday)

  later-IsReached :
      (s : ScoredTask) (n : ℕ) (rest : List ScoredTask) (plan : Plan)
      → IsReached n rest plan
      → IsReached (suc n) (s ∷ rest) plan
  later-IsReached s n rest plan (inl all) = inl (ap (λ ts. s ∷ ts) all)
  later-IsReached s n rest plan (inr full) = inr full

  allocate-perm :
      (tasks : List ScoredTask) (p : Plan)
      → let plan = allocate settings sat_free sun_free tasks p in
        (n : ℕ) × Perm (everything plan) (take n tasks ++ everything p) × IsReached n tasks plan
  allocate-perm [] p = (0, unfold allocate in Perm.refl (everything p), inl refl)
  allocate-perm (s ∷ rest) p =
      let p' = place settings sat_free sun_free s p in
      elim (Bool-cases (leb settings.weekend_task_limit (length p'.saturday + length p'.sunday))) [
        | inl full ↦ (
          1,
          rw (allocate-full s rest p full) (place-perm s p),
          rw (allocate-full s rest p full) (inr (ground (arith, full))),
        )
        | inr room ↦
            let (n, h, reached) = allocate-perm rest p' in
            (
              suc n,
              rw (allocate-room s rest p room) (
                  Perm.trans h (
                    Perm.trans (Perm.append_left (take n rest) (place-perm s p))
                      (perm_middle (take n rest) (everything p)))),
              rw (allocate-room s rest p room)
                  (later-IsReached s n rest (allocate settings sat_free sun_free rest p') reached),
            )
      ]

-- Saturday, Sunday and the deferred tasks together are a permutation of the first tasks of the
-- ranking, so no task that the loop has reached is lost or planned twice. The loop has reached all of
-- the first `2 * weekend_task_limit` tasks, or the two days together hold the limit.
pub weekend_conserves :
    (lower : List ℕ → List ℕ) (today : ℕ) (settings : Settings) (tasks : List Task)
    (events : List Event)
    → let plan = build_weekend_digest lower today settings tasks events in
      let ranked =
        take (settings.weekend_task_limit * 2) (rank_tasks lower today settings true tasks) in
      (n : ℕ) × Perm (everything plan) (take n ranked)
      × ((take n ranked ≡ ranked)
          ⊎ (settings.weekend_task_limit ≤ length plan.saturday + length plan.sunday))
unfolding build_weekend_digest
weekend_conserves lower today settings tasks events =
    let saturday = today + days_to_saturday today in
    let capacity = settings.weekend_capacity_hours * 60 in
    let sat_free = free_minutes capacity saturday events in
    let sun_free = free_minutes capacity (saturday + 1) events in
    let ranked =
      take (settings.weekend_task_limit * 2) (rank_tasks lower today settings true tasks) in
    let (n, h, reached) = allocate-perm settings sat_free sun_free ranked empty_plan in
    (n, rw (append-nil (take n ranked)) at h, reached)
