-- ===== src/Planner/Weekend/Capacity.antt =====
-- The weekend plan keeps within the free time and the limit.
use vela_flow_public.Prelude.{
  ℕ, zero, suc, ◌+◌, ◌*◌, ◌≤◌, ◌<◌, ◌≡◌, refl, true, Bool-cases, inl, inr, List, [], ◌∷◌, ◌++◌,
  length, length-append, take, arith, leb,
}
use vela_flow_public.Planner.{Task, Settings, ScoredTask, duration_of}
use vela_flow_public.Planner.Rank.{rank_tasks}
use vela_flow_public.Planner.Weekend.{
  weekday, days_to_saturday, Event, free_minutes, Plan, empty_plan, place, allocate,
  build_weekend_digest,
}

-- The plan is for the first Saturday from today on: 0 to 6 days away, and a Saturday.
pub next_saturday :
    (today : ℕ) → (weekday (today + days_to_saturday today) ≡ 5) × (days_to_saturday today ≤ 6)
unfolding days_to_saturday
next_saturday today = ground arith

abbrev pub minutes : Settings → List ScoredTask → ℕ
minutes settings [] = 0
minutes settings (s ∷ rest) = duration_of settings s.task + minutes settings rest

minutes-append :
    (settings : Settings) (xs : List ScoredTask) (s : ScoredTask)
    → minutes settings (xs ++ s ∷ []) ≡ minutes settings xs + duration_of settings s.task
minutes-append settings [] s = omega arith
minutes-append settings (x ∷ xs) s = omega (arith, minutes-append settings xs s)

module _ (settings : Settings) (sat_free sun_free : ℕ) where
  record IsFeasible (p : Plan) : Type 0 where
    sat_sum : minutes settings p.saturday ≡ p.sat_used
    sun_sum : minutes settings p.sunday ≡ p.sun_used
    sat_fits : p.sat_used ≤ sat_free
    sun_fits : p.sun_used ≤ sun_free

  place-IsFeasible :
      (s : ScoredTask) (p : Plan) → IsFeasible p → IsFeasible (place settings sat_free sun_free s p)
  unfolding place
  place-IsFeasible s p f =
      ground (arith, minutes-append settings p.saturday s, minutes-append settings p.sunday s)

  allocate-IsFeasible :
      (tasks : List ScoredTask) (p : Plan)
      → IsFeasible p
      → IsFeasible (allocate settings sat_free sun_free tasks p)
  unfolding allocate
  allocate-IsFeasible [] p f = f
  allocate-IsFeasible (s ∷ rest) p f =
      let p' = place settings sat_free sun_free s p in
      let f' = place-IsFeasible s p f in
      elim (Bool-cases (leb settings.weekend_task_limit (length p'.saturday + length p'.sunday))) [
        | inl full ↦ rw full f'
        | inr room ↦ rw room (allocate-IsFeasible rest p' f')
      ]

  placed-place :
      (s : ScoredTask) (p : Plan)
      → let q = place settings sat_free sun_free s p in
        length q.saturday + length q.sunday ≤ length p.saturday + length p.sunday + 1
  unfolding place
  placed-place s p =
      ground (arith, length-append p.saturday (s ∷ []), length-append p.sunday (s ∷ []))

  allocate-limit :
      (tasks : List ScoredTask) (p : Plan)
      → length p.saturday + length p.sunday < settings.weekend_task_limit
      → let q = allocate settings sat_free sun_free tasks p in
        length q.saturday + length q.sunday ≤ settings.weekend_task_limit
  unfolding allocate
  allocate-limit [] p h = omega arith
  allocate-limit (s ∷ rest) p h =
      let p' = place settings sat_free sun_free s p in
      let next = placed-place s p in
      elim (Bool-cases (leb settings.weekend_task_limit (length p'.saturday + length p'.sunday))) [
        | inl full ↦ rw full (omega arith)
        | inr room ↦ rw room (allocate-limit rest p' (ground arith))
      ]

allocate-take-limit :
    (settings : Settings) (sat_free sun_free limit : ℕ) (tasks : List ScoredTask)
    → limit ≡ settings.weekend_task_limit
    → let q = allocate settings sat_free sun_free (take (limit * 2) tasks) empty_plan in
      length q.saturday + length q.sunday ≤ settings.weekend_task_limit
allocate-take-limit settings sat_free sun_free zero tasks e = unfold allocate in omega arith
allocate-take-limit settings sat_free sun_free (suc n) tasks e =
    allocate-limit settings sat_free sun_free (take (suc n * 2) tasks) empty_plan (omega arith)

-- The tasks planned for a day fill its free time at most, the time that the events of the day leave
-- of the capacity, and the two days together hold at most `weekend_task_limit` tasks.
pub weekend_fits :
    (lower : List ℕ → List ℕ) (today : ℕ) (settings : Settings) (tasks : List Task)
    (events : List Event)
    → let plan = build_weekend_digest lower today settings tasks events in
      let saturday = today + days_to_saturday today in
      let capacity = settings.weekend_capacity_hours * 60 in
      (minutes settings plan.saturday ≤ free_minutes capacity saturday events)
      × (minutes settings plan.sunday ≤ free_minutes capacity (saturday + 1) events)
      × (length plan.saturday + length plan.sunday ≤ settings.weekend_task_limit)
unfolding build_weekend_digest
weekend_fits lower today settings tasks events =
    let saturday = today + days_to_saturday today in
    let capacity = settings.weekend_capacity_hours * 60 in
    let sat_free = free_minutes capacity saturday events in
    let sun_free = free_minutes capacity (saturday + 1) events in
    let ranked = rank_tasks lower today settings true tasks in
    let f =
      allocate-IsFeasible settings sat_free sun_free (take (settings.weekend_task_limit * 2) ranked)
        empty_plan
        (record {
          sat_sum = refl;
          sun_sum = refl;
          sat_fits = omega arith;
          sun_fits = omega arith;
        }) in
    (
      omega (arith, f.sat_sum, f.sat_fits),
      omega (arith, f.sun_sum, f.sun_fits),
      allocate-take-limit settings sat_free sun_free settings.weekend_task_limit ranked refl,
    )
