-- ===== src/Queue/Scheduler/Daily.antt =====
-- How many jobs the checks of a tenant enqueue.
use vela_flow_public.Prelude.{
  ℕ, suc, ◌+◌, ◌≤◌, ◌≡◌, ◌∙◌, sym, ap, refl, String, false, some, List, [], ◌∷◌, ◌++◌, length,
  length-append, All, eq_refl, arith, if◌then◌else◌, Bool-cases, inl, inr,
}
use vela_flow_public.Queue.{MessageType, pipeline_run, digest_generate, QueueMessage, enqueue}
use vela_flow_public.Queue.Scheduler.{
  Tenant, Now, LastCheck, Source, scheduled_daily, scheduled_overdue, scheduled_weekend,
  scheduled_weekly, Progress, enqueue_job, is_daily_due, check_daily, check_overdue, check_weekend,
  check_weekly, check_tenant,
}

-- the daily digests among the messages
abbrev pub dailies : List (QueueMessage Source) → ℕ
dailies [] = 0
dailies (m ∷ ms) = let rest = dailies ms in elim m.payload [ scheduled_daily ↦ suc rest | _ ↦ rest ]

abbrev one_if_daily : Source → ℕ
one_if_daily source = elim source [ scheduled_daily ↦ 1 | _ ↦ 0 ]

dailies-append :
    (ms : List (QueueMessage Source)) (m : QueueMessage Source)
    → dailies (ms ++ m ∷ []) ≡ dailies ms + one_if_daily m.payload
dailies-append [] m = ground arith
dailies-append (n ∷ ms) m = ground (arith, dailies-append ms m)

module _ (ids : Source → String) (tenant_id : String) (message_type : MessageType) (source : Source)
    (p : Progress) where
  job_grows :
      let p' = enqueue_job ids tenant_id message_type source p in
      (length p'.queue.queue ≡ length p.queue.queue + 1) × (p'.count ≡ p.count + 1)
  unfolding enqueue_job enqueue
  job_grows = (length-append p.queue.queue _, refl)

  job_dailies :
      dailies (enqueue_job ids tenant_id message_type source p).queue.queue
      ≡ dailies p.queue.queue + one_if_daily source
  unfolding enqueue_job enqueue
  job_dailies = dailies-append p.queue.queue _

module _ (ids : Source → String) (t : Tenant) (now : Now) where
  -- the messages are counted where they are enqueued
  abbrev Grown : Progress → ℕ → Progress → Type 0
  Grown p n p' =
      (length p'.queue.queue + p.count ≡ length p.queue.queue + p'.count) × (p'.count ≤ p.count + n)

  Grown-daily : (p : Progress) → Grown p 1 (check_daily ids t now p)
  unfolding check_daily
  Grown-daily p = ground (
    arith,
    job_grows ids t.tenant_id pipeline_run scheduled_daily
        (record p { last = record p.last { daily = some now.today_key } }),
  )

  Grown-overdue : (p : Progress) → Grown p 1 (check_overdue ids t now p)
  unfolding check_overdue
  Grown-overdue p = ground (
    arith,
    job_grows ids t.tenant_id pipeline_run scheduled_overdue
        (record p { last = record p.last { overdue = some (now.today_key, now.hour) } }),
  )

  Grown-weekend : (p : Progress) → Grown p 1 (check_weekend ids t now p)
  unfolding check_weekend
  Grown-weekend p = ground (
    arith,
    job_grows ids t.tenant_id pipeline_run scheduled_weekend
        (record p { last = record p.last { weekend = some now.today_key } }),
  )

  Grown-weekly : (p : Progress) → Grown p 1 (check_weekly ids t now p)
  unfolding check_weekly
  Grown-weekly p = ground (
    arith,
    job_grows ids t.tenant_id digest_generate scheduled_weekly
        (record p { last = record p.last { weekly = some now.today_key } }),
  )

  -- A check of a tenant enqueues exactly as many messages as it counts, and at most four.
  pub check-counts :
      (p : Progress)
      → let p' = check_tenant ids t now p in
        (length p'.queue.queue + p.count ≡ length p.queue.queue + p'.count)
        × (p'.count ≤ p.count + 4)
  unfolding check_tenant
  check-counts p =
      let a = check_daily ids t now p in
      let b = check_overdue ids t now a in
      let c = check_weekend ids t now b in
      omega (arith, Grown-daily p, Grown-overdue a, Grown-weekend b, Grown-weekly c)

  dailies-daily :
      (p : Progress)
      → dailies (check_daily ids t now p).queue.queue
        ≡ dailies p.queue.queue + (if is_daily_due t.config now p.last then 1 else 0)
  unfolding check_daily
  dailies-daily p = ground (
    arith,
    job_dailies ids t.tenant_id pipeline_run scheduled_daily
        (record p { last = record p.last { daily = some now.today_key } }),
  )

  dailies-overdue :
      (p : Progress) → dailies (check_overdue ids t now p).queue.queue ≡ dailies p.queue.queue
  unfolding check_overdue
  dailies-overdue p = ground (
    arith,
    job_dailies ids t.tenant_id pipeline_run scheduled_overdue
        (record p { last = record p.last { overdue = some (now.today_key, now.hour) } }),
  )

  dailies-weekend :
      (p : Progress) → dailies (check_weekend ids t now p).queue.queue ≡ dailies p.queue.queue
  unfolding check_weekend
  dailies-weekend p = ground (
    arith,
    job_dailies ids t.tenant_id pipeline_run scheduled_weekend
        (record p { last = record p.last { weekend = some now.today_key } }),
  )

  dailies-weekly :
      (p : Progress) → dailies (check_weekly ids t now p).queue.queue ≡ dailies p.queue.queue
  unfolding check_weekly
  dailies-weekly p = ground (
    arith,
    job_dailies ids t.tenant_id digest_generate scheduled_weekly
        (record p { last = record p.last { weekly = some now.today_key } }),
  )

  last-daily :
      (p : Progress)
      → (check_tenant ids t now p).last.daily
        ≡ (if is_daily_due t.config now p.last then some now.today_key else p.last.daily)
  unfolding check_tenant check_daily check_overdue check_weekend check_weekly enqueue_job
  last-daily p = ground arith

  dailies-check :
      (p : Progress)
      → dailies (check_tenant ids t now p).queue.queue
        ≡ dailies p.queue.queue + (if is_daily_due t.config now p.last then 1 else 0)
  unfolding check_tenant
  dailies-check p =
      let a = check_daily ids t now p in
      let b = check_overdue ids t now a in
      let c = check_weekend ids t now b in
      dailies-weekly c ∙ dailies-weekend b ∙ dailies-overdue a ∙ dailies-daily p

  done-today :
      (last : LastCheck) → last.daily ≡ some now.today_key → is_daily_due t.config now last ≡ false
  unfolding is_daily_due
  done-today last h = ground (arith, eq_refl now.today_key)

-- the checks of one tenant at several moments
unfoldable pub checks : (Source → String) → Tenant → List Now → Progress → Progress
checks ids t [] p = p
checks ids t (now ∷ nows) p = checks ids t nows (check_tenant ids t now p)

plus_zero : (n : ℕ) → n + 0 ≡ n
plus_zero n = omega arith

module _ (ids : Source → String) (t : Tenant) (today : String) where
  dailies-done :
      (nows : List Now) (p : Progress)
      → All (λ now. now.today_key ≡ today) nows
      → p.last.daily ≡ some today
      → dailies (checks ids t nows p).queue.queue ≡ dailies p.queue.queue
  unfolding checks
  dailies-done [] p same done = refl
  dailies-done (now ∷ nows) p same done =
      let quiet = done-today ids t now p.last (done ∙ ap some (sym same.0)) in
      let kept = last-daily ids t now p ∙ rw quiet done in
      dailies-done nows (check_tenant ids t now p) same.1 kept
      ∙ dailies-check ids t now p
      ∙ rw quiet (plus_zero (dailies p.queue.queue))

  -- However often a tenant is checked on one day, at most one daily digest is enqueued for it.
  pub daily_once :
      (nows : List Now) (p : Progress)
      → All (λ now. now.today_key ≡ today) nows
      → dailies (checks ids t nows p).queue.queue ≤ dailies p.queue.queue + 1
  unfolding checks
  daily_once [] p same = omega arith
  daily_once (now ∷ nows) p same =
      let p' = check_tenant ids t now p in
      let more = dailies-check ids t now p in
      elim (Bool-cases (is_daily_due t.config now p.last)) [
        | inl due ↦
            let kept : p'.last.daily ≡ some today =
              last-daily ids t now p ∙ rw due (ap some same.0) in
            let one : dailies p'.queue.queue ≡ dailies p.queue.queue + 1 = more ∙ rw due refl in
            omega (arith, one, dailies-done nows p' same.1 kept)
        | inr quiet ↦
            let none_added : dailies p'.queue.queue ≡ dailies p.queue.queue + 0 =
              more ∙ rw quiet refl in
            omega (arith, none_added, daily_once nows p' same.1)
      ]
