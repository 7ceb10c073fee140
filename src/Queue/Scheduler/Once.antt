-- ===== src/Queue/Scheduler/Once.antt =====
-- The scheduler enqueues each job once.
use vela_flow_public.Prelude.{keep, ℕ, ◌≡◌, ◌∙◌, refl, String, false, List, [], ◌∷◌, eq_refl, arith}
use vela_flow_public.Queue.Scheduler.{
  Tenant, Now, LastCheck, Source, Progress, enqueue_job, is_daily_due, is_overdue_due,
  is_weekend_due, is_weekly_due, check_daily, check_overdue, check_weekend, check_weekly,
  check_tenant, TenantScheduler, tick, check_one,
}

module _ (ids : Source → String) (t : Tenant) (now : Now) where
  -- nothing is due
  record IsSettled (last : LastCheck) : Type 0 where
    daily : is_daily_due t.config now last ≡ false
    overdue : is_overdue_due t.config now last ≡ false
    weekend : is_weekend_due t.config now last ≡ false
    weekly : is_weekly_due t.config now last ≡ false

  daily-settles : (p : Progress) → is_daily_due t.config now (check_daily ids t now p).last ≡ false
  unfolding check_daily enqueue_job is_daily_due
  daily-settles p = ground (arith, eq_refl now.today_key)

  overdue-settles :
      (p : Progress) → is_overdue_due t.config now (check_overdue ids t now p).last ≡ false
  unfolding check_overdue enqueue_job is_overdue_due
  overdue-settles p = ground (arith, eq_refl now.today_key)

  weekend-settles :
      (p : Progress) → is_weekend_due t.config now (check_weekend ids t now p).last ≡ false
  unfolding check_weekend enqueue_job is_weekend_due
  weekend-settles p = ground (arith, eq_refl now.today_key)

  weekly-settles :
      (p : Progress) → is_weekly_due t.config now (check_weekly ids t now p).last ≡ false
  unfolding check_weekly enqueue_job is_weekly_due
  weekly-settles p = ground (arith, eq_refl now.today_key)

  overdue-keeps :
      (p : Progress)
      → is_daily_due t.config now (check_overdue ids t now p).last
        ≡ is_daily_due t.config now p.last
  unfolding check_overdue enqueue_job is_daily_due
  overdue-keeps p = ground arith

  weekend-keeps :
      (p : Progress)
      → let last = (check_weekend ids t now p).last in
        (is_daily_due t.config now last ≡ is_daily_due t.config now p.last)
        × (is_overdue_due t.config now last ≡ is_overdue_due t.config now p.last)
  unfolding check_weekend enqueue_job is_daily_due is_overdue_due
  weekend-keeps p = ground arith

  weekly-keeps :
      (p : Progress)
      → let last = (check_weekly ids t now p).last in
        (is_daily_due t.config now last ≡ is_daily_due t.config now p.last)
        × (is_overdue_due t.config now last ≡ is_overdue_due t.config now p.last)
        × (is_weekend_due t.config now last ≡ is_weekend_due t.config now p.last)
  unfolding check_weekly enqueue_job is_daily_due is_overdue_due is_weekend_due
  weekly-keeps p = ground arith

  check_tenant-IsSettled : (p : Progress) → IsSettled (check_tenant ids t now p).last
  unfolding check_tenant
  check_tenant-IsSettled p =
      let a = check_daily ids t now p in
      let b = check_overdue ids t now a in
      let c = check_weekend ids t now b in
      let (cd, co) = weekend-keeps b in
      let (wd, wo, ww) = weekly-keeps c in
      record {
        daily = wd ∙ cd ∙ overdue-keeps a ∙ daily-settles p;
        overdue = wo ∙ co ∙ overdue-settles a;
        weekend = ww ∙ weekend-settles b;
        weekly = weekly-settles c;
      }

  settled-stays : (p : Progress) → IsSettled p.last → check_tenant ids t now p ≡ p
  unfolding check_tenant check_daily check_overdue check_weekend check_weekly
  settled-stays p s = rw (s.daily, s.overdue, s.weekend, s.weekly) refl

-- A second check of a tenant at the same moment, from what the first one left, finds nothing due:
-- it enqueues nothing, counts nothing and remembers the same.
pub check_again :
    (ids again : Source → String) (t : Tenant) (now : Now) (p : Progress)
    → let first = record (check_tenant ids t now p) { count = 0 } in
      check_tenant again t now first ≡ first
check_again ids again t now p =
    let s = check_tenant-IsSettled ids t now p in
    settled-stays again t now (record (check_tenant ids t now p) { count = 0 })
      (record { daily = s.daily; overdue = s.overdue; weekend = s.weekend; weekly = s.weekly })

-- A tick does exactly what it would do if the inactive tenants were not there: they are neither
-- checked nor remembered, and the others are checked in the order of the list.
pub tick-active :
    (ids : ℕ → Source → String) (now : Now) (ts : List Tenant) (s : TenantScheduler)
    → tick ids now ts s ≡ tick ids now (keep (λ t. t.is_active) ts) s
unfolding tick
tick-active ids now [] s = refl
tick-active ids now (t ∷ ts) s =
    let s' = (check_one ids now t s).1 in
    ground (arith, tick-active ids now ts s', tick-active ids now ts s)
