-- ===== src/Queue/Scheduler/Tests.antt =====
-- The tenant scheduler at work, and its theorems at concrete inputs.
use vela_flow_public.Prelude.{ℕ, ◌+◌, ◌≤◌, ◌≡◌, refl, String, true, false, [], ◌∷◌, length}
use vela_flow_public.Prelude.Text.{lower, lower_code}
use vela_flow_public.Queue.{new_queue, enqueue}
use vela_flow_public.Queue.Scheduler.{
  Tenant, Now, never, Source, Progress, enqueue_job, is_digest_day, is_daily_due, is_overdue_due,
  is_weekend_due, is_weekly_due, check_daily, check_overdue, check_weekend, check_weekly,
  check_tenant, tick,
}
use vela_flow_public.Queue.Scheduler.Once.{check_again, tick-active}
use vela_flow_public.Queue.Scheduler.Daily.{dailies, check-counts, checks, daily_once}

abbrev ids : Source → String
ids source = "sched_token"

abbrev tenant : Tenant
tenant = record {
  tenant_id = "tn_1";
  is_active = true;
  config = record {
    daily_digest_time = "07:00";
    daily_digest_days = "mon, Tue ,wed";
    overdue_alert_enabled = true;
    overdue_alert_interval_hours = 7;
    weekend_planner_enabled = false;
    weekly_review_enabled = false;
  };
}

abbrev at : String → ℕ → ℕ → Now
at time hour minute = record {
  current_time = time;
  current_day = "tue";
  today_key = "2026-04-14";
  hour = hour;
  minute = minute;
}

abbrev empty : Progress
empty = record { last = never; queue = new_queue; count = 0 }

abbrev seven : Now
seven = at "07:00" 7 0

two_jobs : (check_tenant ids tenant seven empty).count ≡ 2
unfolding check_tenant check_daily check_overdue check_weekend check_weekly is_daily_due
    is_overdue_due is_weekend_due is_weekly_due is_digest_day lower lower_code enqueue_job enqueue
two_jobs = refl

check_again_run :
    let first = record (check_tenant ids tenant seven empty) { count = 0 } in
    check_tenant ids tenant seven first ≡ first
check_again_run = check_again ids ids tenant seven empty

tick-active_example :
    tick
      (λ n. ids)
      seven
      (record tenant { is_active = false } ∷ tenant ∷ [])
      (record { last_check = []; queue = new_queue })
    ≡ tick (λ n. ids) seven (tenant ∷ []) (record { last_check = []; queue = new_queue })
tick-active_example =
    tick-active (λ n. ids) seven (record tenant { is_active = false } ∷ tenant ∷ [])
      (record { last_check = []; queue = new_queue })

check-counts_example :
    let p' = check_tenant ids tenant seven empty in
    (length p'.queue.queue + 0 ≡ 0 + p'.count) × (p'.count ≤ 0 + 4)
check-counts_example = check-counts ids tenant seven empty

daily_once_example :
    dailies (checks ids tenant (seven ∷ seven ∷ at "07:01" 7 1 ∷ []) empty).queue.queue ≤ 0 + 1
daily_once_example =
    daily_once ids tenant "2026-04-14" (seven ∷ seven ∷ at "07:01" 7 1 ∷ []) empty
      (refl, (refl, (refl, tt)))
