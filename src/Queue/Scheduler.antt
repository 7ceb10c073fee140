-- ===== src/Queue/Scheduler.antt =====
-- queue/scheduler.py: `TenantScheduler`. The moment of a tick comes as the parts that the code
-- formats; what `_last_check` keeps under a name are the parts of the formatted key.
pub mod Once
pub mod Daily
mod Tests
use vela_flow_public.Prelude.{
  ℕ, ◌+◌, ◌%◌, String, Bool, true, false, not, ◌&&◌, ◌||◌, Option, none, some, List, [], ◌∷◌, ◌++◌,
  any, leb, ltb, ◌==◌, str_eq, if◌then◌else◌,
}
use vela_flow_public.Prelude.Text.{codes, lower, strip, same_text}
use vela_flow_public.Dict.{Dict, lookup, insert}
use vela_flow_public.Queue.{
  MessageType, pipeline_run, digest_generate, QueueMessage, TaskQueue, enqueue,
}

-- the schedule preferences of `TenantConfig`
pub record Schedule : Type 0 where
  pub daily_digest_time : String
  pub daily_digest_days : String
  pub overdue_alert_enabled : Bool
  pub overdue_alert_interval_hours : ℕ
  pub weekend_planner_enabled : Bool
  pub weekly_review_enabled : Bool

pub record Tenant : Type 0 where
  pub tenant_id : String
  pub is_active : Bool
  pub config : Schedule

-- `%H:%M`, `%a` in lower case, `%Y-%m-%d`, and the hour and the minute
pub record Now : Type 0 where
  pub current_time : String
  pub current_day : String
  pub today_key : String
  pub hour : ℕ
  pub minute : ℕ

pub record LastCheck : Type 0 where
  pub daily : Option String
  pub overdue : Option (String × ℕ)
  pub weekend : Option String
  pub weekly : Option String

abbrev pub never : LastCheck
never = record { daily = none; overdue = none; weekend = none; weekly = none }

-- the payload of a scheduled message, with `weekend_mode`
pub data Source : Type 0 where
  scheduled_daily scheduled_overdue scheduled_weekend scheduled_weekly : Source

-- `s.split(",")`
abbrev split_commas : List ℕ → List (List ℕ)
split_commas [] = [] ∷ []
split_commas (c ∷ s) = elim (split_commas s) [
  | [] ↦ (c ∷ []) ∷ []
  | word ∷ words ↦ if c == 44 then [] ∷ word ∷ words else (c ∷ word) ∷ words
]

-- `current_day in [d.strip().lower() for d in days.split(",")]`
unfoldable pub is_digest_day : String → String → Bool
unfolding lower strip
is_digest_day current_day days =
    any (λ d. same_text (lower (strip d)) (codes current_day)) (split_commas (codes days))

abbrev pub same_key : String → Option String → Bool
same_key key none = false
same_key key (some k) = str_eq k key

abbrev pub same_hour : String → ℕ → Option (String × ℕ) → Bool
same_hour key hour none = false
same_hour key hour (some (k, h)) = str_eq k key && h == hour

-- what the four checks read and write: the last checks of the tenant, the queue and the count
pub record Progress : Type 0 where
  pub last : LastCheck
  pub queue : TaskQueue Source
  pub count : ℕ

-- `_enqueue` and `count += 1`; the message's id is given for its source, and its time is left out
unfoldable pub enqueue_job : (Source → String) → String → MessageType → Source → Progress → Progress
unfolding enqueue
enqueue_job ids tenant_id message_type source p = record p {
  queue =
      enqueue
        (record {
          message_id = ids source;
          message_type = message_type;
          tenant_id = tenant_id;
          payload = source;
          created_at = 0;
          retry_count = 0;
          max_retries = 3;
        })
        p.queue;
  count = p.count + 1;
}

-- the tests of the four checks
module _ (config : Schedule) (now : Now) (last : LastCheck) where
  unfoldable pub is_daily_due : Bool
  unfolding is_digest_day
  is_daily_due =
      str_eq config.daily_digest_time now.current_time
      && is_digest_day now.current_day config.daily_digest_days
      && not (same_key now.today_key last.daily)

  unfoldable pub is_overdue_due : Bool
  is_overdue_due =
      config.overdue_alert_enabled
      && ltb 0 config.overdue_alert_interval_hours
      && (now.hour % config.overdue_alert_interval_hours == 0)
      && (now.minute == 0)
      && not (same_hour now.today_key now.hour last.overdue)

  unfoldable pub is_weekend_due : Bool
  is_weekend_due =
      config.weekend_planner_enabled
      && str_eq now.current_day "fri"
      && str_eq now.current_time "17:00"
      && not (same_key now.today_key last.weekend)

  unfoldable pub is_weekly_due : Bool
  is_weekly_due =
      config.weekly_review_enabled
      && str_eq now.current_day "sun"
      && str_eq now.current_time "20:00"
      && not (same_key now.today_key last.weekly)

module _ (ids : Source → String) (t : Tenant) (now : Now) where
  unfoldable pub check_daily : Progress → Progress
  unfolding enqueue_job is_daily_due
  check_daily p =
      if is_daily_due t.config now p.last
      then enqueue_job ids t.tenant_id pipeline_run scheduled_daily
          (record p { last = record p.last { daily = some now.today_key } })
      else p

  unfoldable pub check_overdue : Progress → Progress
  unfolding enqueue_job is_overdue_due
  check_overdue p =
      if is_overdue_due t.config now p.last
      then enqueue_job ids t.tenant_id pipeline_run scheduled_overdue
          (record p { last = record p.last { overdue = some (now.today_key, now.hour) } })
      else p

  unfoldable pub check_weekend : Progress → Progress
  unfolding enqueue_job is_weekend_due
  check_weekend p =
      if is_weekend_due t.config now p.last
      then enqueue_job ids t.tenant_id pipeline_run scheduled_weekend
          (record p { last = record p.last { weekend = some now.today_key } })
      else p

  unfoldable pub check_weekly : Progress → Progress
  unfolding enqueue_job is_weekly_due
  check_weekly p =
      if is_weekly_due t.config now p.last
      then enqueue_job ids t.tenant_id digest_generate scheduled_weekly
          (record p { last = record p.last { weekly = some now.today_key } })
      else p

  -- `_check_tenant` from the tenant's last checks
  unfoldable pub check_tenant : Progress → Progress
  check_tenant p = check_weekly (check_weekend (check_overdue (check_daily p)))

-- The state of the scheduler: the last checks of each tenant.
pub record TenantScheduler : Type 0 where
  pub last_check : Dict LastCheck
  pub queue : TaskQueue Source

abbrev pub last_of : String → Dict LastCheck → LastCheck
last_of tid d = elim (lookup tid d) [ none ↦ never | some last ↦ last ]

-- the call of `_check_tenant` for one tenant, with its count
unfoldable pub check_one :
    (ℕ → Source → String) → Now → Tenant → TenantScheduler → ℕ × TenantScheduler
check_one ids now t s =
    let start : Progress = record {
      last = last_of t.tenant_id s.last_check;
      queue = s.queue;
      count = 0;
    } in
    let p = check_tenant (ids s.queue.unfinished) t now start in
    (p.count, record { last_check = insert t.tenant_id p.last s.last_check; queue = p.queue })

-- `_tick` over the tenants that the manager lists; the count comes first
unfoldable pub tick :
    (ℕ → Source → String) → Now → List Tenant → TenantScheduler → ℕ × TenantScheduler
tick ids now [] s = (0, s)
tick ids now (t ∷ ts) s =
    let (n, s') = check_one ids now t s in
    let (others, s'') = tick ids now ts s' in
    let skipped = tick ids now ts s in if not t.is_active then skipped else (n + others, s'')
