-- ===== src/Planner/Tests.antt =====
-- Tasks, scores and plans at concrete inputs.
use Prim.Native.Nat.{ℕ, ◌+◌, ◌≤◌}
use mathlib.Core.List.{Perm}
use vela_flow_public.Prelude.{
  ◌⊎◌, ◌≡◌, refl, true, false, ◌&&◌, ◌||◌, not, none, some, List, [], ◌∷◌, map, keep, take, length,
  All, leb,
}
use vela_flow_public.Prelude.Int.{pos, negsuc, ◌≤ℤ◌, ◌+ℤ◌, ◌-ℤ◌}
use vela_flow_public.Prelude.Keys.{IsDistinct, has}
use vela_flow_public.Prelude.Text.{lower, is_infix}
use vela_flow_public.Planner.{
  Task, Settings, score_task, score_due_date, score_priority, score_labels, score_duration,
  score_no_due_date, score_section, has_label,
}
use vela_flow_public.Planner.Explain.{total_worth, score_task-explained}
use vela_flow_public.Planner.Bounds.{score_task-bounds}
use vela_flow_public.Planner.Rank.{AreOrdered, rank_tasks, rank_tasks-sorts}
use vela_flow_public.Planner.Digest.{
  is_overdue, is_due_today, is_upcoming, select_daily, build_overdue_alert,
}
use vela_flow_public.Planner.Digest.Selection.{
  ids, top-IsDistinct, top_complete, sections_exact, AlertCounts, alerted_overdue,
}
use vela_flow_public.Planner.Weekend.{
  Event, days_to_saturday, weekday, free_minutes, build_weekend_digest,
}
use vela_flow_public.Planner.Weekend.Capacity.{next_saturday, minutes, weekend_fits}
use vela_flow_public.Planner.Weekend.Conservation.{everything, weekend_conserves}
use vela_flow_public.Planner.Review.{build_weekly_review, total, project_counts_add_up}

abbrev settings : Settings
settings = record {
  focus_label = "focus";
  weekend_label = "weekend";
  default_task_duration_minutes = 30;
  daily_top_task_limit = 2;
  overdue_section_limit = 5;
  weekend_capacity_hours = 3;
  weekend_task_limit = 2;
}

abbrev taxes : Task
taxes = record {
  id = "1";
  content = "File taxes";
  project_name = "Home";
  section_name = "Blocked by bank";
  priority = 4;
  labels = "focus" ∷ [];
  due_date = some 739000;
  duration_minutes = some 120;
}

abbrev walk : Task
walk = record {
  id = "2";
  content = "Walk";
  project_name = "";
  section_name = "";
  priority = 1;
  labels = [];
  due_date = none;
  duration_minutes = none;
}

abbrev tasks : List Task
tasks = walk ∷ taxes ∷ []

-- overdue by 10 days: 140 + 18 + 14 - 6 - 20
taxes_score : (score_task 739010 settings false taxes).score ≡ pos 146
unfolding score_task score_due_date score_priority score_labels score_duration score_no_due_date
    score_section lower is_infix ◌+ℤ◌ ◌-ℤ◌
taxes_score = refl

score_task-explained_run :
    (score_task 739010 settings false taxes).score
    ≡ total_worth (score_task 739010 settings false taxes).reasons
score_task-explained_run = score_task-explained 739010 settings false taxes

score_task-bounds_run :
    (negsuc 39 ≤ℤ (score_task 739010 settings true walk).score)
    × ((score_task 739010 settings true walk).score ≤ℤ pos 198)
score_task-bounds_run = score_task-bounds 739010 settings true walk

rank_tasks-sorts_example :
    let ranked = rank_tasks lower 739010 settings false tasks in
    AreOrdered lower ranked × Perm ranked (map (score_task 739010 settings false) tasks)
rank_tasks-sorts_example = rank_tasks-sorts lower 739010 settings false tasks

top-IsDistinct_run :
    let top = (select_daily 739010 settings (rank_tasks lower 739010 settings false tasks)).top in
    IsDistinct (ids top) × (length top ≤ 2)
top-IsDistinct_run = top-IsDistinct 739010 settings (rank_tasks lower 739010 settings false tasks)

top_complete_example :
    let ranked = rank_tasks lower 739010 settings false tasks in
    let top = (select_daily 739010 settings ranked).top in
    All (λ s. (has s.task.id (ids top) || leb 2 (length top)) ≡ true) ranked
top_complete_example = top_complete 739010 settings (rank_tasks lower 739010 settings false tasks)

sections_exact_example :
    let ranked = rank_tasks lower 739010 settings false tasks in
    let d = select_daily 739010 settings ranked in
    (d.focus
      ≡ keep
          (λ s.
            has_label "focus" s.task
            && not (is_overdue 739010 s.task)
            && not (is_due_today 739010 s.task))
          ranked)
    × (d.upcoming
        ≡ take 7 (keep (λ s. is_upcoming 739010 s.task && not (has_label "focus" s.task)) ranked))
sections_exact_example =
    sections_exact 739010 settings (rank_tasks lower 739010 settings false tasks)

alerted_overdue_example :
    AlertCounts (length (keep (is_overdue 739010) tasks)) (build_overdue_alert 739010 tasks)
alerted_overdue_example = alerted_overdue 739010 tasks

next_saturday_example :
    (weekday (739010 + days_to_saturday 739010) ≡ 5) × (days_to_saturday 739010 ≤ 6)
next_saturday_example = next_saturday 739010

abbrev events : List Event
events = (record { day = 739012; duration_minutes = pos 90 }) ∷ []

weekend_fits_example :
    let plan = build_weekend_digest lower 739010 settings tasks events in
    let saturday = 739010 + days_to_saturday 739010 in
    (minutes settings plan.saturday ≤ free_minutes 180 saturday events)
    × (minutes settings plan.sunday ≤ free_minutes 180 (saturday + 1) events)
    × (length plan.saturday + length plan.sunday ≤ 2)
weekend_fits_example = weekend_fits lower 739010 settings tasks events

weekend_conserves_example :
    let plan = build_weekend_digest lower 739010 settings tasks events in
    let ranked = take 4 (rank_tasks lower 739010 settings true tasks) in
    (n : ℕ) × Perm (everything plan) (take n ranked)
    × ((take n ranked ≡ ranked) ⊎ (2 ≤ length plan.saturday + length plan.sunday))
weekend_conserves_example = weekend_conserves lower 739010 settings tasks events

project_counts_add_up_example :
    let review = build_weekly_review lower 739010 settings tasks 3 in
    total review.projects ≡ review.active
project_counts_add_up_example = project_counts_add_up lower 739010 settings tasks 3
