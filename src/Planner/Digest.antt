-- ===== src/Planner/Digest.antt =====
-- planner.py: what `build_daily_digest` and `build_overdue_alert` select. The texts that they
-- print around the selection are not modelled.
pub mod Selection
use native.Mathlib.Decide.{ℕ_discrete}
use mathlib.Core.Bool.{decide, decide_iff}
use vela_flow_public.Prelude.{
  refl, ℕ, ◌+◌, ◌-◌, ◌≡◌, String, Bool, true, false, not, ◌&&◌, inl, inr, Bool-cases, Option, none,
  some, List, [], ◌∷◌, ◌++◌, map, any, keep, length, take, ltb, leb, ◌==◌, str_eq, eq_iff,
  if◌then◌else◌,
}
use vela_flow_public.Prelude.Keys.{has}
use vela_flow_public.Prelude.Int.{ℤ, pos, negsuc}
use vela_flow_public.Prelude.Sort.{sort}
use vela_flow_public.Planner.{Task, Settings, Reason, ScoredTask, has_label}
use vela_flow_public.Planner.Rank.{rank_tasks}

abbrev pub is_overdue : ℕ → Task → Bool
is_overdue today t = elim t.due_date [ none ↦ false | some d ↦ ltb d today ]

abbrev pub is_due_today : ℕ → Task → Bool
is_due_today today t = elim t.due_date [ none ↦ false | some d ↦ d == today ]

abbrev pub is_upcoming : ℕ → Task → Bool
is_upcoming today t = elim t.due_date [ none ↦ false | some d ↦ ltb today d ]

String_discrete : Discrete String
String_discrete a b = elim (Bool-cases (str_eq a b)) [
  | inl same ↦ yes ((eq_iff a b).0 same)
  | inr differ ↦ no (λ e. cc (differ, (eq_iff a b).1 e))
]

Reason-discrete : Discrete Reason
Reason-discrete = hlevel ℕ_discrete

pub ScoredTask-discrete : Discrete ScoredTask
ScoredTask-discrete = hlevel (ℕ_discrete, String_discrete, Reason-discrete)

-- the equality of the dataclass
pub same : ScoredTask → ScoredTask → Bool
same x s = decide (ScoredTask-discrete x s)

pub same→eq : (x s : ScoredTask) → same x s ≡ true → x ≡ s
unfolding same
same→eq x s = (decide_iff (ScoredTask-discrete x s)).0

pub same_refl : (s : ScoredTask) → same s s ≡ true
unfolding same
same_refl s = (decide_iff (ScoredTask-discrete s s)).1 refl

-- `s in scored`
abbrev pub is_among : ScoredTask → List ScoredTask → Bool
is_among s xs = any (λ x. same x s) xs

-- the loop over the ranked tasks, with the ids seen and the tasks taken so far
unfoldable pub pick_top : ℕ → List String → List ScoredTask → List ScoredTask → List ScoredTask
pick_top limit seen top [] = top
pick_top limit seen top (s ∷ rest) =
    let wanted = not (has s.task.id seen) && ltb (length top) limit in
    pick_top limit (if wanted then seen ++ s.task.id ∷ [] else seen)
      (if wanted then top ++ s ∷ [] else top) rest

pub record DailySelection : Type 0 where
  pub overdue : List ScoredTask
  pub due_today : List ScoredTask
  pub focus : List ScoredTask
  pub upcoming : List ScoredTask
  pub top : List ScoredTask

unfoldable pub select_daily : ℕ → Settings → List ScoredTask → DailySelection
unfolding pick_top
select_daily today settings ranked =
    let overdue = keep (λ s. is_overdue today s.task) ranked in
    let due_today = keep (λ s. is_due_today today s.task) ranked in
    let focus =
      keep
        (λ s.
          has_label settings.focus_label s.task
          && not (is_among s overdue)
          && not (is_among s due_today))
        ranked in
    record {
      overdue = overdue;
      due_today = due_today;
      focus = focus;
      upcoming = take 7 (keep (λ s. is_upcoming today s.task && not (is_among s focus)) ranked);
      top = pick_top settings.daily_top_task_limit [] [] ranked;
    }

unfoldable pub build_daily_digest : (List ℕ → List ℕ) → ℕ → Settings → List Task → DailySelection
unfolding select_daily
build_daily_digest lower today settings tasks =
    select_daily today settings (rank_tasks lower today settings false tasks)

-- `t.due_date or today`, the key of the alert's order
abbrev pub alert_key : ℕ → Task → ℕ
alert_key today t = elim t.due_date [ none ↦ today | some d ↦ d ]

-- an alert: the number of overdue tasks, those listed, and the number announced as "more"
pub record OverdueAlert : Type 0 where
  pub count : ℕ
  pub listed : List Task
  pub more : ℕ

unfoldable pub build_overdue_alert : ℕ → List Task → Option OverdueAlert
build_overdue_alert today tasks =
    let overdue = keep (is_overdue today) tasks in
    if length overdue == 0
    then none
    else some (record {
      count = length overdue;
      listed = take 10 (sort (λ x y. leb (alert_key today x) (alert_key today y)) overdue);
      more = length overdue - 10;
    })
