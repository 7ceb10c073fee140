-- ===== src/Planner.antt =====
-- planner.py and models.py: tasks and their scores. A date is its proleptic ordinal (Python's
-- `toordinal`), and `today` is the date that `date.today()` reads. Priorities and durations are
-- natural numbers, and a section name is compared as its code points.
pub mod Rank
pub mod Digest
pub mod Weekend
pub mod Review
pub mod Explain
pub mod Bounds
mod Tests
use vela_flow_public.Prelude.{
  ℕ, ◌+◌, ◌-◌, ◌*◌, min, String, Bool, true, false, not, ◌&&◌, ◌||◌, Option, none, some, List, [],
  ◌∷◌, ◌++◌, any, ltb, leb, ◌==◌, str_eq, if◌then◌else◌,
}
use vela_flow_public.Prelude.Int.{ℤ, pos, negsuc, ◌+ℤ◌, ◌-ℤ◌}
use vela_flow_public.Prelude.Text.{codes, lower, is_infix}

-- the fields that the planner reads
pub record Task : Type 0 where
  pub id : String
  pub content : String
  pub project_name : String
  pub section_name : String
  pub priority : ℕ
  pub labels : List String
  pub due_date : Option ℕ
  pub duration_minutes : Option ℕ

pub record Settings : Type 0 where
  pub focus_label : String
  pub weekend_label : String
  pub default_task_duration_minutes : ℕ
  pub daily_top_task_limit : ℕ
  pub overdue_section_limit : ℕ
  pub weekend_capacity_hours : ℕ
  pub weekend_task_limit : ℕ

-- The texts that `score_task` appends to its reasons, with the numbers that they show.
pub data Reason : Type 0 where
  overdue : ℕ → ℕ → Reason
  due_today due_tomorrow due_in_2_days due_in_3_days : Reason
  has_priority : ℕ → ℕ → Reason
  has_focus has_weekend quick_win long_task no_due_date : Reason
  urgent doing high blocked rejected hidden_gem backlog : Reason

-- a score under construction
pub record Scoring : Type 0 where
  pub score : ℤ
  pub reasons : List Reason

-- `score += points` with the reason appended
abbrev pub gain : ℕ → Reason → Scoring → Scoring
gain points r s = record { score = s.score +ℤ pos points; reasons = s.reasons ++ r ∷ [] }

-- `score -= points`
abbrev pub lose : ℕ → Reason → Scoring → Scoring
lose points r s = record { score = s.score -ℤ pos points; reasons = s.reasons ++ r ∷ [] }

-- `label in task.labels`
abbrev pub has_label : String → Task → Bool
has_label label t = any (λ l. str_eq l label) t.labels

-- `task.duration_minutes or settings.default_task_duration_minutes`: no duration, or one of 0
abbrev pub duration_of : Settings → Task → ℕ
duration_of settings t = elim t.duration_minutes [
  | none ↦ settings.default_task_duration_minutes
  | some d ↦ if d == 0 then settings.default_task_duration_minutes else d
]

unfoldable pub score_due_date : ℕ → Task → Scoring → Scoring
score_due_date today t s = elim t.due_date [
  | none ↦ s
  | some due ↦
      if ltb due today
      then gain (min (today - due) 7 * 20) (overdue (today - due) (min (today - due) 7 * 20)) s
      else if due == today
      then gain 25 due_today s
      else if due - today == 1
      then gain 16 due_tomorrow s
      else if due - today == 2
      then gain 8 due_in_2_days s
      else if due - today == 3
      then gain 4 due_in_3_days s
      else s
]

-- the dict `priority_points`
abbrev pub priority_points : ℕ → ℕ
priority_points p = if p == 4 then 18 else if p == 3 then 10 else if p == 2 then 4 else 0

unfoldable pub score_priority : Task → Scoring → Scoring
score_priority t s =
    let pp = priority_points t.priority in
    if pp == 0 then s else gain pp (has_priority (5 - t.priority) pp) s

unfoldable pub score_labels : Settings → Bool → Task → Scoring → Scoring
score_labels settings weekend_mode t s =
    let s' = if has_label settings.focus_label t then gain 14 has_focus s else s in
    if weekend_mode && has_label settings.weekend_label t then gain 10 has_weekend s' else s'

unfoldable pub score_duration : Settings → Task → Scoring → Scoring
score_duration settings t s =
    let duration = duration_of settings t in
    if leb duration 30
    then gain 4 quick_win s
    else if leb 120 duration
    then lose 6 long_task s
    else s

abbrev pub is_none : Option ℕ → Bool
is_none none = true
is_none (some d) = false

unfoldable pub score_no_due_date : Settings → Task → Scoring → Scoring
score_no_due_date settings t s =
    if is_none t.due_date && not (has_label settings.focus_label t) then lose 4 no_due_date s else s

-- `word in sec`, for the section name in lower case
abbrev pub in_section : String → Task → Bool
in_section word t = is_infix (codes word) (lower (codes t.section_name))

unfoldable pub score_section : Task → Scoring → Scoring
score_section t s =
    if in_section "urgent" t || in_section "today" t
    then gain 12 urgent s
    else if in_section "doing" t
    then gain 10 doing s
    else if in_section "high" t
    then gain 6 high s
    else if in_section "blocked" t
    then lose 20 blocked s
    else if in_section "rejected" t
    then lose 30 rejected s
    else if in_section "backlog" t
    then (if leb 3 t.priority then gain 5 hidden_gem s else lose 2 backlog s)
    else s

pub record ScoredTask : Type 0 where
  pub task : Task
  pub score : ℤ
  pub reasons : List Reason

abbrev pub no_score : Scoring
no_score = record { score = pos 0; reasons = [] }

unfoldable pub scoring : ℕ → Settings → Bool → Task → Scoring
scoring today settings weekend_mode t = score_section t (
    score_no_due_date settings t (
      score_duration settings t (
        score_labels settings weekend_mode t (score_priority t (score_due_date today t no_score)))))

unfoldable pub score_task : ℕ → Settings → Bool → Task → ScoredTask
unfolding scoring
score_task today settings weekend_mode t =
    let s = scoring today settings weekend_mode t in
    record { task = t; score = s.score; reasons = s.reasons }
