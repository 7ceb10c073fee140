-- ===== src/Organizer.antt =====
-- organizer.py: the ideal section of a task, and `reorganize_board` with the writes that it asks the
-- client for. Whether a write works is a parameter, and so is
-- Python's `str.lower`. A date is its proleptic ordinal, and `today` is
-- what `date.today()` reads.
pub mod Labels
pub mod DryRun
pub mod Settled
mod Tests
use vela_flow_public.Prelude.{
  ℕ, ◌+◌, String, Bool, true, false, not, ◌&&◌, ◌||◌, Option, none, some, List, [], ◌∷◌, ◌++◌, any,
  length, leb, ◌==◌, str_eq, if◌then◌else◌,
}
use vela_flow_public.Dict.{Dict, lookup}
use vela_flow_public.Organizer.Labels.{infer_labels}

-- the fields that the organizer reads
pub record Task : Type 0 where
  pub id : String
  pub content : List ℕ
  pub description : List ℕ
  pub section_id : String
  pub section_name : String
  pub priority : ℕ
  pub labels : List String
  pub due_date : Option ℕ
  pub is_recurring : Bool

-- the placement by priority
abbrev pub by_priority : Bool → ℕ → Option String
by_priority has_due pri =
    if pri == 4
    then some "To Do - Urgent/Today"
    else if pri == 3
    then some "To Do - High"
    else if pri == 2
    then some "To Do - Normal"
    else if pri == 1
    then (if has_due then some "To Do - Low" else some "Backlog")
    else none

abbrev pub is_planner : String → Bool
is_planner name =
    str_eq name "Daily Planner" || str_eq name "Weekly Planner" || str_eq name "Weekend Planner"

-- the placement by due date, and then by priority
abbrev pub by_due_date : ℕ → Option ℕ → ℕ → Option String
by_due_date today none pri = by_priority false pri
by_due_date today (some due) pri =
    if leb due today
    then some "To Do - Urgent/Today"
    else if leb due (today + 2) && leb 3 pri
    then some "To Do - Urgent/Today"
    else by_priority true pri

unfoldable pub ideal_section_name : ℕ → Task → Option String
ideal_section_name today t =
    if any (str_eq "blocked") t.labels
    then some "Blocked"
    else if t.is_recurring
    then some "Ongoing recurring"
    else if is_planner t.section_name
    then none
    else by_due_date today t.due_date t.priority

-- the first section with this name
unfoldable pub find_section : String → Dict String → Option String
find_section target [] = none
find_section target ((sid, name) ∷ rest) =
    let later = find_section target rest in if str_eq name target then some sid else later

unfoldable pub suggest_section : ℕ → Dict String → Task → Option String
suggest_section today sections t = elim (ideal_section_name today t) [
  | none ↦ none
  | some target ↦ if str_eq target t.section_name then none else find_section target sections
]

pub record Move : Type 0 where
  pub task_id : String
  pub content : List ℕ
  pub from_section : String
  pub to_section : String
  pub to_section_id : String

pub record LabelUpdate : Type 0 where
  pub task_id : String
  pub content : List ℕ
  pub labels : List String

-- a call of the client, and what is noted of one that raises
pub data Write : Type 0 where
  move_task : String → String → Write
  update_task : String → List String → Write

pub data Error : Type 0 where
  no_project : Error
  failed_to_move failed_to_label : List ℕ → Error

pub record ReorganizeResult : Type 0 where
  pub tasks_moved : ℕ
  pub tasks_labeled : ℕ
  pub errors : List Error
  pub moves : List Move
  pub label_updates : List LabelUpdate

abbrev pub no_result : ReorganizeResult
no_result = record {
  tasks_moved = 0;
  tasks_labeled = 0;
  errors = [];
  moves = [];
  label_updates = [];
}

-- `section_map.get(sid, "?")`
abbrev pub name_of : String → Dict String → String
name_of sid sections = elim (lookup sid sections) [ none ↦ "?" | some name ↦ name ]

unfoldable pub planned_move : ℕ → Dict String → Task → Option Move
planned_move today sections t = elim (suggest_section today sections t) [
  | none ↦ none
  | some sid ↦
      let m : Move = record {
        task_id = t.id;
        content = t.content;
        from_section = t.section_name;
        to_section = name_of sid sections;
        to_section_id = sid;
      } in
      if str_eq sid "" || str_eq sid t.section_id then none else some m
]

abbrev pub is_empty {ℓ} : {A : Type ℓ} → List A → Bool
is_empty [] = true
is_empty (a ∷ rest) = false

unfoldable pub planned_labels : (List ℕ → List ℕ) → Task → Option LabelUpdate
planned_labels lower t =
    let suggestions = infer_labels lower t.content t.description in
    if is_empty t.labels && not (is_empty suggestions)
    then some (record { task_id = t.id; content = t.content; labels = suggestions })
    else none

-- the loop's state: the result, and the writes that were asked for
abbrev pub State : Type 0
State = ReorganizeResult × List Write

module _ (works : Write → Bool) (dry_run : Bool) where
  abbrev pub note_move : Option Move → State → State
  note_move none (r, ws) = (r, ws)
  note_move (some m) (r, ws) =
      let noted = record r { moves = r.moves ++ m ∷ [] } in
      let w = move_task m.task_id m.to_section_id in
      if dry_run
      then (noted, ws)
      else if works w
      then (record noted { tasks_moved = r.tasks_moved + 1 }, ws ++ w ∷ [])
      else (record noted { errors = r.errors ++ failed_to_move m.content ∷ [] }, ws ++ w ∷ [])

  abbrev pub note_labels : Option LabelUpdate → State → State
  note_labels none (r, ws) = (r, ws)
  note_labels (some u) (r, ws) =
      let noted = record r { label_updates = r.label_updates ++ u ∷ [] } in
      let w = update_task u.task_id u.labels in
      if dry_run
      then (noted, ws)
      else if works w
      then (record noted { tasks_labeled = r.tasks_labeled + 1 }, ws ++ w ∷ [])
      else (record noted { errors = r.errors ++ failed_to_label u.content ∷ [] }, ws ++ w ∷ [])

  module _ (lower : List ℕ → List ℕ) (move_tasks auto_label : Bool) (today : ℕ)
      (sections : Dict String) where
    abbrev pub visit : Task → State → State
    visit t s =
        note_labels (if auto_label then planned_labels lower t else none)
          (note_move (if move_tasks then planned_move today sections t else none) s)

    unfoldable pub visit_all : List Task → State → State
    visit_all [] s = s
    visit_all (t ∷ ts) s = visit_all ts (visit t s)

    -- the tasks and the sections are those that the client reads
    unfoldable pub reorganize_board : String → List Task → State
    reorganize_board project_id tasks =
        let (r, ws) = visit_all tasks (no_result, []) in
        if str_eq project_id ""
        then (record no_result { errors = no_project ∷ [] }, [])
        else if dry_run
        then (record r { tasks_moved = length r.moves; tasks_labeled = length r.label_updates }, ws)
        else (r, ws)
