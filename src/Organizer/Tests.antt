-- ===== src/Organizer/Tests.antt =====
-- A board of two tasks, and the theorems at it.
use vela_flow_public.Prelude.{
  ◌≡◌, refl, String, Bool, true, false, none, some, [], ◌∷◌, length, map, keep, not,
}
use vela_flow_public.Prelude.Text.{lower}
use vela_flow_public.Dict.{Dict, lookup}
use vela_flow_public.Organizer.{
  failed_to_move, failed_to_label, Task, Write, reorganize_board, planned_move, planned_labels,
}
use vela_flow_public.Organizer.DryRun.{
  is_move, is_move_error, move_write, label_write, dry_run_predicts,
}
use vela_flow_public.Organizer.Settled.{applied, run_settles}

abbrev sections : Dict String
sections = ("1", "Backlog") ∷ ("2", "To Do - Urgent/Today") ∷ []

-- "pc" in the backlog, due today
abbrev late : Task
late = record {
  id = "t1";
  content = 112 ∷ 99 ∷ [];
  description = [];
  section_id = "1";
  section_name = "Backlog";
  priority = 2;
  labels = [];
  due_date = some 10;
  is_recurring = false;
}

abbrev works : Write → Bool
works w = true

abbrev fails : Write → Bool
fails w = false

dry_run_predicts_example :
    let plan = reorganize_board works true lower true true 10 sections "p" (late ∷ []) in
    let done = reorganize_board fails false lower true true 10 sections "p" (late ∷ []) in
    let moves = plan.0.moves in
    let updates = plan.0.label_updates in
    (plan.1 ≡ [])
    × (plan.0.tasks_moved ≡ length moves)
    × (plan.0.tasks_labeled ≡ length updates)
    × (done.0.moves ≡ moves)
    × (done.0.label_updates ≡ updates)
    × (keep is_move done.1 ≡ map move_write moves)
    × (keep (λ w. not (is_move w)) done.1 ≡ map label_write updates)
    × (done.0.tasks_moved ≡ length (keep fails (map move_write moves)))
    × (done.0.tasks_labeled ≡ length (keep fails (map label_write updates)))
    × (keep is_move_error done.0.errors
        ≡ map (λ m. failed_to_move m.content) (keep (λ m. not (fails (move_write m))) moves))
    × (keep (λ e. not (is_move_error e)) done.0.errors
        ≡ map (λ u. failed_to_label u.content) (keep (λ u. not (fails (label_write u))) updates))
dry_run_predicts_example =
    dry_run_predicts fails works lower true true 10 sections "p" (late ∷ []) refl

run_settles_example :
    (planned_move 10 sections (applied lower 10 sections late) ≡ none)
    × (planned_labels lower (applied lower 10 sections late) ≡ none)
unfolding lookup
run_settles_example = run_settles lower 10 sections (refl, (refl, tt)) late
