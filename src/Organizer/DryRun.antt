-- ===== src/Organizer/DryRun.antt =====
-- A dry run says what a run would do.
use mathlib.Core.List.{append-nil, append_assoc}
use vela_flow_public.Prelude.{
  ℕ, ◌+◌, ◌≡◌, ◌∙◌, sym, ap, refl, String, Bool, true, false, Option, none, some, List, [], ◌∷◌,
  ◌++◌, length, length-append, map, keep, keep-append, not, str_eq, if◌then◌else◌, arith,
  Bool-cases, inl, inr,
}
use vela_flow_public.Dict.{Dict}
use vela_flow_public.Organizer.{
  Task, Move, LabelUpdate, Write, move_task, update_task, failed_to_move, failed_to_label, Error,
  no_result, State, planned_move, planned_labels, note_move, note_labels, visit, visit_all,
  reorganize_board,
}

abbrev listed {ℓ} : {A : Type ℓ} → Option A → List A
listed none = []
listed (some a) = a ∷ []

-- the plans of the tasks, in their order
abbrev plans {ℓ} : {A : Type ℓ} → (Task → Option A) → List Task → List A
plans plan [] = []
plans plan (t ∷ ts) = listed (plan t) ++ plans plan ts

module _ (works : Write → Bool) (dry : Bool) where
  move-moves :
      (o : Option Move) (s : State) → (note_move works dry o s).0.moves ≡ s.0.moves ++ listed o
  move-moves none s = sym (append-nil s.0.moves)
  move-moves (some m) s = ground arith

  move-labels :
      (o : Option Move) (s : State) → (note_move works dry o s).0.label_updates ≡ s.0.label_updates
  move-labels none s = refl
  move-labels (some m) s = ground arith

  labels-labels :
      (o : Option LabelUpdate) (s : State)
      → (note_labels works dry o s).0.label_updates ≡ s.0.label_updates ++ listed o
  labels-labels none s = sym (append-nil s.0.label_updates)
  labels-labels (some m) s = ground arith

  labels-moves :
      (o : Option LabelUpdate) (s : State) → (note_labels works dry o s).0.moves ≡ s.0.moves
  labels-moves none s = refl
  labels-moves (some m) s = ground arith

  module _ (lower : List ℕ → List ℕ) (move_tasks auto_label : Bool) (today : ℕ)
      (sections : Dict String) where
    abbrev move_plan : Task → Option Move
    move_plan t = if move_tasks then planned_move today sections t else none

    abbrev label_plan : Task → Option LabelUpdate
    label_plan t = if auto_label then planned_labels lower t else none

    all-moves :
        (ts : List Task) (s : State)
        → (visit_all works dry lower move_tasks auto_label today sections ts s).0.moves
          ≡ s.0.moves ++ plans move_plan ts
    unfolding visit_all
    all-moves [] s = sym (append-nil s.0.moves)
    all-moves (t ∷ ts) s =
        let moved = note_move works dry (move_plan t) s in
        all-moves ts (visit works dry lower move_tasks auto_label today sections t s)
        ∙ ap (λ ms. ms ++ plans move_plan ts)
            (labels-moves (label_plan t) moved ∙ move-moves (move_plan t) s)
        ∙ append_assoc s.0.moves (listed (move_plan t)) (plans move_plan ts)

    all-labels :
        (ts : List Task) (s : State)
        → (visit_all works dry lower move_tasks auto_label today sections ts s).0.label_updates
          ≡ s.0.label_updates ++ plans label_plan ts
    unfolding visit_all
    all-labels [] s = sym (append-nil s.0.label_updates)
    all-labels (t ∷ ts) s =
        let moved = note_move works dry (move_plan t) s in
        all-labels ts (visit works dry lower move_tasks auto_label today sections t s)
        ∙ ap (λ ms. ms ++ plans label_plan ts)
            (labels-labels (label_plan t) moved
              ∙ ap (λ us. us ++ listed (label_plan t)) (move-labels (move_plan t) s))
        ∙ append_assoc s.0.label_updates (listed (label_plan t)) (plans label_plan ts)

module _ {ℓ} {A : Type ℓ} where
  keep-snoc :
      (p : A → Bool) (xs : List A) (x : A)
      → p x ≡ true
      → keep p (xs ++ x ∷ []) ≡ keep p xs ++ x ∷ []
  keep-snoc p xs x h = keep-append p xs (x ∷ []) ∙ rw h refl

  drop-snoc : (p : A → Bool) (xs : List A) (x : A) → p x ≡ false → keep p (xs ++ x ∷ []) ≡ keep p xs
  drop-snoc p xs x h = keep-append p xs (x ∷ []) ∙ rw h (append-nil (keep p xs))

  map-snoc {κ} :
      {B : Type κ} (f : A → B) (xs : List A) (x : A) → map f (xs ++ x ∷ []) ≡ map f xs ++ f x ∷ []
  map-snoc f [] x = refl
  map-snoc f (y ∷ xs) x = ap (λ ys. f y ∷ ys) (map-snoc f xs x)

-- The writes that were sent for some plans, how many of them worked, and the errors of the others.
record IsTold {P : Type 0} (works : Write → Bool) (write : P → Write) (err : P → Error)
    (plans : List P) (sent : List Write) (count : ℕ) (errors : List Error) : Type 0 where
  is_sent : sent ≡ map write plans
  is_counted : count ≡ length (keep works (map write plans))
  is_noted : errors ≡ map err (keep (λ p. not (works (write p))) plans)

module _ {P : Type 0} (works : Write → Bool) (write : P → Write) (err : P → Error) (plans : List P)
    (sent : List Write) (count : ℕ) (errors : List Error)
    (told : IsTold works write err plans sent count errors) (p : P) where
  tell-done :
      works (write p) ≡ true
      → IsTold works write err (plans ++ p ∷ []) (sent ++ write p ∷ []) (count + 1) errors
  tell-done fine = record {
    is_sent = ap (λ ws. ws ++ write p ∷ []) told.is_sent ∙ sym (map-snoc write plans p);
    is_counted =
        ap (λ n. n + 1) told.is_counted
        ∙ sym (
            ap (λ ws. length (keep works ws)) (map-snoc write plans p)
            ∙ ap length (keep-snoc works (map write plans) (write p) fine)
            ∙ length-append (keep works (map write plans)) (write p ∷ []));
    is_noted =
        told.is_noted
        ∙ sym (ap (map err) (drop-snoc (λ q. not (works (write q))) plans p (rw fine refl)));
  }

  tell-failed :
      works (write p) ≡ false
      → IsTold works write err (plans ++ p ∷ []) (sent ++ write p ∷ []) count (errors ++ err p ∷ [])
  tell-failed failed = record {
    is_sent = ap (λ ws. ws ++ write p ∷ []) told.is_sent ∙ sym (map-snoc write plans p);
    is_counted =
        told.is_counted
        ∙ sym (
            ap (λ ws. length (keep works ws)) (map-snoc write plans p)
            ∙ ap length (drop-snoc works (map write plans) (write p) failed));
    is_noted =
        ap (λ es. es ++ err p ∷ []) told.is_noted
        ∙ sym (
            ap (map err) (keep-snoc (λ q. not (works (write q))) plans p (rw failed refl))
            ∙ map-snoc err (keep (λ q. not (works (write q))) plans) p);
  }

abbrev pub is_move : Write → Bool
is_move (move_task id sid) = true
is_move (update_task id labels) = false

abbrev pub is_move_error : Error → Bool
is_move_error (failed_to_move content) = true
is_move_error e = false

abbrev pub move_write : Move → Write
move_write m = move_task m.task_id m.to_section_id

abbrev pub label_write : LabelUpdate → Write
label_write u = update_task u.task_id u.labels

abbrev move_error : Move → Error
move_error m = failed_to_move m.content

abbrev label_error : LabelUpdate → Error
label_error u = failed_to_label u.content

abbrev is_label : Write → Bool
is_label w = not (is_move w)

abbrev is_label_error : Error → Bool
is_label_error e = not (is_move_error e)

module _ (works : Write → Bool) where
  abbrev MovesTold : State → Type 0
  MovesTold s =
      IsTold works move_write move_error s.0.moves (keep is_move s.1) s.0.tasks_moved
        (keep is_move_error s.0.errors)

  abbrev LabelsTold : State → Type 0
  LabelsTold s =
      IsTold works label_write label_error s.0.label_updates (keep is_label s.1) s.0.tasks_labeled
        (keep is_label_error s.0.errors)

  record AreTold (s : State) : Type 0 where
    moves : MovesTold s
    labels : LabelsTold s

  move-AreTold : (o : Option Move) (s : State) → AreTold s → AreTold (note_move works false o s)
  move-AreTold none s t = t
  move-AreTold (some m) s t =
      let w = move_write m in
      let sent = keep-snoc is_move s.1 w refl in
      let unsent = drop-snoc is_label s.1 w refl in
      let e = move_error m in
      elim (Bool-cases (works w)) [
        | inl fine ↦ rw fine (record {
          moves = rw sent (
              tell-done works move_write move_error s.0.moves (keep is_move s.1) s.0.tasks_moved
                (keep is_move_error s.0.errors) t.moves m fine);
          labels = rw unsent t.labels;
        })
        | inr failed ↦ rw failed (record {
          moves =
              rw (sent, keep-snoc is_move_error s.0.errors e refl)
                (tell-failed works move_write move_error s.0.moves (keep is_move s.1)
                  s.0.tasks_moved (keep is_move_error s.0.errors) t.moves m failed);
          labels = rw (unsent, drop-snoc is_label_error s.0.errors e refl) t.labels;
        })
      ]

  labels-AreTold :
      (o : Option LabelUpdate) (s : State) → AreTold s → AreTold (note_labels works false o s)
  labels-AreTold none s t = t
  labels-AreTold (some u) s t =
      let w = label_write u in
      let sent = keep-snoc is_label s.1 w refl in
      let unsent = drop-snoc is_move s.1 w refl in
      let e = label_error u in
      elim (Bool-cases (works w)) [
        | inl fine ↦ rw fine (record {
          labels = rw sent (
              tell-done works label_write label_error s.0.label_updates (keep is_label s.1)
                s.0.tasks_labeled (keep is_label_error s.0.errors) t.labels u fine);
          moves = rw unsent t.moves;
        })
        | inr failed ↦ rw failed (record {
          labels =
              rw (sent, keep-snoc is_label_error s.0.errors e refl)
                (tell-failed works label_write label_error s.0.label_updates (keep is_label s.1)
                  s.0.tasks_labeled (keep is_label_error s.0.errors) t.labels u failed);
          moves = rw (unsent, drop-snoc is_move_error s.0.errors e refl) t.moves;
        })
      ]

  all-AreTold :
      (lower : List ℕ → List ℕ) (move_tasks auto_label : Bool) (today : ℕ) (sections : Dict String)
      (ts : List Task) (s : State)
      → AreTold s
      → AreTold (visit_all works false lower move_tasks auto_label today sections ts s)
  unfolding visit_all
  all-AreTold lower move_tasks auto_label today sections [] s b = b
  all-AreTold lower move_tasks auto_label today sections (t ∷ ts) s b =
      let move = if move_tasks then planned_move today sections t else none in
      let labels = if auto_label then planned_labels lower t else none in
      all-AreTold lower move_tasks auto_label today sections ts
        (visit works false lower move_tasks auto_label today sections t s)
        (labels-AreTold labels (note_move works false move s) (move-AreTold move s b))

move-unsent :
    (works : Write → Bool) (o : Option Move) (s : State) → (note_move works true o s).1 ≡ s.1
move-unsent works none s = refl
move-unsent works (some m) s = refl

labels-unsent :
    (works : Write → Bool) (o : Option LabelUpdate) (s : State)
    → (note_labels works true o s).1 ≡ s.1
labels-unsent works none s = refl
labels-unsent works (some m) s = refl

all-unsent :
    (works : Write → Bool) (lower : List ℕ → List ℕ) (move_tasks auto_label : Bool) (today : ℕ)
    (sections : Dict String) (ts : List Task) (s : State)
    → (visit_all works true lower move_tasks auto_label today sections ts s).1 ≡ s.1
unfolding visit_all
all-unsent works lower move_tasks auto_label today sections [] s = refl
all-unsent works lower move_tasks auto_label today sections (t ∷ ts) s =
    let move = if move_tasks then planned_move today sections t else none in
    let labels = if auto_label then planned_labels lower t else none in
    all-unsent works lower move_tasks auto_label today sections ts
      (visit works true lower move_tasks auto_label today sections t s)
    ∙ labels-unsent works labels (note_move works true move s)
    ∙ move-unsent works move s

-- A dry run writes nothing, and counts its moves and its label updates. A run on the same tasks has
-- the same moves and label updates in the same order. It sends one write for each move, of the task to
-- the section, and one for each label update, of the task with the labels; it counts those that work,
-- and has an error for each that does not, with the content of the task. The project is set.
pub dry_run_predicts :
    (works elsewhere : Write → Bool) (lower : List ℕ → List ℕ) (move_tasks auto_label : Bool)
    (today : ℕ) (sections : Dict String) (project : String) (ts : List Task)
    → str_eq project "" ≡ false
    → let plan =
        reorganize_board elsewhere true lower move_tasks auto_label today sections project ts in
      let done =
        reorganize_board works false lower move_tasks auto_label today sections project ts in
      let moves = plan.0.moves in
      let updates = plan.0.label_updates in
      (plan.1 ≡ [])
      × (plan.0.tasks_moved ≡ length moves)
      × (plan.0.tasks_labeled ≡ length updates)
      × (done.0.moves ≡ moves)
      × (done.0.label_updates ≡ updates)
      × (keep is_move done.1 ≡ map move_write moves)
      × (keep (λ w. not (is_move w)) done.1 ≡ map label_write updates)
      × (done.0.tasks_moved ≡ length (keep works (map move_write moves)))
      × (done.0.tasks_labeled ≡ length (keep works (map label_write updates)))
      × (keep is_move_error done.0.errors
          ≡ map (λ m. failed_to_move m.content) (keep (λ m. not (works (move_write m))) moves))
      × (keep (λ e. not (is_move_error e)) done.0.errors
          ≡ map (λ u. failed_to_label u.content) (keep (λ u. not (works (label_write u))) updates))
unfolding reorganize_board
dry_run_predicts works elsewhere lower move_tasks auto_label today sections project ts set =
    let start : State = (no_result, []) in
    let none_told : AreTold works start = record {
      moves = record { is_sent = refl; is_counted = refl; is_noted = refl };
      labels = record { is_sent = refl; is_counted = refl; is_noted = refl };
    } in
    let t = all-AreTold works lower move_tasks auto_label today sections ts start none_told in
    let moves =
      all-moves works false lower move_tasks auto_label today sections ts start
      ∙ sym (all-moves elsewhere true lower move_tasks auto_label today sections ts start) in
    let labels =
      all-labels works false lower move_tasks auto_label today sections ts start
      ∙ sym (all-labels elsewhere true lower move_tasks auto_label today sections ts start) in
    rw set (
      all-unsent elsewhere lower move_tasks auto_label today sections ts start,
      refl,
      refl,
      moves,
      labels,
      t.moves.is_sent ∙ ap (map move_write) moves,
      t.labels.is_sent ∙ ap (map label_write) labels,
      t.moves.is_counted ∙ ap (λ ms. length (keep works (map move_write ms))) moves,
      t.labels.is_counted ∙ ap (λ us. length (keep works (map label_write us))) labels,
      t.moves.is_noted
          ∙ ap
              (λ ms.
                map (λ m. failed_to_move m.content) (keep (λ m. not (works (move_write m))) ms))
              moves,
      t.labels.is_noted
          ∙ ap
              (λ us.
                map (λ u. failed_to_label u.content) (keep (λ u. not (works (label_write u))) us))
              labels,
    )
