-- ===== src/Planner/Explain.antt =====
-- The reasons that `score_task` gives explain the score.
use vela_flow_public.Prelude.{
  Option-cases, inl, inr, ℕ, ◌≡◌, refl, Bool, true, false, List, [], ◌∷◌, ◌++◌, if◌then◌else◌,
}
use vela_flow_public.Prelude.Int.{ℤ, pos, negsuc, ◌+ℤ◌, ◌-ℤ◌, int_laws}
use vela_flow_public.Planner.{
  Task, Settings, Reason, overdue, due_today, due_tomorrow, due_in_2_days, due_in_3_days,
  has_priority, has_focus, has_weekend, quick_win, long_task, no_due_date, urgent, doing, high,
  blocked, rejected, hidden_gem, backlog, Scoring, gain, lose, score_due_date, score_priority,
  score_labels, score_duration, score_no_due_date, score_section, no_score, score_task,
}

-- The points that the text of a reason shows.
abbrev pub worth : Reason → ℤ
worth (overdue days points) = pos points
worth due_today = pos 25
worth due_tomorrow = pos 16
worth due_in_2_days = pos 8
worth due_in_3_days = pos 4
worth (has_priority p points) = pos points
worth has_focus = pos 14
worth has_weekend = pos 10
worth quick_win = pos 4
worth long_task = negsuc 5
worth no_due_date = negsuc 3
worth urgent = pos 12
worth doing = pos 10
worth high = pos 6
worth blocked = negsuc 19
worth rejected = negsuc 29
worth hidden_gem = pos 5
worth backlog = negsuc 1

abbrev pub total_worth : List Reason → ℤ
total_worth [] = pos 0
total_worth (r ∷ rs) = worth r +ℤ total_worth rs

total_worth-append :
    (rs : List Reason) (r : Reason) → total_worth (rs ++ r ∷ []) ≡ total_worth rs +ℤ worth r
total_worth-append [] r = omega int_laws
total_worth-append (x ∷ rs) r = rw (total_worth-append rs r) (omega int_laws)

IsExplained : Scoring → Type 0
IsExplained s = s.score ≡ total_worth s.reasons

gain-IsExplained :
    (n : ℕ) (r : Reason) (s : Scoring) → worth r ≡ pos n → IsExplained s → IsExplained (gain n r s)
unfolding IsExplained
gain-IsExplained n r s w h = rw (total_worth-append s.reasons r, w, h) refl

lose-IsExplained :
    (n : ℕ) (r : Reason) (s : Scoring)
    → worth r ≡ pos 0 -ℤ pos n
    → IsExplained s
    → IsExplained (lose n r s)
unfolding IsExplained
lose-IsExplained n r s w h = rw (total_worth-append s.reasons r, w, h) (omega int_laws)

IsExplained-if :
    (b : Bool) (x y : Scoring) → IsExplained x → IsExplained y → IsExplained (if b then x else y)
IsExplained-if true x y hx hy = hx
IsExplained-if false x y hx hy = hy

ruleset explain_rules = (IsExplained-if, gain-IsExplained, lose-IsExplained)

module _ (s : Scoring) (h : IsExplained s) where
  due_date-IsExplained : (today : ℕ) (t : Task) → IsExplained (score_due_date today t s)
  unfolding score_due_date
  due_date-IsExplained today t = elim (Option-cases t.due_date) [
    | inl no_date ↦ rw no_date h
    | inr (due, date) ↦ rw date (search explain_rules depth 12)
  ]

  priority-IsExplained : (t : Task) → IsExplained (score_priority t s)
  unfolding score_priority
  priority-IsExplained t = search explain_rules

  labels-IsExplained :
      (settings : Settings) (weekend : Bool) (t : Task)
      → IsExplained (score_labels settings weekend t s)
  unfolding score_labels
  labels-IsExplained settings weekend t = search explain_rules

  duration-IsExplained :
      (settings : Settings) (t : Task) → IsExplained (score_duration settings t s)
  unfolding score_duration ◌-ℤ◌
  duration-IsExplained settings t = search explain_rules

  no_due_date-IsExplained :
      (settings : Settings) (t : Task) → IsExplained (score_no_due_date settings t s)
  unfolding score_no_due_date ◌-ℤ◌
  no_due_date-IsExplained settings t = search explain_rules

  section-IsExplained : (t : Task) → IsExplained (score_section t s)
  unfolding score_section ◌-ℤ◌
  section-IsExplained t = search explain_rules depth 12

-- The score of a task is the sum of the points that its reasons show, whatever the task, the
-- settings and the mode.
pub score_task-explained :
    (today : ℕ) (settings : Settings) (weekend : Bool) (t : Task)
    → (score_task today settings weekend t).score
      ≡ total_worth (score_task today settings weekend t).reasons
unfolding score_task IsExplained
score_task-explained today settings weekend t =
    section-IsExplained _
      (no_due_date-IsExplained _
        (duration-IsExplained _
          (labels-IsExplained _
            (priority-IsExplained _ (due_date-IsExplained no_score refl today t) t) settings weekend
            t)
          settings t)
        settings t)
      t
