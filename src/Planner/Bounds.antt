-- ===== src/Planner/Bounds.antt =====
-- The range of the scores that `score_task` gives.
use vela_flow_public.Prelude.{
  le→leb, ℕ, ◌+◌, ◌*◌, ◌≤◌, min, ◌≡◌, Bool, true, false, arith, leb, if◌then◌else◌, Option-cases,
  inl, inr,
}
use vela_flow_public.Prelude.Int.{pos, negsuc, pos_part, neg_part, ◌≤ℤ◌, int_laws}
use vela_flow_public.Planner.{
  Task, Settings, Reason, Scoring, gain, lose, priority_points, score_due_date, score_priority,
  score_labels, score_duration, score_no_due_date, score_section, no_score, score_task,
}

-- The score is at least -a and at most b.
record IsWithin (a b : ℕ) (s : Scoring) : Type 0 where
  lower : neg_part s.score ≤ pos_part s.score + a
  upper : pos_part s.score ≤ b + neg_part s.score

module _ {a b : ℕ} (c d : ℕ) where
  gain-IsWithin :
      (n : ℕ) (r : Reason) (s : Scoring)
      → leb n d ≡ true
      → IsWithin a b s
      → IsWithin (a + c) (b + d) (gain n r s)
  gain-IsWithin n r s h w =
      let le : n ≤ d = ground arith in
      record { lower = omega (int_laws, w.lower); upper = omega (int_laws, w.upper) }

  lose-IsWithin :
      (n : ℕ) (r : Reason) (s : Scoring)
      → leb n c ≡ true
      → IsWithin a b s
      → IsWithin (a + c) (b + d) (lose n r s)
  lose-IsWithin n r s h w =
      let le : n ≤ c = ground arith in
      record { lower = omega (int_laws, w.lower); upper = omega (int_laws, w.upper) }

  keep-IsWithin : (s : Scoring) → IsWithin a b s → IsWithin (a + c) (b + d) s
  keep-IsWithin s w = record { lower = omega (arith, w.lower); upper = omega (arith, w.upper) }

IsWithin-if :
    {a b : ℕ} (t : Bool) (x y : Scoring)
    → IsWithin a b x
    → IsWithin a b y
    → IsWithin a b (if t then x else y)
IsWithin-if true x y hx hy = hx
IsWithin-if false x y hx hy = hy

overdue_points : (n : ℕ) → leb (min n 7 * 20) 140 ≡ true
overdue_points n = le→leb _ _ (omega arith)

priority_points-le : (p : ℕ) → leb (priority_points p) 18 ≡ true
priority_points-le p = ground arith

ruleset within_rules =
    (IsWithin-if, gain-IsWithin, lose-IsWithin, keep-IsWithin, overdue_points, priority_points-le)

module _ {a b : ℕ} (s : Scoring) (w : IsWithin a b s) where
  due_date-IsWithin : (today : ℕ) (t : Task) → IsWithin (a + 0) (b + 140) (score_due_date today t s)
  unfolding score_due_date
  due_date-IsWithin today t = elim (Option-cases t.due_date) [
    | inl no_date ↦ rw no_date (search within_rules)
    | inr (due, date) ↦ rw date (search within_rules depth 9)
  ]

  priority-IsWithin : (t : Task) → IsWithin (a + 0) (b + 18) (score_priority t s)
  unfolding score_priority
  priority-IsWithin t = search within_rules

  duration-IsWithin :
      (settings : Settings) (t : Task) → IsWithin (a + 6) (b + 4) (score_duration settings t s)
  unfolding score_duration
  duration-IsWithin settings t = search within_rules

  no_due_date-IsWithin :
      (settings : Settings) (t : Task) → IsWithin (a + 4) (b + 0) (score_no_due_date settings t s)
  unfolding score_no_due_date
  no_due_date-IsWithin settings t = search within_rules

  section-IsWithin : (t : Task) → IsWithin (a + 30) (b + 12) (score_section t s)
  unfolding score_section
  section-IsWithin t = search within_rules depth 12

  focus-IsWithin :
      (x : Bool) (r : Reason) → IsWithin (a + 0) (b + 14) (if x then gain 14 r s else s)
  focus-IsWithin x r = search within_rules

  weekend-IsWithin :
      (x : Bool) (r : Reason) → IsWithin (a + 0) (b + 10) (if x then gain 10 r s else s)
  weekend-IsWithin x r = search within_rules

labels-IsWithin :
    {a b : ℕ} (s : Scoring) (w : IsWithin a b s) (settings : Settings) (weekend : Bool) (t : Task)
    → IsWithin (a + 0 + 0) (b + 14 + 10) (score_labels settings weekend t s)
unfolding score_labels
labels-IsWithin s w settings weekend t = weekend-IsWithin _ (focus-IsWithin s w _ _) _ _

-- Every score lies between -40 and 198, whatever the task, the settings and the mode.
pub score_task-bounds :
    (today : ℕ) (settings : Settings) (weekend : Bool) (t : Task)
    → let x = (score_task today settings weekend t).score in (negsuc 39 ≤ℤ x) × (x ≤ℤ pos 198)
unfolding score_task
score_task-bounds today settings weekend t =
    let zero_score : IsWithin 0 0 no_score = record { lower = omega arith; upper = omega arith } in
    let w =
      section-IsWithin _
        (no_due_date-IsWithin _
          (duration-IsWithin _
            (labels-IsWithin _
              (priority-IsWithin _ (due_date-IsWithin no_score zero_score today t) t) settings
              weekend t)
            settings t)
          settings t)
        t in
    (omega (arith, w.lower), omega (arith, w.upper))
