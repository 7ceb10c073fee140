-- ===== src/Planner/Rank.antt =====
-- planner.py: `rank_tasks`. Python's `str.lower`, with its table of Unicode, is a parameter.
use mathlib.Core.List.{Perm}
use vela_flow_public.Prelude.{
  ℕ, ◌<◌, ◌≡◌, sym, ◌⊎◌, inl, inr, Bool, true, false, none, some, List, [], ◌∷◌, map, arith, ltb,
  if◌then◌else◌, All, All-mono,
}
use vela_flow_public.Prelude.Int.{ℤ, ltb_ℤ, eq_of_parts}
use vela_flow_public.Prelude.Sort
use vela_flow_public.Prelude.Sort.{IsSorted, sort}
use vela_flow_public.Prelude.Text.{codes, lex_le, lex_le-total, lex_le_trans}
use vela_flow_public.Planner.{Task, Settings, ScoredTask, score_task}

-- the ordinal of `date.max`
abbrev pub max_date : ℕ
max_date = 3652059

abbrev pub due_key : Task → ℕ
due_key t = elim t.due_date [ none ↦ max_date | some d ↦ d ]

-- A tuple's order at one place: smaller first, larger last, and the rest decides a tie.
unfoldable pub by_number : ℕ → ℕ → Bool → Bool
by_number a b rest = if ltb a b then true else if ltb b a then false else rest

unfoldable pub by_score : ℤ → ℤ → Bool → Bool
by_score a b rest = if ltb_ℤ b a then true else if ltb_ℤ a b then false else rest

by_number-total :
    (a b : ℕ) (r s : Bool)
    → (r ≡ false → s ≡ true)
    → by_number a b r ≡ false
    → by_number b a s ≡ true
unfolding by_number
by_number-total a b r s f h = ground arith

by_score-total :
    (a b : ℤ) (r s : Bool) → (r ≡ false → s ≡ true) → by_score a b r ≡ false → by_score b a s ≡ true
unfolding by_score
by_score-total a b r s f h = ground arith

by_number_trans :
    (a b c : ℕ) (r s t : Bool)
    → (r ≡ true → s ≡ true → t ≡ true)
    → by_number a b r ≡ true
    → by_number b c s ≡ true
    → by_number a c t ≡ true
unfolding by_number
by_number_trans a b c r s t f h k = ground arith

by_score_trans :
    (a b c : ℤ) (r s t : Bool)
    → (r ≡ true → s ≡ true → t ≡ true)
    → by_score a b r ≡ true
    → by_score b c s ≡ true
    → by_score a c t ≡ true
unfolding by_score
by_score_trans a b c r s t f h k = ground arith

by_number-cases : (a b : ℕ) (r : Bool) → by_number a b r ≡ true → (a < b) ⊎ ((a ≡ b) × (r ≡ true))
unfolding by_number
by_number-cases a b r h = ground (arith, h)

by_score-cases :
    (a b : ℤ) (r : Bool) → by_score a b r ≡ true → (ltb_ℤ b a ≡ true) ⊎ ((a ≡ b) × (r ≡ true))
unfolding by_score
by_score-cases a b r h = ground (arith, h, eq_of_parts a b)

-- the comparison of the keys, with the order of the numbers written out
pub data IsAhead (lower : List ℕ → List ℕ) (x y : ScoredTask) : Type 0 where
  higher_score : ltb_ℤ y.score x.score ≡ true → IsAhead lower x y
  earlier_due : x.score ≡ y.score → due_key x.task < due_key y.task → IsAhead lower x y
  higher_priority :
      x.score ≡ y.score
      → due_key x.task ≡ due_key y.task
      → y.task.priority < x.task.priority
      → IsAhead lower x y
  level_or_before :
      x.score ≡ y.score
      → due_key x.task ≡ due_key y.task
      → x.task.priority ≡ y.task.priority
      → lex_le (lower (codes x.task.content)) (lower (codes y.task.content)) ≡ true
      → IsAhead lower x y

abbrev pub AreOrdered : (List ℕ → List ℕ) → List ScoredTask → Type 0
AreOrdered lower [] = Unit
AreOrdered lower (x ∷ xs) = All (IsAhead lower x) xs × AreOrdered lower xs

module _ (lower : List ℕ → List ℕ) where
  -- The order of the keys `(-score, due_date or date.max, -priority, content.lower())`.
  unfoldable pub ranks_before : ScoredTask → ScoredTask → Bool
  ranks_before x y = by_score x.score y.score (
      by_number (due_key x.task) (due_key y.task) (
        by_number y.task.priority x.task.priority
          (lex_le (lower (codes x.task.content)) (lower (codes y.task.content)))))

  unfoldable pub rank_tasks : ℕ → Settings → Bool → List Task → List ScoredTask
  rank_tasks today settings weekend_mode tasks =
      sort ranks_before (map (score_task today settings weekend_mode) tasks)

  ranks_before-total : (x y : ScoredTask) → ranks_before x y ≡ false → ranks_before y x ≡ true
  unfolding ranks_before
  ranks_before-total x y = by_score-total x.score y.score _ _ (
      by_number-total (due_key x.task) (due_key y.task) _ _ (
        by_number-total y.task.priority x.task.priority _ _
          (lex_le-total (lower (codes x.task.content)) (lower (codes y.task.content)))))

  ranks_before_trans :
      (x y z : ScoredTask)
      → ranks_before x y ≡ true
      → ranks_before y z ≡ true
      → ranks_before x z ≡ true
  unfolding ranks_before
  ranks_before_trans x y z = by_score_trans x.score y.score z.score _ _ _ (
      by_number_trans (due_key x.task) (due_key y.task) (due_key z.task) _ _ _ (λ h k.
        by_number_trans z.task.priority y.task.priority x.task.priority _ _ _
          (λ k' h'.
            lex_le_trans (lower (codes x.task.content)) (lower (codes y.task.content))
              (lower (codes z.task.content)) h' k')
          k h))

  ranks_before-IsAhead : (x y : ScoredTask) → ranks_before x y ≡ true → IsAhead lower x y
  unfolding ranks_before
  ranks_before-IsAhead x y h = elim (by_score-cases x.score y.score _ h) [
    | inl score ↦ higher_score score
    | inr (score, h1) ↦ elim (by_number-cases (due_key x.task) (due_key y.task) _ h1) [
      | inl due ↦ earlier_due score due
      | inr (due, h2) ↦ elim (by_number-cases y.task.priority x.task.priority _ h2) [
        | inl pri ↦ higher_priority score due pri
        | inr (pri, h3) ↦ level_or_before score due (sym pri) h3
      ]
    ]
  ]

  sorted-AreOrdered : (xs : List ScoredTask) → IsSorted ranks_before xs → AreOrdered lower xs
  sorted-AreOrdered [] s = tt
  sorted-AreOrdered (x ∷ xs) s = (
    All-mono (λ y. ranks_before x y ≡ true) (IsAhead lower x) xs (ranks_before-IsAhead x) s.0,
    sorted-AreOrdered xs s.1,
  )

  -- Ranking loses no task and invents none: the result is a permutation of the scored tasks. Each
  -- item has a higher score than every later one; or the same score and an earlier due date, where no
  -- date counts as the last; or, with these the same, a higher priority; or, with all three the same,
  -- a content that in lower case is not after the later one's.
  pub rank_tasks-sorts :
      (today : ℕ) (settings : Settings) (weekend : Bool) (tasks : List Task)
      → let ranked = rank_tasks today settings weekend tasks in
        AreOrdered lower ranked × Perm ranked (map (score_task today settings weekend) tasks)
  unfolding rank_tasks
  rank_tasks-sorts today settings weekend tasks =
      let scored = map (score_task today settings weekend) tasks in
      (
        sorted-AreOrdered (sort ranks_before scored)
            (Sort.sort-IsSorted ranks_before ranks_before-total ranks_before_trans scored),
        Sort.sort-perm ranks_before scored,
      )
