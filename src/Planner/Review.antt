-- ===== src/Planner/Review.antt =====
-- planner.py: what `build_weekly_review` counts and selects. The texts that it prints are not
-- modelled.
use vela_flow_public.Prelude.{
  ℕ, ◌+◌, ◌≡◌, refl, String, Bool, false, ◌&&◌, none, some, List, [], ◌∷◌, map, keep, length, take,
  ltb, leb, str_eq, arith, if◌then◌else◌,
}
use vela_flow_public.Prelude.Sort
use vela_flow_public.Prelude.Sort.{sort}
use vela_flow_public.Dict.{Dict, lookup, insert}
use vela_flow_public.Planner.{Task, Settings, ScoredTask, has_label, score_task}
use vela_flow_public.Planner.Rank.{rank_tasks, ranks_before}
use vela_flow_public.Planner.Digest.{is_overdue}

-- `task.project_name or "No Project"`
abbrev pub project_of : Task → String
project_of t = if str_eq t.project_name "" then "No Project" else t.project_name

-- `counts.get(name, 0)`
abbrev pub count_of : String → Dict ℕ → ℕ
count_of name counts = elim (lookup name counts) [ none ↦ 0 | some n ↦ n ]

unfoldable pub count_projects : List ScoredTask → Dict ℕ → Dict ℕ
count_projects [] counts = counts
count_projects (s ∷ rest) counts =
    let name = project_of s.task in
    count_projects rest (insert name (count_of name counts + 1) counts)

-- today < due <= today + 7
abbrev pub is_next_week : ℕ → Task → Bool
is_next_week today t = elim t.due_date [ none ↦ false | some d ↦ ltb today d && leb d (today + 7) ]

pub record Review : Type 0 where
  pub completed : ℕ
  pub active : ℕ
  pub overdue : List ScoredTask
  pub high_priority : ℕ
  pub projects : List (String × ℕ)
  pub next_week : List ScoredTask
  pub focus : List ScoredTask

-- `completed_items` enters only by its number
unfoldable pub build_weekly_review : (List ℕ → List ℕ) → ℕ → Settings → List Task → ℕ → Review
unfolding count_projects
build_weekly_review lower today settings tasks completed_count =
    let ranked = rank_tasks lower today settings false tasks in
    record {
      completed = completed_count;
      active = length tasks;
      overdue = keep (λ s. is_overdue today s.task) ranked;
      high_priority = length (keep (λ s. leb 3 s.task.priority) ranked);
      projects = sort (λ x y. leb y.1 x.1) (count_projects ranked []);
      next_week = take 7 (keep (λ s. is_next_week today s.task) ranked);
      focus = take 5 (keep (λ s. has_label settings.focus_label s.task) ranked);
    }

abbrev pub total : List (String × ℕ) → ℕ
total [] = 0
total ((name, n) ∷ rest) = n + total rest

total-insert :
    (name : String) (n : ℕ) (counts : Dict ℕ)
    → total (insert name n counts) + count_of name counts ≡ total counts + n
unfolding insert lookup
total-insert name n [] = omega arith
total-insert name n ((k, m) ∷ rest) = ground (arith, total-insert name n rest)

total-count_projects :
    (ranked : List ScoredTask) (counts : Dict ℕ)
    → total (count_projects ranked counts) ≡ total counts + length ranked
unfolding count_projects
total-count_projects [] counts = omega arith
total-count_projects (s ∷ rest) counts =
    let name = project_of s.task in
    let next = insert name (count_of name counts + 1) counts in
    omega
      (arith, total-count_projects rest next, total-insert name (count_of name counts + 1) counts)

total-insert_sorted :
    (le : String × ℕ → String × ℕ → Bool) (x : String × ℕ) (xs : List (String × ℕ))
    → total (Sort.insert_sorted le x xs) ≡ x.1 + total xs
unfolding Sort.insert_sorted
total-insert_sorted le x [] = refl
total-insert_sorted le x (y ∷ ys) = ground (arith, total-insert_sorted le x ys)

total-sort :
    (le : String × ℕ → String × ℕ → Bool) (xs : List (String × ℕ)) → total (sort le xs) ≡ total xs
unfolding sort
total-sort le [] = refl
total-sort le (x ∷ xs) = omega (arith, total-insert_sorted le x (sort le xs), total-sort le xs)

length-map : {A B : Type 0} (f : A → B) (xs : List A) → length (map f xs) ≡ length xs
length-map f [] = refl
length-map f (x ∷ xs) = omega (arith, length-map f xs)

-- The project counts of the review add up to the number of active tasks.
pub project_counts_add_up :
    (lower : List ℕ → List ℕ) (today : ℕ) (settings : Settings) (tasks : List Task) (completed : ℕ)
    → let review = build_weekly_review lower today settings tasks completed in
      total review.projects ≡ review.active
unfolding build_weekly_review rank_tasks
project_counts_add_up lower today settings tasks completed =
    let scored = map (score_task today settings false) tasks in
    let ranked = sort (ranks_before lower) scored in
    omega (
      arith,
      total-sort (λ x y. leb y.1 x.1) (count_projects ranked []),
      total-count_projects ranked [],
      Sort.length-sort (ranks_before lower) scored,
      length-map (score_task today settings false) tasks,
    )
