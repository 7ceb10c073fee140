-- ===== src/Planner/Digest/Selection.antt =====
-- The sections of the daily digest, and the tasks at its top.
use vela_flow_public.Prelude.{
  All, length-take, All-mono, keep-cong, subst, ℕ, ◌+◌, ◌≤◌, ◌<◌, ◌≡◌, refl, ap, String, Bool, true,
  false, not, ◌&&◌, ◌||◌, inl, inr, Bool-cases, Option, none, some, List, [], ◌∷◌, ◌++◌, keep,
  length, length-append, take, ltb, leb, eq_refl, arith,
}
use vela_flow_public.Prelude.Keys.{has, has-append, IsDistinct, append-IsDistinct}
use vela_flow_public.Prelude.Sort
use vela_flow_public.Prelude.Sort.{sort}
use vela_flow_public.Planner.{Task, Settings, ScoredTask, has_label}
use vela_flow_public.Planner.Digest.{
  is_overdue, is_due_today, is_upcoming, is_among, same, same→eq, same_refl, pick_top, OverdueAlert,
  alert_key, select_daily, build_overdue_alert,
}

abbrev pub ids : List ScoredTask → List String
ids [] = []
ids (s ∷ rest) = s.task.id ∷ ids rest

ids-append : (xs : List ScoredTask) (s : ScoredTask) → ids (xs ++ s ∷ []) ≡ ids xs ++ s.task.id ∷ []
ids-append [] s = refl
ids-append (x ∷ xs) s = ap (λ l. x.task.id ∷ l) (ids-append xs s)

-- what the loop keeps: the ids seen are those of the tasks taken, all different, within the limit
record IsPicked (limit : ℕ) (seen : List String) (top : List ScoredTask) : Type 0 where
  same : seen ≡ ids top
  distinct : IsDistinct (ids top)
  bounded : length top ≤ limit

pick-IsPicked :
    (limit : ℕ) (seen : List String) (top : List ScoredTask) (s : ScoredTask)
    → (not (has s.task.id seen) && ltb (length top) limit) ≡ true
    → IsPicked limit seen top
    → IsPicked limit (seen ++ s.task.id ∷ []) (top ++ s ∷ [])
pick-IsPicked limit seen top s wanted p = record {
  same = rw ids-append (ap (λ l. l ++ s.task.id ∷ []) p.same);
  distinct = rw ids-append (
      append-IsDistinct s.task.id (ids top) (ground (arith, ap (λ l. has s.task.id l) p.same))
        p.distinct);
  bounded = rw length-append (ground arith);
}

-- nothing that was taken is lost, and each task that is passed was taken or found its id taken,
-- unless the limit was reached
pick_top-IsPicked :
    (limit : ℕ) (seen : List String) (top rest : List ScoredTask)
    → IsPicked limit seen top
    → IsPicked limit (ids (pick_top limit seen top rest)) (pick_top limit seen top rest)
unfolding pick_top
pick_top-IsPicked limit seen top [] p = record {
  same = refl;
  distinct = p.distinct;
  bounded = p.bounded;
}
pick_top-IsPicked limit seen top (s ∷ rest) p =
    elim (Bool-cases (not (has s.task.id seen) && ltb (length top) limit)) [
      | inl wanted ↦ rw wanted (
          pick_top-IsPicked limit (seen ++ s.task.id ∷ []) (top ++ s ∷ []) rest
            (pick-IsPicked limit seen top s wanted p))
      | inr passed ↦ rw passed (pick_top-IsPicked limit seen top rest p)
    ]

-- The top priorities have different ids, and there are at most `daily_top_task_limit` of them.
pub top-IsDistinct :
    (today : ℕ) (settings : Settings) (ranked : List ScoredTask)
    → let top = (select_daily today settings ranked).top in
      IsDistinct (ids top) × (length top ≤ settings.daily_top_task_limit)
unfolding select_daily
top-IsDistinct today settings ranked =
    let p =
      pick_top-IsPicked settings.daily_top_task_limit [] [] ranked
        (record { same = refl; distinct = tt; bounded = omega arith }) in
    (p.distinct, p.bounded)

abbrev Reached : ℕ → List ScoredTask → ScoredTask → Type 0
Reached limit top s = (has s.task.id (ids top) || leb limit (length top)) ≡ true

Reached-append :
    (limit : ℕ) (top : List ScoredTask) (x s : ScoredTask)
    → Reached limit top s
    → Reached limit (top ++ x ∷ []) s
Reached-append limit top x s h =
    rw (ids-append top x, has-append s.task.id x.task.id (ids top), length-append top (x ∷ []))
      (ground arith)

pick_top-keeps :
    (limit : ℕ) (seen : List String) (top rest : List ScoredTask) (s : ScoredTask)
    → Reached limit top s
    → Reached limit (pick_top limit seen top rest) s
unfolding pick_top
pick_top-keeps limit seen top [] s h = h
pick_top-keeps limit seen top (x ∷ rest) s h =
    elim (Bool-cases (not (has x.task.id seen) && ltb (length top) limit)) [
      | inl wanted ↦ rw wanted (
          pick_top-keeps limit (seen ++ x.task.id ∷ []) (top ++ x ∷ []) rest s
            (Reached-append limit top x s h))
      | inr passed ↦ rw passed (pick_top-keeps limit seen top rest s h)
    ]

pick_top_complete :
    (limit : ℕ) (seen : List String) (top rest final : List ScoredTask)
    → seen ≡ ids top
    → pick_top limit seen top rest ≡ final
    → All (Reached limit final) rest
unfolding pick_top
pick_top_complete limit seen top [] final e f = tt
pick_top_complete limit seen top (x ∷ rest) final e f =
    elim (Bool-cases (not (has x.task.id seen) && ltb (length top) limit)) [
      | inl wanted ↦
          let seen' = seen ++ x.task.id ∷ [] in
          let top' = top ++ x ∷ [] in
          let f' : pick_top limit seen' top' rest ≡ final = rw wanted at f in
          let now : Reached limit top' x =
            rw (ids-append top x, has-append x.task.id x.task.id (ids top))
              (ground (arith, eq_refl x.task.id)) in
          (
            subst (λ l. Reached limit l x) f' (pick_top-keeps limit seen' top' rest x now),
            pick_top_complete limit seen' top' rest final
                (rw (ids-append top x) (ap (λ l. l ++ x.task.id ∷ []) e)) f',
          )
      | inr passed ↦
          let f' : pick_top limit seen top rest ≡ final = rw passed at f in
          let now : Reached limit top x = ground (arith, ap (λ l. has x.task.id l) e) in
          (
            subst (λ l. Reached limit l x) f' (pick_top-keeps limit seen top rest x now),
            pick_top_complete limit seen top rest final e f',
          )
    ]

-- No task is passed over: the id of each ranked task is among the top priorities, unless these have
-- reached their limit.
pub top_complete :
    (today : ℕ) (settings : Settings) (ranked : List ScoredTask)
    → let top = (select_daily today settings ranked).top in
      All
        (λ s. (has s.task.id (ids top) || leb settings.daily_top_task_limit (length top)) ≡ true)
        ranked
unfolding select_daily
top_complete today settings ranked =
    pick_top_complete settings.daily_top_task_limit [] [] ranked _ refl refl

is_among-keep-false :
    (p : ScoredTask → Bool) (s : ScoredTask) (xs : List ScoredTask)
    → p s ≡ false
    → is_among s (keep p xs) ≡ false
is_among-keep-false p s [] h = refl
is_among-keep-false p s (x ∷ xs) h = elim (Bool-cases (same x s)) [
  | inl e ↦ let px : p x ≡ p s = ap p (same→eq x s e) in ground (arith, is_among-keep-false p s xs)
  | inr n ↦ ground (arith, is_among-keep-false p s xs)
]

is_among-keep :
    (p : ScoredTask → Bool) (s : ScoredTask) (xs : List ScoredTask)
    → is_among s xs ≡ true
    → is_among s (keep p xs) ≡ p s
is_among-keep p s [] h = cc
is_among-keep p s (x ∷ xs) h = elim (Bool-cases (same x s)) [
  | inl e ↦ let px : p x ≡ p s = ap p (same→eq x s e) in ground (arith, is_among-keep-false p s xs)
  | inr n ↦ ground (arith, is_among-keep p s xs)
]

members : (xs : List ScoredTask) → All (λ s. is_among s xs ≡ true) xs
members [] = tt
members (x ∷ xs) = (
  ground (arith, same_refl x),
  All-mono (λ s. is_among s xs ≡ true) (λ s. is_among s (x ∷ xs) ≡ true) xs (λ s h. ground arith)
      (members xs),
)

module _ (today : ℕ) (settings : Settings) where
  abbrev wants_focus : ScoredTask → Bool
  wants_focus s =
      has_label settings.focus_label s.task
      && not (is_overdue today s.task)
      && not (is_due_today today s.task)

  -- the test of the code, by membership in the earlier sections
  abbrev focus_tested : List ScoredTask → ScoredTask → Bool
  focus_tested ranked s =
      has_label settings.focus_label s.task
      && not (is_among s (keep (λ x. is_overdue today x.task) ranked))
      && not (is_among s (keep (λ x. is_due_today today x.task) ranked))

  focus_test :
      (ranked : List ScoredTask) (s : ScoredTask)
      → is_among s ranked ≡ true
      → focus_tested ranked s ≡ wants_focus s
  focus_test ranked s h =
      rw
        (
          is_among-keep (λ x. is_overdue today x.task) s ranked h,
          is_among-keep (λ x. is_due_today today x.task) s ranked h,
        )
        refl

  upcoming_test :
      (s : ScoredTask)
      → (is_upcoming today s.task && not (wants_focus s))
        ≡ (is_upcoming today s.task && not (has_label settings.focus_label s.task))
  upcoming_test s = ground arith

-- The focus section holds the ranked tasks with the focus label that are neither overdue nor due
-- today, and the section of coming tasks the first seven with a later date that have no focus
-- label, both in rank order.
pub sections_exact :
    (today : ℕ) (settings : Settings) (ranked : List ScoredTask)
    → let d = select_daily today settings ranked in
      (d.focus
        ≡ keep
            (λ s.
              has_label settings.focus_label s.task
              && not (is_overdue today s.task)
              && not (is_due_today today s.task))
            ranked)
      × (d.upcoming
          ≡ take 7 (
              keep
                (λ s. is_upcoming today s.task && not (has_label settings.focus_label s.task))
                ranked))
unfolding select_daily
sections_exact today settings ranked =
    let tested = focus_tested today settings ranked in
    (
      keep-cong tested (wants_focus today settings) ranked (
          All-mono (λ s. is_among s ranked ≡ true) (λ s. tested s ≡ wants_focus today settings s)
            ranked (focus_test today settings ranked) (members ranked)),
      ap (take 7) (
          keep-cong (λ s. is_upcoming today s.task && not (is_among s (keep tested ranked)))
            (λ s. is_upcoming today s.task && not (has_label settings.focus_label s.task)) ranked
            (All-mono (λ s. is_among s ranked ≡ true)
              (λ s.
                (is_upcoming today s.task && not (is_among s (keep tested ranked)))
                ≡ (is_upcoming today s.task && not (has_label settings.focus_label s.task)))
              ranked
              (λ s h. ground (
                arith,
                is_among-keep tested s ranked h,
                focus_test today settings ranked s h,
                upcoming_test today settings s,
              ))
              (members ranked))),
    )

-- what an alert says of `n` overdue tasks; no alert says that there are none
abbrev pub AlertCounts : ℕ → Option OverdueAlert → Type 0
AlertCounts n none = n ≡ 0
AlertCounts n (some a) =
    (0 < n) × (a.count ≡ n) × (length a.listed + a.more ≡ n) × (length a.listed ≤ 10)

-- An alert is sent exactly if a task is overdue; it counts the overdue tasks, lists at most ten of
-- them, and announces the rest: the numbers add up.
pub alerted_overdue :
    (today : ℕ) (tasks : List Task)
    → AlertCounts (length (keep (is_overdue today) tasks)) (build_overdue_alert today tasks)
unfolding build_overdue_alert
alerted_overdue today tasks =
    let overdue = keep (is_overdue today) tasks in
    let le = λ (x y : Task). leb (alert_key today x) (alert_key today y) in
    ground (arith, length-take 10 (sort le overdue), Sort.length-sort le overdue)
