-- ===== src/Organizer/Settled.antt =====
-- After a run whose writes all work, a second run on the same day has nothing to do.
use vela_flow_public.Prelude.{
  ℕ, ◌+◌, ◌≡◌, ◌∙◌, ap, refl, subst, String, Bool, true, false, ◌&&◌, Option, none, some, List, [],
  ◌∷◌, ◌++◌, any, str_eq, eq_iff, eq_refl, if◌then◌else◌, arith, Option-cases, inl, inr, leb, ◌==◌,
}
use vela_flow_public.Dict.{Dict, lookup}
use vela_flow_public.Dict.Unique.{IsUnique}
use vela_flow_public.Organizer.Labels.{label_keywords, matching, infer_labels}
use vela_flow_public.Organizer.{
  Task, Move, LabelUpdate, is_planner, by_priority, by_due_date, ideal_section_name, find_section,
  suggest_section, planned_move, planned_labels, is_empty,
}

-- the task as the writes of a run leave it
abbrev moved : Option Move → Task → Task
moved none t = t
moved (some m) t = record t { section_id = m.to_section_id; section_name = m.to_section }

abbrev labeled : Option LabelUpdate → Task → Task
labeled none t = t
labeled (some u) t = record t { labels = u.labels }

abbrev pub applied : (List ℕ → List ℕ) → ℕ → Dict String → Task → Task
applied lower today sections t =
    labeled (planned_labels lower t) (moved (planned_move today sections t) t)

matching-unblocked :
    (text : List ℕ) (table : Dict (List String))
    → any (λ row. str_eq "blocked" row.0) table ≡ false
    → any (str_eq "blocked") (matching text table) ≡ false
unfolding matching
matching-unblocked text [] h = refl
matching-unblocked text ((label, keywords) ∷ rest) h =
    ground (arith, h, matching-unblocked text rest)

infer_labels-unblocked :
    (lower : List ℕ → List ℕ) (content description : List ℕ)
    → any (str_eq "blocked") (infer_labels lower content description) ≡ false
unfolding infer_labels
infer_labels-unblocked lower content description =
    matching-unblocked (lower (content ++ 32 ∷ description)) label_keywords refl

-- no target is a planner section
abbrev IsUnplanned : Option String → Type 0
IsUnplanned none = Unit
IsUnplanned (some target) = is_planner target ≡ false

if-IsUnplanned :
    (b : Bool) (x y : Option String)
    → IsUnplanned x
    → IsUnplanned y
    → IsUnplanned (if b then x else y)
if-IsUnplanned true x y hx hy = hx
if-IsUnplanned false x y hx hy = hy

by_priority-IsUnplanned : (has_due : Bool) (pri : ℕ) → IsUnplanned (by_priority has_due pri)
by_priority-IsUnplanned has_due pri =
    let low = if-IsUnplanned has_due (some "To Do - Low") (some "Backlog") refl refl in
    let one =
      if-IsUnplanned (pri == 1) (if has_due then some "To Do - Low" else some "Backlog") none low
        tt in
    let two = if-IsUnplanned (pri == 2) (some "To Do - Normal") _ refl one in
    let three = if-IsUnplanned (pri == 3) (some "To Do - High") _ refl two in
    if-IsUnplanned (pri == 4) (some "To Do - Urgent/Today") _ refl three

by_due_date-IsUnplanned :
    (today : ℕ) (due : Option ℕ) (pri : ℕ) → IsUnplanned (by_due_date today due pri)
by_due_date-IsUnplanned today none pri = by_priority-IsUnplanned false pri
by_due_date-IsUnplanned today (some due) pri =
    let later =
      if-IsUnplanned (leb due (today + 2) && leb 3 pri) (some "To Do - Urgent/Today") _ refl
        (by_priority-IsUnplanned true pri) in
    if-IsUnplanned (leb due today) (some "To Do - Urgent/Today") _ refl later

ideal-IsUnplanned : (today : ℕ) (t : Task) → IsUnplanned (ideal_section_name today t)
unfolding ideal_section_name
ideal-IsUnplanned today t =
    let free =
      if-IsUnplanned (is_planner t.section_name) none _ tt
        (by_due_date-IsUnplanned today t.due_date t.priority) in
    let once = if-IsUnplanned t.is_recurring (some "Ongoing recurring") _ refl free in
    if-IsUnplanned (any (str_eq "blocked") t.labels) (some "Blocked") _ refl once

placed :
    (blocked recurring planner : Bool) (rest : Option String) (target : String)
    → (if blocked
        then some "Blocked"
        else if recurring
        then some "Ongoing recurring"
        else if planner
        then none
        else rest)
      ≡ some target
    → (if blocked then some "Blocked" else if recurring then some "Ongoing recurring" else rest)
      ≡ some target
placed true recurring planner rest target h = h
placed false true planner rest target h = h
placed false false true rest target h = cc
placed false false false rest target h = h

-- in its target section, with labels that block it as before, a task has the same target
ideal-again :
    (today : ℕ) (t : Task) (target sid : String) (labels : List String)
    → any (str_eq "blocked") labels ≡ any (str_eq "blocked") t.labels
    → ideal_section_name today t ≡ some target
    → ideal_section_name today
        (record t { section_id = sid; section_name = target; labels = labels })
      ≡ some target
unfolding ideal_section_name
ideal-again today t target sid labels same h =
    let unplanned : is_planner target ≡ false = subst IsUnplanned h (ideal-IsUnplanned today t) in
    let rest = by_due_date today t.due_date t.priority in
    ap
      (λ b.
        if b
        then some "Blocked"
        else if t.is_recurring
        then some "Ongoing recurring"
        else if is_planner target
        then none
        else rest)
      same
    ∙ ap
        (λ p.
          if any (str_eq "blocked") t.labels
          then some "Blocked"
          else if t.is_recurring
          then some "Ongoing recurring"
          else if p
          then none
          else rest)
        unplanned
    ∙ placed (any (str_eq "blocked") t.labels) t.is_recurring (is_planner t.section_name) rest
        target h

find-lookup :
    (target sid : String) (sections : Dict String)
    → IsUnique sections
    → find_section target sections ≡ some sid
    → lookup sid sections ≡ some target
unfolding find_section lookup
find-lookup target sid [] unique h = cc
find-lookup target sid ((key, name) ∷ rest) unique h = ground (
  arith,
  h,
  unique.0,
  find-lookup target sid rest unique.1,
  eq_iff name target,
  eq_iff key sid,
  eq_refl key,
)

ideal-labels :
    (today : ℕ) (t : Task) (labels : List String)
    → any (str_eq "blocked") labels ≡ any (str_eq "blocked") t.labels
    → ideal_section_name today (record t { labels = labels }) ≡ ideal_section_name today t
unfolding ideal_section_name
ideal-labels today t labels same =
    ap
      (λ b.
        if b
        then some "Blocked"
        else if t.is_recurring
        then some "Ongoing recurring"
        else if is_planner t.section_name
        then none
        else by_due_date today t.due_date t.priority)
      same

move-stays :
    (today : ℕ) (sections : Dict String) (t : Task) (labels : List String)
    → any (str_eq "blocked") labels ≡ any (str_eq "blocked") t.labels
    → planned_move today sections t ≡ none
    → planned_move today sections (record t { labels = labels }) ≡ none
unfolding planned_move suggest_section
move-stays today sections t labels same h = ground (arith, h, ideal-labels today t labels same)

-- what a planned move goes to
move-target :
    (today : ℕ) (sections : Dict String) (t : Task) (m : Move)
    → IsUnique sections
    → planned_move today sections t ≡ some m
    → ideal_section_name today t ≡ some m.to_section
unfolding planned_move suggest_section
move-target today sections t m unique h = elim (Option-cases (ideal_section_name today t)) [
  | inl none_there ↦ ground (arith, h, none_there)
  | inr (target, there) ↦ elim (Option-cases (find_section target sections)) [
    | inl unlisted ↦ ground (arith, h, there, unlisted)
    | inr (sid, found) ↦
        ground (arith, h, there, found, find-lookup target sid sections unique found)
  ]
]

move-done :
    (today : ℕ) (sections : Dict String) (t : Task) (m : Move) (labels : List String)
    → IsUnique sections
    → any (str_eq "blocked") labels ≡ any (str_eq "blocked") t.labels
    → planned_move today sections t ≡ some m
    → planned_move today sections
        (record t { section_id = m.to_section_id; section_name = m.to_section; labels = labels })
      ≡ none
unfolding planned_move suggest_section
move-done today sections t m labels unique same h = ground (
  arith,
  ideal-again today t m.to_section m.to_section_id labels same
      (move-target today sections t m unique h),
  eq_refl m.to_section,
)

empty-any : (ls : List String) → is_empty ls ≡ true → any (str_eq "blocked") ls ≡ false
empty-any [] h = refl
empty-any (l ∷ ls) h = cc

-- labels are only suggested to a task that has none
label-cases :
    (lower : List ℕ → List ℕ) (t : Task) (u : LabelUpdate)
    → planned_labels lower t ≡ some u
    → (is_empty u.labels ≡ false)
      × (any (str_eq "blocked") u.labels ≡ any (str_eq "blocked") t.labels)
unfolding planned_labels
label-cases lower t u h = (
  ground (arith, h),
  ground (arith, h, infer_labels-unblocked lower t.content t.description, empty-any t.labels),
)

-- a labeled task gets no labels
no_more :
    (lower : List ℕ → List ℕ) (t : Task) (ls : List String) (sid name : String)
    → is_empty ls ≡ false
    → planned_labels lower (record t { section_id = sid; section_name = name; labels = ls }) ≡ none
unfolding planned_labels
no_more lower t ls sid name h = ground (arith, h)

-- the section does not matter for the labels
labels-stay :
    (lower : List ℕ → List ℕ) (t : Task) (sid name : String)
    → planned_labels lower t ≡ none
    → planned_labels lower (record t { section_id = sid; section_name = name }) ≡ none
unfolding planned_labels
labels-stay lower t sid name h = ground (arith, h)

module _ (lower : List ℕ → List ℕ) (today : ℕ) (sections : Dict String) (unique : IsUnique sections)
    (t : Task) where
  settle :
      (pm : Option Move) (pl : Option LabelUpdate)
      → planned_move today sections t ≡ pm
      → planned_labels lower t ≡ pl
      → (planned_move today sections (labeled pl (moved pm t)) ≡ none)
        × (planned_labels lower (labeled pl (moved pm t)) ≡ none)
  settle none none hm hl = (hm, hl)
  settle none (some u) hm hl =
      let (full, same) = label-cases lower t u hl in
      (
        move-stays today sections t u.labels same hm,
        no_more lower t u.labels t.section_id t.section_name full,
      )
  settle (some m) none hm hl = (
    move-done today sections t m t.labels unique refl hm,
    labels-stay lower t m.to_section_id m.to_section hl,
  )
  settle (some m) (some u) hm hl =
      let (full, same) = label-cases lower t u hl in
      (
        move-done today sections t m u.labels unique same hm,
        no_more lower t u.labels m.to_section_id m.to_section full,
      )

  -- On the task as a run leaves it whose writes all work, a second run of the same day plans no move and
  -- no labels: a target is never a section of the planner, and no suggested label blocks a task. A dict
  -- of sections has each key once.
  pub run_settles :
      (planned_move today sections (applied lower today sections t) ≡ none)
      × (planned_labels lower (applied lower today sections t) ≡ none)
  run_settles = settle (planned_move today sections t) (planned_labels lower t) refl refl
