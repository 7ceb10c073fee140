-- ===== src/Planner/Weekend.antt =====
-- planner.py: what `build_weekend_digest` plans. The texts that it prints are not modelled.
pub mod Capacity
pub mod Conservation
use vela_flow_public.Prelude.{
  ℕ, zero, suc, ◌+◌, ◌-◌, ◌*◌, ◌%◌, Bool, true, false, not, ◌&&◌, Option, none, some, List, [], ◌∷◌,
  ◌++◌, keep, length, take, ltb, leb, ◌==◌, if◌then◌else◌,
}
use vela_flow_public.Prelude.Int.{ℤ, pos, ◌+ℤ◌, ◌-ℤ◌, pos_part}
use vela_flow_public.Planner.{Task, Settings, ScoredTask, has_label, duration_of}
use vela_flow_public.Planner.Rank.{rank_tasks}

-- `date.weekday()`: Monday is 0, and the ordinal 1 is a Monday
abbrev pub weekday : ℕ → ℕ
weekday d = (d + 6) % 7

unfoldable pub days_to_saturday : ℕ → ℕ
days_to_saturday today =
    let days = (5 + 7 - weekday today) % 7 in
    if (days == 0) && not (weekday today == 5) then 7 else days

-- an event with a start: its day, and its length in minutes, which is negative if it ends earlier
pub record Event : Type 0 where
  pub day : ℕ
  pub duration_minutes : ℤ

abbrev pub booked : ℕ → List Event → ℤ
booked day [] = pos 0
booked day (e ∷ es) = if e.day == day then e.duration_minutes +ℤ booked day es else booked day es

-- `max(0, capacity_min - booked)`
unfoldable pub free_minutes : ℕ → ℕ → List Event → ℕ
free_minutes capacity day events = pos_part (pos capacity -ℤ booked day events)

pub record Plan : Type 0 where
  pub saturday : List ScoredTask
  pub sunday : List ScoredTask
  pub overflow : List ScoredTask
  pub sat_used : ℕ
  pub sun_used : ℕ

abbrev pub empty_plan : Plan
empty_plan = record { saturday = []; sunday = []; overflow = []; sat_used = 0; sun_used = 0 }

abbrev pub put_saturday : ScoredTask → ℕ → Plan → Plan
put_saturday s dur p = record p { saturday = p.saturday ++ s ∷ []; sat_used = p.sat_used + dur }

abbrev pub put_sunday : ScoredTask → ℕ → Plan → Plan
put_sunday s dur p = record p { sunday = p.sunday ++ s ∷ []; sun_used = p.sun_used + dur }

-- one round of the greedy loop
unfoldable pub place : Settings → ℕ → ℕ → ScoredTask → Plan → Plan
place settings sat_free sun_free s p =
    let dur = duration_of settings s.task in
    if has_label settings.focus_label s.task && leb (p.sat_used + dur) sat_free
    then put_saturday s dur p
    else if leb (p.sun_used + dur) sun_free
    then put_sunday s dur p
    else if leb (p.sat_used + dur) sat_free
    then put_saturday s dur p
    else record p { overflow = p.overflow ++ s ∷ [] }

-- the loop, with its `break`
unfoldable pub allocate : Settings → ℕ → ℕ → List ScoredTask → Plan → Plan
allocate settings sat_free sun_free [] p = p
allocate settings sat_free sun_free (s ∷ rest) p =
    let p' = place settings sat_free sun_free s p in
    let more = allocate settings sat_free sun_free rest p' in
    if leb settings.weekend_task_limit (length p'.saturday + length p'.sunday) then p' else more

unfoldable pub build_weekend_digest :
    (List ℕ → List ℕ) → ℕ → Settings → List Task → List Event → Plan
unfolding free_minutes allocate
build_weekend_digest lower today settings tasks events =
    let saturday = today + days_to_saturday today in
    let capacity = settings.weekend_capacity_hours * 60 in
    allocate settings (free_minutes capacity saturday events)
      (free_minutes capacity (saturday + 1) events)
      (take (settings.weekend_task_limit * 2) (rank_tasks lower today settings true tasks))
      empty_plan
