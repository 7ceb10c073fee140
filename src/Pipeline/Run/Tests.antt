-- ===== src/Pipeline/Run/Tests.antt =====
-- A run of the pipeline, and its theorems at concrete inputs.
use vela_flow_public.Prelude.{ℕ, ◌≡◌, refl, Bool, false, none, some, List, [], ◌∷◌, arith}
use vela_flow_public.Dict.{insert}
use vela_flow_public.Pipeline.Bronze.{Source, todoist, calendar, gmail, land, read_latest, latest}
use vela_flow_public.Pipeline.Run.{
  tasks, events, emails, Inputs, Layers, Storage, execute_bronze, execute_silver, execute_gold,
  run_stages, execute, processed,
}
use vela_flow_public.Pipeline.Run.Laws.{IsProper, execute-IsProper, run_scores_input}
use vela_flow_public.Pipeline.Run.Reads.{execute_reads}

-- layers that pass the numbers on
abbrev layers : Layers ℕ ℕ ℕ ℕ ℕ
layers = record {
  process_todoist = λ p. elim p [ tasks ts ps ss ↦ some ts | _ ↦ none ];
  process_calendar = λ p. elim p [ events es ↦ some es | _ ↦ none ];
  process_gmail = λ p. elim p [ emails ms ↦ some ms | _ ↦ none ];
  produce_scored_tasks = λ ts w. some ts;
  produce_daily_digest = λ ts es ms. some tt;
}

abbrev works : Source → Bool
works s = false

abbrev inputs : Inputs ℕ
inputs = record {
  raw_tasks = 1 ∷ 2 ∷ [];
  raw_projects = [];
  raw_sections = [];
  raw_events = [];
  raw_emails = [];
  weekend_mode = false;
}

abbrev yesterday : Storage ℕ ℕ
yesterday = record {
  batches =
      record { tenant_id = "a"; source = calendar; stamp = 100; payload = events (7 ∷ []) }
      ∷ record { tenant_id = "a"; source = todoist; stamp = 100; payload = tasks (9 ∷ []) [] [] }
      ∷ [];
  runs = [];
}

scored :
    (run_stages layers "a" "run_1" 200 works inputs yesterday.batches).0.scored_tasks ≡ 1 ∷ 2 ∷ []
unfolding run_stages execute_bronze execute_silver execute_gold land latest read_latest
scored = refl

stages_recorded :
    let (run, bs) = run_stages layers "a" "run_1" 200 works inputs yesterday.batches in
    IsProper run
    × (execute layers "a" "run_1" 200 works false inputs yesterday
        ≡ (some run, record { batches = bs; runs = insert "run_1" run [] }))
stages_recorded = execute-IsProper layers "a" "run_1" 200 works false inputs yesterday

execute_reads_example :
    let (run, bs) = run_stages layers "a" "run_1" 200 works inputs yesterday.batches in
    ((ts : List ℕ) × (ms : List ℕ) × (processed layers "a" "run_1" 200 works layers.process_todoist
          (read_latest "a" todoist bs)
        ≡ some ts)
      × (processed layers "a" "run_1" 200 works layers.process_gmail (read_latest "a" gmail bs)
          ≡ some ms)
      × (layers.produce_scored_tasks ts false ≡ some run.scored_tasks)
      × (layers.produce_daily_digest ts (7 ∷ []) ms ≡ some tt))
    × (read_latest "b" calendar bs ≡ read_latest "b" calendar yesterday.batches)
unfolding run_stages execute_bronze execute_silver execute_gold land latest read_latest
execute_reads_example =
    execute_reads layers "a" "run_1" 200 works inputs yesterday.batches (events (7 ∷ [])) (7 ∷ [])
      "b" calendar refl refl refl refl refl

run_scores_input_example :
    layers.produce_scored_tasks (1 ∷ 2 ∷ []) false
    ≡ some (run_stages layers "a" "run_1" 200 works inputs yesterday.batches).0.scored_tasks
unfolding run_stages execute_bronze execute_silver execute_gold land latest read_latest
run_scores_input_example =
    run_scores_input layers "a" "run_1" 200 works inputs 1 (2 ∷ []) (1 ∷ 2 ∷ []) yesterday.batches
      refl refl ((λ h. cc), ((λ h. omega arith), tt)) refl refl
