-- ===== src/Pipeline/Run/Laws.antt =====
-- What a run of the pipeline records, and what it scores.
use vela_flow_public.Prelude.{
  ℕ, ◌≡◌, ◌∙◌, ap, refl, sym, subst, String, Bool, false, Option, none, some, List, [], ◌∷◌, ◌++◌,
  All, ◌⊎◌, inl, inr, map, eq_refl, arith, Bool-cases, if◌then◌else◌,
}
use vela_flow_public.Dict.{insert}
use vela_flow_public.Pipeline.Bronze.{
  Source, todoist, calendar, gmail, Batch, is_from, land, read_latest, AreOlder, read-land,
  read-land_other,
}
use vela_flow_public.Pipeline.Run.{
  bronze, silver, gold, PipelineStage, completed, failed, StageResult, PipelineRun, Payload, tasks,
  events, emails, Inputs, Layers, Storage, batch, ingest, finished, result, conclude,
  execute_bronze, execute_silver, execute_gold, run_stages, execute,
}

-- A run that is completed has completed the three stages in order; one that failed has completed
-- the stages before its last, which failed.
abbrev pub IsProper : {S : Type 0} → PipelineRun S → Type 0
IsProper run =
    ((run.status ≡ completed)
      × (map (λ r. r.stage) run.stages ≡ bronze ∷ silver ∷ gold ∷ [])
      × All (λ r. r.status ≡ completed) run.stages)
    ⊎ ((run.status ≡ failed)
        × (done : List StageResult) × (last : StageResult) × (run.stages ≡ done ++ last ∷ [])
        × All (λ r. r.status ≡ completed) done
        × (last.status ≡ failed))

abbrev Ends : PipelineStage → StageResult → Type 0
Ends stage r = (r.stage ≡ stage) × ((r.status ≡ completed) ⊎ (r.status ≡ failed))

result-Ends : (stage : PipelineStage) (total : Option ℕ) → Ends stage (result stage total)
result-Ends stage none = (refl, inr refl)
result-Ends stage (some n) = (refl, inl refl)

module _ {R T E M S : Type 0} (layers : Layers R T E M S) (tenant run_id : String) (now : ℕ)
    (fails : Source → Bool) where
  conclude-IsProper :
      (b s g : StageResult) (scored : List S)
      → Ends bronze b
      → Ends silver s
      → Ends gold g
      → IsProper (conclude layers tenant run_id now fails b s g scored)
  conclude-IsProper b s g scored (eb, inr fb) es eg =
      let ended : finished layers tenant run_id now fails failed (b ∷ []) []
          ≡ conclude layers tenant run_id now fails b s g scored =
        ground arith in
      subst IsProper ended (inr (refl, [], b, refl, tt, fb))
  conclude-IsProper b s g scored (eb, inl cb) (es, inr fs) eg =
      let ended : finished layers tenant run_id now fails failed (b ∷ s ∷ []) []
          ≡ conclude layers tenant run_id now fails b s g scored =
        ground arith in
      subst IsProper ended (inr (refl, b ∷ [], s, refl, (cb, tt), fs))
  conclude-IsProper b s g scored (eb, inl cb) (es, inl cs) (eg, inr fg) =
      let ended : finished layers tenant run_id now fails failed (b ∷ s ∷ g ∷ []) scored
          ≡ conclude layers tenant run_id now fails b s g scored =
        ground arith in
      subst IsProper ended (inr (refl, b ∷ s ∷ [], g, refl, (cb, (cs, tt)), fg))
  conclude-IsProper b s g scored (eb, inl cb) (es, inl cs) (eg, inl cg) =
      let ended : finished layers tenant run_id now fails completed (b ∷ s ∷ g ∷ []) scored
          ≡ conclude layers tenant run_id now fails b s g scored =
        ground arith in
      subst IsProper ended (inl (refl, ground arith, (cb, (cs, (cg, tt)))))

  pub conclude_completed :
      (b s g : StageResult) (scored : List S)
      → Ends silver s
      → Ends gold g
      → (conclude layers tenant run_id now fails b s g scored).status ≡ completed
      → (s.status ≡ completed)
        × (g.status ≡ completed)
        × ((conclude layers tenant run_id now fails b s g scored).scored_tasks ≡ scored)
  conclude_completed b s g scored es eg done = ground arith

  silver_tasks :
      (p : Payload R) (ts : List T) (bs : List (Batch (Payload R)))
      → read_latest tenant todoist bs ≡ some p
      → layers.process_todoist p ≡ some ts
      → (execute_silver layers tenant run_id now fails bs).1 ≡ ts
  unfolding execute_silver
  silver_tasks p ts bs here made = ground arith

  pub gold_scored :
      (ts : List T) (es : List E) (ms : List M) (w : Bool)
      → (execute_gold layers tenant run_id now fails ts es ms w).0.status ≡ completed
      → layers.produce_scored_tasks ts w
        ≡ some (execute_gold layers tenant run_id now fails ts es ms w).1
  unfolding execute_gold
  gold_scored ts es ms w done = ground arith

  bronze-Ends :
      (i : Inputs R) (bs : List (Batch (Payload R)))
      → Ends bronze (execute_bronze layers tenant run_id now fails i bs).0
  unfolding execute_bronze
  bronze-Ends i bs = result-Ends bronze _

  pub silver-Ends :
      (bs : List (Batch (Payload R)))
      → Ends silver (execute_silver layers tenant run_id now fails bs).0
  unfolding execute_silver
  silver-Ends bs = ground arith

  pub gold-Ends :
      (ts : List T) (es : List E) (ms : List M) (w : Bool)
      → Ends gold (execute_gold layers tenant run_id now fails ts es ms w).0
  unfolding execute_gold
  gold-Ends ts es ms w = ground arith

  -- Whatever the layers do, a run is completed with its three stages completed in order, or it failed
  -- at the last of its stages, the ones before completed; unless the persisting fails, the run is
  -- returned and stored under its id, and the batches that it landed are stored in any case.
  pub execute-IsProper :
      (persist_fails : Bool) (i : Inputs R) (s : Storage R S)
      → let (run, bs) = run_stages layers tenant run_id now fails i s.batches in
        IsProper run
        × (execute layers tenant run_id now fails persist_fails i s ≡ (
            if persist_fails
            then (none, record s { batches = bs })
            else (some run, record { batches = bs; runs = insert run_id run s.runs })))
  unfolding run_stages execute
  execute-IsProper persist_fails i s =
      let (b, bs) = execute_bronze layers tenant run_id now fails i s.batches in
      let (r, ts, es, ms) = execute_silver layers tenant run_id now fails bs in
      let (g, scored) = execute_gold layers tenant run_id now fails ts es ms i.weekend_mode in
      (
        conclude-IsProper b r g scored (bronze-Ends i s.batches) (silver-Ends bs)
            (gold-Ends ts es ms i.weekend_mode),
        refl,
      )

  pub ingest_read :
      (source : Source) (raw : List R) (payload : Payload R) (total : Option ℕ)
      (bs : List (Batch (Payload R))) (other : String) (wanted : Source)
      → is_from other wanted (batch layers tenant run_id now fails source payload) ≡ false
      → read_latest other wanted
          (ingest layers tenant run_id now fails source raw payload (total, bs)).1
        ≡ read_latest other wanted bs
  ingest_read source [] payload total bs other wanted differ = refl
  ingest_read source (r ∷ raw) payload none bs other wanted differ = refl
  ingest_read source (r ∷ raw) payload (some total) bs other wanted differ =
      elim (Bool-cases (fails source)) [
        | inl broken ↦ rw broken refl
        | inr fine ↦ rw fine (
            read-land_other (batch layers tenant run_id now fails source payload) other wanted bs
              differ)
      ]

  ingest-land :
      (r : R) (raw rs : List R) (payload : Payload R) (bs : List (Batch (Payload R)))
      → raw ≡ r ∷ rs
      → fails todoist ≡ false
      → (ingest layers tenant run_id now fails todoist raw payload (some 0, bs)).1
        ≡ land (batch layers tenant run_id now fails todoist payload) bs
  ingest-land r [] rs payload bs given fine = cc
  ingest-land r (q ∷ qs) rs payload bs given fine = rw fine refl

  -- If the write of the tasks works and every batch of the tenant's tasks was landed before, then a
  -- completed run on some raw tasks has scored what the silver layer makes of these very tasks.
  pub run_scores_input :
      (i : Inputs R) (r : R) (rs : List R) (ts : List T) (bs : List (Batch (Payload R)))
      → i.raw_tasks ≡ r ∷ rs
      → fails todoist ≡ false
      → AreOlder tenant todoist now bs
      → layers.process_todoist (tasks i.raw_tasks i.raw_projects i.raw_sections) ≡ some ts
      → (run_stages layers tenant run_id now fails i bs).0.status ≡ completed
      → layers.produce_scored_tasks ts i.weekend_mode
        ≡ some (run_stages layers tenant run_id now fails i bs).0.scored_tasks
  unfolding run_stages
  run_scores_input i r rs ts bs given fine older made done =
      let payload = tasks i.raw_tasks i.raw_projects i.raw_sections in
      let one = ingest layers tenant run_id now fails todoist i.raw_tasks payload (some 0, bs) in
      let two =
        ingest layers tenant run_id now fails calendar i.raw_events (events i.raw_events) one in
      let read : read_latest tenant todoist (execute_bronze layers tenant run_id now fails i bs).1
          ≡ some payload =
        unfold execute_bronze in
        (ingest_read gmail i.raw_emails (emails i.raw_emails) two.0 two.1 tenant todoist
            (rw (eq_refl tenant) refl)
          ∙ ingest_read calendar i.raw_events (events i.raw_events) one.0 one.1 tenant todoist
              (rw (eq_refl tenant) refl)
          ∙ ap (read_latest tenant todoist) (ingest-land r i.raw_tasks rs payload bs given fine)
          ∙ read-land (batch layers tenant run_id now fails todoist payload) bs older) in
      let (b, bs') = execute_bronze layers tenant run_id now fails i bs in
      let (q, ts', es, ms) = execute_silver layers tenant run_id now fails bs' in
      let (g, scored) = execute_gold layers tenant run_id now fails ts' es ms i.weekend_mode in
      let ended =
        conclude_completed b q g scored (silver-Ends bs') (gold-Ends ts' es ms i.weekend_mode)
          done in
      ap (λ t. layers.produce_scored_tasks t i.weekend_mode)
        (sym (silver_tasks payload ts bs' read made))
      ∙ gold_scored ts' es ms i.weekend_mode ended.1
      ∙ ap some (sym ended.2)
