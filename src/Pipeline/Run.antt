-- ===== src/Pipeline/Run.antt =====
-- pipeline/scheduler.py: `PipelineScheduler.execute`. The silver and gold layers are parameters, as
-- is whether a write of a batch or of the run fails; `none` stands for a call that raises. Times and
-- durations are not modelled. The stages catch what is raised in them, so the handler of
-- `execute` for other exceptions is never reached.
pub mod Laws
pub mod Reads
mod Tests
use vela_flow_public.Prelude.{
  ℕ, ◌+◌, String, Bool, true, false, Option, none, some, List, [], ◌∷◌, ◌++◌, length, if◌then◌else◌,
}
use vela_flow_public.Dict.{Dict, insert}
use vela_flow_public.Pipeline.Bronze.{Source, todoist, calendar, gmail, Batch, land, read_latest}

pub data PipelineStage : Type 0 where
  bronze silver gold : PipelineStage

pub data PipelineStatus : Type 0 where
  pending running completed failed : PipelineStatus

pub record StageResult : Type 0 where
  pub stage : PipelineStage
  pub status : PipelineStatus
  pub record_count : ℕ

pub record PipelineRun (S : Type 0) : Type 0 where
  pub run_id : String
  pub tenant_id : String
  pub status : PipelineStatus
  pub stages : List StageResult
  pub scored_tasks : List S

-- what is landed: the raw tasks with their projects and sections, the raw events or the raw mails
pub data Payload (R : Type 0) : Type 0 where
  tasks : List R → List R → List R → Payload R
  events : List R → Payload R
  emails : List R → Payload R

pub record Inputs (R : Type 0) : Type 0 where
  pub raw_tasks : List R
  pub raw_projects : List R
  pub raw_sections : List R
  pub raw_events : List R
  pub raw_emails : List R
  pub weekend_mode : Bool

-- `SilverLayer` and `GoldLayer`
pub record Layers (R T E M S : Type 0) : Type 0 where
  pub process_todoist : Payload R → Option (List T)
  pub process_calendar : Payload R → Option (List E)
  pub process_gmail : Payload R → Option (List M)
  pub produce_scored_tasks : List T → Bool → Option (List S)
  pub produce_daily_digest : List T → List E → List M → Option (Unit {0})

-- the storage that the pipeline writes: the landed batches, and the persisted runs by their ids,
-- which are made of the tenant's and the time
pub record Storage (R S : Type 0) : Type 0 where
  pub batches : List (Batch (Payload R))
  pub runs : Dict (PipelineRun S)

abbrev pub result : PipelineStage → Option ℕ → StageResult
result stage none = record { stage = stage; status = failed; record_count = 0 }
result stage (some n) = record { stage = stage; status = completed; record_count = n }

abbrev pub is_failed : StageResult → Bool
is_failed r = elim r.status [ failed ↦ true | _ ↦ false ]

module _ {R T E M S : Type 0} (layers : Layers R T E M S) (tenant run_id : String) (now : ℕ)
    (fails : Source → Bool) where
  abbrev pub batch : Source → Payload R → Batch (Payload R)
  batch source payload = record {
    tenant_id = tenant;
    source = source;
    stamp = now;
    payload = payload;
  }

  -- `if raw: ingest(raw); total += len(raw)`, where an earlier ingestion may have raised
  abbrev pub ingest :
      Source
      → List R
      → Payload R
      → Option ℕ × List (Batch (Payload R))
      → Option ℕ × List (Batch (Payload R))
  ingest source [] payload (total, bs) = (total, bs)
  ingest source (r ∷ raw) payload (none, bs) = (none, bs)
  ingest source (r ∷ raw) payload (some total, bs) =
      if fails source
      then (none, bs)
      else (some (total + length (r ∷ raw)), land (batch source payload) bs)

  unfoldable pub execute_bronze :
      Inputs R → List (Batch (Payload R)) → StageResult × List (Batch (Payload R))
  execute_bronze i bs =
      let (total, bs') = ingest gmail i.raw_emails (emails i.raw_emails) (
        ingest calendar i.raw_events (events i.raw_events) (
          ingest todoist i.raw_tasks (tasks i.raw_tasks i.raw_projects i.raw_sections)
            (some 0, bs))) in
      (result bronze total, bs')

  -- `if batch: items = process(batch)`
  abbrev pub processed :
      {A : Type 0} → (Payload R → Option (List A)) → Option (Payload R) → Option (List A)
  processed process none = some []
  processed process (some payload) = process payload

  -- the items that are there if a later source fails are kept, as they are of no use then
  unfoldable pub execute_silver : List (Batch (Payload R)) → StageResult × List T × List E × List M
  execute_silver bs = elim (processed layers.process_todoist (read_latest tenant todoist bs)) [
    | none ↦ (result silver none, [], [], [])
    | some ts ↦ elim (processed layers.process_calendar (read_latest tenant calendar bs)) [
      | none ↦ (result silver none, ts, [], [])
      | some es ↦ elim (processed layers.process_gmail (read_latest tenant gmail bs)) [
        | none ↦ (result silver none, ts, es, [])
        | some ms ↦ (result silver (some (length ts + length es + length ms)), ts, es, ms)
      ]
    ]
  ]

  unfoldable pub execute_gold : List T → List E → List M → Bool → StageResult × List S
  execute_gold ts es ms weekend_mode = elim (layers.produce_scored_tasks ts weekend_mode) [
    | none ↦ (result gold none, [])
    | some scored ↦ elim (layers.produce_daily_digest ts es ms) [
      | none ↦ (result gold none, scored)
      | some done ↦ (result gold (some (length scored)), scored)
    ]
  ]

  abbrev pub finished : PipelineStatus → List StageResult → List S → PipelineRun S
  finished status stages scored = record {
    run_id = run_id;
    tenant_id = tenant;
    status = status;
    stages = stages;
    scored_tasks = scored;
  }

  -- the run from its stages, which end with the first that fails
  abbrev pub conclude : StageResult → StageResult → StageResult → List S → PipelineRun S
  conclude b s g scored =
      if is_failed b
      then finished failed (b ∷ []) []
      else if is_failed s
      then finished failed (b ∷ s ∷ []) []
      else finished (if is_failed g then failed else completed) (b ∷ s ∷ g ∷ []) scored

  unfoldable pub run_stages :
      Inputs R → List (Batch (Payload R)) → PipelineRun S × List (Batch (Payload R))
  run_stages i bs =
      let (b, bs') = execute_bronze i bs in
      let (s, ts, es, ms) = execute_silver bs' in
      let (g, scored) = execute_gold ts es ms i.weekend_mode in (conclude b s g scored, bs')

  -- the run is persisted whatever its status; `none` if that raises
  unfoldable pub execute : Bool → Inputs R → Storage R S → Option (PipelineRun S) × Storage R S
  execute persist_fails i s =
      let (run, bs) = run_stages i s.batches in
      if persist_fails
      then (none, record s { batches = bs })
      else (some run, record { batches = bs; runs = insert run_id run s.runs })
