-- ===== src/Pipeline/Run/Reads.antt =====
-- What a run reads of the batches that were landed before it.
use vela_flow_public.Prelude.{
  ◌≡◌, ◌∙◌, ap, sym, refl, String, Bool, false, some, List, [], str_eq, eq_refl, arith, ℕ,
}
use vela_flow_public.Pipeline.Bronze.{Source, todoist, calendar, gmail, Batch, read_latest}
use vela_flow_public.Pipeline.Run.{
  completed, Payload, tasks, events, emails, Inputs, Layers, ingest, processed, execute_bronze,
  execute_silver, execute_gold, run_stages,
}
use vela_flow_public.Pipeline.Run.Laws.{
  silver-Ends, gold-Ends, gold_scored, ingest_read, conclude_completed,
}

module _ {R T E M S : Type 0} (layers : Layers R T E M S) (tenant run_id : String) (now : ℕ)
    (fails : Source → Bool) where
  silver_all :
      (bs : List (Batch (Payload R)))
      → let r = execute_silver layers tenant run_id now fails bs in
        r.0.status ≡ completed
        → (processed layers tenant run_id now fails layers.process_todoist
              (read_latest tenant todoist bs)
            ≡ some r.1)
          × (processed layers tenant run_id now fails layers.process_calendar
                (read_latest tenant calendar bs)
              ≡ some r.2)
          × (processed layers tenant run_id now fails layers.process_gmail
                (read_latest tenant gmail bs)
              ≡ some r.3)
  unfolding execute_silver
  silver_all bs done = (ground arith, ground arith, ground arith)

  gold_digest :
      (ts : List T) (es : List E) (ms : List M) (w : Bool)
      → (execute_gold layers tenant run_id now fails ts es ms w).0.status ≡ completed
      → layers.produce_daily_digest ts es ms ≡ some tt
  unfolding execute_gold
  gold_digest ts es ms w done = ground arith

  bronze_other :
      (i : Inputs R) (bs : List (Batch (Payload R))) (other : String) (source : Source)
      → str_eq tenant other ≡ false
      → read_latest other source (execute_bronze layers tenant run_id now fails i bs).1
        ≡ read_latest other source bs
  unfolding execute_bronze
  bronze_other i bs other source differ =
      let one =
        ingest layers tenant run_id now fails todoist i.raw_tasks
          (tasks i.raw_tasks i.raw_projects i.raw_sections) (some 0, bs) in
      let two =
        ingest layers tenant run_id now fails calendar i.raw_events (events i.raw_events) one in
      ingest_read layers tenant run_id now fails gmail i.raw_emails (emails i.raw_emails) two.0
        two.1 other source (rw differ refl)
      ∙ ingest_read layers tenant run_id now fails calendar i.raw_events (events i.raw_events) one.0
          one.1 other source (rw differ refl)
      ∙ ingest_read layers tenant run_id now fails todoist i.raw_tasks
          (tasks i.raw_tasks i.raw_projects i.raw_sections) (some 0) bs other source
          (rw differ refl)

  bronze_events :
      (i : Inputs R) (bs : List (Batch (Payload R)))
      → i.raw_events ≡ []
      → read_latest tenant calendar (execute_bronze layers tenant run_id now fails i bs).1
        ≡ read_latest tenant calendar bs
  unfolding execute_bronze
  bronze_events i bs no_events =
      let one =
        ingest layers tenant run_id now fails todoist i.raw_tasks
          (tasks i.raw_tasks i.raw_projects i.raw_sections) (some 0, bs) in
      let two =
        ingest layers tenant run_id now fails calendar i.raw_events (events i.raw_events) one in
      ingest_read layers tenant run_id now fails gmail i.raw_emails (emails i.raw_emails) two.0
        two.1 tenant calendar (rw (eq_refl tenant) refl)
      ∙ ap
          (λ raw.
            read_latest tenant calendar
              (ingest layers tenant run_id now fails calendar raw (events i.raw_events) one).1)
          no_events
      ∙ ingest_read layers tenant run_id now fails todoist i.raw_tasks
          (tasks i.raw_tasks i.raw_projects i.raw_sections) (some 0) bs tenant calendar
          (rw (eq_refl tenant) refl)

  -- A completed run that is given no events has produced its digest with the events that the silver
  -- layer makes of the batch of the tenant that was landed last, whenever that was: an empty calendar is
  -- never landed. Its tasks and mails are those of the last batches after the landing, and the tasks are
  -- the ones that it scored. What another tenant reads is as it was.
  pub execute_reads :
      (i : Inputs R) (bs : List (Batch (Payload R))) (old : Payload R) (es : List E)
      (other : String) (source : Source)
      → i.raw_events ≡ []
      → read_latest tenant calendar bs ≡ some old
      → layers.process_calendar old ≡ some es
      → (run_stages layers tenant run_id now fails i bs).0.status ≡ completed
      → str_eq tenant other ≡ false
      → let (run, bs') = run_stages layers tenant run_id now fails i bs in
        ((ts : List T) × (ms : List M) × (processed layers tenant run_id now fails
              layers.process_todoist
              (read_latest tenant todoist bs')
            ≡ some ts)
          × (processed layers tenant run_id now fails layers.process_gmail
                (read_latest tenant gmail bs')
              ≡ some ms)
          × (layers.produce_scored_tasks ts i.weekend_mode ≡ some run.scored_tasks)
          × (layers.produce_daily_digest ts es ms ≡ some tt))
        × (read_latest other source bs' ≡ read_latest other source bs)
  unfolding run_stages
  execute_reads i bs old es other source no_events last made done differ =
      let (b, bs') = execute_bronze layers tenant run_id now fails i bs in
      let (r, ts, es', ms) = execute_silver layers tenant run_id now fails bs' in
      let (g, scored) = execute_gold layers tenant run_id now fails ts es' ms i.weekend_mode in
      let (silver_done, gold_done, kept) =
        conclude_completed layers tenant run_id now fails b r g scored
          (silver-Ends layers tenant run_id now fails bs')
          (gold-Ends layers tenant run_id now fails ts es' ms i.weekend_mode) done in
      let (t, e, m) = silver_all bs' silver_done in
      let same : es' ≡ es = ground (arith, e, bronze_events i bs no_events, last, made) in
      (
        (
          ts,
          ms,
          t,
          m,
          gold_scored layers tenant run_id now fails ts es' ms i.weekend_mode gold_done
              ∙ ap some (sym kept),
          ap (λ x. layers.produce_daily_digest ts x ms) (sym same)
              ∙ gold_digest ts es' ms i.weekend_mode gold_done,
        ),
        bronze_other i bs other source differ,
      )
