-- ===== src/Queue/Handlers/Frame.antt =====
-- What the handler of a message leaves alone: all that belongs to other tenants.
use Prim.Native.String.{◌++◌ as append}
use vela_flow_public.Prelude.{
  ℕ, min, ◌≡◌, ◌∙◌, sym, ap, refl, subst, String, Bool, true, false, Option, none, some, List, [],
  ◌∷◌, keep, All, All-mono, str_eq, arith, if◌then◌else◌, inl, inr, Option-cases,
}
use vela_flow_public.Dict.{Dict, lookup, lookup-insert}
use vela_flow_public.Tenant.{Tenant, post_init}
use vela_flow_public.Rag.{DocumentChunk, Result, ok, value_error, permission_error}
use vela_flow_public.Rag.Store.{delete_document, is_of, ingest, query}
use vela_flow_public.Rag.Isolation.{rows, ingest_document, delete, act-rows}
use vela_flow_public.Queue.{
  MessageType, pipeline_run, digest_generate, llm_generate, notion_sync, board_analysis,
  scoring_config, tenant_operation, notebooklm_extract, rag_query,
}
use vela_flow_public.Queue.Quota.{UsageType, Usages, check_quota, persist_usage}
use vela_flow_public.Queue.Quota
use vela_flow_public.Queue.Handlers.{
  demo_expired, quota_exceeded, demo_cost_cap, error, completed_sync, completed_board, finish_text,
  found, get, JobResult, Message, Files, Calls, store_job_result, check, persist, for_tenant,
  report, Run, finish_run, handle_pipeline_run, handle_digest_generate, generate,
  handle_llm_generate, handle_notion_sync, handle_board_analysis, handle_scoring_config, deleted,
  finish_ingest, ingest_action, query_action, delete_action, handle_rag_query, dispatch, handle,
  Delivery, work,
}

persist-memory :
    (id other : String) (u : Usages)
    → lookup other (persist_usage id u).memory ≡ lookup other u.memory
unfolding persist_usage
persist-memory id other u = ground arith

persist-stored :
    (id other : String) (u : Usages)
    → str_eq id other ≡ false
    → lookup other (persist_usage id u).stored ≡ lookup other u.stored
unfolding persist_usage
persist-stored id other u differ = elim (Option-cases (lookup id u.memory)) [
  | inl missing ↦ ground (arith, missing)
  | inr (v, here) ↦ ground (arith, here, lookup-insert id other v u.stored)
]

module _ {M F G : Type 0} where
  -- the tenants are as they were, and so are another tenant's results, usage, scoring and chunks
  pub record Untouched (other : String) (s s' : Files M F G) : Type 0 where
    pub tenants : s'.tenants ≡ s.tenants
    pub results : lookup other s'.results ≡ lookup other s.results
    pub memory : lookup other s'.usages.memory ≡ lookup other s.usages.memory
    pub stored : lookup other s'.usages.stored ≡ lookup other s.usages.stored
    pub scoring : lookup other s'.scoring ≡ lookup other s.scoring
    pub chunks : keep (is_of other) s'.chunks ≡ keep (is_of other) s.chunks

  Untouched-refl : (other : String) (s : Files M F G) → Untouched other s s
  Untouched-refl other s = record {
    tenants = refl;
    results = refl;
    memory = refl;
    stored = refl;
    scoring = refl;
    chunks = refl;
  }

  Untouched-trans :
      (other : String) (s s' s'' : Files M F G)
      → Untouched other s s'
      → Untouched other s' s''
      → Untouched other s s''
  Untouched-trans other s s' s'' u v = record {
    tenants = v.tenants ∙ u.tenants;
    results = v.results ∙ u.results;
    memory = v.memory ∙ u.memory;
    stored = v.stored ∙ u.stored;
    scoring = v.scoring ∙ u.scoring;
    chunks = v.chunks ∙ u.chunks;
  }

  -- each tenant is stored under its own id
  abbrev pub IsKeyed : Files M F G → Type 0
  IsKeyed s = (id : String) (t : Tenant) → lookup id s.tenants ≡ some t → t.tenant_id ≡ id

  -- what a handler leaves is untouched for the other tenant
  record Spares (other : String) (s : Files M F G) (r : Bool × Files M F G) : Type 0 where
    untouched : Untouched other s r.1

  module _ (other : String) (s : Files M F G) where
    if-Spares :
        (b : Bool) (x y : Bool × Files M F G)
        → Spares other s x
        → Spares other s y
        → Spares other s (if b then x else y)
    if-Spares true x y sx sy = sx
    if-Spares false x y sx sy = sy

    for_tenant-Spares :
        (m : Message M) (f : Tenant → Bool × Files M F G)
        → IsKeyed s
        → ((t : Tenant) → t.tenant_id ≡ m.tenant_id → Spares other s (f t))
        → Spares other s (for_tenant m s f)
    unfolding for_tenant
    for_tenant-Spares m f keyed spares = elim (Option-cases (lookup m.tenant_id s.tenants)) [
      | inl missing ↦
          let e : (true, s) ≡ for_tenant m s f = ground (arith, missing) in
          subst (Spares other s) e (record { untouched = Untouched-refl other s })
      | inr (t, there) ↦
          let e : f (post_init t) ≡ for_tenant m s f = ground (arith, there) in
          subst (Spares other s) e
            (spares (post_init t) (unfold post_init in keyed m.tenant_id t there))
    ]

    store-Untouched :
        (tenant message : String) (result : JobResult M G) (s' : Files M F G)
        → str_eq tenant other ≡ false
        → Untouched other s s'
        → Untouched other s (store_job_result tenant message result s')
    unfolding store_job_result
    store-Untouched tenant message result s' differ u = record {
      tenants = u.tenants;
      results = lookup-insert tenant other _ s'.results ∙ rw differ u.results;
      memory = u.memory;
      stored = u.stored;
      scoring = u.scoring;
      chunks = u.chunks;
    }

    check-Untouched :
        (today : String) (t : Tenant) (kind : UsageType) (s' : Files M F G)
        → str_eq t.tenant_id other ≡ false
        → Untouched other s s'
        → Untouched other s (check today t kind s').1
    unfolding check_quota
    check-Untouched today t kind s' differ u = record {
      tenants = u.tenants;
      results = u.results;
      memory = lookup-insert t.tenant_id other _ s'.usages.memory ∙ rw differ u.memory;
      stored = u.stored;
      scoring = u.scoring;
      chunks = u.chunks;
    }

    persist-Untouched :
        (id : String) (s' : Files M F G)
        → str_eq id other ≡ false
        → Untouched other s s'
        → Untouched other s (persist id s')
    persist-Untouched id s' differ u = record {
      tenants = u.tenants;
      results = u.results;
      memory = persist-memory id other s'.usages ∙ u.memory;
      stored = persist-stored id other s'.usages differ ∙ u.stored;
      scoring = u.scoring;
      chunks = u.chunks;
    }

    report-Spares :
        (m : Message M) (result : JobResult M G) (s' : Files M F G)
        → str_eq m.tenant_id other ≡ false
        → Untouched other s s'
        → Spares other s (report m result s')
    report-Spares m result s' differ u = record {
      untouched = store-Untouched m.tenant_id m.message_id result s' differ u;
    }

  module _ (calls : Calls M F G) (today : String) (now : ℕ) where
    -- what a message ingests is apart from the rows of the other tenant
    abbrev pub IsApartFrom : String → Files M F G → Message M → Type 0
    IsApartFrom other s m =
        All
          (λ r.
            (i : ℕ) → str_eq r.0 (calls.rag.make_chunk_id (get m.payload.document_id "") i) ≡ false)
          (rows calls.rag calls.chunker other s.chunks)

    module _ (other : String) (s : Files M F G) (m : Message M)
        (differ : str_eq m.tenant_id other ≡ false) (keyed : IsKeyed s) where
      own : (t : Tenant) → t.tenant_id ≡ m.tenant_id → str_eq t.tenant_id other ≡ false
      own t same = rw same differ

      checked :
          (t : Tenant) (kind : UsageType)
          → t.tenant_id ≡ m.tenant_id
          → Untouched other s (check today t kind s).1
      checked t kind same =
          check-Untouched other s today t kind s (own t same) (Untouched-refl other s)

      reported :
          (result : JobResult M G) (s' : Files M F G)
          → Untouched other s s'
          → Spares other s (report m result s')
      reported result s' u = report-Spares other s m result s' differ u

      kept : (result : JobResult M G) → Spares other s (report m result s)
      kept result = reported result s (Untouched-refl other s)

      finish-Spares :
          (run : Option Run) (s' : Files M F G)
          → Untouched other s s'
          → Spares other s (finish_run calls today now m run s')
      finish-Spares none s' u = record { untouched = u }
      finish-Spares (some run) s' u =
          reported _ (persist m.tenant_id s') (persist-Untouched other s m.tenant_id s' differ u)

      pipeline_run-Spares : Spares other s (handle_pipeline_run calls today now m s)
      unfolding handle_pipeline_run
      pipeline_run-Spares = for_tenant-Spares other s m _ keyed λ t same.
          let u = checked t Quota.pipeline_run same in
          let s' = (check today t Quota.pipeline_run s).1 in
          ground (
            arith,
            kept demo_expired,
            reported quota_exceeded s' u,
            reported demo_cost_cap s' u,
            finish-Spares (calls.execute t (some m.payload)) s' u,
          )

      digest-Spares : Spares other s (handle_digest_generate calls today now m s)
      unfolding handle_digest_generate
      digest-Spares = for_tenant-Spares other s m _ keyed λ t same.
          let u = checked t Quota.pipeline_run same in
          let s' = (check today t Quota.pipeline_run s).1 in
          ground (arith, reported quota_exceeded s' u, finish-Spares (calls.execute t none) s' u)

      text-Spares :
          (answer : Option String) (s' : Files M F G)
          → Untouched other s s'
          → Spares other s (finish_text calls today now m answer s')
      text-Spares none s' u = record { untouched = u }
      text-Spares (some answer) s' u =
          reported _ (persist m.tenant_id s') (persist-Untouched other s m.tenant_id s' differ u)

      llm-Spares : Spares other s (handle_llm_generate calls today now m s)
      unfolding handle_llm_generate
      llm-Spares = for_tenant-Spares other s m _ keyed λ t same.
          let u = checked t Quota.llm_call same in
          let s' = (check today t Quota.llm_call s).1 in
          ground (
            arith,
            kept demo_expired,
            reported quota_exceeded s' u,
            text-Spares (generate calls today now m.tenant_id t m.payload) s' u,
          )

      sync-Spares : Spares other s (handle_notion_sync calls today now m s)
      unfolding handle_notion_sync
      sync-Spares = for_tenant-Spares other s m _ keyed λ t same.
          if-Spares other s (str_eq t.credentials.notion_api_token "")
            (report m (error "Notion not connected. Please connect Notion in your dashboard.") s)
            (report m (completed_sync (get m.payload.direction "todoist_to_notion")) s) (kept _)
            (kept _)

      board-Spares : Spares other s (handle_board_analysis calls today now m s)
      unfolding handle_board_analysis
      board-Spares = for_tenant-Spares other s m _ keyed λ t same.
          if-Spares other s (str_eq t.credentials.todoist_api_token "")
            (report m (error "Todoist not connected. Please connect Todoist in your dashboard.") s)
            (report m (completed_board (get m.payload.project_id "all")) s) (kept _) (kept _)

      scoring-Spares : Spares other s (handle_scoring_config calls today now m s)
      unfolding handle_scoring_config
      scoring-Spares = for_tenant-Spares other s m _ keyed λ t same. record {
        untouched = record {
          tenants = refl;
          results = refl;
          memory = refl;
          stored = refl;
          scoring = lookup-insert m.tenant_id other m.payload s.scoring ∙ rw differ refl;
          chunks = refl;
        };
      }

      module _ (apart : IsApartFrom other s m) where
        with_chunks :
            (chunks : Dict (DocumentChunk M F))
            → keep (is_of other) chunks ≡ keep (is_of other) s.chunks
            → Untouched other s (record s { chunks = chunks })
        with_chunks chunks same = record {
          tenants = refl;
          results = refl;
          memory = refl;
          stored = refl;
          scoring = refl;
          chunks = same;
        }

        ingest-Spares : (t : Tenant) → Spares other s (ingest_action calls today now t m s)
        ingest-Spares t =
            let result =
              ingest calls.rag calls.chunker (get m.payload.text []) (get m.payload.document_id "")
                m.tenant_id m.payload.metadata t.quota.max_rag_documents s.chunks in
            let u = with_chunks result.1 (
              act-rows calls.rag calls.chunker other m.tenant_id
                (ingest_document (get m.payload.text []) (get m.payload.document_id "")
                  m.payload.metadata t.quota.max_rag_documents)
                s.chunks differ apart) in
            let finished : Spares other s (finish_ingest calls today now m result.0 result.1 s) =
              elim result.0
                as (λ (count : Result ℕ).
                  Spares other s (finish_ingest calls today now m count result.1 s)) [
                    | ok n ↦ reported _ _ u
                    | value_error ↦ kept _
                    | permission_error ↦ kept _
                  ] in
            ground (arith, finished, kept (error "RAG operation failed"))

        found-Spares :
            (t : Tenant) (s' : Files M F G)
            → Untouched other s s'
            → Spares other s (
                report m
                  (found (
                    query calls.rag
                      (get m.payload.query [])
                      m.tenant_id
                      (min (get m.payload.top_k 5) 10)
                      s'.chunks))
                  (persist m.tenant_id s'))
        found-Spares t s' u = reported _ _ (persist-Untouched other s m.tenant_id s' differ u)

        query-Spares :
            (t : Tenant)
            → t.tenant_id ≡ m.tenant_id
            → Spares other s (query_action calls today now t m s)
        query-Spares t same =
            let u = checked t Quota.llm_call same in
            let s' = (check today t Quota.llm_call s).1 in
            ground (
              arith,
              reported quota_exceeded s' u,
              reported (error "RAG operation failed") s' u,
              found-Spares t s' u,
            )

        delete-Spares : Spares other s (delete_action calls today now m s)
        delete-Spares =
            let result = delete_document m.tenant_id (get m.payload.document_id "") s.chunks in
            let done : Spares other s
                (report m (deleted result.0) (record s { chunks = result.1 })) =
              reported _ _ (
                with_chunks _ (
                  act-rows calls.rag calls.chunker other m.tenant_id
                    (delete (get m.payload.document_id "")) s.chunks differ tt)) in
            ground (arith, done, kept (error "RAG operation failed"))

        rag-Spares : Spares other s (handle_rag_query calls today now m s)
        unfolding handle_rag_query
        rag-Spares = for_tenant-Spares other s m _ keyed λ t same. ground (
          arith,
          kept demo_expired,
          kept (error "Native RAG is not available for your tier. Upgrade to VIP."),
          kept (error (append "Unknown RAG action: " (get m.payload.action "query"))),
          ingest-Spares t,
          query-Spares t same,
          delete-Spares,
        )

        dispatch-Spares : (type : MessageType) → Spares other s (dispatch calls today now type m s)
        unfolding dispatch
        dispatch-Spares pipeline_run = pipeline_run-Spares
        dispatch-Spares digest_generate = digest-Spares
        dispatch-Spares llm_generate = llm-Spares
        dispatch-Spares notion_sync = sync-Spares
        dispatch-Spares board_analysis = board-Spares
        dispatch-Spares scoring_config = scoring-Spares
        dispatch-Spares tenant_operation = record { untouched = Untouched-refl other s }
        dispatch-Spares notebooklm_extract = record { untouched = Untouched-refl other s }
        dispatch-Spares rag_query = rag-Spares

  module _ (calls : Calls M F G) where
    -- The handlers of messages of other tenants, in any order and on any days, leave the tenants as
    -- they are, and a tenant's results, usage, scoring and chunks, if what the messages ingest has no
    -- id of one of the tenant's chunks; where tenants are stored under their own ids.
    pub messages_isolated :
        (other : String) (ds : List (Delivery M)) (s : Files M F G)
        → IsKeyed s
        → All
            (λ d.
              (str_eq d.message.tenant_id other ≡ false)
              × IsApartFrom calls d.today d.now other s d.message)
            ds
        → Untouched other s (work calls ds s)
    messages_isolated other [] s keyed apart = Untouched-refl other s
    messages_isolated other (d ∷ ds) s keyed apart =
        let s' = (handle calls d.today d.now d.message s).1 in
        let u =
          (dispatch-Spares calls d.today d.now other s d.message apart.0.0 keyed apart.0.1
            d.message.message_type).untouched in
        let keyed' : IsKeyed s' = λ id t h. keyed id t (ap (lookup id) (sym u.tenants) ∙ h) in
        let apart' =
          All-mono
            (λ e.
              (str_eq e.message.tenant_id other ≡ false)
              × IsApartFrom calls e.today e.now other s e.message)
            (λ e.
              (str_eq e.message.tenant_id other ≡ false)
              × IsApartFrom calls e.today e.now other s' e.message)
            ds
            (λ e h. (
              h.0,
              subst
                  (All (λ r.
                    (i : ℕ)
                    → str_eq r.0 (calls.rag.make_chunk_id (get e.message.payload.document_id "") i)
                      ≡ false))
                  (sym u.chunks) h.1,
            ))
            apart.1 in
        Untouched-trans other s s' (work calls ds s') u
          (messages_isolated other ds s' keyed' apart')
