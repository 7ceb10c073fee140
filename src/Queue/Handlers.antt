-- ===== src/Queue/Handlers.antt =====
-- queue/worker.py: the handlers of `QueueWorker`, over the documents below `tenants/` and the table
-- of chunks. A handler returns or raises. What runs elsewhere is a parameter: a run of the pipeline,
-- the local and the cloud model, the augmentation of a prompt. The key of a stored result is the
-- tenant and the message. Times are seconds since the epoch.
pub mod Gates
pub mod Frame
pub mod Listing
mod Tests
use Prim.Native.String.{◌++◌ as append}
use vela_flow_public.Prelude.{
  ℕ, min, String, Bool, true, false, not, ◌&&◌, ◌||◌, Option, none, some, List, [], ◌∷◌, str_eq,
  leb, ltb, ◌==◌, if◌then◌else◌,
}
use vela_flow_public.Dict.{Dict, lookup, insert}
use vela_flow_public.Tenant.{Tenant, post_init}
use vela_flow_public.Pipeline.Run.{PipelineStatus}
use vela_flow_public.Rag.{Result, DocumentChunk, DocumentChunker, ok, value_error, permission_error}
use vela_flow_public.Rag.Store.{Outside, RetrievalResult, ingest, query, delete_document}
use vela_flow_public.Queue.{
  MessageType, pipeline_run, digest_generate, llm_generate, notion_sync, board_analysis,
  scoring_config, tenant_operation, notebooklm_extract, rag_query,
}
use vela_flow_public.Queue.Quota.{UsageType, Usages, Limits, check_quota, persist_usage}
use vela_flow_public.Queue.Quota

-- the keys of a payload that the handlers read, where they are there
pub record Payload (M : Type 0) : Type 0 where
  pub is_empty : Bool
  pub prompt : Option String
  pub system_prompt : Option String
  pub use_local : Option Bool
  pub direction : Option String
  pub project_id : Option String
  pub action : Option String
  pub text : Option (List ℕ)
  pub document_id : Option String
  pub metadata : M
  pub query : Option (List ℕ)
  pub top_k : Option ℕ

abbrev pub get {ℓ} : {A : Type ℓ} → Option A → A → A
get none default = default
get (some a) default = a

-- `run.run_id` and `run.status`
pub record Run : Type 0 where
  pub run_id : String
  pub status : PipelineStatus

-- a stored result: its status, with what it is about
pub data JobResult (M G : Type 0) : Type 0 where
  demo_expired quota_exceeded demo_cost_cap : JobResult M G
  error : String → JobResult M G
  completed_run : Run → JobResult M G
  completed_text : String → JobResult M G
  completed_sync : String → JobResult M G
  completed_board : String → JobResult M G
  ingested : ℕ → JobResult M G
  found : List (RetrievalResult M G) → JobResult M G
  deleted : ℕ → JobResult M G

pub record Message (M : Type 0) : Type 0 where
  pub message_id : String
  pub message_type : MessageType
  pub tenant_id : String
  pub payload : Payload M

pub record Files (M F G : Type 0) : Type 0 where
  pub tenants : Dict Tenant
  pub usages : Usages
  pub results : Dict (Dict (JobResult M G))
  pub scoring : Dict (Payload M)
  pub chunks : Dict (DocumentChunk M F)

-- What the handlers call: `none` stands for a call that raises. An answer of a model is a text or
-- `None`; the local model that is not available, and its `ImportError` or `ValueError`, count as the
-- answer `None`. `rag_works` says whether the table of chunks can be opened.
pub record Calls (M F G : Type 0) : Type 0 where
  pub execute : Tenant → Option (Payload M) → Option Run
  pub augment : String → String → String → Option String
  pub local_chat : String → String → Option (Option String)
  pub call_llm : Tenant → String → String → Option (Option String)
  pub rag_works : Bool
  pub rag : Outside F G
  pub chunker : DocumentChunker

abbrev pub is_demo_expired : ℕ → Tenant → Bool
is_demo_expired now t =
    t.is_demo && (elim t.demo_expires_at [ none ↦ false | some at ↦ leb at now ])

abbrev pub limits : Tenant → Limits
limits t = record {
  max_pipeline_runs_per_day = t.quota.max_pipeline_runs_per_day;
  max_llm_calls_per_day = t.quota.max_llm_calls_per_day;
}

module _ {M F G : Type 0} where
  -- `_store_job_result`
  unfoldable pub store_job_result : String → String → JobResult M G → Files M F G → Files M F G
  store_job_result tenant message result s =
      let old : Dict (JobResult M G) = elim (lookup tenant s.results) [
        | none ↦ []
        | some rs ↦ rs
      ] in
      record s { results = insert tenant (insert message result old) s.results }

  -- `_check_quota`, and `_persist_usage`
  abbrev pub check : String → Tenant → UsageType → Files M F G → Bool × Files M F G
  check today t kind s =
      let (allowed, usages) = check_quota today t.tenant_id kind (limits t) s.usages in
      (allowed, record s { usages = usages })

  abbrev pub persist : String → Files M F G → Files M F G
  persist id s = record s { usages = persist_usage id s.usages }

  -- `_daily_usage.get(id, {}).get("pipeline_runs", 0)`
  abbrev pub runs_in_memory : String → Files M F G → ℕ
  runs_in_memory id s = elim (lookup id s.usages.memory) [ none ↦ 0 | some u ↦ u.pipeline_runs ]

  -- the tenant of a message
  abbrev pub tenant_of : Message M → Files M F G → Option Tenant
  tenant_of m s = elim (lookup m.tenant_id s.tenants) [ none ↦ none | some t ↦ some (post_init t) ]

  -- `tenant = get_tenant(msg.tenant_id)`, and the return where there is none
  unfoldable pub for_tenant :
      Message M → Files M F G → (Tenant → Bool × Files M F G) → Bool × Files M F G
  for_tenant m s f = elim (tenant_of m s) [ none ↦ (true, s) | some t ↦ f t ]

  abbrev pub report : Message M → JobResult M G → Files M F G → Bool × Files M F G
  report m result s = (true, store_job_result m.tenant_id m.message_id result s)

  module _ (calls : Calls M F G) (today : String) (now : ℕ) where
    -- the end of a handler that ran the pipeline
    abbrev pub finish_run : Message M → Option Run → Files M F G → Bool × Files M F G
    finish_run m none s = (false, s)
    finish_run m (some run) s = report m (completed_run run) (persist m.tenant_id s)

    unfoldable pub handle_pipeline_run : Message M → Files M F G → Bool × Files M F G
    handle_pipeline_run m s = for_tenant m s λ t.
        let (allowed, s') = check today t Quota.pipeline_run s in
        if is_demo_expired now t
        then report m demo_expired s
        else if not allowed
        then report m quota_exceeded s'
        else if t.is_demo && ltb t.demo_cost_cap_pipeline (runs_in_memory m.tenant_id s')
        then report m demo_cost_cap s'
        else finish_run m (calls.execute t (some m.payload)) s'

    unfoldable pub handle_digest_generate : Message M → Files M F G → Bool × Files M F G
    handle_digest_generate m s = for_tenant m s λ t.
        let (allowed, s') = check today t Quota.pipeline_run s in
        if not allowed then report m quota_exceeded s' else finish_run m (calls.execute t none) s'

    -- the system prompt, augmented where that works
    abbrev augmented : String → Tenant → String → String → String
    augmented id t prompt system =
        if t.preferences.rag_enabled && t.quota.rag_enabled
        then get (calls.augment prompt id system) system
        else system

    -- the answer of the local model, where that is asked for and allowed
    abbrev local_answer : Bool → String → String → Option (Option String)
    local_answer use_local prompt system =
        if use_local then calls.local_chat prompt system else some none

    unfoldable pub generate : String → Tenant → Payload M → Option String
    generate id t p =
        let prompt = get p.prompt "" in
        let system = augmented id t prompt (get p.system_prompt "You are a helpful assistant.") in
        let use_local = get p.use_local false && t.quota.local_llm_enabled in
        elim (local_answer use_local prompt system) [
          | none ↦ none
          | some (some answer) ↦ some answer
          | some none ↦ elim (calls.call_llm t prompt system) [
            | none ↦ none
            | some answer ↦ some (get answer "")
          ]
        ]

    abbrev pub finish_text : Message M → Option String → Files M F G → Bool × Files M F G
    finish_text m none s = (false, s)
    finish_text m (some answer) s = report m (completed_text answer) (persist m.tenant_id s)

    unfoldable pub handle_llm_generate : Message M → Files M F G → Bool × Files M F G
    handle_llm_generate m s = for_tenant m s λ t.
        let (allowed, s') = check today t Quota.llm_call s in
        if is_demo_expired now t
        then report m demo_expired s
        else if not allowed
        then report m quota_exceeded s'
        else finish_text m (generate m.tenant_id t m.payload) s'

    unfoldable pub handle_notion_sync : Message M → Files M F G → Bool × Files M F G
    handle_notion_sync m s = for_tenant m s λ t.
        if str_eq t.credentials.notion_api_token ""
        then report m (error "Notion not connected. Please connect Notion in your dashboard.") s
        else report m (completed_sync (get m.payload.direction "todoist_to_notion")) s

    unfoldable pub handle_board_analysis : Message M → Files M F G → Bool × Files M F G
    handle_board_analysis m s = for_tenant m s λ t.
        if str_eq t.credentials.todoist_api_token ""
        then report m (error "Todoist not connected. Please connect Todoist in your dashboard.") s
        else report m (completed_board (get m.payload.project_id "all")) s

    unfoldable pub handle_scoring_config : Message M → Files M F G → Bool × Files M F G
    handle_scoring_config m s =
        for_tenant m s λ t. (true, record s { scoring = insert m.tenant_id m.payload s.scoring })

    -- An ingestion does not open the table where it has nothing to count and nothing to store.
    abbrev is_idle : ℕ → Result ℕ → Bool
    is_idle max_documents (ok n) = max_documents == 0 && n == 0
    is_idle max_documents value_error = false
    is_idle max_documents permission_error = false

    abbrev pub finish_ingest :
        Message M → Result ℕ → Dict (DocumentChunk M F) → Files M F G → Bool × Files M F G
    finish_ingest m (ok n) chunks s = report m (ingested n) (record s { chunks = chunks })
    finish_ingest m value_error chunks s = report m (error "RAG operation failed") s
    finish_ingest m permission_error chunks s = report m (error "Document quota exceeded") s

    -- the three actions on documents
    abbrev pub ingest_action : Tenant → Message M → Files M F G → Bool × Files M F G
    ingest_action t m s =
        let (count, chunks) =
          ingest calls.rag calls.chunker (get m.payload.text []) (get m.payload.document_id "")
            m.tenant_id m.payload.metadata t.quota.max_rag_documents s.chunks in
        if calls.rag_works || is_idle t.quota.max_rag_documents count
        then finish_ingest m count chunks s
        else report m (error "RAG operation failed") s

    abbrev pub query_action : Tenant → Message M → Files M F G → Bool × Files M F G
    query_action t m s =
        let top_k = min (get m.payload.top_k 5) 10 in
        let (allowed, s') = check today t Quota.llm_call s in
        if not allowed
        then report m quota_exceeded s'
        else if not calls.rag_works
        then report m (error "RAG operation failed") s'
        else report m (found (query calls.rag (get m.payload.query []) m.tenant_id top_k s'.chunks))
            (persist m.tenant_id s')

    abbrev pub delete_action : Message M → Files M F G → Bool × Files M F G
    delete_action m s =
        let (count, chunks) = delete_document m.tenant_id (get m.payload.document_id "") s.chunks in
        if calls.rag_works
        then report m (deleted count) (record s { chunks = chunks })
        else report m (error "RAG operation failed") s

    unfoldable pub handle_rag_query : Message M → Files M F G → Bool × Files M F G
    handle_rag_query m s = for_tenant m s λ t.
        let action = get m.payload.action "query" in
        if is_demo_expired now t
        then report m demo_expired s
        else if not t.quota.rag_enabled
        then report m (error "Native RAG is not available for your tier. Upgrade to VIP.") s
        else if str_eq action "ingest"
        then ingest_action t m s
        else if str_eq action "query"
        then query_action t m s
        else if str_eq action "delete"
        then delete_action m s
        else report m (error (append "Unknown RAG action: " action)) s

    -- the table of handlers; the two that are left only log
    unfoldable pub dispatch : MessageType → Message M → Files M F G → Bool × Files M F G
    dispatch pipeline_run m s = handle_pipeline_run m s
    dispatch digest_generate m s = handle_digest_generate m s
    dispatch llm_generate m s = handle_llm_generate m s
    dispatch notion_sync m s = handle_notion_sync m s
    dispatch board_analysis m s = handle_board_analysis m s
    dispatch scoring_config m s = handle_scoring_config m s
    dispatch tenant_operation m s = (true, s)
    dispatch notebooklm_extract m s = (true, s)
    dispatch rag_query m s = handle_rag_query m s

    abbrev pub handle : Message M → Files M F G → Bool × Files M F G
    handle m s = dispatch m.message_type m s

-- a message with the day and the time at which it is handled
pub record Delivery (M : Type 0) : Type 0 where
  pub today : String
  pub now : ℕ
  pub message : Message M

-- what is left by the handlers of some messages, whether they return or raise
abbrev pub work : {M F G : Type 0} → Calls M F G → List (Delivery M) → Files M F G → Files M F G
work calls [] s = s
work calls (d ∷ ds) s = work calls ds (handle calls d.today d.now d.message s).1
