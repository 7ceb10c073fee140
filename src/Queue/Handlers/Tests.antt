-- ===== src/Queue/Handlers/Tests.antt =====
-- The handlers at work, and their theorems at concrete inputs.
use vela_flow_public.Prelude.{
  ℕ, ◌≡◌, refl, String, Bool, true, false, none, some, List, [], ◌∷◌, map, any, length, leb, eq_iff,
  arith, if◌then◌else◌,
}
use vela_flow_public.Dict.{lookup, insert}
use vela_flow_public.Tenant.{vip, for_tier, no_credentials, default_preferences, Tenant, post_init}
use vela_flow_public.Pipeline.Run.{completed}
use vela_flow_public.Rag.Store.{Outside}
use vela_flow_public.Queue.{pipeline_run, rag_query}
use vela_flow_public.Queue.Quota.{usage_today, use_once, check_quota, persist_usage}
use vela_flow_public.Queue.Quota
use vela_flow_public.Queue.Handlers.{
  Payload, Run, JobResult, demo_cost_cap, completed_run, Message, Files, Calls, store_job_result,
  for_tenant, handle_pipeline_run, dispatch, handle, Delivery, work,
}
use vela_flow_public.Queue.Handlers.Frame.{Untouched, IsKeyed, messages_isolated}
use vela_flow_public.Queue.Handlers.Listing.{is_keyless, documents, list_tenants, listing_exact}

abbrev demo : Tenant
demo = record {
  tenant_id = "d";
  name = "prospect";
  email = "p@x.com";
  tier = vip;
  role = "vip";
  credentials = no_credentials;
  preferences = default_preferences;
  quota = for_tier vip;
  is_active = true;
  owner_google_sub = "";
  is_demo = true;
  demo_expires_at = some 1000;
  demo_cost_cap_pipeline = 1;
  demo_cost_cap_llm = 100;
  demo_created_by = "admin";
}

abbrev payload : Payload String
payload = record {
  is_empty = true;
  prompt = none;
  system_prompt = none;
  use_local = none;
  direction = none;
  project_id = none;
  action = none;
  text = none;
  document_id = none;
  metadata = "";
  query = none;
  top_k = none;
}

abbrev ask : Message String
ask = record { message_id = "m1"; message_type = pipeline_run; tenant_id = "d"; payload = payload }

abbrev outside : Outside ℕ ℕ
outside = record {
  embed = λ text. length text ∷ [];
  similarity = λ a b. length a;
  at_least = λ a b. leb b a;
  sanitize = λ text. text;
  make_chunk_id = λ document i. document;
}

abbrev a_run : Run
a_run = record { run_id = "run_1"; status = completed }

abbrev calls : Calls String ℕ ℕ
calls = record {
  execute = λ t p. some a_run;
  augment = λ prompt id system. none;
  local_chat = λ prompt system. some none;
  call_llm = λ t prompt system. some (some "answer");
  rag_works = true;
  rag = outside;
  chunker = record { chunk_size = 512; overlap = 64 };
}

abbrev files : Files String ℕ ℕ
files = record {
  tenants = ("d", demo) ∷ ("e", record demo { tenant_id = "e"; is_demo = false }) ∷ [];
  usages = record { memory = []; stored = [] };
  results = [];
  scoring = [];
  chunks = [];
}

-- within the cap the pipeline runs; the second time the cap is reached
abbrev first : Bool × Files String ℕ ℕ
first = handle calls "2025-01-01" 900 ask files

capped :
    lookup "d" (handle calls "2025-01-01" 900 (record ask { message_id = "m2" }) first.1).1.results
    ≡ some (("m1", completed_run a_run) ∷ ("m2", demo_cost_cap) ∷ [])
unfolding dispatch handle_pipeline_run for_tenant store_job_result check_quota usage_today use_once
    persist_usage post_init for_tier lookup insert
capped = refl

files-IsKeyed : IsKeyed files
unfolding lookup
files-IsKeyed id t h = ground (arith, eq_iff "d" id, eq_iff "e" id)

abbrev deliveries : List (Delivery String)
deliveries =
    record { today = "2025-01-01"; now = 900; message = ask }
    ∷ record { today = "2025-01-02"; now = 990; message = record ask { message_type = rag_query } }
    ∷ []

messages_isolated_example : Untouched "e" files (work calls deliveries files)
messages_isolated_example =
    messages_isolated calls "e" deliveries files files-IsKeyed ((refl, tt), ((refl, tt), tt))

listing_exact_example :
    (list_tenants (documents files) ≡ (
      if any is_keyless (documents files)
      then none
      else some (map (λ t. post_init t.1) files.tenants)))
    × ((tenant message : String) (result : JobResult String ℕ)
        → list_tenants (documents (store_job_result tenant message result files)) ≡ none)
listing_exact_example = listing_exact files
