-- ===== src/Tenant.antt =====
-- tenant/models.py: tiers, quotas, the configuration and the record of a tenant; and
-- tenant/manager.py: `TenantManager` (in Manager).
pub mod Manager
pub mod Writes
pub mod Owner
pub mod Isolation
pub mod Users
pub mod Demo
mod Tests
use vela_flow_public.Prelude.{
  ℕ, String, Bool, true, false, Option, none, some, str_eq, if◌then◌else◌,
}

pub data TenantTier : Type 0 where
  free standard premium vip : TenantTier

abbrev pub tier_value : TenantTier → String
tier_value free = "free"
tier_value standard = "standard"
tier_value premium = "premium"
tier_value vip = "vip"

pub record TenantQuota : Type 0 where
  pub max_pipeline_runs_per_day : ℕ
  pub max_tasks : ℕ
  pub max_llm_calls_per_day : ℕ
  pub max_storage_mb : ℕ
  pub premium_llm_enabled : Bool
  pub rag_enabled : Bool
  pub local_llm_enabled : Bool
  pub max_rag_documents : ℕ
  pub max_rag_queries_per_day : ℕ

-- a quota without the features of the upper tiers
abbrev basic_quota : ℕ → ℕ → ℕ → ℕ → TenantQuota
basic_quota runs tasks calls storage = record {
  max_pipeline_runs_per_day = runs;
  max_tasks = tasks;
  max_llm_calls_per_day = calls;
  max_storage_mb = storage;
  premium_llm_enabled = false;
  rag_enabled = false;
  local_llm_enabled = false;
  max_rag_documents = 0;
  max_rag_queries_per_day = 0;
}

abbrev full_quota : ℕ → ℕ → ℕ → ℕ → ℕ → ℕ → TenantQuota
full_quota runs tasks calls storage documents queries = record {
  max_pipeline_runs_per_day = runs;
  max_tasks = tasks;
  max_llm_calls_per_day = calls;
  max_storage_mb = storage;
  premium_llm_enabled = true;
  rag_enabled = true;
  local_llm_enabled = true;
  max_rag_documents = documents;
  max_rag_queries_per_day = queries;
}

unfoldable pub for_tier : TenantTier → TenantQuota
for_tier free = basic_quota 3 100 5 50
for_tier standard = basic_quota 20 1000 50 500
for_tier premium = full_quota 100 10000 200 5000 500 50
for_tier vip = full_quota 999 50000 999 10000 5000 500

-- the encrypted credentials of `TenantConfig`, without the suffix of their names
pub record Credentials : Type 0 where
  pub todoist_api_token : String
  pub notion_api_token : String
  pub google_oauth_token : String
  pub gmail_imap_password : String
  pub litellm_proxy_token : String
  pub gemini_api_key : String

abbrev pub no_credentials : Credentials
no_credentials = record {
  todoist_api_token = "";
  notion_api_token = "";
  google_oauth_token = "";
  gmail_imap_password = "";
  litellm_proxy_token = "";
  gemini_api_key = "";
}

-- the other fields of `TenantConfig` that `update_config` writes
pub record Preferences : Type 0 where
  pub timezone : String
  pub daily_top_task_limit : ℕ
  pub workday_start_hour : ℕ
  pub workday_end_hour : ℕ
  pub daily_digest_time : String
  pub daily_digest_days : String
  pub overdue_alert_enabled : Bool
  pub overdue_alert_interval_hours : ℕ
  pub weekend_planner_enabled : Bool
  pub weekly_review_enabled : Bool
  pub delivery_email : Bool
  pub delivery_whatsapp : Bool
  pub delivery_notion : Bool
  pub whatsapp_phone : String
  pub source_todoist : Bool
  pub source_google_calendar : Bool
  pub source_gmail : Bool
  pub use_local_llm : Bool
  pub rag_enabled : Bool

abbrev pub default_preferences : Preferences
default_preferences = record {
  timezone = "Europe/Lisbon";
  daily_top_task_limit = 5;
  workday_start_hour = 9;
  workday_end_hour = 18;
  daily_digest_time = "07:00";
  daily_digest_days = "mon,tue,wed,thu,fri";
  overdue_alert_enabled = false;
  overdue_alert_interval_hours = 4;
  weekend_planner_enabled = false;
  weekly_review_enabled = false;
  delivery_email = true;
  delivery_whatsapp = false;
  delivery_notion = false;
  whatsapp_phone = "";
  source_todoist = true;
  source_google_calendar = false;
  source_gmail = false;
  use_local_llm = false;
  rag_enabled = false;
}

-- without the keys and the billing fields, which no operation of the manager changes; a time is the
-- seconds since the epoch
pub record Tenant : Type 0 where
  pub tenant_id : String
  pub name : String
  pub email : String
  pub tier : TenantTier
  pub role : String
  pub credentials : Credentials
  pub preferences : Preferences
  pub quota : TenantQuota
  pub is_active : Bool
  pub owner_google_sub : String
  pub is_demo : Bool
  pub demo_expires_at : Option ℕ
  pub demo_cost_cap_pipeline : ℕ
  pub demo_cost_cap_llm : ℕ
  pub demo_created_by : String

-- `__post_init__`: the quota is that of the tier, and the role of a paid tier its name
unfoldable pub post_init : Tenant → Tenant
unfolding for_tier
post_init t = record t {
  quota = for_tier t.tier;
  role =
      if str_eq t.role "free"
      then (elim t.tier [ free ↦ t.role | tier ↦ tier_value tier ])
      else t.role;
}
