-- ===== src/Tenant/Manager.antt =====
-- tenant/manager.py: `TenantManager` over the stored tenants and the keys of their data. The
-- authenticated encryption of a credential, under a key that is derived from the tenant's id, its
-- owner and the name of the field, is a parameter. A tenant is stored as
-- it is; the encryptor is there, as the constructor makes sure.
use vela_flow_public.Prelude.{
  ℕ, String, Bool, true, false, not, ◌&&◌, ◌||◌, Option, none, some, List, [], ◌∷◌, ◌++◌, map, keep,
  any, str_eq, if◌then◌else◌,
}
use vela_flow_public.Prelude.Text.{codes, is_suffix}
use vela_flow_public.Dict.{Dict, lookup, insert}
use vela_flow_public.Tenant.{
  TenantTier, tier_value, for_tier, Credentials, no_credentials, Preferences, default_preferences,
  Tenant, post_init,
}

-- a key of the storage: `layer/tenant_id/name`
pub record Key : Type 0 where
  pub layer : String
  pub tenant_id : String
  pub name : String

pub record Store : Type 0 where
  pub tenants : Dict Tenant
  pub keys : List Key

-- How a call ends: with its value or an error that it raises, a `ValueError` or a `RuntimeError`.
pub data Result (A : Type 0) : Type 0 where
  ok : A → Result A
  value_error runtime_error : Result A

unfoldable pub get_tenant : String → Store → Option Tenant
unfolding post_init
get_tenant id s = elim (lookup id s.tenants) [ none ↦ none | some t ↦ some (post_init t) ]

abbrev pub save_tenant : Tenant → Store → Store
save_tenant t s = record s { tenants = insert t.tenant_id t s.tenants }

-- the generated id is given
unfoldable pub create_tenant : String → String → String → TenantTier → Store → Tenant × Store
unfolding post_init
create_tenant id name email tier s =
    let t = post_init (record {
      tenant_id = id;
      name = name;
      email = email;
      tier = tier;
      role = tier_value tier;
      credentials = no_credentials;
      preferences = default_preferences;
      quota = for_tier tier;
      is_active = true;
      owner_google_sub = "";
      is_demo = false;
      demo_expires_at = none;
      demo_cost_cap_pipeline = 50;
      demo_cost_cap_llm = 100;
      demo_created_by = "";
    }) in
    let partitions =
      map (λ layer. record { layer = layer; tenant_id = id; name = ".partition" })
        ("bronze" ∷ "silver" ∷ "gold" ∷ "runs" ∷ []) in
    (t, save_tenant t (record s { keys = s.keys ++ partitions }))

unfoldable pub update_tier : String → TenantTier → Store → Option Tenant × Store
unfolding get_tenant for_tier
update_tier id new_tier s = elim (get_tenant id s) [
  | none ↦ (none, s)
  | some t ↦
      let t' = record t {
        tier = new_tier;
        role = tier_value new_tier;
        quota = for_tier new_tier;
      } in
      (some t', save_tenant t' s)
]

-- the arguments of `update_config`
pub record Secrets : Type 0 where
  pub todoist_api_token : Option String
  pub notion_api_token : Option String
  pub google_oauth_token : Option String
  pub gmail_imap_password : Option String
  pub litellm_proxy_token : Option String
  pub gemini_api_key : Option String

pub record Changes : Type 0 where
  pub timezone : Option String
  pub daily_top_task_limit : Option ℕ
  pub workday_start_hour : Option ℕ
  pub workday_end_hour : Option ℕ
  pub daily_digest_time : Option String
  pub daily_digest_days : Option String
  pub overdue_alert_enabled : Option Bool
  pub overdue_alert_interval_hours : Option ℕ
  pub weekend_planner_enabled : Option Bool
  pub weekly_review_enabled : Option Bool
  pub delivery_email : Option Bool
  pub delivery_whatsapp : Option Bool
  pub delivery_notion : Option Bool
  pub whatsapp_phone : Option String
  pub source_todoist : Option Bool
  pub source_google_calendar : Option Bool
  pub source_gmail : Option Bool
  pub use_local_llm : Option Bool
  pub rag_enabled : Option Bool

abbrev pub given {ℓ} : {A : Type ℓ} → Option A → Bool
given none = false
given (some a) = true

abbrev pub or_else {ℓ} : {A : Type ℓ} → Option A → A → A
or_else none old = old
or_else (some new) old = new

abbrev pub any_given : Secrets → Bool
any_given s =
    given s.todoist_api_token
    || given s.notion_api_token
    || given s.google_oauth_token
    || given s.gmail_imap_password
    || given s.litellm_proxy_token
    || given s.gemini_api_key

unfoldable pub apply_changes : Changes → Preferences → Preferences
apply_changes c p = record {
  timezone = or_else c.timezone p.timezone;
  daily_top_task_limit = or_else c.daily_top_task_limit p.daily_top_task_limit;
  workday_start_hour = or_else c.workday_start_hour p.workday_start_hour;
  workday_end_hour = or_else c.workday_end_hour p.workday_end_hour;
  daily_digest_time = or_else c.daily_digest_time p.daily_digest_time;
  daily_digest_days = or_else c.daily_digest_days p.daily_digest_days;
  overdue_alert_enabled = or_else c.overdue_alert_enabled p.overdue_alert_enabled;
  overdue_alert_interval_hours =
      or_else c.overdue_alert_interval_hours p.overdue_alert_interval_hours;
  weekend_planner_enabled = or_else c.weekend_planner_enabled p.weekend_planner_enabled;
  weekly_review_enabled = or_else c.weekly_review_enabled p.weekly_review_enabled;
  delivery_email = or_else c.delivery_email p.delivery_email;
  delivery_whatsapp = or_else c.delivery_whatsapp p.delivery_whatsapp;
  delivery_notion = or_else c.delivery_notion p.delivery_notion;
  whatsapp_phone = or_else c.whatsapp_phone p.whatsapp_phone;
  source_todoist = or_else c.source_todoist p.source_todoist;
  source_google_calendar = or_else c.source_google_calendar p.source_google_calendar;
  source_gmail = or_else c.source_gmail p.source_gmail;
  use_local_llm = or_else c.use_local_llm p.use_local_llm;
  rag_enabled = or_else c.rag_enabled p.rag_enabled;
}

-- the encryption of a value for a tenant's id, an owner and the name of a field
module _ (encrypt : String → String → String → String → String) where
  abbrev sealed : String → String → String → Option String → String → String
  sealed id owner field none old = old
  sealed id owner field (some value) old = encrypt value id owner field

  unfoldable pub seal_all : String → String → Secrets → Credentials → Credentials
  seal_all id owner s c = record {
    todoist_api_token = sealed id owner "todoist_api_token" s.todoist_api_token c.todoist_api_token;
    notion_api_token = sealed id owner "notion_api_token" s.notion_api_token c.notion_api_token;
    google_oauth_token =
        sealed id owner "google_oauth_token" s.google_oauth_token c.google_oauth_token;
    gmail_imap_password =
        sealed id owner "gmail_imap_password" s.gmail_imap_password c.gmail_imap_password;
    litellm_proxy_token =
        sealed id owner "litellm_proxy_token" s.litellm_proxy_token c.litellm_proxy_token;
    gemini_api_key = sealed id owner "gemini_api_key" s.gemini_api_key c.gemini_api_key;
  }

  unfoldable pub update_config : String → Secrets → Changes → Store → Result (Option Tenant) × Store
  unfolding get_tenant seal_all apply_changes
  update_config id secrets changes s = elim (get_tenant id s) [
    | none ↦ (ok none, s)
    | some t ↦
        let t' = record t {
          credentials = seal_all id t.owner_google_sub secrets t.credentials;
          preferences = apply_changes changes t.preferences;
        } in
        if any_given secrets && str_eq t.owner_google_sub ""
        then (runtime_error, s)
        else (ok (some t'), save_tenant t' s)
  ]

-- the layers that `deactivate_tenant` clears
abbrev pub wiped_layers : List String
wiped_layers = "bronze" ∷ "silver" ∷ "gold" ∷ "runs" ∷ "vault" ∷ "users" ∷ "invites" ∷ []

-- what `list_keys` of the local storage returns: the JSON files, not the markers `.partition`
unfoldable pub is_listed : Key → Bool
is_listed k = is_suffix (codes ".json") (codes k.name)

abbrev pub is_wiped : String → Key → Bool
is_wiped id k = str_eq k.tenant_id id && any (str_eq k.layer) wiped_layers && is_listed k

unfoldable pub deactivate_tenant : String → Store → Bool × Store
unfolding get_tenant
deactivate_tenant id s = elim (get_tenant id s) [
  | none ↦ (false, s)
  | some t ↦
      let t' = record t { is_active = false; credentials = no_credentials } in
      let saved = save_tenant t' s in
      (true, record saved { keys = keep (λ k. not (is_wiped id k)) saved.keys })
]

unfoldable pub bind_owner_sub : String → String → Store → Result (Option Tenant) × Store
unfolding get_tenant
bind_owner_sub id google_sub s =
    if str_eq google_sub "" then (value_error, s) else elim (get_tenant id s) [
      | none ↦ (ok none, s)
      | some t ↦
          if not (str_eq t.owner_google_sub "") && not (str_eq t.owner_google_sub google_sub)
          then (runtime_error, s)
          else if str_eq t.owner_google_sub ""
          then (
            ok (some (record t { owner_google_sub = google_sub })),
            save_tenant (record t { owner_google_sub = google_sub }) s,
          )
          else (ok (some t), s)
    ]
