-- ===== src/Tenant/Demo.antt =====
-- tenant/demo_manager.py: `DemoManager` over the store of its `TenantManager` and the lines of its
-- event logs. An event is sealed into a line for its tenant, and a line is opened for a tenant, by
-- parameters. Times are seconds; the context of an error is a text.
pub mod Creation
pub mod Expiry
pub mod Analytics
mod Tests
use Prim.Native.String.{◌++◌ as append}
use vela_flow_public.Prelude.{
  ℕ, ◌+◌, ◌*◌, String, Bool, true, false, not, ◌&&◌, Option, none, some, List, [], ◌∷◌, ◌++◌,
  str_eq, leb, ltb, take, length, if◌then◌else◌,
}
use vela_flow_public.Dict.{Dict, lookup, insert}
use vela_flow_public.Tenant.{vip, Tenant}
use vela_flow_public.Tenant.Manager.{
  Result, ok, value_error, runtime_error, save_tenant, create_tenant, Secrets, Changes,
  update_config, deactivate_tenant, bind_owner_sub,
}
use vela_flow_public.Tenant.Manager

-- the argument `usage_type`
pub data UsageType : Type 0 where
  pipeline_run llm_call other_usage : UsageType

pub data Event : Type 0 where
  demo_created : String → ℕ → ℕ → ℕ → Option ℕ → Event
  demo_expired : Option ℕ → Event
  demo_cost_cap_reached : UsageType → ℕ → ℕ → Event
  error : String → List ℕ → String → Event

-- the key `event_type`
abbrev pub event_type : Event → String
event_type (demo_created by days pipeline llm at) = "demo_created"
event_type (demo_expired at) = "demo_expired"
event_type (demo_cost_cap_reached kind count cap) = "demo_cost_cap_reached"
event_type (error kind detail context) = "error"

pub record Logged : Type 0 where
  pub event : Event
  pub timestamp : ℕ

pub record Store (L : Type 0) : Type 0 where
  pub manager : Manager.Store
  pub events : Dict (List L)

-- the arguments of `create_demo`
pub record Demo : Type 0 where
  pub name : String
  pub email : String
  pub created_by : String
  pub duration_days : ℕ
  pub cost_cap_pipeline : ℕ
  pub cost_cap_llm : ℕ
  pub litellm_token : String

-- the tenant with the fields of a demo account, made at this time
abbrev pub as_demo : Demo → ℕ → Tenant → Tenant
as_demo d now t = record t {
  is_demo = true;
  demo_expires_at = some (now + d.duration_days * 86400);
  demo_cost_cap_pipeline = d.cost_cap_pipeline;
  demo_cost_cap_llm = d.cost_cap_llm;
  demo_created_by = d.created_by;
}

-- the write of these fields, and the expiry where the tenant was there
abbrev pub mark : Demo → ℕ → String → Manager.Store → Option ℕ × Manager.Store
mark d now id s = elim (lookup id s.tenants) [
  | none ↦ (none, s)
  | some raw ↦ (
    some (now + d.duration_days * 86400),
    record s { tenants = insert id (as_demo d now raw) s.tenants },
  )
]

abbrev pub is_given : String → Bool
is_given s = not (str_eq s "")

abbrev pub only_litellm : String → Secrets
only_litellm token = record {
  todoist_api_token = none;
  notion_api_token = none;
  google_oauth_token = none;
  gmail_imap_password = none;
  litellm_proxy_token = some token;
  gemini_api_key = none;
}

abbrev pub no_changes : Changes
no_changes = record {
  timezone = none;
  daily_top_task_limit = none;
  workday_start_hour = none;
  workday_end_hour = none;
  daily_digest_time = none;
  daily_digest_days = none;
  overdue_alert_enabled = none;
  overdue_alert_interval_hours = none;
  weekend_planner_enabled = none;
  weekly_review_enabled = none;
  delivery_email = none;
  delivery_whatsapp = none;
  delivery_notion = none;
  whatsapp_phone = none;
  source_todoist = none;
  source_google_calendar = none;
  source_gmail = none;
  use_local_llm = none;
  rag_enabled = none;
}

-- the binding of the synthetic owner and the write of the token, whose results are not used
unfoldable pub configure_proxy :
    (String → String → String → String → String)
    → String
    → String
    → Manager.Store
    → Bool × Manager.Store
configure_proxy encrypt id token s =
    let (bound, s') = bind_owner_sub id (append "demo:" id) s in
    let (written, s'') = update_config encrypt id (only_litellm token) no_changes s' in
    elim bound [
      | ok t ↦ elim written [
        | ok t ↦ (true, s'')
        | value_error ↦ (false, s'')
        | runtime_error ↦ (false, s'')
      ]
      | value_error ↦ (false, s')
      | runtime_error ↦ (false, s')
    ]

abbrev pub lines_of : {L : Type 0} → String → Store L → List L
lines_of id s = elim (lookup id s.events) [ none ↦ [] | some ls ↦ ls ]

module _ {L : Type 0} (seal : String → Logged → L) where
  unfoldable pub log_event : String → Event → ℕ → Store L → Store L
  log_event id e now s =
      let line = seal id (record { event = e; timestamp = now }) in
      record s { events = insert id (lines_of id s ++ line ∷ []) s.events }

  -- `none` stands for an error of the tenant manager
  unfoldable pub create_demo :
      (String → String → String → String → String)
      → String
      → ℕ
      → Demo
      → Store L
      → Option Tenant × Store L
  create_demo encrypt id now d s =
      let (t, created) = create_tenant id d.name d.email vip s.manager in
      let (expires, marked) = mark d now id created in
      let (works, configured) =
        if is_given d.litellm_token
        then configure_proxy encrypt id d.litellm_token marked
        else (true, marked) in
      let made =
        demo_created d.created_by d.duration_days d.cost_cap_pipeline d.cost_cap_llm expires in
      if works
      then (some t, log_event id made now (record s { manager = configured }))
      else (none, record s { manager = configured })

  abbrev pub expire_demo : String → Tenant → ℕ → Store L → Store L
  expire_demo id t now s =
      let logged = log_event id (demo_expired t.demo_expires_at) now s in
      record logged { manager = (deactivate_tenant id logged.manager).1 }

  unfoldable pub check_expiry : String → ℕ → Store L → Bool × Store L
  check_expiry id now s = elim (lookup id s.manager.tenants) [
    | none ↦ (false, s)
    | some t ↦ if not t.is_demo then (true, s) else elim t.demo_expires_at [
      | none ↦ (true, s)
      | some at ↦ if leb at now then (false, expire_demo id t now s) else (true, s)
    ]
  ]

  -- the cap of a demo account for a kind of usage
  abbrev pub cap_of : UsageType → Tenant → Option ℕ
  cap_of pipeline_run t = some t.demo_cost_cap_pipeline
  cap_of llm_call t = some t.demo_cost_cap_llm
  cap_of other_usage t = none

  unfoldable pub check_demo_cost_cap : String → UsageType → ℕ → ℕ → Store L → Bool × Store L
  check_demo_cost_cap id kind count now s = elim (lookup id s.manager.tenants) [
    | none ↦ (true, s)
    | some t ↦ if not t.is_demo then (true, s) else elim (cap_of kind t) [
      | none ↦ (true, s)
      | some cap ↦
          if leb cap count
          then (false, log_event id (demo_cost_cap_reached kind count cap) now s)
          else (true, s)
    ]
  ]

  unfoldable pub log_demo_error : String → String → List ℕ → String → ℕ → Store L → Store L
  log_demo_error id kind detail context now s =
      log_event id (error kind (take 1000 detail) context) now s

-- an entry of `list_demo_accounts`, without the name and the email
pub record Account : Type 0 where
  pub tenant_id : String
  pub created_by : String
  pub expires_at : Option ℕ
  pub is_expired : Bool
  pub is_active : Bool

-- the loop over the listed tenants, whose fields for the demo are read again
unfoldable pub list_demo_accounts : {L : Type 0} → ℕ → List Tenant → Store L → List Account
list_demo_accounts now [] s = []
list_demo_accounts now (t ∷ ts) s =
    let rest = list_demo_accounts now ts s in
    elim (lookup t.tenant_id s.manager.tenants) [
      | none ↦ rest
      | some raw ↦
          let account : Account = record {
            tenant_id = t.tenant_id;
            created_by = raw.demo_created_by;
            expires_at = raw.demo_expires_at;
            is_expired = elim raw.demo_expires_at [ none ↦ false | some at ↦ leb at now ];
            is_active = t.is_active;
          } in
          if raw.is_demo then account ∷ rest else rest
    ]
