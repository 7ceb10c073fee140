-- ===== src/Tenant/Demo/Tests.antt =====
-- A demo account's life, and the theorems at concrete inputs.
use vela_flow_public.Prelude.{
  not, ◌+◌, ◌≡◌, refl, String, true, false, Option, some, [], ◌∷◌, ◌++◌, keep, str_eq, eq_iff,
  arith,
}
use vela_flow_public.Dict.{lookup}
use vela_flow_public.Tenant.{vip, for_tier, no_credentials, default_preferences, Tenant}
use vela_flow_public.Tenant.Manager.{is_listed, is_wiped}
use vela_flow_public.Tenant.Owner.{IsKeyed}
use vela_flow_public.Tenant.Isolation.{deactivated}
use vela_flow_public.Tenant.Demo.{
  demo_expired, error, Event, Logged, Store, Demo, lines_of, log_event, create_demo, check_expiry,
}
use vela_flow_public.Tenant.Demo.Expiry.{is_marked, demo_lasts, expiry_deactivates}
use vela_flow_public.Tenant.Demo.Analytics.{count_of, later_of, get_usage_analytics, event_counted}
use vela_flow_public.Queue.Handlers.{is_demo_expired}

-- an encryption, and lines that are the events themselves
abbrev encrypt : String → String → String → String → String
encrypt value id owner field = value

abbrev seal : String → Logged → Logged
seal id l = l

abbrev unseal : String → Logged → Option Logged
unseal id l = some l

abbrev guest : Tenant
guest = record {
  tenant_id = "tn_1";
  name = "guest";
  email = "guest@acme.com";
  tier = vip;
  role = "vip";
  credentials = record no_credentials { litellm_proxy_token = "sealed" };
  preferences = default_preferences;
  quota = for_tier vip;
  is_active = true;
  owner_google_sub = "demo:tn_1";
  is_demo = true;
  demo_expires_at = some 700;
  demo_cost_cap_pipeline = 50;
  demo_cost_cap_llm = 100;
  demo_created_by = "admin";
}

abbrev store : Store Logged
store = record {
  manager = record {
    tenants = ("tn_1", guest) ∷ [];
    keys =
        record { layer = "gold"; tenant_id = "tn_1"; name = "daily_digest.json" }
        ∷ record { layer = "gold"; tenant_id = "tn_1"; name = ".partition" }
        ∷ record { layer = "gold"; tenant_id = "tn_2"; name = "daily_digest.json" }
        ∷ [];
  };
  events = ("tn_1", record { event = error "llm" (120 ∷ []) "chat"; timestamp = 5 } ∷ []) ∷ [];
}

store-IsKeyed : IsKeyed store.manager
unfolding lookup
store-IsKeyed id t h = ground (arith, eq_iff "tn_1" id)

abbrev offer : Demo
offer = record {
  name = "prospect";
  email = "p@x.com";
  created_by = "admin";
  duration_days = 7;
  cost_cap_pipeline = 5;
  cost_cap_llm = 10;
  litellm_token = "token";
}

demo_lasts_example :
    let s' = (create_demo seal encrypt "tn_9" 100 offer store).1 in
    ((account : Tenant) × (lookup "tn_9" s'.manager.tenants ≡ some account)
      × (account.tier ≡ vip)
      × (account.demo_cost_cap_pipeline ≡ 5)
      × (account.demo_cost_cap_llm ≡ 10)
      × (is_demo_expired 604900 account ≡ true))
    × ((check_expiry seal "tn_9" 604900 s').0 ≡ false)
    × (is_marked (create_demo seal encrypt "tn_9" 100 offer store).0 ≡ false)
demo_lasts_example = demo_lasts seal encrypt "tn_9" 100 604900 offer store

expiry_deactivates_example :
    let s' = (check_expiry seal "tn_1" 700 store).1 in
    ((check_expiry seal "tn_1" 700 store).0 ≡ false)
    × (lookup "tn_1" s'.manager.tenants ≡ some (deactivated "tn_1" store.manager guest))
    × (keep (is_wiped "tn_1") s'.manager.keys ≡ [])
    × (lookup "tn_2" s'.manager.tenants ≡ lookup "tn_2" store.manager.tenants)
    × (keep (λ k. str_eq k.tenant_id "tn_2") s'.manager.keys
        ≡ keep (λ k. str_eq k.tenant_id "tn_2") store.manager.keys)
    × (keep (λ k. not (is_listed k)) s'.manager.keys
        ≡ keep (λ k. not (is_listed k)) store.manager.keys)
    × (lookup "tn_1" s'.events
        ≡ some (
            lines_of "tn_1" store
            ++ record { event = demo_expired (some 700); timestamp = 700 } ∷ []))
    × (lookup "tn_2" s'.events ≡ lookup "tn_2" store.events)
unfolding lookup
expiry_deactivates_example =
    expiry_deactivates seal "tn_1" "tn_2" 700 store guest store-IsKeyed refl refl refl

event_counted_example :
    let e : Event = error "llm" [] "retry" in
    let a = get_usage_analytics unseal "tn_1" store in
    let a' = get_usage_analytics unseal "tn_1" (log_event seal "tn_1" e 8 store) in
    (a'.total_events ≡ a.total_events + 1)
    × (count_of "error" a'.event_types ≡ count_of "error" a.event_types + 1)
    × (a'.errors ≡ a.errors ++ record { event = e; timestamp = 8 } ∷ [])
    × (a'.last_activity ≡ later_of 8 a.last_activity)
    × (get_usage_analytics unseal "tn_2" (log_event seal "tn_1" e 8 store)
        ≡ get_usage_analytics unseal "tn_2" store)
event_counted_example =
    event_counted seal unseal "tn_1" "tn_2" "error" (error "llm" [] "retry") 8 store (λ l. refl)
      refl
