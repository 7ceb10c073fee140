-- ===== src/Tenant/Tests.antt =====
-- A tenant's life, and the theorems at concrete inputs.
use vela_flow_public.Prelude.{
  not, ◌≡◌, refl, String, true, false, none, some, List, [], ◌∷◌, keep, str_eq, eq_iff, arith,
}
use vela_flow_public.Dict.{lookup}
use vela_flow_public.Tenant.{
  free, premium, vip, for_tier, no_credentials, default_preferences, Tenant, post_init,
}
use vela_flow_public.Tenant.Manager.{
  Store, runtime_error, bind_owner_sub, get_tenant, is_listed, is_wiped, deactivate_tenant,
}
use vela_flow_public.Tenant.Writes.{Op, create, set_tier, deactivate, bind, run}
use vela_flow_public.Tenant.Owner.{IsKeyed, IsBound, owner_pinned}
use vela_flow_public.Tenant.Isolation.{deactivated, deactivate_isolates}

-- an encryption for the tests
abbrev encrypt : String → String → String → String → String
encrypt value id owner field = value

abbrev acme : Tenant
acme = record {
  tenant_id = "tn_1";
  name = "acme";
  email = "admin@acme.com";
  tier = premium;
  role = "premium";
  credentials = record no_credentials { todoist_api_token = "sealed" };
  preferences = default_preferences;
  quota = for_tier premium;
  is_active = true;
  owner_google_sub = "sub_1";
  is_demo = false;
  demo_expires_at = none;
  demo_cost_cap_pipeline = 50;
  demo_cost_cap_llm = 100;
  demo_created_by = "";
}

abbrev store : Store
store = record {
  tenants = ("tn_1", acme) ∷ [];
  keys =
      record { layer = "gold"; tenant_id = "tn_1"; name = "daily_digest.json" }
      ∷ record { layer = "gold"; tenant_id = "tn_1"; name = ".partition" }
      ∷ record { layer = "gold"; tenant_id = "tn_2"; name = "daily_digest.json" }
      ∷ [];
}

store-IsKeyed : IsKeyed store
unfolding lookup
store-IsKeyed id t h = ground (arith, eq_iff "tn_1" id)

abbrev later : List (Op encrypt)
later =
    bind "tn_1" "sub_2"
    ∷ set_tier "tn_1" free
    ∷ create "tn_2" "other" "o@x.com" vip
    ∷ deactivate "tn_1"
    ∷ []

owner_pinned_example : IsBound "tn_1" "sub_1" (run encrypt later store)
unfolding lookup
owner_pinned_example =
    owner_pinned encrypt "tn_1" "sub_1" later store refl (tt, (tt, (refl, (tt, tt)))) store-IsKeyed
      (record { tenant = acme; stored = refl; owned = refl })

rebind : bind_owner_sub "tn_1" "sub_2" store ≡ (runtime_error, store)
unfolding bind_owner_sub get_tenant post_init lookup
rebind = refl

deactivate_isolates_run :
    let s' = (deactivate_tenant "tn_1" store).1 in
    (lookup "tn_1" s'.tenants ≡ some (deactivated "tn_1" store acme))
    × (keep (is_wiped "tn_1") s'.keys ≡ [])
    × (lookup "tn_2" s'.tenants ≡ lookup "tn_2" store.tenants)
    × (keep (λ k. str_eq k.tenant_id "tn_2") s'.keys
        ≡ keep (λ k. str_eq k.tenant_id "tn_2") store.keys)
    × (keep (λ k. not (is_listed k)) s'.keys ≡ keep (λ k. not (is_listed k)) store.keys)
unfolding lookup
deactivate_isolates_run = deactivate_isolates "tn_1" store acme "tn_2" store-IsKeyed refl refl
