-- ===== src/Tenant/Demo/Creation.antt =====
-- What the creation of a demo account stores.
use Prim.Native.String.{◌++◌ as append}
use vela_flow_public.Prelude.{
  ℕ, ◌+◌, ◌*◌, ◌≡◌, ◌∙◌, sym, ap, refl, subst, String, true, false, ◌&&◌, some, [], str_eq, eq_refl,
  arith, if◌then◌else◌, inl, inr, Bool-cases,
}
use vela_flow_public.Dict.{lookup, insert, lookup-insert}
use vela_flow_public.Tenant.{vip, Tenant, post_init}
use vela_flow_public.Tenant.Manager
use vela_flow_public.Tenant.Manager.{
  ok, value_error, runtime_error, save_tenant, create_tenant, any_given, Secrets, Changes,
  update_config, is_wiped, deactivate_tenant, bind_owner_sub, seal_all, apply_changes,
}
use vela_flow_public.Tenant.Writes.{get-some, configured, config-refused, config-present}
use vela_flow_public.Tenant.Demo.{
  Store, Logged, Demo, as_demo, only_litellm, no_changes, mark, configure_proxy, create_demo,
  log_event, is_given,
}

-- the tenant is stored, with the same demo account and the same tier
pub record IsKept (id : String) (raw : Tenant) (m : Manager.Store) : Type 0 where
  pub new : Tenant
  pub stored : lookup id m.tenants ≡ some new
  pub keyed : new.tenant_id ≡ id
  pub tier : new.tier ≡ raw.tier
  pub is_demo : new.is_demo ≡ raw.is_demo
  pub expires : new.demo_expires_at ≡ raw.demo_expires_at
  pub pipeline : new.demo_cost_cap_pipeline ≡ raw.demo_cost_cap_pipeline
  pub llm : new.demo_cost_cap_llm ≡ raw.demo_cost_cap_llm

rewrite-IsKept :
    (id : String) (raw : Tenant) (m : Manager.Store) (k : IsKept id raw m) (new : Tenant)
    → new.tenant_id ≡ k.new.tenant_id
    → new.tier ≡ k.new.tier
    → new.is_demo ≡ k.new.is_demo
    → new.demo_expires_at ≡ k.new.demo_expires_at
    → new.demo_cost_cap_pipeline ≡ k.new.demo_cost_cap_pipeline
    → new.demo_cost_cap_llm ≡ k.new.demo_cost_cap_llm
    → IsKept id raw (save_tenant new m)
rewrite-IsKept id raw m k new own tier demo expires pipeline llm = record {
  new = new;
  stored = lookup-insert new.tenant_id id new m.tenants ∙ rw (own ∙ k.keyed) (rw (eq_refl id) refl);
  keyed = own ∙ k.keyed;
  tier = tier ∙ k.tier;
  is_demo = demo ∙ k.is_demo;
  expires = expires ∙ k.expires;
  pipeline = pipeline ∙ k.pipeline;
  llm = llm ∙ k.llm;
}

owner-IsKept :
    (id owner : String) (raw : Tenant) (m : Manager.Store) (k : IsKept id raw m)
    → IsKept id raw (save_tenant (record (post_init k.new) { owner_google_sub = owner }) m)
unfolding post_init
owner-IsKept id owner raw m k =
    rewrite-IsKept id raw m k (record (post_init k.new) { owner_google_sub = owner }) refl refl refl
      refl refl refl

bind-IsKept :
    (id owner : String) (raw : Tenant) (m : Manager.Store)
    → IsKept id raw m
    → IsKept id raw (bind_owner_sub id owner m).1
unfolding bind_owner_sub
bind-IsKept id owner raw m k =
    ground (arith, get-some id m k.new k.stored, k, owner-IsKept id owner raw m k)

configured-IsKept :
    (encrypt : String → String → String → String → String) (id : String) (secrets : Secrets)
    (changes : Changes) (raw : Tenant) (m : Manager.Store) (k : IsKept id raw m)
    → IsKept id raw (save_tenant (configured encrypt id secrets changes (post_init k.new)) m)
unfolding post_init
configured-IsKept encrypt id secrets changes raw m k =
    rewrite-IsKept id raw m k (configured encrypt id secrets changes (post_init k.new)) refl refl
      refl refl refl refl

update-IsKept :
    (encrypt : String → String → String → String → String) (id : String) (secrets : Secrets)
    (changes : Changes) (raw : Tenant) (m : Manager.Store)
    → IsKept id raw m
    → IsKept id raw (update_config encrypt id secrets changes m).1
update-IsKept encrypt id secrets changes raw m k =
    let p = post_init k.new in
    let found = get-some id m k.new k.stored in
    elim (Bool-cases (any_given secrets && str_eq p.owner_google_sub "")) [
      | inl refused ↦
          subst (λ r. IsKept id raw r.1)
            (sym (config-refused encrypt id secrets changes m p found refused)) k
      | inr allowed ↦
          subst (λ r. IsKept id raw r.1)
            (sym (config-present encrypt id secrets changes m p found allowed))
            (configured-IsKept encrypt id secrets changes raw m k)
    ]

configure_proxy-IsKept :
    (encrypt : String → String → String → String → String) (id token : String) (raw : Tenant)
    (m : Manager.Store)
    → IsKept id raw m
    → IsKept id raw (configure_proxy encrypt id token m).1
unfolding configure_proxy
configure_proxy-IsKept encrypt id token raw m k =
    let owner = append "demo:" id in
    let bound = bind-IsKept id owner raw m k in
    let m' = (bind_owner_sub id owner m).1 in
    ground (arith, bound, update-IsKept encrypt id (only_litellm token) no_changes raw m' bound)

-- the tenant of a new demo account as `create_tenant` stores it
fresh_tenant : String → Demo → Tenant
fresh_tenant id d = (create_tenant id d.name d.email vip (record { tenants = []; keys = [] })).0

create-same :
    (id : String) (d : Demo) (m : Manager.Store)
    → (create_tenant id d.name d.email vip m).0 ≡ fresh_tenant id d
unfolding create_tenant fresh_tenant
create-same id d m = refl

create-stored :
    (id : String) (d : Demo) (m : Manager.Store)
    → lookup id (create_tenant id d.name d.email vip m).1.tenants
      ≡ some (create_tenant id d.name d.email vip m).0
unfolding create_tenant post_init
create-stored id d m =
    lookup-insert id id (create_tenant id d.name d.email vip m).0 m.tenants ∙ rw (eq_refl id) refl

fresh_fields :
    (id : String) (d : Demo) (m : Manager.Store)
    → let t = (create_tenant id d.name d.email vip m).0 in
      (t.tenant_id ≡ id) × (t.tier ≡ vip) × (t.is_demo ≡ false)
unfolding create_tenant post_init
fresh_fields id d m = (refl, refl, refl)

mark-stored :
    (id : String) (d : Demo) (now : ℕ) (m : Manager.Store) (raw : Tenant)
    → lookup id m.tenants ≡ some raw
    → lookup id (mark d now id m).1.tenants ≡ some (as_demo d now raw)
mark-stored id d now m raw there =
    let e : (mark d now id m).1 ≡ record m { tenants = insert id (as_demo d now raw) m.tenants } =
      ground (arith, there) in
    ap (λ r. lookup id r.tenants) e
    ∙ lookup-insert id id (as_demo d now raw) m.tenants
    ∙ rw (eq_refl id) refl

module _ {L : Type 0} (seal : String → Logged → L) where
  -- a demo account of these terms is stored
  pub record IsDemoOf (id : String) (d : Demo) (made : ℕ) (s : Store L) : Type 0 where
    pub account : Tenant
    pub stored : lookup id s.manager.tenants ≡ some account
    pub tier : account.tier ≡ vip
    pub is_demo : account.is_demo ≡ true
    pub expires : account.demo_expires_at ≡ some (made + d.duration_days * 86400)
    pub pipeline : account.demo_cost_cap_pipeline ≡ d.cost_cap_pipeline
    pub llm : account.demo_cost_cap_llm ≡ d.cost_cap_llm

  kept-IsDemoOf :
      (id : String) (d : Demo) (made : ℕ) (raw : Tenant) (s : Store L)
      → raw.tier ≡ vip
      → IsKept id (as_demo d made raw) s.manager
      → IsDemoOf id d made s
  kept-IsDemoOf id d made raw s tier k = record {
    account = k.new;
    stored = k.stored;
    tier = k.tier ∙ tier;
    is_demo = k.is_demo;
    expires = k.expires;
    pipeline = k.pipeline;
    llm = k.llm;
  }

  create_demo-manager :
      (encrypt : String → String → String → String → String) (id : String) (made : ℕ) (d : Demo)
      (s : Store L)
      → let m = (mark d made id (create_tenant id d.name d.email vip s.manager).1).1 in
        (create_demo seal encrypt id made d s).1.manager
        ≡ (if is_given d.litellm_token then (configure_proxy encrypt id d.litellm_token m).1 else m)
  unfolding create_demo log_event
  create_demo-manager encrypt id made d s = ground arith

  -- A demo account is stored when `create_demo` returns or raises: a tenant of the VIP tier with the
  -- demo flag, an expiry after the given number of days, and the given caps.
  pub create_demo-IsDemoOf :
      (encrypt : String → String → String → String → String) (id : String) (made : ℕ) (d : Demo)
      (s : Store L)
      → IsDemoOf id d made (create_demo seal encrypt id made d s).1
  create_demo-IsDemoOf encrypt id made d s =
      let r = create_tenant id d.name d.email vip s.manager in
      let (own, tier, demo) = fresh_fields id d s.manager in
      let m = (mark d made id r.1).1 in
      let k : IsKept id (as_demo d made r.0) m = record {
        new = as_demo d made r.0;
        stored = mark-stored id d made r.1 r.0 (create-stored id d s.manager);
        keyed = own;
        tier = refl;
        is_demo = refl;
        expires = refl;
        pipeline = refl;
        llm = refl;
      } in
      let configured = configure_proxy-IsKept encrypt id d.litellm_token (as_demo d made r.0) m k in
      let s' = (create_demo seal encrypt id made d s).1 in
      let either : IsKept id (as_demo d made r.0) (
          if is_given d.litellm_token
          then (configure_proxy encrypt id d.litellm_token m).1
          else m) =
        ground (arith, k, configured) in
      kept-IsDemoOf id d made r.0 s' tier (
        subst (IsKept id (as_demo d made r.0)) (sym (create_demo-manager encrypt id made d s))
          either)
