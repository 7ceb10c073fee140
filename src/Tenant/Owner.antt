-- ===== src/Tenant/Owner.antt =====
-- The owner that a tenant is bound to is never replaced.
use vela_flow_public.Prelude.{
  ◌≡◌, ◌∙◌, sym, ap, refl, String, false, some, List, [], ◌∷◌, str_eq, eq_iff, arith, inl, inr,
  Bool-cases, All,
}
use vela_flow_public.Dict.{lookup, insert, lookup-insert}
use vela_flow_public.Tenant.{TenantTier, Tenant}
use vela_flow_public.Tenant.Manager.{
  Store, create_tenant, update_tier, update_config, deactivate_tenant, bind_owner_sub,
}
use vela_flow_public.Tenant.Writes.{
  IsCareful, update_tier-IsCareful, deactivate-IsCareful, bind-IsCareful, config-IsCareful, Op,
  create, set_tier, configure, deactivate, bind, step, run, IsOther,
}

-- each tenant is stored under its own id
abbrev pub IsKeyed : Store → Type 0
IsKeyed s = (id : String) (t : Tenant) → lookup id s.tenants ≡ some t → t.tenant_id ≡ id

-- the tenant is stored, and bound to an owner
pub record IsBound (id owner : String) (s : Store) : Type 0 where
  pub tenant : Tenant
  pub stored : lookup id s.tenants ≡ some tenant
  pub owned : tenant.owner_google_sub ≡ owner

some_id : (x y : Tenant) → some x ≡ some y → x.tenant_id ≡ y.tenant_id
some_id x y h = ground arith

some_owner : (x y : Tenant) → some x ≡ some y → x.owner_google_sub ≡ y.owner_google_sub
some_owner x y h = ground arith

IsKeyed-insert :
    (s s' : Store) (new : Tenant)
    → s'.tenants ≡ insert new.tenant_id new s.tenants
    → IsKeyed s
    → IsKeyed s'
IsKeyed-insert s s' new write keyed id t h =
    let found = ap (lookup id) write ∙ lookup-insert new.tenant_id id new s.tenants in
    elim (Bool-cases (str_eq new.tenant_id id)) [
      | inl same ↦
          sym (some_id new t (sym (found ∙ rw same refl) ∙ h)) ∙ (eq_iff new.tenant_id id).0 same
      | inr other ↦ keyed id t (sym (found ∙ rw other refl) ∙ h)
    ]

careful-IsKeyed : (s s' : Store) → IsCareful s s' → IsKeyed s → IsKeyed s'
careful-IsKeyed s s' (inl same) keyed id t h = keyed id t (sym (ap (lookup id) same) ∙ h)
careful-IsKeyed s s' (inr r) keyed id t h = IsKeyed-insert s s' r.new r.written keyed id t h

careful-IsBound :
    (id owner : String) (s s' : Store)
    → str_eq owner "" ≡ false
    → IsKeyed s
    → IsCareful s s'
    → IsBound id owner s
    → IsBound id owner s'
careful-IsBound id owner s s' named keyed (inl same) b = record {
  tenant = b.tenant;
  stored = ap (lookup id) same ∙ b.stored;
  owned = b.owned;
}
careful-IsBound id owner s s' named keyed (inr r) b =
    let found = ap (lookup id) r.written ∙ lookup-insert r.new.tenant_id id r.new s.tenants in
    elim (Bool-cases (str_eq r.new.tenant_id id)) [
      | inl same ↦
          let at_id : r.id ≡ id =
            sym (keyed r.id r.old r.stored) ∙ sym r.same_id ∙ (eq_iff r.new.tenant_id id).0 same in
          let read : some r.old ≡ some b.tenant =
            sym r.stored ∙ ap (λ i. lookup i s.tenants) at_id ∙ b.stored in
          let owned : r.old.owner_google_sub ≡ owner = some_owner r.old b.tenant read ∙ b.owned in
          record {
            tenant = r.new;
            stored = found ∙ rw same refl;
            owned = r.same_owner (ap (λ o. str_eq o "") owned ∙ named) ∙ owned;
          }
      | inr other ↦ record {
        tenant = b.tenant;
        stored = found ∙ rw other b.stored;
        owned = b.owned;
      }
    ]

module _ (encrypt : String → String → String → String → String) where
  create-IsKeyed :
      (id name email : String) (tier : TenantTier) (s : Store)
      → IsKeyed s
      → IsKeyed (create_tenant id name email tier s).1
  create-IsKeyed id name email tier s keyed =
      IsKeyed-insert s (create_tenant id name email tier s).1 (create_tenant id name email tier s).0
        (unfold create_tenant in refl) keyed

  create-elsewhere :
      (id new name email : String) (tier : TenantTier) (s : Store)
      → str_eq new id ≡ false
      → lookup id (create_tenant new name email tier s).1.tenants ≡ lookup id s.tenants
  unfolding create_tenant
  create-elsewhere id new name email tier s other =
      lookup-insert new id (create_tenant new name email tier s).0 s.tenants ∙ rw other refl

  step-IsKeyed : (op : Op encrypt) (s : Store) → IsKeyed s → IsKeyed (step encrypt op s)
  step-IsKeyed (create id name email tier) s keyed = create-IsKeyed id name email tier s keyed
  step-IsKeyed (set_tier id tier) s keyed =
      careful-IsKeyed s (update_tier id tier s).1 (update_tier-IsCareful id tier s) keyed
  step-IsKeyed (configure id secrets changes) s keyed =
      careful-IsKeyed s (update_config encrypt id secrets changes s).1
        (config-IsCareful encrypt id secrets changes s) keyed
  step-IsKeyed (deactivate id) s keyed =
      careful-IsKeyed s (deactivate_tenant id s).1 (deactivate-IsCareful id s) keyed
  step-IsKeyed (bind id sub) s keyed =
      careful-IsKeyed s (bind_owner_sub id sub s).1 (bind-IsCareful id sub s) keyed

  module _ (id owner : String) (named : str_eq owner "" ≡ false) where
    step-IsBound :
        (op : Op encrypt) (s : Store)
        → IsOther encrypt id op
        → IsKeyed s
        → IsBound id owner s
        → IsBound id owner (step encrypt op s)
    step-IsBound (create new name email tier) s other keyed b = record {
      tenant = b.tenant;
      stored = create-elsewhere id new name email tier s other ∙ b.stored;
      owned = b.owned;
    }
    step-IsBound (set_tier i tier) s other keyed b =
        careful-IsBound id owner s (update_tier i tier s).1 named keyed
          (update_tier-IsCareful i tier s) b
    step-IsBound (configure i secrets changes) s other keyed b =
        careful-IsBound id owner s (update_config encrypt i secrets changes s).1 named keyed
          (config-IsCareful encrypt i secrets changes s) b
    step-IsBound (deactivate i) s other keyed b =
        careful-IsBound id owner s (deactivate_tenant i s).1 named keyed (deactivate-IsCareful i s)
          b
    step-IsBound (bind i sub) s other keyed b =
        careful-IsBound id owner s (bind_owner_sub i sub s).1 named keyed (bind-IsCareful i sub s) b

  -- Where tenants are stored under their own ids: whatever operations follow, on this tenant or on
  -- others, a tenant that is bound to an owner, whose name is not empty, stays stored and bound to
  -- that owner, if no tenant is created again under its id.
  pub owner_pinned :
      (id owner : String) (ops : List (Op encrypt)) (s : Store)
      → str_eq owner "" ≡ false
      → All (IsOther encrypt id) ops
      → IsKeyed s
      → IsBound id owner s
      → IsBound id owner (run encrypt ops s)
  owner_pinned id owner [] s named others keyed b = b
  owner_pinned id owner (op ∷ ops) s named others keyed b =
      owner_pinned id owner ops (step encrypt op s) named others.1 (step-IsKeyed op s keyed)
        (step-IsBound id owner named op s others.0 keyed b)
