-- ===== src/Tenant/Isolation.antt =====
-- What the deactivation of a tenant wipes, and what it leaves alone.
use vela_flow_public.Prelude.{
  ◌≡◌, ◌∙◌, ap, refl, String, Bool, true, false, not, some, List, [], ◌∷◌, keep, str_eq, eq_iff,
  eq_refl, arith, if◌then◌else◌,
}
use vela_flow_public.Dict.{lookup, lookup-insert}
use vela_flow_public.Tenant.{no_credentials, Tenant, post_init}
use vela_flow_public.Tenant.Manager.{
  Key, Store, save_tenant, is_listed, is_wiped, deactivate_tenant,
}
use vela_flow_public.Tenant.Writes.{get-some}
use vela_flow_public.Tenant.Owner.{IsKeyed}

keep-none : (p : Key → Bool) (ks : List Key) → keep p (keep (λ k. not (p k)) ks) ≡ []
keep-none p [] = refl
keep-none p (k ∷ ks) = ground (arith, keep-none p ks)

keep-others :
    (p q : Key → Bool) (ks : List Key)
    → ((k : Key) → q k ≡ true → p k ≡ false)
    → keep q (keep (λ k. not (p k)) ks) ≡ keep q ks
keep-others p q [] apart = refl
keep-others p q (k ∷ ks) apart = ground (arith, keep-others p q ks apart, apart k)

apart :
    (id other : String) (k : Key)
    → str_eq id other ≡ false
    → str_eq k.tenant_id other ≡ true
    → is_wiped id k ≡ false
apart id other k h same =
    ground (arith, eq_iff k.tenant_id other, eq_iff k.tenant_id id, eq_iff id other)

unlisted : (id : String) (k : Key) → not (is_listed k) ≡ true → is_wiped id k ≡ false
unlisted id k h = ground (arith, h)

module _ (id : String) (s : Store) (t : Tenant) where
  -- the tenant as it is stored afterwards
  abbrev pub deactivated : Tenant
  deactivated = record (post_init t) { is_active = false; credentials = no_credentials }

  deactivate_lem :
      lookup id s.tenants ≡ some t
      → deactivate_tenant id s ≡ (
        true,
        record (save_tenant deactivated s) { keys = keep (λ k. not (is_wiped id k)) s.keys },
      )
  unfolding deactivate_tenant
  deactivate_lem there = ground (arith, get-some id s t there)

  id-post_init : (post_init t).tenant_id ≡ t.tenant_id
  unfolding post_init
  id-post_init = refl

  -- Where tenants are stored under their own ids, a tenant that is deactivated is stored as inactive
  -- with no credentials, no JSON file of its data layers is left, and another tenant's record and
  -- keys, and all keys that are no JSON files, such as the markers `.partition`, are as they were.
  pub deactivate_isolates :
      (other : String)
      → IsKeyed s
      → lookup id s.tenants ≡ some t
      → str_eq id other ≡ false
      → let s' = (deactivate_tenant id s).1 in
        (lookup id s'.tenants ≡ some deactivated)
        × (keep (is_wiped id) s'.keys ≡ [])
        × (lookup other s'.tenants ≡ lookup other s.tenants)
        × (keep (λ k. str_eq k.tenant_id other) s'.keys
            ≡ keep (λ k. str_eq k.tenant_id other) s.keys)
        × (keep (λ k. not (is_listed k)) s'.keys ≡ keep (λ k. not (is_listed k)) s.keys)
  deactivate_isolates other keyed there differ =
      let same : deactivated.tenant_id ≡ id = id-post_init ∙ keyed id t there in
      let own = lookup-insert deactivated.tenant_id id deactivated s.tenants in
      let others = lookup-insert deactivated.tenant_id other deactivated s.tenants in
      rw (deactivate_lem there) (
        own
            ∙ ap (λ i. if str_eq i id then some deactivated else lookup id s.tenants) same
            ∙ rw (eq_refl id) refl,
        keep-none (is_wiped id) s.keys,
        others
            ∙ ap (λ i. if str_eq i other then some deactivated else lookup other s.tenants) same
            ∙ rw differ refl,
        keep-others (is_wiped id) (λ k. str_eq k.tenant_id other) s.keys
            (λ k h. apart id other k differ h),
        keep-others (is_wiped id) (λ k. not (is_listed k)) s.keys (unlisted id),
      )
