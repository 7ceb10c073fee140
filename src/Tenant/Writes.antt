-- ===== src/Tenant/Writes.antt =====
-- What the operations of `TenantManager` write.
use vela_flow_public.Prelude.{
  ◌≡◌, ◌∙◌, ap, refl, String, true, false, not, ◌&&◌, ◌||◌, none, some, List, [], ◌∷◌, str_eq,
  arith, ◌⊎◌, inl, inr, Bool-cases, Option-cases,
}
use vela_flow_public.Dict.{lookup, insert}
use vela_flow_public.Tenant.{TenantTier, tier_value, for_tier, no_credentials, Tenant, post_init}
use vela_flow_public.Tenant.Manager.{
  Store, ok, runtime_error, get_tenant, save_tenant, create_tenant, update_tier, Secrets, Changes,
  any_given, apply_changes, seal_all, update_config, deactivate_tenant, bind_owner_sub,
}

-- What an operation other than `create_tenant` does to the stored tenants: nothing, or it writes one
-- of them again, with the same id and, if that is bound, the same owner.
pub record IsRewritten (s s' : Store) : Type 0 where
  pub id : String
  pub old : Tenant
  pub new : Tenant
  pub stored : lookup id s.tenants ≡ some old
  pub written : s'.tenants ≡ insert new.tenant_id new s.tenants
  pub same_id : new.tenant_id ≡ old.tenant_id
  pub same_owner :
      str_eq old.owner_google_sub "" ≡ false → new.owner_google_sub ≡ old.owner_google_sub

abbrev pub IsCareful : Store → Store → Type 0
IsCareful s s' = (s'.tenants ≡ s.tenants) ⊎ IsRewritten s s'

pub get-none : (id : String) (s : Store) → lookup id s.tenants ≡ none → get_tenant id s ≡ none
unfolding get_tenant
get-none id s h = ground arith

pub get-some :
    (id : String) (s : Store) (t : Tenant)
    → lookup id s.tenants ≡ some t
    → get_tenant id s ≡ some (post_init t)
unfolding get_tenant
get-some id s t h = ground arith

post_init-keeps :
    (t : Tenant)
    → ((post_init t).tenant_id ≡ t.tenant_id)
      × ((post_init t).owner_google_sub ≡ t.owner_google_sub)
unfolding post_init
post_init-keeps t = (refl, refl)

-- a write of the tenant that was read, with another owner only if it had none
rewritten :
    (id : String) (s s' : Store) (t new : Tenant)
    → lookup id s.tenants ≡ some t
    → s'.tenants ≡ insert new.tenant_id new s.tenants
    → new.tenant_id ≡ (post_init t).tenant_id
    → (str_eq (post_init t).owner_google_sub "" ≡ false
        → new.owner_google_sub ≡ (post_init t).owner_google_sub)
    → IsCareful s s'
rewritten id s s' t new there write same keeps = inr (record {
  id = id;
  old = t;
  new = new;
  stored = there;
  written = write;
  same_id = same ∙ (post_init-keeps t).0;
  same_owner =
      λ bound. keeps (ap (λ o. str_eq o "") (post_init-keeps t).1 ∙ bound) ∙ (post_init-keeps t).1;
})

pub update_tier-IsCareful :
    (id : String) (tier : TenantTier) (s : Store) → IsCareful s (update_tier id tier s).1
update_tier-IsCareful id tier s = elim (Option-cases (lookup id s.tenants)) [
  | inl missing ↦ inl (absent id tier s (get-none id s missing))
  | inr (t, there) ↦
      let p = post_init t in
      rewritten id s (update_tier id tier s).1 t
        (record p { tier = tier; role = tier_value tier; quota = for_tier tier }) there
        (present id tier s p (get-some id s t there)) refl (λ bound. refl)
]
  where
    absent :
        (id : String) (tier : TenantTier) (s : Store)
        → get_tenant id s ≡ none
        → (update_tier id tier s).1.tenants ≡ s.tenants
    absent id tier s h = unfold update_tier in ground arith

    present :
        (id : String) (tier : TenantTier) (s : Store) (p : Tenant)
        → get_tenant id s ≡ some p
        → let new = record p { tier = tier; role = tier_value tier; quota = for_tier tier } in
          (update_tier id tier s).1.tenants ≡ insert new.tenant_id new s.tenants
    present id tier s p h = unfold update_tier in ground arith

pub deactivate-IsCareful : (id : String) (s : Store) → IsCareful s (deactivate_tenant id s).1
deactivate-IsCareful id s = elim (Option-cases (lookup id s.tenants)) [
  | inl missing ↦ inl (absent id s (get-none id s missing))
  | inr (t, there) ↦
      let p = post_init t in
      rewritten id s (deactivate_tenant id s).1 t
        (record p { is_active = false; credentials = no_credentials }) there
        (present id s p (get-some id s t there)) refl (λ bound. refl)
]
  where
    absent :
        (id : String) (s : Store)
        → get_tenant id s ≡ none
        → (deactivate_tenant id s).1.tenants ≡ s.tenants
    absent id s h = unfold deactivate_tenant in ground arith

    present :
        (id : String) (s : Store) (p : Tenant)
        → get_tenant id s ≡ some p
        → let new = record p { is_active = false; credentials = no_credentials } in
          (deactivate_tenant id s).1.tenants ≡ insert new.tenant_id new s.tenants
    present id s p h = unfold deactivate_tenant in ground arith

pub bind-IsCareful : (id sub : String) (s : Store) → IsCareful s (bind_owner_sub id sub s).1
bind-IsCareful id sub s = elim (Option-cases (lookup id s.tenants)) [
  | inl missing ↦ inl (absent id sub s (get-none id s missing))
  | inr (t, there) ↦
      let p = post_init t in
      elim (Bool-cases (str_eq sub "" || not (str_eq p.owner_google_sub ""))) [
        | inl kept ↦ inl (refused id sub s p (get-some id s t there) kept)
        | inr bound ↦
            rewritten id s (bind_owner_sub id sub s).1 t (record p { owner_google_sub = sub }) there
              (present id sub s p (get-some id s t there) bound) refl (clash p sub bound)
      ]
]
  where
    absent :
        (id sub : String) (s : Store)
        → get_tenant id s ≡ none
        → (bind_owner_sub id sub s).1.tenants ≡ s.tenants
    absent id sub s h = unfold bind_owner_sub in ground arith

    refused :
        (id sub : String) (s : Store) (p : Tenant)
        → get_tenant id s ≡ some p
        → (str_eq sub "" || not (str_eq p.owner_google_sub "")) ≡ true
        → (bind_owner_sub id sub s).1.tenants ≡ s.tenants
    refused id sub s p h kept = unfold bind_owner_sub in ground arith

    present :
        (id sub : String) (s : Store) (p : Tenant)
        → get_tenant id s ≡ some p
        → (str_eq sub "" || not (str_eq p.owner_google_sub "")) ≡ false
        → (bind_owner_sub id sub s).1.tenants
          ≡ insert p.tenant_id (record p { owner_google_sub = sub }) s.tenants
    present id sub s p h bound = unfold bind_owner_sub in ground arith

    clash :
        (p : Tenant) (sub : String)
        → (str_eq sub "" || not (str_eq p.owner_google_sub "")) ≡ false
        → str_eq p.owner_google_sub "" ≡ false
        → sub ≡ p.owner_google_sub
    clash p sub free bound = ground arith

module _ (encrypt : String → String → String → String → String) where
  abbrev pub configured : String → Secrets → Changes → Tenant → Tenant
  configured id secrets changes p = record p {
    credentials = seal_all encrypt id p.owner_google_sub secrets p.credentials;
    preferences = apply_changes changes p.preferences;
  }

  module _ (id : String) (secrets : Secrets) (changes : Changes) (s : Store) where
    config-absent :
        get_tenant id s ≡ none → (update_config encrypt id secrets changes s).1.tenants ≡ s.tenants
    unfolding update_config
    config-absent h = ground arith

    pub config-refused :
        (p : Tenant)
        → get_tenant id s ≡ some p
        → (any_given secrets && str_eq p.owner_google_sub "") ≡ true
        → update_config encrypt id secrets changes s ≡ (runtime_error, s)
    unfolding update_config
    config-refused p h refused = ground arith

    pub config-present :
        (p : Tenant)
        → get_tenant id s ≡ some p
        → (any_given secrets && str_eq p.owner_google_sub "") ≡ false
        → update_config encrypt id secrets changes s ≡ (
          ok (some (configured id secrets changes p)),
          save_tenant (configured id secrets changes p) s,
        )
    unfolding update_config
    config-present p h allowed = ground arith

    pub config-IsCareful : IsCareful s (update_config encrypt id secrets changes s).1
    config-IsCareful = elim (Option-cases (lookup id s.tenants)) [
      | inl missing ↦ inl (config-absent (get-none id s missing))
      | inr (t, there) ↦
          let p = post_init t in
          let found = get-some id s t there in
          elim (Bool-cases (any_given secrets && str_eq p.owner_google_sub "")) [
            | inl refused ↦ inl (ap (λ r. r.1.tenants) (config-refused p found refused))
            | inr allowed ↦
                rewritten id s (update_config encrypt id secrets changes s).1 t
                  (configured id secrets changes p) there
                  (ap (λ r. r.1.tenants) (config-present p found allowed)) refl (λ bound. refl)
          ]
    ]

  -- the operations of the manager that write a tenant; the id of a new tenant is generated
  pub data Op : Type 0 where
    create : String → String → String → TenantTier → Op
    set_tier : String → TenantTier → Op
    configure : String → Secrets → Changes → Op
    deactivate : String → Op
    bind : String → String → Op

  abbrev pub step : Op → Store → Store
  step (create id name email tier) s = (create_tenant id name email tier s).1
  step (set_tier id tier) s = (update_tier id tier s).1
  step (configure id secrets changes) s = (update_config encrypt id secrets changes s).1
  step (deactivate id) s = (deactivate_tenant id s).1
  step (bind id sub) s = (bind_owner_sub id sub s).1

  abbrev pub run : List Op → Store → Store
  run [] s = s
  run (op ∷ ops) s = run ops (step op s)

  -- no tenant is created with this id again
  abbrev pub IsOther : String → Op → Type 0
  IsOther id (create new name email tier) = str_eq new id ≡ false
  IsOther id op = Unit
