-- ===== src/Tenant/Demo/Expiry.antt =====
-- When a demo account expires, and what its expiry does.
use vela_flow_public.Prelude.{
  ℕ, ◌+◌, ◌*◌, ◌≡◌, ◌∙◌, ap, refl, String, Bool, true, false, not, Option, none, some, [], ◌∷◌,
  ◌++◌, str_eq, eq_refl, leb, arith, if◌then◌else◌, keep,
}
use vela_flow_public.Dict.{lookup, lookup-insert}
use vela_flow_public.Tenant.{vip, Tenant, post_init}
use vela_flow_public.Tenant.Manager.{create_tenant, is_listed, is_wiped, deactivate_tenant}
use vela_flow_public.Tenant.Isolation.{deactivated, deactivate_isolates}
use vela_flow_public.Tenant.Owner.{IsKeyed}
use vela_flow_public.Tenant.Demo.{
  Event, Store, Logged, Demo, demo_expired, create_demo, log_event, expire_demo, check_expiry,
  lines_of,
}
use vela_flow_public.Queue.Handlers.{is_demo_expired}
use vela_flow_public.Tenant.Demo.Creation.{create_demo-IsDemoOf}

-- the demo flag of the tenant that a creation returns
abbrev pub is_marked : Option Tenant → Bool
is_marked none = false
is_marked (some t) = t.is_demo

module _ {L : Type 0} (seal : String → Logged → L) where
  -- The answer of a check of the expiry of a stored tenant is that of the worker's own test.
  expiry_agrees :
      (id : String) (now : ℕ) (s : Store L) (t : Tenant)
      → lookup id s.manager.tenants ≡ some t
      → (check_expiry seal id now s).0 ≡ not (is_demo_expired now t)
  unfolding check_expiry
  expiry_agrees id now s t there = ground (arith, there)

  kept_until :
      (id : String) (now : ℕ) (s : Store L) (t : Tenant)
      → lookup id s.manager.tenants ≡ some t
      → is_demo_expired now t ≡ false
      → (check_expiry seal id now s).1 ≡ s
  unfolding check_expiry
  kept_until id now s t there early = ground (arith, there, early)

  expired_at :
      (id : String) (now : ℕ) (s : Store L) (t : Tenant)
      → lookup id s.manager.tenants ≡ some t
      → is_demo_expired now t ≡ true
      → (check_expiry seal id now s).1 ≡ expire_demo seal id t now s
  unfolding check_expiry
  expired_at id now s t there over = ground (arith, there, over)

  lines-log :
      (id other : String) (s : Store L) (e : Event) (now : ℕ)
      → lookup other (log_event seal id e now s).events ≡ (
          if str_eq id other
          then some (lines_of id s ++ seal id (record { event = e; timestamp = now }) ∷ [])
          else lookup other s.events)
  unfolding log_event
  lines-log id other s e now =
      lookup-insert id other (lines_of id s ++ seal id (record { event = e; timestamp = now }) ∷ [])
        s.events

  log-manager :
      (id : String) (s : Store L) (e : Event) (now : ℕ)
      → (log_event seal id e now s).manager ≡ s.manager
  unfolding log_event
  log-manager id s e now = refl

  marked :
      (encrypt : String → String → String → String → String) (id : String) (made : ℕ) (d : Demo)
      (s : Store L)
      → is_marked (create_demo seal encrypt id made d s).0 ≡ false
  unfolding create_demo create_tenant post_init
  marked encrypt id made d s = ground arith

  -- A demo account is active until the given number of days have passed since its creation, and not
  -- from then on: so answers the check of the demo manager, and so does the worker's own test of the
  -- stored account, which has the VIP tier and the given caps. This holds also where `create_demo`
  -- raises after it has stored the account. The tenant that it returns does not have the demo flag.
  pub demo_lasts :
      (encrypt : String → String → String → String → String) (id : String) (made later : ℕ)
      (d : Demo) (s : Store L)
      → let s' = (create_demo seal encrypt id made d s).1 in
        ((account : Tenant) × (lookup id s'.manager.tenants ≡ some account)
          × (account.tier ≡ vip)
          × (account.demo_cost_cap_pipeline ≡ d.cost_cap_pipeline)
          × (account.demo_cost_cap_llm ≡ d.cost_cap_llm)
          × (is_demo_expired later account ≡ leb (made + d.duration_days * 86400) later))
        × ((check_expiry seal id later s').0 ≡ not (leb (made + d.duration_days * 86400) later))
        × (is_marked (create_demo seal encrypt id made d s).0 ≡ false)
  demo_lasts encrypt id made later d s =
      let s' = (create_demo seal encrypt id made d s).1 in
      let demo = create_demo-IsDemoOf seal encrypt id made d s in
      let worker : is_demo_expired later demo.account ≡ leb (made + d.duration_days * 86400) later =
        ground (arith, demo.is_demo, demo.expires) in
      (
        (demo.account, demo.stored, demo.tier, demo.pipeline, demo.llm, worker),
        expiry_agrees id later s' demo.account demo.stored ∙ ap not worker,
        marked encrypt id made d s,
      )

  expire-lem :
      (id : String) (s : Store L) (t : Tenant) (now : ℕ)
      → expire_demo seal id t now s ≡ record {
        manager = (deactivate_tenant id s.manager).1;
        events = (log_event seal id (demo_expired t.demo_expires_at) now s).events;
      }
  unfolding log_event
  expire-lem id s t now = refl

  -- Where tenants are stored under their own ids, the check of an expired demo account answers no. The
  -- account is stored as inactive with no credentials, no JSON file of its data layers is left, and
  -- its log has one line more. Every key that is no JSON file, such as a marker `.partition`, is as it
  -- was, and so are the tenant, the keys and the log of any other id.
  pub expiry_deactivates :
      (id other : String) (now : ℕ) (s : Store L) (t : Tenant)
      → IsKeyed s.manager
      → lookup id s.manager.tenants ≡ some t
      → is_demo_expired now t ≡ true
      → str_eq id other ≡ false
      → let s' = (check_expiry seal id now s).1 in
        ((check_expiry seal id now s).0 ≡ false)
        × (lookup id s'.manager.tenants ≡ some (deactivated id s.manager t))
        × (keep (is_wiped id) s'.manager.keys ≡ [])
        × (lookup other s'.manager.tenants ≡ lookup other s.manager.tenants)
        × (keep (λ k. str_eq k.tenant_id other) s'.manager.keys
            ≡ keep (λ k. str_eq k.tenant_id other) s.manager.keys)
        × (keep (λ k. not (is_listed k)) s'.manager.keys
            ≡ keep (λ k. not (is_listed k)) s.manager.keys)
        × (lookup id s'.events
            ≡ some (
                lines_of id s
                ++ seal id (record { event = demo_expired t.demo_expires_at; timestamp = now })
                  ∷ []))
        × (lookup other s'.events ≡ lookup other s.events)
  expiry_deactivates id other now s t keyed there over differ =
      let e = demo_expired t.demo_expires_at in
      let (gone, wiped, kept, keys, unlisted) =
        deactivate_isolates id s.manager t other keyed there differ in
      let after = expired_at id now s t there over ∙ expire-lem id s t now in
      (
        expiry_agrees id now s t there ∙ ap not over,
        ap (λ r. lookup id r.manager.tenants) after ∙ gone,
        ap (λ r. keep (is_wiped id) r.manager.keys) after ∙ wiped,
        ap (λ r. lookup other r.manager.tenants) after ∙ kept,
        ap (λ r. keep (λ k. str_eq k.tenant_id other) r.manager.keys) after ∙ keys,
        ap (λ r. keep (λ k. not (is_listed k)) r.manager.keys) after ∙ unlisted,
        ap (λ r. lookup id r.events) after ∙ lines-log id id s e now ∙ rw (eq_refl id) refl,
        ap (λ r. lookup other r.events) after ∙ lines-log id other s e now ∙ rw differ refl,
      )
