-- ===== src/Queue/Handlers/Gates.antt =====
-- Which requests the expiry of a demo account stops.
use vela_flow_public.Prelude.{ℕ, String}
use vela_flow_public.Tenant.{Tenant}
use vela_flow_public.Queue.Quota.{usage_today}
use vela_flow_public.Queue.Quota
use vela_flow_public.Queue.Handlers.{Files}

module _ {M F G : Type 0} (today : String) (t : Tenant) (s : Files M F G) where
  -- the runs of the tenant that count today
  abbrev pub runs : ℕ
  runs = (usage_today today t.tenant_id s.usages).pipeline_runs
