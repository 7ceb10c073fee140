-- ===== src/Rbac/Every.antt =====
-- A Boolean test that every permission passes is decided by running it on the list of them all.
use vela_flow_public.Prelude.{◌≡◌, Bool, true, all, arith}
use vela_flow_public.Rbac.{Permission, all_permissions}

pub every : (f : Permission → Bool) → all f all_permissions ≡ true → (p : Permission) → f p ≡ true
every f h p = ground arith
