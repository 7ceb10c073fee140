-- ===== src/Rbac.antt =====
-- security/rbac.py. A set of permissions is a list without order, asked by `is_in` only.
mod Every
pub mod Tiers
pub mod Roles
mod Tests
use vela_flow_public.Prelude.{
  ℕ, String, Bool, true, false, not, Option, none, some, List, [], ◌∷◌, any, map, str_eq,
  if◌then◌else◌, ◌==◌, ◌||◌,
}
use vela_flow_public.Dict.{Dict, lookup}

pub data Permission : Type 0 where
  read_bronze read_silver read_gold write_bronze : Permission
  run_pipeline view_pipeline_runs : Permission
  manage_tenant view_tenant : Permission
  manage_users invite_users : Permission
  generate_digest use_llm use_premium_llm use_rag use_local_llm : Permission
  manage_api_keys : Permission
  admin_all : Permission

-- the place of a permission in its declaration
abbrev pub number : Permission → ℕ
number read_bronze = 0
number read_silver = 1
number read_gold = 2
number write_bronze = 3
number run_pipeline = 4
number view_pipeline_runs = 5
number manage_tenant = 6
number view_tenant = 7
number manage_users = 8
number invite_users = 9
number generate_digest = 10
number use_llm = 11
number use_premium_llm = 12
number use_rag = 13
number use_local_llm = 14
number manage_api_keys = 15
number admin_all = 16

-- permission in permissions
abbrev pub is_in : Permission → List Permission → Bool
is_in p ps = any (λ q. number q == number p) ps

-- {p for p in Permission}
abbrev pub all_permissions : List Permission
all_permissions =
    read_bronze ∷ read_silver ∷ read_gold ∷ write_bronze ∷ run_pipeline ∷ view_pipeline_runs
    ∷ manage_tenant ∷ view_tenant ∷ manage_users ∷ invite_users ∷ generate_digest ∷ use_llm
    ∷ use_premium_llm ∷ use_rag ∷ use_local_llm ∷ manage_api_keys ∷ admin_all ∷ []

abbrev pub tier_roles : Dict (List Permission)
tier_roles =
    (
      "free",
      read_gold ∷ view_tenant ∷ run_pipeline ∷ view_pipeline_runs ∷ generate_digest
          ∷ manage_api_keys ∷ [],
    )
    ∷ (
      "standard",
      read_bronze ∷ read_silver ∷ read_gold ∷ write_bronze ∷ view_tenant ∷ run_pipeline
          ∷ view_pipeline_runs ∷ generate_digest ∷ use_llm ∷ manage_api_keys ∷ [],
    )
    ∷ (
      "premium",
      read_bronze ∷ read_silver ∷ read_gold ∷ write_bronze ∷ view_tenant ∷ manage_tenant
          ∷ run_pipeline ∷ view_pipeline_runs ∷ generate_digest ∷ use_llm ∷ use_premium_llm
          ∷ use_local_llm ∷ manage_api_keys ∷ manage_users ∷ invite_users ∷ [],
    )
    ∷ ("vip", all_permissions)
    ∷ (
      "demo",
      read_bronze ∷ read_silver ∷ read_gold ∷ write_bronze ∷ view_tenant ∷ run_pipeline
          ∷ view_pipeline_runs ∷ generate_digest ∷ use_llm ∷ use_premium_llm ∷ use_rag
          ∷ use_local_llm ∷ manage_api_keys ∷ [],
    )
    ∷ ("admin", all_permissions)
    ∷ []

abbrev pub user_role_perms : Dict (List Permission)
user_role_perms =
    ("owner", all_permissions)
    ∷ (
      "admin",
      read_bronze ∷ read_silver ∷ read_gold ∷ write_bronze ∷ run_pipeline ∷ view_pipeline_runs
          ∷ manage_tenant ∷ view_tenant ∷ manage_users ∷ invite_users ∷ generate_digest ∷ use_llm
          ∷ use_premium_llm ∷ manage_api_keys ∷ [],
    )
    ∷ (
      "member",
      read_bronze ∷ read_silver ∷ read_gold ∷ write_bronze ∷ run_pipeline ∷ view_pipeline_runs
          ∷ view_tenant ∷ generate_digest ∷ use_llm ∷ manage_api_keys ∷ [],
    )
    ∷ ("viewer", read_gold ∷ view_tenant ∷ view_pipeline_runs ∷ generate_digest ∷ [])
    ∷ ("demo", read_gold ∷ view_tenant ∷ view_pipeline_runs ∷ [])
    ∷ []

pub record RbacPolicy : Type 0 where
  pub custom_roles : Dict (List Permission)

-- d.get(k, set())
abbrev get : String → Dict (List Permission) → List Permission
get k d = elim (lookup k d) [ none ↦ [] | some ps ↦ ps ]

unfoldable pub get_permissions : String → RbacPolicy → List Permission
get_permissions role policy = elim (lookup role policy.custom_roles) [
  | some ps ↦ ps
  | none ↦ get role tier_roles
]

unfoldable pub get_user_permissions : String → List Permission
get_user_permissions user_role = get user_role user_role_perms

abbrev pub holds : List Permission → Permission → Bool
holds ps p = is_in admin_all ps || is_in p ps

unfoldable pub has_permission : String → Permission → RbacPolicy → Bool
unfolding get_permissions
has_permission role p policy = holds (get_permissions role policy) p

unfoldable pub has_user_permission : String → Permission → Bool
unfolding get_user_permissions
has_user_permission user_role p = holds (get_user_permissions user_role) p

unfoldable pub check_access : String → String → Permission → RbacPolicy → Bool
check_access tier_role user_role p policy =
    if not (has_permission tier_role p policy)
    then false
    else if str_eq user_role ""
    then true
    else has_user_permission user_role p

-- How `require_permission` ends: a `PermissionError` names the role and the permission.
pub data Requirement : Type 0 where
  granted : Requirement
  permission_error : String → Permission → Requirement

unfoldable pub require_permission : String → Permission → RbacPolicy → Requirement
require_permission role p policy =
    if not (has_permission role p policy) then permission_error role p else granted

abbrev pub available_roles : List String
available_roles = map (λ e. e.0) tier_roles

abbrev pub available_user_roles : List String
available_user_roles = map (λ e. e.0) user_role_perms
