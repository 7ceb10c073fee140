-- ===== src/Rbac/Tests.antt =====
-- Decisions of the access policy, and its theorems at concrete inputs.
use vela_flow_public.Prelude.{String, ◌≡◌, refl, true, false, ◌⊎◌, [], ◌∷◌}
use vela_flow_public.Dict.{lookup}
use vela_flow_public.Rbac.{
  RbacPolicy, read_gold, view_tenant, view_pipeline_runs, generate_digest, run_pipeline, use_llm,
  use_rag, manage_users, is_in, get_permissions, get_user_permissions, has_permission,
  has_user_permission, check_access, require_permission, permission_error,
}
use vela_flow_public.Rbac.Tiers.{implies, built_in, tiers_nested, rag_tiers}
use vela_flow_public.Rbac.Roles.{roles_nested, viewer_reads, unknown_role}

-- a custom role named as a tier takes its place
abbrev custom : RbacPolicy
custom = record { custom_roles = ("free", use_llm ∷ []) ∷ [] }

custom_free : check_access "free" "member" use_llm custom ≡ true
unfolding check_access has_permission get_permissions has_user_permission get_user_permissions
    lookup
custom_free = refl

refused_rag : require_permission "premium" use_rag built_in ≡ permission_error "premium" use_rag
unfolding require_permission has_permission get_permissions lookup
refused_rag = refl

tiers_nested_example :
    (implies
        (has_permission "free" manage_users built_in)
        (has_permission "standard" manage_users built_in)
      ≡ true)
    × (implies
          (has_permission "standard" manage_users built_in)
          (has_permission "premium" manage_users built_in)
        ≡ true)
    × (implies
          (has_permission "premium" manage_users built_in)
          (has_permission "vip" manage_users built_in)
        ≡ true)
    × (implies
          (has_permission "demo" manage_users built_in)
          (has_permission "vip" manage_users built_in)
        ≡ true)
tiers_nested_example = tiers_nested manage_users

vip_rag : has_permission "vip" use_rag built_in ≡ true
unfolding has_permission get_permissions lookup
vip_rag = refl

abbrev vip : String
vip = "vip"

rag_tiers_run : (vip ≡ "vip") ⊎ ((vip ≡ "demo") ⊎ (vip ≡ "admin"))
rag_tiers_run = rag_tiers vip vip_rag

roles_nested_example :
    (implies
        (check_access "free" "demo" use_llm custom)
        (check_access "free" "viewer" use_llm custom)
      ≡ true)
    × (implies
          (check_access "free" "viewer" use_llm custom)
          (check_access "free" "member" use_llm custom)
        ≡ true)
    × (implies
          (check_access "free" "member" use_llm custom)
          (check_access "free" "admin" use_llm custom)
        ≡ true)
    × (check_access "free" "owner" use_llm custom ≡ has_permission "free" use_llm custom)
    × (check_access "free" "" use_llm custom ≡ has_permission "free" use_llm custom)
roles_nested_example = roles_nested "free" use_llm custom

viewer_digest : check_access "premium" "viewer" generate_digest built_in ≡ true
unfolding check_access has_permission get_permissions has_user_permission get_user_permissions
    lookup
viewer_digest = refl

viewer_reads_example :
    is_in generate_digest (read_gold ∷ view_tenant ∷ view_pipeline_runs ∷ generate_digest ∷ [])
    ≡ true
viewer_reads_example = viewer_reads "premium" generate_digest built_in viewer_digest

unknown_role_example : check_access "vip" "guest" run_pipeline built_in ≡ false
unfolding lookup
unknown_role_example = unknown_role "vip" "guest" run_pipeline built_in refl refl
