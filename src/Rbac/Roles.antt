-- ===== src/Rbac/Roles.antt =====
-- What the roles of users allow, within any tier of any policy.
use vela_flow_public.Prelude.{
  ◌≡◌, refl, String, Bool, true, false, not, none, [], ◌∷◌, str_eq, if◌then◌else◌, arith,
  Bool-cases, inl, inr,
}
use vela_flow_public.Dict.{lookup}
use vela_flow_public.Rbac.Every.{every}
use vela_flow_public.Rbac.{
  Permission, read_gold, view_pipeline_runs, view_tenant, generate_digest, RbacPolicy,
  user_role_perms, get_user_permissions, is_in, has_permission, has_user_permission, check_access,
}
use vela_flow_public.Rbac.Tiers.{implies}

user_nested :
    (p : Permission)
    → (implies (has_user_permission "demo" p) (has_user_permission "viewer" p) ≡ true)
      × (implies (has_user_permission "viewer" p) (has_user_permission "member" p) ≡ true)
      × (implies (has_user_permission "member" p) (has_user_permission "admin" p) ≡ true)
      × (has_user_permission "owner" p ≡ true)
unfolding has_user_permission get_user_permissions lookup
user_nested p =
    let demo =
      λ (q : Permission). implies (has_user_permission "demo" q) (has_user_permission "viewer" q) in
    let viewer = λ (q : Permission).
      implies (has_user_permission "viewer" q) (has_user_permission "member" q) in
    let member = λ (q : Permission).
      implies (has_user_permission "member" q) (has_user_permission "admin" q) in
    (
      every demo refl p,
      every viewer refl p,
      every member refl p,
      every (has_user_permission "owner") refl p,
    )

-- Within any tier of any policy, custom roles included, the demo user may do no more than a viewer,
-- a viewer no more than a member, a member no more than an admin, and the owner exactly what the
-- tier allows, as may a user without a role.
pub roles_nested :
    (tier : String) (p : Permission) (policy : RbacPolicy)
    → (implies (check_access tier "demo" p policy) (check_access tier "viewer" p policy) ≡ true)
      × (implies (check_access tier "viewer" p policy) (check_access tier "member" p policy) ≡ true)
      × (implies (check_access tier "member" p policy) (check_access tier "admin" p policy) ≡ true)
      × (check_access tier "owner" p policy ≡ has_permission tier p policy)
      × (check_access tier "" p policy ≡ has_permission tier p policy)
unfolding check_access
roles_nested tier p policy =
    let (dv, vm, ma, o) = user_nested p in
    elim (Bool-cases (has_permission tier p policy)) [
      | inl allowed ↦ rw (allowed, o) (dv, vm, ma, refl, refl)
      | inr refused ↦ rw refused (refl, refl, refl, refl, refl)
    ]

viewer_only :
    (p : Permission)
    → implies
        (has_user_permission "viewer" p)
        (is_in p (read_gold ∷ view_tenant ∷ view_pipeline_runs ∷ generate_digest ∷ []))
      ≡ true
unfolding has_user_permission get_user_permissions lookup
viewer_only p =
    every
      (λ (q : Permission).
        implies (has_user_permission "viewer" q)
          (is_in q (read_gold ∷ view_tenant ∷ view_pipeline_runs ∷ generate_digest ∷ [])))
      refl p

modus-ponens : (a b : Bool) → implies a b ≡ true → a ≡ true → b ≡ true
modus-ponens a b i h = ground arith

allowed-user : (t u : Bool) → (if not t then false else u) ≡ true → u ≡ true
allowed-user t u h = ground arith

unknown-perms :
    (role : String) (p : Permission)
    → lookup role user_role_perms ≡ none
    → has_user_permission role p ≡ false
unfolding has_user_permission get_user_permissions
unknown-perms role p unknown = ground arith

-- A viewer, whatever the tier and the policy, is never allowed anything but to read gold data, to
-- view the tenant and the pipeline runs, and to generate a digest.
pub viewer_reads :
    (tier : String) (p : Permission) (policy : RbacPolicy)
    → check_access tier "viewer" p policy ≡ true
    → is_in p (read_gold ∷ view_tenant ∷ view_pipeline_runs ∷ generate_digest ∷ []) ≡ true
unfolding check_access
viewer_reads tier p policy h =
    modus-ponens (has_user_permission "viewer" p) _ (viewer_only p)
      (allowed-user (has_permission tier p policy) (has_user_permission "viewer" p) h)

-- A user whose role is not empty and is none of the five that the table names is allowed nothing.
pub unknown_role :
    (tier role : String) (p : Permission) (policy : RbacPolicy)
    → str_eq role "" ≡ false
    → lookup role user_role_perms ≡ none
    → check_access tier role p policy ≡ false
unfolding check_access
unknown_role tier role p policy named unknown = elim (Bool-cases (has_permission tier p policy)) [
  | inl allowed ↦ rw (allowed, named) (unknown-perms role p unknown)
  | inr refused ↦ rw refused refl
]
