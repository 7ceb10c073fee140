-- ===== src/Rbac/Tiers.antt =====
-- What the tiers of a subscription allow, without custom roles.
use vela_flow_public.Prelude.{◌≡◌, refl, String, Bool, true, not, ◌||◌, ◌⊎◌, [], eq_iff, arith}
use vela_flow_public.Dict.{lookup}
use vela_flow_public.Rbac.Every.{every}
use vela_flow_public.Rbac.{Permission, use_rag, RbacPolicy, get_permissions, has_permission}

abbrev pub built_in : RbacPolicy
built_in = record { custom_roles = [] }

abbrev pub implies : Bool → Bool → Bool
implies a b = not a || b

-- Each tier allows what the tier below it allows, from free through standard and premium to VIP,
-- and the demo tier allows no more than VIP.
pub tiers_nested :
    (p : Permission)
    → (implies (has_permission "free" p built_in) (has_permission "standard" p built_in) ≡ true)
      × (implies (has_permission "standard" p built_in) (has_permission "premium" p built_in)
          ≡ true)
      × (implies (has_permission "premium" p built_in) (has_permission "vip" p built_in) ≡ true)
      × (implies (has_permission "demo" p built_in) (has_permission "vip" p built_in) ≡ true)
unfolding has_permission get_permissions lookup
tiers_nested p =
    let free = λ (q : Permission).
      implies (has_permission "free" q built_in) (has_permission "standard" q built_in) in
    let standard = λ (q : Permission).
      implies (has_permission "standard" q built_in) (has_permission "premium" q built_in) in
    let premium = λ (q : Permission).
      implies (has_permission "premium" q built_in) (has_permission "vip" q built_in) in
    let demo = λ (q : Permission).
      implies (has_permission "demo" q built_in) (has_permission "vip" q built_in) in
    (every free refl p, every standard refl p, every premium refl p, every demo refl p)

-- Of all tier names, where no custom role is defined, only VIP, demo and admin allow the use of
-- RAG.
pub rag_tiers :
    (tier : String)
    → has_permission tier use_rag built_in ≡ true
    → (tier ≡ "vip") ⊎ ((tier ≡ "demo") ⊎ (tier ≡ "admin"))
unfolding has_permission get_permissions lookup
rag_tiers tier h = ground (arith, eq_iff "vip" tier, eq_iff "demo" tier, eq_iff "admin" tier)
