-- ===== src/Paths/Tests.antt =====
-- Paths at concrete inputs: an accepted one, one that escapes, and a key that leaves the base.
use vela_flow_public.Prelude.{
  ℕ, ◌≡◌, refl, Bool, true, none, some, List, [], ◌∷◌, ◌++◌, if◌then◌else◌, any,
}
use vela_flow_public.Prelude.Text.{strip, strip_left, strip_right, is_space, is_prefix}
use vela_flow_public.Paths.{
  AbsolutePath, split_slash, components, collapse, drop_last, is_up, normalize, is_below, escapes,
  resolved, safe_resolve, print_parts, print, with_slashes, at, resolve_key,
}
use vela_flow_public.Paths.Normal.{IsNormal}
use vela_flow_public.Paths.Resolved.{IsUnder, resolved_safe}
use vela_flow_public.Paths.Storage.{relative_exact}

-- the working directory "/s", and a path that always exists
abbrev cwd : AbsolutePath
cwd = at ((115 ∷ []) ∷ [])

abbrev exists : AbsolutePath → Bool
exists p = true

cwd-IsNormal : IsNormal cwd
cwd-IsNormal = (record { named = refl; down = refl; solid = refl }, tt)

-- "../d/x" under the base "/d"
abbrev outside : List ℕ
outside = 46 ∷ 46 ∷ 47 ∷ 100 ∷ 47 ∷ 120 ∷ []

abbrev bases : List (List ℕ)
bases = (47 ∷ 100 ∷ []) ∷ []

abbrev target : AbsolutePath
target = at ((100 ∷ []) ∷ (120 ∷ []) ∷ [])

run_outside : safe_resolve exists cwd (some outside) bases true ≡ resolved target
unfolding safe_resolve strip strip_left strip_right is_space normalize components split_slash
    collapse drop_last is_below
run_outside = refl

-- "d" is below the working directory, not below the base
run_escape : safe_resolve exists cwd (some (100 ∷ [])) bases true ≡ escapes
unfolding safe_resolve strip strip_left strip_right is_space normalize components split_slash
    collapse drop_last is_below
run_escape = refl

resolved_safe_example :
    IsNormal target
    × IsUnder cwd bases target
    × (true ≡ true)
    × (normalize (at []) (print target) ≡ target)
resolved_safe_example =
    resolved_safe exists cwd (at []) outside bases true target cwd-IsNormal run_outside

-- the key "a/../b" with a backslash, below the base "/s"
relative_exact_example : resolve_key cwd.parts (97 ∷ 92 ∷ 46 ∷ 46 ∷ 47 ∷ 98 ∷ []) ≡ (
    if any is_up (components (with_slashes (97 ∷ 92 ∷ 46 ∷ 46 ∷ 47 ∷ 98 ∷ [])))
    then none
    else some (cwd.parts ++ components (with_slashes (97 ∷ 92 ∷ 46 ∷ 46 ∷ 47 ∷ 98 ∷ []))))
relative_exact_example =
    relative_exact cwd.parts (97 ∷ 92 ∷ 46 ∷ 46 ∷ 47 ∷ 98 ∷ []) cwd-IsNormal refl

-- the absolute key "/s-/k" resolves beside the base "/s"
run_sibling :
    resolve_key cwd.parts (47 ∷ 115 ∷ 45 ∷ 47 ∷ 107 ∷ []) ≡ some ((115 ∷ 45 ∷ []) ∷ (107 ∷ []) ∷ [])
unfolding resolve_key normalize components split_slash collapse print print_parts is_prefix
    drop_last
run_sibling = refl
