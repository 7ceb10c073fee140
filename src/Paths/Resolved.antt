-- ===== src/Paths/Resolved.antt =====
-- A resolved path is normal, below an allowed base, and resolves to itself.
use vela_flow_public.Prelude.{
  ℕ, ◌≡◌, ◌≢◌, ◌∙◌, sym, ap, refl, subst, Bool, true, false, not, ◌&&◌, ◌||◌, some, List, [], ◌∷◌,
  ◌++◌, map, any, if◌then◌else◌, Bool-cases, inl, inr, arith,
}
use vela_flow_public.Prelude.Text.{same_text, strip}
use vela_flow_public.Paths.{
  Part, AbsolutePath, normalize, is_below, assert_within, is_empty, Resolution, empty_path,
  no_bases, escapes, missing, resolved, safe_resolve, print,
}
use vela_flow_public.Paths.Normal.{true-ne-false, IsNormal, normalize-IsNormal, normalize-print}

same_text-eq : (s t : List ℕ) → same_text s t ≡ true → s ≡ t
same_text-eq [] [] h = refl
same_text-eq [] (d ∷ t) h = absurd (true-ne-false (sym h))
same_text-eq (c ∷ s) [] h = absurd (true-ne-false (sym h))
same_text-eq (c ∷ s) (d ∷ t) h = ground (arith, same_text-eq s t, h)

below_rest : (bs ps : List Part) → is_below bs ps ≡ true → (rest : List Part) × (ps ≡ bs ++ rest)
unfolding is_below
below_rest [] ps h = (ps, refl)
below_rest (b ∷ bs) [] h = absurd (true-ne-false (sym h))
below_rest (b ∷ bs) (p ∷ ps) h = elim (Bool-cases (same_text b p)) [
  | inl same ↦
      let (rest, e) = below_rest bs ps (ground (arith, h, same)) in
      (rest, cc (same_text-eq b p same, e))
  | inr other ↦ absurd (true-ne-false (ground (arith, h, other)))
]

-- a base from the list that the path is below, at the same root
pub record IsUnder (cwd : AbsolutePath) (bases : List (List ℕ)) (p : AbsolutePath) : Type 0 where
  pub before : List (List ℕ)
  pub base : List ℕ
  pub after : List (List ℕ)
  pub rest : List Part
  pub listed : bases ≡ before ++ base ∷ after
  pub root : (normalize cwd base).is_double ≡ p.is_double
  pub below : p.parts ≡ (normalize cwd base).parts ++ rest

within-below :
    (p base : AbsolutePath)
    → assert_within p base ≡ true
    → (base.is_double ≡ p.is_double) × ((rest : List Part) × (p.parts ≡ base.parts ++ rest))
within-below p base h = (ground (arith, h), below_rest base.parts p.parts (ground (arith, h)))

any-IsUnder :
    (cwd p : AbsolutePath) (bases : List (List ℕ))
    → any (assert_within p) (map (normalize cwd) bases) ≡ true
    → IsUnder cwd bases p
any-IsUnder cwd p [] h = absurd (true-ne-false (sym h))
any-IsUnder cwd p (b ∷ bases) h = elim (Bool-cases (assert_within p (normalize cwd b))) [
  | inl within ↦
      let (root, (rest, below)) = within-below p (normalize cwd b) within in
      record {
        before = [];
        base = b;
        after = bases;
        rest = rest;
        listed = refl;
        root = root;
        below = below;
      }
  | inr outside ↦
      let u = any-IsUnder cwd p bases (ground (arith, h, outside)) in
      record {
        before = b ∷ u.before;
        base = u.base;
        after = u.after;
        rest = u.rest;
        listed = ap (λ bs. b ∷ bs) u.listed;
        root = u.root;
        below = u.below;
      }
]

abbrev is_resolved : Resolution → Bool
is_resolved (resolved p) = true
is_resolved r = false

unresolved : {p : AbsolutePath} (r : Resolution) → is_resolved r ≡ false → r ≢ resolved p
unresolved r fails h = true-ne-false (sym (ap is_resolved h) ∙ fails)

gates :
    (a b c d : Bool) (q p : AbsolutePath)
    → (if a
        then empty_path
        else if b
        then no_bases
        else if not c
        then escapes
        else if d
        then missing
        else resolved q)
      ≡ resolved p
    → (q ≡ p) × (c ≡ true) × (d ≡ false)
gates true b c d q p h = absurd (unresolved empty_path refl h)
gates false true c d q p h = absurd (unresolved no_bases refl h)
gates false false false d q p h = absurd (unresolved escapes refl h)
gates false false true true q p h = absurd (unresolved missing refl h)
gates false false true false q p h = (cc, refl, refl)

must-exists : (must there : Bool) → (must && not there) ≡ false → (not must || there) ≡ true
must-exists false there h = refl
must-exists true true h = refl
must-exists true false h = sym h

-- A path that `safe_resolve` returns has only names as its parts, no `.`, no `..` and nothing empty,
-- and lies below one of the allowed bases at the same root. It exists where that was asked for. Its
-- text resolves to the same path again, in any working directory. The parts of the working directory
-- are names.
pub resolved_safe :
    (exists : AbsolutePath → Bool) (cwd elsewhere : AbsolutePath) (text : List ℕ)
    (bases : List (List ℕ)) (must_exist : Bool) (p : AbsolutePath)
    → IsNormal cwd
    → safe_resolve exists cwd (some text) bases must_exist ≡ resolved p
    → IsNormal p
      × IsUnder cwd bases p
      × ((not must_exist || exists p) ≡ true)
      × (normalize elsewhere (print p) ≡ p)
unfolding safe_resolve
resolved_safe exists cwd elsewhere text bases must_exist p names h =
    let q = normalize cwd text in
    let (same, within, there) =
      gates (is_empty (strip text)) (is_empty bases)
        (any (assert_within q) (map (normalize cwd) bases)) (must_exist && not (exists q)) q p h in
    let normal : IsNormal p = subst IsNormal same (normalize-IsNormal cwd text names) in
    (
      normal,
      subst (IsUnder cwd bases) same (any-IsUnder cwd q bases within),
      subst (λ r. (not must_exist || exists r) ≡ true) same
          (must-exists must_exist (exists q) there),
      normalize-print elsewhere p normal,
    )
