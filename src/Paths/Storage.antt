-- ===== src/Paths/Storage.antt =====
-- The keys of the local storage.
use mathlib.Core.List.{append-nil, append_assoc}
use vela_flow_public.Prelude.{
  ℕ, ◌≡◌, ◌∙◌, sym, ap, refl, true, false, none, some, List, [], ◌∷◌, ◌++◌, any, All, All-append,
  if◌then◌else◌, Bool-cases, inl, inr, arith,
}
use vela_flow_public.Prelude.Text.{is_prefix}
use vela_flow_public.Paths.{
  Part, is_up, components, collapse, is_absolute, normalize, print_parts, print, with_slashes, at,
  resolve_key,
}
use vela_flow_public.Paths.Normal.{IsName, collapse-names, downs}

prefix-append : (s t : List ℕ) → is_prefix s (s ++ t) ≡ true
unfolding is_prefix
prefix-append [] t = refl
prefix-append (c ∷ s) t = ground (arith, prefix-append s t)

-- the text of a longer path begins with that of a shorter one
print-append :
    (bs ps : List Part) → (rest : List ℕ) × (print_parts (bs ++ ps) ≡ print_parts bs ++ rest)
unfolding print_parts
print-append [] ps = (print_parts ps, refl)
print-append (b ∷ []) [] = ([], sym (append-nil b))
print-append (b ∷ []) (p ∷ ps) = (47 ∷ print_parts (p ∷ ps), refl)
print-append (b ∷ c ∷ bs) ps =
    let (rest, e) = print-append (c ∷ bs) ps in
    (rest, ap (λ t. b ++ 47 ∷ t) e ∙ sym (append_assoc b (47 ∷ print_parts (c ∷ bs)) rest))

print-prefix : (bs ps : List Part) → is_prefix (print (at bs)) (print (at (bs ++ ps))) ≡ true
unfolding print
print-prefix bs ps =
    let (rest, e) = print-append bs ps in
    ap (λ t. is_prefix (47 ∷ print_parts bs) (47 ∷ t)) e ∙ prefix-append (47 ∷ print_parts bs) rest

no_up : (ps : List Part) → any is_up ps ≡ false → All (λ p. is_up p ≡ false) ps
no_up [] h = tt
no_up (p ∷ ps) h = (ground (arith, h), no_up ps (ground (arith, h)))

found_at :
    (base : List Part) (clean : List ℕ)
    → All IsName base
    → is_absolute clean ≡ false
    → any is_up (components clean) ≡ false
    → (normalize (at base) clean).parts ≡ base ++ components clean
unfolding normalize
found_at base clean names relative straight =
    ap (λ b. collapse [] (if b then components clean else base ++ components clean)) relative
    ∙ collapse-names [] (base ++ components clean) (
        All-append (λ p. is_up p ≡ false) base (components clean) (downs base names)
          (no_up (components clean) straight))

-- A key that is not an absolute path is refused if a part of it is `..`, also between backslashes;
-- otherwise it resolves to its parts below the base directory.
pub relative_exact :
    (base : List Part) (key : List ℕ)
    → All IsName base
    → is_absolute (with_slashes key) ≡ false
    → resolve_key base key ≡ (
        if any is_up (components (with_slashes key))
        then none
        else some (base ++ components (with_slashes key)))
unfolding resolve_key
relative_exact base key names relative =
    let clean = with_slashes key in
    elim (Bool-cases (any is_up (components clean))) [
      | inl up ↦ ground (arith, up)
      | inr straight ↦
          let e = found_at base clean names relative straight in
          ground (
            arith,
            straight,
            e,
            ap (λ ps. is_prefix (print (at base)) (print (at ps))) e
                ∙ print-prefix base (components clean),
          )
    ]
