-- ===== src/Paths/Normal.antt =====
-- Normal paths: what `_normalize` returns, and the round trip through its text.
use mathlib.Core.List.{append-nil, append_assoc}
use vela_flow_public.Prelude.{
  ℕ, ◌≡◌, ◌≢◌, ◌∙◌, sym, ap, refl, Bool, true, false, List, [], ◌∷◌, ◌++◌, keep, any, All,
  All-append, All-mono, ◌==◌, if◌then◌else◌, Bool-cases, inl, inr, arith,
}
use vela_flow_public.Paths.{
  Part, AbsolutePath, push, split_slash, is_named, is_up, components, drop_last, collapse,
  is_absolute, has_two_slashes, normalize, print_parts, print,
}

pub true-ne-false : true ≢ false
true-ne-false h = cc

-- a part of a normal path: a name without slashes that is not `.` or `..`
abbrev pub has_slash : Part → Bool
has_slash p = any (λ c. c == 47) p

pub record IsName (p : Part) : Type 0 where
  pub named : is_named p ≡ true
  pub down : is_up p ≡ false
  pub solid : has_slash p ≡ false

abbrev pub IsNormal : AbsolutePath → Type 0
IsNormal p = All IsName p.parts

-- the parts before `..` is taken away
record IsPiece (p : Part) : Type 0 where
  pub named : is_named p ≡ true
  pub solid : has_slash p ≡ false

push-solid :
    (c : ℕ) (ps : List Part)
    → (c == 47) ≡ false
    → All (λ p. has_slash p ≡ false) ps
    → All (λ p. has_slash p ≡ false) (push c ps)
push-solid c [] h all = (ground arith, tt)
push-solid c (p ∷ ps) h all = (ground (arith, all.0), all.1)

split-solid : (text : List ℕ) → All (λ p. has_slash p ≡ false) (split_slash text)
unfolding split_slash
split-solid [] = (refl, tt)
split-solid (c ∷ cs) =
    elim (Bool-cases (c == 47))
      as (λ _.
        All (λ p. has_slash p ≡ false)
          (if c == 47 then [] ∷ split_slash cs else push c (split_slash cs))) [
            | inl same ↦ rw same (refl, split-solid cs)
            | inr other ↦ rw other (push-solid c (split_slash cs) other (split-solid cs))
          ]

keep-IsPiece : (ps : List Part) → All (λ p. has_slash p ≡ false) ps → All IsPiece (keep is_named ps)
keep-IsPiece [] all = tt
keep-IsPiece (p ∷ ps) all = elim (Bool-cases (is_named p)) [
  | inl named ↦ rw named (record { named = named; solid = all.0 }, keep-IsPiece ps all.1)
  | inr trivial ↦ rw trivial (keep-IsPiece ps all.1)
]

components-IsPiece : (text : List ℕ) → All IsPiece (components text)
unfolding components
components-IsPiece text = keep-IsPiece (split_slash text) (split-solid text)

drop_last-All : (P : Part → Type 0) (ps : List Part) → All P ps → All P (drop_last ps)
unfolding drop_last
drop_last-All P [] all = tt
drop_last-All P (p ∷ []) all = tt
drop_last-All P (p ∷ q ∷ ps) all = (all.0, drop_last-All P (q ∷ ps) all.1)

collapse-IsName :
    (done ps : List Part) → All IsName done → All IsPiece ps → All IsName (collapse done ps)
unfolding collapse
collapse-IsName done [] names pieces = names
collapse-IsName done (p ∷ ps) names pieces = elim (Bool-cases (is_up p)) [
  | inl up ↦ rw up (collapse-IsName (drop_last done) ps (drop_last-All IsName done names) pieces.1)
  | inr down ↦
      let new : IsName p = record { named = pieces.0.named; down = down; solid = pieces.0.solid } in
      rw down (
        collapse-IsName (done ++ p ∷ []) ps (All-append IsName done (p ∷ []) names (new, tt))
          pieces.1)
]

IsPiece-name : (p : Part) → IsName p → IsPiece p
IsPiece-name p n = record { named = n.named; solid = n.solid }

pub normalize-IsNormal :
    (cwd : AbsolutePath) (text : List ℕ) → IsNormal cwd → IsNormal (normalize cwd text)
unfolding normalize
normalize-IsNormal cwd text normal = elim (Bool-cases (is_absolute text)) [
  | inl here ↦ rw here (collapse-IsName [] (components text) tt (components-IsPiece text))
  | inr there ↦ rw there (
      collapse-IsName [] (cwd.parts ++ components text) tt (
        All-append IsPiece cwd.parts (components text)
          (All-mono IsName IsPiece cwd.parts IsPiece-name normal) (components-IsPiece text)))
]

-- names are kept as they are
pub collapse-names :
    (done ps : List Part) → All (λ p. is_up p ≡ false) ps → collapse done ps ≡ done ++ ps
unfolding collapse
collapse-names done [] down = sym (append-nil done)
collapse-names done (p ∷ ps) down =
    rw down.0 (collapse-names (done ++ p ∷ []) ps down.1 ∙ append_assoc done (p ∷ []) ps)

split-part :
    (p : Part) (rest : List ℕ)
    → has_slash p ≡ false
    → split_slash (p ++ 47 ∷ rest) ≡ p ∷ split_slash rest
unfolding split_slash
split-part [] rest solid = refl
split-part (c ∷ p) rest solid = ground (arith, split-part p rest)

split-last : (p : Part) → has_slash p ≡ false → split_slash p ≡ p ∷ []
unfolding split_slash
split-last [] solid = refl
split-last (c ∷ p) solid = ground (arith, split-last p)

components-print : (ps : List Part) → All IsName ps → components (print_parts ps) ≡ ps
unfolding components print_parts
components-print [] names = unfold split_slash in refl
components-print (p ∷ []) names =
    ap (keep is_named) (split-last p names.0.solid) ∙ rw names.0.named refl
components-print (p ∷ q ∷ ps) names =
    ap (keep is_named) (split-part p (print_parts (q ∷ ps)) names.0.solid)
    ∙ rw names.0.named (ap (λ t. p ∷ t) (components-print (q ∷ ps) names.1))

not_absolute : (ps : List Part) → All IsName ps → is_absolute (print_parts ps) ≡ false
unfolding print_parts
not_absolute [] names = refl
not_absolute ([] ∷ ps) names = absurd (true-ne-false (sym names.0.named))
not_absolute ((c ∷ p) ∷ []) names = ground (arith, names.0.solid)
not_absolute ((c ∷ p) ∷ q ∷ ps) names = ground (arith, names.0.solid)

one_slash : (t : List ℕ) → is_absolute t ≡ false → has_two_slashes (47 ∷ t) ≡ false
one_slash [] h = refl
one_slash (c ∷ t) h = ground (arith, h)

components-slashes :
    (b : Bool) (t : List ℕ) → components (47 ∷ ((if b then 47 ∷ [] else []) ++ t)) ≡ components t
unfolding components split_slash
components-slashes true t = refl
components-slashes false t = refl

slashes_told :
    (b : Bool) (t : List ℕ)
    → is_absolute t ≡ false
    → has_two_slashes (47 ∷ ((if b then 47 ∷ [] else []) ++ t)) ≡ b
slashes_told true t h = rw h refl
slashes_told false t h = one_slash t h

pub downs : (ps : List Part) → All IsName ps → All (λ p. is_up p ≡ false) ps
downs ps names = All-mono IsName (λ p. is_up p ≡ false) ps (λ p n. n.down) names

-- a normal path is what its text resolves to, in any working directory
pub normalize-print : (cwd p : AbsolutePath) → IsNormal p → normalize cwd (print p) ≡ p
unfolding normalize print
normalize-print cwd p names =
    let t = print_parts p.parts in
    let flag : has_two_slashes (print p) ≡ p.is_double =
      slashes_told p.is_double t (not_absolute p.parts names) in
    let parts : collapse [] (components (print p)) ≡ p.parts =
      ap (collapse []) (components-slashes p.is_double t ∙ components-print p.parts names)
      ∙ collapse-names [] p.parts (downs p.parts names) in
    ap (λ b. record { is_double = b; parts = collapse [] (components (print p)) }) flag
    ∙ ap (λ q. record { is_double = p.is_double; parts = q }) parts
