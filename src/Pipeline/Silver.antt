-- ===== src/Pipeline/Silver.antt =====
-- Which raw tasks the silver layer keeps, and how large a clean task can be.
use vela_flow_public.Prelude.{
  ℕ, suc, ◌+◌, ◌≤◌, ◌≡◌, ◌∙◌, ap, refl, subst, String, Bool, true, false, not, ◌&&◌, Option, none,
  some, List, [], ◌∷◌, ◌++◌, map, any, take, length, length-take-le, All, str_eq, eq_iff, eq_refl,
  arith, if◌then◌else◌, Bool-cases, Option-cases, inl, inr,
}
use vela_flow_public.Prelude.Keys.{has, IsDistinct, has-append}
use vela_flow_public.Dict.{Dict}
use vela_flow_public.Pipeline.{
  RawTask, CleanTask, ValidTask, validate, texts, safe_labels, Detector, normalize, process_todoist,
}

abbrev pub ids : List ValidTask → List String
ids [] = []
ids (v ∷ vs) = v.id ∷ ids vs

-- a raw task that has an id and a content, and the given id
abbrev pub is_valid_as : String → RawTask → Bool
is_valid_as id raw = elim raw.id [
  | none ↦ false
  | some i ↦ elim raw.content [ none ↦ false | some content ↦ str_eq i id ]
]

-- what one round of the loop keeps
abbrev taken : List String → RawTask → Option ValidTask
taken seen raw = elim raw.id [
  | none ↦ none
  | some id ↦ elim raw.content [
    | none ↦ none
    | some content ↦
        if has id seen then none else some (record { id = id; content = content; raw = raw })
  ]
]

validate-skip :
    (seen : List String) (raw : RawTask) (rest : List RawTask)
    → taken seen raw ≡ none
    → validate seen (raw ∷ rest) ≡ ((validate seen rest).0, suc (validate seen rest).1)
unfolding validate
validate-skip seen raw rest h = ground arith

validate-take :
    (seen : List String) (raw : RawTask) (rest : List RawTask) (v : ValidTask)
    → taken seen raw ≡ some v
    → validate seen (raw ∷ rest)
      ≡ (v ∷ (validate (seen ++ v.id ∷ []) rest).0, (validate (seen ++ v.id ∷ []) rest).1)
unfolding validate
validate-take seen raw rest v h = ground arith

skip-seen :
    (seen : List String) (raw : RawTask) (id : String)
    → taken seen raw ≡ none
    → is_valid_as id raw ≡ true
    → has id seen ≡ true
skip-seen seen raw id h valid = elim (Option-cases raw.id) [
  | inl missing ↦ ground arith
  | inr (i, e) ↦
      let (same, old) = named i e h valid in
      subst (λ k. has k seen ≡ true) ((eq_iff i id).0 same) old
]
  where
    named :
        (i : String)
        → raw.id ≡ some i
        → taken seen raw ≡ none
        → is_valid_as id raw ≡ true
        → (str_eq i id ≡ true) × (has i seen ≡ true)
    named i e h valid = ground arith

take-new :
    (seen : List String) (raw : RawTask) (v : ValidTask) (id : String)
    → taken seen raw ≡ some v
    → (has v.id seen ≡ false) × (is_valid_as id raw ≡ str_eq v.id id)
take-new seen raw v id h = ground arith

validate-ids :
    (id : String) (seen : List String) (raws : List RawTask)
    → has id (ids (validate seen raws).0) ≡ (not (has id seen) && any (is_valid_as id) raws)
validate-ids id seen [] = unfold validate in ground arith
validate-ids id seen (raw ∷ rest) = elim (Option-cases (taken seen raw)) [
  | inl none_taken ↦ rw (validate-skip seen raw rest none_taken) (
      validate-ids id seen rest
      ∙ skip_case (has id seen) (is_valid_as id raw) (any (is_valid_as id) rest)
          (skip-seen seen raw id none_taken))
  | inr (v, kept) ↦
      let (new, valid) = take-new seen raw v id kept in
      rw (validate-take seen raw rest v kept)
        (take_case v.id (has id seen) new valid (validate-ids id (seen ++ v.id ∷ []) rest))
]
  where
    skip_case :
        (s v r : Bool) → (v ≡ true → s ≡ true) → (not s && r) ≡ (not s && (if v then true else r))
    skip_case s v r h = ground arith

    take_case :
        (i : String) (s : Bool)
        → has i seen ≡ false
        → is_valid_as id raw ≡ str_eq i id
        → has id (ids (validate (seen ++ i ∷ []) rest).0)
          ≡ (not (has id (seen ++ i ∷ [])) && any (is_valid_as id) rest)
        → (if str_eq i id then true else has id (ids (validate (seen ++ i ∷ []) rest).0))
          ≡ (not (has id seen) && (if is_valid_as id raw then true else any (is_valid_as id) rest))
    take_case i s new valid ih = elim (Bool-cases (str_eq i id)) [
      | inl same ↦
          rw (same, valid, same, subst (λ k. has k seen ≡ false) ((eq_iff i id).0 same) new) refl
      | inr other ↦ rw (ih, has-append id i seen, other, valid, other) (ground arith)
    ]

now_seen :
    (i : String) (seen : List String) (r : Bool) → (not (has i (seen ++ i ∷ [])) && r) ≡ false
now_seen i seen r = ground (arith, has-append i i seen, eq_refl i)

validate-IsDistinct :
    (seen : List String) (raws : List RawTask) → IsDistinct (ids (validate seen raws).0)
validate-IsDistinct seen [] = unfold validate in tt
validate-IsDistinct seen (raw ∷ rest) = elim (Option-cases (taken seen raw)) [
  | inl none_taken ↦ rw (validate-skip seen raw rest none_taken) (validate-IsDistinct seen rest)
  | inr (v, kept) ↦ rw (validate-take seen raw rest v kept) (
    validate-ids v.id (seen ++ v.id ∷ []) rest ∙ now_seen v.id seen (any (is_valid_as v.id) rest),
    validate-IsDistinct (seen ++ v.id ∷ []) rest,
  )
]

validate-counts :
    (seen : List String) (raws : List RawTask)
    → length (validate seen raws).0 + (validate seen raws).1 ≡ length raws
validate-counts seen [] = unfold validate in omega arith
validate-counts seen (raw ∷ rest) = elim (Option-cases (taken seen raw)) [
  | inl none_taken ↦
      rw (validate-skip seen raw rest none_taken) (omega (arith, validate-counts seen rest))
  | inr (v, kept) ↦
      rw (validate-take seen raw rest v kept)
        (omega (arith, validate-counts (seen ++ v.id ∷ []) rest))
]

abbrev pub clean_ids : List CleanTask → List String
clean_ids [] = []
clean_ids (t ∷ ts) = t.id ∷ clean_ids ts

-- Labels are few and short.
abbrev pub HasShortLabels : CleanTask → Type 0
HasShortLabels t = (length t.labels ≤ 20) × All (λ l. length l ≤ 100) t.labels

length-texts : (ls : List (Option (List ℕ))) → length (texts ls) ≤ length ls
unfolding texts
length-texts [] = omega arith
length-texts (none ∷ ls) = omega (arith, length-texts ls)
length-texts (some l ∷ ls) = omega (arith, length-texts ls)

texts-short : (ls : List (Option (List ℕ))) → All (λ l. length l ≤ 100) (texts ls)
unfolding texts
texts-short [] = tt
texts-short (none ∷ ls) = texts-short ls
texts-short (some l ∷ ls) = (length-take-le 100 l, texts-short ls)

safe_labels-bounds :
    (ls : Option (List (Option (List ℕ))))
    → (length (safe_labels ls) ≤ 20) × All (λ l. length l ≤ 100) (safe_labels ls)
unfolding safe_labels
safe_labels-bounds none = (omega arith, tt)
safe_labels-bounds (some ls) =
    (omega (arith, length-texts (take 20 ls), length-take-le 20 ls), texts-short (take 20 ls))

module _ (pii : Detector) (projects sections : Dict String) where
  clean-ids : (vs : List ValidTask) → clean_ids (map (normalize pii projects sections) vs) ≡ ids vs
  unfolding normalize
  clean-ids [] = refl
  clean-ids (v ∷ vs) = ap (λ l. v.id ∷ l) (clean-ids vs)

  clean-labels :
      (vs : List ValidTask) → All HasShortLabels (map (normalize pii projects sections) vs)
  unfolding normalize
  clean-labels [] = tt
  clean-labels (v ∷ vs) = (safe_labels-bounds v.raw.labels, clean-labels vs)

  -- The clean tasks have distinct ids; an id is among them exactly where some raw task with a content
  -- has it; and every clean task has at most 20 labels of at most 100 characters.
  pub process_todoist-clean :
      (id : String) (raws : List RawTask)
      → let tasks = process_todoist pii projects sections raws in
        IsDistinct (clean_ids tasks)
        × (has id (clean_ids tasks) ≡ any (is_valid_as id) raws)
        × All HasShortLabels tasks
  unfolding process_todoist
  process_todoist-clean id raws =
      let kept = (validate [] raws).0 in
      rw (clean-ids kept)
        (validate-IsDistinct [] raws, validate-ids id [] raws ∙ refl, clean-labels kept)

  length-clean :
      (vs : List ValidTask) → length (map (normalize pii projects sections) vs) ≡ length vs
  length-clean [] = refl
  length-clean (v ∷ vs) = ap suc (length-clean vs)

  -- Every raw task is either cleaned or counted as dropped.
  pub process_todoist-counts :
      (raws : List RawTask)
      → length (process_todoist pii projects sections raws) + (validate [] raws).1 ≡ length raws
  unfolding process_todoist
  process_todoist-counts raws =
      omega (arith, length-clean (validate [] raws).0, validate-counts [] raws)
