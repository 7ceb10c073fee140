-- ===== src/ZeroTrust/Sanitizer.antt =====
-- security/zero_trust.py: `InputSanitizer`, on texts as lists of code points. A `ValueError` is
-- `none`.
use vela_flow_public.Prelude.{
  ℕ, suc, ◌≤◌, ◌≡◌, refl, Bool, true, false, not, ◌||◌, ◌&&◌, Option, none, some, List, [], ◌∷◌,
  ◌++◌, map, all, take, length, length-append, length-take-le, ltb, leb, ◌==◌, ◌⊎◌, inl, inr, All,
  arith, if◌then◌else◌, Bool-cases, subst, ap,
}

abbrev pub max_tenant_id_length : ℕ
max_tenant_id_length = 64

abbrev pub max_content_length : ℕ
max_content_length = 10000

abbrev pub max_label_length : ℕ
max_label_length = 100

abbrev pub max_labels_count : ℕ
max_labels_count = 50

-- a letter, a digit, `_` or `-`
unfoldable pub is_safe_char : ℕ → Bool
is_safe_char c =
    (leb 97 c && leb c 122)
    || (leb 65 c && leb c 90)
    || (leb 48 c && leb c 57)
    || (c == 95)
    || (c == 45)

-- what `$` matches: the end of the text, or the newline that ends it
abbrev is_at_end : List ℕ → Bool
is_at_end [] = true
is_at_end (c ∷ []) = c == 10
is_at_end (c ∷ d ∷ s) = false

-- the rest of `^[a-zA-Z0-9_\-]+$` after the first character of the class
unfoldable pub match_rest : List ℕ → Bool
unfolding is_safe_char
match_rest [] = true
match_rest (c ∷ s) = let rest = match_rest s in if is_safe_char c then rest else is_at_end (c ∷ s)

unfoldable pub is_safe_identifier : List ℕ → Bool
unfolding match_rest
is_safe_identifier [] = false
is_safe_identifier (c ∷ s) = is_safe_char c && match_rest s

-- `validate_tenant_id` and `validate_identifier` differ in the maximal length only
unfoldable pub validate_text : ℕ → List ℕ → Option (List ℕ)
unfolding is_safe_identifier
validate_text max_length s =
    if (length s == 0) || ltb max_length (length s)
    then none
    else if not (is_safe_identifier s)
    then none
    else some s

unfoldable pub validate_tenant_id : List ℕ → Option (List ℕ)
unfolding validate_text
validate_tenant_id s = validate_text max_tenant_id_length s

unfoldable pub validate_identifier : List ℕ → Option (List ℕ)
unfolding validate_text
validate_identifier s = validate_text 128 s

unfoldable pub validate_content : List ℕ → Option (List ℕ)
validate_content s = if ltb max_content_length (length s) then none else some s

unfoldable pub validate_labels : List (List ℕ) → Option (List (List ℕ))
validate_labels labels =
    if ltb max_labels_count (length labels) then none else some (map (take max_label_length) labels)

-- Characters that a tenant id may have but must not: every one is safe, or the text is safe but for
-- a newline at its end.
abbrev pub IsClean : List ℕ → Type 0
IsClean s =
    (all is_safe_char s ≡ true) ⊎ ((t : List ℕ) × (s ≡ t ++ 10 ∷ []) × (all is_safe_char t ≡ true))

cons-IsClean : (c : ℕ) (s : List ℕ) → is_safe_char c ≡ true → IsClean s → IsClean (c ∷ s)
cons-IsClean c s safe (inl h) = inl (rw safe h)
cons-IsClean c s safe (inr (t, e, h)) = inr (c ∷ t, ap (λ u. c ∷ u) e, rw safe h)

at_end-IsClean : (c : ℕ) (s : List ℕ) → is_at_end (c ∷ s) ≡ true → IsClean (c ∷ s)
at_end-IsClean c [] h = inr ([], ap (λ n. n ∷ []) (ground arith), refl)
at_end-IsClean c (d ∷ s) h = inl (ground arith)

match_rest-IsClean : (s : List ℕ) → match_rest s ≡ true → IsClean s
unfolding match_rest
match_rest-IsClean [] h = inl refl
match_rest-IsClean (c ∷ s) h = elim (Bool-cases (is_safe_char c)) [
  | inl safe ↦ cons-IsClean c s safe (
      match_rest-IsClean s
        (subst (λ b. (if b then match_rest s else is_at_end (c ∷ s)) ≡ true) safe h))
  | inr unsafe ↦
      at_end-IsClean c s
        (subst (λ b. (if b then match_rest s else is_at_end (c ∷ s)) ≡ true) unsafe h)
]

identifier-IsClean : (s : List ℕ) → is_safe_identifier s ≡ true → IsClean s
unfolding is_safe_identifier
identifier-IsClean [] h = inl refl
identifier-IsClean (c ∷ s) h =
    let (safe, rest) = both (is_safe_char c) (match_rest s) h in
    cons-IsClean c s safe (match_rest-IsClean s rest)
  where
    both : (a b : Bool) → (a && b) ≡ true → (a ≡ true) × (b ≡ true)
    both a b h = ground arith

text_accepted :
    (max_length : ℕ) (s t : List ℕ)
    → validate_text max_length s ≡ some t
    → (t ≡ s) × (1 ≤ length s) × (length s ≤ max_length) × (is_safe_identifier s ≡ true)
unfolding validate_text
text_accepted max_length s t h = ground arith

validate_text-accepts :
    (max_length : ℕ) (s t : List ℕ)
    → validate_text max_length s ≡ some t
    → (t ≡ s) × (1 ≤ length s) × (length s ≤ max_length) × IsClean s
validate_text-accepts max_length s t h =
    let (same, low, high, safe) = text_accepted max_length s t h in
    (same, low, high, identifier-IsClean s safe)

-- An accepted tenant id is returned unchanged, has between 1 and 64 characters, and has only
-- letters, digits, underscores and hyphens, except that it may end with one newline.
pub validate_tenant_id-IsClean :
    (s t : List ℕ)
    → validate_tenant_id s ≡ some t
    → (t ≡ s) × (1 ≤ length s) × (length s ≤ 64) × IsClean s
unfolding validate_tenant_id
validate_tenant_id-IsClean s t h =
    let (same, low, high, clean) = validate_text-accepts 64 s t h in (same, low, high, clean)

match_rest-newline : (s : List ℕ) → all is_safe_char s ≡ true → match_rest (s ++ 10 ∷ []) ≡ true
unfolding match_rest is_safe_char
match_rest-newline [] h = refl
match_rest-newline (c ∷ s) h = ground (arith, match_rest-newline s)

match_rest-safe : (s : List ℕ) → all is_safe_char s ≡ true → match_rest s ≡ true
unfolding match_rest
match_rest-safe [] h = refl
match_rest-safe (c ∷ s) h = ground (arith, match_rest-safe s)

-- Every text of 1 to 63 safe characters is accepted as a tenant id, and so is the same text with a
-- newline at its end.
pub trailing_newline :
    (c : ℕ) (s : List ℕ)
    → all is_safe_char (c ∷ s) ≡ true
    → length (c ∷ s) ≤ 63
    → (validate_tenant_id (c ∷ s) ≡ some (c ∷ s))
      × (validate_tenant_id (c ∷ s ++ 10 ∷ []) ≡ some (c ∷ s ++ 10 ∷ []))
unfolding validate_tenant_id validate_text is_safe_identifier
trailing_newline c s safe short =
    ground (arith, match_rest-safe s, match_rest-newline s, length-append s (10 ∷ []))

labels_accepted :
    (labels out : List (List ℕ))
    → validate_labels labels ≡ some out
    → (length labels ≤ 50) × (out ≡ map (take 100) labels)
unfolding validate_labels
labels_accepted labels out h = ground arith

-- Accepted labels are at most 50, each of at most 100 characters, and each a prefix of the label
-- that was given in its place.
pub validate_labels-bounds :
    (labels out : List (List ℕ))
    → validate_labels labels ≡ some out
    → (length out ≤ 50) × All (λ label. length label ≤ 100) out × (out ≡ map (take 100) labels)
validate_labels-bounds labels out h =
    let (few, same) = labels_accepted labels out h in
    (rw (same, length-map (take 100) labels) few, rw same (All-short labels), same)
  where
    length-map : (f : List ℕ → List ℕ) (xs : List (List ℕ)) → length (map f xs) ≡ length xs
    length-map f [] = refl
    length-map f (x ∷ xs) = ap suc (length-map f xs)

    All-short : (xs : List (List ℕ)) → All (λ label. length label ≤ 100) (map (take 100) xs)
    All-short [] = tt
    All-short (x ∷ xs) = (length-take-le 100 x, All-short xs)
