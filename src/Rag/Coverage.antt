-- ===== src/Rag/Coverage.antt =====
-- What the chunks of a text are: every sentence in order, each chunk beginning with a bounded run
-- of the last sentences of the one before.
use mathlib.Core.List.{reverse, reverse-reverse, reverse-cons, append_assoc, append-nil}
use vela_flow_public.Prelude.{
  ℕ, ◌+◌, ◌≤◌, ◌≡◌, ◌∙◌, sym, ap, refl, true, false, not, inr, max, ◌⊎◌, List, [], ◌∷◌, ◌++◌,
  length, length-append, All, keep, ltb, arith, subst,
}
use vela_flow_public.Prelude.Text.{is_space}
use vela_flow_public.Rag.{
  Scan, inside, ended, skipping, prepend, split_from, split_sentences, Sentence, join, carry,
  is_empty, is_full, pack,
}

abbrev IsSuffix : List Sentence → List Sentence → Type 0
IsSuffix old all = (before : List Sentence) × (before ++ old ≡ all)

-- Chunks that cover some sentences, after a chunk `last`: each is a suffix of the chunk before, of
-- at most `overlap + 1` characters, and then at least one new sentence.
abbrev pub Covers : ℕ → List Sentence → List Sentence → List (List Sentence) → Type 0
Covers overlap last sentences [] = sentences ≡ []
Covers overlap last sentences (c ∷ cs) =
    (old : List Sentence) × (fresh : List Sentence) × (later : List Sentence) × (c ≡ old ++ fresh)
    × IsSuffix old last
    × (length (join old) ≤ overlap + 1)
    × (is_empty fresh ≡ false)
    × (sentences ≡ fresh ++ later)
    × Covers overlap c later cs

length-join-cons :
    (s : Sentence) (ss : List Sentence) → length (join (s ∷ ss)) ≤ length s + 1 + length (join ss)
unfolding join
length-join-cons s [] = omega arith
length-join-cons s (t ∷ ss) = omega (arith, length-append s (32 ∷ join (t ∷ ss)))

carry-join :
    (overlap : ℕ) (before kept : List Sentence)
    → length (join kept) ≤ overlap + 1
    → length (join (carry overlap before kept)) ≤ overlap + 1
unfolding carry
carry-join overlap [] kept h = h
carry-join overlap (s ∷ before) kept h =
    ground (arith, carry-join overlap before (s ∷ kept), length-join-cons s kept)

carry-IsSuffix :
    (overlap : ℕ) (before kept all : List Sentence)
    → reverse before ++ kept ≡ all
    → IsSuffix (carry overlap before kept) all
unfolding carry
carry-IsSuffix overlap [] kept all h = ([], h)
carry-IsSuffix overlap (s ∷ before) kept all h =
    let moved : reverse before ++ (s ∷ kept) ≡ all =
      sym (append_assoc (reverse before) (s ∷ []) kept)
      ∙ ap (λ (r : List Sentence). r ++ kept) (sym (reverse-cons s before))
      ∙ h in
    elim (ltb overlap (length (join kept) + length s))
      as (λ b. IsSuffix (elim b [ true ↦ kept | false ↦ carry overlap before (s ∷ kept) ]) all) [
        | true ↦ (reverse (s ∷ before), h)
        | false ↦ carry-IsSuffix overlap before (s ∷ kept) all moved
      ]

carried-IsSuffix :
    (overlap : ℕ) (current : List Sentence) → IsSuffix (carry overlap (reverse current) []) current
carried-IsSuffix overlap current =
    carry-IsSuffix overlap (reverse current) [] current
      (append-nil (reverse (reverse current)) ∙ reverse-reverse current)

is_empty-append :
    (old fresh : List Sentence) → is_empty fresh ≡ false → is_empty (old ++ fresh) ≡ false
is_empty-append [] fresh h = h
is_empty-append (s ∷ old) fresh h = refl

pack-Covers_from :
    (size overlap : ℕ) (rest old fresh last : List Sentence) (len : ℕ)
    → IsSuffix old last
    → length (join old) ≤ overlap + 1
    → is_empty fresh ≡ false
    → Covers overlap last (fresh ++ rest) (pack size overlap rest (old ++ fresh) len)
unfolding pack
pack-Covers_from size overlap [] old fresh last len suffix short new =
    rw (is_empty-append old fresh new) (old, fresh, [], refl, suffix, short, new, refl, refl)
pack-Covers_from size overlap (s ∷ rest) old fresh last len suffix short new =
    let kept = carry overlap (reverse (old ++ fresh)) [] in
    let extended : Covers overlap last (fresh ++ s ∷ rest)
        (pack size overlap rest ((old ++ fresh) ++ s ∷ []) (len + length s)) =
      subst
        (λ c. Covers overlap last (fresh ++ s ∷ rest) (pack size overlap rest c (len + length s)))
        (sym (append_assoc old fresh (s ∷ [])))
        (subst
          (λ r.
            Covers overlap last r
              (pack size overlap rest (old ++ (fresh ++ s ∷ [])) (len + length s)))
          (append_assoc fresh (s ∷ []) rest)
          (pack-Covers_from size overlap rest old (fresh ++ s ∷ []) last (len + length s) suffix
            short (is_empty-append fresh (s ∷ []) refl))) in
    elim (is_full size (len + length s) (old ++ fresh))
      as (λ b. Covers overlap last (fresh ++ s ∷ rest) (elim b [
        | true ↦
            (old ++ fresh) ∷ pack size overlap rest (kept ++ s ∷ []) (length (join kept) + length s)
        | false ↦ pack size overlap rest ((old ++ fresh) ++ s ∷ []) (len + length s)
      ])) [
        | true ↦ (
          old,
          fresh,
          s ∷ rest,
          refl,
          suffix,
          short,
          new,
          refl,
          pack-Covers_from size overlap rest kept (s ∷ []) (old ++ fresh)
              (length (join kept) + length s) (carried-IsSuffix overlap (old ++ fresh))
              (carry-join overlap (reverse (old ++ fresh)) [] (omega arith)) refl,
        )
        | false ↦ extended
      ]

-- The chunks of a text's sentences hold every sentence, in order, and no other: each chunk begins
-- with some last sentences of the one before, of at most `overlap + 1` characters with the spaces
-- between them, and goes on with at least one further sentence of the text.
pub pack-Covers :
    (size overlap : ℕ) (sentences : List Sentence)
    → Covers overlap [] sentences (pack size overlap sentences [] 0)
unfolding pack
pack-Covers size overlap [] = refl
pack-Covers size overlap (s ∷ rest) = ground (
  arith,
  pack-Covers_from size overlap rest [] (s ∷ []) [] (length s) ([], refl) (omega arith) refl,
)

-- the characters of the sentences of a chunk, without the spaces between them
abbrev pub total : List Sentence → ℕ
total [] = 0
total (s ∷ ss) = length s + total ss

total-append : (xs ys : List Sentence) → total (xs ++ ys) ≡ total xs + total ys
total-append [] ys = omega arith
total-append (s ∷ xs) ys = omega (arith, total-append xs ys)

total-le-join : (ss : List Sentence) → total ss ≤ length (join ss)
unfolding join
total-le-join [] = omega arith
total-le-join (s ∷ []) = omega arith
total-le-join (s ∷ t ∷ ss) =
    omega (arith, total-le-join (t ∷ ss), length-append s (32 ∷ join (t ∷ ss)))

module _ (size overlap longest : ℕ) where
  abbrev limit : ℕ
  limit = max size (overlap + 1 + longest)

  pack-Bounded :
      (rest current : List Sentence) (len : ℕ)
      → All (λ s. length s ≤ longest) rest
      → total current ≤ len
      → len ≤ limit
      → (is_empty current ≡ false) ⊎ (len ≡ 0)
      → All (λ c. total c ≤ limit) (pack size overlap rest current len)
  unfolding pack
  pack-Bounded [] current len short counted within begun = ground arith
  pack-Bounded (s ∷ rest) current len short counted within begun =
      let kept = carry overlap (reverse current) [] in
      ground (
        arith,
        pack-Bounded rest (kept ++ s ∷ []) (length (join kept) + length s) short.1,
        pack-Bounded rest (current ++ s ∷ []) (len + length s) short.1,
        total-append kept (s ∷ []),
        total-append current (s ∷ []),
        total-le-join kept,
        carry-join overlap (reverse current) [] (omega arith),
        is_empty-append kept (s ∷ []) refl,
        is_empty-append current (s ∷ []) refl,
        short.0,
      )

-- If no sentence is longer than `longest`, then no chunk has more characters in its sentences than
-- the chunk size, or than the overlap, a space and one longest sentence where that is more.
pub pack-bounded :
    (size overlap longest : ℕ) (sentences : List Sentence)
    → All (λ s. length s ≤ longest) sentences
    → All (λ c. total c ≤ max size (overlap + 1 + longest)) (pack size overlap sentences [] 0)
pack-bounded size overlap longest sentences short =
    pack-Bounded size overlap longest sentences [] 0 short (omega arith) (omega arith) (inr refl)

-- the characters of a text that are no white space
abbrev pub solid : List ℕ → List ℕ
solid text = keep (λ c. not (is_space c)) text

abbrev pub flat : List Sentence → List ℕ
flat [] = []
flat (s ∷ ss) = s ++ flat ss

flat-prepend : (c : ℕ) (ss : List Sentence) → flat (prepend c ss) ≡ c ∷ flat ss
flat-prepend c [] = refl
flat-prepend c (s ∷ ss) = refl

split_from-solid : (scan : Scan) (text : List ℕ) → solid (flat (split_from scan text)) ≡ solid text
unfolding split_from
split_from-solid scan [] = refl
split_from-solid inside (c ∷ text) = ground (
  arith,
  split_from-solid inside text,
  split_from-solid ended text,
  flat-prepend c (split_from inside text),
  flat-prepend c (split_from ended text),
)
split_from-solid ended (c ∷ text) = ground (
  arith,
  split_from-solid inside text,
  split_from-solid ended text,
  split_from-solid skipping text,
  flat-prepend c (split_from inside text),
  flat-prepend c (split_from ended text),
)
split_from-solid skipping (c ∷ text) = ground (
  arith,
  split_from-solid inside text,
  split_from-solid ended text,
  split_from-solid skipping text,
  flat-prepend c (split_from inside text),
  flat-prepend c (split_from ended text),
)

-- The sentences of a text hold all its characters but white space, in order.
pub split_sentences-solid : (text : List ℕ) → solid (flat (split_sentences text)) ≡ solid text
unfolding split_sentences
split_sentences-solid text = split_from-solid inside text
