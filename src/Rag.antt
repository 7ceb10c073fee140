-- ===== src/Rag.antt =====
-- rag.py: `DocumentChunker`, which packs the sentences of a text into overlapping chunks. Texts are
-- their code points. The hash that makes the id of a chunk is a parameter.
pub mod Coverage
pub mod Store
pub mod Isolation
pub mod Collision
mod Tests
use vela_flow_public.Prelude.{
  ℕ, suc, ◌+◌, ◌*◌, String, Bool, true, false, not, ◌&&◌, ◌||◌, List, [], ◌∷◌, ◌++◌, length, ltb,
  ◌==◌, if◌then◌else◌,
}
use vela_flow_public.Prelude.Text.{is_space, strip}
use mathlib.Core.List.{reverse}

abbrev pub Sentence : Type 0
Sentence = List ℕ

-- where the scan of `re.split(r"(?<=[.!?])\s+", text)` stands: behind a mark that ends a sentence,
-- in the white space that follows one, or elsewhere
pub data Scan : Type 0 where
  inside ended skipping : Scan

abbrev is_mark : ℕ → Bool
is_mark c = c == 46 || c == 33 || c == 63

abbrev pub prepend : ℕ → List Sentence → List Sentence
prepend c [] = (c ∷ []) ∷ []
prepend c (s ∷ ss) = (c ∷ s) ∷ ss

unfoldable pub split_from : Scan → List ℕ → List Sentence
split_from scan [] = [] ∷ []
split_from scan (c ∷ text) = elim (is_space c) [
  | false ↦ prepend c (split_from (if is_mark c then ended else inside) text)
  | true ↦ elim scan [
    | inside ↦ prepend c (split_from inside text)
    | ended ↦ [] ∷ split_from skipping text
    | skipping ↦ split_from skipping text
  ]
]

unfoldable pub split_sentences : List ℕ → List Sentence
unfolding split_from
split_sentences text = split_from inside text

-- `" ".join(sentences)`
unfoldable pub join : List Sentence → List ℕ
join [] = []
join (s ∷ []) = s
join (s ∷ t ∷ ss) = s ++ (32 ∷ join (t ∷ ss))

-- the loop over `reversed(current)` that keeps the last sentences for the next chunk
unfoldable pub carry : ℕ → List Sentence → List Sentence → List Sentence
unfolding join
carry overlap [] kept = kept
carry overlap (s ∷ before) kept = elim (ltb overlap (length (join kept) + length s)) [
  | true ↦ kept
  | false ↦ carry overlap before (s ∷ kept)
]

abbrev pub is_empty {ℓ} : {A : Type ℓ} → List A → Bool
is_empty [] = true
is_empty (x ∷ xs) = false

-- whether the chunk is closed before a sentence of some length: `current_len + sentence_len >
-- chunk_size and current`
abbrev pub is_full : ℕ → ℕ → List Sentence → Bool
is_full size total current = ltb size total && not (is_empty current)

-- the loop over the sentences, with `current` and `current_len`; a chunk is its sentences
unfoldable pub pack : ℕ → ℕ → List Sentence → List Sentence → ℕ → List (List Sentence)
unfolding carry
pack size overlap [] current len = if is_empty current then [] else current ∷ []
pack size overlap (s ∷ rest) current len = elim (is_full size (len + length s) current) [
  | true ↦
      let kept = carry overlap (reverse current) [] in
      current ∷ pack size overlap rest (kept ++ s ∷ []) (length (join kept) + length s)
  | false ↦ pack size overlap rest (current ++ s ∷ []) (len + length s)
]

-- the length of a text in UTF-8
unfoldable pub utf8_length : List ℕ → ℕ
utf8_length [] = 0
utf8_length (c ∷ text) =
    (if ltb c 128 then 1 else if ltb c 2048 then 2 else if ltb c 65536 then 3 else 4)
    + utf8_length text

abbrev pub max_document_size_bytes : ℕ
max_document_size_bytes = 5 * 1024 * 1024

pub record DocumentChunk (M F : Type 0) : Type 0 where
  pub chunk_id : String
  pub document_id : String
  pub tenant_id : String
  pub content : List ℕ
  pub metadata : M
  pub embedding : List F

-- How a call ends: with its value, a `ValueError` or a `PermissionError`.
pub data Result (A : Type 0) : Type 0 where
  ok : A → Result A
  value_error permission_error : Result A

pub record DocumentChunker : Type 0 where
  pub chunk_size : ℕ
  pub overlap : ℕ

-- `DocumentChunker.__init__`
unfoldable pub new_chunker : ℕ → ℕ → Result DocumentChunker
new_chunker size overlap =
    if ltb overlap size then ok (record { chunk_size = size; overlap = overlap }) else value_error

module _ {M F : Type 0} (make_chunk_id : String → ℕ → String) where
  unfoldable pub number : String → String → M → ℕ → List (List Sentence) → List (DocumentChunk M F)
  unfolding join
  number document tenant metadata i [] = []
  number document tenant metadata i (c ∷ cs) =
      record {
        chunk_id = make_chunk_id document i;
        document_id = document;
        tenant_id = tenant;
        content = join c;
        metadata = metadata;
        embedding = [];
      }
      ∷ number document tenant metadata (suc i) cs

  unfoldable pub chunk :
      DocumentChunker → List ℕ → String → String → M → Result (List (DocumentChunk M F))
  chunk chunker text document tenant metadata =
      let chunks = pack chunker.chunk_size chunker.overlap (split_sentences (strip text)) [] 0 in
      if is_empty (strip text)
      then ok []
      else if ltb max_document_size_bytes (utf8_length text)
      then value_error
      else ok (number document tenant metadata 0 chunks)
