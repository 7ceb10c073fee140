-- ===== src/Rag/Tests.antt =====
-- A chunker and a table at work, and their theorems at concrete inputs.
use vela_flow_public.Prelude.{
  ℕ, ◌+◌, ◌≤◌, ◌≡◌, refl, max, String, List, [], ◌∷◌, keep, length, All, leb, arith,
}
use vela_flow_public.Prelude.Text.{codes, is_space, strip}
use vela_flow_public.Prelude.Sort.{sort}
use vela_flow_public.Dict.{Dict, insert}
use vela_flow_public.Rag.{
  split_from, split_sentences, join, carry, pack, utf8_length, DocumentChunk, DocumentChunker,
  number, chunk, Sentence,
}
use vela_flow_public.Rag.Coverage.{
  Covers, pack-Covers, total, pack-bounded, solid, flat, split_sentences-solid,
}
use vela_flow_public.Rag.Store.{
  Outside, store_chunks, is_document, count_documents, ingest, search, query,
}
use vela_flow_public.Rag.Isolation.{
  Request, ingest_document, delete, purge, serve, tenants_separate,
}
use vela_flow_public.Rag.Collision.{same_document_lost}

sentences :
    split_sentences (codes "One. Two!  Three") ≡ codes "One." ∷ codes "Two!" ∷ codes "Three" ∷ []
unfolding split_sentences split_from is_space
sentences = refl

abbrev four : List Sentence
four = codes "Aa." ∷ codes "Bb." ∷ codes "Cc." ∷ codes "Dd." ∷ []

packed :
    pack 7 3 four [] 0
    ≡ (codes "Aa." ∷ codes "Bb." ∷ [])
      ∷ (codes "Bb." ∷ codes "Cc." ∷ [])
      ∷ (codes "Cc." ∷ codes "Dd." ∷ [])
      ∷ []
unfolding pack carry join
packed = refl

pack-Covers_example : Covers 3 [] four (pack 7 3 four [] 0)
pack-Covers_example = pack-Covers 7 3 four

pack-bounded_example : All (λ c. total c ≤ max 7 (3 + 1 + 3)) (pack 7 3 four [] 0)
pack-bounded_example = pack-bounded 7 3 3 four (omega arith)

split_sentences-solid_example :
    solid (flat (split_sentences (codes "One. Two!  Three"))) ≡ solid (codes "One. Two!  Three")
split_sentences-solid_example = split_sentences-solid (codes "One. Two!  Three")

-- an embedding by length, and the document as the id of its only chunk
abbrev outside : Outside ℕ ℕ
outside = record {
  embed = λ text. length text ∷ [];
  similarity = λ a b. length a + length b;
  at_least = λ a b. leb b a;
  sanitize = λ text. text;
  make_chunk_id = λ document i. document;
}

abbrev chunker : DocumentChunker
chunker = record { chunk_size = 512; overlap = 64 }

abbrev no_rows : Dict (DocumentChunk String ℕ)
no_rows = []

abbrev after_a : Dict (DocumentChunk String ℕ)
after_a = (ingest outside chunker (codes "Mine.") "notes" "a" "" 5 no_rows).1

found_then_lost :
    (length (query outside (codes "?") "a" 5 after_a) ≡ 1)
    × (length (
          query outside
            (codes "?")
            "a"
            5
            (ingest outside chunker (codes "Yours.") "notes" "b" "" 5 after_a).1)
        ≡ 0)
unfolding query ingest chunk number store_chunks count_documents search sort split_sentences
    split_from is_space strip pack carry join utf8_length insert
found_then_lost = (refl, refl)

same_document_lost_example :
    keep
      (is_document "a" "notes")
      (ingest outside chunker (codes "Yours.") "notes" "b" "" 5 after_a).1
    ≡ []
unfolding ingest chunk number store_chunks count_documents split_sentences split_from is_space strip
    pack carry join utf8_length insert
same_document_lost_example =
    same_document_lost outside chunker "notes" "a" "b" (codes "Mine.") (codes "Yours.") "" "" 5 5 1
      1 no_rows tt refl refl refl refl (omega arith)

abbrev others : List (Request String)
others =
    record { tenant_id = "b"; action = ingest_document (codes "Yours.") "plans" "" 5 }
    ∷ record { tenant_id = "b"; action = delete "notes" }
    ∷ record { tenant_id = "c"; action = purge }
    ∷ []

tenants_separate_example :
    ((text : List ℕ) (top_k : ℕ)
      → query outside text "a" top_k (serve outside chunker others after_a)
        ≡ query outside text "a" top_k after_a)
    × (count_documents "a" (serve outside chunker others after_a) ≡ count_documents "a" after_a)
unfolding ingest chunk number store_chunks count_documents split_sentences split_from is_space strip
    pack carry join utf8_length insert
tenants_separate_example =
    tenants_separate outside chunker "a" others after_a
      ((refl, ((λ i. refl), tt)), ((refl, tt), ((refl, tt), tt)))
