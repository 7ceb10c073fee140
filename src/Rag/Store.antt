-- ===== src/Rag/Store.antt =====
-- rag.py: `VectorStore` as the table `rag_chunks` with its primary key, and `RAGPipeline` over it.
-- The embedding, the cosine similarity of the database with the order of its values, the cleaning
-- of a text and the hash of a chunk's id are parameters. Rows of equal score come in the order of
-- the table, which the query leaves open; the time of a row is not modelled.
use vela_flow_public.Prelude.{
  ℕ, suc, String, Bool, not, ◌&&◌, List, [], ◌∷◌, map, keep, take, length, ltb, leb, str_eq,
  if◌then◌else◌,
}
use vela_flow_public.Prelude.Keys.{has}
use vela_flow_public.Prelude.Sort.{sort}
use vela_flow_public.Dict.{Dict, insert}
use vela_flow_public.Rag.{
  DocumentChunk, Result, ok, value_error, permission_error, DocumentChunker, chunk, is_empty,
}

-- `COUNT(DISTINCT document_id)`: a document counts at the last of its rows
abbrev pub distinct : List String → ℕ
distinct [] = 0
distinct (d ∷ ds) = let rest = distinct ds in if has d ds then rest else suc rest

module _ {M F : Type 0} where
  -- `INSERT OR REPLACE`, row by row; the count comes first
  unfoldable pub store_chunks :
      List (DocumentChunk M F) → Dict (DocumentChunk M F) → ℕ × Dict (DocumentChunk M F)
  store_chunks [] t = (0, t)
  store_chunks (c ∷ cs) t =
      let (count, t') = store_chunks cs (insert c.chunk_id c t) in (suc count, t')

  abbrev pub is_of : String → String × DocumentChunk M F → Bool
  is_of tenant (id, c) = str_eq c.tenant_id tenant

  abbrev pub is_document : String → String → String × DocumentChunk M F → Bool
  is_document tenant document (id, c) = str_eq c.tenant_id tenant && str_eq c.document_id document

  -- the deletions; the count of deleted rows comes first
  unfoldable pub delete_document :
      String → String → Dict (DocumentChunk M F) → ℕ × Dict (DocumentChunk M F)
  delete_document tenant document t = (
    length (keep (is_document tenant document) t),
    keep (λ r. not (is_document tenant document r)) t,
  )

  unfoldable pub purge_tenant : String → Dict (DocumentChunk M F) → ℕ × Dict (DocumentChunk M F)
  purge_tenant tenant t = (length (keep (is_of tenant) t), keep (λ r. not (is_of tenant r)) t)

  abbrev pub documents : String → Dict (DocumentChunk M F) → List String
  documents tenant t = map (λ r. r.1.document_id) (keep (is_of tenant) t)

  unfoldable pub count_documents : String → Dict (DocumentChunk M F) → ℕ
  count_documents tenant t = distinct (documents tenant t)

pub record RetrievalResult (M G : Type 0) : Type 0 where
  pub chunk_id : String
  pub document_id : String
  pub content : List ℕ
  pub score : G
  pub metadata : M

-- what is outside: `embed`, the similarity with its order, and `sanitize_for_llm`
pub record Outside (F G : Type 0) : Type 0 where
  pub embed : List ℕ → List F
  pub similarity : List F → List F → G
  pub at_least : G → G → Bool
  pub sanitize : List ℕ → List ℕ
  pub make_chunk_id : String → ℕ → String

module _ {M F G : Type 0} (o : Outside F G) where
  abbrev pub retrieved : List F → String × DocumentChunk M F → RetrievalResult M G
  retrieved query (id, c) = record {
    chunk_id = c.chunk_id;
    document_id = c.document_id;
    content = c.content;
    score = o.similarity c.embedding query;
    metadata = c.metadata;
  }

  unfoldable pub search :
      String → List F → ℕ → Dict (DocumentChunk M F) → List (RetrievalResult M G)
  search tenant query top_k t =
      let rows = keep (λ r. is_of tenant r && not (is_empty r.1.embedding)) t in
      if is_empty query
      then []
      else take top_k (sort (λ r s. o.at_least r.score s.score) (map (retrieved query) rows))

  abbrev pub embedded : DocumentChunk M F → DocumentChunk M F
  embedded c = record c { embedding = o.embed c.content }

  -- `max_documents` 0 is no limit
  unfoldable pub ingest :
      DocumentChunker
      → List ℕ
      → String
      → String
      → M
      → ℕ
      → Dict (DocumentChunk M F)
      → Result ℕ × Dict (DocumentChunk M F)
  ingest chunker text document tenant metadata max_documents t =
      if ltb 0 max_documents && leb max_documents (count_documents tenant t)
      then (permission_error, t)
      else elim (chunk o.make_chunk_id chunker (o.sanitize text) document tenant metadata) [
        | ok chunks ↦ let (count, t') = store_chunks (map embedded chunks) t in (ok count, t')
        | value_error ↦ (value_error, t)
        | permission_error ↦ (permission_error, t)
      ]

  unfoldable pub query : List ℕ → String → ℕ → Dict (DocumentChunk M F) → List (RetrievalResult M G)
  unfolding search
  query text tenant top_k t = search tenant (o.embed (o.sanitize text)) top_k t
