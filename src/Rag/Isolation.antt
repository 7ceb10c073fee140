-- ===== src/Rag/Isolation.antt =====
-- What the operations of one tenant do to the rows of another in the shared table.
use vela_flow_public.Prelude.{
  ℕ, suc, ◌≡◌, ◌∙◌, sym, ap, refl, ◌⊎◌, String, Bool, true, false, not, ◌&&◌, List, [], ◌∷◌, map,
  keep, length, All, All-mono, str_eq, eq_iff, arith, Bool-cases, inl, inr, ltb, leb, subst,
}
use vela_flow_public.Prelude.Text.{strip}
use vela_flow_public.Dict.{Dict, insert}
use vela_flow_public.Rag.{
  Sentence, DocumentChunk, Result, ok, value_error, DocumentChunker, chunk, number, join, is_empty,
  pack, split_sentences, utf8_length, max_document_size_bytes,
}
use vela_flow_public.Rag.Store.{
  store_chunks, is_of, is_document, delete_document, purge_tenant, distinct, count_documents,
  Outside, embedded, ingest, query,
}

keep-keep {ℓ} :
    {A : Type ℓ} (p q : A → Bool) (xs : List A)
    → keep (λ x. p x && q x) xs ≡ keep (λ x. p x && q x) (keep p xs)
keep-keep p q [] = refl
keep-keep p q (x ∷ xs) = ground (arith, keep-keep p q xs)

keep-without {ℓ} :
    {A : Type ℓ} (p q : A → Bool) (xs : List A)
    → ((x : A) → p x ≡ true → q x ≡ false)
    → keep p (keep (λ x. not (q x)) xs) ≡ keep p xs
keep-without p q [] apart = refl
keep-without p q (x ∷ xs) apart = ground (arith, keep-without p q xs apart, apart x)

keep-insert {ℓ} :
    {V : Type ℓ} (p : String × V → Bool) (k : String) (v : V) (t : Dict V)
    → p (k, v) ≡ false
    → All (λ r. str_eq r.0 k ≡ false) (keep p t)
    → keep p (insert k v t) ≡ keep p t
unfolding insert
keep-insert p k v [] other apart = rw other refl
keep-insert p k v ((j, w) ∷ t) other apart = elim (Bool-cases (p (j, w))) [
  | inl own ↦
      let apart' = rw own at apart in ground (arith, apart'.0, keep-insert p k v t other apart'.1)
  | inr foreign ↦
      let apart' = rw foreign at apart in ground (arith, keep-insert p k v t other apart')
]

abbrev pub is_ok : Result ℕ → Bool
is_ok (ok n) = true
is_ok _ = false

ok-inj : {m n : ℕ} → ok m ≡ ok n → m ≡ n
ok-inj h = cc

pub differ-own :
    (own tenant other : String)
    → str_eq other tenant ≡ false
    → str_eq own tenant ≡ true
    → str_eq own other ≡ false
differ-own own tenant other differ same =
    ground (arith, eq_iff own tenant, eq_iff own other, eq_iff other tenant)

-- a request to the pipeline, of some tenant
pub data Action (M : Type 0) : Type 0 where
  ingest_document : List ℕ → String → M → ℕ → Action M
  delete : String → Action M
  purge : Action M

pub record Request (M : Type 0) : Type 0 where
  pub tenant_id : String
  pub action : Action M

module _ {M F G : Type 0} (o : Outside F G) (chunker : DocumentChunker) where
  abbrev pub act : String → Action M → Dict (DocumentChunk M F) → Dict (DocumentChunk M F)
  act tenant (ingest_document text document metadata max_documents) t =
      (ingest o chunker text document tenant metadata max_documents t).1
  act tenant (delete document) t = (delete_document tenant document t).1
  act tenant purge t = (purge_tenant tenant t).1

  -- the table after some requests
  abbrev pub serve : List (Request M) → Dict (DocumentChunk M F) → Dict (DocumentChunk M F)
  serve [] t = t
  serve (r ∷ rs) t = serve rs (act r.tenant_id r.action t)

  -- the rows of a tenant
  abbrev pub rows : String → Dict (DocumentChunk M F) → Dict (DocumentChunk M F)
  rows tenant t = keep (is_of tenant) t

  -- none of the rows has the id of a chunk of the document that is ingested
  abbrev pub IsApart : Dict (DocumentChunk M F) → Action M → Type 0
  IsApart own (ingest_document text document metadata max_documents) =
      All (λ r. (i : ℕ) → str_eq r.0 (o.make_chunk_id document i) ≡ false) own
  IsApart own (delete document) = Unit
  IsApart own purge = Unit

  -- a chunk as it is stored
  abbrev pub row : String → String → M → ℕ → List Sentence → DocumentChunk M F
  row tenant document metadata i c = embedded o (record {
    chunk_id = o.make_chunk_id document i;
    document_id = document;
    tenant_id = tenant;
    content = join c;
    metadata = metadata;
    embedding = [];
  })

  abbrev pub stored :
      String
      → String
      → M
      → ℕ
      → List (List Sentence)
      → Dict (DocumentChunk M F)
      → ℕ × Dict (DocumentChunk M F)
  stored tenant document metadata i css t =
      store_chunks (map (embedded o) (number o.make_chunk_id document tenant metadata i css)) t

  store-rows :
      (tenant other document : String) (metadata : M) (css : List (List Sentence)) (i : ℕ)
      (t : Dict (DocumentChunk M F))
      → str_eq other tenant ≡ false
      → All (λ r. (i : ℕ) → str_eq r.0 (o.make_chunk_id document i) ≡ false) (rows tenant t)
      → rows tenant (stored other document metadata i css t).1 ≡ rows tenant t
  unfolding number store_chunks
  store-rows tenant other document metadata [] i t differ apart = refl
  store-rows tenant other document metadata (c ∷ css) i t differ apart =
      let id = o.make_chunk_id document i in
      let kept : rows tenant (insert id (row other document metadata i c) t) ≡ rows tenant t =
        keep-insert (is_of tenant) id (row other document metadata i c) t differ (
          All-mono (λ r. (i : ℕ) → str_eq r.0 (o.make_chunk_id document i) ≡ false)
            (λ r. str_eq r.0 id ≡ false) (rows tenant t) (λ r h. h i) apart) in
      store-rows tenant other document metadata css (suc i)
        (insert id (row other document metadata i c) t) differ
        (subst (All (λ r. (i : ℕ) → str_eq r.0 (o.make_chunk_id document i) ≡ false)) (sym kept)
          apart)
      ∙ kept

  pub stored-count :
      (tenant document : String) (metadata : M) (css : List (List Sentence)) (i : ℕ)
      (t : Dict (DocumentChunk M F))
      → (stored tenant document metadata i css t).0 ≡ length css
  unfolding number store_chunks
  stored-count tenant document metadata [] i t = refl
  stored-count tenant document metadata (c ∷ css) i t = ap suc (
      stored-count tenant document metadata css (suc i)
        (insert (o.make_chunk_id document i) (row tenant document metadata i c) t))

  chunk-cases :
      (text : List ℕ) (document tenant : String) (metadata : M)
      → ((css : List (List Sentence)) × (chunk {F = F} o.make_chunk_id chunker text document tenant
              metadata
            ≡ ok (number o.make_chunk_id document tenant metadata 0 css)))
        ⊎ (chunk {F = F} o.make_chunk_id chunker text document tenant metadata ≡ value_error)
  unfolding chunk number
  chunk-cases text document tenant metadata = elim (Bool-cases (is_empty (strip text))) [
    | inl empty ↦ inl ([], rw empty refl)
    | inr full ↦ elim (Bool-cases (ltb max_document_size_bytes (utf8_length text))) [
      | inl big ↦ inr (rw (full, big) refl)
      | inr small ↦ inl (
        pack chunker.chunk_size chunker.overlap (split_sentences (strip text)) [] 0,
        rw (full, small) refl,
      )
    ]
  ]

  -- an ingestion leaves the table alone, or stores the numbered chunks of the document
  pub ingest-cases :
      (text : List ℕ) (document tenant : String) (metadata : M) (max_documents : ℕ)
      (t : Dict (DocumentChunk M F))
      → ((is_ok (ingest o chunker text document tenant metadata max_documents t).0 ≡ false)
          × ((ingest o chunker text document tenant metadata max_documents t).1 ≡ t))
        ⊎ ((css : List (List Sentence)) × (ingest o chunker text document tenant metadata
                max_documents t
              ≡ (
                ok (stored tenant document metadata 0 css t).0,
                (stored tenant document metadata 0 css t).1,
              )))
  unfolding ingest
  ingest-cases text document tenant metadata max_documents t =
      elim (Bool-cases (ltb 0 max_documents && leb max_documents (count_documents tenant t))) [
        | inl refused ↦ inl (rw refused refl, rw refused refl)
        | inr granted ↦ elim (chunk-cases (o.sanitize text) document tenant metadata) [
          | inl (css, e) ↦ inr (css, rw (granted, e) refl)
          | inr e ↦ inl (rw (granted, e) refl, rw (granted, e) refl)
        ]
      ]

  -- what an ingestion that succeeds stores
  pub ingest-ok :
      (text : List ℕ) (document tenant : String) (metadata : M) (max_documents n : ℕ)
      (t : Dict (DocumentChunk M F))
      → (ingest o chunker text document tenant metadata max_documents t).0 ≡ ok n
      → (css : List (List Sentence)) × (length css ≡ n)
        × ((ingest o chunker text document tenant metadata max_documents t).1
            ≡ (stored tenant document metadata 0 css t).1)
  ingest-ok text document tenant metadata max_documents n t done =
      elim (ingest-cases text document tenant metadata max_documents t) [
        | inl (failed, same) ↦ absurd (cc (ap is_ok done, failed))
        | inr (css, e) ↦ (
          css,
          sym (stored-count tenant document metadata css 0 t)
              ∙ ok-inj (sym (ap (λ r. r.0) e) ∙ done),
          ap (λ r. r.1) e,
        )
      ]

  pub act-rows :
      (tenant other : String) (a : Action M) (t : Dict (DocumentChunk M F))
      → str_eq other tenant ≡ false
      → IsApart (rows tenant t) a
      → rows tenant (act other a t) ≡ rows tenant t
  unfolding delete_document purge_tenant
  act-rows tenant other (ingest_document text document metadata max_documents) t differ apart =
      elim (ingest-cases text document other metadata max_documents t) [
        | inl same ↦ ap (rows tenant) same.1
        | inr (css, e) ↦
            ap (λ r. rows tenant r.1) e
            ∙ store-rows tenant other document metadata css 0 t differ apart
      ]
  act-rows tenant other (delete document) t differ apart =
      keep-without (is_of tenant) (is_document other document) t
        (λ r own. rw (differ-own r.1.tenant_id tenant other differ own) refl)
  act-rows tenant other purge t differ apart =
      keep-without (is_of tenant) (is_of other) t
        (λ r own. differ-own r.1.tenant_id tenant other differ own)

  -- every request is of another tenant, and what it ingests is apart from the tenant's rows
  abbrev pub Others : String → Dict (DocumentChunk M F) → List (Request M) → Type 0
  Others tenant own rs = All (λ r. (str_eq r.tenant_id tenant ≡ false) × IsApart own r.action) rs

  serve-rows :
      (tenant : String) (rs : List (Request M)) (t : Dict (DocumentChunk M F))
      → Others tenant (rows tenant t) rs
      → rows tenant (serve rs t) ≡ rows tenant t
  serve-rows tenant [] t others = refl
  serve-rows tenant (r ∷ rs) t others =
      let kept = act-rows tenant r.tenant_id r.action t others.0.0 others.0.1 in
      serve-rows tenant rs (act r.tenant_id r.action t)
        (subst (λ own. Others tenant own rs) (sym kept) others.1)
      ∙ kept

  query-rows :
      (text : List ℕ) (tenant : String) (top_k : ℕ) (t u : Dict (DocumentChunk M F))
      → rows tenant t ≡ rows tenant u
      → query o text tenant top_k t ≡ query o text tenant top_k u
  unfolding query
  query-rows text tenant top_k t u same =
      let seen = keep-keep (is_of {M = M} {F = F} tenant) (λ r. not (is_empty r.1.embedding)) in
      rw (seen t, seen u, same) refl

  -- Whatever other tenants ingest, delete and purge in the shared table, a tenant finds the same
  -- results for every query, and as many of its documents count, if no chunk that the others ingest
  -- has the id of one of the tenant's rows.
  pub tenants_separate :
      (tenant : String) (rs : List (Request M)) (t : Dict (DocumentChunk M F))
      → Others tenant (rows tenant t) rs
      → ((text : List ℕ) (top_k : ℕ)
          → query o text tenant top_k (serve rs t) ≡ query o text tenant top_k t)
        × (count_documents tenant (serve rs t) ≡ count_documents tenant t)
  unfolding count_documents
  tenants_separate tenant rs t others =
      let same = serve-rows tenant rs t others in
      (
        λ text top_k. query-rows text tenant top_k (serve rs t) t same,
        ap (λ own. distinct (map (λ r. r.1.document_id) own)) same,
      )
