-- ===== src/Rag/Collision.antt =====
-- The id of a chunk is made of the document's id and a number alone, and is the primary key of the
-- table that all tenants share: what follows where two tenants use the same document id.
use vela_flow_public.Prelude.{
  ℕ, suc, ◌+◌, ◌≤◌, ◌<◌, ◌≡◌, ◌∙◌, sym, ap, refl, String, Bool, true, false, List, [], ◌∷◌, keep,
  length, All, All-mono, str_eq, eq_iff, arith, Bool-cases, inl, inr, subst, none, ◌==◌, ◌≢◌,
}
use vela_flow_public.Dict.{Dict, lookup, insert}
use vela_flow_public.Dict.Unique.{IsUnique, insert-IsUnique}
use vela_flow_public.Rag.{Sentence, DocumentChunk, ok, DocumentChunker, number}
use vela_flow_public.Rag.Store.{store_chunks, is_document, Outside, ingest}
use vela_flow_public.Rag.Isolation.{row, stored, ingest-ok}

-- what holds of every row that a test selects
abbrev Held {ℓ κ} : {V : Type ℓ} → (String × V → Type κ) → (String × V → Bool) → Dict V → Type κ
Held P p t = All (λ r. p r ≡ true → P r) t

absent {ℓ} :
    {V : Type ℓ} (k : String) (t : Dict V) → lookup k t ≡ none → All (λ r. str_eq r.0 k ≡ false) t
unfolding lookup
absent k [] h = tt
absent k ((j, w) ∷ t) h = ground (arith, absent k t)

Held-zip {ℓ κ} :
    {V : Type ℓ} (P : String × V → Type κ) (Q : String × V → Type 0) (p : String × V → Bool)
    (t : Dict V)
    → Held P p t
    → All Q t
    → Held (λ r. P r × Q r) p t
Held-zip P Q p [] h q = tt
Held-zip P Q p (r ∷ t) h q = (λ own. (h.0 own, q.0), Held-zip P Q p t h.1 q.1)

Held-replace {ℓ κ} :
    {V : Type ℓ} (P : String × V → Type κ) (p : String × V → Bool) (k : String) (v : V) (t : Dict V)
    → IsUnique t
    → p (k, v) ≡ false
    → Held P p t
    → Held (λ r. P r × (str_eq r.0 k ≡ false)) p (insert k v t)
unfolding insert
Held-replace P p k v [] u foreign all = (λ own. cc, tt)
Held-replace P p k v ((j, w) ∷ t) u foreign all = elim (Bool-cases (str_eq j k)) [
  | inl same ↦ rw same (
    λ own. cc,
    Held-zip P (λ r. str_eq r.0 k ≡ false) p t all.1
        (absent k t (subst (λ i. lookup i t ≡ none) ((eq_iff j k).0 same) u.0)),
  )
  | inr differ ↦ rw differ (λ own. (all.0 own, differ), Held-replace P p k v t u.1 foreign all.1)
]

Held-add {ℓ κ} :
    {V : Type ℓ} (P : String × V → Type κ) (p : String × V → Bool) (k : String) (v : V) (t : Dict V)
    → P (k, v)
    → Held P p t
    → Held P p (insert k v t)
unfolding insert
Held-add P p k v [] new all = (λ own. new, tt)
Held-add P p k v ((j, w) ∷ t) new all = elim (Bool-cases (str_eq j k)) [
  | inl same ↦ rw same (λ own. new, all.1)
  | inr differ ↦ rw differ (all.0, Held-add P p k v t new all.1)
]

Held-mono {ℓ κ μ} :
    {V : Type ℓ} (P : String × V → Type κ) (Q : String × V → Type μ) (p : String × V → Bool)
    (t : Dict V)
    → ((r : String × V) → P r → Q r)
    → Held P p t
    → Held Q p t
Held-mono P Q p t f h =
    All-mono (λ r. p r ≡ true → P r) (λ r. p r ≡ true → Q r) t (λ r g own. f r (g own)) h

module _ {M F G : Type 0} (o : Outside F G) (chunker : DocumentChunker) (document : String) where
  -- the id of a row is that of a chunk of the document, from `low` to below `high`
  abbrev IsNumbered : ℕ → ℕ → String × DocumentChunk M F → Type 0
  IsNumbered low high r = (i : ℕ) × (low ≤ i) × (i < high) × (r.0 ≡ o.make_chunk_id document i)

  later :
      (i high : ℕ) (r : String × DocumentChunk M F)
      → IsNumbered i high r
      → str_eq r.0 (o.make_chunk_id document i) ≡ false
      → IsNumbered (suc i) high r
  later i high r (j, low, below, same) differ = elim (Bool-cases (j == i)) [
    | inl here ↦
        let e : j ≡ i = ground arith in
        cc (
          differ,
          (eq_iff r.0 (o.make_chunk_id document i)).1 (same ∙ ap (o.make_chunk_id document) e),
        )
    | inr after ↦ (j, ground arith, below, same)
  ]

  module _ (tenant : String) (metadata : M) where
    own-numbered :
        (css : List (List Sentence)) (i high : ℕ) (t : Dict (DocumentChunk M F))
        (p : String × DocumentChunk M F → Bool)
        → i + length css ≤ high
        → Held (IsNumbered 0 high) p t
        → Held (IsNumbered 0 high) p (stored o chunker tenant document metadata i css t).1
    unfolding number store_chunks
    own-numbered [] i high t p short held = held
    own-numbered (c ∷ css) i high t p short held =
        let id = o.make_chunk_id document i in
        own-numbered css (suc i) high (insert id (row o chunker tenant document metadata i c) t) p
          (omega arith)
          (Held-add (IsNumbered 0 high) p id (row o chunker tenant document metadata i c) t
            (i, omega arith, omega arith, refl) held)

    stored-IsUnique :
        (css : List (List Sentence)) (i : ℕ) (t : Dict (DocumentChunk M F))
        → IsUnique t
        → IsUnique (stored o chunker tenant document metadata i css t).1
    unfolding number store_chunks
    stored-IsUnique [] i t u = u
    stored-IsUnique (c ∷ css) i t u =
        let id = o.make_chunk_id document i in
        stored-IsUnique css (suc i) (insert id (row o chunker tenant document metadata i c) t)
          (insert-IsUnique id (row o chunker tenant document metadata i c) t u)

    -- chunks of the tenant replace those rows of another that have their ids
    replaced :
        (other : String) (css : List (List Sentence)) (i high : ℕ) (t : Dict (DocumentChunk M F))
        → str_eq tenant other ≡ false
        → IsUnique t
        → Held (IsNumbered i high) (is_document other document) t
        → Held
            (IsNumbered (i + length css) high)
            (is_document other document)
            (stored o chunker tenant document metadata i css t).1
    unfolding number store_chunks
    replaced other [] i high t differ u held =
        Held-mono (IsNumbered i high) (IsNumbered (i + 0) high) (is_document other document) t
          (λ r n. (n.0, omega (arith, n.1), n.2, n.3)) held
    replaced other (c ∷ css) i high t differ u held =
        let id = o.make_chunk_id document i in
        let new = row o chunker tenant document metadata i c in
        let without =
          Held-replace (IsNumbered i high) (is_document other document) id new t u (rw differ refl)
            held in
        let rest =
          replaced other css (suc i) high (insert id new t) differ (insert-IsUnique id new t u) (
            Held-mono (λ r. IsNumbered i high r × (str_eq r.0 id ≡ false)) (IsNumbered (suc i) high)
              (is_document other document) (insert id new t) (λ r n. later i high r n.0 n.1)
              without) in
        Held-mono (IsNumbered (suc i + length css) high) (IsNumbered (i + suc (length css)) high)
          (is_document other document) _ (λ r n. (n.0, omega (arith, n.1), n.2, n.3)) rest

  keep-Held :
      (p : String × DocumentChunk M F → Bool) (low high : ℕ) (t : Dict (DocumentChunk M F))
      → high ≤ low
      → Held (IsNumbered low high) p t
      → keep p t ≡ []
  keep-Held p low high [] empty held = refl
  keep-Held p low high (r ∷ t) empty held = elim (Bool-cases (p r)) [
    | inl own ↦ let n = held.0 own in absurd (omega (arith, n.1, n.2))
    | inr foreign ↦ rw foreign (keep-Held p low high t empty held.1)
  ]

  cons-ne-nil : {r : String × DocumentChunk M F} {t : Dict (DocumentChunk M F)} → (r ∷ t) ≢ []
  cons-ne-nil h = cc

  Held-keep :
      (p : String × DocumentChunk M F → Bool) (low high : ℕ) (t : Dict (DocumentChunk M F))
      → keep p t ≡ []
      → Held (IsNumbered low high) p t
  Held-keep p low high [] empty = tt
  Held-keep p low high (r ∷ t) empty = elim (Bool-cases (p r)) [
    | inl own ↦ absurd (cons-ne-nil (rw own at empty))
    | inr foreign ↦ (λ own. cc, Held-keep p low high t (rw foreign at empty))
  ]

  -- Two tenants that ingest documents under the same id: if the second stores at least as many chunks
  -- as the first, then no row of the first tenant's document is left.
  pub same_document_lost :
      (first second : String) (text text' : List ℕ) (metadata metadata' : M)
      (max_documents max_documents' m n : ℕ) (t : Dict (DocumentChunk M F))
      → IsUnique t
      → keep (is_document first document) t ≡ []
      → str_eq second first ≡ false
      → (ingest o chunker text document first metadata max_documents t).0 ≡ ok m
      → (ingest o chunker text' document second metadata' max_documents'
          (ingest o chunker text document first metadata max_documents t).1).0
        ≡ ok n
      → m ≤ n
      → keep
          (is_document first document)
          (ingest o chunker text' document second metadata' max_documents'
            (ingest o chunker text document first metadata max_documents t).1).1
        ≡ []
  same_document_lost first second text text' metadata metadata' max_documents max_documents' m n t u
        new differ done done' more =
      let (css, count, one) =
        ingest-ok o chunker text document first metadata max_documents m t done in
      let t1 = (ingest o chunker text document first metadata max_documents t).1 in
      let (css', count', two) =
        ingest-ok o chunker text' document second metadata' max_documents' n t1 done' in
      let p = is_document first document in
      let held : Held (IsNumbered 0 m) p t1 =
        subst (Held (IsNumbered 0 m) p) (sym one) (
          own-numbered first metadata css 0 m t p (omega (arith, count)) (Held-keep p 0 m t new)) in
      let unique : IsUnique t1 =
        subst IsUnique (sym one) (stored-IsUnique first metadata css 0 t u) in
      keep-Held p (0 + length css') m _ (omega (arith, count')) (
        subst (Held (IsNumbered (0 + length css') m) p) (sym two)
          (replaced second metadata' first css' 0 m t1 differ unique held))
