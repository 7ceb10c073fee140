-- ===== src/Pipeline/Bronze.antt =====
-- pipeline/bronze.py: `BronzeLayer` over the stored batches. The key of a batch is made of its
-- tenant, its source and a time stamp in seconds, whose text sorts as the seconds do.
use vela_flow_public.Prelude.{
  ℕ, ◌<◌, ◌≡◌, ap, refl, String, Bool, true, false, ◌&&◌, Option, none, some, List, [], ◌∷◌, keep,
  All, str_eq, eq_iff, eq_refl, leb, ◌==◌, if◌then◌else◌, arith, Bool-cases, inl, inr,
}

pub data Source : Type 0 where
  todoist calendar gmail : Source

abbrev pub same_source : Source → Source → Bool
same_source todoist todoist = true
same_source calendar calendar = true
same_source gmail gmail = true
same_source a b = false

same_source_refl : (s : Source) → same_source s s ≡ true
same_source_refl todoist = refl
same_source_refl calendar = refl
same_source_refl gmail = refl

same_source-eq : (a b : Source) → same_source a b ≡ true → a ≡ b
same_source-eq todoist todoist h = refl
same_source-eq calendar calendar h = refl
same_source-eq gmail gmail h = refl
same_source-eq todoist calendar h = cc
same_source-eq todoist gmail h = cc
same_source-eq calendar todoist h = cc
same_source-eq calendar gmail h = cc
same_source-eq gmail todoist h = cc
same_source-eq gmail calendar h = cc

&&-left : (a b : Bool) → (a && b) ≡ true → a ≡ true
&&-left true b h = refl
&&-left false b h = h

pub record Batch (D : Type 0) : Type 0 where
  pub tenant_id : String
  pub source : Source
  pub stamp : ℕ
  pub payload : D

module _ {D : Type 0} where
  abbrev pub is_from : String → Source → Batch D → Bool
  is_from tenant source b = str_eq b.tenant_id tenant && same_source b.source source

  -- `write_json` at the key of a batch: what was stored in the same second is replaced
  unfoldable pub land : Batch D → List (Batch D) → List (Batch D)
  land b [] = b ∷ []
  land b (c ∷ cs) =
      if is_from b.tenant_id b.source c && (c.stamp == b.stamp) then b ∷ cs else c ∷ land b cs

  -- `sorted(batches)[-1]`
  unfoldable pub latest : List (Batch D) → Option (Batch D)
  latest [] = none
  latest (b ∷ bs) = elim (latest bs) [
    | none ↦ some b
    | some c ↦ if leb b.stamp c.stamp then some c else some b
  ]

  unfoldable pub read_latest : String → Source → List (Batch D) → Option D
  unfolding latest
  read_latest tenant source bs = elim (latest (keep (is_from tenant source) bs)) [
    | none ↦ none
    | some b ↦ some b.payload
  ]

  -- every batch of the tenant and the source was landed before
  abbrev pub AreOlder : String → Source → ℕ → List (Batch D) → Type 0
  AreOlder tenant source now bs = All (λ b. is_from tenant source b ≡ true → b.stamp < now) bs

  latest-land :
      (b : Batch D) (bs : List (Batch D))
      → AreOlder b.tenant_id b.source b.stamp bs
      → latest (keep (is_from b.tenant_id b.source) (land b bs)) ≡ some b
  unfolding land latest
  latest-land b [] older = rw (eq_refl b.tenant_id, same_source_refl b.source) refl
  latest-land b (c ∷ cs) older = elim (Bool-cases (is_from b.tenant_id b.source c)) [
    | inl own ↦
        let differ : (c.stamp == b.stamp) ≡ false = ground (arith, older.0 own) in
        rw (own, differ) (rw (own, latest-land b cs older.1) (ground (arith, older.0 own)))
    | inr other ↦ rw (other) (rw (other, latest-land b cs older.1) refl)
  ]

  -- A batch that is landed after all others of its tenant and source is the one that is read.
  pub read-land :
      (b : Batch D) (bs : List (Batch D))
      → AreOlder b.tenant_id b.source b.stamp bs
      → read_latest b.tenant_id b.source (land b bs) ≡ some b.payload
  unfolding read_latest
  read-land b bs older = ground (arith, latest-land b bs older)

  foreign :
      (b c : Batch D) (tenant : String) (source : Source)
      → is_from tenant source b ≡ false
      → is_from b.tenant_id b.source c ≡ true
      → is_from tenant source c ≡ false
  foreign b c tenant source other same =
      ground (arith, other, same, eq_iff c.tenant_id b.tenant_id, same_source-eq c.source b.source)

  pub keep-land :
      (b : Batch D) (tenant : String) (source : Source) (bs : List (Batch D))
      → is_from tenant source b ≡ false
      → keep (is_from tenant source) (land b bs) ≡ keep (is_from tenant source) bs
  unfolding land
  keep-land b tenant source [] other = rw other refl
  keep-land b tenant source (c ∷ cs) other =
      elim (Bool-cases (is_from b.tenant_id b.source c && (c.stamp == b.stamp))) [
        | inl same ↦
            let away = foreign b c tenant source other (&&-left _ _ same) in
            rw (same, other, away) refl
        | inr apart ↦ rw (apart, keep-land b tenant source cs other) refl
      ]

  -- what is read of another tenant or source stays
  pub read-land_other :
      (b : Batch D) (tenant : String) (source : Source) (bs : List (Batch D))
      → is_from tenant source b ≡ false
      → read_latest tenant source (land b bs) ≡ read_latest tenant source bs
  unfolding read_latest
  read-land_other b tenant source bs other =
      ap (λ kept. elim (latest kept) [ none ↦ none | some c ↦ some c.payload ])
        (keep-land b tenant source bs other)
