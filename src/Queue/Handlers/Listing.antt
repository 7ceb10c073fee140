-- ===== src/Queue/Handlers/Listing.antt =====
-- tenant/manager.py: `TenantManager.list_tenants` over all that the worker stores below `tenants/`.
-- The local storage lists every JSON file below a directory, and a tenant is read from each. The
-- order of the files is not that of their names here.
use mathlib.Core.List.{append-nil}
use vela_flow_public.Prelude.{
  ◌≡◌, ◌∙◌, ap, refl, String, Bool, true, false, Option, none, some, List, [], ◌∷◌, ◌++◌, map, any,
  arith, ◌||◌, not, if◌then◌else◌, Bool-cases, inl, inr, str_eq,
}
use vela_flow_public.Dict.{Dict, insert}
use vela_flow_public.Tenant.{Tenant, post_init}
use vela_flow_public.Queue.Handlers.{JobResult, Files, store_job_result}

-- a JSON file: a tenant, or a document without the keys of one, which may be empty
pub data Document : Type 0 where
  tenant_document : Tenant → Document
  other_document : Bool → Document

-- the loop; `none` is the `KeyError` of `_from_dict` on a document without a tenant's keys
unfoldable pub list_tenants : List Document → Option (List Tenant)
unfolding post_init
list_tenants [] = some []
list_tenants (other_document true ∷ ds) = list_tenants ds
list_tenants (other_document false ∷ ds) = none
list_tenants (tenant_document t ∷ ds) = elim (list_tenants ds) [
  | none ↦ none
  | some ts ↦ some (post_init t ∷ ts)
]

abbrev result_documents : {R : Type 0} → Dict (Dict R) → List Document
result_documents [] = []
result_documents ((tenant, rs) ∷ more) = map (λ r. other_document false) rs ++ result_documents more

module _ {M F G : Type 0} where
  -- `list_keys("tenants/")`
  abbrev pub documents : Files M F G → List Document
  documents s =
      map (λ t. tenant_document t.1) s.tenants
      ++ (map (λ u. other_document false) s.usages.stored
          ++ (map (λ p. other_document p.1.is_empty) s.scoring ++ result_documents s.results))

abbrev pub is_keyless : Document → Bool
is_keyless (tenant_document t) = false
is_keyless (other_document is_empty) = not is_empty

or_true : (b : Bool) → (b || true) ≡ true
or_true true = refl
or_true false = refl

any-append {ℓ} :
    {A : Type ℓ} (p : A → Bool) (xs ys : List A) → any p (xs ++ ys) ≡ (any p xs || any p ys)
any-append p [] ys = refl
any-append p (x ∷ xs) ys = ground (arith, any-append p xs ys)

any-suffix {ℓ} :
    {A : Type ℓ} (p : A → Bool) (xs ys : List A) → any p ys ≡ true → any p (xs ++ ys) ≡ true
any-suffix p xs ys h = any-append p xs ys ∙ rw h (or_true (any p xs))

inserted_result :
    {R : Type 0} (message : String) (r : R) (rs : Dict R)
    → any is_keyless (map (λ r. other_document false) (insert message r rs)) ≡ true
unfolding insert
inserted_result message r [] = refl
inserted_result message r ((j, w) ∷ rs) = ground arith

inserted_results :
    {R : Type 0} (tenant message : String) (r : R) (old : Dict R) (results : Dict (Dict R))
    → any is_keyless (result_documents (insert tenant (insert message r old) results)) ≡ true
unfolding insert
inserted_results tenant message r old [] =
    any-append is_keyless (map (λ r. other_document false) (insert message r old)) []
    ∙ rw (inserted_result message r old) refl
inserted_results tenant message r old ((j, rs) ∷ results) = elim (Bool-cases (str_eq j tenant)) [
  | inl same ↦ rw same (
      any-append is_keyless (map (λ r. other_document false) (insert message r old))
        (result_documents results)
      ∙ rw (inserted_result message r old) refl)
  | inr differ ↦ rw differ (
      any-append is_keyless (map (λ r. other_document false) rs)
        (result_documents (insert tenant (insert message r old) results))
      ∙ rw (inserted_results tenant message r old results)
          (or_true (any is_keyless (map (λ r. other_document false) rs))))
]

abbrev tenants_in : List Document → List Tenant
tenants_in [] = []
tenants_in (tenant_document t ∷ ds) = post_init t ∷ tenants_in ds
tenants_in (other_document is_empty ∷ ds) = tenants_in ds

list_tenants_lem :
    (ds : List Document)
    → list_tenants ds ≡ (if any is_keyless ds then none else some (tenants_in ds))
unfolding list_tenants
list_tenants_lem [] = refl
list_tenants_lem (other_document true ∷ ds) = list_tenants_lem ds
list_tenants_lem (other_document false ∷ ds) = refl
list_tenants_lem (tenant_document t ∷ ds) = ground (arith, list_tenants_lem ds)

tenants_in-append : (xs ys : List Document) → tenants_in (xs ++ ys) ≡ tenants_in xs ++ tenants_in ys
tenants_in-append [] ys = refl
tenants_in-append (tenant_document t ∷ xs) ys =
    ap (λ ts. post_init t ∷ ts) (tenants_in-append xs ys)
tenants_in-append (other_document is_empty ∷ xs) ys = tenants_in-append xs ys

tenants_in-others {ℓ} :
    {A : Type ℓ} (f : A → Bool) (xs : List A) → tenants_in (map (λ x. other_document (f x)) xs) ≡ []
tenants_in-others f [] = refl
tenants_in-others f (x ∷ xs) = tenants_in-others f xs

tenants_in-results : {R : Type 0} (rs : Dict (Dict R)) → tenants_in (result_documents rs) ≡ []
tenants_in-results [] = refl
tenants_in-results ((tenant, r) ∷ rs) =
    tenants_in-append (map (λ r. other_document false) r) (result_documents rs)
    ∙ ap (λ (ts : List Tenant). ts ++ tenants_in (result_documents rs))
        (tenants_in-others (λ r. false) r)
    ∙ tenants_in-results rs

tenants_in-tenants :
    (ts : Dict Tenant)
    → tenants_in (map (λ t. tenant_document t.1) ts) ≡ map (λ t. post_init t.1) ts
tenants_in-tenants [] = refl
tenants_in-tenants (t ∷ ts) = ap (λ us. post_init t.1 ∷ us) (tenants_in-tenants ts)

module _ {M F G : Type 0} where
  tenants_in-documents :
      (s : Files M F G) → tenants_in (documents s) ≡ map (λ t. post_init t.1) s.tenants
  tenants_in-documents s =
      let usage : List Document = map (λ u. other_document false) s.usages.stored in
      let scoring : List Document = map (λ p. other_document p.1.is_empty) s.scoring in
      tenants_in-append (map (λ t. tenant_document t.1) s.tenants)
        (usage ++ (scoring ++ result_documents s.results))
      ∙ rw
          (
            tenants_in-append usage (scoring ++ result_documents s.results),
            tenants_in-append scoring (result_documents s.results),
            tenants_in-others (λ u. false) s.usages.stored,
            tenants_in-others (λ p. p.1.is_empty) s.scoring,
            tenants_in-results s.results,
            tenants_in-tenants s.tenants,
          )
          (append-nil _)

  keyless-result :
      (tenant message : String) (result : JobResult M G) (s : Files M F G)
      → any is_keyless (documents (store_job_result tenant message result s)) ≡ true
  unfolding store_job_result
  keyless-result tenant message result s =
      any-suffix is_keyless (map (λ t. tenant_document t.1) s.tenants) _ (
        any-suffix is_keyless (map (λ u. other_document false) s.usages.stored) _ (
          any-suffix is_keyless (map (λ p. other_document p.1.is_empty) s.scoring) _
            (inserted_results tenant message result _ s.results)))

  -- The tenants below `tenants/` are listed if nothing else that is not empty is stored there, and
  -- otherwise the listing raises. So it raises once the result of any job is stored.
  pub listing_exact :
      (s : Files M F G)
      → (list_tenants (documents s) ≡ (
          if any is_keyless (documents s) then none else some (map (λ t. post_init t.1) s.tenants)))
        × ((tenant message : String) (result : JobResult M G)
            → list_tenants (documents (store_job_result tenant message result s)) ≡ none)
  listing_exact s = (
    list_tenants_lem (documents s)
        ∙ ap (λ ts. if any is_keyless (documents s) then none else some ts)
            (tenants_in-documents s),
    λ tenant message result.
        list_tenants_lem (documents (store_job_result tenant message result s))
        ∙ rw (keyless-result tenant message result s) refl,
  )
