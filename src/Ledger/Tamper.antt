-- ===== src/Ledger/Tamper.antt =====
-- The last hash of a file that verifies determines the whole file.
use vela_flow_public.Prelude.{
  ℕ, zero, suc, ◌≤◌, ◌≡◌, ◌∙◌, ap, sym, refl, subst, String, true, false, List, [], ◌∷◌, ◌++◌, ◌⊎◌,
  inl, inr, str_eq, eq_iff, eq_refl, arith, length, length-append, All,
}
use vela_flow_public.Ledger.{Fields, Entry, Line, written, verify_lines}
use vela_flow_public.Ledger.Chain.{verify_lines-append, end_hash-append, end_hash}

snoc-cases {ℓ} :
    {A : Type ℓ} (xs : List A) → (xs ≡ []) ⊎ ((ys : List A) × (z : A) × (xs ≡ ys ++ z ∷ []))
snoc-cases [] = inl refl
snoc-cases (x ∷ xs) = inr (elim (snoc-cases xs) [
  | inl e ↦ ([], x, ap (λ l. x ∷ l) e)
  | inr (ys, z, e) ↦ (x ∷ ys, z, ap (λ l. x ∷ l) e)
])

All-snoc {ℓ κ} :
    {A : Type ℓ} (Q : A → Type κ) (xs : List A) (x : A) → All Q (xs ++ x ∷ []) → All Q xs × Q x
All-snoc Q [] x h = (tt, h.0)
All-snoc Q (y ∷ xs) x h = let (a, b) = All-snoc Q xs x h.1 in ((h.0, a), b)

All-map {ℓ κ μ} :
    {A : Type ℓ} (Q : A → Type κ) (R : A → Type μ) (xs : List A)
    → ((x : A) → Q x → R x)
    → All Q xs
    → All R xs
All-map Q R [] f h = tt
All-map Q R (x ∷ xs) f h = (f x h.0, All-map Q R xs f h.1)

module _ {D : Type 0} where
  -- a file of entries only
  abbrev pub file : List (Entry D) → List (Line D)
  file [] = []
  file (e ∷ es) = written e ∷ file es

  file-append :
      (xs : List (Entry D)) (e : Entry D) → file (xs ++ e ∷ []) ≡ file xs ++ written e ∷ []
  file-append [] e = refl
  file-append (x ∷ xs) e = ap (λ l. written x ∷ l) (file-append xs e)

  module _ (hmac : Fields D → String) where
    -- no entry of one file collides with another of the other
    abbrev pub HaveNoCollision : List (Entry D) → List (Entry D) → Type 0
    HaveNoCollision xs ys =
        All (λ x. All (λ y. hmac x.fields ≡ hmac y.fields → x.fields ≡ y.fields) ys) xs

    shorter :
        (xs ys : List (Entry D)) (x y : Entry D)
        → HaveNoCollision (xs ++ x ∷ []) (ys ++ y ∷ [])
        → HaveNoCollision xs ys × (hmac x.fields ≡ hmac y.fields → x.fields ≡ y.fields)
    shorter xs ys x y h =
        let (before, last) = All-snoc _ xs x h in
        (All-map _ _ xs (λ e k. (All-snoc _ ys y k).0) before, (All-snoc _ ys y last).1)

    -- what a file that verifies shows of its last entry
    last-entry :
        (xs : List (Entry D)) (x : Entry D)
        → verify_lines hmac "" (file (xs ++ x ∷ [])) ≡ true
        → (verify_lines hmac "" (file xs) ≡ true)
          × (x.fields.prev ≡ end_hash hmac "" (file xs))
          × (x.hash ≡ hmac x.fields)
    unfolding verify_lines
    last-entry xs x h = ground (
      arith,
      file-append xs x,
      verify_lines-append hmac "" (file xs) (written x ∷ []),
      eq_iff x.hash (hmac x.fields),
      eq_iff x.fields.prev (end_hash hmac "" (file xs)),
    )

    end-snoc : (xs : List (Entry D)) (x : Entry D) → end_hash hmac "" (file (xs ++ x ∷ [])) ≡ x.hash
    end-snoc xs x = rw (file-append xs x, end_hash-append hmac "" (file xs) (written x ∷ [])) refl

    Entry-ext : (x y : Entry D) → x.fields ≡ y.fields → x.hash ≡ y.hash → x ≡ y
    Entry-ext x y f h = ground arith

    end-never_empty :
        (xs : List (Entry D)) (x : Entry D)
        → ((f : Fields D) → str_eq "" (hmac f) ≡ false)
        → verify_lines hmac "" (file (xs ++ x ∷ [])) ≡ true
        → str_eq "" (end_hash hmac "" (file (xs ++ x ∷ []))) ≡ false
    end-never_empty xs x never ok =
        let (_, _, h) = last-entry xs x ok in rw (end-snoc xs x, h) (never x.fields)

    -- the hypotheses on two files
    record Agree (xs ys : List (Entry D)) : Type 0 where
      none_collide : HaveNoCollision xs ys
      first : verify_lines hmac "" (file xs) ≡ true
      second : verify_lines hmac "" (file ys) ≡ true
      same : end_hash hmac "" (file xs) ≡ end_hash hmac "" (file ys)

    -- two files that agree have the same last entry, and agree without it
    Agree-snoc :
        (xs ys : List (Entry D)) (x y : Entry D)
        → Agree (xs ++ x ∷ []) (ys ++ y ∷ [])
        → Agree xs ys × (x ≡ y)
    Agree-snoc xs ys x y g =
        let (vx, px, hx) = last-entry xs x g.first in
        let (vy, py, hy) = last-entry ys y g.second in
        let (nc, one) = shorter xs ys x y g.none_collide in
        let hash = sym (end-snoc xs x) ∙ g.same ∙ end-snoc ys y in
        let fields = one (sym hx ∙ hash ∙ hy) in
        (
          record {
            none_collide = nc;
            first = vx;
            second = vy;
            same = sym px ∙ ap (λ f. f.prev) fields ∙ py;
          },
          Entry-ext x y fields hash,
        )

    module _ (never : (f : Fields D) → str_eq "" (hmac f) ≡ false) where
      -- a file with an entry does not end as the empty file
      clash :
          (xs : List (Entry D)) (x : Entry D)
          → verify_lines hmac "" (file (xs ++ x ∷ [])) ≡ true
          → "" ≡ end_hash hmac "" (file (xs ++ x ∷ []))
          → false ≡ true
      clash xs x ok e = sym (end-never_empty xs x never ok) ∙ sym (ap (str_eq "") e) ∙ eq_refl ""

      impossible : (xs ys : List (Entry D)) → false ≡ true → xs ≡ ys
      impossible xs ys h = ground arith

      no_room : (xs : List (Entry D)) (x : Entry D) → length (xs ++ x ∷ []) ≤ 0 → false ≡ true
      no_room xs x h = ground (arith, length-append xs (x ∷ []))

      shortened :
          (n : ℕ) (xs : List (Entry D)) (x : Entry D)
          → length (xs ++ x ∷ []) ≤ suc n
          → length xs ≤ n
      shortened n xs x h = omega (arith, length-append xs (x ∷ []))

      -- the step from shorter files
      by_last :
          (xs ys : List (Entry D))
          → Agree xs ys
          → ((xs' ys' : List (Entry D)) (x : Entry D)
              → xs ≡ xs' ++ x ∷ []
              → Agree xs' ys'
              → xs' ≡ ys')
          → xs ≡ ys
      by_last xs ys g ih = elim (snoc-cases xs) [
        | inl ex ↦ elim (snoc-cases ys) [
          | inl ey ↦ ex ∙ sym ey
          | inr (ys', y, ey) ↦
              let g' = subst (λ l. Agree l (ys' ++ y ∷ [])) ex (subst (Agree xs) ey g) in
              impossible xs ys (clash ys' y g'.second g'.same)
        ]
        | inr (xs', x, ex) ↦ elim (snoc-cases ys) [
          | inl ey ↦
              let g' = subst (λ l. Agree l []) ex (subst (Agree xs) ey g) in
              impossible xs ys (clash xs' x g'.first (sym g'.same))
          | inr (ys', y, ey) ↦
              let g' = subst (λ l. Agree l (ys' ++ y ∷ [])) ex (subst (Agree xs) ey g) in
              let (before, last) = Agree-snoc xs' ys' x y g' in
              ex
              ∙ ap (λ l. l ++ x ∷ []) (ih xs' ys' x ex before)
              ∙ ap (λ e. ys' ++ e ∷ []) last
              ∙ sym ey
        ]
      ]

      determined : (n : ℕ) (xs ys : List (Entry D)) → length xs ≤ n → Agree xs ys → xs ≡ ys
      determined zero xs ys le g = by_last xs ys g (λ xs' ys' x e before.
          impossible xs' ys' (no_room xs' x (subst (λ l. length l ≤ 0) e le)))
      determined (suc n) xs ys le g = by_last xs ys g (λ xs' ys' x e before.
          determined n xs' ys' (shortened n xs' x (subst (λ l. length l ≤ suc n) e le)) before)

    -- Where the digest is never the empty text and no entry of one file collides with an entry of
    -- the other: two files of entries that both verify and end with the same hash are the same
    -- file.
    pub last_hash_determines :
        (xs ys : List (Entry D))
        → ((f : Fields D) → str_eq "" (hmac f) ≡ false)
        → HaveNoCollision xs ys
        → verify_lines hmac "" (file xs) ≡ true
        → verify_lines hmac "" (file ys) ≡ true
        → end_hash hmac "" (file xs) ≡ end_hash hmac "" (file ys)
        → xs ≡ ys
    last_hash_determines xs ys never apart vx vy ends =
        determined never (length xs) xs ys (omega arith)
          (record { none_collide = apart; first = vx; second = vy; same = ends })
