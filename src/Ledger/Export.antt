-- ===== src/Ledger/Export.antt =====
-- What `export` returns from the two latest files.
use vela_flow_public.Prelude.{
  ℕ, zero, suc, ◌+◌, ◌-◌, ◌≤◌, ◌≡◌, ◌∙◌, ap, String, true, false, List, [], ◌∷◌, ◌++◌, keep, take,
  drop, length, length-append, length-drop, All, All-append, ◌==◌, arith, Bool-cases, inl, inr,
}
use mathlib.Core.List.{append-nil}
use vela_flow_public.Prelude.Sort.{sort, insert_sorted}
use vela_flow_public.Prelude.Text.{codes, lex_le}
use vela_flow_public.Ledger.{
  Entry, Line, ActionLedger, Filters, passes, entries_of, later_first, collect, last_items, export,
}

module _ {D : Type 0} where
  abbrev Passes : Filters → Entry D → Type 0
  Passes f e = passes f e ≡ true

  All-kept : (f : Filters) (es : List (Entry D)) → All (Passes f) (keep (passes f) es)
  All-kept f [] = tt
  All-kept f (e ∷ es) = elim (Bool-cases (passes f e)) [
    | inl good ↦ rw good (good, All-kept f es)
    | inr bad ↦ rw bad (All-kept f es)
  ]

  All-collect :
      (f : Filters) (files : List (String × List (Line D))) → All (Passes f) (collect f files)
  All-collect f [] = tt
  All-collect f ((day, lines) ∷ files) =
      All-append (Passes f) (keep (passes f) (entries_of lines)) (collect f files)
        (All-kept f (entries_of lines)) (All-collect f files)

  All-drop :
      (f : Filters) (n : ℕ) (es : List (Entry D)) → All (Passes f) es → All (Passes f) (drop n es)
  All-drop f zero es h = h
  All-drop f (suc n) [] h = tt
  All-drop f (suc n) (e ∷ es) h = All-drop f n es h.1

  All-last :
      (f : Filters) (n : ℕ) (es : List (Entry D))
      → All (Passes f) es
      → All (Passes f) (last_items n es)
  All-last f n es h = elim (Bool-cases (n == 0)) [
    | inl none_asked ↦ rw none_asked h
    | inr asked ↦ rw asked (All-drop f (length es - n) es h)
  ]

  length-last : (n : ℕ) (es : List (Entry D)) → 1 ≤ n → length (last_items n es) ≤ n
  length-last n es pos = ground (arith, length-drop (length es - n) es)

  -- An export of at least one entry holds no more entries than it was asked for, and every one of
  -- them passes the filters.
  pub export-passes :
      (n : ℕ) (f : Filters) (l : ActionLedger D)
      → 1 ≤ n
      → (length (export n f l) ≤ n) × All (λ e. passes f e ≡ true) (export n f l)
  unfolding export
  export-passes n f l pos =
      let found = collect f (take 2 (sort later_first l.files)) in
      (
        length-last n found pos,
        All-last f n found (All-collect f (take 2 (sort later_first l.files))),
      )

  drop-past : (xs ys : List (Entry D)) (k : ℕ) → drop (length xs + k) (xs ++ ys) ≡ drop k ys
  drop-past [] ys k = ap (λ m. drop m ys) (omega arith)
  drop-past (x ∷ xs) ys k =
      ap (λ m. drop m (x ∷ xs ++ ys)) (plus-suc (length xs) k) ∙ drop-past xs ys k
    where
      plus-suc : (a b : ℕ) → suc a + b ≡ suc (a + b)
      plus-suc a b = omega arith

  last-past :
      (n : ℕ) (xs ys : List (Entry D))
      → 1 ≤ n
      → n ≤ length ys
      → last_items n (xs ++ ys) ≡ last_items n ys
  last-past n xs ys pos le = ground (
    arith,
    drop-past xs ys (length ys - n),
    ap (λ k. drop k (xs ++ ys)) (past (length xs) (length ys) n le),
    length-append xs ys,
  )
    where
      past : (a b m : ℕ) → m ≤ b → a + b - m ≡ a + (b - m)
      past a b m h = omega arith

  -- Of two files, where the older one alone has as many entries that pass as an export asks for (at
  -- least one), the export holds the last entries of the older file and none of the newer one.
  pub export_older :
      (n : ℕ) (f : Filters) (l : ActionLedger D) (older newer : String) (xs ys : List (Line D))
      → l.files ≡ (older, ys) ∷ (newer, xs) ∷ []
      → lex_le (codes newer) (codes older) ≡ false
      → 1 ≤ n
      → n ≤ length (keep (passes f) (entries_of ys))
      → export n f l ≡ last_items n (keep (passes f) (entries_of ys))
  unfolding export sort insert_sorted
  export_older n f l older newer xs ys two later pos le =
      let new = keep (passes f) (entries_of xs) in
      let old = keep (passes f) (entries_of ys) in
      ap (λ fs. last_items n (collect f (take 2 (sort later_first fs)))) two
      ∙ rw later (
          last-past n new (old ++ []) pos (rw (append-nil old) le)
          ∙ ap (last_items n) (append-nil old))
