-- ===== src/Ledger/Integrity.antt =====
-- When `verify_chain` accepts a daily file, and what an accepted file shows.
use vela_flow_public.Prelude.{
  ℕ, suc, ◌+◌, ◌≤◌, ◌<◌, ◌≡◌, ◌∙◌, ap, sym, refl, String, true, false, none, some, List, [], ◌∷◌,
  ◌++◌, str_eq, eq_iff, eq_refl, arith, ◌==◌, ltb, leb, ◌%◌, length, Bool-cases, inl, inr, ltb→lt,
  le→leb,
}
use native.Mathlib.Nat.{mod-eq_of_lt, mod_self}
use vela_flow_public.Dict.{Dict, lookup}
use vela_flow_public.Ledger.{
  Fields, Entry, Line, written, ActionLedger, start, read, log, verify_lines, verify_chain,
}
use vela_flow_public.Ledger.Chain.{
  verify_lines-append, end_hash-append, end_hash, new_entry, new_entry_lem, count-log, max-log,
  last_hash-log, verify-log, end-log,
}

mod_own : (n : ℕ) → (n % n == 0) ≡ true
mod_own n = rw mod_self refl

mod-below : (k n : ℕ) → 1 ≤ k → k < n → (k % n == 0) ≡ false
mod-below k n pos h = rw (mod-eq_of_lt h) (ground arith)

le→not_leb : (a b : ℕ) → b < a → leb a b ≡ false
le→not_leb a b h = ground arith

module _ {D : Type 0} (hmac : Fields D → String) (day : String) where
  -- entries that one process logs on one day, with every write done
  unfoldable pub log_all : List (Fields D) → ActionLedger D → ActionLedger D
  log_all [] l = l
  log_all (f ∷ fs) l = log_all fs (log hmac day true f l).1

  -- the digest is never the empty text
  abbrev pub NeverEmpty : Type 0
  NeverEmpty = (f : Fields D) → str_eq "" (hmac f) ≡ false

  -- after `k` entries, no more than the maximum
  record IsIntact (k : ℕ) (l : ActionLedger D) : Type 0 where
    counted : l.entry_count ≡ k
    verified : verify_lines hmac "" (read day l) ≡ true
    chained : k < l.max_entries → l.last_hash ≡ end_hash hmac "" (read day l)
    cut : l.max_entries ≤ k → str_eq l.last_hash (end_hash hmac "" (read day l)) ≡ false

  last-below :
      (f : Fields D) (l : ActionLedger D)
      → l.entry_count + 1 < l.max_entries
      → (log hmac day true f l).1.last_hash ≡ (new_entry hmac day f l).hash
  last-below f l below =
      last_hash-log hmac day f l
      ∙ rw (mod-below (l.entry_count + 1) l.max_entries (omega arith) below) refl

  last-full :
      (f : Fields D) (l : ActionLedger D)
      → l.entry_count + 1 ≡ l.max_entries
      → (log hmac day true f l).1.last_hash ≡ ""
  last-full f l full = last_hash-log hmac day f l ∙ rw (full, mod_own l.max_entries) refl

  log-IsIntact :
      (k : ℕ) (f : Fields D) (l : ActionLedger D)
      → NeverEmpty
      → k < l.max_entries
      → IsIntact k l
      → IsIntact (k + 1) (log hmac day true f l).1
  log-IsIntact k f l never below i = record {
    counted = count-log hmac day f l ∙ ap (λ n. n + 1) i.counted;
    verified =
        verify-log hmac day f l ∙ rw (i.verified, sym (i.chained below)) (eq_refl l.last_hash);
    chained = λ more.
        last-below f l (omega (arith, i.counted, max-log hmac day f l))
        ∙ sym (end-log hmac day f l);
    cut = λ full.
        rw
          (
            last-full f l (omega (arith, i.counted, max-log hmac day f l)),
            end-log hmac day f l,
            new_entry_lem hmac day f l,
          )
          (never (record f { prev = l.last_hash }));
  }

  -- a broken chain stays broken
  log_all-broken :
      (fs : List (Fields D)) (l : ActionLedger D)
      → verify_lines hmac "" (read day l) ≡ false
      → verify_lines hmac "" (read day (log_all fs l)) ≡ false
  unfolding log_all
  log_all-broken [] l h = h
  log_all-broken (f ∷ fs) l h =
      log_all-broken fs (log hmac day true f l).1 (verify-log hmac day f l ∙ rw h refl)

  log_all-exact :
      (k : ℕ) (fs : List (Fields D)) (l : ActionLedger D)
      → NeverEmpty
      → k ≤ l.max_entries
      → IsIntact k l
      → verify_lines hmac "" (read day (log_all fs l)) ≡ leb (k + length fs) l.max_entries
  unfolding log_all
  log_all-exact k [] l never le i = i.verified ∙ sym (le→leb (k + 0) l.max_entries (omega arith))
  log_all-exact k (f ∷ fs) l never le i = elim (Bool-cases (ltb k l.max_entries)) [
    | inl below ↦
        let below' = ltb→lt k l.max_entries below in
        log_all-exact (k + 1) fs (log hmac day true f l).1 never
          (omega (arith, max-log hmac day f l)) (log-IsIntact k f l never below' i)
        ∙ rw (max-log hmac day f l) (ap (λ n. leb n l.max_entries) (omega arith))
    | inr full ↦
        log_all-broken fs (log hmac day true f l).1
          (verify-log hmac day f l ∙ rw (i.cut (ground arith), i.verified) refl)
        ∙ sym (le→not_leb (k + suc (length fs)) l.max_entries (ground arith))
  ]

  verify_chain-read :
      (l : ActionLedger D) → verify_chain hmac day l ≡ verify_lines hmac "" (read day l)
  unfolding verify_chain verify_lines
  verify_chain-read l = ground arith

  read-new :
      (max_entries : ℕ) (files : Dict (List (Line D)))
      → lookup day files ≡ none
      → read day (start max_entries files) ≡ []
  read-new max_entries files new = ground arith

  read-absent : (l : ActionLedger D) → lookup day l.files ≡ none → read day l ≡ []
  read-absent l new = ground arith

  read-old :
      (max_entries : ℕ) (files : Dict (List (Line D))) (lines : List (Line D))
      → lookup day files ≡ some lines
      → read day (start max_entries files) ≡ lines
  read-old max_entries files lines there = ground arith

  new-IsIntact :
      (max_entries : ℕ) (files : Dict (List (Line D)))
      → 1 ≤ max_entries
      → lookup day files ≡ none
      → IsIntact 0 (start max_entries files)
  unfolding verify_lines
  new-IsIntact max_entries files pos new =
      let empty = read-new max_entries files new in
      record {
        counted = refl;
        verified = ap (verify_lines hmac "") empty;
        chained = λ below. sym (ap (end_hash hmac "") empty);
        cut = λ full. ground arith;
      }

  last-verified :
      (lines : List (Line D)) (e : Entry D)
      → verify_lines hmac "" (lines ++ written e ∷ []) ≡ true
      → e.hash ≡ hmac e.fields
  unfolding verify_lines
  last-verified lines e ok =
      ground
        (arith, verify_lines-append hmac "" lines (written e ∷ []), eq_iff e.hash (hmac e.fields))

  -- Where the digest is never the empty text: if one process logs on a day whose file is new, with
  -- a maximum of at least one entry, the chain of the file verifies exactly when it has logged no
  -- more than the maximum. Up to it the chain is intact; from the entry after it, never again.
  pub verify_exact :
      (fs : List (Fields D)) (max_entries : ℕ) (files : Dict (List (Line D)))
      → NeverEmpty
      → 1 ≤ max_entries
      → lookup day files ≡ none
      → verify_chain hmac day (log_all fs (start max_entries files)) ≡ leb (length fs) max_entries
  verify_exact fs max_entries files never pos new =
      let l = start max_entries files in
      verify_chain-read (log_all fs l)
      ∙ log_all-exact 0 fs l never (omega arith) (new-IsIntact max_entries files pos new)
      ∙ ap (λ n. leb n max_entries) (omega arith)

  -- Where the digest is never the empty text: a process that starts on a day whose file verifies
  -- and has an entry leaves, with its first entry, a file that does not verify.
  pub restart_breaks :
      (f : Fields D) (max_entries : ℕ) (files : Dict (List (Line D))) (lines : List (Line D))
      (e : Entry D)
      → NeverEmpty
      → lookup day files ≡ some (lines ++ written e ∷ [])
      → verify_lines hmac "" (lines ++ written e ∷ []) ≡ true
      → verify_chain hmac day (log hmac day true f (start max_entries files)).1 ≡ false
  restart_breaks f max_entries files lines e never there ok =
      let l = start max_entries files in
      verify_chain-read (log hmac day true f l).1
      ∙ verify-log hmac day f l
      ∙ rw
          (
            read-old max_entries files (lines ++ written e ∷ []) there,
            ok,
            end_hash-append hmac "" lines (written e ∷ []),
            last-verified lines e ok,
          )
          (never e.fields)

  -- A process that has logged before, so that it holds a hash that is not empty, leaves on a day
  -- whose file is new, with its first entry, a file that does not verify.
  pub new_day_breaks :
      (f : Fields D) (l : ActionLedger D)
      → lookup day l.files ≡ none
      → str_eq l.last_hash "" ≡ false
      → verify_chain hmac day (log hmac day true f l).1 ≡ false
  new_day_breaks f l new held =
      verify_chain-read (log hmac day true f l).1
      ∙ verify-log hmac day f l
      ∙ rw (read-absent l new) (unfold verify_lines in held)
