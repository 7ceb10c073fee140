-- ===== src/Ledger/Chain.antt =====
-- What one more entry does to the chain of a daily file.
use vela_flow_public.Prelude.{
  ◌+◌, ◌≡◌, refl, String, true, ◌&&◌, List, [], ◌∷◌, ◌++◌, str_eq, eq_refl, arith, if◌then◌else◌,
  ◌==◌, ◌%◌,
}
use vela_flow_public.Dict.{lookup-insert}
use vela_flow_public.Ledger.{
  Fields, Entry, Line, blank, corrupt, written, ActionLedger, read, append, log, verify_lines,
}

module _ {D : Type 0} (hmac : Fields D → String) where
  -- the hash after some lines
  abbrev pub end_hash : String → List (Line D) → String
  end_hash prev [] = prev
  end_hash prev (blank ∷ lines) = end_hash prev lines
  end_hash prev (corrupt ∷ lines) = end_hash prev lines
  end_hash prev (written e ∷ lines) = end_hash e.hash lines

  pub verify_lines-append :
      (prev : String) (xs ys : List (Line D))
      → verify_lines hmac prev (xs ++ ys)
        ≡ (verify_lines hmac prev xs && verify_lines hmac (end_hash prev xs) ys)
  unfolding verify_lines
  verify_lines-append prev [] ys = refl
  verify_lines-append prev (blank ∷ xs) ys = verify_lines-append prev xs ys
  verify_lines-append prev (corrupt ∷ xs) ys = refl
  verify_lines-append prev (written e ∷ xs) ys = ground (arith, verify_lines-append e.hash xs ys)

  pub end_hash-append :
      (prev : String) (xs ys : List (Line D))
      → end_hash prev (xs ++ ys) ≡ end_hash (end_hash prev xs) ys
  end_hash-append prev [] ys = refl
  end_hash-append prev (blank ∷ xs) ys = end_hash-append prev xs ys
  end_hash-append prev (corrupt ∷ xs) ys = end_hash-append prev xs ys
  end_hash-append prev (written e ∷ xs) ys = end_hash-append e.hash xs ys

  module _ (day : String) (f : Fields D) (l : ActionLedger D) where
    abbrev pub new_entry : Entry D
    new_entry = (log hmac day true f l).0

    pub new_entry_lem : new_entry ≡ record {
      fields = record f { prev = l.last_hash };
      hash = hmac (record f { prev = l.last_hash });
    }
    unfolding log
    new_entry_lem = refl

    pub read-log : read day (log hmac day true f l).1 ≡ read day l ++ written new_entry ∷ []
    unfolding log append
    read-log =
        ground
          (arith, lookup-insert day day (read day l ++ written new_entry ∷ []) l.files, eq_refl day)

    pub count-log : (log hmac day true f l).1.entry_count ≡ l.entry_count + 1
    unfolding log append
    count-log = ground arith

    pub max-log : (log hmac day true f l).1.max_entries ≡ l.max_entries
    unfolding log append
    max-log = ground arith

    pub last_hash-log :
        (log hmac day true f l).1.last_hash
        ≡ (if (l.entry_count + 1) % l.max_entries == 0 then "" else new_entry.hash)
    unfolding log append
    last_hash-log = ground arith

    -- a further entry is in order exactly where the ledger holds the file's last hash
    pub verify-log :
        verify_lines hmac "" (read day (log hmac day true f l).1)
        ≡ (verify_lines hmac "" (read day l) && str_eq l.last_hash (end_hash "" (read day l)))
    unfolding verify_lines
    verify-log =
        rw (read-log, verify_lines-append "" (read day l) (written new_entry ∷ []), new_entry_lem)
          (ground (arith, eq_refl (hmac (record f { prev = l.last_hash }))))

    pub end-log : end_hash "" (read day (log hmac day true f l).1) ≡ new_entry.hash
    end-log = rw (read-log, end_hash-append "" (read day l) (written new_entry ∷ [])) refl
