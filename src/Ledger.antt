-- ===== src/Ledger.antt =====
-- security/action_ledger.py: `ActionLedger`. The HMAC of an entry's fields is a parameter; the
-- fields come as the redaction and the cutting to a maximal length leave them, and a file is its
-- lines as `verify_chain` reads them.
pub mod Chain
pub mod Integrity
pub mod Tamper
pub mod Export
mod Tests
use vela_flow_public.Prelude.{
  ℕ, ◌+◌, ◌-◌, ◌%◌, String, Bool, true, false, not, ◌&&◌, Option, none, some, List, [], ◌∷◌, ◌++◌,
  map, length, keep, take, drop, ltb, str_eq, ◌==◌, if◌then◌else◌,
}
use vela_flow_public.Prelude.Sort.{sort}
use vela_flow_public.Prelude.Text.{codes, lex_le}
use vela_flow_public.Dict.{Dict, lookup, insert}

-- the fields of an entry that are hashed: all but `hash`
pub record Fields (D : Type 0) : Type 0 where
  pub ts : ℕ
  pub cat : String
  pub act : String
  pub tid : String
  pub uid : String
  pub status : String
  pub dur_ms : Option ℕ
  pub detail : Option D
  pub err : Option String
  pub prev : String

pub record Entry (D : Type 0) : Type 0 where
  pub fields : Fields D
  pub hash : String

-- a line of a log file: blank, no JSON, or an entry
pub data Line (D : Type 0) : Type 0 where
  blank corrupt : Line D
  written : Entry D → Line D

-- The state of the process, and the daily files by their day.
pub record ActionLedger (D : Type 0) : Type 0 where
  pub max_entries : ℕ
  pub last_hash : String
  pub entry_count : ℕ
  pub files : Dict (List (Line D))

module _ {D : Type 0} where
  -- a process that starts on the files that are there
  abbrev pub start : ℕ → Dict (List (Line D)) → ActionLedger D
  start max_entries files = record {
    max_entries = max_entries;
    last_hash = "";
    entry_count = 0;
    files = files;
  }

  abbrev pub read : String → ActionLedger D → List (Line D)
  read day l = elim (lookup day l.files) [ none ↦ [] | some lines ↦ lines ]

  -- `_append` on a given day, whose file is always in the directory of the logs; the file may refuse
  -- the write, which is only logged
  unfoldable pub append : String → Bool → Entry D → ActionLedger D → ActionLedger D
  append day writes entry l =
      let rotated =
        if ltb 0 l.entry_count && (l.entry_count % l.max_entries == 0)
        then record l { last_hash = "" }
        else l in
      if writes
      then record rotated { files = insert day (read day l ++ written entry ∷ []) l.files }
      else rotated

module _ {D : Type 0} (hmac : Fields D → String) where
  -- `log`, on a given day; the caller's `prev` is replaced by the hash of the entry before
  unfoldable pub log : String → Bool → Fields D → ActionLedger D → Entry D × ActionLedger D
  log day writes f l =
      let chained = record f { prev = l.last_hash } in
      let entry : Entry D = record { fields = chained; hash = hmac chained } in
      (
        entry,
        append day writes entry
            (record l { last_hash = entry.hash; entry_count = l.entry_count + 1 }),
      )

  -- the loop of `verify_chain`, from the hash of the line before
  unfoldable pub verify_lines : String → List (Line D) → Bool
  verify_lines prev [] = true
  verify_lines prev (blank ∷ lines) = verify_lines prev lines
  verify_lines prev (corrupt ∷ lines) = false
  verify_lines prev (written e ∷ lines) =
      let rest = verify_lines e.hash lines in
      if not (str_eq e.fields.prev prev)
      then false
      else if not (str_eq e.hash (hmac e.fields))
      then false
      else rest

  -- of the file of a given day; a file that is not there is in order
  unfoldable pub verify_chain : String → ActionLedger D → Bool
  verify_chain day l = elim (lookup day l.files) [
    | none ↦ true
    | some lines ↦ verify_lines "" lines
  ]

-- What `export` keeps: an argument that is not given lets everything pass.
pub record Filters : Type 0 where
  pub category : Option String
  pub tenant_id : Option String
  pub errors_only : Bool

module _ {D : Type 0} where
  unfoldable pub passes : Filters → Entry D → Bool
  passes f e =
      (elim f.category [ none ↦ true | some c ↦ str_eq e.fields.cat c ])
      && (elim f.tenant_id [ none ↦ true | some t ↦ str_eq e.fields.tid t ])
      && not (f.errors_only && str_eq e.fields.status "ok")

  abbrev pub entries_of : List (Line D) → List (Entry D)
  entries_of [] = []
  entries_of (blank ∷ lines) = entries_of lines
  entries_of (corrupt ∷ lines) = entries_of lines
  entries_of (written e ∷ lines) = e ∷ entries_of lines

  -- `sorted(..., reverse=True)` by the name, which ends with the day
  abbrev pub later_first : String × List (Line D) → String × List (Line D) → Bool
  later_first a b = lex_le (codes b.0) (codes a.0)

  abbrev pub collect : Filters → List (String × List (Line D)) → List (Entry D)
  collect f [] = []
  collect f ((day, lines) ∷ files) = keep (passes f) (entries_of lines) ++ collect f files

  -- `xs[-n:]`, which is all of `xs` where `n` is zero
  abbrev pub last_items : ℕ → List (Entry D) → List (Entry D)
  last_items n xs = if n == 0 then xs else drop (length xs - n) xs

  unfoldable pub export : ℕ → Filters → ActionLedger D → List (Entry D)
  unfolding passes
  export last_n f l = last_items last_n (collect f (take 2 (sort later_first l.files)))
