-- ===== src/Ledger/Tests.antt =====
-- A ledger at work with a plain digest, and its theorems at concrete inputs.
use vela_flow_public.Prelude.{
  ℕ, ◌≡◌, ◌≤◌, refl, String, true, false, none, some, [], ◌∷◌, length, All, str_eq, eq_iff, arith,
}
use vela_flow_public.Prelude.Text.{lex_le}
use vela_flow_public.Dict.{lookup, insert}
use vela_flow_public.Ledger.{
  Fields, Entry, blank, corrupt, written, ActionLedger, start, append, log, verify_lines,
  verify_chain, Filters, passes, export,
}
use vela_flow_public.Ledger.Integrity.{log_all, verify_exact, restart_breaks, new_day_breaks}
use vela_flow_public.Ledger.Tamper.{last_hash_determines}
use vela_flow_public.Ledger.Export.{export-passes, export_older}

-- a digest for the tests
abbrev digest : Fields ℕ → String
digest f = elim f.prev [ String.[] ↦ "first" | String.◌∷◌ c s ↦ "next" ]

digest-NeverEmpty : (f : Fields ℕ) → str_eq "" (digest f) ≡ false
digest-NeverEmpty f = elim f.prev as (λ p. str_eq "" (digest (record f { prev = p })) ≡ false) [
  | String.[] ↦ refl
  | String.◌∷◌ c s ↦ refl
]

abbrev login : Fields ℕ
login = record {
  ts = 1;
  cat = "auth";
  act = "login";
  tid = "tenant";
  uid = "user";
  status = "ok";
  dur_ms = none;
  detail = none;
  err = none;
  prev = "";
}

abbrev crash : Fields ℕ
crash = record login { ts = 2; cat = "crash"; status = "crash"; err = some "oops" }

two_entries :
    verify_chain digest "d1" (log_all digest "d1" (login ∷ crash ∷ []) (start 2 [])) ≡ true
unfolding log_all log append insert lookup verify_chain verify_lines
two_entries = refl

verify_exact_example :
    verify_chain digest "d1" (log_all digest "d1" (login ∷ crash ∷ login ∷ []) (start 2 [])) ≡ false
unfolding lookup
verify_exact_example =
    verify_exact digest "d1" (login ∷ crash ∷ login ∷ []) 2 [] digest-NeverEmpty (omega arith) refl

abbrev first : Entry ℕ
first = record { fields = login; hash = "first" }

abbrev second : Entry ℕ
second = record { fields = record crash { prev = "first" }; hash = "next" }

restart_breaks_run :
    verify_chain digest "d1"
      (log digest "d1" true crash (start 9 (("d1", written first ∷ []) ∷ []))).1
    ≡ false
unfolding lookup verify_lines
restart_breaks_run =
    restart_breaks digest "d1" crash 9 (("d1", written first ∷ []) ∷ []) [] first digest-NeverEmpty
      refl refl

first_collision : digest login ≡ digest second.fields → login ≡ second.fields
first_collision e = ground (arith, eq_iff "first" "next")

second_collision : digest second.fields ≡ digest login → second.fields ≡ login
second_collision e = ground (arith, eq_iff "next" "first")

last_hash_determines_example : first ∷ second ∷ [] ≡ first ∷ second ∷ []
unfolding verify_lines
last_hash_determines_example =
    last_hash_determines digest (first ∷ second ∷ []) (first ∷ second ∷ []) digest-NeverEmpty
      (((λ _. refl), (first_collision, tt)), ((second_collision, ((λ _. refl), tt)), tt)) refl refl
      refl

abbrev errors : Filters
errors = record { category = none; tenant_id = none; errors_only = true }

abbrev every : Filters
every = record { category = none; tenant_id = none; errors_only = false }

abbrev two_days : ActionLedger ℕ
two_days = start 9 (
    ("2026-04-01", written first ∷ written second ∷ [])
    ∷ ("2026-04-02", written first ∷ corrupt ∷ blank ∷ [])
    ∷ [])

export-passes_example :
    (length (export 5 errors two_days) ≤ 5)
    × All (λ e. passes errors e ≡ true) (export 5 errors two_days)
export-passes_example = export-passes 5 errors two_days (omega arith)

export_older_run : export 1 every two_days ≡ second ∷ []
unfolding lex_le passes
export_older_run =
    export_older 1 every two_days "2026-04-01" "2026-04-02" (written first ∷ corrupt ∷ blank ∷ [])
      (written first ∷ written second ∷ []) refl refl (omega arith) (omega arith)

new_day_breaks_run :
    verify_chain digest "d2"
      (log digest "d2" true crash (log digest "d1" true login (start 9 [])).1).1
    ≡ false
unfolding log append insert lookup
new_day_breaks_run =
    new_day_breaks digest "d2" crash (log digest "d1" true login (start 9 [])).1 refl refl
