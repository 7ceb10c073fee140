-- ===== src/Ban/Escalation.antt =====
-- How failures escalate.
use native.Mathlib.Nat.{le_trans}
use vela_flow_public.Prelude.{
  ◌||◌, ◌⊎◌, ap, ℕ, ◌+◌, ◌≤◌, ◌<◌, ◌≡◌, refl, String, true, false, none, some, List, [], ◌∷◌, ◌++◌,
  length, arith, eq_refl,
}
use vela_flow_public.Dict.{lookup, insert, lookup-insert}
use vela_flow_public.Ban.{
  no_stage, hard, rank, Rule, soft_rule, medium_rule, hard_rule, BanRecord, BanManager, record_of,
  is_banned, timed, recent, escalate, evaluate_escalation, record_failure,
}

-- A round leaves the stage or raises it to its own.
rank-escalate :
    (key : String) (now : ℕ) (rule : Rule) (s : BanRecord × BanManager)
    → rank s.0.stage ≤ rank (escalate key now rule s).0.stage
unfolding escalate
rank-escalate key now rule s = ground arith

rank-evaluate :
    (key : String) (now : ℕ) (s : BanRecord × BanManager)
    → rank s.0.stage ≤ rank (evaluate_escalation key now s).0.stage
unfolding evaluate_escalation
rank-evaluate key now s =
    let s1 = escalate key now soft_rule s in
    let s2 = escalate key now medium_rule s1 in
    le_trans (rank-escalate key now soft_rule s)
      (le_trans (rank-escalate key now medium_rule s1) (rank-escalate key now hard_rule s2))

record_of-insert :
    (key : String) (r : BanRecord) (m : BanManager)
    → record_of key (record m { records = insert key r m.records }) ≡ r
unfolding record_of
record_of-insert key r m = ground (arith, lookup-insert key key r m.records, eq_refl key)

record_of-record_failure :
    (now : ℕ) (key : String) (m : BanManager)
    → let r = record_of key m in
      record_of key (record_failure now key m)
      ≡ (evaluate_escalation key now (record r { failures = r.failures ++ now ∷ [] }, m)).0
unfolding record_failure
record_of-record_failure now key m =
    let r = record_of key m in
    let (r', m') =
      evaluate_escalation key now (record r { failures = r.failures ++ now ∷ [] }, m) in
    record_of-insert key r' m'

-- A failure never lowers the stage of a key.
pub record_failure-stage_mono :
    (now : ℕ) (key : String) (m : BanManager)
    → rank (record_of key m).stage ≤ rank (record_of key (record_failure now key m)).stage
record_failure-stage_mono now key m =
    let r = record_of key m in
    rw (record_of-record_failure now key m)
      (rank-evaluate key now (record r { failures = r.failures ++ now ∷ [] }, m))

-- rounds do nothing to a record that has reached the last stage
evaluate-hard :
    (key : String) (now : ℕ) (r : BanRecord) (m : BanManager)
    → r.stage ≡ hard
    → evaluate_escalation key now (r, m) ≡ (r, m)
unfolding evaluate_escalation escalate
evaluate-hard key now r m h = ground arith

-- Failures of one key, one after another, at the given times.
abbrev pub failures : String → List ℕ → BanManager → BanManager
failures key [] m = m
failures key (t ∷ ts) m = failures key ts (record_failure t key m)

record IsSpent (key : String) (m : BanManager) (until : ℕ) : Type 0 where
  not_listed : lookup key m.permanent_bans ≡ none
  recorded :
      (r : BanRecord) × (lookup key m.records ≡ some r)
      × (r.stage ≡ hard)
      × (r.is_permanent ≡ false)
      × (r.banned_until ≡ until)

record_failure-hard :
    (t : ℕ) (key : String) (m : BanManager)
    → (record_of key m).stage ≡ hard
    → let r = record_of key m in
      record_failure t key m
      ≡ record m { records = insert key (record r { failures = r.failures ++ t ∷ [] }) m.records }
unfolding record_failure
record_failure-hard t key m h =
    let r = record_of key m in
    ap (λ s. record s.1 { records = insert key s.0 s.1.records })
      (evaluate-hard key t (record r { failures = r.failures ++ t ∷ [] }) m h)

record_of-found :
    (key : String) (m : BanManager) (r : BanRecord)
    → lookup key m.records ≡ some r
    → record_of key m ≡ r
unfolding record_of
record_of-found key m r e = ground arith

record_failure-IsSpent :
    (t until : ℕ) (key : String) (m : BanManager)
    → IsSpent key m until
    → IsSpent key (record_failure t key m) until
record_failure-IsSpent t until key m v =
    let (r, found, h, temp, u) = v.recorded in
    let same = record_of-found key m r found in
    let counted = record r { failures = r.failures ++ t ∷ [] } in
    rw (record_failure-hard t key m (rw same h), same)
      (record {
        not_listed = v.not_listed;
        recorded = (
          counted,
          ground (arith, lookup-insert key key counted m.records, eq_refl key),
          h,
          temp,
          u,
        );
      })

failures-IsSpent :
    (key : String) (ts : List ℕ) (m : BanManager) (until : ℕ)
    → IsSpent key m until
    → IsSpent key (failures key ts m) until
failures-IsSpent key [] m until v = v
failures-IsSpent key (t ∷ ts) m until v =
    failures-IsSpent key ts (record_failure t key m) until (record_failure-IsSpent t until key m v)

spent-not_banned :
    (key : String) (now : ℕ) (m : BanManager) (until : ℕ)
    → until ≤ now
    → IsSpent key m until
    → is_banned now key m ≡ false
unfolding is_banned
spent-not_banned key now m until le v = ground arith

-- After the ban of the last stage has run out, a key that keeps failing is never banned again,
-- however many failures follow and however fast.
pub hard_never_again :
    (key : String) (ts : List ℕ) (m : BanManager) (r : BanRecord) (now : ℕ)
    → lookup key m.permanent_bans ≡ none
    → lookup key m.records ≡ some r
    → r.stage ≡ hard
    → r.is_permanent ≡ false
    → r.banned_until ≤ now
    → is_banned now key (failures key ts m) ≡ false
hard_never_again key ts m r now a b c d e =
    spent-not_banned key now (failures key ts m) r.banned_until e (
      failures-IsSpent key ts m r.banned_until
        (record { not_listed = a; recorded = (r, b, c, d, refl) }))

-- rounds raise the end of a ban, or make it permanent
escalate-extends :
    (key : String) (now : ℕ) (rule : Rule) (s : BanRecord × BanManager)
    → s.0.is_permanent ≡ true ⊎ (now + 300 ≤ s.0.banned_until)
    → 300 ≤ rule.ban_seconds
    → ((escalate key now rule s).0.is_permanent ≡ true)
      ⊎ (now + 300 ≤ (escalate key now rule s).0.banned_until)
unfolding escalate
escalate-extends key now rule s h long = ground arith

banning :
    (t now : ℕ) (r : BanRecord)
    → (r.is_permanent ≡ true) ⊎ (now + 300 ≤ r.banned_until)
    → t < now + 300
    → (r.is_permanent || timed t r) ≡ true
banning t now r h soon = ground arith

is_banned-insert :
    (t : ℕ) (key : String) (r : BanRecord) (m : BanManager)
    → (r.is_permanent || timed t r) ≡ true
    → is_banned t key (record m { records = insert key r m.records }) ≡ true
unfolding is_banned
is_banned-insert t key r m h = ground (arith, lookup-insert key key r m.records, eq_refl key)

-- A failure that is the fifth within 300 seconds, of a key for which no stage was reached, bans the
-- key for the next 300 seconds at least.
pub fifth_failure_bans :
    (now t : ℕ) (key : String) (m : BanManager)
    → (record_of key m).stage ≡ no_stage
    → 5 ≤ length (recent now 300 ((record_of key m).failures ++ now ∷ []))
    → t < now + 300
    → is_banned t key (record_failure now key m) ≡ true
fifth_failure_bans now t key m h five soon =
    let r = record_of key m in
    let s : BanRecord × BanManager = (record r { failures = r.failures ++ now ∷ [] }, m) in
    let s1 = escalate key now soft_rule s in
    let s2 = escalate key now medium_rule s1 in
    let e1 : (s1.0.is_permanent ≡ true) ⊎ (now + 300 ≤ s1.0.banned_until) =
      unfold escalate in ground arith in
    let e2 = escalate-extends key now medium_rule s1 e1 (omega arith) in
    let e3 = escalate-extends key now hard_rule s2 e2 (omega arith) in
    let s3 = escalate key now hard_rule s2 in
    unfold record_failure evaluate_escalation in
    is_banned-insert t key s3.0 s3.1 (banning t now s3.0 e3 soon)
