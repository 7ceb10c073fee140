-- ===== src/Ban.antt =====
-- security/ban.py: `BanManager`. A time is a number of seconds of the monotonic clock, and each
-- method takes the reading that it makes. The lock makes every method one step.
pub mod Status
pub mod Escalation
pub mod Admin
mod Tests
use vela_flow_public.Prelude.{
  ℕ, ◌+◌, ◌-◌, String, Bool, true, false, ◌&&◌, ◌||◌, Option, none, some, List, [], ◌∷◌, ◌++◌,
  length, keep, ltb, leb, str_eq, if◌then◌else◌,
}
use vela_flow_public.Dict.{Dict, lookup, contains, insert, erase}

-- `NONE` is `no_stage`
pub data BanStage : Type 0 where
  no_stage soft medium hard : BanStage

-- the number of the `IntEnum`
abbrev pub rank : BanStage → ℕ
rank no_stage = 0
rank soft = 1
rank medium = 2
rank hard = 3

abbrev pub is_hard : BanStage → Bool
is_hard hard = true
is_hard _ = false

-- an entry of `_ESCALATION_RULES`, with the stage that its place in the list stands for
pub record Rule : Type 0 where
  pub stage : BanStage
  pub threshold : ℕ
  pub window : ℕ
  pub ban_seconds : ℕ

abbrev pub soft_rule : Rule
soft_rule = record { stage = soft; threshold = 5; window = 300; ban_seconds = 300 }

abbrev pub medium_rule : Rule
medium_rule = record { stage = medium; threshold = 10; window = 900; ban_seconds = 1800 }

abbrev pub hard_rule : Rule
hard_rule = record { stage = hard; threshold = 20; window = 3600; ban_seconds = 86400 }

pub record BanRecord : Type 0 where
  pub failures : List ℕ
  pub banned_until : ℕ
  pub stage : BanStage
  pub is_permanent : Bool

abbrev pub new_record : BanRecord
new_record = record { failures = []; banned_until = 0; stage = no_stage; is_permanent = false }

-- `disk` is the content of the file at `_persist_path`; `writable` says whether a save succeeds.
pub record BanManager : Type 0 where
  pub records : Dict BanRecord
  pub permanent_stage3 : Bool
  pub permanent_bans : Dict String
  pub persistent : Bool
  pub writable : Bool
  pub disk : Option (Dict String)

unfoldable pub save_persistent_bans : BanManager → BanManager
save_persistent_bans m =
    if m.persistent && m.writable then record m { disk = some m.permanent_bans } else m

-- the constructor; a file that is there is loaded into the empty dict of permanent bans
unfoldable pub start : Bool → Bool → Bool → Option (Dict String) → BanManager
start permanent_stage3 persistent writable disk = record {
  records = [];
  permanent_stage3 = permanent_stage3;
  permanent_bans = if persistent then (elim disk [ none ↦ [] | some bans ↦ bans ]) else [];
  persistent = persistent;
  writable = writable;
  disk = disk;
}

unfoldable pub record_of : String → BanManager → BanRecord
record_of key m = elim (lookup key m.records) [ none ↦ new_record | some r ↦ r ]

-- `banned_until > 0 and now < banned_until`
abbrev pub timed : ℕ → BanRecord → Bool
timed now r = ltb 0 r.banned_until && ltb now r.banned_until

unfoldable pub is_banned : ℕ → String → BanManager → Bool
is_banned now key m = if contains key m.permanent_bans then true else elim (lookup key m.records) [
  | none ↦ false
  | some r ↦ if r.is_permanent then true else timed now r
]

pub data Remaining : Type 0 where
  forever : Remaining
  seconds : ℕ → Remaining

unfoldable pub get_ban_remaining : ℕ → String → BanManager → Remaining
get_ban_remaining now key m =
    if contains key m.permanent_bans then forever else elim (lookup key m.records) [
      | none ↦ seconds 0
      | some r ↦ if r.is_permanent then forever else seconds (r.banned_until - now)
    ]

-- `t > now - window`, with the subtraction moved to the other side
unfoldable pub recent : ℕ → ℕ → List ℕ → List ℕ
recent now window failures = keep (λ t. ltb now (t + window)) failures

-- one round of `_evaluate_escalation`
unfoldable pub escalate : String → ℕ → Rule → BanRecord × BanManager → BanRecord × BanManager
unfolding save_persistent_bans
escalate key now rule (r, m) =
    if leb (rank rule.stage) (rank r.stage)
    then (r, m)
    else if leb rule.threshold (length (recent now rule.window r.failures))
    then (if is_hard rule.stage && m.permanent_stage3
        then (
          record r { stage = rule.stage; is_permanent = true; banned_until = 0 },
          save_persistent_bans
              (record m { permanent_bans = insert key "Stage 3 auto-escalation" m.permanent_bans }),
        )
        else (record r { stage = rule.stage; banned_until = now + rule.ban_seconds }, m))
    else (r, m)

unfoldable pub evaluate_escalation : String → ℕ → BanRecord × BanManager → BanRecord × BanManager
evaluate_escalation key now s =
    escalate key now hard_rule (escalate key now medium_rule (escalate key now soft_rule s))

-- the record is shared with the dict, so what is evaluated stands in it
unfoldable pub record_failure : ℕ → String → BanManager → BanManager
record_failure now key m =
    let r = record_of key m in
    let (r', m') =
      evaluate_escalation key now (record r { failures = r.failures ++ now ∷ [] }, m) in
    record m' { records = insert key r' m'.records }

unfoldable pub record_success : String → BanManager → BanManager
record_success key m = elim (lookup key m.records) [
  | none ↦ m
  | some r ↦ if r.is_permanent then m else record m { records = erase key m.records }
]

-- `reason or "Manual admin ban"`
unfoldable pub ban_permanent : String → String → BanManager → BanManager
unfolding save_persistent_bans
ban_permanent key reason m = save_persistent_bans (record m {
  permanent_bans =
      insert key (if str_eq reason "" then "Manual admin ban" else reason) m.permanent_bans;
})

unfoldable pub unban : String → BanManager → BanManager × Bool
unfolding save_persistent_bans
unban key m =
    let admin = contains key m.permanent_bans in
    let counted = contains key m.records in
    let m' =
      if admin
      then save_persistent_bans (record m { permanent_bans = erase key m.permanent_bans })
      else m in
    (if counted then record m' { records = erase key m'.records } else m', admin || counted)

-- `list_bans`: an entry says whether it is permanent, with the reason or the stage
pub data Listed : Type 0 where
  permanent : String → Listed
  temporary : BanStage → Remaining → ℕ → Listed

unfoldable pub list_permanent : Dict String → Dict Listed → Dict Listed
list_permanent [] result = result
list_permanent ((key, reason) ∷ rest) result =
    list_permanent rest (insert key (permanent reason) result)

-- one round of the loop over the records
unfoldable pub list_record : ℕ → String → BanRecord → Dict Listed → Dict Listed
list_record now key r result =
    if contains key result
    then result
    else if r.is_permanent || timed now r
    then insert key
        (temporary r.stage (if r.is_permanent then forever else seconds (r.banned_until - now))
          (length r.failures))
        result
    else result

unfoldable pub list_records : ℕ → Dict BanRecord → Dict Listed → Dict Listed
list_records now [] result = result
list_records now ((key, r) ∷ rest) result = list_records now rest (list_record now key r result)

unfoldable pub list_bans : ℕ → BanManager → Dict Listed
unfolding list_permanent list_records list_record
list_bans now m = list_records now m.records (list_permanent m.permanent_bans [])
