-- ===== src/Ban/Status.antt =====
-- The two ways to ask about a ban, and the administrator's list, agree.
use vela_flow_public.Prelude.{
  ℕ, ◌-◌, length, ◌≡◌, refl, String, Bool, true, false, ◌||◌, ◌∙◌, Option, none, some, [], ◌∷◌,
  arith, ltb, str_eq, eq_iff, if◌then◌else◌,
}
use vela_flow_public.Dict.{Dict, lookup, contains, insert, lookup-insert}
use vela_flow_public.Dict.Unique.{IsUnique}
use vela_flow_public.Ban.{
  BanRecord, BanManager, timed, Remaining, forever, seconds, is_banned, get_ban_remaining, Listed,
  permanent, temporary, list_permanent, list_record, list_records, list_bans,
}

abbrev pub some_left : Remaining → Bool
some_left forever = true
some_left (seconds n) = ltb 0 n

-- A key is banned exactly while its remaining time is not zero.
pub is_banned-eq-remaining :
    (now : ℕ) (key : String) (m : BanManager)
    → is_banned now key m ≡ some_left (get_ban_remaining now key m)
unfolding is_banned get_ban_remaining
is_banned-eq-remaining now key m = ground arith

lookup-list_permanent :
    (bans : Dict String) (result : Dict Listed) (key : String)
    → contains key (list_permanent bans result) ≡ (contains key bans || contains key result)
unfolding list_permanent lookup
lookup-list_permanent [] result key = refl
lookup-list_permanent ((k, reason) ∷ rest) result key =
    lookup-list_permanent rest (insert k (permanent reason) result) key
    ∙ ground (arith, lookup-insert k key (permanent reason) result)

abbrev active : ℕ → Option BanRecord → Bool
active now none = false
active now (some r) = r.is_permanent || timed now r

contains-list_record :
    (now : ℕ) (k : String) (r : BanRecord) (result : Dict Listed) (key : String)
    → contains key (list_record now k r result)
      ≡ (contains key result || (if str_eq k key then active now (some r) else false))
unfolding list_record
contains-list_record now k r result key = ground (
  arith,
  lookup-insert k key
      (temporary r.stage (if r.is_permanent then forever else seconds (r.banned_until - now))
        (length r.failures))
      result,
  eq_iff k key,
)

contains-list_records :
    (now : ℕ) (records : Dict BanRecord) (result : Dict Listed) (key : String)
    → IsUnique records
    → contains key (list_records now records result)
      ≡ (contains key result || active now (lookup key records))
unfolding list_records lookup
contains-list_records now [] result key u = ground arith
contains-list_records now ((k, r) ∷ rest) result key u =
    contains-list_records now rest (list_record now k r result) key u.1
    ∙ ground (arith, contains-list_record now k r result key, eq_iff k key, u.0)

-- The list of active bans has an entry for exactly the keys that are banned.
pub list_bans-eq-is_banned :
    (now : ℕ) (key : String) (m : BanManager)
    → IsUnique m.records
    → contains key (list_bans now m) ≡ is_banned now key m
unfolding list_bans is_banned lookup
list_bans-eq-is_banned now key m u =
    contains-list_records now m.records (list_permanent m.permanent_bans []) key u
    ∙ ground (arith, lookup-list_permanent m.permanent_bans [] key)
