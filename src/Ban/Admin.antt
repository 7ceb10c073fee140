-- ===== src/Ban/Admin.antt =====
-- What lifts a ban and what does not, and that permanent bans survive a restart.
use vela_flow_public.Prelude.{
  ℕ, ◌≡◌, String, true, false, List, [], ◌∷◌, ◌++◌, arith, str_eq, eq_refl, if◌then◌else◌, ◌||◌,
}
use vela_flow_public.Dict.{lookup, contains, lookup-insert, lookup-erase}
use vela_flow_public.Ban.{
  Rule, soft_rule, medium_rule, hard_rule, BanRecord, BanManager, start, record_of, is_banned,
  escalate, evaluate_escalation, record_failure, new_record, record_success, ban_permanent, unban,
}

-- After `unban` a key is not banned, at any time, and the call reports whether it removed something.
pub unban_lifts :
    (now : ℕ) (key : String) (m : BanManager)
    → let (m', removed) = unban key m in
      (is_banned now key m' ≡ false)
      × (removed ≡ (contains key m.permanent_bans || contains key m.records))
unfolding unban is_banned
unban_lifts now key m =
    ground
      (arith, lookup-erase key key m.permanent_bans, lookup-erase key key m.records, eq_refl key)

-- The operations of a client or an administrator other than `unban`.
pub data Event : Type 0 where
  failure : ℕ → String → Event
  success : String → Event
  ban : String → String → Event

abbrev pub apply : Event → BanManager → BanManager
apply (failure now key) m = record_failure now key m
apply (success key) m = record_success key m
apply (ban key reason) m = ban_permanent key reason m

abbrev pub apply_all : List Event → BanManager → BanManager
apply_all [] m = m
apply_all (e ∷ es) m = apply_all es (apply e m)

escalate-keeps :
    (key other : String) (now : ℕ) (rule : Rule) (s : BanRecord × BanManager)
    → contains other s.1.permanent_bans ≡ true
    → contains other (escalate key now rule s).1.permanent_bans ≡ true
unfolding escalate
escalate-keeps key other now rule s h =
    ground (arith, lookup-insert key other "Stage 3 auto-escalation" s.1.permanent_bans)

evaluate-keeps :
    (key other : String) (now : ℕ) (s : BanRecord × BanManager)
    → contains other s.1.permanent_bans ≡ true
    → contains other (evaluate_escalation key now s).1.permanent_bans ≡ true
unfolding evaluate_escalation
evaluate-keeps key other now s h =
    let s1 = escalate key now soft_rule s in
    let s2 = escalate key now medium_rule s1 in
    escalate-keeps key other now hard_rule s2
      (escalate-keeps key other now medium_rule s1 (escalate-keeps key other now soft_rule s h))

apply-keeps :
    (e : Event) (other : String) (m : BanManager)
    → contains other m.permanent_bans ≡ true
    → contains other (apply e m).permanent_bans ≡ true
unfolding record_failure record_success ban_permanent
apply-keeps (failure now key) other m h =
    let r = record_of key m in
    evaluate-keeps key other now (record r { failures = r.failures ++ now ∷ [] }, m) h
apply-keeps (success key) other m h = ground arith
apply-keeps (ban key reason) other m h = ground (
  arith,
  lookup-insert key other (if str_eq reason "" then "Manual admin ban" else reason)
      m.permanent_bans,
)

apply_all-keeps :
    (es : List Event) (other : String) (m : BanManager)
    → contains other m.permanent_bans ≡ true
    → contains other (apply_all es m).permanent_bans ≡ true
apply_all-keeps [] other m h = h
apply_all-keeps (e ∷ es) other m h = apply_all-keeps es other (apply e m) (apply-keeps e other m h)

contains-ban_permanent :
    (key reason : String) (m : BanManager)
    → contains key (ban_permanent key reason m).permanent_bans ≡ true
unfolding ban_permanent
contains-ban_permanent key reason m = ground (
  arith,
  lookup-insert key key (if str_eq reason "" then "Manual admin ban" else reason) m.permanent_bans,
  eq_refl key,
)

contains-is_banned :
    (now : ℕ) (key : String) (m : BanManager)
    → contains key m.permanent_bans ≡ true
    → is_banned now key m ≡ true
unfolding is_banned
contains-is_banned now key m h = ground arith

-- A key that an administrator bans stays banned at every later time, whatever failures, successes
-- and other bans follow, for this key or for others, as long as nothing is unbanned.
pub ban_permanent_lasts :
    (now : ℕ) (key reason : String) (es : List Event) (m : BanManager)
    → is_banned now key (apply_all es (ban_permanent key reason m)) ≡ true
ban_permanent_lasts now key reason es m =
    contains-is_banned now key (apply_all es (ban_permanent key reason m))
      (apply_all-keeps es key (ban_permanent key reason m) (contains-ban_permanent key reason m))

-- a process that starts on the disk that `m` leaves behind
abbrev pub restart : BanManager → BanManager
restart m = start m.permanent_stage3 m.persistent m.writable m.disk

-- Where saves succeed, a key that is banned by an administrator is banned after a restart too.
pub ban_survives_restart :
    (now : ℕ) (key reason : String) (m : BanManager)
    → m.persistent ≡ true
    → m.writable ≡ true
    → is_banned now key (restart (ban_permanent key reason m)) ≡ true
unfolding start ban_permanent
ban_survives_restart now key reason m p w =
    contains-is_banned now key (restart (ban_permanent key reason m)) (
      unfold lookup in
      ground (
        arith,
        lookup-insert key key (if str_eq reason "" then "Manual admin ban" else reason)
            m.permanent_bans,
        eq_refl key,
      ))

-- A success of a key that is not banned for good removes its record, and with it a ban that has
-- not run out yet; the key is as if it had never failed.
pub success_lifts :
    (now : ℕ) (key : String) (m : BanManager)
    → contains key m.permanent_bans ≡ false
    → (record_of key m).is_permanent ≡ false
    → (is_banned now key (record_success key m) ≡ false)
      × (record_of key (record_success key m) ≡ new_record)
unfolding record_success is_banned record_of
success_lifts now key m a b = ground (arith, lookup-erase key key m.records, eq_refl key)
