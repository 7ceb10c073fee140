-- ===== src/Ban/Tests.antt =====
-- Runs of the ban manager, and the theorems at concrete inputs.
use vela_flow_public.Prelude.{◌≤◌, ◌≡◌, refl, true, false, ◌||◌, none, List, [], ◌∷◌, arith}
use vela_flow_public.Dict.{lookup, contains, insert}
use vela_flow_public.Ban.{
  BanRecord, BanManager, new_record, hard, start, record_of, recent, evaluate_escalation, escalate,
  rank, record_failure, record_success, ban_permanent, unban, is_banned, get_ban_remaining,
  list_bans, seconds,
}
use vela_flow_public.Ban.Status.{list_bans-eq-is_banned, is_banned-eq-remaining, some_left}
use vela_flow_public.Ban.Escalation.{
  failures, record_failure-stage_mono, fifth_failure_bans, hard_never_again,
}
use vela_flow_public.Ban.Admin.{
  Event, failure, success, apply_all, unban_lifts, ban_permanent_lasts, restart,
  ban_survives_restart, success_lifts,
}

abbrev fresh : BanManager
fresh = start false true true none

-- five quick failures ban for 300 seconds
five : get_ban_remaining 10 "ip" (failures "ip" (1 ∷ 2 ∷ 3 ∷ 4 ∷ 5 ∷ []) fresh) ≡ seconds 295
unfolding start record_failure record_of recent evaluate_escalation escalate get_ban_remaining
    insert lookup
five = refl

abbrev four_failures : BanRecord
four_failures = record new_record { failures = 1 ∷ 2 ∷ 3 ∷ 4 ∷ [] }

abbrev watched : BanManager
watched = record fresh { records = ("ip", four_failures) ∷ [] }

is_banned-eq-remaining_run : is_banned 3 "ip" watched ≡ some_left (get_ban_remaining 3 "ip" watched)
is_banned-eq-remaining_run = is_banned-eq-remaining 3 "ip" watched

list_bans-eq-is_banned_example : contains "ip" (list_bans 3 watched) ≡ is_banned 3 "ip" watched
list_bans-eq-is_banned_example = list_bans-eq-is_banned 3 "ip" watched (unfold lookup in (refl, tt))

record_failure-stage_mono_run :
    rank (record_of "ip" watched).stage
    ≤ rank (record_of "ip" (record_failure 5 "ip" watched)).stage
record_failure-stage_mono_run = record_failure-stage_mono 5 "ip" watched

fifth_failure_bans_run : is_banned 200 "ip" (record_failure 5 "ip" watched) ≡ true
unfolding record_of recent lookup
fifth_failure_bans_run = fifth_failure_bans 5 200 "ip" watched refl (omega arith) (omega arith)

abbrev served : BanRecord
served = record new_record { banned_until = 100; stage = hard }

abbrev served_out : BanManager
served_out = record fresh { records = ("ip", served) ∷ [] }

hard_never_again_example :
    is_banned 131 "ip" (failures "ip" (126 ∷ 127 ∷ 128 ∷ 129 ∷ 130 ∷ []) served_out) ≡ false
unfolding start lookup
hard_never_again_example =
    hard_never_again "ip" (126 ∷ 127 ∷ 128 ∷ 129 ∷ 130 ∷ []) served_out served 131 refl refl refl
      refl (omega arith)

unban_lifts_example :
    (is_banned 7 "ip" (unban "ip" served_out).0 ≡ false)
    × ((unban "ip" served_out).1
        ≡ (contains "ip" served_out.permanent_bans || contains "ip" served_out.records))
unban_lifts_example = unban_lifts 7 "ip" served_out

abbrev later : List Event
later = success "ip" ∷ failure 9 "ip" ∷ []

ban_permanent_lasts_run : is_banned 10 "ip" (apply_all later (ban_permanent "ip" "" fresh)) ≡ true
ban_permanent_lasts_run = ban_permanent_lasts 10 "ip" "" later fresh

ban_survives_restart_example : is_banned 10 "ip" (restart (ban_permanent "ip" "" fresh)) ≡ true
unfolding start
ban_survives_restart_example = ban_survives_restart 10 "ip" "" fresh refl refl

success_lifts_example :
    (is_banned 10 "ip" (record_success "ip" watched) ≡ false)
    × (record_of "ip" (record_success "ip" watched) ≡ new_record)
unfolding record_of start lookup
success_lifts_example = success_lifts 10 "ip" watched refl refl
