-- ===== src/Tenant/Users/Tests.antt =====
-- A manager's users and invitations, and the theorems at concrete inputs.
use vela_flow_public.Prelude.{
  ◌≡◌, refl, ◌∙◌, sym, ap, String, true, false, Option, none, some, [], ◌∷◌, eq_iff, arith,
}
use vela_flow_public.Prelude.Text.{lower, same_text}
use vela_flow_public.Dict.{lookup}
use vela_flow_public.Tenant.Users.{
  member, viewer, admin, User, Invite, Store, NewUser, get_user_by_google_sub, find_or_create_user,
  redeem_invite,
}
use vela_flow_public.Tenant.Users.Indexing.{IsSound}
use vela_flow_public.Tenant.Users.Ops.{set_role, deactivate, login, redeem, run, run-IsSound}
use vela_flow_public.Tenant.Users.Login.{IsLogin, subject_returns}
use vela_flow_public.Tenant.Users.Invites.{redeem_once}

abbrev ann : User
ann = record {
  user_id = "usr_1";
  tenant_id = "tn_1";
  google_sub = "sub_1";
  email = 97 ∷ [];
  name = "Ann";
  picture_url = "";
  user_role = member;
  is_active = true;
  created_at = 3;
  last_login = none;
  login_count = 4;
}

abbrev bob : NewUser
bob = record {
  user_id = "usr_2";
  tenant_id = "tn_1";
  google_sub = "sub_2";
  email = 98 ∷ [];
  name = "Bob";
  picture_url = "";
  user_role = viewer;
  created_at = 9;
}

-- an invitation for the email "A"
abbrev invitation : Invite
invitation = record {
  tenant_id = "tn_1";
  email = 97 ∷ [];
  role = viewer;
  used = false;
  redeemed_by = none;
}

abbrev store : Store
store = record {
  users = ("usr_1", ann) ∷ [];
  index = ("sub_1", "usr_1") ∷ [];
  invites = ("code", invitation) ∷ [];
}

keyed : (id : String) (u : User) → lookup id store.users ≡ some u → u.user_id ≡ id
unfolding lookup
keyed id u h = ground (arith, eq_iff "usr_1" id)

indexed : (sub id : String) → lookup sub store.index ≡ some id → ("sub_1" ≡ sub) × ("usr_1" ≡ id)
unfolding lookup
indexed sub id h = ground (arith, eq_iff "sub_1" sub)

ann_stored : lookup "usr_1" store.users ≡ some ann
unfolding lookup
ann_stored = refl

store-IsSound : IsSound store
store-IsSound = record {
  keyed = keyed;
  indexed = λ sub id h.
      let (its, own) = indexed sub id h in
      (ann, ap (λ i. lookup i store.users) (sym own) ∙ ann_stored, its, own);
}

run-IsSound_example : IsSound (
    run lower
      (login 10 bob
        ∷ set_role "usr_1" admin
        ∷ deactivate "usr_2"
        ∷ redeem "code" "sub_2" (65 ∷ [])
        ∷ [])
      store)
unfolding lookup
run-IsSound_example =
    run-IsSound lower
      (login 10 bob
        ∷ set_role "usr_1" admin
        ∷ deactivate "usr_2"
        ∷ redeem "code" "sub_2" (65 ∷ [])
        ∷ [])
      store (refl, (tt, (tt, (tt, tt)))) store-IsSound

subject_returns_example :
    (get_user_by_google_sub "sub_2" (find_or_create_user 10 bob store).1
      ≡ some (find_or_create_user 10 bob store).0)
    × IsLogin 10 bob (get_user_by_google_sub "sub_2" store) (find_or_create_user 10 bob store).0
subject_returns_example = subject_returns 10 bob store store-IsSound

granted :
    (redeem_invite lower "code" "sub_2" (65 ∷ []) store).0
    ≡ some (record invitation { used = true; redeemed_by = some "sub_2" })
unfolding redeem_invite lookup lower
granted = refl

redeem_once_example :
    (same_text (lower (97 ∷ [])) (lower (65 ∷ [])) ≡ true)
    × (◌≡◌ {A = Option String} (some "sub_2") (some "sub_2"))
    × (redeem_invite lower "code" "sub_3" (97 ∷ []) (
          run lower
            (deactivate "usr_1" ∷ [])
            (redeem_invite lower "code" "sub_2" (65 ∷ []) store).1)
        ≡ (
          none,
          run lower
              (deactivate "usr_1" ∷ [])
              (redeem_invite lower "code" "sub_2" (65 ∷ []) store).1,
        ))
redeem_once_example =
    redeem_once lower "code" "sub_2" (65 ∷ []) store
      (record invitation { used = true; redeemed_by = some "sub_2" }) (deactivate "usr_1" ∷ [])
      "sub_3" (97 ∷ []) granted (tt, tt)
