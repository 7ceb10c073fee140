-- ===== src/Tenant/Users.antt =====
-- tenant/user_manager.py: `UserManager` over the stored users, the index of subjects and the stored
-- invitations. The ids, the codes and the times that a call makes are given to it. An email is its
-- code points; Python's `str.lower`, with its table of Unicode, is a parameter.
pub mod Indexing
pub mod Invites
pub mod Login
pub mod Ops
mod Tests
use vela_flow_public.Prelude.{
  ℕ, ◌+◌, String, Bool, true, false, not, ◌&&◌, ◌||◌, Option, none, some, List, [], ◌∷◌, str_eq,
  if◌then◌else◌,
}
use vela_flow_public.Prelude.Text.{same_text}
use vela_flow_public.Dict.{Dict, lookup, insert}

pub data UserRole : Type 0 where
  owner admin member viewer demo : UserRole

pub record User : Type 0 where
  pub user_id : String
  pub tenant_id : String
  pub google_sub : String
  pub email : List ℕ
  pub name : String
  pub picture_url : String
  pub user_role : UserRole
  pub is_active : Bool
  pub created_at : ℕ
  pub last_login : Option ℕ
  pub login_count : ℕ

pub record Invite : Type 0 where
  pub tenant_id : String
  pub email : List ℕ
  pub role : UserRole
  pub used : Bool
  pub redeemed_by : Option String

pub record Store : Type 0 where
  pub users : Dict User
  pub index : Dict String
  pub invites : Dict Invite

abbrev pub get_user : String → Store → Option User
get_user id s = lookup id s.users

unfoldable pub get_user_by_google_sub : String → Store → Option User
get_user_by_google_sub sub s = elim (lookup sub s.index) [ none ↦ none | some id ↦ get_user id s ]

-- the scan of the index for an email
unfoldable pub scan_email : (List ℕ → List ℕ) → List ℕ → Dict String → Store → Option User
scan_email lower email [] s = none
scan_email lower email ((sub, id) ∷ index) s = elim (get_user id s) [
  | none ↦ scan_email lower email index s
  | some u ↦
      let rest = scan_email lower email index s in
      if same_text (lower u.email) (lower email) then some u else rest
]

abbrev pub get_user_by_email : (List ℕ → List ℕ) → List ℕ → Store → Option User
get_user_by_email lower email s = scan_email lower email s.index s

unfoldable pub scan_tenant : String → Dict String → Store → List User
scan_tenant tenant [] s = []
scan_tenant tenant ((sub, id) ∷ index) s =
    let rest = scan_tenant tenant index s in
    elim (get_user id s) [
      | none ↦ rest
      | some u ↦ if str_eq u.tenant_id tenant then u ∷ rest else rest
    ]

abbrev pub list_users : String → Store → List User
list_users tenant s = scan_tenant tenant s.index s

abbrev pub save_user : User → Store → Store
save_user u s = record s { users = insert u.user_id u s.users }

-- the arguments of `create_user`, with the id and the time
pub record NewUser : Type 0 where
  pub user_id : String
  pub tenant_id : String
  pub google_sub : String
  pub email : List ℕ
  pub name : String
  pub picture_url : String
  pub user_role : UserRole
  pub created_at : ℕ

abbrev pub new_user : NewUser → User
new_user n = record {
  user_id = n.user_id;
  tenant_id = n.tenant_id;
  google_sub = n.google_sub;
  email = n.email;
  name = n.name;
  picture_url = n.picture_url;
  user_role = n.user_role;
  is_active = true;
  created_at = n.created_at;
  last_login = none;
  login_count = 0;
}

unfoldable pub create_user : NewUser → Store → User × Store
create_user n s =
    let saved = save_user (new_user n) s in
    (new_user n, record saved { index = insert n.google_sub n.user_id saved.index })

unfoldable pub update_user_role : String → UserRole → Store → Option User × Store
update_user_role id new_role s = elim (get_user id s) [
  | none ↦ (none, s)
  | some u ↦ let u' = record u { user_role = new_role } in (some u', save_user u' s)
]

unfoldable pub deactivate_user : String → Store → Bool × Store
deactivate_user id s = elim (get_user id s) [
  | none ↦ (false, s)
  | some u ↦ (true, save_user (record u { is_active = false }) s)
]

unfoldable pub record_login : ℕ → User → Store → User × Store
record_login now u s =
    let u' = record u { last_login = some now; login_count = u.login_count + 1 } in
    (u', save_user u' s)

-- `new or old`
abbrev or_old : String → String → String
or_old new old = if str_eq new "" then old else new

abbrev pub refreshed : NewUser → User → User
refreshed n u = record u {
  name = or_old n.name u.name;
  picture_url = or_old n.picture_url u.picture_url;
}

unfoldable pub find_or_create_user : ℕ → NewUser → Store → User × Store
find_or_create_user now n s = elim (get_user_by_google_sub n.google_sub s) [
  | some u ↦ record_login now (refreshed n u) s
  | none ↦ let (u, s') = create_user n s in record_login now u s'
]

unfoldable pub create_invite :
    (List ℕ → List ℕ) → String → String → List ℕ → UserRole → Store → Store
create_invite lower code tenant email role s = record s {
  invites =
      insert code
        (record {
          tenant_id = tenant;
          email = lower email;
          role = role;
          used = false;
          redeemed_by = none;
        })
        s.invites;
}

unfoldable pub redeem_invite :
    (List ℕ → List ℕ) → String → String → List ℕ → Store → Option Invite × Store
redeem_invite lower code google_sub email s = elim (lookup code s.invites) [
  | none ↦ (none, s)
  | some i ↦
      let i' = record i { used = true; redeemed_by = some google_sub } in
      if i.used
      then (none, s)
      else if not (same_text (lower i.email) (lower email))
      then (none, s)
      else (some i', record s { invites = insert code i' s.invites })
]
