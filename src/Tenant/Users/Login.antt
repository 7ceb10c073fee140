-- ===== src/Tenant/Users/Login.antt =====
-- What a login returns, and what its subject finds afterwards.
use vela_flow_public.Prelude.{
  ℕ, ◌+◌, ◌≡◌, ◌∙◌, sym, refl, subst, String, true, Option, none, some, eq_refl, Option-cases, inl,
  inr,
}
use vela_flow_public.Dict.{lookup, lookup-insert}
use vela_flow_public.Tenant.Users.{
  User, Store, get_user_by_google_sub, save_user, NewUser, new_user, create_user, refreshed,
  find_or_create_user,
}
use vela_flow_public.Tenant.Users.Indexing.{
  IsSound, by_sub-some, found_entry, logged_in, login-new, login-old,
}

-- what a login returns, from the user that its subject found before
abbrev pub IsLogin : ℕ → NewUser → Option User → User → Type 0
IsLogin now n none u =
    (u.user_id ≡ n.user_id)
    × (u.tenant_id ≡ n.tenant_id)
    × (u.google_sub ≡ n.google_sub)
    × (u.user_role ≡ n.user_role)
    × (u.is_active ≡ true)
    × (u.login_count ≡ 1)
    × (u.last_login ≡ some now)
IsLogin now n (some old) u =
    (u.user_id ≡ old.user_id)
    × (u.tenant_id ≡ old.tenant_id)
    × (u.google_sub ≡ old.google_sub)
    × (u.user_role ≡ old.user_role)
    × (u.is_active ≡ old.is_active)
    × (u.login_count ≡ old.login_count + 1)
    × (u.last_login ≡ some now)

saved_found :
    (sub id : String) (u : User) (s : Store)
    → lookup sub s.index ≡ some id
    → u.user_id ≡ id
    → get_user_by_google_sub sub (save_user u s) ≡ some u
saved_found sub id u s at own =
    by_sub-some sub (save_user u s) id at
    ∙ lookup-insert u.user_id id u s.users
    ∙ rw own (rw (eq_refl id) refl)

indexed : (n : NewUser) (s : Store) → lookup n.google_sub (create_user n s).1.index ≡ some n.user_id
unfolding create_user
indexed n s =
    lookup-insert n.google_sub n.google_sub n.user_id s.index ∙ rw (eq_refl n.google_sub) refl

-- After a login, its subject finds the user that the login returned. A subject that had a user keeps
-- that user's id, tenant, role and active flag, with one more login counted, also when the user is not
-- active; a subject that had none gets an active user with the given id, tenant and role, and one
-- login. The hypothesis says that users are stored under their ids, and that the index gives users
-- that are stored and have the subject.
pub subject_returns :
    (now : ℕ) (n : NewUser) (s : Store)
    → IsSound s
    → (get_user_by_google_sub n.google_sub (find_or_create_user now n s).1
        ≡ some (find_or_create_user now n s).0)
      × IsLogin now n (get_user_by_google_sub n.google_sub s) (find_or_create_user now n s).0
subject_returns now n s sound = elim (Option-cases (get_user_by_google_sub n.google_sub s)) [
  | inl missing ↦
      let new = logged_in now (new_user n) in
      let P : User × Store → Type 0 = λ r.
        (get_user_by_google_sub n.google_sub r.1 ≡ some r.0)
        × IsLogin now n (get_user_by_google_sub n.google_sub s) r.0 in
      subst P (sym (login-new now n s missing)) (
        saved_found n.google_sub n.user_id new (create_user n s).1 (indexed n s) refl,
        subst (λ o. IsLogin now n o new) (sym missing) (refl, refl, refl, refl, refl, refl, refl),
      )
  | inr (u, found) ↦
      let (id, here, at, its, own) = found_entry n.google_sub s u sound found in
      let old = logged_in now (refreshed n u) in
      let P : User × Store → Type 0 = λ r.
        (get_user_by_google_sub n.google_sub r.1 ≡ some r.0)
        × IsLogin now n (get_user_by_google_sub n.google_sub s) r.0 in
      subst P (sym (login-old now n s u found)) (
        saved_found n.google_sub id old s here own,
        subst (λ o. IsLogin now n o old) (sym found) (refl, refl, refl, refl, refl, refl, refl),
      )
]
