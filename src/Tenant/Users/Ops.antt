-- ===== src/Tenant/Users/Ops.antt =====
-- The operations of the user manager in any order: the index stays sound.
use vela_flow_public.Prelude.{
  ℕ, ◌≡◌, ◌∙◌, sym, ap, refl, subst, String, false, none, List, [], ◌∷◌, arith, Option-cases, inl,
  inr,
}
use vela_flow_public.Dict.{lookup}
use vela_flow_public.Tenant.Users.{
  UserRole, Store, get_user_by_google_sub, save_user, NewUser, new_user, create_user,
  update_user_role, deactivate_user, refreshed, find_or_create_user, create_invite, redeem_invite,
}
use vela_flow_public.Tenant.Users.Indexing.{
  Entry, IsSound, save-IsSound, create-IsSound, found_entry, logged_in, login-new, login-old,
  created,
}

-- what a manager is asked to do, with the ids, codes and times that it makes
pub data Op : Type 0 where
  create : NewUser → Op
  set_role : String → UserRole → Op
  deactivate : String → Op
  login : ℕ → NewUser → Op
  invite : String → String → List ℕ → UserRole → Op
  redeem : String → String → List ℕ → Op

abbrev pub step : (List ℕ → List ℕ) → Op → Store → Store
step lower (create n) s = (create_user n s).1
step lower (set_role id role) s = (update_user_role id role s).1
step lower (deactivate id) s = (deactivate_user id s).1
step lower (login now n) s = (find_or_create_user now n s).1
step lower (invite code tenant email role) s = create_invite lower code tenant email role s
step lower (redeem code sub email) s = (redeem_invite lower code sub email s).1

-- an id that is made is not in use
abbrev pub IsFresh : Op → Store → Type 0
IsFresh (create n) s = lookup n.user_id s.users ≡ none
IsFresh (login now n) s = lookup n.user_id s.users ≡ none
IsFresh op s = Unit

abbrev pub run : (List ℕ → List ℕ) → List Op → Store → Store
run lower [] s = s
run lower (op ∷ ops) s = run lower ops (step lower op s)

abbrev pub AreFresh : (List ℕ → List ℕ) → List Op → Store → Type 0
AreFresh lower [] s = Unit
AreFresh lower (op ∷ ops) s = IsFresh op s × AreFresh lower ops (step lower op s)

role-IsSound :
    (id : String) (role : UserRole) (s : Store) → IsSound s → IsSound (update_user_role id role s).1
role-IsSound id role s sound = elim (Option-cases (lookup id s.users)) [
  | inl missing ↦
      let e : s ≡ (update_user_role id role s).1 =
        unfold update_user_role in ground (arith, missing) in
      subst IsSound e sound
  | inr (u, here) ↦
      let u' = record u { user_role = role } in
      let e : save_user u' s ≡ (update_user_role id role s).1 =
        unfold update_user_role in ground (arith, here) in
      subst IsSound e
        (save-IsSound s u u' (ap (λ i. lookup i s.users) (sound.keyed id u here) ∙ here) refl sound)
]

deactivate-IsSound : (id : String) (s : Store) → IsSound s → IsSound (deactivate_user id s).1
deactivate-IsSound id s sound = elim (Option-cases (lookup id s.users)) [
  | inl missing ↦
      let e : s ≡ (deactivate_user id s).1 = unfold deactivate_user in ground (arith, missing) in
      subst IsSound e sound
  | inr (u, here) ↦
      let u' = record u { is_active = false } in
      let e : save_user u' s ≡ (deactivate_user id s).1 =
        unfold deactivate_user in ground (arith, here) in
      subst IsSound e
        (save-IsSound s u u' (ap (λ i. lookup i s.users) (sound.keyed id u here) ∙ here) refl sound)
]

login-IsSound :
    (now : ℕ) (n : NewUser) (s : Store)
    → lookup n.user_id s.users ≡ none
    → IsSound s
    → IsSound (find_or_create_user now n s).1
login-IsSound now n s fresh sound = elim (Option-cases (get_user_by_google_sub n.google_sub s)) [
  | inl missing ↦ subst IsSound (ap (λ r. r.1) (sym (login-new now n s missing))) (
      save-IsSound (create_user n s).1 (new_user n) (logged_in now (new_user n)) (created n s) refl
        (create-IsSound n s fresh sound))
  | inr (u, found) ↦
      let (id, here, at, its, own) = found_entry n.google_sub s u sound found in
      subst IsSound (ap (λ r. r.1) (sym (login-old now n s u found))) (
        save-IsSound s u (logged_in now (refreshed n u)) (ap (λ i. lookup i s.users) own ∙ at) refl
          sound)
]

module _ (lower : List ℕ → List ℕ) where
  invite-IsSound :
      (code tenant : String) (email : List ℕ) (role : UserRole) (s : Store)
      → IsSound s
      → IsSound (create_invite lower code tenant email role s)
  unfolding create_invite
  invite-IsSound code tenant email role s sound = record {
    keyed = sound.keyed;
    indexed = sound.indexed;
  }

  redeem-keeps :
      (code sub : String) (email : List ℕ) (s : Store)
      → ((redeem_invite lower code sub email s).1.users ≡ s.users)
        × ((redeem_invite lower code sub email s).1.index ≡ s.index)
  unfolding redeem_invite
  redeem-keeps code sub email s = (ground arith, ground arith)

  IsSound-same : (s s' : Store) → s'.users ≡ s.users → s'.index ≡ s.index → IsSound s → IsSound s'
  IsSound-same s s' users index sound = record {
    keyed = λ id u h. sound.keyed id u (ap (lookup id) (sym users) ∙ h);
    indexed = λ sub id h.
        subst (Entry sub id) (sym users) (sound.indexed sub id (ap (lookup sub) (sym index) ∙ h));
  }

  step-IsSound : (op : Op) (s : Store) → IsFresh op s → IsSound s → IsSound (step lower op s)
  step-IsSound (create n) s fresh sound = create-IsSound n s fresh sound
  step-IsSound (set_role id role) s fresh sound = role-IsSound id role s sound
  step-IsSound (deactivate id) s fresh sound = deactivate-IsSound id s sound
  step-IsSound (login now n) s fresh sound = login-IsSound now n s fresh sound
  step-IsSound (invite code tenant email role) s fresh sound =
      invite-IsSound code tenant email role s sound
  step-IsSound (redeem code sub email) s fresh sound =
      let (users, index) = redeem-keeps code sub email s in
      IsSound-same s (redeem_invite lower code sub email s).1 users index sound

  -- Where every id that is made is not in use, users stay stored under their own ids, and the index keeps
  -- giving for each of its subjects the id of a stored user that has this subject, whatever a manager is
  -- asked to do.
  pub run-IsSound :
      (ops : List Op) (s : Store) → AreFresh lower ops s → IsSound s → IsSound (run lower ops s)
  run-IsSound [] s fresh sound = sound
  run-IsSound (op ∷ ops) s (fresh, later) sound =
      run-IsSound ops (step lower op s) later (step-IsSound op s fresh sound)
