-- ===== src/Tenant/Users/Indexing.antt =====
-- The index of subjects agrees with the stored users, whatever is done to them.
use vela_flow_public.Prelude.{
  ℕ, ◌+◌, ◌≡◌, ◌≢◌, ◌∙◌, sym, ap, refl, String, true, none, some, str_eq, eq_iff, eq_refl, arith,
  Bool-cases, Option-cases, inl, inr,
}
use vela_flow_public.Dict.{Dict, lookup, insert, lookup-insert}
use vela_flow_public.Tenant.Users.{
  User, Store, get_user_by_google_sub, save_user, NewUser, new_user, create_user, record_login,
  refreshed, find_or_create_user,
}

-- the user that the index gives for a subject is stored under its id and has this subject
abbrev pub Entry : String → String → Dict User → Type 0
Entry sub id users =
    (u : User) × (lookup id users ≡ some u) × (u.google_sub ≡ sub) × (u.user_id ≡ id)

-- users are stored under their ids, and the index has an entry for each of its subjects
pub record IsSound (s : Store) : Type 0 where
  pub keyed : (id : String) (u : User) → lookup id s.users ≡ some u → u.user_id ≡ id
  pub indexed : (sub id : String) → lookup sub s.index ≡ some id → Entry sub id s.users

pub some_inj {ℓ} : {A : Type ℓ} (x y : A) → some x ≡ some y → x ≡ y
some_inj x y h = cc

pub none-ne-some {ℓ} : {A : Type ℓ} (x : A) → none ≢ some x
none-ne-some x h = cc

keyed-insert :
    (users : Dict User) (new : User)
    → ((id : String) (u : User) → lookup id users ≡ some u → u.user_id ≡ id)
    → (id : String) (u : User) → lookup id (insert new.user_id new users) ≡ some u
    → u.user_id ≡ id
keyed-insert users new keyed id u h =
    let found = lookup-insert new.user_id id new users in
    elim (Bool-cases (str_eq new.user_id id)) [
      | inl same ↦
          ap (λ v. v.user_id) (sym (some_inj new u (sym (found ∙ rw same refl) ∙ h)))
          ∙ (eq_iff new.user_id id).0 same
      | inr other ↦ keyed id u (sym (found ∙ rw other refl) ∙ h)
    ]

Entry-insert :
    (users : Dict User) (new : User) (sub id : String)
    → (str_eq new.user_id id ≡ true → new.google_sub ≡ sub)
    → Entry sub id users
    → Entry sub id (insert new.user_id new users)
Entry-insert users new sub id agrees (u, here, its, own) =
    let found = lookup-insert new.user_id id new users in
    elim (Bool-cases (str_eq new.user_id id)) [
      | inl same ↦ (new, found ∙ rw same refl, agrees same, (eq_iff new.user_id id).0 same)
      | inr other ↦ (u, found ∙ rw other here, its, own)
    ]

-- a user that is stored is written again with the same id and subject
pub save-IsSound :
    (s : Store) (old new : User)
    → lookup new.user_id s.users ≡ some old
    → new.google_sub ≡ old.google_sub
    → IsSound s
    → IsSound (save_user new s)
save-IsSound s old new here same sound = record {
  keyed = keyed-insert s.users new sound.keyed;
  indexed = λ sub id h.
      let e = sound.indexed sub id h in
      Entry-insert s.users new sub id
        (λ at.
          same
          ∙ ap (λ u. u.google_sub)
              (some_inj old e.0
                (sym here ∙ ap (λ i. lookup i s.users) ((eq_iff new.user_id id).0 at) ∙ e.1))
          ∙ e.2)
        e;
}

pub create-IsSound :
    (n : NewUser) (s : Store)
    → lookup n.user_id s.users ≡ none
    → IsSound s
    → IsSound (create_user n s).1
unfolding create_user
create-IsSound n s fresh sound = record {
  keyed = keyed-insert s.users (new_user n) sound.keyed;
  indexed = λ sub id h.
      let found = lookup-insert n.google_sub sub n.user_id s.index in
      elim (Bool-cases (str_eq n.google_sub sub)) [
        | inl same ↦
            let at : n.user_id ≡ id = some_inj n.user_id id (sym (found ∙ rw same refl) ∙ h) in
            (
              new_user n,
              lookup-insert n.user_id id (new_user n) s.users
                  ∙ rw ((eq_iff n.user_id id).1 at) refl,
              (eq_iff n.google_sub sub).0 same,
              at,
            )
        | inr other ↦
            let e = sound.indexed sub id (sym (found ∙ rw other refl) ∙ h) in
            Entry-insert s.users (new_user n) sub id
              (λ at. absurd (
                none-ne-some e.0
                  (sym fresh ∙ ap (λ i. lookup i s.users) ((eq_iff n.user_id id).0 at) ∙ e.1)))
              e
      ];
}

by_sub-none :
    (sub : String) (s : Store) → lookup sub s.index ≡ none → get_user_by_google_sub sub s ≡ none
unfolding get_user_by_google_sub
by_sub-none sub s h = ground (arith, h)

pub by_sub-some :
    (sub : String) (s : Store) (id : String)
    → lookup sub s.index ≡ some id
    → get_user_by_google_sub sub s ≡ lookup id s.users
unfolding get_user_by_google_sub
by_sub-some sub s id h = ground (arith, h)

-- the user that a login finds, as it was stored
pub found_entry :
    (sub : String) (s : Store) (u : User)
    → IsSound s
    → get_user_by_google_sub sub s ≡ some u
    → (id : String) × (lookup sub s.index ≡ some id)
      × (lookup id s.users ≡ some u)
      × (u.google_sub ≡ sub)
      × (u.user_id ≡ id)
found_entry sub s u sound found = elim (Option-cases (lookup sub s.index)) [
  | inl missing ↦ absurd (none-ne-some u (sym (by_sub-none sub s missing) ∙ found))
  | inr (id, here) ↦
      let e = sound.indexed sub id here in
      let same : e.0 ≡ u = some_inj e.0 u (sym e.1 ∙ sym (by_sub-some sub s id here) ∙ found) in
      (
        id,
        here,
        e.1 ∙ ap some same,
        ap (λ v. v.google_sub) (sym same) ∙ e.2,
        ap (λ v. v.user_id) (sym same) ∙ e.3,
      )
]

-- the user that is stored by a login
abbrev pub logged_in : ℕ → User → User
logged_in now u = record u { last_login = some now; login_count = u.login_count + 1 }

pub login-new :
    (now : ℕ) (n : NewUser) (s : Store)
    → get_user_by_google_sub n.google_sub s ≡ none
    → find_or_create_user now n s
      ≡ (logged_in now (new_user n), save_user (logged_in now (new_user n)) (create_user n s).1)
unfolding find_or_create_user create_user record_login
login-new now n s h = ground (arith, h)

pub login-old :
    (now : ℕ) (n : NewUser) (s : Store) (u : User)
    → get_user_by_google_sub n.google_sub s ≡ some u
    → find_or_create_user now n s
      ≡ (logged_in now (refreshed n u), save_user (logged_in now (refreshed n u)) s)
unfolding find_or_create_user record_login
login-old now n s u h = ground (arith, h)

pub created :
    (n : NewUser) (s : Store) → lookup n.user_id (create_user n s).1.users ≡ some (new_user n)
unfolding create_user
created n s = lookup-insert n.user_id n.user_id (new_user n) s.users ∙ rw (eq_refl n.user_id) refl
