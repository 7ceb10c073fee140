-- ===== src/Tenant/Users/Invites.antt =====
-- An invitation is redeemed at most once, by the email it was made for in lower case.
use vela_flow_public.Prelude.{
  ℕ, ◌≡◌, ◌≢◌, ◌⊎◌, ◌∙◌, sym, ap, refl, subst, String, true, false, none, some, List, [], ◌∷◌,
  str_eq, eq_iff, eq_refl, arith, Bool-cases, Option-cases, inl, inr,
}
use vela_flow_public.Prelude.Text.{same_text}
use vela_flow_public.Dict.{lookup, insert, lookup-insert}
use vela_flow_public.Tenant.Users.{
  UserRole, Invite, Store, NewUser, create_user, update_user_role, deactivate_user, record_login,
  find_or_create_user, create_invite, redeem_invite,
}
use vela_flow_public.Tenant.Users.Indexing.{some_inj, none-ne-some}
use vela_flow_public.Tenant.Users.Ops.{
  Op, create, set_role, deactivate, login, invite, redeem, step, run,
}

-- an invitation that is stored and used, by this subject
pub record IsUsed (code sub : String) (s : Store) : Type 0 where
  pub entry : Invite
  pub stored : lookup code s.invites ≡ some entry
  pub used : entry.used ≡ true
  pub by : entry.redeemed_by ≡ some sub

true-ne-false : true ≢ false
true-ne-false h = cc

-- the operation does not make an invitation with this code
abbrev pub IsOther : String → Op → Type 0
IsOther code (invite made tenant email role) = str_eq made code ≡ false
IsOther code op = Unit

abbrev pub AreOther : String → List Op → Type 0
AreOther code [] = Unit
AreOther code (op ∷ ops) = IsOther code op × AreOther code ops

IsUsed-same :
    (code sub : String) (s s' : Store)
    → lookup code s'.invites ≡ lookup code s.invites
    → IsUsed code sub s
    → IsUsed code sub s'
IsUsed-same code sub s s' same u = record {
  entry = u.entry;
  stored = same ∙ u.stored;
  used = u.used;
  by = u.by;
}

role-invites :
    (id : String) (role : UserRole) (s : Store) → (update_user_role id role s).1.invites ≡ s.invites
unfolding update_user_role
role-invites id role s = ground arith

deactivate-invites : (id : String) (s : Store) → (deactivate_user id s).1.invites ≡ s.invites
unfolding deactivate_user
deactivate-invites id s = ground arith

create-invites : (n : NewUser) (s : Store) → (create_user n s).1.invites ≡ s.invites
unfolding create_user
create-invites n s = refl

login-invites :
    (now : ℕ) (n : NewUser) (s : Store) → (find_or_create_user now n s).1.invites ≡ s.invites
unfolding find_or_create_user record_login create_user
login-invites now n s = ground arith

module _ (lower : List ℕ → List ℕ) where
  invite-other :
      (code made tenant : String) (email : List ℕ) (role : UserRole) (s : Store)
      → str_eq made code ≡ false
      → lookup code (create_invite lower made tenant email role s).invites ≡ lookup code s.invites
  unfolding create_invite
  invite-other code made tenant email role s other =
      let new : Invite = record {
        tenant_id = tenant;
        email = lower email;
        role = role;
        used = false;
        redeemed_by = none;
      } in
      lookup-insert made code new s.invites ∙ rw other refl

  -- a code that is not there, or is there and used, is not redeemed
  redeem-used :
      (code sub : String) (email : List ℕ) (s : Store) (i : Invite)
      → lookup code s.invites ≡ some i
      → i.used ≡ true
      → redeem_invite lower code sub email s ≡ (none, s)
  unfolding redeem_invite
  redeem-used code sub email s i here used = ground (arith, here, used)

  abbrev redeemed_by : String → Invite → Invite
  redeemed_by sub i = record i { used = true; redeemed_by = some sub }

  redeem-missing :
      (code sub : String) (email : List ℕ) (s : Store)
      → lookup code s.invites ≡ none
      → redeem_invite lower code sub email s ≡ (none, s)
  unfolding redeem_invite
  redeem-missing code sub email s h = ground (arith, h)

  redeem-wrong :
      (code sub : String) (email : List ℕ) (s : Store) (i : Invite)
      → lookup code s.invites ≡ some i
      → same_text (lower i.email) (lower email) ≡ false
      → redeem_invite lower code sub email s ≡ (none, s)
  unfolding redeem_invite
  redeem-wrong code sub email s i here wrong = ground (arith, here, wrong)

  redeem-right :
      (code sub : String) (email : List ℕ) (s : Store) (i : Invite)
      → lookup code s.invites ≡ some i
      → i.used ≡ false
      → same_text (lower i.email) (lower email) ≡ true
      → redeem_invite lower code sub email s ≡ (
        some (redeemed_by sub i),
        record s { invites = insert code (redeemed_by sub i) s.invites },
      )
  unfolding redeem_invite
  redeem-right code sub email s i here fresh right = ground (arith, here, fresh, right)

  -- a call of redeem_invite lower either changes nothing, or uses a stored invitation that was not used
  redeem-cases :
      (code sub : String) (email : List ℕ) (s : Store)
      → (redeem_invite lower code sub email s ≡ (none, s))
        ⊎ ((i : Invite) × (lookup code s.invites ≡ some i)
            × (i.used ≡ false)
            × (same_text (lower i.email) (lower email) ≡ true)
            × (redeem_invite lower code sub email s ≡ (
              some (redeemed_by sub i),
              record s { invites = insert code (redeemed_by sub i) s.invites },
            )))
  redeem-cases code sub email s = elim (Option-cases (lookup code s.invites)) [
    | inl missing ↦ inl (redeem-missing code sub email s missing)
    | inr (i, here) ↦ elim (Bool-cases i.used) [
      | inl used ↦ inl (redeem-used code sub email s i here used)
      | inr fresh ↦ elim (Bool-cases (same_text (lower i.email) (lower email))) [
        | inl right ↦ inr (i, here, fresh, right, redeem-right code sub email s i here fresh right)
        | inr wrong ↦ inl (redeem-wrong code sub email s i here wrong)
      ]
    ]
  ]

  redeem-IsUsed :
      (code sub : String) (made by : String) (email : List ℕ) (s : Store)
      → IsUsed code sub s
      → IsUsed code sub (redeem_invite lower made by email s).1
  redeem-IsUsed code sub made by email s u = elim (redeem-cases made by email s) [
    | inl same ↦ subst (λ r. IsUsed code sub r.1) (sym same) u
    | inr (i, here, fresh, right, done) ↦
        let found = lookup-insert made code (redeemed_by by i) s.invites in
        let other : str_eq made code ≡ false = elim (Bool-cases (str_eq made code)) [
          | inl same ↦ absurd (
              true-ne-false (
                sym u.used
                ∙ ap (λ j. j.used)
                    (some_inj u.entry i (
                      sym u.stored
                      ∙ ap (λ c. lookup c s.invites) (sym ((eq_iff made code).0 same))
                      ∙ here))
                ∙ fresh))
          | inr other ↦ other
        ] in
        subst (λ r. IsUsed code sub r.1) (sym done)
          (IsUsed-same code sub s (record s { invites = insert made (redeemed_by by i) s.invites })
            (found ∙ rw other refl) u)
  ]

  step-IsUsed :
      (code sub : String) (op : Op) (s : Store)
      → IsOther code op
      → IsUsed code sub s
      → IsUsed code sub (step lower op s)
  step-IsUsed code sub (create n) s other u =
      IsUsed-same code sub s (step lower (create n) s) (ap (lookup code) (create-invites n s)) u
  step-IsUsed code sub (set_role id role) s other u =
      IsUsed-same code sub s (step lower (set_role id role) s)
        (ap (lookup code) (role-invites id role s)) u
  step-IsUsed code sub (deactivate id) s other u =
      IsUsed-same code sub s (step lower (deactivate id) s)
        (ap (lookup code) (deactivate-invites id s)) u
  step-IsUsed code sub (login now n) s other u =
      IsUsed-same code sub s (step lower (login now n) s) (ap (lookup code) (login-invites now n s))
        u
  step-IsUsed code sub (invite made tenant email role) s other u =
      IsUsed-same code sub s (step lower (invite made tenant email role) s)
        (invite-other code made tenant email role s other) u
  step-IsUsed code sub (redeem made by email) s other u = redeem-IsUsed code sub made by email s u

  run-IsUsed :
      (code sub : String) (ops : List Op) (s : Store)
      → AreOther code ops
      → IsUsed code sub s
      → IsUsed code sub (run lower ops s)
  run-IsUsed code sub [] s other u = u
  run-IsUsed code sub (op ∷ ops) s (other, others) u =
      run-IsUsed code sub ops (step lower op s) others (step-IsUsed code sub op s other u)

  -- Once an invitation was redeemed, its email in lower case is the one it was redeemed with in lower
  -- case, and its code is not redeemed again, by whatever subject and email, after any operations among
  -- which none makes an invitation with the same code. What lower case is, is a parameter.
  pub redeem_once :
      (code sub : String) (email : List ℕ) (s : Store) (granted : Invite) (ops : List Op)
      (by : String) (again : List ℕ)
      → (redeem_invite lower code sub email s).0 ≡ some granted
      → AreOther code ops
      → (same_text (lower granted.email) (lower email) ≡ true)
        × (granted.redeemed_by ≡ some sub)
        × (redeem_invite lower code by again
              (run lower ops (redeem_invite lower code sub email s).1)
            ≡ (none, run lower ops (redeem_invite lower code sub email s).1))
  redeem_once code sub email s granted ops by again h others =
      elim (redeem-cases code sub email s) [
        | inl same ↦ absurd (none-ne-some granted (ap (λ r. r.0) (sym same) ∙ h))
        | inr (i, here, fresh, right, done) ↦
            let its : redeemed_by sub i ≡ granted =
              some_inj (redeemed_by sub i) granted (ap (λ r. r.0) (sym done) ∙ h) in
            let stored : Store = record s { invites = insert code (redeemed_by sub i) s.invites } in
            let at : lookup code stored.invites ≡ some (redeemed_by sub i) =
              lookup-insert code code (redeemed_by sub i) s.invites ∙ rw (eq_refl code) refl in
            let kept : IsUsed code sub (run lower ops stored) =
              run-IsUsed code sub ops stored others
                (record { entry = redeemed_by sub i; stored = at; used = refl; by = refl }) in
            (
              subst (λ g. same_text (lower g.email) (lower email) ≡ true) its right,
              ap (λ g. g.redeemed_by) (sym its),
              subst
                  (λ r.
                    redeem_invite lower code by again (run lower ops r.1)
                    ≡ (none, run lower ops r.1))
                  (sym done)
                  (redeem-used code by again (run lower ops stored) kept.entry kept.stored
                    kept.used),
            )
      ]
