-- ===== src/ZeroTrust/Nonces.antt =====
-- How long a nonce stays in the cache of a request signer.
use vela_flow_public.Prelude.{
  ℕ, zero, suc, ◌+◌, ◌-◌, ◌/◌, ◌≤◌, ◌<◌, ◌≡◌, ◌∙◌, ap, refl, String, true, [], ◌∷◌, ◌++◌, drop,
  length, length-append, ltb, ltb→lt, length-drop, eq_refl, arith, Bool-cases, inl, inr,
}
use mathlib.Core.List.{append_assoc}
use vela_flow_public.ZeroTrust.{Nonces, is_seen, remember}

-- the nonce is in the cache, with at most `k` later ones
pub record IsRecent (nonce : String) (k : ℕ) (seen : Nonces) : Type 0 where
  pub before : Nonces
  pub at : ℕ
  pub after : Nonces
  pub found : seen ≡ before ++ (nonce, at) ∷ after
  pub few : length after ≤ k

is_seen-append :
    (nonce : String) (xs ys : Nonces) → is_seen nonce ys ≡ true → is_seen nonce (xs ++ ys) ≡ true
is_seen-append nonce [] ys h = h
is_seen-append nonce (x ∷ xs) ys h = ground (arith, is_seen-append nonce xs ys h)

pub IsRecent-is_seen :
    (nonce : String) (k : ℕ) (seen : Nonces) → IsRecent nonce k seen → is_seen nonce seen ≡ true
IsRecent-is_seen nonce k seen r =
    rw r.found (is_seen-append nonce r.before ((nonce, r.at) ∷ r.after) (rw (eq_refl nonce) refl))

-- entries can be dropped that stand before the nonce
drop-before : (n : ℕ) (xs ys : Nonces) → n ≤ length xs → drop n (xs ++ ys) ≡ drop n xs ++ ys
drop-before zero xs ys h = refl
drop-before (suc n) [] ys h = ground arith
drop-before (suc n) (x ∷ xs) ys h = drop-before n xs ys (omega arith)

-- another nonce that is recorded leaves a recent one in the cache
pub remember-IsRecent :
    (size now : ℕ) (other nonce : String) (k : ℕ) (seen : Nonces)
    → k < size - size / 2
    → length seen ≤ size
    → IsRecent nonce k seen
    → IsRecent nonce (suc k) (remember size now other seen)
unfolding remember
remember-IsRecent size now other nonce k seen room fits r =
    let seen' = seen ++ (other, now) ∷ [] in
    let later = (nonce, r.at) ∷ r.after ++ (other, now) ∷ [] in
    let split : seen' ≡ r.before ++ later =
      ap (λ s. s ++ (other, now) ∷ []) r.found
      ∙ append_assoc r.before ((nonce, r.at) ∷ r.after) ((other, now) ∷ []) in
    let few : length (r.after ++ (other, now) ∷ []) ≤ suc k =
      omega (arith, r.few, length-append r.after ((other, now) ∷ [])) in
    let total : length seen' ≡ length r.before + length later =
      ap length split ∙ length-append r.before later in
    let Grown : length later ≡ suc (suc (length r.after)) =
      omega (arith, length-append r.after ((other, now) ∷ [])) in
    elim (Bool-cases (ltb size (length seen'))) [
      | inl full ↦
          let big = ltb→lt size (length seen') full in
          rw full (record {
            before = drop (size / 2) r.before;
            at = r.at;
            after = r.after ++ (other, now) ∷ [];
            found =
                ap (drop (size / 2)) split
                ∙ drop-before (size / 2) r.before later
                    (omega (arith, big, total, Grown, r.few, room));
            few = few;
          })
      | inr small ↦ rw small (record {
        before = r.before;
        at = r.at;
        after = r.after ++ (other, now) ∷ [];
        found = split;
        few = few;
      })
    ]

half-pos : (n : ℕ) → 2 ≤ n → 1 ≤ n / 2
half-pos n h = omega arith

pub length-remember :
    (size now : ℕ) (nonce : String) (seen : Nonces)
    → 2 ≤ size
    → length seen ≤ size
    → length (remember size now nonce seen) ≤ size
unfolding remember
length-remember size now nonce seen two fits =
    let seen' = seen ++ (nonce, now) ∷ [] in
    ground (
      arith,
      length-drop (size / 2) seen',
      length-append seen ((nonce, now) ∷ []),
      half-pos size two,
    )

pub remember-own :
    (size now : ℕ) (nonce : String) (seen : Nonces)
    → length seen ≤ size
    → IsRecent nonce 0 (remember size now nonce seen)
unfolding remember
remember-own size now nonce seen fits =
    let seen' = seen ++ (nonce, now) ∷ [] in
    elim (Bool-cases (ltb size (length seen'))) [
      | inl full ↦
          let big = ltb→lt size (length seen') full in
          rw full (record {
            before = drop (size / 2) seen;
            at = now;
            after = [];
            found =
                drop-before (size / 2) seen ((nonce, now) ∷ [])
                  (omega (arith, big, length-append seen ((nonce, now) ∷ [])));
            few = omega arith;
          })
      | inr small ↦
          rw small (record { before = seen; at = now; after = []; found = refl; few = omega arith })
    ]
