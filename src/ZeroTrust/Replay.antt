-- ===== src/ZeroTrust/Replay.antt =====
-- A signed request is accepted once.
use vela_flow_public.Prelude.{
  ℕ, suc, ◌+◌, ◌-◌, ◌/◌, ◌≤◌, ◌<◌, ◌≡◌, sym, refl, subst, String, true, false, List, [], ◌∷◌,
  length, eq_refl, arith, if◌then◌else◌, Bool-cases, inl, inr,
}
use vela_flow_public.ZeroTrust.{
  max_timestamp_drift, Request, SignedRequest, Nonces, is_seen, drift, remember, sign, verify,
}
use vela_flow_public.ZeroTrust.Nonces.{
  IsRecent, IsRecent-is_seen, remember-IsRecent, length-remember, remember-own,
}

-- a request with its signed header, and the time at which it is verified
pub record Attempt : Type 0 where
  pub now : ℕ
  pub request : Request
  pub signed : SignedRequest

module _ (hmac : Request → ℕ → String → String → String) (size : ℕ) where
  -- the cache after a sequence of verifications
  unfoldable pub verify_all : List Attempt → Nonces → Nonces
  verify_all [] seen = seen
  verify_all (a ∷ rest) seen = verify_all rest (verify hmac size a.now a.request a.signed seen).1

  length-verify :
      (a : Attempt) (seen : Nonces)
      → 2 ≤ size
      → length seen ≤ size
      → length (verify hmac size a.now a.request a.signed seen).1 ≤ size
  unfolding verify
  length-verify a seen two fits =
      ground (arith, length-remember size a.now a.signed.nonce seen two fits)

  -- an accepted request, and no other, is remembered
  verify-stored :
      (a : Attempt) (seen : Nonces)
      → (verify hmac size a.now a.request a.signed seen).1 ≡ (
          if (verify hmac size a.now a.request a.signed seen).0
          then remember size a.now a.signed.nonce seen
          else seen)
  unfolding verify
  verify-stored a seen = ground arith

  verify-seen :
      (a : Attempt) (seen : Nonces)
      → is_seen a.signed.nonce seen ≡ true
      → verify hmac size a.now a.request a.signed seen ≡ (false, seen)
  unfolding verify
  verify-seen a seen h = ground arith

  accepted-IsRecent :
      (a : Attempt) (seen : Nonces)
      → length seen ≤ size
      → (verify hmac size a.now a.request a.signed seen).0 ≡ true
      → IsRecent a.signed.nonce 0 (verify hmac size a.now a.request a.signed seen).1
  accepted-IsRecent a seen fits ok =
      rw (verify-stored a seen, ok) (remember-own size a.now a.signed.nonce seen fits)

  IsRecent-suc :
      (nonce : String) (k : ℕ) (seen : Nonces) → IsRecent nonce k seen → IsRecent nonce (suc k) seen
  IsRecent-suc nonce k seen r = record {
    before = r.before;
    at = r.at;
    after = r.after;
    found = r.found;
    few = omega (arith, r.few);
  }

  verify-IsRecent :
      (nonce : String) (k : ℕ) (a : Attempt) (seen : Nonces)
      → k < size - size / 2
      → length seen ≤ size
      → IsRecent nonce k seen
      → IsRecent nonce (suc k) (verify hmac size a.now a.request a.signed seen).1
  verify-IsRecent nonce k a seen room fits r =
      elim (Bool-cases (verify hmac size a.now a.request a.signed seen).0) [
        | inl ok ↦
            rw (verify-stored a seen, ok)
              (remember-IsRecent size a.now a.signed.nonce nonce k seen room fits r)
        | inr refused ↦ rw (verify-stored a seen, refused) (IsRecent-suc nonce k seen r)
      ]

  verify_all-IsRecent :
      (nonce : String) (k : ℕ) (rest : List Attempt) (seen : Nonces)
      → k + length rest ≤ size - size / 2
      → 2 ≤ size
      → length seen ≤ size
      → IsRecent nonce k seen
      → is_seen nonce (verify_all rest seen) ≡ true
  unfolding verify_all
  verify_all-IsRecent nonce k [] seen room two fits r = IsRecent-is_seen nonce k seen r
  verify_all-IsRecent nonce k (a ∷ rest) seen room two fits r =
      verify_all-IsRecent nonce (suc k) rest (verify hmac size a.now a.request a.signed seen).1
        (omega arith) two (length-verify a seen two fits)
        (verify-IsRecent nonce k a seen (omega arith) fits r)

  -- With a cache of a size of at least two, which holds no more nonces than that: once a request
  -- is accepted, a request with its nonce is refused at any time and leaves the cache as it is, as
  -- long as at most half of the size, rounded up, was verified in between.
  pub no_replay :
      (a again : Attempt) (between : List Attempt) (seen : Nonces)
      → 2 ≤ size
      → length seen ≤ size
      → (verify hmac size a.now a.request a.signed seen).0 ≡ true
      → again.signed.nonce ≡ a.signed.nonce
      → length between ≤ size - size / 2
      → let seen' = verify_all between (verify hmac size a.now a.request a.signed seen).1 in
        verify hmac size again.now again.request again.signed seen' ≡ (false, seen')
  no_replay a again between seen two fits ok same few =
      let first = (verify hmac size a.now a.request a.signed seen).1 in
      let kept =
        verify_all-IsRecent a.signed.nonce 0 between first (omega arith) two
          (length-verify a seen two fits) (accepted-IsRecent a seen fits ok) in
      verify-seen again (verify_all between first)
        (subst (λ n. is_seen n (verify_all between first) ≡ true) (sym same) kept)

  nonce-sign :
      (now : ℕ) (nonce component_id : String) (r : Request)
      → (sign hmac now nonce component_id r).nonce ≡ nonce
  unfolding sign
  nonce-sign now nonce component_id r = refl

  verify-own :
      (now later : ℕ) (nonce component_id : String) (r : Request) (seen : Nonces)
      → drift later now ≤ max_timestamp_drift
      → is_seen nonce seen ≡ false
      → (verify hmac size later r (sign hmac now nonce component_id r) seen).0 ≡ true
  unfolding verify sign
  verify-own now later nonce component_id r seen near new =
      ground (arith, eq_refl (hmac r now nonce component_id))

  verify-nonce :
      (a : Attempt) (nonce : String) (seen : Nonces)
      → a.signed.nonce ≡ nonce
      → length seen ≤ size
      → (verify hmac size a.now a.request a.signed seen).0 ≡ true
      → is_seen nonce (verify hmac size a.now a.request a.signed seen).1 ≡ true
  verify-nonce a nonce seen same fits ok = rw (sym same) (
      IsRecent-is_seen a.signed.nonce 0 (verify hmac size a.now a.request a.signed seen).1
        (accepted-IsRecent a seen fits ok))

  -- A request that was signed with the same digest is accepted within the drift of its timestamp,
  -- unless its nonce is in the cache, and its nonce is then in the cache.
  pub verify-sign :
      (now later : ℕ) (nonce component_id : String) (r : Request) (seen : Nonces)
      → drift later now ≤ max_timestamp_drift
      → is_seen nonce seen ≡ false
      → length seen ≤ size
      → ((verify hmac size later r (sign hmac now nonce component_id r) seen).0 ≡ true)
        × (is_seen nonce (verify hmac size later r (sign hmac now nonce component_id r) seen).1
            ≡ true)
  verify-sign now later nonce component_id r seen near new fits =
      let a : Attempt = record {
        now = later;
        request = r;
        signed = sign hmac now nonce component_id r;
      } in
      let ok = verify-own now later nonce component_id r seen near new in
      (ok, verify-nonce a nonce seen (nonce-sign now nonce component_id r) fits ok)
