-- ===== src/ZeroTrust.antt =====
-- security/zero_trust.py: `RequestSigner`. The HMAC of the message that `_build_message` makes of a
-- request is a parameter; a time is a number of seconds.
pub mod Nonces
pub mod Replay
pub mod Sanitizer
mod Tests
use vela_flow_public.Prelude.{
  ℕ, ◌+◌, ◌-◌, ◌/◌, String, Bool, true, false, not, List, [], ◌∷◌, ◌++◌, any, drop, length, ltb,
  str_eq, if◌then◌else◌,
}

abbrev pub max_timestamp_drift : ℕ
max_timestamp_drift = 300

abbrev pub max_nonce_cache : ℕ
max_nonce_cache = 10000

-- what is signed
pub record Request : Type 0 where
  pub method : String
  pub path : String
  pub body : String

pub record SignedRequest : Type 0 where
  pub method : String
  pub path : String
  pub timestamp : ℕ
  pub nonce : String
  pub signature : String
  pub component_id : String

-- the nonces that were accepted with the times at which they were, the oldest first
abbrev pub Nonces : Type 0
Nonces = List (String × ℕ)

abbrev pub is_seen : String → Nonces → Bool
is_seen nonce seen = any (λ e. str_eq e.0 nonce) seen

-- `abs(now - timestamp)`
abbrev pub drift : ℕ → ℕ → ℕ
drift now timestamp = (now - timestamp) + (timestamp - now)

-- a nonce is recorded; a cache of more than `size` entries loses its oldest half
unfoldable pub remember : ℕ → ℕ → String → Nonces → Nonces
remember size now nonce seen =
    let seen' = seen ++ (nonce, now) ∷ [] in
    if ltb size (length seen') then drop (size / 2) seen' else seen'

-- the HMAC of a request, a timestamp, a nonce and a component
module _ (hmac : Request → ℕ → String → String → String) where
  -- the clock and the random nonce are given
  unfoldable pub sign : ℕ → String → String → Request → SignedRequest
  sign now nonce component_id r = record {
    method = r.method;
    path = r.path;
    timestamp = now;
    nonce = nonce;
    signature = hmac r now nonce component_id;
    component_id = component_id;
  }

  -- The size of the cache of nonces is given; the class takes `max_nonce_cache`.
  unfoldable pub verify : ℕ → ℕ → Request → SignedRequest → Nonces → Bool × Nonces
  verify size now r signed seen =
      if ltb max_timestamp_drift (drift now signed.timestamp)
      then (false, seen)
      else if is_seen signed.nonce seen
      then (false, seen)
      else if not
          (str_eq (hmac r signed.timestamp signed.nonce signed.component_id) signed.signature)
      then (false, seen)
      else (true, remember size now signed.nonce seen)
