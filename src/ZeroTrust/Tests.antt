-- ===== src/ZeroTrust/Tests.antt =====
-- Signed requests and input checks, and their theorems at concrete inputs.
use vela_flow_public.Prelude.{
  ℕ, ◌≤◌, ◌≡◌, refl, String, true, false, some, List, [], ◌∷◌, map, take, length, All, arith,
}
use vela_flow_public.ZeroTrust.{Request, SignedRequest, is_seen, remember, sign, verify}
use vela_flow_public.ZeroTrust.Replay.{Attempt, verify_all, no_replay, verify-sign}
use vela_flow_public.ZeroTrust.Sanitizer.{
  is_safe_char, is_safe_identifier, match_rest, validate_text, validate_tenant_id, validate_labels,
  IsClean, validate_tenant_id-IsClean, trailing_newline, validate_labels-bounds,
}

-- a digest for the tests
abbrev digest : Request → ℕ → String → String → String
digest r timestamp nonce component_id = r.path

abbrev request : Request
request = record { method = "POST"; path = "/pipeline"; body = "" }

abbrev signed : String → SignedRequest
signed nonce = record {
  method = "POST";
  path = "/pipeline";
  timestamp = 100;
  nonce = nonce;
  signature = "/pipeline";
  component_id = "api";
}

abbrev attempt : String → Attempt
attempt nonce = record { now = 110; request = request; signed = signed nonce }

accepted : (verify digest 4 110 request (signed "n1") []).0 ≡ true
unfolding verify
accepted = refl

no_replay_example :
    let seen' =
      verify_all digest 4
        (attempt "n2" ∷ attempt "n3" ∷ [])
        (verify digest 4 110 request (signed "n1") []).1 in
    verify digest 4 110 request (signed "n1") seen' ≡ (false, seen')
no_replay_example =
    no_replay digest 4 (attempt "n1") (attempt "n1") (attempt "n2" ∷ attempt "n3" ∷ []) []
      (omega arith) (omega arith) accepted refl (omega arith)

-- With a cache of four entries, the request is accepted again after four others, in time.
accepted_again :
    let others = attempt "n2" ∷ attempt "n3" ∷ attempt "n4" ∷ attempt "n5" ∷ [] in
    (verify digest 4 110 request (signed "n1") (verify_all digest 4 (attempt "n1" ∷ others) [])).0
    ≡ true
unfolding verify verify_all remember
accepted_again = refl

verify-sign_example :
    ((verify digest 4 390 request (sign digest 100 "n1" "api" request) []).0 ≡ true)
    × (is_seen "n1" (verify digest 4 390 request (sign digest 100 "n1" "api" request) []).1 ≡ true)
verify-sign_example =
    verify-sign digest 4 100 390 "n1" "api" request [] (omega arith) refl (omega arith)

-- "t1" with a newline
abbrev t1_newline : List ℕ
t1_newline = 116 ∷ 49 ∷ 10 ∷ []

t1_accepted : validate_tenant_id t1_newline ≡ some t1_newline
unfolding validate_tenant_id validate_text is_safe_identifier match_rest is_safe_char
t1_accepted = refl

validate_tenant_id-IsClean_example :
    (t1_newline ≡ t1_newline) × (1 ≤ 3) × (3 ≤ 64) × IsClean t1_newline
validate_tenant_id-IsClean_example = validate_tenant_id-IsClean t1_newline t1_newline t1_accepted

trailing_newline_run :
    (validate_tenant_id (116 ∷ 49 ∷ []) ≡ some (116 ∷ 49 ∷ []))
    × (validate_tenant_id t1_newline ≡ some t1_newline)
unfolding is_safe_char
trailing_newline_run = trailing_newline 116 (49 ∷ []) refl (omega arith)

abbrev labels : List (List ℕ)
labels = (97 ∷ 98 ∷ []) ∷ [] ∷ []

labels_accepted : validate_labels labels ≡ some labels
unfolding validate_labels
labels_accepted = refl

validate_labels-bounds_example :
    (length labels ≤ 50)
    × All (λ label. length label ≤ 100) labels
    × (labels ≡ map (take 100) labels)
validate_labels-bounds_example = validate_labels-bounds labels labels labels_accepted
