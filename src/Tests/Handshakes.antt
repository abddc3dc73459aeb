-- ===== src/Tests/Handshakes.antt =====
-- The theorems on the nonce cache and on the responder, at concrete times.
use subduction.Codec.{ok, err}
use subduction.NonceCache.{
  NonceCache, nonce_reused, bucket_number, bucket_index, advance_head, clear_from, set_bucket,
  any_bucket, new, try_claim,
}
use subduction.NonceCache.Replay.{claim_all, try_claim-replay, try_claim-forgotten}
use subduction.Handshake.{
  Challenge, known, discover, max_plausible_drift, abs_diff, is_fresh, validate, VerifiedChallenge,
  verify_challenge, verify_audiences, claimed, respond,
}
use subduction.Handshake.Checks.{verify_audiences_iff}
use subduction.Handshake.Wire.{
  IsEncodable, audience_value, encode_fields, try_decode_fields,
  try_decode_fields-encode_fields_challenge,
}
use subduction.Handshake.Replay.{Call, respond_to, respond_all, respond-replay, respond-forgotten}
use subduction.Collections.Set.{contains}
use subduction.Prelude.{
  take, ◌++◌, ℕ, ◌≤◌, ◌≡◌, refl, ◌≢◌, ◌↔◌, ◌⊎◌, true, some, [], ◌∷◌, arith, ℕ_discrete, nat_eq,
  Bytes, bytes_eq, bytes_list_eq,
}

abbrev server : Bytes
server = 1 ∷ []

abbrev client : Bytes
client = 2 ∷ []

abbrev nonce : Bytes
nonce = 3 ∷ []

-- Three minutes, as `Default` sets it.
abbrev cache : NonceCache
cache = new 180

claimed_once : (try_claim cache client nonce 179).1 ≡ ok tt
unfolding new try_claim bucket_number bucket_index advance_head clear_from set_bucket any_bucket
    contains
claimed_once = refl

try_claim-replay_example :
    (try_claim
      (claim_all (try_claim cache client nonce 179).0 ((server, nonce, 400) ∷ []))
      client
      nonce
      719).1
    ≡ err nonce_reused
unfolding new
try_claim-replay_example =
    try_claim-replay cache client nonce 179 ((server, nonce, 400) ∷ []) 719 (omega arith)
      claimed_once (omega arith, tt) (omega arith)

-- Nine minutes and a second later.
try_claim-forgotten_example :
    (try_claim (try_claim cache client nonce 179).0 client nonce 720).1 ≡ ok tt
unfolding new bucket_number
try_claim-forgotten_example =
    try_claim-forgotten cache client nonce 179 720 (omega arith) claimed_once (omega arith)

abbrev asked : VerifiedChallenge
asked = record {
  client_id = client;
  challenge = record { audience = discover (8 ∷ []); timestamp = 300; nonce = nonce };
}

abbrev first_call : Call
first_call = record { signed = some asked; now = 179 }

verify_audiences_iff_example :
    (verify_audiences (some asked) server (some (discover (8 ∷ []))) 179 max_plausible_drift
      ≡ ok asked)
    ↔ ((some asked ≡ some asked)
        × ((asked.challenge.audience ≡ known server)
            ⊎ (some (discover (8 ∷ [])) ≡ some asked.challenge.audience))
        × (is_fresh asked.challenge 179 max_plausible_drift ≡ true))
verify_audiences_iff_example =
    verify_audiences_iff (some asked) server (some (discover (8 ∷ []))) 179 max_plausible_drift
      asked

fresh_at : (t : ℕ) → 300 ≤ t → t ≤ 900 → is_fresh asked.challenge t max_plausible_drift ≡ true
unfolding is_fresh abs_diff
fresh_at t low high = ground (arith, low, high)

answered :
    (respond_to server (some (discover (8 ∷ []))) max_plausible_drift cache first_call).1 ≡ ok asked
unfolding new try_claim bucket_number bucket_index advance_head clear_from set_bucket any_bucket
    contains respond_to respond verify_audiences verify_challenge validate is_fresh abs_diff claimed
    ℕ_discrete
answered = refl

respond-replay_example :
    (respond_to server
      (some (discover (8 ∷ [])))
      max_plausible_drift
      (respond_all server
        (some (discover (8 ∷ [])))
        max_plausible_drift
        (respond_to server (some (discover (8 ∷ []))) max_plausible_drift cache first_call).0
        (first_call ∷ []))
      (record { signed = some asked; now = 719 })).1
    ≢ ok asked
unfolding new
respond-replay_example =
    respond-replay server (some (discover (8 ∷ []))) max_plausible_drift cache first_call asked
      (first_call ∷ []) (record { signed = some asked; now = 719 }) asked (omega arith) answered
      (omega arith, tt) (omega arith) refl refl

respond-forgotten_example :
    (respond_to server
      (some (discover (8 ∷ [])))
      max_plausible_drift
      (respond_to server (some (discover (8 ∷ []))) max_plausible_drift cache first_call).0
      (record { signed = some asked; now = 720 })).1
    ≡ ok asked
unfolding new bucket_number
respond-forgotten_example =
    respond-forgotten server (some (discover (8 ∷ []))) max_plausible_drift cache first_call asked
      720 (omega arith) answered (omega arith) (fresh_at 720 (omega arith) (omega arith))

abbrev thirty_two : Bytes
thirty_two =
    0 ∷ 1 ∷ 2 ∷ 3 ∷ 4 ∷ 5 ∷ 6 ∷ 7 ∷ 8 ∷ 9 ∷ 10 ∷ 11 ∷ 12 ∷ 13 ∷ 14 ∷ 15 ∷ 0 ∷ 1 ∷ 2 ∷ 3 ∷ 4 ∷ 5 ∷ 6
    ∷ 7 ∷ 8 ∷ 9 ∷ 10 ∷ 11 ∷ 12 ∷ 13 ∷ 14 ∷ 15 ∷ []

abbrev sent : Challenge
sent = record { audience = discover thirty_two; timestamp = 1700000000; nonce = take 16 thirty_two }

sent-IsEncodable : IsEncodable sent
unfolding audience_value
sent-IsEncodable = record { value = refl; timestamp = omega arith; nonce = refl }

try_decode_fields-encode_fields_challenge_example :
    try_decode_fields {Kind = Unit {0}} (encode_fields sent [] ++ (7 ∷ [])) ≡ ok (sent, 57)
try_decode_fields-encode_fields_challenge_example =
    try_decode_fields-encode_fields_challenge sent (7 ∷ []) sent-IsEncodable
