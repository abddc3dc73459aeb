-- ===== src/Handshake.antt =====
-- subduction_core/src/handshake.rs, handshake/audience.rs, handshake/challenge.rs and timestamp.rs:
-- what the responder checks. A signed challenge is the outcome of `Signed::try_verify`: nothing, or
-- the peer that signed and the payload.
pub mod Checks
pub mod Wire
pub mod Replay
use subduction.Codec.{map_err, Result, ok, err, ◌>>◌}
use subduction.NonceCache.{NonceReused, NonceCache, try_claim}
use subduction.Prelude.{
  ℕ, ◌-◌, Bool, not, Option, none, some, ℕ_discrete, ltb, leb, if◌then◌else◌, Eq, ◌==◌, nat_eq,
  Bytes, bytes_eq, bytes_list_eq,
}

-- `Known(PeerId)` and `Discover(DiscoveryId)`, each around 32 bytes.
pub data Audience : Type 0 where
  known : Bytes → Audience
  discover : Bytes → Audience

abbrev pub audience_discrete : Discrete Audience
audience_discrete = hlevel ℕ_discrete

instance abbrev pub audience_eq : Eq Audience
audience_eq = record { dec = audience_discrete }

-- A timestamp is a `u64` of seconds.
pub record Challenge : Type 0 where
  pub audience : Audience
  pub timestamp : ℕ
  pub nonce : Bytes

abbrev pub max_plausible_drift : ℕ
max_plausible_drift = 600

pub data ChallengeValidationError : Type 0 where
  invalid_audience : ChallengeValidationError
  clock_drift : (client_timestamp server_timestamp : ℕ) → ChallengeValidationError
  replayed_nonce : ChallengeValidationError

pub data RejectionReason : Type 0 where
  clock_drift_reason invalid_audience_reason replayed_nonce_reason invalid_signature_reason :
      RejectionReason

pub data HandshakeError : Type 0 where
  invalid_signature : HandshakeError
  challenge_validation : ChallengeValidationError → HandshakeError

-- `TimestampSeconds::abs_diff`, in seconds.
unfoldable pub abs_diff : ℕ → ℕ → ℕ
abs_diff a b = if ltb a b then b - a else a - b

unfoldable pub is_fresh : Challenge → ℕ → ℕ → Bool
is_fresh self now max_drift = leb (abs_diff self.timestamp now) max_drift

unfoldable pub validate : Challenge → Audience → ℕ → ℕ → Result ChallengeValidationError (Unit {0})
validate self expected_audience now max_drift =
    if not (self.audience == expected_audience)
    then err invalid_audience
    else if not (is_fresh self now max_drift)
    then err (clock_drift self.timestamp now)
    else ok tt

unfoldable pub to_rejection_reason : ChallengeValidationError → RejectionReason
to_rejection_reason invalid_audience = invalid_audience_reason
to_rejection_reason (clock_drift _ _) = clock_drift_reason
to_rejection_reason replayed_nonce = replayed_nonce_reason

pub record VerifiedChallenge : Type 0 where
  pub client_id : Bytes
  pub challenge : Challenge

-- What `Signed::<Challenge>::try_verify` gives.
abbrev pub Signed : Type 0
Signed = Option VerifiedChallenge

unfoldable pub verify_challenge :
    Signed → Audience → ℕ → ℕ → Result HandshakeError VerifiedChallenge
verify_challenge none expected_audience now max_drift = err invalid_signature
verify_challenge (some verified) expected_audience now max_drift = do
  map_err challenge_validation (validate verified.challenge expected_audience now max_drift)
  ok verified

-- `respond` tries the identity of the responder, and then its discovery audience.
unfoldable pub verify_audiences :
    Signed → Bytes → Option Audience → ℕ → ℕ → Result HandshakeError VerifiedChallenge
verify_audiences signed our_peer_id discovery_audience now max_drift =
    elim (verify_challenge signed (known our_peer_id) now max_drift) [
      | ok v ↦ ok v
      | err (challenge_validation invalid_audience) ↦ elim discovery_audience [
        | none ↦ err (challenge_validation invalid_audience)
        | some audience ↦ verify_challenge signed audience now max_drift
      ]
      | err e ↦ err e
    ]

unfoldable pub claimed :
    VerifiedChallenge
    → NonceCache × Result NonceReused (Unit {0})
    → NonceCache × Result HandshakeError VerifiedChallenge
claimed verified (cache, ok _) = (cache, ok verified)
claimed verified (cache, err _) = (cache, err (challenge_validation replayed_nonce))

-- `respond` up to the response: the client that is authenticated, or the error of the call.
unfoldable pub respond :
    NonceCache
    → Signed
    → Bytes
    → Option Audience
    → ℕ
    → ℕ
    → NonceCache × Result HandshakeError VerifiedChallenge
respond nonce_cache signed our_peer_id discovery_audience now max_drift =
    elim (verify_audiences signed our_peer_id discovery_audience now max_drift) [
      | err e ↦ (nonce_cache, err e)
      | ok verified ↦
          claimed verified (try_claim nonce_cache verified.client_id verified.challenge.nonce now)
    ]
