-- ===== src/Handshake/Replay.antt =====
-- handshake.rs with nonce_cache.rs: a signed challenge that is presented twice.
use subduction.Codec.{Result, ok, err, Result-cases}
use subduction.NonceCache.{Key, NonceReused, NonceCache, try_claim, bucket_number}
use subduction.NonceCache.Window.{
  Remembers, try_claim-Remembers, granted-Remembers, Remembers-reused,
}
use subduction.NonceCache.Replay.{
  try_claim-forgotten, try_claim-duration, bucket_number-within, bucket_number-duration,
}
use subduction.Handshake.{
  Audience, HandshakeError, is_fresh, claimed, respond, VerifiedChallenge, Signed, verify_audiences,
}
use subduction.Handshake.Checks.{verify_audiences_iff}
use subduction.Prelude.{
  ℕ, ◌+◌, ◌*◌, ◌≤◌, ◌<◌, ◌≡◌, refl, sym, ap, ◌∙◌, subst, ◌≢◌, ◌⊎◌, inl, inr, true, Option, List, [],
  ◌∷◌, nat_eq, All, Bytes, bytes_eq, bytes_list_eq, All-imp,
}

-- One call of the responder.
pub record Call : Type 0 where
  pub signed : Signed
  pub now : ℕ

module _ (our_peer_id : Bytes) (discovery : Option Audience) (max_drift : ℕ) where
  unfoldable pub respond_to :
      NonceCache → Call → NonceCache × Result HandshakeError VerifiedChallenge
  respond_to c call = respond c call.signed our_peer_id discovery call.now max_drift

  unfoldable pub respond_all : NonceCache → List Call → NonceCache
  respond_all c [] = c
  respond_all c (call ∷ later) = respond_all (respond_to c call).0 later

  abbrev checks : Call → Result HandshakeError VerifiedChallenge
  checks call = verify_audiences call.signed our_peer_id discovery call.now max_drift

  respond_claimed :
      (c : NonceCache) (call : Call) (v : VerifiedChallenge)
      → checks call ≡ ok v
      → respond_to c call ≡ claimed v (try_claim c v.client_id v.challenge.nonce call.now)
  unfolding respond_to respond claimed
  respond_claimed c call v h = rw (h, respond) refl

  respond_refused :
      (c : NonceCache) (call : Call) (e : HandshakeError)
      → checks call ≡ err e
      → respond_to c call ≡ (c, err e)
  unfolding respond_to respond claimed
  respond_refused c call e h = rw (h, respond) refl

  claimed-state : (v : VerifiedChallenge) (r : NonceCache × _) → (claimed v r).0 ≡ r.0
  unfolding claimed
  claimed-state v (c, ok _) = refl
  claimed-state v (c, err _) = refl

  -- The state is that of the cache, after a claim or none.
  respond-state :
      (c : NonceCache) (call : Call)
      → ((respond_to c call).0 ≡ c)
        ⊎ ((v : VerifiedChallenge) × (checks call ≡ ok v)
            × ((respond_to c call).0 ≡ (try_claim c v.client_id v.challenge.nonce call.now).0))
  respond-state c call = elim (Result-cases (checks call)) [
    | inl (v, h) ↦ inr (v, h, ap (λ r. r.0) (respond_claimed c call v h) ∙ claimed-state v _)
    | inr (e, h) ↦ inl (ap (λ r. r.0) (respond_refused c call e h))
  ]

  respond-duration :
      (c : NonceCache) (call : Call)
      → (respond_to c call).0.bucket_duration_secs ≡ c.bucket_duration_secs
  respond-duration c call = elim (respond-state c call) [
    | inl same ↦ ap (λ x. x.bucket_duration_secs) same
    | inr (v, _, e) ↦
        ap (λ x. x.bucket_duration_secs) e
        ∙ try_claim-duration c v.client_id v.challenge.nonce call.now
  ]

  respond-Remembers :
      (c : NonceCache) (call : Call) (k : Key) (b : ℕ)
      → bucket_number c call.now ≤ b + 3
      → Remembers c k b
      → Remembers (respond_to c call).0 k b
  respond-Remembers c call k b within r = elim (respond-state c call) [
    | inl same ↦ subst (λ x. Remembers x k b) (sym same) r
    | inr (v, _, e) ↦
        subst (λ x. Remembers x k b) (sym e)
          (try_claim-Remembers c k b v.client_id v.challenge.nonce call.now within r)
  ]

  respond_all-Remembers :
      (later : List Call) (c : NonceCache) (k : Key) (b : ℕ)
      → All (λ (call : Call). bucket_number c call.now ≤ b + 3) later
      → Remembers c k b
      → Remembers (respond_all c later) k b
        × ((respond_all c later).bucket_duration_secs ≡ c.bucket_duration_secs)
  unfolding respond_all
  respond_all-Remembers [] c k b within r = (r, refl)
  respond_all-Remembers (call ∷ later) c k b within r =
      let c' = (respond_to c call).0 in
      let same : c'.bucket_duration_secs ≡ c.bucket_duration_secs = respond-duration c call in
      let (kept, d) =
        respond_all-Remembers later c' k b
          (All-imp _ _ (λ x w. rw (bucket_number-duration c c' x.now same) w) later within.1)
          (respond-Remembers c call k b within.0 r) in
      (kept, d ∙ same)

  -- A challenge that is accepted passed the checks and claimed its nonce.
  accepted :
      (c : NonceCache) (call : Call) (v : VerifiedChallenge)
      → (respond_to c call).1 ≡ ok v
      → (checks call ≡ ok v)
        × ((respond_to c call).0 ≡ (try_claim c v.client_id v.challenge.nonce call.now).0)
        × ((try_claim c v.client_id v.challenge.nonce call.now).1 ≡ ok tt)
  accepted c call v h = elim (Result-cases (checks call)) [
    | inr (e, q) ↦ absurd (cc (h, ap (λ r. r.1) (respond_refused c call e q)))
    | inl (w, q) ↦
        let claim = try_claim c w.client_id w.challenge.nonce call.now in
        let e = respond_claimed c call w q in
        let (same, ok_claim) = claimed-ok w claim v (sym (ap (λ r. r.1) e) ∙ h) in
        subst
          (λ (x : VerifiedChallenge).
            (checks call ≡ ok x)
            × ((respond_to c call).0 ≡ (try_claim c x.client_id x.challenge.nonce call.now).0)
            × ((try_claim c x.client_id x.challenge.nonce call.now).1 ≡ ok tt))
          same (q, ap (λ r. r.0) e ∙ claimed-state w claim, ok_claim)
  ]
    where
      claimed-ok :
          (w : VerifiedChallenge) (r : NonceCache × Result NonceReused (Unit {0}))
          (v : VerifiedChallenge)
          → (claimed w r).1 ≡ ok v
          → (w ≡ v) × (r.1 ≡ ok tt)
      claimed-ok w (c, ok tt) v h = unfold claimed in (cc h, refl)
      claimed-ok w (c, err _) v h = unfold claimed in cc h

  -- With a bucket duration above zero, after a challenge is accepted no challenge with its peer and
  -- its nonce is accepted within three bucket durations, whatever calls of the responder within
  -- those durations come between.
  pub respond-replay :
      (c : NonceCache) (call : Call) (v : VerifiedChallenge) (later : List Call) (again : Call)
      (w : VerifiedChallenge)
      → 0 < c.bucket_duration_secs
      → (respond_to c call).1 ≡ ok v
      → All (λ (x : Call). x.now ≤ call.now + 3 * c.bucket_duration_secs) later
      → again.now ≤ call.now + 3 * c.bucket_duration_secs
      → w.client_id ≡ v.client_id
      → w.challenge.nonce ≡ v.challenge.nonce
      → (respond_to (respond_all (respond_to c call).0 later) again).1 ≢ ok w
  respond-replay c call v later again w pos first between within peer nonce second =
      let b = bucket_number c call.now in
      let c' = (respond_to c call).0 in
      let same : c'.bucket_duration_secs ≡ c.bucket_duration_secs = respond-duration c call in
      let (_, state, granted) = accepted c call v first in
      let known : Remembers c' (v.client_id, v.challenge.nonce) b =
        subst (λ x. Remembers x (v.client_id, v.challenge.nonce) b) (sym state)
          (granted-Remembers c v.client_id v.challenge.nonce call.now granted) in
      let (kept, d) =
        respond_all-Remembers later c' (v.client_id, v.challenge.nonce) b
          (All-imp _ _
            (λ x h.
              rw (bucket_number-duration c c' x.now same)
                (bucket_number-within c call.now x.now pos h))
            later between)
          known in
      let c2 = respond_all c' later in
      let near : bucket_number c2 again.now ≤ b + 3 =
        rw (bucket_number-duration c c2 again.now (d ∙ same))
          (bucket_number-within c call.now again.now pos within) in
      let (_, _, granted_again) = accepted c2 again w second in
      let refused =
        Remembers-reused c2 w.client_id w.challenge.nonce b again.now near
          (rw (peer, nonce) kept) in
      cc (refused, granted_again)

  -- With a cache that is not ahead of the clock, a challenge that is accepted is accepted again at
  -- every time whose bucket is at least the fourth after and at which it is still fresh.
  pub respond-forgotten :
      (c : NonceCache) (call : Call) (v : VerifiedChallenge) (t : ℕ)
      → c.head ≤ bucket_number c call.now
      → (respond_to c call).1 ≡ ok v
      → bucket_number c call.now + 4 ≤ bucket_number c t
      → is_fresh v.challenge t max_drift ≡ true
      → (respond_to (respond_to c call).0 (record { signed = call.signed; now = t })).1 ≡ ok v
  respond-forgotten c call v t before first gone fresh =
      let (checked, state, granted) = accepted c call v first in
      let (signed, audience, _) =
        (verify_audiences_iff call.signed our_peer_id discovery call.now max_drift v).0 checked in
      let c' = (respond_to c call).0 in
      let later : Call = record { signed = call.signed; now = t } in
      let passed : checks later ≡ ok v =
        (verify_audiences_iff call.signed our_peer_id discovery t max_drift v).1
          (signed, audience, fresh) in
      let again : (try_claim c' v.client_id v.challenge.nonce t).1 ≡ ok tt =
        subst (λ x. (try_claim x v.client_id v.challenge.nonce t).1 ≡ ok tt) (sym state)
          (try_claim-forgotten c v.client_id v.challenge.nonce call.now t before granted gone) in
      ap (λ r. r.1) (respond_claimed c' later v passed)
      ∙ claimed-granted v (try_claim c' v.client_id v.challenge.nonce t) again
    where
      claimed-granted :
          (v : VerifiedChallenge) (r : NonceCache × Result NonceReused (Unit {0}))
          → r.1 ≡ ok tt
          → (claimed v r).1 ≡ ok v
      claimed-granted v (c, ok _) h = unfold claimed in refl
      claimed-granted v (c, err _) h = cc h
