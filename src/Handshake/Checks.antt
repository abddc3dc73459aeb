-- ===== src/Handshake/Checks.antt =====
-- handshake.rs: which challenges the responder lets through.
use subduction.Codec.{ok, err}
use subduction.Handshake.{
  Audience, known, audience_eq, invalid_audience, clock_drift, challenge_validation, is_fresh,
  validate, VerifiedChallenge, Signed, verify_challenge, verify_audiences,
}
use subduction.Prelude.{
  ℕ, ◌≡◌, refl, sym, ap, ◌∙◌, ◌↔◌, ◌⊎◌, inl, inr, true, false, Option, none, some, arith, ◌==◌,
  nat_eq, ==_iff, Bool-cases, Bytes, bytes_eq, bytes_list_eq,
}

module _ (v : VerifiedChallenge) (a : Audience) (now max_drift : ℕ) where
  verify_challenge_fresh :
      (v.challenge.audience == a) ≡ true
      → is_fresh v.challenge now max_drift ≡ true
      → verify_challenge (some v) a now max_drift ≡ ok v
  unfolding verify_challenge validate
  verify_challenge_fresh same fresh = ground (arith, same, fresh)

  verify_challenge_stale :
      (v.challenge.audience == a) ≡ true
      → is_fresh v.challenge now max_drift ≡ false
      → verify_challenge (some v) a now max_drift
        ≡ err (challenge_validation (clock_drift v.challenge.timestamp now))
  unfolding verify_challenge validate
  verify_challenge_stale same stale = ground (arith, same, stale)

  verify_challenge_other :
      (v.challenge.audience == a) ≡ false
      → verify_challenge (some v) a now max_drift ≡ err (challenge_validation invalid_audience)
  unfolding verify_challenge validate
  verify_challenge_other other = ground (arith, other)

  -- One audience: it must be named, at a time near the timestamp.
  verify_challenge_iff :
      (w : VerifiedChallenge)
      → (verify_challenge (some v) a now max_drift ≡ ok w)
        ↔ ((v ≡ w) × (v.challenge.audience ≡ a) × (is_fresh v.challenge now max_drift ≡ true))
  verify_challenge_iff w = elim (Bool-cases (v.challenge.audience == a)) [
    | inr other ↦ (
      λ h. absurd (cc (h, verify_challenge_other other)),
      λ h. absurd (cc (other, (==_iff v.challenge.audience a).1 h.1)),
    )
    | inl same ↦ elim (Bool-cases (is_fresh v.challenge now max_drift)) [
      | inl fresh ↦ (
        λ h. (
          cc (h, verify_challenge_fresh same fresh),
          (==_iff v.challenge.audience a).0 same,
          fresh,
        ),
        λ h. verify_challenge_fresh same fresh ∙ ap ok h.0,
      )
      | inr stale ↦
          (λ h. absurd (cc (h, verify_challenge_stale same stale)), λ h. absurd (cc (stale, h.2)))
    ]
  ]

module _ (v : VerifiedChallenge) (our_peer_id : Bytes) (now max_drift : ℕ) where
  verify_audiences_known :
      (discovery : Option Audience)
      → (v.challenge.audience == known our_peer_id) ≡ true
      → verify_audiences (some v) our_peer_id discovery now max_drift
        ≡ verify_challenge (some v) (known our_peer_id) now max_drift
  unfolding verify_audiences
  verify_audiences_known discovery same = elim (Bool-cases (is_fresh v.challenge now max_drift)) [
    | inl fresh ↦
        rw (verify_challenge_fresh v (known our_peer_id) now max_drift same fresh, verify_audiences)
          refl
    | inr stale ↦
        rw (verify_challenge_stale v (known our_peer_id) now max_drift same stale, verify_audiences)
          refl
  ]

  verify_audiences_discover :
      (a : Audience)
      → (v.challenge.audience == known our_peer_id) ≡ false
      → verify_audiences (some v) our_peer_id (some a) now max_drift
        ≡ verify_challenge (some v) a now max_drift
  unfolding verify_audiences
  verify_audiences_discover a other =
      rw (verify_challenge_other v (known our_peer_id) now max_drift other, verify_audiences) refl

  verify_audiences_nobody :
      (v.challenge.audience == known our_peer_id) ≡ false
      → verify_audiences (some v) our_peer_id none now max_drift
        ≡ err (challenge_validation invalid_audience)
  unfolding verify_audiences
  verify_audiences_nobody other =
      rw (verify_challenge_other v (known our_peer_id) now max_drift other, verify_audiences) refl

misaddressed :
    (v w : VerifiedChallenge) (our_peer_id : Bytes)
    → (v.challenge.audience == known our_peer_id) ≡ false
    → v ≡ w
    → w.challenge.audience ≡ known our_peer_id
    → ⊥
misaddressed v w our_peer_id other q to_us =
    let hit =
      (==_iff v.challenge.audience (known our_peer_id)).1
        (ap (λ x. x.challenge.audience) q ∙ to_us) in
    cc (hit, other)

-- The responder lets a challenge through exactly if its signature is valid, it names the
-- responder or the discovery audience, and its timestamp is within the drift.
pub verify_audiences_iff :
    (signed : Signed) (our_peer_id : Bytes) (discovery : Option Audience) (now max_drift : ℕ)
    (w : VerifiedChallenge)
    → (verify_audiences signed our_peer_id discovery now max_drift ≡ ok w) ↔ (
        (signed ≡ some w)
        × ((w.challenge.audience ≡ known our_peer_id) ⊎ (discovery ≡ some w.challenge.audience))
        × (is_fresh w.challenge now max_drift ≡ true))
unfolding verify_audiences
verify_audiences_iff none our_peer_id discovery now max_drift w =
    unfold verify_challenge in (λ h. cc, λ h. absurd (cc h.0))
verify_audiences_iff (some v) our_peer_id discovery now max_drift w =
    elim (Bool-cases (v.challenge.audience == known our_peer_id)) [
      | inl same ↦
          let e = verify_audiences_known v our_peer_id now max_drift discovery same in
          let (to, from) = verify_challenge_iff v (known our_peer_id) now max_drift w in
          (
            λ h.
                let (q, to_us, fresh) = to (sym e ∙ h) in
                (ap some q, inl (ap (λ x. x.challenge.audience) (sym q) ∙ to_us), cc (fresh, q)),
            λ h. let q : v ≡ w = cc h.0 in e ∙ from (q, (==_iff _ _).0 same, cc (h.2, q)),
          )
      | inr other ↦ elsewhere discovery other
    ]
  where
    elsewhere :
        (discovery : Option Audience)
        → (v.challenge.audience == known our_peer_id) ≡ false
        → (verify_audiences (some v) our_peer_id discovery now max_drift ≡ ok w) ↔ (
            (some v ≡ some w)
            × ((w.challenge.audience ≡ known our_peer_id) ⊎ (discovery ≡ some w.challenge.audience))
            × (is_fresh w.challenge now max_drift ≡ true))
    elsewhere none other = (
      λ h. absurd (cc (h, verify_audiences_nobody v our_peer_id now max_drift other)),
      λ h. elim h.1 [
        | inl to_us ↦ absurd (misaddressed v w our_peer_id other (cc h.0) to_us)
        | inr found ↦ cc found
      ],
    )
    elsewhere (some a) other =
        let e = verify_audiences_discover v our_peer_id now max_drift a other in
        let (to, from) = verify_challenge_iff v a now max_drift w in
        (
          λ h.
              let (q, to_us, fresh) = to (sym e ∙ h) in
              (ap some q, inr (cc (q, to_us)), cc (fresh, q)),
          λ h. elim h.1 [
            | inl to_us ↦ absurd (misaddressed v w our_peer_id other (cc h.0) to_us)
            | inr found ↦ let q : v ≡ w = cc h.0 in e ∙ from (q, cc (q, found), cc (h.2, q))
          ],
        )
