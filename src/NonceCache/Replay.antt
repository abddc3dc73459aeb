-- ===== src/NonceCache/Replay.antt =====
-- nonce_cache.rs: a claim that was granted is refused again for three bucket durations, and is
-- granted again from the fourth bucket on.
use native.Mathlib.Nat.{lt-div-mul-add, div-lt_iff_lt-mul}
use subduction.Codec.{ok, err}
use subduction.Collections.Set.{contains}
use subduction.NonceCache.{
  key_eq, Key, nonce_reused, NonceCache, bucket_number, bucket_index, clear_from, advance_head,
  any_bucket, try_claim,
}
use subduction.NonceCache.Window.{
  any_bucket_empty, any_bucket-none, Remembers, try_claim-Remembers, granted-Remembers,
  Remembers-reused, clear_from-shrinks, clear_from-empties, contains-record_bucket,
}
use subduction.Prelude.{
  All-imp, ℕ, ◌+◌, ◌-◌, ◌*◌, ◌/◌, ◌≤◌, ◌<◌, ◌≡◌, refl, ap, ◌∙◌, subst, inl, inr, false, List, [],
  ◌∷◌, arith, ◌==◌, nat_eq, ==_iff, Bool-cases, All, Bytes, bytes_eq, bytes_list_eq,
}

-- A claim, with the time of the server.
abbrev pub Claim : Type 0
Claim = Bytes × Bytes × ℕ

unfoldable pub claim_all : NonceCache → List Claim → NonceCache
claim_all c [] = c
claim_all c ((peer, nonce, now) ∷ later) = claim_all (try_claim c peer nonce now).0 later

pub try_claim-duration :
    (c : NonceCache) (peer nonce : Bytes) (now : ℕ)
    → (try_claim c peer nonce now).0.bucket_duration_secs ≡ c.bucket_duration_secs
unfolding try_claim advance_head
try_claim-duration c peer nonce now = ground arith

pub bucket_number-within :
    (c : NonceCache) (t t' : ℕ)
    → 0 < c.bucket_duration_secs
    → t' ≤ t + 3 * c.bucket_duration_secs
    → bucket_number c t' ≤ bucket_number c t + 3
unfolding bucket_number
bucket_number-within c t t' pos within =
    let d = c.bucket_duration_secs in
    let below : t' < (t / d + 4) * d = grind (arith, within, lt-div-mul-add {a = t} {b = d} pos) in
    omega (arith, (div-lt_iff_lt-mul pos).1 below)

claim_all-duration :
    (later : List Claim) (c : NonceCache)
    → (claim_all c later).bucket_duration_secs ≡ c.bucket_duration_secs
unfolding claim_all
claim_all-duration [] c = refl
claim_all-duration ((peer, nonce, now) ∷ later) c =
    claim_all-duration later (try_claim c peer nonce now).0 ∙ try_claim-duration c peer nonce now

-- The number depends on the duration alone.
pub bucket_number-duration :
    (c c' : NonceCache) (t : ℕ)
    → c'.bucket_duration_secs ≡ c.bucket_duration_secs
    → bucket_number c' t ≡ bucket_number c t
unfolding bucket_number
bucket_number-duration c c' t e = ap (◌/◌ t) e

claim_all-Remembers :
    (later : List Claim) (c : NonceCache) (k : Key) (b : ℕ)
    → All (λ (claim : Claim). bucket_number c claim.2 ≤ b + 3) later
    → Remembers c k b
    → Remembers (claim_all c later) k b
unfolding claim_all
claim_all-Remembers [] c k b within r = r
claim_all-Remembers ((peer, nonce, now) ∷ later) c k b within r =
    claim_all-Remembers later (try_claim c peer nonce now).0 k b
      (All-imp _ _
        (λ x w.
          rw
            (bucket_number-duration c (try_claim c peer nonce now).0 x.2
              (try_claim-duration c peer nonce now))
            w)
        later within.1)
      (try_claim-Remembers c k b peer nonce now within.0 r)

-- With a bucket duration above zero, a pair whose claim is granted is refused at every time up to
-- three bucket durations later, whatever claims within those three durations come between.
pub try_claim-replay :
    (c : NonceCache) (peer nonce : Bytes) (t : ℕ) (later : List Claim) (t' : ℕ)
    → 0 < c.bucket_duration_secs
    → (try_claim c peer nonce t).1 ≡ ok tt
    → All (λ (claim : Claim). claim.2 ≤ t + 3 * c.bucket_duration_secs) later
    → t' ≤ t + 3 * c.bucket_duration_secs
    → (try_claim (claim_all (try_claim c peer nonce t).0 later) peer nonce t').1 ≡ err nonce_reused
try_claim-replay c peer nonce t later t' pos granted between within =
    let c' = (try_claim c peer nonce t).0 in
    let same : c'.bucket_duration_secs ≡ c.bucket_duration_secs =
      try_claim-duration c peer nonce t in
    Remembers-reused (claim_all c' later) peer nonce (bucket_number c t) t'
      (rw (bucket_number-duration c (claim_all c' later) t' (claim_all-duration later c' ∙ same))
        (bucket_number-within c t t' pos within))
      (claim_all-Remembers later c' (peer, nonce) (bucket_number c t)
        (All-imp _ _
          (λ x w. rw (bucket_number-duration c c' x.2 same) (bucket_number-within c t x.2 pos w))
          later between)
        (granted-Remembers c peer nonce t granted))

-- After a claim that is granted, no bucket but that of its time holds the pair.
granted-elsewhere :
    (c : NonceCache) (peer nonce : Bytes) (t i : ℕ)
    → i < 4
    → (try_claim c peer nonce t).1 ≡ ok tt
    → (bucket_index (bucket_number c t) == i) ≡ false
    → contains ((try_claim c peer nonce t).0.buckets i) (peer, nonce) ≡ false
unfolding try_claim
granted-elsewhere c peer nonce t i lt granted other =
    let c' = advance_head c (bucket_number c t) in
    elim (Bool-cases (any_bucket c'.buckets (peer, nonce))) [
      | inl hit ↦
          absurd (
            let e : (try_claim c peer nonce t).1 ≡ err nonce_reused = rw hit refl in
            cc (e, granted))
      | inr miss ↦ rw miss (
          ground (
            arith,
            other,
            any_bucket-none c'.buckets (peer, nonce) i lt miss,
            contains-record_bucket c'.buckets (bucket_index (bucket_number c t)) i (peer, nonce)
                (peer, nonce),
          ))
    ]

try_claim-head :
    (c : NonceCache) (peer nonce : Bytes) (t : ℕ)
    → c.head ≤ bucket_number c t
    → (try_claim c peer nonce t).0.head ≤ bucket_number c t
unfolding try_claim advance_head
try_claim-head c peer nonce t before = ground (arith, before)

-- The loop empties the bucket of `b`, and the key stands in no other.
emptied :
    (c : NonceCache) (k : Key) (b now : ℕ)
    → c.head ≤ b
    → b + 4 ≤ now
    → ((i : ℕ) → i < 4 → (bucket_index b == i) ≡ false → contains (c.buckets i) k ≡ false)
    → any_bucket (advance_head c now).buckets k ≡ false
unfolding advance_head
emptied c k b now before gone elsewhere = any_bucket_empty _ k (λ i lt.
    elim (Bool-cases (bucket_index b == i)) [
      | inl hit ↦
          subst (λ j. contains (clear_from (now - 3 - c.head) c.head c.buckets j) k ≡ false)
            ((==_iff (bucket_index b) i).0 hit)
            (clear_from-empties (now - 3 - c.head) c.head b c.buckets k before
              (omega (arith, gone, before)))
      | inr miss ↦ clear_from-shrinks (now - 3 - c.head) c.head i c.buckets k (elsewhere i lt miss)
    ])

try_claim-unseen :
    (c : NonceCache) (peer nonce : Bytes) (t : ℕ)
    → any_bucket (advance_head c (bucket_number c t)).buckets (peer, nonce) ≡ false
    → (try_claim c peer nonce t).1 ≡ ok tt
unfolding try_claim
try_claim-unseen c peer nonce t h = rw h refl

-- With a cache that is not ahead of the clock, a pair whose claim is granted is granted again at
-- every time whose bucket is at least the fourth after.
pub try_claim-forgotten :
    (c : NonceCache) (peer nonce : Bytes) (t t' : ℕ)
    → c.head ≤ bucket_number c t
    → (try_claim c peer nonce t).1 ≡ ok tt
    → bucket_number c t + 4 ≤ bucket_number c t'
    → (try_claim (try_claim c peer nonce t).0 peer nonce t').1 ≡ ok tt
try_claim-forgotten c peer nonce t t' before granted gone =
    let c' = (try_claim c peer nonce t).0 in
    try_claim-unseen c' peer nonce t' (
      emptied c' (peer, nonce) (bucket_number c t) (bucket_number c' t')
        (try_claim-head c peer nonce t before)
        (rw (bucket_number-duration c c' t' (try_claim-duration c peer nonce t)) gone)
        (λ i lt. granted-elsewhere c peer nonce t i lt granted))
