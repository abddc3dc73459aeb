-- ===== src/NonceCache/Window.antt =====
-- nonce_cache.rs: for how long a claim is remembered, and when it is forgotten.
use subduction.Collections.Set.{contains-insert, insert, contains}
use subduction.NonceCache.{
  nonce_reused, err, ok, bucket_number, advance_head, NonceCache, any_bucket, try_claim, key_eq,
  Key, set_bucket, bucket_index, clear_from,
}
use subduction.Prelude.{
  if◌then◌else◌, subst, ◌-◌, ◌&&◌, true, ◌||◌, dec_le, Bytes, ℕ, zero, suc, ◌+◌, ◌%◌, ◌≤◌, ◌<◌, ◌≡◌,
  refl, ◌∙◌, inl, inr, false, List, [], arith, ℕ_discrete, ◌==◌, nat_eq, ==_iff, ==-refl,
  Bool-cases, bytes_eq, bytes_list_eq,
}

-- Two numbers less than four apart fall in different buckets.
pub bucket_index-apart : (a b : ℕ) → a < b → b ≤ a + 3 → (bucket_index a == bucket_index b) ≡ false
unfolding bucket_index
bucket_index-apart a b lt near = elim (Bool-cases (a % 4 == b % 4)) [
  | inl hit ↦ absurd (omega (arith, (==_iff (a % 4) (b % 4)).0 hit, lt, near))
  | inr miss ↦ miss
]

set_bucket-other :
    (buckets : ℕ → List Key) (idx i : ℕ) (keys : List Key)
    → (idx == i) ≡ false
    → set_bucket buckets idx keys i ≡ buckets i
unfolding set_bucket
set_bucket-other buckets idx i keys h = ground (arith, h)

set_bucket-same :
    (buckets : ℕ → List Key) (i : ℕ) (keys : List Key) → set_bucket buckets i keys i ≡ keys
unfolding set_bucket
set_bucket-same buckets i keys = ground (arith, ==-refl i)

-- A loop over indices that do not meet the bucket leaves it.
clear_from-keeps :
    (n head b : ℕ) (buckets : ℕ → List Key)
    → b ≤ head + 3
    → head + n ≤ b
    → clear_from n head buckets (bucket_index b) ≡ buckets (bucket_index b)
unfolding clear_from
clear_from-keeps zero head b buckets near before = refl
clear_from-keeps (suc n) head b buckets near before =
    clear_from-keeps n (suc head) b (set_bucket buckets (bucket_index head) [])
      (omega (arith, near)) (omega (arith, before))
    ∙ set_bucket-other buckets (bucket_index head) (bucket_index b) []
        (bucket_index-apart head b (omega (arith, before)) near)

-- The loop adds nothing.
pub clear_from-shrinks :
    (n head i : ℕ) (buckets : ℕ → List Key) (k : Key)
    → contains (buckets i) k ≡ false
    → contains (clear_from n head buckets i) k ≡ false
unfolding clear_from set_bucket contains
clear_from-shrinks zero head i buckets k h = h
clear_from-shrinks (suc n) head i buckets k h =
    clear_from-shrinks n (suc head) i (set_bucket buckets (bucket_index head) []) k
      (ground (arith, h))

-- A loop that meets the bucket empties it.
pub clear_from-empties :
    (n head b : ℕ) (buckets : ℕ → List Key) (k : Key)
    → head ≤ b
    → b < head + n
    → contains (clear_from n head buckets (bucket_index b)) k ≡ false
unfolding clear_from
clear_from-empties zero head b buckets k le lt = absurd (omega (arith, le, lt))
clear_from-empties (suc n) head b buckets k le lt = elim (ℕ_discrete head b) [
  | yes same ↦
      clear_from-shrinks n (suc head) _ _ k (unfold contains in rw (same, set_bucket-same) refl)
  | no apart ↦
      clear_from-empties n (suc head) b (set_bucket buckets (bucket_index head) []) k
        (omega (arith, le, apart)) (omega (arith, lt))
]

any_bucket-held :
    (buckets : ℕ → List Key) (k : Key) (b : ℕ)
    → contains (buckets (bucket_index b)) k ≡ true
    → any_bucket buckets k ≡ true
unfolding any_bucket
any_bucket-held buckets k b h = below (bucket_index b) (unfold bucket_index in omega arith) h
  where
    below : (i : ℕ) → i < 4 → contains (buckets i) k ≡ true → any_bucket buckets k ≡ true
    below zero lt h = ground (arith, h)
    below (suc zero) lt h = ground (arith, h)
    below (suc (suc zero)) lt h = ground (arith, h)
    below (suc (suc (suc zero))) lt h = ground (arith, h)
    below (suc (suc (suc (suc i)))) lt h = absurd (omega (arith, lt))

pub any_bucket-none :
    (buckets : ℕ → List Key) (k : Key) (i : ℕ)
    → i < 4
    → any_bucket buckets k ≡ false
    → contains (buckets i) k ≡ false
unfolding any_bucket
any_bucket-none buckets k zero lt h = ground (arith, h)
any_bucket-none buckets k (suc zero) lt h = ground (arith, h)
any_bucket-none buckets k (suc (suc zero)) lt h = ground (arith, h)
any_bucket-none buckets k (suc (suc (suc zero))) lt h = ground (arith, h)
any_bucket-none buckets k (suc (suc (suc (suc i)))) lt h = absurd (omega (arith, lt))

pub any_bucket_empty :
    (buckets : ℕ → List Key) (k : Key)
    → ((i : ℕ) → i < 4 → contains (buckets i) k ≡ false)
    → any_bucket buckets k ≡ false
unfolding any_bucket
any_bucket_empty buckets k h =
    ground (arith, h 0 (omega arith), h 1 (omega arith), h 2 (omega arith), h 3 (omega arith))

pub contains-record_bucket :
    (buckets : ℕ → List Key) (idx i : ℕ) (key k : Key)
    → contains (set_bucket buckets idx (insert (buckets idx) key).0 i) k
      ≡ (contains (buckets i) k || (idx == i && key == k))
unfolding set_bucket
contains-record_bucket buckets idx i key k = elim (Bool-cases (idx == i)) [
  | inl hit ↦
      let same : idx ≡ i = (==_iff idx i).0 hit in
      subst
        (λ j.
          contains (if idx == j then (insert (buckets idx) key).0 else buckets j) k
          ≡ (contains (buckets j) k || (idx == j && key == k)))
        same (ground (arith, ==-refl idx, contains-insert (buckets idx) key k))
  | inr miss ↦ ground (arith, miss)
]

-- The key stands in the bucket of the number `b`, and the loop has not gone past it.
pub record Remembers (c : NonceCache) (k : Key) (b : ℕ) : Type 0 where
  pub near : b ≤ c.head + 3
  pub held : contains (c.buckets (bucket_index b)) k ≡ true

advance_head-Remembers :
    (c : NonceCache) (k : Key) (b now : ℕ)
    → now ≤ b + 3
    → Remembers c k b
    → Remembers (advance_head c now) k b
unfolding advance_head
advance_head-Remembers c k b now within r = record {
  near = omega (arith, r.near);
  held = elim (dec_le c.head b) [
    | yes before ↦
        rw
          (clear_from-keeps (now - 3 - c.head) c.head b c.buckets r.near
            (omega (arith, within, before)))
          r.held
    | no past ↦
        let none_left : now - 3 - c.head ≡ 0 = omega (arith, within, past) in
        unfold clear_from in rw none_left r.held
  ];
}

-- Every claim within three buckets leaves what is remembered.
pub try_claim-Remembers :
    (c : NonceCache) (k : Key) (b : ℕ) (peer nonce : Bytes) (now : ℕ)
    → bucket_number c now ≤ b + 3
    → Remembers c k b
    → Remembers (try_claim c peer nonce now).0 k b
unfolding try_claim
try_claim-Remembers c k b peer nonce now within r =
    let m = bucket_number c now in
    let c' = advance_head c m in
    let r' = advance_head-Remembers c k b m within r in
    elim (Bool-cases (any_bucket c'.buckets (peer, nonce))) [
      | inl hit ↦ rw hit r'
      | inr miss ↦ rw miss (record {
        near = r'.near;
        held = ground (
          arith,
          r'.held,
          contains-record_bucket c'.buckets (bucket_index m) (bucket_index b) (peer, nonce) k,
        );
      })
    ]

-- A claim that is granted is remembered.
pub granted-Remembers :
    (c : NonceCache) (peer nonce : Bytes) (now : ℕ)
    → (try_claim c peer nonce now).1 ≡ ok tt
    → Remembers (try_claim c peer nonce now).0 (peer, nonce) (bucket_number c now)
unfolding try_claim
granted-Remembers c peer nonce now granted =
    let m = bucket_number c now in
    let c' = advance_head c m in
    elim (Bool-cases (any_bucket c'.buckets (peer, nonce))) [
      | inl hit ↦ absurd (
          let e : (try_claim c peer nonce now).1 ≡ err nonce_reused = rw hit refl in
          cc (e, granted))
      | inr miss ↦ rw miss (record {
        near = unfold advance_head in omega arith;
        held = ground (
          arith,
          ==-refl (bucket_index m),
          ==-refl ⦃e = key_eq⦄ (peer, nonce),
          contains-record_bucket c'.buckets (bucket_index m) (bucket_index m) (peer, nonce)
              (peer, nonce),
        );
      })
    ]

-- What is remembered is refused.
pub Remembers-reused :
    (c : NonceCache) (peer nonce : Bytes) (b now : ℕ)
    → bucket_number c now ≤ b + 3
    → Remembers c (peer, nonce) b
    → (try_claim c peer nonce now).1 ≡ err nonce_reused
unfolding try_claim
Remembers-reused c peer nonce b now within r =
    let m = bucket_number c now in
    rw
      (any_bucket-held (advance_head c m).buckets (peer, nonce) b
        (advance_head-Remembers c (peer, nonce) b m within r).held)
      refl
