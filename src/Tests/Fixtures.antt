-- ===== src/Tests/Fixtures.antt =====
-- Concrete instances of what the model leaves open, and data for the tests.
use subduction.Identity.{CommitId, BlobMeta}
use subduction.LooseCommit.{LooseCommit}
use subduction.Fragment.{Fragment}
use subduction.Codec.{Result, ok, err}
use subduction.Codec.Bijou.{Bijou, BijouLaws}
use subduction.Codec.Encode.{to_be_bytes}
use subduction.Codec.Decode.{from_be_bytes}
use subduction.Codec.Integers.{length-to_be_bytes, from_be_bytes-to_be_bytes}
use subduction.Sedimentree.{Sedimentree, Digests, new}
use subduction.Sedimentree.Merge.{CollisionFree}
use subduction.Fingerprint.{SipHash, FingerprintSeed}
use subduction.Prelude.{
  ℕ, zero, suc, ◌+◌, ◌*◌, ◌%◌, ◌^◌, ◌≤◌, ◌<◌, ◌≡◌, refl, sym, ap, ◌∙◌, subst, inl, inr, ◌&&◌, List,
  [], ◌∷◌, ◌++◌, arith, ltb, if◌then◌else◌, ◌==◌, nat_eq, ==_iff, ==-refl, Bool-cases, length, take,
  take-append, Bytes, bytes_eq, ltb_of_lt, lt_of_ltb, bytes_list_eq,
}

-- An integer code of eight bytes in place of the crate bijoux.
unfoldable pub accept : Bytes → Result (Unit {0}) (ℕ × ℕ)
accept bs =
    if to_be_bytes 8 (from_be_bytes 0 bs) == bs && ltb (from_be_bytes 0 bs) (2 ^ 64)
    then ok (from_be_bytes 0 bs, 8)
    else err tt

abbrev pub fixed_decode : Bytes → Result (Unit {0}) (ℕ × ℕ)
fixed_decode bs = accept (take 8 bs)

accept-to_be_bytes : (v : ℕ) → v < 2 ^ 64 → accept (to_be_bytes 8 v) ≡ ok (v, 8)
unfolding accept
accept-to_be_bytes v h =
    rw (from_be_bytes-to_be_bytes 8 v h, ==-refl (to_be_bytes 8 v), ltb_of_lt v (2 ^ 64) h) refl

take-to_be_bytes : (v : ℕ) (rest : Bytes) → take 8 (to_be_bytes 8 v ++ rest) ≡ to_be_bytes 8 v
take-to_be_bytes v rest =
    subst (λ n. take n (to_be_bytes 8 v ++ rest) ≡ to_be_bytes 8 v) (length-to_be_bytes 8 v)
      (take-append (to_be_bytes 8 v) rest)

accept_inv :
    (bs : Bytes) (v n : ℕ) → accept bs ≡ ok (v, n) → (v < 2 ^ 64) × (n ≡ 8) × (bs ≡ to_be_bytes 8 v)
unfolding accept
accept_inv bs v n h = elim (Bool-cases (to_be_bytes 8 (from_be_bytes 0 bs) == bs)) [
  | inr miss ↦ ground (arith, h, miss)
  | inl hit ↦ elim (Bool-cases (ltb (from_be_bytes 0 bs) (2 ^ 64))) [
    | inr large ↦ ground (arith, h, hit, large)
    | inl small ↦
        let q : v ≡ from_be_bytes 0 bs = ground (arith, h, hit, small) in
        (
          subst (λ x. x < 2 ^ 64) (sym q) (lt_of_ltb (from_be_bytes 0 bs) (2 ^ 64) small),
          ground (arith, h, hit, small),
          sym ((==_iff _ bs).0 hit) ∙ ap (to_be_bytes 8) (sym q),
        )
  ]
]

length-take_le : (n : ℕ) (xs : Bytes) → length (take n xs) ≤ length xs
length-take_le zero xs = omega arith
length-take_le (suc n) [] = omega arith
length-take_le (suc n) (x ∷ xs) = omega (arith, length-take_le n xs)

abbrev pub fixed_bijou : Bijou (Unit {0})
fixed_bijou = record { encode = to_be_bytes 8; encoded_len = λ v. 8; decode = fixed_decode }

pub fixed_laws : BijouLaws fixed_bijou
fixed_laws = record {
  length_encode = λ v h. length-to_be_bytes 8 v;
  encode_nonempty = λ v h. omega arith;
  decode_encode = λ v rest h. ap accept (take-to_be_bytes v rest) ∙ accept-to_be_bytes v h;
  decode_canonical = λ bs v n h.
      let (small, eight, q) = accept_inv (take 8 bs) v n h in
      (
        small,
        omega (arith, eight, ap length q, length-to_be_bytes 8 v, length-take_le 8 bs),
        subst (λ k. take k bs ≡ to_be_bytes 8 v) (sym eight) q,
      );
}

-- Digests that keep every field apart: a list is closed by a zero.
abbrev put : Bytes → Bytes → Bytes
put [] k = 0 ∷ k
put (x ∷ xs) k = suc x ∷ put xs k

put_inj : (xs ys k l : Bytes) → put xs k ≡ put ys l → (xs ≡ ys) × (k ≡ l)
put_inj [] [] k l h = (refl, cc)
put_inj [] (y ∷ ys) k l h = cc
put_inj (x ∷ xs) [] k l h = cc
put_inj (x ∷ xs) (y ∷ ys) k l h = let (p, q) = put_inj xs ys k l cc in (cc, q)

abbrev put_all : List Bytes → Bytes → Bytes
put_all [] k = 0 ∷ k
put_all (x ∷ xs) k = 1 ∷ put x (put_all xs k)

put_all_inj : (xs ys : List Bytes) (k l : Bytes) → put_all xs k ≡ put_all ys l → (xs ≡ ys) × (k ≡ l)
put_all_inj [] [] k l h = (refl, cc)
put_all_inj [] (y ∷ ys) k l h = cc
put_all_inj (x ∷ xs) [] k l h = cc
put_all_inj (x ∷ xs) (y ∷ ys) k l h =
    let (p, q) = put_inj x y (put_all xs k) (put_all ys l) cc in
    let (p', q') = put_all_inj xs ys k l q in (cc, q')

abbrev put_meta : BlobMeta → Bytes → Bytes
put_meta m k = put m.digest (m.size_bytes ∷ k)

abbrev pub plain_digests : Digests
plain_digests = record {
  commit = λ c. put c.sedimentree_id (put c.head (put_all c.parents (put_meta c.blob_meta [])));
  fragment = λ f. put f.sedimentree_id (
      put f.summary.head
        (put_all f.summary.boundary (put_all f.checkpoints (put_meta f.summary.blob_meta []))));
}

pub plain_digests-CollisionFree : CollisionFree plain_digests
plain_digests-CollisionFree = record {
  commit = λ a b h.
      let (p, h1) = put_inj a.sedimentree_id b.sedimentree_id _ _ h in
      let (q, h2) = put_inj a.head b.head _ _ h1 in
      let (r, h3) = put_all_inj a.parents b.parents _ _ h2 in
      let (d, h4) = put_inj a.blob_meta.digest b.blob_meta.digest _ _ h3 in
      let e : a.blob_meta.size_bytes ≡ b.blob_meta.size_bytes = cc h4 in cc (p, q, r, d, e);
  fragment = λ a b h.
      let (p, h1) = put_inj a.sedimentree_id b.sedimentree_id _ _ h in
      let (q, h2) = put_inj a.summary.head b.summary.head _ _ h1 in
      let (r, h3) = put_all_inj a.summary.boundary b.summary.boundary _ _ h2 in
      let (c, h4) = put_all_inj a.checkpoints b.checkpoints _ _ h3 in
      let (d, h5) = put_inj a.summary.blob_meta.digest b.summary.blob_meta.digest _ _ h4 in
      let e : a.summary.blob_meta.size_bytes ≡ b.summary.blob_meta.size_bytes = cc h5 in
      cc (p, q, r, c, d, e);
}

abbrev pub meta : ℕ → BlobMeta
meta n = record { digest = n ∷ []; size_bytes = n }

abbrev pub loose : CommitId → List CommitId → LooseCommit
loose id parents = record {
  sedimentree_id = 7 ∷ [];
  head = id;
  parents = parents;
  blob_meta = meta 1;
}

abbrev pub piece : CommitId → List CommitId → Fragment
piece id boundary = record {
  sedimentree_id = 7 ∷ [];
  summary = record { head = id; boundary = boundary; blob_meta = meta 2 };
  checkpoints = [];
}

-- A fingerprint that reads the identifier as a number, masked by the keys.
abbrev pub plain_sip : SipHash
plain_sip k0 k1 bytes = (k0 + k1 * 3 + from_be_bytes 0 bytes) % 2 ^ 64

abbrev pub plain_seed : FingerprintSeed
plain_seed = record { key0 = 5; key1 = 6 }

abbrev pub id_a : CommitId
id_a = 0 ∷ 1 ∷ []

abbrev pub id_b : CommitId
id_b = 0 ∷ 2 ∷ []

abbrev pub id_c : CommitId
id_c = 9 ∷ 3 ∷ []

-- b has the parent a, and c is the head of a fragment that ends at b.
abbrev pub small_tree : Sedimentree
small_tree =
    new plain_digests (piece id_c (id_b ∷ []) ∷ []) (loose id_a [] ∷ loose id_b (id_a ∷ []) ∷ [])

abbrev pub other_tree : Sedimentree
other_tree = new plain_digests [] (loose id_c [] ∷ loose id_a (id_c ∷ []) ∷ [])
