-- ===== src/LooseCommit/Canonical.antt =====
-- loose_commit.rs: the decoder accepts only what the encoder writes.
use subduction.LooseCommit.RoundTrip.{encode_fields-layout}
use subduction.Codec.{else-eq-ok, ok, >>=-eq-ok, map_err-eq-ok}
use subduction.Codec.Bijou.{Bijou, BijouLaws}
use subduction.Codec.Cursor.{At, concat}
use subduction.Codec.Inverse.{u8_inv, array_inv, arrays_inv, At-taken}
use subduction.Collections.BTreeSet
use subduction.Codec.Sorted.{verify_sorted_iff, collect_ascending}
use subduction.Collections.BTreeSet.{IsAscending}
use subduction.LooseCommit.{
  encode_fields, IsEncodable, try_decode_fields, LooseCommit, decode_variable,
}
use subduction.Prelude.{
  sym, append_assoc, All-drop, subst, All-append, ◌%◌, ◌∷◌, [], IsByte, ℕ, ◌+◌, ◌*◌, ◌^◌, ◌≤◌, ◌<◌,
  ◌≡◌, refl, ap, ◌∙◌, List, ◌++◌, arith, ltb, nat_eq, length, take, drop, All, length-append, Bytes,
  bytes_eq, length-drop,
}

module _ {Kind : Type 0} (bijou : Bijou Kind) (laws : BijouLaws bijou) where
  record Variable (buf : Bytes) (offset n : ℕ) (c : LooseCommit) (end : ℕ) : Type 0 where
    count : length c.parents ≡ n
    size : c.blob_meta.size_bytes < 2 ^ 64
    parents : All (λ p. length p ≡ 32) c.parents
    ascending : IsAscending c.parents
    at : At buf offset (bijou.encode c.blob_meta.size_bytes ++ (concat c.parents ++ drop end buf))

  abbrev decoded : Bytes → Bytes → Bytes → List Bytes → ℕ → LooseCommit
  decoded sedimentree_id head digest xs v = record {
    sedimentree_id = sedimentree_id;
    head = head;
    parents = BTreeSet.collect xs;
    blob_meta = record { digest = digest; size_bytes = v };
  }

  decoded-Variable :
      (buf sedimentree_id head digest : Bytes) (n offset v consumed : ℕ) (xs : List Bytes) (end : ℕ)
      → v < 2 ^ 64
      → offset + consumed ≤ length buf
      → take consumed (drop offset buf) ≡ bijou.encode v
      → length xs ≡ n
      → All (λ p. length p ≡ 32) xs
      → IsAscending xs
      → At buf (offset + consumed) (concat xs ++ drop end buf)
      → Variable buf offset n (decoded sedimentree_id head digest xs v) end
  decoded-Variable buf sedimentree_id head digest n offset v consumed xs end small fits bytes count
        sizes up at =
      rw (collect_ascending xs up) (record {
        count = count;
        size = small;
        parents = sizes;
        ascending = up;
        at = rw (← bytes) (record {
          here =
              (At-taken buf offset consumed fits).here
              ∙ ap (◌++◌ (take consumed (drop offset buf))) at.here;
          fits = omega (
            arith,
            (At-taken buf offset consumed fits).fits,
            at.fits,
            length-append (take consumed (drop offset buf)) (concat xs ++ drop end buf),
            length-append (take consumed (drop offset buf)) (drop (offset + consumed) buf),
            length-drop (offset + consumed) buf,
          );
        });
      })

  -- What the variable part held when it was decoded.
  decode_variable_inv :
      (buf sedimentree_id head digest : Bytes) (n offset : ℕ) (c : LooseCommit) (end : ℕ)
      → offset ≤ length buf
      → decode_variable bijou buf sedimentree_id head digest n offset ≡ ok (c, end)
      → (c.sedimentree_id ≡ sedimentree_id)
        × (c.head ≡ head)
        × (c.blob_meta.digest ≡ digest)
        × Variable buf offset n c end
  unfolding decode_variable
  decode_variable_inv buf sedimentree_id head digest n offset c end room h =
      let ((v, consumed), d, h1) = >>=-eq-ok _ _ h in
      let (small, short, bytes) =
        laws.decode_canonical (drop offset buf) v consumed (map_err-eq-ok _ _ d) in
      let fits : offset + consumed ≤ length buf = omega (arith, short, length-drop offset buf) in
      let (_, h2) = else-eq-ok (ltb (length buf) (offset + consumed + n * 32)) _ _ h1 in
      let ((xs, end'), a, h3) = >>=-eq-ok _ _ h2 in
      let (count, sizes, _, at') =
        arrays_inv 32 n buf (offset + consumed) xs end' fits (map_err-eq-ok _ _ a) in
      let (_, sorted, h4) = >>=-eq-ok _ _ h3 in
      let up : IsAscending xs = (verify_sorted_iff xs).0 (map_err-eq-ok _ _ sorted) in
      let e : c ≡ decoded sedimentree_id head digest xs v = cc in
      let f : end ≡ end' = cc in
      rw (e, f)
        (
          refl,
          refl,
          refl,
          decoded-Variable buf sedimentree_id head digest n offset v consumed xs end' small fits
              bytes count sizes up at',
        )

  module _ (buf sid head digest : Bytes) (n : ℕ) (c : LooseCommit) (end : ℕ)
      (bytes : All IsByte buf) (at1 : At buf 0 (sid ++ drop 32 buf))
      (at2 : At buf 32 (head ++ drop 64 buf)) (at3 : At buf 64 (digest ++ drop 96 buf))
      (at4 : At buf 96 (n ∷ drop 97 buf)) (v : Variable buf 97 n c end)
      (e1 : c.sedimentree_id ≡ sid) (e2 : c.head ≡ head) (e3 : c.blob_meta.digest ≡ digest) where
    bytes-At : (offset : ℕ) (x rest : Bytes) → At buf offset (x ++ rest) → All IsByte x
    bytes-At offset x rest at =
        (All-append IsByte x rest (subst (All IsByte) at.here (All-drop IsByte offset buf bytes))).0

    count_byte : n < 256
    count_byte = (bytes-At 96 (n ∷ []) (drop 97 buf) at4).0

    assembled_IsEncodable : length sid ≡ 32 → length head ≡ 32 → length digest ≡ 32 → IsEncodable c
    assembled_IsEncodable l1 l2 l3 = record {
      sedimentree_id = rw e1 (l1, bytes-At 0 sid _ at1);
      head = rw e2 (l2, bytes-At 32 head _ at2);
      digest = rw e3 (l3, bytes-At 64 digest _ at3);
      size = v.size;
      parents = v.parents;
      ascending = v.ascending;
      count = omega (arith, v.count, count_byte);
    }

    assembled : encode_fields bijou c [] ++ drop end buf ≡ buf
    assembled =
        let count : length c.parents % 256 ≡ n = omega (arith, v.count, count_byte) in
        let whole : buf
            ≡ sid
              ++ (head
                  ++ (digest
                      ++ (n
                          ∷ (bijou.encode c.blob_meta.size_bytes
                              ++ (concat c.parents ++ drop end buf))))) =
          at1.here
          ∙ ap (◌++◌ sid) (
              at2.here
              ∙ ap (◌++◌ head) (at3.here ∙ ap (◌++◌ digest) (at4.here ∙ ap (◌∷◌ n) v.at.here))) in
        rw (encode_fields-layout bijou c [], e1, e2, e3, count) (simp append_assoc (sym whole))

  -- From a list of bytes, what the decoder accepts is the encoding of an encodable commit, followed
  -- by the bytes that it left.
  pub try_decode_fields_canonical :
      (buf : Bytes) (c : LooseCommit) (end : ℕ)
      → All IsByte buf
      → try_decode_fields bijou buf ≡ ok (c, end)
      → IsEncodable c × (encode_fields bijou c [] ++ drop end buf ≡ buf)
  unfolding try_decode_fields
  try_decode_fields_canonical buf c end bytes h =
      let (_, h0) = else-eq-ok (ltb (length buf) 98) _ _ h in
      let (sid, a1, h1) = >>=-eq-ok _ _ h0 in
      let (head, a2, h2) = >>=-eq-ok _ _ h1 in
      let (digest, a3, h3) = >>=-eq-ok _ _ h2 in
      let (n, a4, h4) = >>=-eq-ok _ _ h3 in
      let (l1, at1) = array_inv 32 buf 0 sid (map_err-eq-ok _ _ a1) in
      let (l2, at2) = array_inv 32 buf 32 head (map_err-eq-ok _ _ a2) in
      let (l3, at3) = array_inv 32 buf 64 digest (map_err-eq-ok _ _ a3) in
      let at4 = u8_inv buf 96 n (map_err-eq-ok _ _ a4) in
      let room : 97 ≤ length buf = omega (arith, at4.fits) in
      let (e1, e2, e3, v) = decode_variable_inv buf sid head digest n 97 c end room h4 in
      (
        assembled_IsEncodable buf sid head digest n c end bytes at1 at2 at3 at4 v e1 e2 e3 l1 l2 l3,
        assembled buf sid head digest n c end bytes at1 at2 at3 at4 v e1 e2 e3,
      )
