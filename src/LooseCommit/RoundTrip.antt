-- ===== src/LooseCommit/RoundTrip.antt =====
-- loose_commit.rs: the decoder reads back what the encoder wrote.
use subduction.Codec.{ok}
use subduction.Codec.Bijou.{Bijou, BijouLaws}
use subduction.Codec.Encode
use subduction.Codec.Cursor.{
  At, At-start, At-next_of, At-next_byte, array-At, u8-At, arrays-At, concat, length-concat,
}
use subduction.Codec.Sorted.{verify_sorted_iff, collect_ascending}
use subduction.Codec.Wire.{arrays-concat}
use subduction.LooseCommit.{
  LooseCommit, IsEncodable, encode_fields, fields_size, decode_variable, try_decode_fields,
}
use subduction.Prelude.{
  ltb_of_le, ℕ, ◌+◌, ◌*◌, ◌%◌, ◌≡◌, false, [], ◌∷◌, ◌++◌, append_assoc, arith, ltb, nat_eq, length,
  length-append, Bytes, bytes_eq,
}

module _ {Kind : Type 0} (bijou : Bijou Kind) where
  -- The bytes of a commit: the fixed part, and what follows the number of parents.
  abbrev pub variable_part : LooseCommit → Bytes
  variable_part c = bijou.encode c.blob_meta.size_bytes ++ concat c.parents

  abbrev pub layout : LooseCommit → Bytes
  layout c =
      c.sedimentree_id
      ++ (c.head ++ (c.blob_meta.digest ++ (length c.parents % 256 ∷ variable_part c)))

  pub encode_fields-layout :
      (c : LooseCommit) (buf : Bytes) → encode_fields bijou c buf ≡ buf ++ layout c
  unfolding encode_fields Encode.array Encode.u8 Encode.bytes
  encode_fields-layout c buf = simp (arrays-concat, append_assoc)

  module _ (laws : BijouLaws bijou) where
    decode_variable-At :
        (c : LooseCommit) (buf rest : Bytes) (offset : ℕ)
        → IsEncodable c
        → At buf offset (bijou.encode c.blob_meta.size_bytes ++ (concat c.parents ++ rest))
        → decode_variable bijou buf c.sedimentree_id c.head c.blob_meta.digest
            (length c.parents)
            offset
          ≡ ok (c, offset + bijou.encoded_len c.blob_meta.size_bytes + length c.parents * 32)
    unfolding decode_variable
    decode_variable-At c buf rest offset w at =
        let n = length c.parents in
        let len = bijou.encoded_len c.blob_meta.size_bytes in
        let next : At buf (offset + len) (concat c.parents ++ rest) =
          At-next_of len buf offset (bijou.encode c.blob_meta.size_bytes) (concat c.parents ++ rest)
            (laws.length_encode c.blob_meta.size_bytes w.size) at in
        let room : ltb (length buf) (offset + len + n * 32) ≡ false =
          ltb_of_le (length buf) (offset + len + n * 32) (
            omega (
              arith,
              next.fits,
              length-append (concat c.parents) rest,
              length-concat 32 c.parents w.parents,
            )) in
        rw (
          at.here,
          laws.decode_encode c.blob_meta.size_bytes (concat c.parents ++ rest) w.size,
          room,
          arrays-At 32 c.parents buf (offset + len) rest w.parents next,
          (verify_sorted_iff c.parents).1 w.ascending,
          collect_ascending c.parents w.ascending,
        )

    decode-At :
        (c : LooseCommit) (buf rest : Bytes)
        → IsEncodable c
        → At buf 0 (layout c ++ rest)
        → try_decode_fields bijou buf ≡ ok (c, fields_size bijou c)
    unfolding try_decode_fields fields_size
    decode-At c buf rest w at =
        let n = length c.parents in
        let size = bijou.encode c.blob_meta.size_bytes in
        let tail = size ++ (concat c.parents ++ rest) in
        let at0 : At buf 0
            (c.sedimentree_id ++ (c.head ++ (c.blob_meta.digest ++ (n % 256 ∷ tail)))) =
          simp append_assoc at at in
        let at1 = At-next_of 32 buf 0 c.sedimentree_id _ w.sedimentree_id.0 at0 in
        let at2 = At-next_of 32 buf 32 c.head _ w.head.0 at1 in
        let at3 = At-next_of 32 buf 64 c.blob_meta.digest _ w.digest.0 at2 in
        let at4 = At-next_byte buf 96 (n % 256) tail at3 in
        let long : ltb (length buf) 98 ≡ false = ltb_of_le (length buf) 98 (
          omega (
            arith,
            at4.fits,
            length-append size (concat c.parents ++ rest),
            laws.length_encode c.blob_meta.size_bytes w.size,
            laws.encode_nonempty c.blob_meta.size_bytes w.size,
          )) in
        let count : n % 256 ≡ n = omega (arith, w.count) in
        rw (
          long,
          array-At 32 buf 0 c.sedimentree_id _ w.sedimentree_id.0 at0,
          array-At 32 buf 32 c.head _ w.head.0 at1,
          array-At 32 buf 64 c.blob_meta.digest _ w.digest.0 at2,
          u8-At buf 96 (n % 256) tail at3,
          count,
          decode_variable-At c buf rest 97 w at4,
        )

    -- From the encoding of an encodable commit, whatever follows it, `try_decode_fields` reads the
    -- commit, and as many bytes as `fields_size` says.
    pub try_decode_fields-encode_fields :
        (c : LooseCommit) (rest : Bytes)
        → IsEncodable c
        → try_decode_fields bijou (encode_fields bijou c [] ++ rest) ≡ ok (c, fields_size bijou c)
    try_decode_fields-encode_fields c rest w =
        rw (encode_fields-layout c [])
          (decode-At c (layout c ++ rest) rest w (At-start (layout c ++ rest)))
