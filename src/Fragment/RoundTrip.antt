-- ===== src/Fragment/RoundTrip.antt =====
-- fragment.rs: the decoder reads back what the encoder wrote.
use subduction.Codec.{ok}
use subduction.Codec.Bijou.{Bijou, BijouLaws}
use subduction.Codec.Encode
use subduction.Codec.Encode.{to_be_bytes}
use subduction.Codec.Cursor.{
  At, At-start, At-next_of, At-next_byte, array-At, u8-At, u16-At, arrays-At, concat, length-concat,
}
use subduction.Codec.Integers.{length-to_be_bytes, from_be_bytes-to_be_bytes}
use subduction.Codec.Sorted.{verify_sorted_iff, collect_ascending}
use subduction.Codec.Wire.{arrays-concat}
use subduction.Fragment.{Fragment}
use subduction.Fragment.Wire.{
  IsEncodable, encode_fields, fields_size, decode_variable, try_decode_fields,
}
use subduction.Prelude.{
  ℕ, ◌+◌, ◌*◌, ◌%◌, ◌^◌, ◌≡◌, subst, false, [], ◌∷◌, ◌++◌, append_assoc, arith, ltb, nat_eq, length,
  length-append, Bytes, bytes_eq, ltb_of_le, bytes_list_eq,
}

module _ {Kind : Type 0} (bijou : Bijou Kind) where
  -- The bytes from the size of the blob on.
  abbrev variable_part : Fragment → Bytes
  variable_part f =
      bijou.encode f.summary.blob_meta.size_bytes
      ++ (concat f.summary.boundary ++ concat f.checkpoints)

  abbrev layout : Fragment → Bytes
  layout f =
      f.sedimentree_id
      ++ (f.summary.head
          ++ (f.summary.blob_meta.digest
              ++ (length f.summary.boundary % 256
                  ∷ (to_be_bytes 2 (length f.checkpoints % 2 ^ 16) ++ variable_part f))))

  encode_fields-layout : (f : Fragment) (buf : Bytes) → encode_fields bijou f buf ≡ buf ++ layout f
  unfolding encode_fields Encode.array Encode.u8 Encode.u16 Encode.bytes
  encode_fields-layout f buf = simp (arrays-concat, append_assoc)

  module _ (laws : BijouLaws bijou) where
    decode_variable-At :
        (f : Fragment) (buf rest : Bytes) (offset : ℕ)
        → IsEncodable f
        → At buf offset (
            bijou.encode f.summary.blob_meta.size_bytes
            ++ (concat f.summary.boundary ++ (concat f.checkpoints ++ rest)))
        → decode_variable bijou buf f.sedimentree_id f.summary.head f.summary.blob_meta.digest
            (length f.summary.boundary)
            (length f.checkpoints)
            offset
          ≡ ok (
            f,
            offset
                + bijou.encoded_len f.summary.blob_meta.size_bytes
                + length f.summary.boundary * 32
                + length f.checkpoints * 12,
          )
    unfolding decode_variable
    decode_variable-At f buf rest offset w at =
        let n = length f.summary.boundary in
        let k = length f.checkpoints in
        let len = bijou.encoded_len f.summary.blob_meta.size_bytes in
        let tail = concat f.checkpoints ++ rest in
        let next : At buf (offset + len) (concat f.summary.boundary ++ tail) =
          At-next_of len buf offset (bijou.encode f.summary.blob_meta.size_bytes)
            (concat f.summary.boundary ++ tail)
            (laws.length_encode f.summary.blob_meta.size_bytes w.size) at in
        let after : At buf (offset + len + n * 32) tail =
          At-next_of (n * 32) buf (offset + len) (concat f.summary.boundary) tail
            (length-concat 32 f.summary.boundary w.boundary) next in
        let room : ltb (length buf) (offset + len + (n * 32 + k * 12)) ≡ false =
          ltb_of_le (length buf) (offset + len + (n * 32 + k * 12)) (
            omega (
              arith,
              after.fits,
              length-append (concat f.checkpoints) rest,
              length-concat 12 f.checkpoints w.checkpoints,
            )) in
        rw (
          at.here,
          laws.decode_encode f.summary.blob_meta.size_bytes (concat f.summary.boundary ++ tail)
              w.size,
          room,
          arrays-At 32 f.summary.boundary buf (offset + len) tail w.boundary next,
          (verify_sorted_iff f.summary.boundary).1 w.boundary_ascending,
          arrays-At 12 f.checkpoints buf (offset + len + n * 32) rest w.checkpoints after,
          (verify_sorted_iff f.checkpoints).1 w.checkpoints_ascending,
          collect_ascending f.summary.boundary w.boundary_ascending,
          collect_ascending f.checkpoints w.checkpoints_ascending,
        )

    decode-At :
        (f : Fragment) (buf rest : Bytes)
        → IsEncodable f
        → At buf 0 (layout f ++ rest)
        → try_decode_fields bijou buf ≡ ok (f, fields_size bijou f)
    unfolding try_decode_fields fields_size
    decode-At f buf rest w at =
        let n = length f.summary.boundary in
        let k = length f.checkpoints in
        let size = bijou.encode f.summary.blob_meta.size_bytes in
        let tail = size ++ (concat f.summary.boundary ++ (concat f.checkpoints ++ rest)) in
        let at0 : At buf 0 (
            f.sedimentree_id
            ++ (f.summary.head
                ++ (f.summary.blob_meta.digest
                    ++ (n % 256 ∷ (to_be_bytes 2 (k % 2 ^ 16) ++ tail))))) =
          simp append_assoc at at in
        let at1 = At-next_of 32 buf 0 f.sedimentree_id _ w.sedimentree_id at0 in
        let at2 = At-next_of 32 buf 32 f.summary.head _ w.head at1 in
        let at3 = At-next_of 32 buf 64 f.summary.blob_meta.digest _ w.digest at2 in
        let at4 = At-next_byte buf 96 (n % 256) _ at3 in
        let at5 =
          At-next_of 2 buf 97 (to_be_bytes 2 (k % 2 ^ 16)) tail (length-to_be_bytes 2 (k % 2 ^ 16))
            at4 in
        let long : ltb (length buf) 100 ≡ false = ltb_of_le (length buf) 100 (
          omega (
            arith,
            at5.fits,
            length-append size (concat f.summary.boundary ++ (concat f.checkpoints ++ rest)),
            laws.length_encode f.summary.blob_meta.size_bytes w.size,
            laws.encode_nonempty f.summary.blob_meta.size_bytes w.size,
          )) in
        let count : n % 256 ≡ n = omega (arith, w.boundary_count) in
        let count' : k % 2 ^ 16 ≡ k = omega (arith, w.checkpoint_count) in
        let at4' : At buf 97 (to_be_bytes 2 k ++ tail) =
          subst (λ x. At buf 97 (to_be_bytes 2 x ++ tail)) count' at4 in
        rw (
          long,
          array-At 32 buf 0 f.sedimentree_id _ w.sedimentree_id at0,
          array-At 32 buf 32 f.summary.head _ w.head at1,
          array-At 32 buf 64 f.summary.blob_meta.digest _ w.digest at2,
          u8-At buf 96 (n % 256) _ at3,
          count,
          u16-At buf 97 (to_be_bytes 2 k) tail (length-to_be_bytes 2 k) at4',
          from_be_bytes-to_be_bytes 2 k (omega (arith, w.checkpoint_count)),
          decode_variable-At f buf rest 99 w at5,
        )

    -- From the encoding of an encodable fragment, whatever follows it, `try_decode_fields` reads the
    -- fragment, and as many bytes as `fields_size` says.
    pub try_decode_fields-encode_fields_fragment :
        (f : Fragment) (rest : Bytes)
        → IsEncodable f
        → try_decode_fields bijou (encode_fields bijou f [] ++ rest) ≡ ok (f, fields_size bijou f)
    try_decode_fields-encode_fields_fragment f rest w =
        rw (encode_fields-layout f [])
          (decode-At f (layout f ++ rest) rest w (At-start (layout f ++ rest)))
