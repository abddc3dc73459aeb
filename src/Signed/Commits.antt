-- ===== src/Signed/Commits.antt =====
-- The loose commit as a payload, and that its codec promises what a signature needs.
use subduction.Codec.{ok}
use subduction.Codec.Bijou.{Bijou, BijouLaws}
use subduction.Codec.Cursor.{concat, length-concat}
use subduction.LooseCommit.{
  LooseCommit, IsEncodable, encode_fields, fields_size, try_decode_fields, min_fields_size,
}
use subduction.LooseCommit.RoundTrip.{
  variable_part, encode_fields-layout, try_decode_fields-encode_fields,
}
use subduction.Signed.{Payload, schema_size, verifying_key_size, signature_size}
use subduction.Signed.Sealed.{PayloadLaws}
use subduction.Prelude.{
  ◌+◌, ◌%◌, ◌≡◌, refl, sym, ap, ◌∙◌, none, [], ◌∷◌, ◌++◌, arith, nat_eq, length, length-append,
  bytes_eq, bytes_list_eq,
}

module _ {Kind : Type 0} (bijou : Bijou Kind) where
  -- `b"STC\x00"`
  abbrev pub commit_payload : Payload Kind LooseCommit
  commit_payload = record {
    type_name = "LooseCommit";
    schema = 83 ∷ 84 ∷ 67 ∷ 0 ∷ [];
    discriminant = none;
    min_signed_size = schema_size + verifying_key_size + min_fields_size + signature_size;
    encode_fields = encode_fields bijou;
    try_decode_fields = try_decode_fields bijou;
  }

  length-encode_fields :
      (laws : BijouLaws bijou) (c : LooseCommit)
      → IsEncodable c
      → length (encode_fields bijou c []) ≡ fields_size bijou c
  unfolding fields_size
  length-encode_fields laws c w =
      let size = bijou.encode c.blob_meta.size_bytes in
      ap length (encode_fields-layout bijou c [])
      ∙ omega (
        arith,
        length-append c.sedimentree_id
            (c.head ++ (c.blob_meta.digest ++ (length c.parents % 256 ∷ variable_part bijou c))),
        length-append c.head
            (c.blob_meta.digest ++ (length c.parents % 256 ∷ variable_part bijou c)),
        length-append c.blob_meta.digest (length c.parents % 256 ∷ variable_part bijou c),
        length-append size (concat c.parents),
        laws.length_encode c.blob_meta.size_bytes w.size,
        length-concat 32 c.parents w.parents,
        w.sedimentree_id.0,
        w.head.0,
        w.digest.0,
      )

  pub commit_laws : BijouLaws bijou → PayloadLaws commit_payload IsEncodable
  unfolding fields_size
  commit_laws laws = record {
    appends = λ c buf.
        encode_fields-layout bijou c buf
        ∙ ap (λ xs. buf ++ xs) (sym (encode_fields-layout bijou c []));
    reads = λ c rest w.
        try_decode_fields-encode_fields bijou laws c rest w
        ∙ ap (λ n. ok (c, n)) (sym (length-encode_fields laws c w));
    large = λ c w.
        omega (
          arith,
          length-encode_fields laws c w,
          laws.encode_nonempty c.blob_meta.size_bytes w.size,
        );
    schema_length = refl;
  }
