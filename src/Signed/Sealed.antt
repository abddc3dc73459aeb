-- ===== src/Signed/Sealed.antt =====
-- signed.rs: a sealed payload, decoded again.
use subduction.Codec.{ok}
use subduction.Codec.Decode.{get_range}
use subduction.Signed.{
  Signed, try_from_signed, decode_header, try_decode_prefix, payload_bytes, seal, fields_bytes,
  Payload, Ed25519, Signer, disc_bytes, disc_len, check_discriminant, decode_fields, sealed_payload,
}
use subduction.Signed.Ranges.{get_elem?-append, get_range-at, get_from-at, length-disc_bytes}
use subduction.Prelude.{
  append-nil, ◌-◌, ℕ, ◌+◌, ◌≤◌, ◌≡◌, refl, sym, ap, ◌∙◌, true, false, Option, none, some, [], ◌∷◌,
  ◌++◌, append_assoc, arith, ltb, leb, nat_eq, ==-refl, length, take, drop, get_elem?,
  length-append, take-append, drop-append, Bytes, bytes_eq, bytes_list_eq,
}

-- What the codec of a type promises of the payloads that can be encoded.
pub record PayloadLaws {Kind T : Type 0} (p : Payload Kind T) (IsEncodable : T → Type 0)
    : Type 0 where
  pub appends : (t : T) (buf : Bytes) → p.encode_fields t buf ≡ buf ++ p.encode_fields t []
  pub reads :
      (t : T) (rest : Bytes)
      → IsEncodable t
      → p.try_decode_fields (p.encode_fields t [] ++ rest) ≡ ok (t, length (p.encode_fields t []))
  pub large :
      (t : T)
      → IsEncodable t
      → p.min_signed_size ≤ 4 + disc_len p.discriminant + 32 + length (p.encode_fields t []) + 64
  pub schema_length : length p.schema ≡ 4

-- What ed25519_dalek documents: a signer's key is one, has 32 bytes, and accepts its signatures, of
-- 64 bytes.
pub record SignerLaws (ed : Ed25519) (signer : Signer) : Type 0 where
  pub is_key : ed.is_key signer.verifying_key ≡ true
  pub key_length : length signer.verifying_key ≡ 32
  pub signature_length : (bytes : Bytes) → length (signer.sign bytes) ≡ 64
  pub accepts :
      (bytes : Bytes) → ed.verify_strict signer.verifying_key bytes (signer.sign bytes) ≡ true

module _ {Kind T : Type 0} (p : Payload Kind T) (ed : Ed25519) where
  check_discriminant-at :
      (d : Option ℕ) (pre post : Bytes)
      → length pre ≡ 4
      → check_discriminant p ed d (pre ++ (disc_bytes d ++ post)) ≡ ok tt
  unfolding check_discriminant
  check_discriminant-at none pre post at = refl
  check_discriminant-at (some x) pre post at =
      let there : get_elem? (pre ++ (x ∷ post)) 4 ≡ some x =
        ap (get_elem? (pre ++ (x ∷ post))) (sym at) ∙ get_elem?-append pre x post in
      rw (there, ==-refl x) refl

  module _ (IsEncodable : T → Type 0) (laws : PayloadLaws p IsEncodable) (signer : Signer)
      (signs : SignerLaws ed signer) (t : T) (encodable : IsEncodable t) where
    abbrev fields : Bytes
    fields = p.encode_fields t []

    abbrev start : Bytes
    start = (p.schema ++ disc_bytes p.discriminant) ++ signer.verifying_key

    abbrev message : Bytes
    message = start ++ fields

    abbrev signature : Bytes
    signature = signer.sign message

    abbrev size : ℕ
    size = 4 + disc_len p.discriminant + 32 + length fields + 64

    sealed : sealed_payload p ed signer t ≡ message
    unfolding sealed_payload
    sealed = laws.appends t start

    length-start : length start ≡ 4 + disc_len p.discriminant + 32
    length-start = omega (
      arith,
      length-append (p.schema ++ disc_bytes p.discriminant) signer.verifying_key,
      length-append p.schema (disc_bytes p.discriminant),
      laws.schema_length,
      length-disc_bytes p.discriminant,
      signs.key_length,
    )

    length-whole : length (message ++ signature) ≡ size
    length-whole = omega (
      arith,
      length-append message signature,
      length-append start fields,
      length-start,
      signs.signature_length message,
    )

    decode_fields-at :
        (rest : Bytes)
        → decode_fields p ed signer.verifying_key (start ++ (fields ++ (signature ++ rest)))
          ≡ ok (signer.verifying_key, signature, size)
    unfolding decode_fields
    decode_fields-at rest =
        let buf = start ++ (fields ++ (signature ++ rest)) in
        let long : ltb (length buf) size ≡ false = ground (
          arith,
          length-append start (fields ++ (signature ++ rest)),
          length-append fields (signature ++ rest),
          length-append signature rest,
          length-start,
          signs.signature_length message,
        ) in
        let at : get_range buf (4 + disc_len p.discriminant + 32 + length fields) 64
            ≡ some signature =
          ap (λ b. get_range b (4 + disc_len p.discriminant + 32 + length fields) 64)
            (sym (append_assoc start fields (signature ++ rest)))
          ∙ get_range-at message signature rest (4 + disc_len p.discriminant + 32 + length fields)
              64 (omega (arith, length-append start fields, length-start))
              (signs.signature_length message) in
        rw
          (
            get_from-at start (fields ++ (signature ++ rest)) (4 + disc_len p.discriminant + 32)
                length-start,
            laws.reads t (signature ++ rest) encodable,
            long,
            at,
          )
          refl

    abbrev wire : Bytes → Bytes
    wire rest = start ++ (fields ++ (signature ++ rest))

    wire-schema :
        (rest : Bytes)
        → wire rest
          ≡ p.schema
            ++ (disc_bytes p.discriminant
                ++ (signer.verifying_key ++ (fields ++ (signature ++ rest))))
    wire-schema rest =
        append_assoc (p.schema ++ disc_bytes p.discriminant) signer.verifying_key
          (fields ++ (signature ++ rest))
        ∙ append_assoc p.schema (disc_bytes p.discriminant)
            (signer.verifying_key ++ (fields ++ (signature ++ rest)))

    wire-message : (rest : Bytes) → wire rest ≡ (message ++ signature) ++ rest
    wire-message rest =
        sym (append_assoc start fields (signature ++ rest))
        ∙ sym (append_assoc message signature rest)

    decode_header-at :
        (rest : Bytes) → decode_header p ed (wire rest) ≡ ok (signer.verifying_key, signature, size)
    unfolding decode_header
    decode_header-at rest =
        let tail = fields ++ (signature ++ rest) in
        let d = disc_bytes p.discriminant in
        let long : ltb (length (wire rest)) p.min_signed_size ≡ false = ground (
          arith,
          laws.large t encodable,
          ap length (wire-message rest),
          length-append (message ++ signature) rest,
          length-whole,
        ) in
        let schema_there : get_range (wire rest) 0 4 ≡ some p.schema =
          ap (λ b. get_range b 0 4) (wire-schema rest)
          ∙ get_range-at [] p.schema (d ++ (signer.verifying_key ++ tail)) 0 4 refl
              laws.schema_length in
        let disc_there : check_discriminant p ed p.discriminant (wire rest) ≡ ok tt =
          ap (check_discriminant p ed p.discriminant) (wire-schema rest)
          ∙ check_discriminant-at p.discriminant p.schema (signer.verifying_key ++ tail)
              laws.schema_length in
        let key_there : get_range (wire rest) (4 + disc_len p.discriminant) 32
            ≡ some signer.verifying_key =
          ap (λ b. get_range b (4 + disc_len p.discriminant) 32)
            (append_assoc (p.schema ++ d) signer.verifying_key tail)
          ∙ get_range-at (p.schema ++ d) signer.verifying_key tail (4 + disc_len p.discriminant) 32
              (omega (
                arith,
                length-append p.schema d,
                laws.schema_length,
                length-disc_bytes p.discriminant,
              ))
              signs.key_length in
        rw
          (long, schema_there, ==-refl p.schema, disc_there, key_there, signs.is_key, decode_header)
          (decode_fields-at rest)

    abbrev signed : Signed
    signed = record {
      issuer = signer.verifying_key;
      signature = signature;
      bytes = message ++ signature;
    }

    seal-eq : seal p ed signer t ≡ record { signed = signed; payload = t }
    unfolding seal
    seal-eq = rw sealed refl

    try_decode_prefix-at :
        (rest : Bytes) → try_decode_prefix p ed ((message ++ signature) ++ rest) ≡ ok (signed, size)
    unfolding try_decode_prefix
    try_decode_prefix-at rest =
        let header : decode_header p ed ((message ++ signature) ++ rest)
            ≡ ok (signer.verifying_key, signature, size) =
          ap (decode_header p ed) (sym (wire-message rest)) ∙ decode_header-at rest in
        let whole : get_range ((message ++ signature) ++ rest) 0 size
            ≡ some (message ++ signature) =
          get_range-at [] (message ++ signature) rest 0 size refl length-whole in
        rw (header, whole, try_decode_prefix) refl

    cut : length (message ++ signature) - 64 ≡ length message
    cut = omega (arith, length-append message signature, signs.signature_length message)

    fields-at : fields_bytes p ed (signed) ≡ fields
    unfolding fields_bytes
    fields-at =
        let at = 4 + disc_len p.discriminant + 32 in
        let whole = message ++ signature in
        let fits : leb at (length whole - 64) ≡ true =
          ground (arith, cut, length-append start fields, length-start) in
        let rest_at : drop at whole ≡ fields ++ signature =
          ap (drop at) (append_assoc start fields signature)
          ∙ ap (λ i. drop i (start ++ (fields ++ signature))) (sym length-start)
          ∙ drop-append start (fields ++ signature) in
        let left : length whole - 64 - at ≡ length fields =
          omega (arith, cut, length-append start fields, length-start) in
        rw fits (
          ap (take (length whole - 64 - at)) rest_at
          ∙ ap (λ i. take i (fields ++ signature)) left
          ∙ take-append fields signature)

    payload-at : payload_bytes p ed (signed) ≡ message
    unfolding payload_bytes
    payload-at = ap (λ i. take i (message ++ signature)) cut ∙ take-append message signature

    try_from_signed-at : try_from_signed p ed signed ≡ ok (record { signed = signed; payload = t })
    unfolding try_from_signed
    try_from_signed-at =
        let read : p.try_decode_fields (fields_bytes p ed signed) ≡ ok (t, length fields) =
          ap p.try_decode_fields (fields-at ∙ sym (append-nil fields))
          ∙ laws.reads t [] encodable in
        rw (payload-at, signs.accepts message, read) refl

    -- Whatever follows a sealed payload on the wire, decoding gives back the sealed value and its
    -- length, and verifying that gives the payload, with the signer as the issuer.
    pub try_decode_prefix-seal :
        (rest : Bytes)
        → (try_decode_prefix p ed ((seal p ed signer t).signed.bytes ++ rest)
            ≡ ok ((seal p ed signer t).signed, length (seal p ed signer t).signed.bytes))
          × (try_from_signed p ed (seal p ed signer t).signed ≡ ok (seal p ed signer t))
    try_decode_prefix-seal rest = rw seal-eq (
      try_decode_prefix-at rest ∙ ap (λ n. ok (signed, n)) (sym length-whole),
      try_from_signed-at,
    )
