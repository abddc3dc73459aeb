-- ===== src/Signed.antt =====
-- subduction_crypto/src/signed.rs and verified_signature.rs, for any type of payload with a codec. A
-- `VerifyingKey` and a `Signature` of the crate ed25519_dalek are their bytes.
pub mod Ranges
pub mod Sealed
pub mod Commits
use Prim.Native.String.{String}
use subduction.Codec.{
  Result, ok, err, ◌>>=◌, DecodeError, message_too_short, invalid_schema, invalid_discriminant,
  invalid_verifying_key, InvalidSchema, InvalidDiscriminant,
}
use subduction.Codec.Decode.{get_range, ok_or}
use subduction.Prelude.{
  ℕ, zero, suc, ◌+◌, ◌-◌, ◌*◌, ◌/◌, ◌%◌, ◌^◌, ◌≤◌, ◌<◌, min, ◌≡◌, refl, sym, ap, ◌∙◌, subst, ◌≢◌,
  ◌↔◌, ◌⊎◌, inl, inr, Bool, true, false, not, ◌&&◌, ◌||◌, Option, none, some, List, [], ◌∷◌, ◌++◌,
  map, append_assoc, append-nil, arith, dec_lt, dec_le, ℕ_discrete, ltb, leb, if◌then◌else◌, Eq,
  ◌==◌, nat_eq, ==_iff, ==-refl, Bool-cases, Option-cases, length, take, drop, get_elem?, filter,
  any, all, All, length-append, take-append, drop-append, Bytes, IsByte, IsArray, bytes_eq,
  Bytes-discrete, bytes_ltb, bytes_ltb_irrefl, bytes_ltb_trans, bytes_ltb-total, bytes_ltb-asymm,
  take-append-drop, length-take, length-drop, All-append, All-drop, zero-add, add-zero, suc-add,
  add_assoc, add_comm, ltb_of_le, ltb_of_lt, le_of_ltb, lt_of_ltb, length-drop_fits, drop-drop,
  add-one, list_discrete, bytes_list_eq, filter_none, List-cases, All-imp, All-snoc, append-All,
  length-map,
}

-- `Schema`, `EncodeFields` and `DecodeFields` of a type.
pub record Payload (Kind T : Type 0) : Type 0 where
  pub type_name : String
  pub schema : Bytes
  pub discriminant : Option ℕ
  pub min_signed_size : ℕ
  pub encode_fields : T → Bytes → Bytes
  pub try_decode_fields : Bytes → Result (DecodeError Kind) (T × ℕ)

-- What the code calls of ed25519_dalek: whether bytes are a key, and whether a key has signed bytes.
pub record Ed25519 : Type 0 where
  pub is_key : Bytes → Bool
  pub verify_strict : Bytes → Bytes → Bytes → Bool

-- A `Signer`, whose future always ends.
pub record Signer : Type 0 where
  pub verifying_key : Bytes
  pub sign : Bytes → Bytes

pub record Signed : Type 0 where
  pub issuer : Bytes
  pub signature : Bytes
  pub bytes : Bytes

pub record VerifiedSignature (T : Type 0) : Type 0 where
  pub signed : Signed
  pub payload : T

pub data VerificationError (Kind : Type 0) : Type 0 where
  invalid_signature : VerificationError Kind
  codec : DecodeError Kind → VerificationError Kind

abbrev pub schema_size : ℕ
schema_size = 4

abbrev pub verifying_key_size : ℕ
verifying_key_size = 32

abbrev pub signature_size : ℕ
signature_size = 64

-- `bytes.get(start..)`
unfoldable pub get_from : Bytes → ℕ → Option Bytes
get_from bytes start = if leb start (length bytes) then some (drop start bytes) else none

abbrev pub disc_bytes : Option ℕ → Bytes
disc_bytes none = []
disc_bytes (some disc) = disc ∷ []

abbrev pub disc_len : Option ℕ → ℕ
disc_len none = 0
disc_len (some disc) = 1

module _ {Kind T : Type 0} (p : Payload Kind T) (ed : Ed25519) where
  abbrev pub disc_size : ℕ
  disc_size = disc_len p.discriminant

  abbrev pub too_short : ℕ → Bytes → DecodeError Kind
  too_short need bytes = message_too_short p.type_name need (length bytes)

  -- `if let Some(expected_disc) = T::DISCRIMINANT { … }`
  unfoldable pub check_discriminant : Option ℕ → Bytes → Result (DecodeError Kind) (Unit {0})
  check_discriminant none bytes = ok tt
  check_discriminant (some expected_disc) bytes = do
    got_disc ← ok_or (get_elem? bytes schema_size) (too_short (schema_size + 1) bytes)
    if not (got_disc == expected_disc)
        then err (invalid_discriminant (record { expected = expected_disc; got = got_disc }))
        else ok tt

  -- From the fields on.
  unfoldable pub decode_fields : Bytes → Bytes → Result (DecodeError Kind) (Bytes × Bytes × ℕ)
  decode_fields issuer bytes =
      let fields_start = schema_size + disc_size + verifying_key_size in
      do
        fields_bytes ← ok_or (get_from bytes fields_start) (too_short (fields_start + 1) bytes)
        (_, fields_size) ← p.try_decode_fields fields_bytes
        let actual_size =
              schema_size + disc_size + verifying_key_size + fields_size + signature_size in
            if ltb (length bytes) actual_size then err (too_short actual_size bytes) else do
              signature ← ok_or (get_range bytes (fields_start + fields_size) signature_size) (
                  message_too_short p.type_name signature_size
                    (length bytes - (fields_start + fields_size)))
              ok (issuer, signature, actual_size)

  unfoldable pub decode_header : Bytes → Result (DecodeError Kind) (Bytes × Bytes × ℕ)
  decode_header bytes =
      if ltb (length bytes) p.min_signed_size then err (too_short p.min_signed_size bytes) else do
        schema ← ok_or (get_range bytes 0 schema_size) (too_short schema_size bytes)
        if not (schema == p.schema)
            then err (invalid_schema (record { expected = p.schema; got = schema }))
            else do
              _ ← check_discriminant p.discriminant bytes
              issuer ←
                  ok_or (get_range bytes (schema_size + disc_size) verifying_key_size)
                    (too_short (schema_size + disc_size + verifying_key_size) bytes)
              if ed.is_key issuer then decode_fields issuer bytes else err invalid_verifying_key

  unfoldable pub try_decode_prefix : Bytes → Result (DecodeError Kind) (Signed × ℕ)
  try_decode_prefix bytes = do
    (issuer, signature, actual_size) ← decode_header bytes
    message ← ok_or (get_range bytes 0 actual_size) (too_short actual_size bytes)
    ok (record { issuer = issuer; signature = signature; bytes = message }, actual_size)

  unfoldable pub payload_bytes : Signed → Bytes
  payload_bytes self = take (length self.bytes - signature_size) self.bytes

  -- `self.bytes.get(start..end).unwrap_or(&[])`
  unfoldable pub fields_bytes : Signed → Bytes
  fields_bytes self =
      let start = schema_size + disc_size + verifying_key_size in
      let end = length self.bytes - signature_size in
      if leb start end then take (end - start) (drop start self.bytes) else []

  unfoldable pub try_from_signed : Signed → Result (VerificationError Kind) (VerifiedSignature T)
  try_from_signed signed =
      if ed.verify_strict signed.issuer (payload_bytes signed) signed.signature
      then elim (p.try_decode_fields (fields_bytes signed)) [
        | err e ↦ err (codec e)
        | ok read ↦ ok (record { signed = signed; payload = read.0 })
      ]
      else err invalid_signature

  -- What is signed: the schema, the discriminant if there is one, the key and the fields.
  unfoldable pub sealed_payload : Signer → T → Bytes
  sealed_payload signer payload =
      p.encode_fields payload ((p.schema ++ disc_bytes p.discriminant) ++ signer.verifying_key)

  unfoldable pub seal : Signer → T → VerifiedSignature T
  seal signer payload =
      let bytes = sealed_payload signer payload in
      let signature = signer.sign bytes in
      record {
        signed = record {
          issuer = signer.verifying_key;
          signature = signature;
          bytes = bytes ++ signature;
        };
        payload = payload;
      }

  -- `Signed::from_parts`, which writes no discriminant.
  unfoldable pub from_parts : Bytes → Bytes → T → Signed
  from_parts issuer signature payload = record {
    issuer = issuer;
    signature = signature;
    bytes = p.encode_fields payload (p.schema ++ issuer) ++ signature;
  }

  unfoldable pub try_decode_trusted_payload : Signed → Result (DecodeError Kind) T
  try_decode_trusted_payload self = do
    (payload, _) ← p.try_decode_fields (fields_bytes self)
    ok payload
