-- ===== src/Handshake/Wire.antt =====
-- The binary form of a challenge, in handshake/challenge.rs: 57 bytes.
use subduction.Codec.{
  Result, ok, err, ◌>>=◌, map_err, DecodeError, message_too_short, buffer_too_short,
  invalid_enum_tag,
}
use subduction.Codec.Encode
use subduction.Codec.Encode.{to_be_bytes}
use subduction.Codec.Decode
use subduction.Codec.Cursor.{At, At-start, At-next_of, At-next_byte, array-At, u8-At, u64-At}
use subduction.Codec.Integers.{length-to_be_bytes, from_be_bytes-to_be_bytes}
use subduction.Handshake.{Audience, known, discover, Challenge}
use subduction.Prelude.{
  ℕ, ◌+◌, ◌^◌, ◌<◌, ◌≡◌, refl, false, [], ◌∷◌, ◌++◌, append_assoc, arith, ltb, if◌then◌else◌, ◌==◌,
  nat_eq, length, length-append, Bytes, bytes_eq, ltb_of_le, bytes_list_eq,
}

abbrev pub challenge_fields_size : ℕ
challenge_fields_size = 1 + 32 + 8 + 16

-- `AudienceTag`
unfoldable pub audience_tag : Audience → ℕ
audience_tag (known _) = 0x00
audience_tag (discover _) = 0x01

unfoldable pub audience_value : Audience → Bytes
audience_value (known peer_id) = peer_id
audience_value (discover disc_id) = disc_id

unfoldable pub encode_fields : Challenge → Bytes → Bytes
encode_fields self buf =
    let tag = Encode.u8 (audience_tag self.audience) buf in
    let value = Encode.array (audience_value self.audience) tag in
    let timestamp = Encode.u64 self.timestamp value in Encode.array self.nonce timestamp

module _ {Kind : Type 0} where
  unfoldable pub audience_of : ℕ → Bytes → Result (DecodeError Kind) Audience
  audience_of tag value =
      if tag == 0x00
      then ok (known value)
      else if tag == 0x01
      then ok (discover value)
      else err (invalid_enum_tag (record { tag = tag; type_name = "Audience" }))

  unfoldable pub try_decode_fields : Bytes → Result (DecodeError Kind) (Challenge × ℕ)
  try_decode_fields buf =
      if ltb (length buf) challenge_fields_size
      then err (message_too_short "Challenge" challenge_fields_size (length buf))
      else do
        tag ← map_err buffer_too_short (Decode.u8 buf 0)
        value ← map_err buffer_too_short (Decode.array 32 buf 1)
        audience ← audience_of tag value
        timestamp ← map_err buffer_too_short (Decode.u64 buf 33)
        nonce ← map_err buffer_too_short (Decode.array 16 buf 41)
        ok (record { audience = audience; timestamp = timestamp; nonce = nonce }, 57)

-- What the types of the fields say.
pub record IsEncodable (c : Challenge) : Type 0 where
  pub value : length (audience_value c.audience) ≡ 32
  pub timestamp : c.timestamp < 2 ^ 64
  pub nonce : length c.nonce ≡ 16

abbrev layout : Challenge → Bytes
layout c =
    audience_tag c.audience ∷ (audience_value c.audience ++ (to_be_bytes 8 c.timestamp ++ c.nonce))

encode_fields-layout : (c : Challenge) (buf : Bytes) → encode_fields c buf ≡ buf ++ layout c
unfolding encode_fields Encode.array Encode.u8 Encode.u64
encode_fields-layout c buf = simp append_assoc

audience_of-tag :
    {Kind : Type 0} (a : Audience)
    → audience_of {Kind = Kind} (audience_tag a) (audience_value a) ≡ ok a
unfolding audience_of audience_tag audience_value
audience_of-tag (known x) = ground arith
audience_of-tag (discover x) = ground arith

decode-At :
    {Kind : Type 0} (c : Challenge) (buf rest : Bytes)
    → IsEncodable c
    → At buf 0 (layout c ++ rest)
    → try_decode_fields {Kind = Kind} buf ≡ ok (c, 57)
unfolding try_decode_fields
decode-At c buf rest w at =
    let time = to_be_bytes 8 c.timestamp in
    let at0 : At buf 0
        (audience_tag c.audience ∷ (audience_value c.audience ++ (time ++ (c.nonce ++ rest)))) =
      simp append_assoc at at in
    let at1 = At-next_byte buf 0 (audience_tag c.audience) _ at0 in
    let at2 = At-next_of 32 buf 1 (audience_value c.audience) _ w.value at1 in
    let at3 = At-next_of 8 buf 33 time _ (length-to_be_bytes 8 c.timestamp) at2 in
    let long : ltb (length buf) 57 ≡ false =
      ltb_of_le (length buf) 57 (omega (arith, at3.fits, length-append c.nonce rest, w.nonce)) in
    rw
      (
        long,
        u8-At buf 0 (audience_tag c.audience) _ at0,
        array-At 32 buf 1 (audience_value c.audience) _ w.value at1,
        audience_of-tag c.audience,
        u64-At buf 33 time _ (length-to_be_bytes 8 c.timestamp) at2,
        from_be_bytes-to_be_bytes 8 c.timestamp w.timestamp,
        array-At 16 buf 41 c.nonce rest w.nonce at3,
      )
      refl

-- From the encoding of an encodable challenge, whatever follows it, `try_decode_fields` reads the
-- challenge and 57 bytes.
pub try_decode_fields-encode_fields_challenge :
    {Kind : Type 0} (c : Challenge) (rest : Bytes)
    → IsEncodable c
    → try_decode_fields {Kind = Kind} (encode_fields c [] ++ rest) ≡ ok (c, 57)
try_decode_fields-encode_fields_challenge c rest w =
    rw (encode_fields-layout c [])
      (decode-At c (layout c ++ rest) rest w (At-start (layout c ++ rest)))
