-- ===== src/Fragment/Wire.antt =====
-- The binary form of a fragment, in fragment.rs.
use subduction.Identity.{CommitId, SedimentreeId}
use subduction.Codec.{
  Result, ok, err, ◌>>=◌, ◌>>◌, map_err, DecodeError, message_too_short, buffer_too_short,
  unsorted_array, bijou64, ReadingType,
}
use subduction.Codec.Bijou.{Bijou}
use subduction.Codec.Encode
use subduction.Codec.Encode.{to_be_bytes}
use subduction.Codec.Decode
use subduction.Collections.BTreeSet
use subduction.Collections.BTreeSet.{IsAscending}
use subduction.Fragment.{Fragment, head}
use subduction.Prelude.{
  ℕ, ◌+◌, ◌*◌, ◌%◌, ◌^◌, ◌<◌, ◌≡◌, ltb, if◌then◌else◌, nat_eq, length, drop, All, Bytes, bytes_eq,
  bytes_list_eq,
}

abbrev pub codec_fixed_fields_size : ℕ
codec_fixed_fields_size = 32 + 32 + 32 + 1 + 2

abbrev pub codec_min_fields_size : ℕ
codec_min_fields_size = codec_fixed_fields_size + 1

abbrev pub checkpoint_bytes : ℕ
checkpoint_bytes = 12

-- What the types of the fields say, and the limits of the two counts.
pub record IsEncodable (f : Fragment) : Type 0 where
  pub sedimentree_id : length f.sedimentree_id ≡ 32
  pub head : length f.summary.head ≡ 32
  pub digest : length f.summary.blob_meta.digest ≡ 32
  pub size : f.summary.blob_meta.size_bytes < 2 ^ 64
  pub boundary : All (λ b. length b ≡ 32) f.summary.boundary
  pub boundary_ascending : IsAscending f.summary.boundary
  pub boundary_count : length f.summary.boundary < 256
  pub checkpoints : All (λ c. length c ≡ 12) f.checkpoints
  pub checkpoints_ascending : IsAscending f.checkpoints
  pub checkpoint_count : length f.checkpoints < 2 ^ 16

module _ {Kind : Type 0} (bijou : Bijou Kind) where
  -- The casts keep the lowest byte and the lowest two bytes.
  unfoldable pub encode_fields : Fragment → Bytes → Bytes
  encode_fields f buf =
      let ids = Encode.array f.summary.head (Encode.array f.sedimentree_id buf) in
      let digest = Encode.array f.summary.blob_meta.digest ids in
      let boundary_count = Encode.u8 (length f.summary.boundary % 256) digest in
      let checkpoint_count = Encode.u16 (length f.checkpoints % 2 ^ 16) boundary_count in
      let size = Encode.bytes (bijou.encode f.summary.blob_meta.size_bytes) checkpoint_count in
      Encode.arrays f.checkpoints (Encode.arrays f.summary.boundary size)

  unfoldable pub fields_size : Fragment → ℕ
  fields_size f =
      codec_fixed_fields_size
      + bijou.encoded_len f.summary.blob_meta.size_bytes
      + length f.summary.boundary * 32
      + length f.checkpoints * checkpoint_bytes

  -- The fields behind the fixed part, `offset` pointing at the size of the blob.
  unfoldable pub decode_variable :
      Bytes
      → SedimentreeId
      → CommitId
      → Bytes
      → ℕ
      → ℕ
      → ℕ
      → Result (DecodeError Kind) (Fragment × ℕ)
  decode_variable buf sedimentree_id head blob_digest boundary_count checkpoint_count offset = do
    (blob_size, consumed) ←
        map_err (λ kind. bijou64 (record { offset = offset; kind = kind }))
          (bijou.decode (drop offset buf))
    let total_variable_size = boundary_count * 32 + checkpoint_count * checkpoint_bytes
    if ltb (length buf) (offset + consumed + total_variable_size)
        then err (
            buffer_too_short (
              Decode.too_short (ReadingType.slice total_variable_size) buf (offset + consumed)
                total_variable_size))
        else do
          (boundary_arrays, middle) ←
              map_err buffer_too_short (Decode.arrays 32 boundary_count buf (offset + consumed))
          map_err unsorted_array (Decode.verify_sorted boundary_arrays)
          (checkpoint_arrays, end) ←
              map_err buffer_too_short (Decode.arrays checkpoint_bytes checkpoint_count buf middle)
          map_err unsorted_array (Decode.verify_sorted checkpoint_arrays)
          ok (
            record {
              sedimentree_id = sedimentree_id;
              summary = record {
                head = head;
                boundary = BTreeSet.collect boundary_arrays;
                blob_meta = record { digest = blob_digest; size_bytes = blob_size };
              };
              checkpoints = BTreeSet.collect checkpoint_arrays;
            },
            end,
          )

  unfoldable pub try_decode_fields : Bytes → Result (DecodeError Kind) (Fragment × ℕ)
  try_decode_fields buf =
      if ltb (length buf) codec_min_fields_size
      then err (message_too_short "Fragment" codec_min_fields_size (length buf))
      else do
        sedimentree_id ← map_err buffer_too_short (Decode.array 32 buf 0)
        head ← map_err buffer_too_short (Decode.array 32 buf 32)
        blob_digest ← map_err buffer_too_short (Decode.array 32 buf 64)
        boundary_count ← map_err buffer_too_short (Decode.u8 buf 96)
        checkpoint_count ← map_err buffer_too_short (Decode.u16 buf 97)
        decode_variable buf sedimentree_id head blob_digest boundary_count checkpoint_count 99
