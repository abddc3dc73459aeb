-- ===== src/LooseCommit.antt =====
-- sedimentree_core/src/loose_commit.rs: a commit outside every fragment, and its binary form.
pub mod RoundTrip
pub mod Canonical
use subduction.Identity.{CommitId, SedimentreeId, BlobMeta}
use subduction.Codec.{
  Result, ok, err, ◌>>=◌, ◌>>◌, map_err, DecodeError, message_too_short, buffer_too_short,
  unsorted_array, bijou64, ReadingType, BufferTooShort,
}
use subduction.Codec.Bijou.{Bijou, BijouLaws}
use subduction.Codec.Encode
use subduction.Codec.Decode
use subduction.Collections.BTreeSet
use subduction.Collections.BTreeSet.{IsAscending}
use subduction.Prelude.{
  ℕ, ◌+◌, ◌*◌, ◌%◌, ◌^◌, ◌<◌, ◌≡◌, List, ltb, if◌then◌else◌, nat_eq, length, drop, All, Bytes,
  IsArray, bytes_eq,
}

-- `parents` is a `BTreeSet`: strictly ascending.
pub record LooseCommit : Type 0 where
  pub sedimentree_id : SedimentreeId
  pub head : CommitId
  pub parents : List CommitId
  pub blob_meta : BlobMeta

-- What the types of the fields say, and the limit of 255 parents that the format sets.
pub record IsEncodable (c : LooseCommit) : Type 0 where
  pub sedimentree_id : IsArray 32 c.sedimentree_id
  pub head : IsArray 32 c.head
  pub digest : IsArray 32 c.blob_meta.digest
  pub size : c.blob_meta.size_bytes < 2 ^ 64
  pub parents : All (λ p. length p ≡ 32) c.parents
  pub ascending : IsAscending c.parents
  pub count : length c.parents < 256

abbrev pub fixed_fields_size : ℕ
fixed_fields_size = 32 + 32 + 32 + 1

abbrev pub min_fields_size : ℕ
min_fields_size = fixed_fields_size + 1

module _ {Kind : Type 0} (bijou : Bijou Kind) where
  -- `self.parents().len() as u8` keeps the lowest byte.
  unfoldable pub encode_fields : LooseCommit → Bytes → Bytes
  encode_fields c buf =
      let ids = Encode.array c.head (Encode.array c.sedimentree_id buf) in
      let digest = Encode.array c.blob_meta.digest ids in
      let count = Encode.u8 (length c.parents % 256) digest in
      let size = Encode.bytes (bijou.encode c.blob_meta.size_bytes) count in
      Encode.arrays c.parents size

  unfoldable pub fields_size : LooseCommit → ℕ
  fields_size c =
      fixed_fields_size + bijou.encoded_len c.blob_meta.size_bytes + length c.parents * 32

  -- The fields behind the fixed part, `offset` pointing at the size of the blob.
  unfoldable pub decode_variable :
      Bytes → SedimentreeId → CommitId → Bytes → ℕ → ℕ → Result (DecodeError Kind) (LooseCommit × ℕ)
  decode_variable buf sedimentree_id head blob_digest parent_count offset = do
    (blob_size, consumed) ←
        map_err (λ kind. bijou64 (record { offset = offset; kind = kind }))
          (bijou.decode (drop offset buf))
    let parents_size = parent_count * 32
    if ltb (length buf) (offset + consumed + parents_size)
        then err (
            buffer_too_short (
              Decode.too_short (ReadingType.slice parents_size) buf (offset + consumed)
                parents_size))
        else do
          (parent_arrays, end) ←
              map_err buffer_too_short (Decode.arrays 32 parent_count buf (offset + consumed))
          map_err unsorted_array (Decode.verify_sorted parent_arrays)
          ok (
            record {
              sedimentree_id = sedimentree_id;
              head = head;
              parents = BTreeSet.collect parent_arrays;
              blob_meta = record { digest = blob_digest; size_bytes = blob_size };
            },
            end,
          )

  -- The commit, and the number of bytes read.
  unfoldable pub try_decode_fields : Bytes → Result (DecodeError Kind) (LooseCommit × ℕ)
  try_decode_fields buf =
      if ltb (length buf) min_fields_size
      then err (message_too_short "LooseCommit" min_fields_size (length buf))
      else do
        sedimentree_id ← map_err buffer_too_short (Decode.array 32 buf 0)
        head ← map_err buffer_too_short (Decode.array 32 buf 32)
        blob_digest ← map_err buffer_too_short (Decode.array 32 buf 64)
        parent_count ← map_err buffer_too_short (Decode.u8 buf 96)
        decode_variable buf sedimentree_id head blob_digest parent_count 97
