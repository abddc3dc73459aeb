-- ===== src/Identity.antt =====
-- The identifiers of sedimentree_core: loose_commit/id.rs, fragment/checkpoint.rs, id.rs, and the
-- metadata of blob.rs. A `[u8; n]` is the list of its bytes, and `IsArray n` says that it has n.
use subduction.Prelude.{
  ◌&&◌, ◌==◌, Bool, ℕ, ◌≡◌, arith, nat_eq, length, take, Bytes, IsArray, bytes_eq, length-take,
}

abbrev pub CommitId : Type 0
CommitId = Bytes

abbrev pub SedimentreeId : Type 0
SedimentreeId = Bytes

-- The first 12 bytes of a `CommitId`.
abbrev pub Checkpoint : Type 0
Checkpoint = Bytes

-- `Checkpoint::new`
unfoldable pub checkpoint : CommitId → Checkpoint
checkpoint id = take 12 id

-- The digest and the size of a blob.
pub record BlobMeta : Type 0 where
  pub digest : Bytes
  pub size_bytes : ℕ

pub checkpoint-length : (id : CommitId) → IsArray 32 id → length (checkpoint id) ≡ 12
unfolding checkpoint
checkpoint-length id h = length-take 12 id (omega (arith, h.0))

-- `==` on `BlobMeta`.
abbrev pub meta_eq : BlobMeta → BlobMeta → Bool
meta_eq a b = a.digest == b.digest && a.size_bytes == b.size_bytes
