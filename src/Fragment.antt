-- ===== src/Fragment.antt =====
-- sedimentree_core/src/fragment.rs: a run of history with its head, its boundary and the
-- truncated identifiers of the commits inside.
pub mod Wire
pub mod RoundTrip
use subduction.Identity.{CommitId, SedimentreeId, Checkpoint, BlobMeta, checkpoint, meta_eq}
use subduction.Depth.{Depth, DepthMetric}
use subduction.Collections.Set.{contains}
use subduction.Collections.BTreeSet
use subduction.Prelude.{
  Bool, true, false, not, ◌&&◌, ◌||◌, List, map, ltb, if◌then◌else◌, ◌==◌, nat_eq, all, bytes_eq,
  bytes_list_eq,
}

-- `boundary` is a `BTreeSet`: strictly ascending.
pub record FragmentSummary : Type 0 where
  pub head : CommitId
  pub boundary : List CommitId
  pub blob_meta : BlobMeta

-- `checkpoints` is a `BTreeSet` too.
pub record Fragment : Type 0 where
  pub sedimentree_id : SedimentreeId
  pub summary : FragmentSummary
  pub checkpoints : List Checkpoint

abbrev pub head : Fragment → CommitId
head f = f.summary.head

abbrev pub boundary : Fragment → List CommitId
boundary f = f.summary.boundary

-- `Fragment::new` truncates the checkpoints.
unfoldable pub new : SedimentreeId → CommitId → List CommitId → List CommitId → BlobMeta → Fragment
new sedimentree_id head boundary checkpoints blob_meta = record {
  sedimentree_id = sedimentree_id;
  summary = record { head = head; boundary = boundary; blob_meta = blob_meta };
  checkpoints = BTreeSet.collect (map checkpoint checkpoints);
}

abbrev pub depth : Fragment → DepthMetric → Depth
depth f metric = metric f.summary.head

unfoldable pub supports_block : Fragment → CommitId → Bool
supports_block f id =
    f.summary.head == id || contains f.checkpoints (checkpoint id) || contains f.summary.boundary id

-- `&self.summary == other`
unfoldable pub same_summary : FragmentSummary → FragmentSummary → Bool
same_summary a b = a.head == b.head && a.boundary == b.boundary && meta_eq a.blob_meta b.blob_meta

unfoldable pub supports : Fragment → FragmentSummary → DepthMetric → Bool
supports f other metric =
    if same_summary f.summary other
    then true
    else if ltb (metric f.summary.head) (metric other.head)
    then false
    else if not (supports_block f other.head)
    then false
    else all (supports_block f) other.boundary || all (contains f.summary.boundary) other.boundary
