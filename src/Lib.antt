-- ===== src/Lib.antt =====
-- Subduction: peers hold trees of commits (sedimentrees), authenticate each other by a signed
-- challenge, exchange salted summaries of their trees, and send what the other lacks. This library
-- models the parts of sedimentree_core, subduction_crypto and subduction_core that decide what a tree
-- is, what a peer sends, and whom it lets in.
--
-- The parts and the files that model them (paths from the root of the repository):
--   Prelude           shared: Boolean tests, lists over native numbers, byte strings and their order.
--   Collections       Map, Set and BTreeSet of sedimentree_core/src/collections.rs as association
--                     lists, lists without duplicates and ascending lists, and the work-list loop
--                     (Walk) that the code writes several times, with its fuel. ShardedMap and
--                     BoundedShardedMap are subduction_core/src/collections/sharded_map.rs and
--                     bounded_sharded_map.rs. A step is what runs under the lock of one shard; an
--                     operation on a BoundedShardedMap takes its tick in a step of its own, and what
--                     others do until it gets the lock is a function on the state.
--   Codec             sedimentree_core/src/codec: encode.rs, decode.rs, error.rs. Integers are kept
--                     to their width by the number of bytes. The variable-length integer of the
--                     crate bijoux is the record Codec.Bijou with its laws.
--   Identity          identifiers, checkpoints and blob metadata (id.rs, loose_commit/id.rs,
--                     fragment/checkpoint.rs, blob.rs). A byte array is a list of bytes.
--   LooseCommit       sedimentree_core/src/loose_commit.rs with its binary form.
--   Depth             sedimentree_core/src/depth.rs. A depth is a u32; a metric is a
--                     function; Depth.Radix has the metric by trailing zeros in a base.
--   Fragment          sedimentree_core/src/fragment.rs: the record, `supports`, and in
--                     Fragment.Wire the binary form.
--   Signed            subduction_crypto/src/signed.rs and verified_signature.rs, for any payload with
--                     a codec; Signed.Commits is that of a loose commit.
--   Sedimentree       sedimentree_core/src/sedimentree.rs: `new`, `merge`, `add_commit`,
--                     `add_fragment`; Sedimentree.Ancestors `ancestors_of`; Sedimentree.Minimize the
--                     pass of `keep_sets` over the fragments; Sedimentree.KeepSets `keep_sets`,
--                     `minimize`, `minimize_in_place` and `heads`; Sedimentree.Heads
--                     `heads_assuming_minimal`; Sedimentree.Difference `diff`; Sedimentree.Topsort
--                     `topsorted_blob_order`;
--                     Sedimentree.Minimized sedimentree_core/src/sedimentree/minimized.rs.
--   CommitDag         sedimentree_core/src/sedimentree/commit_dag.rs: the graph, `from_commits` and
--                     `parents`; CommitDag.Simplify `simplify`. An index out of range is `none`.
--   Fingerprint       the summaries of sedimentree.rs: `fingerprint_summarize`,
--                     `fingerprint_resolver`, and in Fingerprint.Diff `diff_remote_fingerprints`;
--                     Fingerprint.Pruned says what its walk covers without the walk.
--   NonceCache        subduction_core/src/nonce_cache.rs.
--   Handshake         subduction_core/src/handshake.rs and handshake/challenge.rs: `validate`,
--                     `verify_challenge`, and `respond` up to the response; Handshake.Wire the
--                     binary form of a challenge.
--   RemoteHeads       subduction_core/src/remote_heads.rs and peer/counter.rs: the filter of stale
--                     heads and the counter that stamps them. What is passed to the observer is a
--                     result of `notify`; the calls themselves come after the lock is dropped.
--   Tests             the theorems at concrete inputs.
--
-- A Sedimentree uses LooseCommit, Fragment and Depth; Fingerprint reads trees and shares their
-- walk; Handshake claims its nonces in NonceCache; RemoteHeads joins the counter of a sender to the
-- filter of a receiver; Signed takes a payload by its codec and the laws of it, which Signed.Commits
-- has from LooseCommit. A BoundedShardedMap wraps a ShardedMap.
--
-- Parameters, for code outside the repository: BLAKE3 (the record Digests, with CollisionFree where
-- a theorem needs that no two items have one digest), SipHash-2-4 (a function of the keys and the
-- bytes, or of the keys and the hashed key), bijoux, the digits of a number in a base (num_bigint),
-- and ed25519_dalek: in Signed, whether bytes are a key and whether a key has signed bytes; in
-- Handshake, an outcome that is nothing or the peer and its challenge. Iteration over a hash map is
-- in the order of the list; theorems on trees speak of lookups and tests, which do not see that
-- order.
--
-- Fuel: the loop of Collections.Walk has as its fuel the number of roots and the number of all
-- parents in the tree, since every round takes an element off the stack and each commit pushes its
-- parents once. That of CommitDag.Simplify has the number of nodes and, for each node with each range
-- head, the number of edges. The queue of Sedimentree.Topsort has the number of items, each of which
-- it holds once. The other loops are recursion on their lists.
--
-- Not modelled: the asynchronous driver, transports, storage back ends, command line and bindings
-- (input and output around the parts above); the binary form of the other handshake messages, and the
-- message codec of connection/message.rs.
pub mod Prelude
pub mod Collections
pub mod Codec
pub mod Identity
pub mod Signed
pub mod LooseCommit
pub mod Depth
pub mod Fragment
pub mod Sedimentree
pub mod CommitDag
pub mod Fingerprint
pub mod NonceCache
pub mod RemoteHeads
pub mod Handshake
pub mod Tests
