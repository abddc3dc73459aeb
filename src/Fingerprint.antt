-- ===== src/Fingerprint.antt =====
-- sedimentree_core/src/crypto/fingerprint.rs and the summaries of sedimentree.rs. SipHash-2-4, of
-- the crate siphasher, is a function of the two keys and the bytes written.
pub mod Resolver
pub mod Diff
pub mod Pruned
pub mod Exchange
pub mod Agreement
use subduction.Identity.{CommitId}
use subduction.LooseCommit.{LooseCommit}
use subduction.Fragment.{Fragment, head, boundary}
use subduction.Collections.Map
use subduction.Collections.Map.{Map, keys, values}
use subduction.Collections.Set.{contains, insert, extend, from_iter}
use subduction.Sedimentree.{Sedimentree}
use subduction.Prelude.{ℕ, Option, List, [], ◌∷◌, map, nat_eq, Bytes, bytes_eq, bytes_list_eq}

abbrev pub SipHash : Type 0
SipHash = ℕ → ℕ → Bytes → ℕ

pub record FingerprintSeed : Type 0 where
  pub key0 : ℕ
  pub key1 : ℕ

-- A `u64`.
abbrev pub Fingerprint : Type 0
Fingerprint = ℕ

-- The sets are `BTreeSet`s; nothing here depends on their order.
pub record FingerprintSummary : Type 0 where
  pub seed : FingerprintSeed
  pub commit_fingerprints : List Fingerprint
  pub fragment_fingerprints : List Fingerprint

pub record FingerprintResolver : Type 0 where
  pub summary : FingerprintSummary
  pub commit_fp_to_id : Map Fingerprint CommitId
  pub fragment_fp_to_id : Map Fingerprint CommitId

module _ (sip : SipHash) where
  -- `Fingerprint::<CommitId>::new`
  unfoldable pub fingerprint : FingerprintSeed → CommitId → Fingerprint
  fingerprint seed id = sip seed.key0 seed.key1 id

  -- `for fragment in self.fragments.values() { … }`: the heads and the boundaries are covered.
  unfoldable pub add_coverage :
      FingerprintSeed → List Fingerprint → List Fragment → List Fingerprint
  add_coverage seed fps [] = fps
  add_coverage seed fps (fragment ∷ fragments) =
      add_coverage seed
        (extend (insert fps (fingerprint seed (head fragment))).0
          (map (fingerprint seed) (boundary fragment)))
        fragments

  unfoldable pub fingerprint_summarize : Sedimentree → FingerprintSeed → FingerprintSummary
  fingerprint_summarize self seed = record {
    seed = seed;
    commit_fingerprints =
        add_coverage seed (from_iter (map (λ c. fingerprint seed c.head) (values self.commits)))
          (values self.fragments);
    fragment_fingerprints = from_iter (map (fingerprint seed) (keys self.fragments));
  }

  -- `.map(|(id, c)| (Fingerprint::new(seed, &c.head()), *id)).collect()`
  unfoldable pub collect_commits :
      FingerprintSeed
      → Map Fingerprint CommitId
      → List (CommitId × LooseCommit)
      → Map Fingerprint CommitId
  collect_commits seed m [] = m
  collect_commits seed m ((id, c) ∷ entries) =
      collect_commits seed (Map.insert m (fingerprint seed c.head) id) entries

  -- `.map(|id| (Fingerprint::new(seed, id), *id)).collect()`
  unfoldable pub collect_fragments :
      FingerprintSeed → Map Fingerprint CommitId → List CommitId → Map Fingerprint CommitId
  collect_fragments seed m [] = m
  collect_fragments seed m (id ∷ ids) =
      collect_fragments seed (Map.insert m (fingerprint seed id) id) ids

  unfoldable pub fingerprint_resolver : Sedimentree → FingerprintSeed → FingerprintResolver
  fingerprint_resolver self seed =
      let commit_fp_to_id = collect_commits seed [] self.commits in
      let fragment_fp_to_id = collect_fragments seed [] (keys self.fragments) in
      record {
        summary = record {
          seed = seed;
          commit_fingerprints =
              add_coverage seed (from_iter (keys commit_fp_to_id)) (values self.fragments);
          fragment_fingerprints = from_iter (keys fragment_fp_to_id);
        };
        commit_fp_to_id = commit_fp_to_id;
        fragment_fp_to_id = fragment_fp_to_id;
      }

unfoldable pub resolve_commit : FingerprintResolver → Fingerprint → Option CommitId
resolve_commit resolver fp = Map.get resolver.commit_fp_to_id fp

unfoldable pub resolve_fragment : FingerprintResolver → Fingerprint → Option CommitId
resolve_fragment resolver fp = Map.get resolver.fragment_fp_to_id fp
