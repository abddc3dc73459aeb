-- ===== src/Fingerprint/Diff.antt =====
-- `diff_remote_fingerprints` of sedimentree.rs.
use subduction.Identity.{CommitId}
use subduction.LooseCommit.{LooseCommit}
use subduction.Fragment.{Fragment, head}
use subduction.Collections.Map.{keys, values}
use subduction.Collections.Set.{contains, from_iter}
use subduction.Collections.Walk.{push, walk}
use subduction.Sedimentree.{Sedimentree}
use subduction.Sedimentree.Ancestors.{parents_of, walk_fuel}
use subduction.Fingerprint.{SipHash, Fingerprint, FingerprintSummary, fingerprint, add_coverage}
use subduction.Prelude.{
  not, ◌&&◌, Option, none, some, List, [], ◌∷◌, ◌++◌, map, if◌then◌else◌, nat_eq, filter, bytes_eq,
  bytes_list_eq,
}

pub record FingerprintDiff : Type 0 where
  pub local_only_fragments : List (CommitId × Fragment)
  pub local_only_commits : List (CommitId × LooseCommit)
  pub remote_only_commit_fingerprints : List Fingerprint
  pub remote_only_fragment_fingerprints : List Fingerprint

module _ (sip : SipHash) (self : Sedimentree) (remote : FingerprintSummary) where
  abbrev pub fp : CommitId → Fingerprint
  fp = fingerprint sip remote.seed

  -- The local heads that the remote has as fragments.
  unfoldable pub fragment_roots : List CommitId
  fragment_roots = from_iter (
      filter (λ h. contains remote.fragment_fingerprints (fp h))
        (map (λ c. c.head) (values self.commits) ++ map head (values self.fragments)))

  -- The walk stops at a commit that the remote knows, unless it is a root.
  unfoldable pub covered_parents : CommitId → List CommitId
  covered_parents id =
      if not (contains fragment_roots id) && contains remote.commit_fingerprints (fp id)
      then []
      else parents_of self id

  unfoldable pub covered : Option (List CommitId)
  covered =
      walk covered_parents (walk_fuel self covered_parents fragment_roots) (push fragment_roots [])
        []

  -- The commits that the remote does not name.
  unfoldable pub unnamed_commits : List (CommitId × LooseCommit)
  unnamed_commits =
      filter (λ e. not (contains remote.commit_fingerprints (fp e.1.head))) self.commits

  -- `if !fragment_roots.is_empty() { … local_only_commits.retain(…) }`
  unfoldable pub local_only_commits : Option (List (CommitId × LooseCommit))
  local_only_commits = elim fragment_roots [
    | [] ↦ some unnamed_commits
    | _ ∷ _ ↦ elim covered [
      | none ↦ none
      | some ids ↦ some (filter (λ e. not (contains ids e.0)) unnamed_commits)
    ]
  ]

  unfoldable pub local_commit_fps : List Fingerprint
  local_commit_fps =
      add_coverage sip remote.seed (from_iter (map (λ c. fp c.head) (values self.commits)))
        (values self.fragments)

  -- `none` would mean that the fuel of the walk ran out.
  unfoldable pub diff_remote_fingerprints : Option FingerprintDiff
  diff_remote_fingerprints = elim local_only_commits [
    | none ↦ none
    | some commits ↦ some (record {
      local_only_fragments =
          filter (λ e. not (contains remote.fragment_fingerprints (fp e.0))) self.fragments;
      local_only_commits = commits;
      remote_only_commit_fingerprints =
          filter (λ f. not (contains local_commit_fps f)) remote.commit_fingerprints;
      remote_only_fragment_fingerprints =
          filter (λ f. not (contains (from_iter (map fp (keys self.fragments))) f))
            remote.fragment_fingerprints;
    })
  ]
