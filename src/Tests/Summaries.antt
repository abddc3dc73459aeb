-- ===== src/Tests/Summaries.antt =====
-- The theorems on summaries, between two small trees.
use subduction.Codec.Decode.{from_be_bytes}
use subduction.Identity.{CommitId}
use subduction.Collections.Map.{keys}
use subduction.Collections.Map
use subduction.Collections.Set.{contains, insert, extend, from_iter}
use subduction.Sedimentree.{new, insert_all, insert_or_tiebreak, has_loose_commit}
use subduction.Sedimentree.Merge.{IsValid, new-IsValid}
use subduction.Fingerprint.{
  collect_commits, collect_fragments, add_coverage, FingerprintSummary, fingerprint,
  fingerprint_summarize, fingerprint_resolver, resolve_commit,
}
use subduction.Fingerprint.Diff.{FingerprintDiff, fp, diff_remote_fingerprints}
use subduction.Fingerprint.Pruned.{Covered}
use subduction.Fingerprint.Exchange.{diff_remote_fingerprints_commits}
use subduction.Fingerprint.Resolver.{
  SameSummary, fingerprint_resolver-fingerprint_summarize, resolve_commit_sound,
  resolve_commit_complete,
}
use subduction.Fingerprint.Agreement.{
  nothing, diff_remote_fingerprints_self, diff_remote_fingerprints-resolve_commit,
}
use subduction.Tests.Fixtures.{plain_digests, plain_sip, plain_seed, id_b, small_tree, other_tree}
use subduction.Prelude.{
  ◌-◌, ◌≡◌, refl, ◌↔◌, true, false, some, ℕ_discrete, nat_eq, bytes_eq, Bytes-discrete,
  bytes_list_eq,
}

small_tree-IsValid : IsValid plain_digests small_tree
small_tree-IsValid = new-IsValid plain_digests _ _

holds_b : has_loose_commit small_tree id_b ≡ true
unfolding has_loose_commit new insert_all insert_or_tiebreak Map.get Map.insert
    subduction.Prelude.Order.Bytes-discrete ℕ_discrete
holds_b = refl

lacks_b :
    contains
      (fingerprint_summarize plain_sip other_tree plain_seed).commit_fingerprints
      (fingerprint plain_sip plain_seed id_b)
    ≡ false
unfolding fingerprint_summarize new insert_all insert_or_tiebreak Map.get Map.insert fingerprint
    add_coverage contains insert extend from_iter from_be_bytes
    subduction.Prelude.Order.Bytes-discrete ℕ_discrete
lacks_b = refl

fingerprint_resolver-fingerprint_summarize_example :
    SameSummary
      (fingerprint_resolver plain_sip small_tree plain_seed).summary
      (fingerprint_summarize plain_sip small_tree plain_seed)
fingerprint_resolver-fingerprint_summarize_example =
    fingerprint_resolver-fingerprint_summarize plain_sip plain_seed small_tree

resolve_commit_complete_example :
    (id : CommitId) × (resolve_commit
        (fingerprint_resolver plain_sip small_tree plain_seed)
        (fingerprint plain_sip plain_seed id_b)
      ≡ some id)
    × (has_loose_commit small_tree id ≡ true)
    × (fingerprint plain_sip plain_seed id ≡ fingerprint plain_sip plain_seed id_b)
resolve_commit_complete_example =
    resolve_commit_complete plain_sip plain_seed plain_digests small_tree small_tree-IsValid id_b
      holds_b

resolves_b :
    resolve_commit
      (fingerprint_resolver plain_sip small_tree plain_seed)
      (fingerprint plain_sip plain_seed id_b)
    ≡ some id_b
unfolding fingerprint_resolver resolve_commit collect_commits collect_fragments new insert_all
    insert_or_tiebreak Map.get Map.insert fingerprint add_coverage contains insert extend from_iter
    from_be_bytes subduction.Prelude.Order.Bytes-discrete ℕ_discrete
resolves_b = refl

resolve_commit_sound_example :
    (has_loose_commit small_tree id_b ≡ true)
    × (fingerprint plain_sip plain_seed id_b ≡ fingerprint plain_sip plain_seed id_b)
resolve_commit_sound_example =
    resolve_commit_sound plain_sip plain_seed plain_digests small_tree small_tree-IsValid
      (fingerprint plain_sip plain_seed id_b) id_b resolves_b

abbrev summary_of_other : FingerprintSummary
summary_of_other = fingerprint_summarize plain_sip other_tree plain_seed

diff_remote_fingerprints_commits_example :
    (d : FingerprintDiff) × (diff_remote_fingerprints plain_sip small_tree summary_of_other
      ≡ some d)
    × ((id : CommitId)
        → (contains (keys d.local_only_commits) id ≡ true) ↔ (
            (has_loose_commit small_tree id ≡ true)
            × (contains summary_of_other.commit_fingerprints
                  (fp plain_sip small_tree summary_of_other id)
                ≡ false)
            × (¬ Covered plain_sip small_tree summary_of_other id)))
diff_remote_fingerprints_commits_example =
    diff_remote_fingerprints_commits plain_sip small_tree summary_of_other plain_digests
      small_tree-IsValid

diff_remote_fingerprints_self_example :
    diff_remote_fingerprints plain_sip small_tree
      (fingerprint_summarize plain_sip small_tree plain_seed)
    ≡ some nothing
diff_remote_fingerprints_self_example =
    diff_remote_fingerprints_self plain_sip small_tree plain_seed

diff_remote_fingerprints-resolve_commit_example :
    (d : FingerprintDiff) × (diff_remote_fingerprints plain_sip other_tree
        (fingerprint_resolver plain_sip small_tree plain_seed).summary
      ≡ some d)
    × (contains d.remote_only_commit_fingerprints (fingerprint plain_sip plain_seed id_b) ≡ true)
    × (id : CommitId) × (resolve_commit
          (fingerprint_resolver plain_sip small_tree plain_seed)
          (fingerprint plain_sip plain_seed id_b)
        ≡ some id)
    × (has_loose_commit small_tree id ≡ true)
    × (fingerprint plain_sip plain_seed id ≡ fingerprint plain_sip plain_seed id_b)
diff_remote_fingerprints-resolve_commit_example =
    diff_remote_fingerprints-resolve_commit plain_sip plain_seed plain_digests small_tree other_tree
      small_tree-IsValid id_b holds_b lacks_b
