-- ===== src/Fingerprint/Exchange.antt =====
-- What `diff_remote_fingerprints` of sedimentree.rs sends and asks for.
use subduction.Identity.{CommitId}
use subduction.LooseCommit.{LooseCommit}
use subduction.Collections.Map.{keys, contains-keys}
use subduction.Collections.Set.{contains, from_iter}
use subduction.Collections.Walk.{push, walk, walk_empty}
use subduction.Collections.Walk.Reach.{Reach, walk-push-Reach}
use subduction.Sedimentree.{Sedimentree, Digests, has_loose_commit}
use subduction.Sedimentree.Merge.{Keyed, IsValid}
use subduction.Sedimentree.Ancestors.{parents_of_absent, walk_fuel, tree_walk_total}
use subduction.Fingerprint.{SipHash, FingerprintSummary}
use subduction.Fingerprint.Pruned.{Covered, Reach-Covered_iff}
use subduction.Fingerprint.Diff.{
  FingerprintDiff, fp, fragment_roots, covered_parents, covered, unnamed_commits,
  local_only_commits, local_commit_fps, diff_remote_fingerprints,
}
use subduction.Prelude.{
  List-cases, ◌≡◌, refl, sym, ap, subst, ◌↔◌, inl, inr, Bool, true, false, not, ◌&&◌, some, List,
  [], ◌∷◌, map, arith, nat_eq, Bool-cases, filter, Bytes, bytes_eq, bytes_list_eq,
}

module _ (sip : SipHash) (self : Sedimentree) (remote : FingerprintSummary) where
  covered_parents_absent :
      (id : CommitId)
      → contains (keys self.commits) id ≡ false
      → covered_parents sip self remote id ≡ []
  unfolding covered_parents
  covered_parents_absent id h = ground (arith, parents_of_absent self id h)

  -- The walk ends, and finds what is reached from the roots without passing what the remote knows.
  pub covered-Reach :
      (r : List CommitId) × (covered sip self remote ≡ some r)
      × ((id : CommitId)
          → (contains r id ≡ true)
            ↔ Reach (covered_parents sip self remote) (fragment_roots sip self remote) id)
  unfolding covered
  covered-Reach =
      let expand = covered_parents sip self remote in
      let roots = fragment_roots sip self remote in
      let (r, e) = tree_walk_total self expand roots covered_parents_absent in
      (r, e, walk-push-Reach expand (walk_fuel self expand roots) roots r e)

  abbrev pub pruned : List CommitId → List (CommitId × LooseCommit)
  pruned r = filter (λ e. not (contains r e.0)) (unnamed_commits sip self remote)

  filter_all : (es : List (CommitId × LooseCommit)) → filter (λ e. not (contains [] e.0)) es ≡ es
  unfolding contains
  filter_all [] = refl
  filter_all (x ∷ es) = ap (◌∷◌ x) (filter_all es)

  no_roots : fragment_roots sip self remote ≡ [] → covered sip self remote ≡ some []
  unfolding covered push
  no_roots e =
      subst
        (λ (stack : List CommitId).
          walk (covered_parents sip self remote)
            (walk_fuel self (covered_parents sip self remote) (fragment_roots sip self remote))
            stack []
          ≡ some [])
        (sym (ap (λ (roots : List CommitId). push roots []) e))
        (walk_empty (covered_parents sip self remote) _ [])

  -- Both branches send the unnamed commits outside the walk.
  local_only_commits_lem :
      (r : List CommitId)
      → covered sip self remote ≡ some r
      → local_only_commits sip self remote ≡ some (pruned r)
  unfolding local_only_commits
  local_only_commits_lem r e = elim (List-cases (fragment_roots sip self remote)) [
    | inl none_known ↦
        let q : [] ≡ r = cc (no_roots none_known, e) in
        rw (none_known, local_only_commits, ← q)
          (ap some (sym (filter_all (unnamed_commits sip self remote))))
    | inr (x, xs, some_known) ↦ rw (some_known, local_only_commits, e)
  ]

  -- The answer to a summary, its walk resolved.
  unfoldable pub answer : List CommitId → FingerprintDiff
  unfolding unnamed_commits
  answer r = record {
    local_only_fragments =
        filter (λ e. not (contains remote.fragment_fingerprints (fp sip self remote e.0)))
          self.fragments;
    local_only_commits = pruned r;
    remote_only_commit_fingerprints =
        filter (λ f. not (contains (local_commit_fps sip self remote) f))
          remote.commit_fingerprints;
    remote_only_fragment_fingerprints =
        filter (λ f. not (contains (from_iter (map (fp sip self remote) (keys self.fragments))) f))
          remote.fragment_fingerprints;
  }

  pub diff_remote_fingerprints_total :
      (r : List CommitId)
      → covered sip self remote ≡ some r
      → diff_remote_fingerprints sip self remote ≡ some (answer r)
  unfolding diff_remote_fingerprints answer
  diff_remote_fingerprints_total r e = rw (local_only_commits_lem r e, diff_remote_fingerprints)

  contains-unnamed :
      (hash : LooseCommit → Bytes) (p : CommitId → Bool) (entries : List (CommitId × LooseCommit))
      (id : CommitId)
      → Keyed hash (λ c. c.head) entries
      → contains
          (keys (
            filter
              (λ e. p e.0)
              (filter
                (λ e. not (contains remote.commit_fingerprints (fp sip self remote e.1.head)))
                entries)))
          id
        ≡ (contains (keys entries) id
            && not (contains remote.commit_fingerprints (fp sip self remote id))
            && p id)
  unfolding contains
  contains-unnamed hash p [] id k = refl
  contains-unnamed hash p ((i, c) ∷ entries) id k =
      ground (arith, k.0, contains-unnamed hash p entries id k.1)

  -- The diff of a valid tree always comes, and the commits that it sends are exactly those of the
  -- tree that the remote does not name and that no shared fragment covers. A shared fragment, which
  -- the remote has by a head of this tree, covers that head and, through the parents, what is below
  -- it, down to the first commits that the remote names: it covers them, and nothing through them,
  -- except through those that are such a head themselves.
  pub diff_remote_fingerprints_commits :
      (digests : Digests)
      → IsValid digests self
      → (d : FingerprintDiff) × (diff_remote_fingerprints sip self remote ≡ some d)
        × ((id : CommitId)
            → (contains (keys d.local_only_commits) id ≡ true) ↔ (
                (has_loose_commit self id ≡ true)
                × (contains remote.commit_fingerprints (fp sip self remote id) ≡ false)
                × (¬ Covered sip self remote id)))
  unfolding answer unnamed_commits has_loose_commit
  diff_remote_fingerprints_commits digests valid =
      let (r, e, reach) = covered-Reach in
      (
        answer r,
        diff_remote_fingerprints_total r e,
        λ id.
            let sent =
              contains-unnamed digests.commit (λ i. not (contains r i)) self.commits id
                valid.commits_keyed in
            let key = contains-keys self.commits id in
            (
              λ m. (
                ground (arith, m, sent, key),
                ground (arith, m, sent),
                λ w.
                    ground
                      (arith, m, sent, (reach id).1 ((Reach-Covered_iff sip self remote id).1 w)),
              ),
              λ h. elim (Bool-cases (contains r id)) [
                | inl hit ↦
                    absurd (h.2 ((Reach-Covered_iff sip self remote id).0 ((reach id).0 hit)))
                | inr miss ↦ ground (arith, h.0, h.1, miss, sent, key)
              ],
            ),
      )
