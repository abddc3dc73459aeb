-- ===== src/Fingerprint/Pruned.antt =====
-- `diff_remote_fingerprints` of sedimentree.rs: what its walk from the shared fragments covers, said
-- of the tree and the summary alone.
use subduction.Identity.{CommitId}
use subduction.LooseCommit.{LooseCommit}
use subduction.Fragment.{head}
use subduction.Collections.Map
use subduction.Collections.Map.{values}
use subduction.Collections.Set.{contains, contains-from_iter, contains-filter, contains-append}
use subduction.Collections.Walk.Reach.{Reach, root, step}
use subduction.Sedimentree.{Sedimentree}
use subduction.Sedimentree.Ancestors.{parents_of}
use subduction.Fingerprint.{SipHash, FingerprintSummary}
use subduction.Fingerprint.Diff.{fp, fragment_roots, covered_parents}
use subduction.Prelude.{
  ◌≡◌, ◌↔◌, ◌⊎◌, inl, inr, Bool, true, false, ◌&&◌, ◌||◌, some, List, ◌++◌, map, arith, nat_eq,
  Bool-cases, Option-cases, filter, bytes_eq, bytes_list_eq,
}

module _ (sip : SipHash) (self : Sedimentree) (remote : FingerprintSummary) where
  -- The head of a local commit, or of a local fragment.
  abbrev pub IsHead : CommitId → Type 0
  IsHead id =
      (contains (map (λ (c : LooseCommit). c.head) (values self.commits)) id ≡ true)
      ⊎ (contains (map head (values self.fragments)) id ≡ true)

  -- A local head by which the remote has a fragment.
  abbrev pub IsShared : CommitId → Type 0
  IsShared id = IsHead id × (contains remote.fragment_fingerprints (fp sip self remote id) ≡ true)

  -- A shared fragment covers its head and, below its head and below each covered commit that the
  -- remote does not name, the parents.
  pub data Covered : CommitId → Type 0 where
    shared : {id : CommitId} → IsShared id → Covered id
    below :
        {child id : CommitId} {commit : LooseCommit}
        → Covered child
        → IsShared child ⊎ (contains remote.commit_fingerprints (fp sip self remote child) ≡ false)
        → Map.get self.commits child ≡ some commit
        → contains commit.parents id ≡ true
        → Covered id

  contains-fragment_roots :
      (id : CommitId)
      → contains (fragment_roots sip self remote) id ≡ (
          (contains (map (λ (c : LooseCommit). c.head) (values self.commits)) id
            || contains (map head (values self.fragments)) id)
          && contains remote.fragment_fingerprints (fp sip self remote id))
  unfolding fragment_roots
  contains-fragment_roots id =
      let commit_heads : List CommitId = map (λ (c : LooseCommit). c.head) (values self.commits) in
      let fragment_heads : List CommitId = map head (values self.fragments) in
      let known : CommitId → Bool =
        λ h. contains remote.fragment_fingerprints (fp sip self remote h) in
      ground (
        arith,
        contains-from_iter (filter known (commit_heads ++ fragment_heads)) id,
        contains-filter known (commit_heads ++ fragment_heads) id,
        contains-append commit_heads fragment_heads id,
      )

  shared_root : (id : CommitId) → IsShared id → contains (fragment_roots sip self remote) id ≡ true
  shared_root id (inl h, known) = ground (arith, h, known, contains-fragment_roots id)
  shared_root id (inr h, known) = ground (arith, h, known, contains-fragment_roots id)

  root-IsShared :
      (id : CommitId) → contains (fragment_roots sip self remote) id ≡ true → IsShared id
  root-IsShared id m = (
    elim (Bool-cases (contains (map (λ (c : LooseCommit). c.head) (values self.commits)) id)) [
      | inl h ↦ inl h
      | inr h ↦ inr (ground (arith, m, h, contains-fragment_roots id))
    ],
    ground (arith, m, contains-fragment_roots id),
  )

  expands :
      (child id : CommitId) (commit : LooseCommit)
      → IsShared child ⊎ (contains remote.commit_fingerprints (fp sip self remote child) ≡ false)
      → Map.get self.commits child ≡ some commit
      → contains commit.parents id ≡ true
      → contains (covered_parents sip self remote child) id ≡ true
  unfolding covered_parents parents_of
  expands child id commit (inl s) found m = ground (arith, shared_root child s, found, m)
  expands child id commit (inr unnamed) found m = ground (arith, unnamed, found, m)

  Covered-Reach :
      {id : CommitId}
      → Covered id
      → Reach (covered_parents sip self remote) (fragment_roots sip self remote) id
  Covered-Reach (shared {id} s) = root (shared_root id s)
  Covered-Reach (below {child} {id} {commit} c free found m) =
      step (Covered-Reach c) (expands child id commit free found m)

  Reach-below :
      (child id : CommitId)
      → Covered child
      → contains (covered_parents sip self remote child) id ≡ true
      → Covered id
  unfolding covered_parents parents_of contains
  Reach-below child id c m = elim (Option-cases (Map.get self.commits child)) [
    | inl gone ↦ absurd (ground (arith, gone, m))
    | inr (commit, found) ↦
        let parent : contains commit.parents id ≡ true = ground (arith, found, m) in
        elim (Bool-cases (contains (fragment_roots sip self remote) child)) [
          | inl at_root ↦ below c (inl (root-IsShared child at_root)) found parent
          | inr inner ↦ below c (inr (ground (arith, inner, m))) found parent
        ]
  ]

  Reach-Covered :
      {id : CommitId}
      → Reach (covered_parents sip self remote) (fragment_roots sip self remote) id
      → Covered id
  Reach-Covered (root {a = id} m) = shared (root-IsShared id m)
  Reach-Covered (step {a = child} {b = id} r m) = Reach-below child id (Reach-Covered r) m

  -- The walk reaches what the shared fragments cover.
  pub Reach-Covered_iff :
      (id : CommitId)
      → Reach (covered_parents sip self remote) (fragment_roots sip self remote) id ↔ Covered id
  Reach-Covered_iff id = (Reach-Covered, Covered-Reach)
