-- ===== src/Sedimentree/Difference.antt =====
-- `diff` of sedimentree.rs: what each of two local trees lacks.
use subduction.Identity.{CommitId}
use subduction.LooseCommit.{LooseCommit}
use subduction.Fragment.{Fragment, head}
use subduction.Collections.Map
use subduction.Collections.Map.{Map, keys, values, contains_key, contains-keys}
use subduction.Collections.Set.{contains, from_iter, contains-from_iter, contains-filter}
use subduction.Sedimentree.{Sedimentree, Digests, has_loose_commit, has_fragment}
use subduction.Sedimentree.Merge.{Keyed, IsValid}
use subduction.Prelude.{
  ◌≡◌, refl, sym, ap, ◌∙◌, inl, inr, not, ◌&&◌, none, some, List, [], ◌∷◌, map, arith, ◌==◌, nat_eq,
  ==_iff, Bool-cases, Option-cases, filter, Bytes, bytes_eq, bytes_list_eq,
}

pub record Diff : Type 0 where
  pub left_missing_fragments : List Fragment
  pub left_missing_commits : List LooseCommit
  pub right_missing_fragments : List Fragment
  pub right_missing_commits : List LooseCommit

-- `.difference(…)`
unfoldable pub difference : List CommitId → List CommitId → List CommitId
difference a b = filter (λ id. not (contains b id)) a

module _ {V : Type 0} where
  -- `.filter_map(|k| map.get(k))`
  unfoldable pub get_all : Map CommitId V → List CommitId → List V
  get_all m [] = []
  get_all m (id ∷ ids) = elim (Map.get m id) [ none ↦ get_all m ids | some v ↦ v ∷ get_all m ids ]

  -- The values of one map whose keys the other lacks.
  abbrev pub missing : Map CommitId V → Map CommitId V → List V
  missing m other = get_all m (difference (from_iter (keys m)) (from_iter (keys other)))

unfoldable pub diff : Sedimentree → Sedimentree → Diff
diff self other = record {
  left_missing_fragments = missing other.fragments self.fragments;
  left_missing_commits = missing other.commits self.commits;
  right_missing_fragments = missing self.fragments other.fragments;
  right_missing_commits = missing self.commits other.commits;
}

module _ {V : Type 0} (hash : V → Bytes) (key_of : V → CommitId) where
  get-Keyed :
      (m : Map CommitId V) (id : CommitId) (v : V)
      → Keyed hash key_of m
      → Map.get m id ≡ some v
      → key_of v ≡ id
  unfolding Map.get
  get-Keyed [] id v k h = cc
  get-Keyed ((j, w) ∷ m) id v k h = elim (Bool-cases (j == id)) [
    | inl hit ↦ ground (arith, hit, h, k.0, (==_iff j id).0 hit)
    | inr miss ↦ get-Keyed m id v k.1 (ground (arith, miss, h))
  ]

  get_all_absent :
      (m : Map CommitId V) (id : CommitId) (ids : List CommitId)
      → Map.get m id ≡ none
      → get_all m (id ∷ ids) ≡ get_all m ids
  unfolding get_all
  get_all_absent m id ids h = rw (h, get_all) refl

  get_all_present :
      (m : Map CommitId V) (id : CommitId) (ids : List CommitId) (v : V)
      → Map.get m id ≡ some v
      → get_all m (id ∷ ids) ≡ v ∷ get_all m ids
  unfolding get_all
  get_all_present m id ids v h = rw (h, get_all) refl

  contains-get_all :
      (m : Map CommitId V) (ids : List CommitId) (id : CommitId)
      → Keyed hash key_of m
      → contains (map key_of (get_all m ids)) id ≡ (contains ids id && contains_key m id)
  unfolding contains
  contains-get_all m [] id k = unfold get_all in refl
  contains-get_all m (j ∷ ids) id k = elim (Option-cases (Map.get m j)) [
    | inl miss ↦ rw (get_all_absent m j ids miss) (elim (Bool-cases (j == id)) [
      | inl hit ↦
          let absent : Map.get m id ≡ none = ap (Map.get m) (sym ((==_iff j id).0 hit)) ∙ miss in
          ground (arith, hit, absent, contains-get_all m ids id k)
      | inr other ↦ ground (arith, other, contains-get_all m ids id k)
    ])
    | inr (v, found) ↦
        let keyed : key_of v ≡ j = get-Keyed m j v k found in
        rw (get_all_present m j ids v found) (elim (Bool-cases (j == id)) [
          | inl hit ↦
              let present : Map.get m id ≡ some v =
                ap (Map.get m) (sym ((==_iff j id).0 hit)) ∙ found in
              ground (arith, hit, present, keyed, contains-get_all m ids id k)
          | inr other ↦ ground (arith, other, keyed, contains-get_all m ids id k)
        ])
  ]

  contains-missing :
      (m other : Map CommitId V) (id : CommitId)
      → Keyed hash key_of m
      → contains (map key_of (missing m other)) id
        ≡ (contains_key m id && not (contains_key other id))
  unfolding difference
  contains-missing m other id k = ground (
    arith,
    contains-get_all m (difference (from_iter (keys m)) (from_iter (keys other))) id k,
    contains-filter (λ i. not (contains (from_iter (keys other)) i)) (from_iter (keys m)) id,
    contains-from_iter (keys m) id,
    contains-from_iter (keys other) id,
    contains-keys m id,
    contains-keys other id,
  )

-- Between two valid trees, each side is said to miss exactly the fragments and the commits whose
-- identifiers the other side has and it has not.
pub diff_lem :
    (digests : Digests) (self other : Sedimentree) (id : CommitId)
    → IsValid digests self
    → IsValid digests other
    → (contains (map head (diff self other).left_missing_fragments) id
        ≡ (has_fragment other id && not (has_fragment self id)))
      × (contains (map (λ c. c.head) (diff self other).left_missing_commits) id
          ≡ (has_loose_commit other id && not (has_loose_commit self id)))
      × (contains (map head (diff self other).right_missing_fragments) id
          ≡ (has_fragment self id && not (has_fragment other id)))
      × (contains (map (λ c. c.head) (diff self other).right_missing_commits) id
          ≡ (has_loose_commit self id && not (has_loose_commit other id)))
unfolding diff has_fragment has_loose_commit
diff_lem digests self other id v w = (
  contains-missing digests.fragment head other.fragments self.fragments id w.fragments_keyed,
  contains-missing digests.commit (λ c. c.head) other.commits self.commits id w.commits_keyed,
  contains-missing digests.fragment head self.fragments other.fragments id v.fragments_keyed,
  contains-missing digests.commit (λ c. c.head) self.commits other.commits id v.commits_keyed,
)
