-- ===== src/Sedimentree.antt =====
-- sedimentree_core/src/sedimentree.rs: the tree of fragments and loose commits.
pub mod Tiebreak
pub mod Merge
pub mod Insert
pub mod Ancestors
pub mod Minimize
pub mod Heads
pub mod Difference
pub mod KeepSets
pub mod Minimized
pub mod Topsort
use subduction.Identity.{CommitId, Checkpoint, checkpoint}
use subduction.LooseCommit.{LooseCommit}
use subduction.Fragment.{Fragment, head, boundary}
use subduction.Collections.Map
use subduction.Collections.Map.{Map, keys, values, contains_key}
use subduction.Collections.Set
use subduction.Collections.Set.{contains, extend, from_iter}
use subduction.Prelude.{
  Bool, true, false, none, some, List, [], ◌∷◌, map, if◌then◌else◌, nat_eq, Bytes, bytes_eq,
  bytes_ltb, bytes_list_eq,
}

-- `Digest::hash` of a commit and of a fragment: BLAKE3 of its binary form.
pub record Digests : Type 0 where
  pub commit : LooseCommit → Bytes
  pub fragment : Fragment → Bytes

pub record Sedimentree : Type 0 where
  pub fragments : Map CommitId Fragment
  pub commits : Map CommitId LooseCommit

abbrev pub default : Sedimentree
default = record { fragments = []; commits = [] }

module _ {V : Type 0} (hash : V → Bytes) where
  -- On a collision the entry with the lower hash stays.
  unfoldable pub insert_or_tiebreak : Map CommitId V → CommitId → V → Map CommitId V
  insert_or_tiebreak m key value = elim (Map.get m key) [
    | none ↦ Map.insert m key value
    | some old ↦ if bytes_ltb (hash value) (hash old) then Map.insert m key value else m
  ]

  -- `for (id, v) in other { insert_or_tiebreak(&mut m, id, v); }`
  unfoldable pub insert_all : Map CommitId V → List (CommitId × V) → Map CommitId V
  insert_all m [] = m
  insert_all m ((key, value) ∷ others) = insert_all (insert_or_tiebreak m key value) others

module _ (digests : Digests) where
  unfoldable pub new : List Fragment → List LooseCommit → Sedimentree
  new fragments commits = record {
    fragments = insert_all digests.fragment [] (map (λ f. (head f, f)) fragments);
    commits = insert_all digests.commit [] (map (λ c. (c.head, c)) commits);
  }

  unfoldable pub merge : Sedimentree → Sedimentree → Sedimentree
  merge self other = record {
    fragments = insert_all digests.fragment self.fragments other.fragments;
    commits = insert_all digests.commit self.commits other.commits;
  }

  -- The tree, and whether the commit is new.
  unfoldable pub add_commit : Sedimentree → LooseCommit → Sedimentree × Bool
  add_commit self commit = elim (Map.get self.commits commit.head) [
    | none ↦ (record self { commits = Map.insert self.commits commit.head commit }, true)
    | some old ↦
        if bytes_ltb (digests.commit commit) (digests.commit old)
        then (record self { commits = Map.insert self.commits commit.head commit }, false)
        else (self, false)
  ]

  unfoldable pub add_fragment : Sedimentree → Fragment → Sedimentree × Bool
  add_fragment self fragment = elim (Map.get self.fragments (head fragment)) [
    | none ↦ (record self { fragments = Map.insert self.fragments (head fragment) fragment }, true)
    | some old ↦
        if bytes_ltb (digests.fragment fragment) (digests.fragment old)
        then (record self { fragments = Map.insert self.fragments (head fragment) fragment }, false)
        else (self, false)
  ]

unfoldable pub has_loose_commit : Sedimentree → CommitId → Bool
has_loose_commit self id = contains_key self.commits id

unfoldable pub has_fragment : Sedimentree → CommitId → Bool
has_fragment self id = contains_key self.fragments id
