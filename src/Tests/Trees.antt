-- ===== src/Tests/Trees.antt =====
-- The theorems on trees, at two small trees.
use subduction.Identity.{checkpoint, CommitId}
use subduction.LooseCommit.{LooseCommit}
use subduction.Fragment.{boundary, head}
use subduction.Depth.{count_leading_zero_bytes}
use subduction.Collections.Map.{values}
use subduction.Collections.Set.{contains}
use subduction.Collections.Walk.Reach.{Reach}
use subduction.Sedimentree.{Sedimentree, new, merge, add_commit, has_loose_commit, has_fragment}
use subduction.Sedimentree.Merge.{
  IsValid, SameTree, new-IsValid, merge_idem, merge_comm, merge_assoc, same_refl,
}
use subduction.Sedimentree.Insert.{
  Item, commit, fragment, one_commit, add_all, add_commit-merge, add_all-perm,
}
use subduction.Sedimentree.Heads.{heads_assuming_minimal, heads_assuming_minimal_lem}
use subduction.Sedimentree.Difference.{diff, diff_lem}
use subduction.CommitDag.{CommitDag, from_commits, child_head}
use subduction.CommitDag.{parents_of as node_parents}
use subduction.CommitDag.Chains.{Chain, sources_to, targets_from}
use subduction.CommitDag.Graph.{index_of, commit_pairs, from_commits_lem}
use subduction.Sedimentree.Ancestors.{parents_of, ancestors_of, ancestors_of_lem}
use subduction.Sedimentree.Minimize.{minimized_fragments}
use subduction.Sedimentree.Minimize.Sweep.{dominates}
use subduction.Sedimentree.Minimize.Kept.{minimized_fragments_lem}
use subduction.Tests.Fixtures.{
  plain_digests, plain_digests-CollisionFree, loose, piece, id_a, id_b, id_c, small_tree,
  other_tree,
}
use mathlib.Core.List.{Permᴰ}
use subduction.Prelude.{
  ℕ, map, ◌||◌, ◌≡◌, refl, ◌↔◌, true, not, ◌&&◌, some, List, [], ◌∷◌, ◌==◌, nat_eq, any, bytes_eq,
  bytes_list_eq,
}

small_tree-IsValid : IsValid plain_digests small_tree
small_tree-IsValid = new-IsValid plain_digests _ _

other_tree-IsValid : IsValid plain_digests other_tree
other_tree-IsValid = new-IsValid plain_digests _ _

merge_idem_example : SameTree (merge plain_digests small_tree small_tree) small_tree
merge_idem_example = merge_idem plain_digests small_tree small_tree-IsValid

merge_comm_example :
    SameTree (merge plain_digests small_tree other_tree) (merge plain_digests other_tree small_tree)
merge_comm_example =
    merge_comm plain_digests plain_digests-CollisionFree small_tree other_tree small_tree-IsValid
      other_tree-IsValid

merge_assoc_example :
    SameTree
      (merge plain_digests (merge plain_digests small_tree other_tree) small_tree)
      (merge plain_digests small_tree (merge plain_digests other_tree small_tree))
merge_assoc_example =
    merge_assoc plain_digests plain_digests-CollisionFree small_tree other_tree small_tree
      other_tree-IsValid small_tree-IsValid

add_commit-merge_example : add_commit plain_digests small_tree (loose id_a (id_c ∷ [])) ≡ (
  merge plain_digests small_tree (one_commit (loose id_a (id_c ∷ []))),
  not (has_loose_commit small_tree id_a),
)
add_commit-merge_example = add_commit-merge plain_digests small_tree (loose id_a (id_c ∷ []))

abbrev arrived : List Item
arrived = commit (loose id_a []) ∷ fragment (piece id_a []) ∷ []

abbrev arrived_late : List Item
arrived_late = fragment (piece id_a []) ∷ commit (loose id_a []) ∷ []

arrived_perm : Permᴰ arrived arrived_late
arrived_perm =
    Permᴰ.swap {a = commit (loose id_a [])} {b = fragment (piece id_a [])} {l = []} refl refl

add_all-perm_example :
    SameTree
      (add_all plain_digests other_tree arrived)
      (add_all plain_digests other_tree arrived_late)
add_all-perm_example =
    add_all-perm plain_digests plain_digests-CollisionFree other_tree other_tree arrived_perm
      (same_refl other_tree)

ancestors_of_lem_example :
    (r : List CommitId) × (ancestors_of small_tree (id_b ∷ []) ≡ some r)
    × ((id : CommitId) → (contains r id ≡ true) ↔ Reach (parents_of small_tree) (id_b ∷ []) id)
ancestors_of_lem_example = ancestors_of_lem small_tree (id_b ∷ [])

-- The deep fragment supports the shallow one.
abbrev layered_tree : Sedimentree
layered_tree = new plain_digests (piece id_c [] ∷ piece id_a (id_c ∷ []) ∷ []) []

minimized_fragments_lem_example :
    any (λ f. head f == id_c) (minimized_fragments count_leading_zero_bytes layered_tree)
    ≡ any
        (λ f.
          (head f == id_c)
          && not (
              any
                (dominates count_leading_zero_bytes f)
                (minimized_fragments count_leading_zero_bytes layered_tree)))
        (values layered_tree.fragments)
minimized_fragments_lem_example =
    minimized_fragments_lem count_leading_zero_bytes layered_tree (λ f. head f == id_c)

heads_assuming_minimal_lem_example : contains (heads_assuming_minimal small_tree) id_b ≡ (
    (has_fragment small_tree id_b || has_loose_commit small_tree id_b)
    && not (any (λ c. contains c.parents id_b) (values small_tree.commits))
    && not (any (λ f. contains (boundary f) id_b) (values small_tree.fragments))
    && not (any (λ f. contains f.checkpoints (checkpoint id_b)) (values small_tree.fragments)))
heads_assuming_minimal_lem_example = heads_assuming_minimal_lem small_tree id_b

diff_lem_example :
    (contains (map head (diff small_tree other_tree).left_missing_fragments) id_c
      ≡ (has_fragment other_tree id_c && not (has_fragment small_tree id_c)))
    × (contains (map (λ c. c.head) (diff small_tree other_tree).left_missing_commits) id_c
        ≡ (has_loose_commit other_tree id_c && not (has_loose_commit small_tree id_c)))
    × (contains (map head (diff small_tree other_tree).right_missing_fragments) id_c
        ≡ (has_fragment small_tree id_c && not (has_fragment other_tree id_c)))
    × (contains (map (λ c. c.head) (diff small_tree other_tree).right_missing_commits) id_c
        ≡ (has_loose_commit small_tree id_c && not (has_loose_commit other_tree id_c)))
diff_lem_example =
    diff_lem plain_digests small_tree other_tree id_c small_tree-IsValid other_tree-IsValid

-- a has two children, and c mentions a parent that is not there.
abbrev family : List LooseCommit
family = loose id_a [] ∷ loose id_b (id_a ∷ []) ∷ loose id_c (id_a ∷ (5 ∷ []) ∷ []) ∷ []

from_commits_lem_example :
    (dag : CommitDag) × (from_commits family ≡ some dag)
    × ((t : ℕ) → node_parents dag t ≡ sources_to t (commit_pairs (index_of family) family []))
    × ((s : ℕ)
        → Chain dag.edges
            (child_head dag.nodes s)
            (targets_from s (commit_pairs (index_of family) family [])))
from_commits_lem_example = from_commits_lem family
