-- ===== src/Sedimentree/Ancestors.antt =====
-- `ancestors_of` of sedimentree.rs.
use subduction.Identity.{CommitId}
use subduction.Collections.Map
use subduction.Collections.Map.{keys, contains_key, contains-keys}
use subduction.Collections.Set.{contains}
use subduction.Collections.Walk.{push, walk, weight}
use subduction.Collections.Walk.Total.{walk_total, length-push}
use subduction.Collections.Walk.Reach.{Reach, walk-push-Reach}
use subduction.Sedimentree.{Sedimentree}
use subduction.Prelude.{
  ℕ, ◌+◌, ◌≡◌, ◌↔◌, true, false, Option, none, some, List, [], arith, nat_eq, length, bytes_eq,
  bytes_list_eq,
}

-- The parents of a commit that the tree holds, and none of any other.
unfoldable pub parents_of : Sedimentree → CommitId → List CommitId
parents_of self id = elim (Map.get self.commits id) [ none ↦ [] | some commit ↦ commit.parents ]

-- Every round pops an element, and the parents of a commit are pushed once.
abbrev pub walk_fuel : Sedimentree → (CommitId → List CommitId) → List CommitId → ℕ
walk_fuel self expand roots = length roots + weight expand (keys self.commits) []

-- `none` would mean that the fuel ran out.
unfoldable pub ancestors_of : Sedimentree → List CommitId → Option (List CommitId)
ancestors_of self roots =
    walk (parents_of self) (walk_fuel self (parents_of self) roots) (push roots []) []

pub parents_of_absent :
    (self : Sedimentree) (id : CommitId)
    → contains (keys self.commits) id ≡ false
    → parents_of self id ≡ []
unfolding parents_of
parents_of_absent self id h = ground (arith, h, contains-keys self.commits id)

pub tree_walk_total :
    (self : Sedimentree) (expand : CommitId → List CommitId) (roots : List CommitId)
    → ((id : CommitId) → contains (keys self.commits) id ≡ false → expand id ≡ [])
    → (r : List CommitId) × (walk expand (walk_fuel self expand roots) (push roots []) [] ≡ some r)
tree_walk_total self expand roots inside =
    walk_total expand (keys self.commits) inside (walk_fuel self expand roots) (push roots []) []
      (omega (arith, length-push roots []))

-- `ancestors_of` ends, and returns exactly the identifiers that are reached from the roots through
-- the parents of the commits of the tree (the roots included).
pub ancestors_of_lem :
    (self : Sedimentree) (roots : List CommitId)
    → (r : List CommitId) × (ancestors_of self roots ≡ some r)
      × ((id : CommitId) → (contains r id ≡ true) ↔ Reach (parents_of self) roots id)
unfolding ancestors_of
ancestors_of_lem self roots =
    let (r, e) = tree_walk_total self (parents_of self) roots (parents_of_absent self) in
    (r, e, walk-push-Reach (parents_of self) (walk_fuel self (parents_of self) roots) roots r e)
