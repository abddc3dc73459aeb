-- ===== src/CommitDag.antt =====
-- sedimentree_core/src/sedimentree/commit_dag.rs: the graph of the loose commits, as nodes and
-- edges in vectors that refer to each other by index. `none` stands for the panic of an `expect`.
pub mod Chains
pub mod Graph
pub mod Simplify
use subduction.Identity.{CommitId}
use subduction.LooseCommit.{LooseCommit}
use subduction.Collections.Map
use subduction.Collections.Map.{Map}
use subduction.Prelude.{
  ℕ, zero, suc, Option, none, some, List, [], ◌∷◌, ◌++◌, map, nat_eq, length, get_elem?, bytes_eq,
  bytes_list_eq,
}

pub record Node : Type 0 where
  pub id : CommitId
  pub parents : Option ℕ
  pub children : Option ℕ

pub record Edge : Type 0 where
  pub source : ℕ
  pub next : Option ℕ

pub record CommitDag : Type 0 where
  pub nodes : List Node
  pub node_map : Map CommitId ℕ
  pub edges : List Edge

-- `vec.get_mut(i)` with a change of the element, or `none` out of range.
unfoldable pub modify : {A : Type 0} → (A → A) → ℕ → List A → Option (List A)
modify f i [] = none
modify f zero (x ∷ xs) = some (f x ∷ xs)
modify f (suc i) (x ∷ xs) = elim (modify f i xs) [ none ↦ none | some ys ↦ some (x ∷ ys) ]

abbrev pub field_at : (Node → Option ℕ) → Option Node → Option ℕ
field_at field none = none
field_at field (some node) = field node

-- The head of one of the two lists of a node.
abbrev pub head_of : (Node → Option ℕ) → List Node → ℕ → Option ℕ
head_of field nodes i = field_at field (get_elem? nodes i)

abbrev pub parent_head : List Node → ℕ → Option ℕ
parent_head nodes i = head_of (λ node. node.parents) nodes i

abbrev pub child_head : List Node → ℕ → Option ℕ
child_head nodes i = head_of (λ node. node.children) nodes i

unfoldable pub add_edge : CommitDag → ℕ → ℕ → Option CommitDag
add_edge self source target =
    let parent_edge_idx = length self.edges in
    elim (modify (λ node. record node { parents = some parent_edge_idx }) target self.nodes) [
      | none ↦ none
      | some nodes ↦
          let edges : List Edge =
            self.edges ++ (record { source = source; next = parent_head self.nodes target } ∷ []) in
          let child_edge_idx = length edges in
          elim (modify (λ node. record node { children = some child_edge_idx }) source nodes) [
            | none ↦ none
            | some nodes' ↦ some (record {
              nodes = nodes';
              node_map = self.node_map;
              edges = edges ++ (record { source = target; next = child_head nodes source } ∷ []);
            })
          ]
    ]

-- `for parent in commit.parents() { if let Some(parent) = dag.node_map.get(parent) { … } }`
unfoldable pub add_parents : CommitDag → ℕ → List CommitId → Option CommitDag
add_parents dag child [] = some dag
add_parents dag child (parent ∷ ps) = elim (Map.get dag.node_map parent) [
  | none ↦ add_parents dag child ps
  | some p ↦ elim (add_edge dag p child) [ none ↦ none | some dag' ↦ add_parents dag' child ps ]
]

unfoldable pub add_commits : CommitDag → List LooseCommit → Option CommitDag
add_commits dag [] = some dag
add_commits dag (commit ∷ commits) = elim (Map.get dag.node_map commit.head) [
  | none ↦ none
  | some child ↦ elim (add_parents dag child commit.parents) [
    | none ↦ none
    | some dag' ↦ add_commits dag' commits
  ]
]

-- `.enumerate().map(|(idx, node)| (node.id, NodeIdx(idx))).collect()`
unfoldable pub index_from : ℕ → Map CommitId ℕ → List Node → Map CommitId ℕ
index_from i m [] = m
index_from i m (node ∷ nodes) = index_from (suc i) (Map.insert m node.id i) nodes

unfoldable pub from_commits : List LooseCommit → Option CommitDag
from_commits commits =
    let nodes : List Node =
      map (λ c. record { id = c.head; parents = none; children = none }) commits in
    add_commits (record { nodes = nodes; node_map = index_from 0 [] nodes; edges = [] }) commits

-- `ParentsIter`: the fuel bounds the number of steps.
unfoldable pub follow : ℕ → List Edge → Option ℕ → List ℕ
follow zero edges edge = []
follow (suc fuel) edges none = []
follow (suc fuel) edges (some e) = elim (get_elem? edges e) [
  | none ↦ []
  | some edge ↦ edge.source ∷ follow fuel edges edge.next
]

unfoldable pub parents_of : CommitDag → ℕ → List ℕ
parents_of dag i = follow (length dag.edges) dag.edges (parent_head dag.nodes i)
