-- ===== src/CommitDag/Graph.antt =====
-- commit_dag.rs: `from_commits` builds the graph of the parents among the commits.
use subduction.Identity.{CommitId}
use subduction.LooseCommit.{LooseCommit}
use subduction.Collections.Map
use subduction.Collections.Map.{Map, contains_key, get-insert}
use subduction.CommitDag.{
  Node, CommitDag, child_head, head_of, add_parents, add_commits, index_from, from_commits,
  parents_of,
}
use subduction.CommitDag.Chains.{
  Chain, last, follow-Chain, Pairs, sources_to, targets_from, Represents, add_edge-Represents,
}
use subduction.Prelude.{
  ℕ, zero, suc, ◌+◌, ◌≤◌, ◌<◌, ◌≡◌, refl, ap, ◌∙◌, inl, inr, true, Option, none, some, List, [],
  ◌∷◌, map, arith, ◌==◌, nat_eq, ==-refl, Bool-cases, Option-cases, length, All, bytes_eq,
  bytes_list_eq,
}

-- The edges of the commits, the latest first: from the index of a parent that is among the commits
-- to the index of the commit.
abbrev pub parent_pairs : Map CommitId ℕ → ℕ → List CommitId → Pairs → Pairs
parent_pairs m child [] es = es
parent_pairs m child (p ∷ ps) es = elim (Map.get m p) [
  | none ↦ parent_pairs m child ps es
  | some i ↦ parent_pairs m child ps ((i, child) ∷ es)
]

abbrev pub commit_pairs : Map CommitId ℕ → List LooseCommit → Pairs → Pairs
commit_pairs m [] es = es
commit_pairs m (c ∷ cs) es = elim (Map.get m c.head) [
  | none ↦ commit_pairs m cs es
  | some child ↦ commit_pairs m cs (parent_pairs m child c.parents es)
]

module _ (m : Map CommitId ℕ) (n : ℕ)
    (within : (id : CommitId) (i : ℕ) → Map.get m id ≡ some i → i < n) where
  record Good (dag : CommitDag) (es : Pairs) : Type 0 where
    graph : Represents dag es
    index : dag.node_map ≡ m
    size : length dag.nodes ≡ n

  add_parents-Good :
      (child : ℕ)
      → child < n
      → (ps : List CommitId) (dag : CommitDag) (es : Pairs) → Good dag es
      → (dag' : CommitDag) × (add_parents dag child ps ≡ some dag')
        × Good dag' (parent_pairs m child ps es)
  unfolding add_parents
  add_parents-Good child c [] dag es g = (dag, refl, g)
  add_parents-Good child c (p ∷ ps) dag es g = elim (Option-cases (Map.get m p)) [
    | inl miss ↦
        let (dag', e, g') = add_parents-Good child c ps dag es g in
        (dag', rw (ap (λ x. Map.get x p) g.index ∙ miss, add_parents) e, rw (miss, parent_pairs) g')
    | inr (i, hit) ↦
        let (next, e, r, size, same) =
          add_edge-Represents dag es i child g.graph (omega (arith, within p i hit, g.size))
            (omega (arith, c, g.size)) in
        let (dag', e', g') =
          add_parents-Good child c ps next ((i, child) ∷ es)
            (record { graph = r; index = same ∙ g.index; size = size ∙ g.size }) in
        (
          dag',
          rw (ap (λ x. Map.get x p) g.index ∙ hit, add_parents, e) e',
          rw (hit, parent_pairs) g',
        )
  ]

  add_commits-Good :
      (commits : List LooseCommit) (dag : CommitDag) (es : Pairs)
      → All (λ (c : LooseCommit). contains_key m c.head ≡ true) commits
      → Good dag es
      → (dag' : CommitDag) × (add_commits dag commits ≡ some dag')
        × Good dag' (commit_pairs m commits es)
  unfolding add_commits
  add_commits-Good [] dag es known g = (dag, refl, g)
  add_commits-Good (commit ∷ commits) dag es known g = elim (Option-cases (Map.get m commit.head)) [
    | inl miss ↦ absurd (ground (arith, known.0, miss))
    | inr (child, hit) ↦
        let (next, e, g1) =
          add_parents-Good child (within commit.head child hit) commit.parents dag es g in
        let (dag', e', g2) =
          add_commits-Good commits next (parent_pairs m child commit.parents es) known.1 g1 in
        (
          dag',
          rw (ap (λ x. Map.get x commit.head) g.index ∙ hit, add_commits, e) e',
          rw (hit, commit_pairs) g2,
        )
  ]

abbrev pub bare : LooseCommit → Node
bare c = record { id = c.head; parents = none; children = none }

-- `index_from` gives indices below the number of nodes, and one for every node.
index_from-bound :
    (nodes : List Node) (i : ℕ) (m : Map CommitId ℕ) (id : CommitId) (j : ℕ)
    → ((id : CommitId) (j : ℕ) → Map.get m id ≡ some j → j < i)
    → Map.get (index_from i m nodes) id ≡ some j
    → j < i + length nodes
unfolding index_from
index_from-bound [] i m id j h e = omega (arith, h id j e)
index_from-bound (node ∷ nodes) i m id j h e = omega (
  arith,
  index_from-bound nodes (suc i) (Map.insert m node.id i) id j
      (λ id' j' e'. elim (Bool-cases (node.id == id')) [
        | inl hit ↦ ground (arith, e', get-insert m node.id id' i, hit)
        | inr miss ↦ ground (arith, e', get-insert m node.id id' i, miss, h id' j')
      ])
      e,
)

index_from-keeps :
    (nodes : List Node) (i : ℕ) (m : Map CommitId ℕ) (id : CommitId)
    → contains_key m id ≡ true
    → contains_key (index_from i m nodes) id ≡ true
unfolding index_from
index_from-keeps [] i m id h = h
index_from-keeps (node ∷ nodes) i m id h =
    index_from-keeps nodes (suc i) (Map.insert m node.id i) id
      (ground (arith, h, get-insert m node.id id i))

pub index_from-all :
    (commits : List LooseCommit) (i : ℕ) (m : Map CommitId ℕ)
    → All
        (λ (c : LooseCommit). contains_key (index_from i m (map bare commits)) c.head ≡ true)
        commits
unfolding index_from
index_from-all [] i m = tt
index_from-all (c ∷ cs) i m = (
  index_from-keeps (map bare cs) (suc i) (Map.insert m c.head i) c.head
      (ground (arith, get-insert m c.head c.head i, ==-refl c.head)),
  index_from-all cs (suc i) (Map.insert m c.head i),
)

head_of-bare :
    (field : Node → Option ℕ)
    → ((c : LooseCommit) → field (bare c) ≡ none)
    → (commits : List LooseCommit) (i : ℕ) → head_of field (map bare commits) i ≡ none
head_of-bare field h [] i = refl
head_of-bare field h (c ∷ cs) zero = h c
head_of-bare field h (c ∷ cs) (suc i) = head_of-bare field h cs i

length-bare : (commits : List LooseCommit) → length (map bare commits) ≡ length commits
length-bare [] = refl
length-bare (c ∷ cs) = ap suc (length-bare cs)

length-sources_to : (t : ℕ) (es : Pairs) → length (sources_to t es) ≤ length es
length-sources_to t [] = omega arith
length-sources_to t ((s, u) ∷ es) = ground (arith, length-sources_to t es)

abbrev pub index_of : List LooseCommit → Map CommitId ℕ
index_of commits = index_from 0 [] (map bare commits)

-- The graph is built without a panic. From a node, the parents that are followed are the sources of
-- the edges to it, the latest first, and its chain of children holds the targets of the edges from
-- it; the edges are those from the index of a parent that is among the commits to its commit.
pub from_commits_lem :
    (commits : List LooseCommit)
    → (dag : CommitDag) × (from_commits commits ≡ some dag)
      × ((t : ℕ) → parents_of dag t ≡ sources_to t (commit_pairs (index_of commits) commits []))
      × ((s : ℕ)
          → Chain dag.edges
              (child_head dag.nodes s)
              (targets_from s (commit_pairs (index_of commits) commits [])))
unfolding from_commits parents_of
from_commits_lem commits =
    let m = index_of commits in
    let start : CommitDag = record { nodes = map bare commits; node_map = m; edges = [] } in
    let (dag, e, g) =
      add_commits-Good m (length (map bare commits))
        (λ id i h. omega (
          arith,
          index_from-bound (map bare commits) 0 [] id i (λ id' j' e'. unfold Map.get in cc) h,
        ))
        commits start [] (index_from-all commits 0 [])
        (record {
          graph = record {
            count = refl;
            parents = λ t. rw (head_of-bare (λ n. n.parents) (λ c. refl) commits t) last;
            children = λ s. rw (head_of-bare (λ n. n.children) (λ c. refl) commits s) last;
          };
          index = refl;
          size = refl;
        }) in
    (
      dag,
      e,
      λ t.
          follow-Chain (length dag.edges) dag.edges (g.graph.parents t)
            (omega (arith, length-sources_to t (commit_pairs m commits []), g.graph.count)),
      g.graph.children,
    )
