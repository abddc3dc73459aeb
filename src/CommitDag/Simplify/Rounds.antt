-- ===== src/CommitDag/Simplify/Rounds.antt =====
-- commit_dag.rs, `simplify`: its loop ends within `rounds`, since each pair of a node and a range head
-- is expanded once.
use subduction.Identity.{CommitId}
use subduction.Depth.{DepthMetric}
use subduction.Collections.Set.{contains, contains-append, contains-map}
use subduction.Collections.Walk.{walk}
use subduction.Collections.Walk.Total.{walk_total_within, weight-bound}
use subduction.CommitDag.{Node, Edge, CommitDag, parents_of, follow}
use subduction.CommitDag.Simplify.{Visit, visit_eq, range_head_eq, range_at, id_at, rounds}
use subduction.CommitDag.Simplify.Partition.{expand}
use subduction.Prelude.{
  length-map, ℕ, zero, suc, ◌*◌, ◌≤◌, ◌<◌, ◌≡◌, inl, inr, true, Option, none, some, List, [], ◌∷◌,
  ◌++◌, map, arith, ℕ_discrete, nat_eq, ==-refl, Option-cases, length, get_elem?, All,
  length-append, bytes_eq, bytes_list_eq,
}

length-follow : (fuel : ℕ) (edges : List Edge) (o : Option ℕ) → length (follow fuel edges o) ≤ fuel
unfolding follow
length-follow zero edges o = omega arith
length-follow (suc n) edges none = omega arith
length-follow (suc n) edges (some e) = elim (Option-cases (get_elem? edges e)) [
  | inl miss ↦ rw (miss, follow) (omega arith)
  | inr (edge, hit) ↦ rw (hit, follow) (omega (arith, length-follow n edges edge.next))
]

-- The identifiers of the nodes, as range heads, and no range head.
abbrev pub heads_of : List Node → List (Option CommitId)
heads_of nodes = none ∷ map (λ node. some node.id) nodes

abbrev pairs : ℕ → List (Option CommitId) → List Visit
pairs zero rs = []
pairs (suc n) rs = map (λ r. (n, r)) rs ++ pairs n rs

length-pairs : (n : ℕ) (rs : List (Option CommitId)) → length (pairs n rs) ≡ n * length rs
length-pairs zero rs = omega arith
length-pairs (suc n) rs = grind (
  arith,
  length-append (map (λ (r : Option CommitId). (n, r)) rs) (pairs n rs),
  length-map {A = Option CommitId} {B = Visit} (λ r. (n, r)) rs,
  length-pairs n rs,
)

contains-pairs :
    (n i : ℕ) (rs : List (Option CommitId)) (r : Option CommitId)
    → i < n
    → contains rs r ≡ true
    → contains (pairs n rs) (i, r) ≡ true
contains-pairs zero i rs r h m = absurd (omega (arith, h))
contains-pairs (suc n) i rs r h m =
    let row : List Visit = map (λ r'. (n, r')) rs in
    elim (ℕ_discrete i n) [
      | yes same ↦
          let here : contains row (i, r) ≡ true =
            rw same (contains-map {B = Visit} (λ r'. (n, r')) rs r m) in
          ground (arith, contains-append row (pairs n rs) (i, r), here)
      | no other ↦
          ground (
            arith,
            contains-append row (pairs n rs) (i, r),
            contains-pairs n i rs r (omega arith) m,
          )
    ]

contains-ids :
    (nodes : List Node) (i : ℕ)
    → i < length nodes
    → contains (map (λ node. some node.id) nodes) (some (id_at nodes i)) ≡ true
unfolding contains id_at
contains-ids [] i h = absurd (omega (arith, h))
contains-ids (node ∷ nodes) zero h = ground (arith, ==-refl {A = Option CommitId} (some node.id))
contains-ids (node ∷ nodes) (suc i) h = ground (arith, contains-ids nodes i (omega (arith, h)))

contains-heads :
    (nodes : List Node) (i : ℕ) (r : Option CommitId)
    → i < length nodes
    → contains (heads_of nodes) r ≡ true
    → (metric : DepthMetric) → contains (heads_of nodes) (range_at metric (id_at nodes i) r) ≡ true
unfolding contains range_at
contains-heads nodes i r h m metric = ground (arith, contains-ids nodes i h)

module _ (self : CommitDag) (metric : DepthMetric)
    (within : (i : ℕ) → All (λ p. p < length self.nodes) (parents_of self i)) where
  -- A node of the graph with a range head that is the identifier of one, or none.
  abbrev pub Proper : Visit → Type 0
  Proper v = (v.0 < length self.nodes) × (contains (heads_of self.nodes) v.1 ≡ true)

  pub arrive-Proper :
      (ps : List ℕ) (r : Option CommitId)
      → All (λ p. p < length self.nodes) ps
      → contains (heads_of self.nodes) r ≡ true
      → All Proper (map (λ parent. (parent, range_at metric (id_at self.nodes parent) r)) ps)
  arrive-Proper [] r h m = tt
  arrive-Proper (p ∷ ps) r h m =
      ((h.0, contains-heads self.nodes p r h.0 m metric), arrive-Proper ps r h.1 m)

  length-expand : (v : Visit) → length (expand self metric v) ≤ length self.edges
  unfolding parents_of
  length-expand v = omega (
    arith,
    length-map {A = ℕ} {B = Visit}
        (λ parent. (parent, range_at metric (id_at self.nodes parent) v.1)) (parents_of self v.0),
    length-follow (length self.edges) self.edges
        (elim (get_elem? self.nodes v.0) [ none ↦ none | some node ↦ node.parents ]),
  )

  -- From at most as many pairs as there are nodes, the walk ends.
  pub rounds_enough :
      (stack : List Visit)
      → All Proper stack
      → length stack ≤ length self.nodes
      → (r : List Visit) × (walk (expand self metric) (rounds self) stack [] ≡ some r)
  rounds_enough stack proper few =
      let n = length self.nodes in
      let nodes : List Visit = pairs n (heads_of self.nodes) in
      walk_total_within (expand self metric) Proper nodes
        (λ v p. contains-pairs n v.0 (heads_of self.nodes) v.1 p.0 p.1)
        (λ v p. arrive-Proper (parents_of self v.0) v.1 (within v.0) p.1) (rounds self) stack []
        proper
        (grind (
          arith,
          few,
          weight-bound (expand self metric) (length self.edges) length-expand nodes [],
          length-pairs n (heads_of self.nodes),
          length-map {A = Node} {B = Option CommitId} (λ node. some node.id) self.nodes,
        ))
