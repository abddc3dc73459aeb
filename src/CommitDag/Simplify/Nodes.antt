-- ===== src/CommitDag/Simplify/Nodes.antt =====
-- commit_dag.rs: `from_commits` leaves the identifiers of the nodes as they are, and `tips` and the
-- sort that follows keep the indices without children.
use subduction.Identity.{CommitId}
use subduction.LooseCommit.{LooseCommit}
use subduction.Collections.Map
use subduction.Collections.Set.{contains}
use subduction.CommitDag.Chains.{add_edge-made}
use subduction.CommitDag.{
  Edge, parent_head, Node, CommitDag, modify, add_edge, add_parents, add_commits, from_commits,
  child_head,
}
use subduction.CommitDag.Graph.{bare}
use subduction.CommitDag.Simplify.{id_at, tips_from, tips, insert_tip, sort_tips}
use subduction.Collections.Index.{nth}
use subduction.CommitDag.Simplify.Links.{heads}
use subduction.Prelude.{
  ℕ, zero, suc, ◌+◌, ◌≤◌, ◌<◌, ◌≡◌, refl, sym, ap, ◌∙◌, subst, inl, inr, true, false, ◌||◌, Option,
  none, some, List, [], ◌∷◌, ◌++◌, map, arith, ◌==◌, nat_eq, Bool-cases, Option-cases, length, All,
  bytes_eq, bytes_ltb, bytes_list_eq, All-imp,
}

abbrev ids : List Node → List CommitId
ids nodes = map (λ node. node.id) nodes

modify-ids :
    (f : Node → Node) (i : ℕ) (xs ys : List Node)
    → ((node : Node) → (f node).id ≡ node.id)
    → modify f i xs ≡ some ys
    → ids ys ≡ ids xs
unfolding modify
modify-ids f i [] ys same h = cc
modify-ids f zero (x ∷ xs) ys same h =
    let q : f x ∷ xs ≡ ys = cc h in rw (← q) (ap (λ a. a ∷ ids xs) (same x))
modify-ids f (suc i) (x ∷ xs) ys same h = elim (Option-cases (modify f i xs)) [
  | inl miss ↦ ground (arith, h, miss)
  | inr (zs, hit) ↦
      let q : x ∷ zs ≡ ys = ground (arith, h, hit) in
      rw (← q) (ap (◌∷◌ x.id) (modify-ids f i xs zs same hit))
]

nodes_of : Option CommitDag → List CommitId
nodes_of none = []
nodes_of (some dag) = ids dag.nodes

add_edge-ids :
    (dag dag' : CommitDag) (source target : ℕ)
    → add_edge dag source target ≡ some dag'
    → ids dag'.nodes ≡ ids dag.nodes
unfolding add_edge nodes_of
add_edge-ids dag dag' source target h =
    let f : Node → Node = λ node. record node { parents = some (length dag.edges) } in
    let first : List Edge =
      dag.edges ++ (record { source = source; next = parent_head dag.nodes target } ∷ []) in
    let g : Node → Node = λ node. record node { children = some (length first) } in
    elim (Option-cases (modify f target dag.nodes)) [
      | inl stop ↦ ground (arith, h, stop)
      | inr (nodes, e1) ↦ elim (Option-cases (modify g source nodes)) [
        | inl stop ↦ ground (arith, h, e1, stop)
        | inr (nodes', e2) ↦
            ap (λ o. nodes_of o) (sym (h) ∙ add_edge-made dag source target nodes nodes' e1 e2)
            ∙ modify-ids g source nodes nodes' (λ node. refl) e2
            ∙ modify-ids f target dag.nodes nodes (λ node. refl) e1
      ]
    ]

add_parents-ids :
    (child : ℕ) (ps : List CommitId) (dag dag' : CommitDag)
    → add_parents dag child ps ≡ some dag'
    → ids dag'.nodes ≡ ids dag.nodes
unfolding add_parents
add_parents-ids child [] dag dag' h =
    let q : dag' ≡ dag = cc h in ap (λ (o : CommitDag). ids o.nodes) q
add_parents-ids child (p ∷ ps) dag dag' h = elim (Option-cases (Map.get dag.node_map p)) [
  | inl miss ↦ add_parents-ids child ps dag dag' (ground (arith, h, miss))
  | inr (i, hit) ↦ elim (Option-cases (add_edge dag i child)) [
    | inl stop ↦ ground (arith, h, hit, stop)
    | inr (next, e) ↦
        add_parents-ids child ps next dag' (ground (arith, h, hit, e))
        ∙ add_edge-ids dag next i child e
  ]
]

add_commits-ids :
    (cs : List LooseCommit) (dag dag' : CommitDag)
    → add_commits dag cs ≡ some dag'
    → ids dag'.nodes ≡ ids dag.nodes
unfolding add_commits
add_commits-ids [] dag dag' h = let q : dag' ≡ dag = cc h in ap (λ (o : CommitDag). ids o.nodes) q
add_commits-ids (c ∷ cs) dag dag' h = elim (Option-cases (Map.get dag.node_map c.head)) [
  | inl miss ↦ ground (arith, h, miss)
  | inr (i, hit) ↦ elim (Option-cases (add_parents dag i c.parents)) [
    | inl stop ↦ ground (arith, h, hit, stop)
    | inr (next, e) ↦
        add_commits-ids cs next dag' (ground (arith, h, hit, e))
        ∙ add_parents-ids i c.parents dag next e
  ]
]

ids-bare : (cs : List LooseCommit) → ids (map bare cs) ≡ heads cs
ids-bare [] = refl
ids-bare (c ∷ cs) = ap (◌∷◌ c.head) (ids-bare cs)

pub from_commits-ids :
    (cs : List LooseCommit) (dag : CommitDag)
    → from_commits cs ≡ some dag
    → map (λ (node : Node). node.id) dag.nodes ≡ heads cs
unfolding from_commits
from_commits-ids cs dag h = add_commits-ids cs _ dag h ∙ ids-bare cs

pub id_at-nth : (nodes : List Node) (i : ℕ) → id_at nodes i ≡ nth (map (λ node. node.id) nodes) i
unfolding id_at
id_at-nth [] i = refl
id_at-nth (node ∷ nodes) zero = refl
id_at-nth (node ∷ nodes) (suc i) = id_at-nth nodes i

tips_from-above : (nodes : List Node) (k i : ℕ) → i < k → contains (tips_from k nodes) i ≡ false
unfolding tips_from contains
tips_from-above [] k i h = refl
tips_from-above (node ∷ nodes) k i h =
    ground (arith, h, tips_from-above nodes (suc k) i (omega (arith, h)))

-- The indices, from `k` on, of the nodes without children.
contains-tips_from :
    (nodes : List Node) (k i : ℕ)
    → i < length nodes
    → contains (tips_from k nodes) (k + i)
      ≡ elim (child_head nodes i) [ none ↦ true | some e ↦ false ]
unfolding tips_from contains
contains-tips_from [] k i h = absurd (omega (arith, h))
contains-tips_from (node ∷ nodes) k zero h = elim (Option-cases node.children) [
  | inl bare_node ↦ ground (arith, bare_node)
  | inr (e, linked) ↦ ground (arith, linked, tips_from-above nodes (suc k) k (omega arith))
]
contains-tips_from (node ∷ nodes) k (suc i) h =
    let ih = contains-tips_from nodes (suc k) i (omega (arith, h)) in
    let shift : k + suc i ≡ suc k + i = omega arith in
    elim (Option-cases node.children) [
      | inl bare_node ↦ rw shift (ground (arith, bare_node, ih))
      | inr (e, linked) ↦ rw shift (ground (arith, linked, ih))
    ]

tips_from-within : (nodes : List Node) (k : ℕ) → All (λ i. i < k + length nodes) (tips_from k nodes)
unfolding tips_from
tips_from-within [] k = tt
tips_from-within (node ∷ nodes) k =
    let rest =
      All-imp _ (λ i. i < k + suc (length nodes)) (λ i w. omega (arith, w))
        (tips_from (suc k) nodes) (tips_from-within nodes (suc k)) in
    elim (Option-cases node.children) [
      | inl bare_node ↦ rw (bare_node, tips_from) (omega arith, rest)
      | inr (e, linked) ↦ rw (linked, tips_from) rest
    ]

contains-insert_tip :
    (nodes : List Node) (j : ℕ) (is : List ℕ) (i : ℕ)
    → contains (insert_tip nodes j is) i ≡ (j == i || contains is i)
unfolding insert_tip contains
contains-insert_tip nodes j [] i = refl
contains-insert_tip nodes j (x ∷ xs) i = ground (arith, contains-insert_tip nodes j xs i)

contains-sort_tips :
    (nodes : List Node) (is : List ℕ) (i : ℕ) → contains (sort_tips nodes is) i ≡ contains is i
unfolding sort_tips contains
contains-sort_tips nodes [] i = refl
contains-sort_tips nodes (j ∷ js) i =
    ground
      (arith, contains-insert_tip nodes j (sort_tips nodes js) i, contains-sort_tips nodes js i)

All-insert_tip :
    (nodes : List Node) (P : ℕ → Type 0) (j : ℕ) (js : List ℕ)
    → P j
    → All P js
    → All P (insert_tip nodes j js) × (length (insert_tip nodes j js) ≡ suc (length js))
unfolding insert_tip
All-insert_tip nodes P j [] p h = ((p, tt), refl)
All-insert_tip nodes P j (x ∷ xs) p h =
    elim (Bool-cases (bytes_ltb (id_at nodes x) (id_at nodes j))) [
      | inl less ↦
          let (rest, size) = All-insert_tip nodes P j xs p h.1 in
          rw (less, insert_tip) ((h.0, rest), ap suc size)
      | inr more ↦ rw (more, insert_tip) ((p, h), refl)
    ]

All-sort_tips :
    (nodes : List Node) (P : ℕ → Type 0) (is : List ℕ)
    → All P is
    → All P (sort_tips nodes is) × (length (sort_tips nodes is) ≡ length is)
unfolding sort_tips
All-sort_tips nodes P [] h = (tt, refl)
All-sort_tips nodes P (j ∷ js) h =
    let (sorted, size) = All-sort_tips nodes P js h.1 in
    let (placed, size') = All-insert_tip nodes P j (sort_tips nodes js) h.0 sorted in
    (placed, size' ∙ ap suc size)

length-tips_from : (nodes : List Node) (k : ℕ) → length (tips_from k nodes) ≤ length nodes
unfolding tips_from
length-tips_from [] k = omega arith
length-tips_from (node ∷ nodes) k = ground (arith, length-tips_from nodes (suc k))

-- The stack of `simplify` starts with the nodes without children, each of them a node.
pub contains-starts :
    (dag : CommitDag) (i : ℕ)
    → i < length dag.nodes
    → contains (sort_tips dag.nodes (tips dag)) i
      ≡ elim (child_head dag.nodes i) [ none ↦ true | some e ↦ false ]
unfolding tips
contains-starts dag i h =
    contains-sort_tips dag.nodes (tips_from 0 dag.nodes) i
    ∙ subst
        (λ j.
          contains (tips_from 0 dag.nodes) j
          ≡ elim (child_head dag.nodes i) [ none ↦ true | some e ↦ false ])
        (omega arith) (contains-tips_from dag.nodes 0 i h)

pub starts_within :
    (dag : CommitDag)
    → All (λ i. i < length dag.nodes) (sort_tips dag.nodes (tips dag))
      × (length (sort_tips dag.nodes (tips dag)) ≤ length dag.nodes)
unfolding tips
starts_within dag =
    let (all_in, size) =
      All-sort_tips dag.nodes (λ i. i < length dag.nodes) (tips_from 0 dag.nodes)
        (All-imp _ _ (λ i w. omega (arith, w)) (tips_from 0 dag.nodes)
          (tips_from-within dag.nodes 0)) in
    (all_in, omega (arith, size, length-tips_from dag.nodes 0))
