-- ===== src/CommitDag/Simplify/Reached.antt =====
-- commit_dag.rs, `simplify`: the pairs that its loop reaches are the commits with their ranges.
use subduction.Identity.{CommitId}
use subduction.LooseCommit.{LooseCommit}
use subduction.Depth.{DepthMetric, is_boundary}
use subduction.Collections.Set.{contains, contains-map, contains-map_inv}
use subduction.Collections.Walk.Reach.{Reach, root, step}
use subduction.CommitDag.{CommitDag, from_commits, parents_of, child_head}
use subduction.CommitDag.Chains.{Chain, last, link, sources_to, targets_from}
use subduction.CommitDag.Graph.{from_commits_lem, commit_pairs, index_of}
use subduction.CommitDag.Simplify.{Visit, visit_eq, id_at, range_at, sort_tips, tips}
use subduction.CommitDag.Simplify.Partition.{arrive, expand}
use subduction.CommitDag.Simplify.Rounds.{}
use subduction.Collections.Index.{nth, Distinct, contains-nth, nth-index}
use subduction.CommitDag.Simplify.Links.{
  heads, has_child, is_parent, filled, contains-sources_to, filled-targets_from, sources-within,
}
use subduction.CommitDag.Simplify.Nodes.{
  from_commits-ids, id_at-nth, contains-starts, starts_within,
}
use mathlib.Core.Path.{ap₂}
use subduction.CommitDag.Simplify.{range_head_eq}
use subduction.CommitDag.{Node}
use subduction.CommitDag.Simplify.Rounds.{heads_of}
use subduction.Prelude.{
  ◌⊎◌, length-map, ℕ, ◌<◌, ◌≡◌, refl, sym, ap, ◌∙◌, subst, inl, inr, Bool, true, false, not, Option,
  none, some, List, [], ◌∷◌, map, arith, Eq, ◌==◌, nat_eq, ==_iff, ==-refl, Bool-cases, length, any,
  All, bytes_eq, bytes_list_eq,
}

-- A boundary is the head of the range from it on; any other commit is in the range that the walk
-- comes with.
abbrev pub Carries : DepthMetric → CommitId → Option CommitId → Option CommitId → Type 0
Carries metric id before range =
    ((is_boundary (metric id) ≡ true) × (some id ≡ range))
    ⊎ ((is_boundary (metric id) ≡ false) × (before ≡ range))

-- The range heads with which a walk from the tips to their ancestors comes to a commit: the last
-- boundary on the way, or none. A tip is a commit that is no parent among the commits.
pub data InRange (cs : List LooseCommit) (metric : DepthMetric)
    : CommitId → Option CommitId → Type 0 where
  tip :
      {id : CommitId} {range : Option CommitId}
      → contains (heads cs) id ≡ true
      → has_child cs id ≡ false
      → Carries metric id none range
      → InRange cs metric id range
  ancestor :
      {child id : CommitId} {before range : Option CommitId}
      → InRange cs metric child before
      → contains (heads cs) id ≡ true
      → is_parent cs id child ≡ true
      → Carries metric id before range
      → InRange cs metric id range

pub range_at-Carries :
    (metric : DepthMetric) (id : CommitId) (before : Option CommitId)
    → Carries metric id before (range_at metric id before)
unfolding range_at
range_at-Carries metric id before = elim (Bool-cases (is_boundary (metric id))) [
  | inl boundary ↦ inl (boundary, rw (boundary, range_at) refl)
  | inr inner ↦ inr (inner, rw (inner, range_at) refl)
]

Carries-range_at :
    (metric : DepthMetric) (id : CommitId) (before range : Option CommitId)
    → Carries metric id before range
    → range_at metric id before ≡ range
unfolding range_at
Carries-range_at metric id before range (inl (boundary, e)) = rw (boundary, range_at) e
Carries-range_at metric id before range (inr (inner, e)) = rw (inner, range_at) e

pub any-inv {ℓ} :
    {A : Type ℓ} ⦃e : Eq A⦄ (f : A → Bool) (xs : List A)
    → any f xs ≡ true
    → (x : A) × (contains xs x ≡ true) × (f x ≡ true)
unfolding contains
any-inv f [] h = cc
any-inv f (x ∷ xs) h = elim (Bool-cases (f x)) [
  | inl hit ↦ (x, ground (arith, ==-refl x), hit)
  | inr miss ↦ let (y, m, q) = any-inv f xs (ground (arith, h, miss)) in (y, ground (arith, m), q)
]

pub any_of {ℓ} :
    {A : Type ℓ} ⦃e : Eq A⦄ (f : A → Bool) (xs : List A) (x : A)
    → contains xs x ≡ true
    → f x ≡ true
    → any f xs ≡ true
unfolding contains
any_of f [] x m h = cc
any_of f (y ∷ ys) x m h = elim (Bool-cases (y == x)) [
  | inl hit ↦ let q : f y ≡ true = ap f ((==_iff y x).0 hit) ∙ h in ground (arith, q)
  | inr miss ↦ ground (arith, any_of f ys x (ground (arith, m, miss)) h)
]

All-contains : (P : ℕ → Type 0) (xs : List ℕ) (x : ℕ) → All P xs → contains xs x ≡ true → P x
unfolding contains
All-contains P [] x h m = cc
All-contains P (y ∷ ys) x h m = elim (Bool-cases (y == x)) [
  | inl hit ↦ subst P ((==_iff y x).0 hit) h.0
  | inr miss ↦ All-contains P ys x h.1 (ground (arith, m, miss))
]

-- The chain of an empty list is no edge, and that of a list with an element is one.
Chain-filled :
    {edges : List subduction.CommitDag.Edge} {o : Option ℕ} {xs : List ℕ}
    → Chain edges o xs
    → elim o [ none ↦ true | some e ↦ false ] ≡ not (filled xs)
Chain-filled last = refl
Chain-filled (link found rest) = refl

pub none_listed : (nodes : List Node) → contains (heads_of nodes) none ≡ true
unfolding contains
none_listed nodes = ground (arith, ==-refl {A = Option CommitId} none)

module _ (cs : List LooseCommit) (distinct : Distinct (heads cs)) (metric : DepthMetric)
    (dag : CommitDag) (made : from_commits cs ≡ some dag) where
  size : length dag.nodes ≡ length cs
  size =
      sym (length-map {B = CommitId} (λ node. node.id) dag.nodes)
      ∙ ap length (from_commits-ids cs dag made)
      ∙ length-map {B = CommitId} (λ c. c.head) cs

  pub id_at-heads : (i : ℕ) → id_at dag.nodes i ≡ nth (heads cs) i
  id_at-heads i = id_at-nth dag.nodes i ∙ ap (λ ids. nth ids i) (from_commits-ids cs dag made)

  parents_of-sources : (t : ℕ) → parents_of dag t ≡ sources_to t (commit_pairs (index_of cs) cs [])
  parents_of-sources t =
      let (dag', e, parents, children) = from_commits_lem cs in
      let q : dag' ≡ dag = cc (e, made) in
      subst (λ d. parents_of d t ≡ sources_to t (commit_pairs (index_of cs) cs [])) q (parents t)

  contains-parents_of :
      (s t : ℕ)
      → s < length dag.nodes
      → t < length dag.nodes
      → contains (parents_of dag t) s ≡ is_parent cs (nth (heads cs) s) (nth (heads cs) t)
  contains-parents_of s t ls lt =
      rw (parents_of-sources t)
        (contains-sources_to cs distinct s t (omega (arith, size, ls)) (omega (arith, size, lt)))

  pub within : (t : ℕ) → All (λ s. s < length dag.nodes) (parents_of dag t)
  within t = rw (parents_of-sources t, size) (sources-within cs t)

  is_tip :
      (i : ℕ)
      → i < length dag.nodes
      → contains (sort_tips dag.nodes (tips dag)) i ≡ not (has_child cs (nth (heads cs) i))
  is_tip i lt =
      let (dag', e, parents, children) = from_commits_lem cs in
      let q : dag' ≡ dag = cc (e, made) in
      let chain : Chain dag.edges (child_head dag.nodes i)
          (targets_from i (commit_pairs (index_of cs) cs [])) =
        subst
          (λ d.
            Chain d.edges (child_head d.nodes i)
              (targets_from i (commit_pairs (index_of cs) cs [])))
          q (children i) in
      contains-starts dag i lt
      ∙ Chain-filled chain
      ∙ ap not (filled-targets_from cs distinct i (omega (arith, size, lt)))

  abbrev pub starts : List Visit
  starts = map (λ i. arrive dag metric (i, none)) (sort_tips dag.nodes (tips dag))

  abbrev pub Comes : Visit → Type 0
  Comes v = (v.0 < length dag.nodes) × InRange cs metric (nth (heads cs) v.0) v.1

  listed_at : (i : ℕ) → i < length dag.nodes → contains (heads cs) (nth (heads cs) i) ≡ true
  listed_at i lt =
      contains-nth (heads cs) i
        (omega (arith, lt, size, length-map {B = CommitId} (λ c. c.head) cs))

  pub Reach-Comes : {v : Visit} → Reach (expand dag metric) starts v → Comes v
  Reach-Comes (root {a = v} m) =
      let (i, at_tip, e) =
        contains-map_inv (λ i. arrive dag metric (i, none)) (sort_tips dag.nodes (tips dag)) v m in
      let lt =
        All-contains (λ i. i < length dag.nodes) (sort_tips dag.nodes (tips dag)) i
          (starts_within dag).0 at_tip in
      subst Comes e (
        lt,
        tip (listed_at i lt) (ground (arith, is_tip i lt, at_tip)) (
            subst (λ id. Carries metric (nth (heads cs) i) none (range_at metric id none))
              (sym (id_at-heads i)) (range_at-Carries metric (nth (heads cs) i) none)),
      )
  Reach-Comes (step {a = v} {b = w} before m) =
      let (lt, comes) = Reach-Comes before in
      let (p, at_parent, e) =
        contains-map_inv (λ p. arrive dag metric (p, v.1)) (parents_of dag v.0) w m in
      let lp =
        All-contains (λ i. i < length dag.nodes) (parents_of dag v.0) p (within v.0) at_parent in
      subst Comes e (
        lp,
        ancestor comes (listed_at p lp) (sym (contains-parents_of p v.0 lp lt) ∙ at_parent) (
            subst (λ id. Carries metric (nth (heads cs) p) v.1 (range_at metric id v.1))
              (sym (id_at-heads p)) (range_at-Carries metric (nth (heads cs) p) v.1)),
      )

  indexed :
      (id : CommitId)
      → contains (heads cs) id ≡ true
      → (i : ℕ) × (i < length dag.nodes) × (nth (heads cs) i ≡ id)
  indexed id member =
      let (i, lt, at) = nth-index (heads cs) id member in
      (i, omega (arith, lt, size, length-map {B = CommitId} (λ c. c.head) cs), at)

  pub Comes-Reach :
      {id : CommitId} {range : Option CommitId}
      → InRange cs metric id range
      → (i : ℕ) × (i < length dag.nodes)
        × (nth (heads cs) i ≡ id)
        × Reach (expand dag metric) starts (i, range)
  Comes-Reach (tip {id} {range} member lone e) =
      let (i, lt, at) = indexed id member in
      let v : Visit = arrive dag metric (i, none) in
      let same : v ≡ (i, range) =
        ap (λ r. (i, r))
          (ap (λ x. range_at metric x none) (id_at-heads i ∙ at)
            ∙ Carries-range_at metric id none range e) in
      let at_tip : contains (sort_tips dag.nodes (tips dag)) i ≡ true =
        is_tip i lt ∙ ap (λ x. not (has_child cs x)) at ∙ ap not lone in
      (
        i,
        lt,
        at,
        subst (Reach (expand dag metric) starts) same (
            root (
              contains-map (λ i. arrive dag metric (i, none)) (sort_tips dag.nodes (tips dag)) i
                at_tip)),
      )
  Comes-Reach (ancestor {child} {id} {before} {range} comes member parent e) =
      let (j, lj, at_child, reached) = Comes-Reach comes in
      let (i, lt, at) = indexed id member in
      let v : Visit = arrive dag metric (i, before) in
      let same : v ≡ (i, range) =
        ap (λ r. (i, r))
          (ap (λ x. range_at metric x before) (id_at-heads i ∙ at)
            ∙ Carries-range_at metric id before range e) in
      let at_parent : contains (parents_of dag j) i ≡ true =
        contains-parents_of i j lt lj ∙ ap₂ (is_parent cs) at at_child ∙ parent in
      (
        i,
        lt,
        at,
        subst (Reach (expand dag metric) starts) same (
            step reached
              (contains-map (λ p. arrive dag metric (p, before)) (parents_of dag j) i at_parent)),
      )
