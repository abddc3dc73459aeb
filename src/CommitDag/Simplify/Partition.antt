-- ===== src/CommitDag/Simplify/Partition.antt =====
-- commit_dag.rs, `simplify`: its loop is the work-list loop of Collections.Walk over pairs of a node
-- and a range head, which collects each pair that it visits.
use subduction.Identity.{CommitId}
use subduction.Depth.{DepthMetric}
use subduction.Collections.Set.{contains}
use subduction.Collections.Walk.{push, walk, walk_old, walk_new}
use subduction.Collections.Walk.Total.{push-All}
use subduction.CommitDag.{Node, CommitDag, parents_of}
use subduction.CommitDag.Chains.{get_elem?-within}
use subduction.CommitDag.Simplify.{
  Visit, visit_eq, Ranges, record_range, range_at, partition, id_at,
}
use subduction.Prelude.{
  ℕ, zero, suc, ◌<◌, ◌≡◌, refl, sym, ap, ◌∙◌, subst, inl, inr, true, false, Option, none, some,
  List, [], ◌∷◌, map, nat_eq, Bool-cases, length, get_elem?, All, bytes_eq, bytes_list_eq,
}

pub push-map {ℓ κ} :
    {A : Type ℓ} {B : Type κ} (f : A → B) (xs stack : List A)
    → map f (push xs stack) ≡ push (map f xs) (map f stack)
unfolding push
push-map f [] stack = refl
push-map f (x ∷ xs) stack = push-map f xs (x ∷ stack)

abbrev pub nothing : Ranges
nothing = record { commits_to_ranges = []; rangeless_commits = [] }

module _ (self : CommitDag) (metric : DepthMetric) where
  -- A pair of the stack, with the range head that the node sets.
  abbrev pub arrive : Visit → Visit
  arrive v = (v.0, range_at metric (id_at self.nodes v.0) v.1)

  abbrev pub expand : Visit → List Visit
  expand v = map (λ parent. arrive (parent, v.1)) (parents_of self v.0)

  abbrev pub collect : List Visit → Ranges
  collect [] = nothing
  collect (v ∷ vs) = record_range (id_at self.nodes v.0) v.1 (collect vs)

  abbrev pub collected : Option (List Visit) → Option Ranges
  collected none = none
  collected (some vs) = some (collect vs)

  abbrev pub Inside : List Visit → Type 0
  Inside vs = All (λ (v : Visit). v.0 < length self.nodes) vs

  id_at-found :
      (i : ℕ) (node : Node) → get_elem? self.nodes i ≡ some node → id_at self.nodes i ≡ node.id
  unfolding id_at
  id_at-found i node found = rw (found, id_at) refl

  pub All-map :
      (ps : List ℕ) (range : Option CommitId)
      → All (λ p. p < length self.nodes) ps
      → Inside (map (λ parent. (parent, range)) ps)
  All-map [] range h = tt
  All-map (p ∷ ps) range h = (h.0, All-map ps range h.1)

  pub map-map :
      (ps : List ℕ) (range : Option CommitId)
      → map arrive (map (λ parent. (parent, range)) ps) ≡ map (λ parent. arrive (parent, range)) ps
  map-map [] range = refl
  map-map (p ∷ ps) range = ap (◌∷◌ (arrive (p, range))) (map-map ps range)

  partition_old :
      (fuel i : ℕ) (before : Option CommitId) (stack visited : List Visit) (acc : Ranges)
      → i < length self.nodes
      → contains visited (arrive (i, before)) ≡ true
      → partition self metric (suc fuel) ((i, before) ∷ stack) visited acc
        ≡ partition self metric fuel stack visited acc
  unfolding partition
  partition_old fuel i before stack visited acc within h =
      let (node, found) = get_elem?-within i self.nodes within in
      let h' : contains visited (i, range_at metric node.id before) ≡ true =
        subst (λ id. contains visited (i, range_at metric id before) ≡ true)
          (id_at-found i node found) h in
      rw (found, partition, h') refl

  partition_new :
      (fuel i : ℕ) (before : Option CommitId) (stack visited : List Visit) (acc : Ranges)
      → i < length self.nodes
      → contains visited (arrive (i, before)) ≡ false
      → partition self metric (suc fuel) ((i, before) ∷ stack) visited acc
        ≡ partition self metric fuel
            (push (map (λ parent. (parent, (arrive (i, before)).1)) (parents_of self i)) stack)
            (arrive (i, before) ∷ visited)
            (record_range (id_at self.nodes i) (arrive (i, before)).1 acc)
  unfolding partition
  partition_new fuel i before stack visited acc within h =
      let (node, found) = get_elem?-within i self.nodes within in
      let same = id_at-found i node found in
      let h' : contains visited (i, range_at metric node.id before) ≡ false =
        subst (λ id. contains visited (i, range_at metric id before) ≡ false) same h in
      rw same (rw (found, partition, h') refl)

  -- What the loop returns is collected from the pairs that the walk visits.
  pub partition-walk :
      ((i : ℕ) → All (λ p. p < length self.nodes) (parents_of self i))
      → (fuel : ℕ) (stack visited : List Visit) → Inside stack
      → partition self metric fuel stack visited (collect visited)
        ≡ collected (walk expand fuel (map arrive stack) visited)
  unfolding walk partition
  partition-walk within zero [] visited inside = refl
  partition-walk within zero (top ∷ stack) visited inside = refl
  partition-walk within (suc fuel) [] visited inside = refl
  partition-walk within (suc fuel) ((i, before) ∷ stack) visited inside =
      let top = arrive (i, before) in
      let rest = map arrive stack in
      elim (Bool-cases (contains visited top)) [
        | inl old ↦
            partition_old fuel i before stack visited (collect visited) inside.0 old
            ∙ partition-walk within fuel stack visited inside.1
            ∙ ap collected (sym (walk_old expand fuel top rest visited old))
        | inr new ↦
            let next : List Visit = map (λ parent. (parent, top.1)) (parents_of self i) in
            partition_new fuel i before stack visited (collect visited) inside.0 new
            ∙ partition-walk within fuel (push next stack) (top ∷ visited)
                (push-All _ next stack (All-map (parents_of self i) top.1 (within i)) inside.1)
            ∙ ap (λ s. collected (walk expand fuel s (top ∷ visited)))
                (push-map arrive next stack
                  ∙ ap (λ xs. push xs rest) (map-map (parents_of self i) top.1))
            ∙ ap collected (sym (walk_new expand fuel top rest visited new))
      ]
