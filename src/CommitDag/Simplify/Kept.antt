-- ===== src/CommitDag/Simplify/Kept.antt =====
-- commit_dag.rs, `simplify`: which commits are kept, by the ranges that a commit is in.
use subduction.CommitDag.Simplify.Reached.{
  InRange, any-inv, any_of, none_listed, id_at-heads, within, Reach-Comes, Comes-Reach, starts,
}
use subduction.Identity.{CommitId}
use subduction.LooseCommit.{LooseCommit}
use subduction.Depth.{DepthMetric}
use subduction.Fragment.{Fragment}
use subduction.Collections.Set.{contains, contains-from_iter}
use subduction.Collections.Walk.{push, walk}
use subduction.Collections.Walk.Reach.{walk-push-Reach}
use subduction.CommitDag.{CommitDag, from_commits}
use subduction.CommitDag.Graph.{from_commits_lem}
use subduction.CommitDag.Simplify.{
  Visit, visit_eq, id_at, simplify, sort_tips, tips, rounds, partition,
}
use subduction.CommitDag.Simplify.Partition.{arrive, expand, collect, nothing, partition-walk}
use subduction.CommitDag.Simplify.Rounds.{rounds_enough, arrive-Proper}
use subduction.Collections.Index.{nth, Distinct}
use subduction.CommitDag.Simplify.Links.{heads}
use subduction.CommitDag.Simplify.Nodes.{starts_within}
use subduction.CommitDag.Simplify.Collected.{keeps, kept, contains-kept}
use subduction.Collections.Walk.Total.{push-All, length-push}
use subduction.CommitDag.Simplify.{range_head_eq}
use subduction.CommitDag.Simplify.Partition.{push-map, map-map, All-map, collected}
use subduction.CommitDag.Simplify.Rounds.{Proper}
use subduction.Collections.Set.{from_iter}
use subduction.Prelude.{
  length-map, ℕ, ◌≡◌, refl, sym, ap, ◌∙◌, subst, ◌↔◌, Bool, true, ◌&&◌, Option, none, some, List,
  [], map, arith, ◌==◌, nat_eq, ==_iff, any, bytes_eq, bytes_list_eq,
}

module _ (cs : List LooseCommit) (distinct : Distinct (heads cs)) (metric : DepthMetric)
    (dag : CommitDag) (made : from_commits cs ≡ some dag) where
  -- The stack of `simplify`, as it is filled and as the walk sees it.
  abbrev stack : List Visit
  stack = push (map (λ tip. (tip, none)) (sort_tips dag.nodes (tips dag))) []

  stack-starts : map (arrive dag metric) stack ≡ push (starts cs distinct metric dag made) []
  stack-starts =
      let tops = sort_tips dag.nodes (tips dag) in
      push-map (arrive dag metric) (map (λ tip. (tip, none)) tops) []
      ∙ ap (λ xs. push xs []) (map-map dag metric tops none)

  visited_all :
      (visited : List Visit) × (walk
          (expand dag metric)
          (rounds dag)
          (push (starts cs distinct metric dag made) [])
          []
        ≡ some visited)
  visited_all =
      let tops = sort_tips dag.nodes (tips dag) in
      rounds_enough dag metric (within cs distinct metric dag made)
        (push (starts cs distinct metric dag made) [])
        (push-All (Proper dag metric (within cs distinct metric dag made))
          (starts cs distinct metric dag made) []
          (arrive-Proper dag metric (within cs distinct metric dag made) tops none
            (starts_within dag).0 (none_listed dag.nodes))
          tt)
        (omega (
          arith,
          length-push (starts cs distinct metric dag made) [],
          length-map {A = ℕ} {B = Visit} (λ i. arrive dag metric (i, none)) tops,
          (starts_within dag).1,
        ))

  simplify-visited :
      (fragments : List Fragment) (visited : List Visit)
      → walk (expand dag metric) (rounds dag) (push (starts cs distinct metric dag made) []) []
        ≡ some visited
      → simplify dag fragments metric
        ≡ some (from_iter (kept dag metric fragments (collect dag metric visited)))
  unfolding simplify
  simplify-visited fragments visited h =
      let tops = sort_tips dag.nodes (tips dag) in
      let e : partition dag metric (rounds dag) stack [] nothing
          ≡ some (collect dag metric visited) =
        partition-walk dag metric (within cs distinct metric dag made) (rounds dag) stack [] (
          push-All _ (map (λ tip. (tip, none)) tops) []
            (All-map dag metric tops none (starts_within dag).0) tt)
        ∙ ap (λ s. collected dag metric (walk (expand dag metric) (rounds dag) s [])) stack-starts
        ∙ ap (collected dag metric) h in
      rw (e, simplify) refl

  -- Some range of the commit keeps it.
  Keeps : List Fragment → CommitId → Type 0
  Keeps fragments id =
      (range : Option CommitId) × InRange cs metric id range × (keeps fragments range ≡ true)

  visited-Keeps :
      (fragments : List Fragment) (visited : List Visit) (id : CommitId)
      → walk (expand dag metric) (rounds dag) (push (starts cs distinct metric dag made) []) []
        ≡ some visited
      → (any (λ v. id_at dag.nodes v.0 == id && keeps fragments v.1) visited ≡ true)
        ↔ Keeps fragments id
  unfolding Keeps
  visited-Keeps fragments visited id h = (
    λ some_visit.
        let test : Visit → Bool = λ v. id_at dag.nodes v.0 == id && keeps fragments v.1 in
        let (v, m, passes) = any-inv test visited some_visit in
        let (lt, comes) = (Reach-Comes cs distinct metric dag made) (
          (walk-push-Reach (expand dag metric) (rounds dag) (starts cs distinct metric dag made)
              visited h v).0
            m) in
        let same : nth (heads cs) v.0 ≡ id =
          sym ((id_at-heads cs distinct metric dag made) v.0)
          ∙ (==_iff (id_at dag.nodes v.0) id).0 (ground (arith, passes)) in
        (v.1, subst (λ x. InRange cs metric x v.1) same comes, ground (arith, passes)),
    λ kept_in.
        let (range, comes, stays) = kept_in in
        let (i, lt, at, reached) = (Comes-Reach cs distinct metric dag made) comes in
        any_of (λ v. id_at dag.nodes v.0 == id && keeps fragments v.1) visited (i, range)
          ((walk-push-Reach (expand dag metric) (rounds dag) (starts cs distinct metric dag made)
              visited h (i, range)).1
            reached)
          (ground (
            arith,
            stays,
            (==_iff (id_at dag.nodes i) id).1 ((id_at-heads cs distinct metric dag made) i ∙ at),
          )),
  )

-- With no identifier twice among the commits, `simplify` of their graph returns, whatever the
-- fragments and the metric, and keeps exactly the commits that some walk from a tip to ancestors
-- reaches with no boundary on the way, the commit included, or with a last boundary that is neither
-- the head nor, by its checkpoint, a checkpoint of a fragment. So one such walk keeps a commit,
-- whatever ranges other walks come with; what is below a covered boundary is in its range and is
-- dropped, if no other walk keeps it; and a commit on a cycle that no tip reaches is dropped.
pub simplify_lem :
    (cs : List LooseCommit) (fragments : List Fragment) (metric : DepthMetric)
    → Distinct (heads cs)
    → (dag : CommitDag) × (r : List CommitId) × (from_commits cs ≡ some dag)
      × (simplify dag fragments metric ≡ some r)
      × ((id : CommitId)
          → (contains r id ≡ true) ↔ (
              (range : Option CommitId) × InRange cs metric id range
              × (keeps fragments range ≡ true)))
unfolding Keeps
simplify_lem cs fragments metric distinct =
    let (dag, made, _, _) = from_commits_lem cs in
    let (visited, h) = visited_all cs distinct metric dag made in
    let acc = kept dag metric fragments (collect dag metric visited) in
    (
      dag,
      from_iter acc,
      made,
      simplify-visited cs distinct metric dag made fragments visited h,
      λ id.
          let (sound, complete) =
            visited-Keeps cs distinct metric dag made fragments visited id h in
          let e = contains-from_iter acc id ∙ contains-kept dag metric fragments visited id in
          (λ m. sound (sym e ∙ m), λ k. e ∙ complete k),
    )
