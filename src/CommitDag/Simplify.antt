-- ===== src/CommitDag/Simplify.antt =====
-- commit_dag.rs, `simplify`: which loose commits stay when fragments are kept.
pub mod Partition
pub mod Rounds
pub mod Links
pub mod Nodes
pub mod Collected
pub mod Reached
pub mod Kept
use Prim.Derive.{×_discrete}
use subduction.Identity.{CommitId, Checkpoint, checkpoint}
use subduction.Depth.{DepthMetric, is_boundary}
use subduction.Fragment.{Fragment, head}
use subduction.Collections.Map
use subduction.Collections.Map.{Map}
use subduction.Collections.Set.{contains, insert, extend, from_iter}
use subduction.Collections.Walk.{push}
use subduction.CommitDag.{Node, CommitDag, parents_of}
use subduction.Prelude.{
  ℕ, zero, suc, ◌+◌, ◌-◌, ◌*◌, ◌/◌, ◌%◌, ◌^◌, ◌≤◌, ◌<◌, min, ◌≡◌, refl, sym, ap, ◌∙◌, subst, ◌≢◌,
  ◌↔◌, ◌⊎◌, inl, inr, Bool, true, false, not, ◌&&◌, ◌||◌, Option, none, some, List, [], ◌∷◌, ◌++◌,
  map, append_assoc, append-nil, arith, dec_lt, dec_le, ℕ_discrete, ltb, leb, if◌then◌else◌, Eq,
  ◌==◌, nat_eq, ==_iff, ==-refl, Bool-cases, Option-cases, length, take, drop, get_elem?, filter,
  any, all, All, length-append, take-append, drop-append, Bytes, IsByte, IsArray, bytes_eq,
  Bytes-discrete, bytes_ltb, bytes_ltb_irrefl, bytes_ltb_trans, bytes_ltb-total, bytes_ltb-asymm,
  take-append-drop, length-take, length-drop, All-append, All-drop, zero-add, add-zero, suc-add,
  add_assoc, add_comm, ltb_of_le, ltb_of_lt, le_of_ltb, lt_of_ltb, length-drop_fits, drop-drop,
  add-one, list_discrete, bytes_list_eq, filter_none, List-cases, All-imp, All-snoc, append-All,
}

-- `(node_idx, range_head)`
abbrev pub Visit : Type 0
Visit = ℕ × Option CommitId

pub range_head-discrete : Discrete (Option CommitId)
range_head-discrete = hlevel (Bytes-discrete)

instance abbrev pub range_head_eq : Eq (Option CommitId)
range_head_eq = record { dec = range_head-discrete }

instance abbrev pub visit_eq : Eq Visit
visit_eq = record { dec = ×_discrete ℕ_discrete range_head-discrete }

-- `commits_to_ranges` and `rangeless_commits`
pub record Ranges : Type 0 where
  pub commits_to_ranges : Map CommitId (List CommitId)
  pub rangeless_commits : List CommitId

-- `commits_to_ranges.entry(id).or_insert_with(Vec::new).push(head)`
unfoldable pub push_range :
    Map CommitId (List CommitId) → CommitId → CommitId → Map CommitId (List CommitId)
push_range m id range = elim (Map.get m id) [
  | none ↦ Map.insert m id (range ∷ [])
  | some ranges ↦ Map.insert m id (ranges ++ (range ∷ []))
]

unfoldable pub record_range : CommitId → Option CommitId → Ranges → Ranges
record_range id none acc = record acc { rangeless_commits = (insert acc.rangeless_commits id).0 }
record_range id (some range) acc = record acc {
  commits_to_ranges = push_range acc.commits_to_ranges id range;
}

-- `if strategy.to_depth(id).is_boundary() { range_head = Some(id); }`
unfoldable pub range_at : DepthMetric → CommitId → Option CommitId → Option CommitId
range_at metric id range = if is_boundary (metric id) then some id else range

-- The `while let` loop. `none` stands for the panic on an index without a node, and for an end of
-- the fuel before the stack is empty.
unfoldable pub partition :
    CommitDag → DepthMetric → ℕ → List Visit → List Visit → Ranges → Option Ranges
partition self metric zero [] visited acc = some acc
partition self metric zero (top ∷ stack) visited acc = none
partition self metric (suc fuel) [] visited acc = some acc
partition self metric (suc fuel) ((node_idx, before) ∷ stack) visited acc =
    elim (get_elem? self.nodes node_idx) [
      | none ↦ none
      | some node ↦
          let range = range_at metric node.id before in
          elim (contains visited (node_idx, range)) [
            | true ↦ partition self metric fuel stack visited acc
            | false ↦
                partition self metric fuel
                  (push (map (λ parent. (parent, range)) (parents_of self node_idx)) stack)
                  ((node_idx, range) ∷ visited) (record_range node.id range acc)
          ]
    ]

-- `.iter().enumerate().filter_map(…)`, from an index on.
unfoldable pub tips_from : ℕ → List Node → List ℕ
tips_from i [] = []
tips_from i (node ∷ nodes) = elim node.children [
  | none ↦ i ∷ tips_from (suc i) nodes
  | some e ↦ tips_from (suc i) nodes
]

unfoldable pub tips : CommitDag → List ℕ
unfolding tips_from
tips self = tips_from 0 self.nodes

-- The identifier of a node. The indices of `tips` have one.
unfoldable pub id_at : List Node → ℕ → CommitId
id_at nodes i = elim (get_elem? nodes i) [ none ↦ [] | some node ↦ node.id ]

-- `tips.sort_by_key(…)`
unfoldable pub insert_tip : List Node → ℕ → List ℕ → List ℕ
insert_tip nodes i [] = i ∷ []
insert_tip nodes i (j ∷ js) =
    if bytes_ltb (id_at nodes j) (id_at nodes i) then j ∷ insert_tip nodes i js else i ∷ j ∷ js

unfoldable pub sort_tips : List Node → List ℕ → List ℕ
unfolding insert_tip
sort_tips nodes [] = []
sort_tips nodes (i ∷ is) = insert_tip nodes i (sort_tips nodes is)

-- `covered_range_heads` and `covered_checkpoints`
unfoldable pub cover :
    List Fragment → List CommitId × List Checkpoint → List CommitId × List Checkpoint
cover [] sets = sets
cover (f ∷ fs) (heads, checkpoints) =
    cover fs ((insert heads (head f)).0, extend checkpoints f.checkpoints)

unfoldable pub is_covered : List CommitId × List Checkpoint → CommitId → Bool
is_covered (heads, checkpoints) range =
    contains heads range || contains checkpoints (checkpoint range)

-- `filter_map` over `commits_to_ranges`.
unfoldable pub uncovered :
    List CommitId × List Checkpoint → Map CommitId (List CommitId) → List CommitId
unfolding is_covered
uncovered sets [] = []
uncovered sets ((commit, ranges) ∷ m) =
    if all (is_covered sets) ranges then uncovered sets m else commit ∷ uncovered sets m

-- The rounds of the loop: the tips, and for every node and range its parents.
abbrev pub rounds : CommitDag → ℕ
rounds self = length self.nodes + length self.nodes * (length self.nodes + 1) * length self.edges

unfoldable pub simplify : CommitDag → List Fragment → DepthMetric → Option (List CommitId)
simplify self fragments metric =
    let stack : List Visit =
      push (map (λ tip. (tip, none)) (sort_tips self.nodes (tips self))) [] in
    elim (partition self metric (rounds self) stack []
      (record { commits_to_ranges = []; rangeless_commits = [] })) [
        | none ↦ none
        | some acc ↦
            let sets = cover fragments ([], []) in
            some (from_iter (uncovered sets acc.commits_to_ranges ++ acc.rangeless_commits))
      ]
