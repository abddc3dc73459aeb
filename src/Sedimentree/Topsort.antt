-- ===== src/Sedimentree/Topsort.antt =====
-- `topsorted_blob_order` of sedimentree.rs. The vectors `in_degree` and `dependents` are functions
-- of the index: every index comes from an `enumerate`, below `n_total`. An in-degree, a u32, counts
-- references, of which there are fewer than 2^32.
pub mod Release
pub mod Counting
pub mod Loop
pub mod Built
pub mod Depends
pub mod Left
pub mod Items
pub mod Outcome
pub mod Sorted
use subduction.Identity.{CommitId}
use subduction.LooseCommit.{LooseCommit}
use subduction.Fragment.{Fragment, head, boundary}
use subduction.Codec.{Result, ok, err}
use subduction.Collections.Index.{index_keys}
use subduction.Collections.Map
use subduction.Collections.Map.{Map, values}
use subduction.Collections.Set.{contains}
use subduction.Sedimentree.{Sedimentree}
use subduction.Prelude.{
  ℕ, zero, suc, ◌+◌, ◌-◌, Option, none, some, List, [], ◌∷◌, ◌++◌, map, ltb, if◌then◌else◌, ◌==◌,
  nat_eq, length, bytes_eq, bytes_list_eq,
}

pub data SedimentreeItem : Type 0 where
  fragment : ℕ → SedimentreeItem
  loose_commit : ℕ → SedimentreeItem

pub record CycleError : Type 0 where
  pub total : ℕ
  pub sorted : ℕ

-- `in_degree` and `dependents`
pub record Graph : Type 0 where
  pub in_degree : ℕ → ℕ
  pub dependents : ℕ → List ℕ

unfoldable pub empty : Graph
empty = record { in_degree = λ i. 0; dependents = λ i. [] }

-- `in_degree[i] += 1; dependents[j].push(i);`
unfoldable pub depend : Graph → ℕ → ℕ → Graph
depend g i j = record {
  in_degree = λ k. if i == k then g.in_degree k + 1 else g.in_degree k;
  dependents = λ k. if j == k then g.dependents k ++ (i ∷ []) else g.dependents k;
}

-- `for boundary_digest in frag.boundary() { … }`
unfoldable pub boundary_edges : Map CommitId ℕ → ℕ → List CommitId → Graph → Graph
boundary_edges head_to_frag i [] g = g
boundary_edges head_to_frag i (digest ∷ digests) g = elim (Map.get head_to_frag digest) [
  | none ↦ boundary_edges head_to_frag i digests g
  | some j ↦ boundary_edges head_to_frag i digests (depend g i j)
]

-- `for (i, frag) in fragments.iter().enumerate() { … }`
unfoldable pub fragment_edges : Map CommitId ℕ → ℕ → List Fragment → Graph → Graph
fragment_edges head_to_frag i [] g = g
fragment_edges head_to_frag i (frag ∷ frags) g =
    fragment_edges head_to_frag (suc i) frags (boundary_edges head_to_frag i (boundary frag) g)

-- `if … && seen_deps.insert(j) { … }`
unfoldable pub depend_once : ℕ → Option ℕ → Graph × List ℕ → Graph × List ℕ
depend_once idx none (g, seen_deps) = (g, seen_deps)
depend_once idx (some j) (g, seen_deps) =
    if contains seen_deps j then (g, seen_deps) else (depend g idx j, j ∷ seen_deps)

-- `n_frags + pli`
abbrev pub shift : ℕ → Option ℕ → Option ℕ
shift n_frags none = none
shift n_frags (some pli) = some (n_frags + pli)

-- `for parent in commit.parents() { … }`
unfoldable pub parent_edges :
    Map CommitId ℕ → Map CommitId ℕ → ℕ → ℕ → List CommitId → Graph × List ℕ → Graph × List ℕ
parent_edges head_to_frag id_to_loose n_frags idx [] state = state
parent_edges head_to_frag id_to_loose n_frags idx (parent ∷ parents) state =
    parent_edges head_to_frag id_to_loose n_frags idx parents (
      depend_once idx (shift n_frags (Map.get id_to_loose parent))
        (depend_once idx (Map.get head_to_frag parent) state))

-- `for (li, commit) in loose.iter().enumerate() { … }`
unfoldable pub commit_edges :
    Map CommitId ℕ → Map CommitId ℕ → ℕ → ℕ → List LooseCommit → Graph → Graph
commit_edges head_to_frag id_to_loose n_frags li [] g = g
commit_edges head_to_frag id_to_loose n_frags li (commit ∷ commits) g =
    commit_edges head_to_frag id_to_loose n_frags (suc li) commits
      (parent_edges head_to_frag id_to_loose n_frags (n_frags + li) commit.parents (g, [])).0

-- The indices below `n` whose in-degree is zero, in ascending order, from `i` on.
unfoldable pub ready : (ℕ → ℕ) → ℕ → ℕ → List ℕ
ready in_degree i zero = []
ready in_degree i (suc n) =
    if in_degree i == 0 then i ∷ ready in_degree (suc i) n else ready in_degree (suc i) n

-- `for &dep in &dependents[i] { … }`, on the in-degrees and the queue.
unfoldable pub release : List ℕ → (ℕ → ℕ) × List ℕ → (ℕ → ℕ) × List ℕ
release [] (in_degree, queue) = (in_degree, queue)
release (dep ∷ deps) (in_degree, queue) =
    let lower : ℕ → ℕ = λ k. if dep == k then in_degree k - 1 else in_degree k in
    release deps (lower, if lower dep == 0 then queue ++ (dep ∷ []) else queue)

-- The item of an index.
unfoldable pub item : ℕ → ℕ → SedimentreeItem
item n_frags i = if ltb i n_frags then fragment i else loose_commit (i - n_frags)

-- `while let Some(i) = queue.pop_front() { … }`, or `none` if the fuel ends first.
unfoldable pub kahn :
    ℕ → (ℕ → List ℕ) → ℕ → (ℕ → ℕ) → List ℕ → List SedimentreeItem → Option (List SedimentreeItem)
kahn n_frags dependents fuel in_degree [] order = some order
kahn n_frags dependents zero in_degree (i ∷ queue) order = none
kahn n_frags dependents (suc fuel) in_degree (i ∷ queue) order =
    let state = release (dependents i) (in_degree, queue) in
    kahn n_frags dependents fuel state.0 state.1 (order ++ (item n_frags i ∷ []))

unfoldable pub graph_of : List Fragment → List LooseCommit → Graph
graph_of fragments loose =
    let head_to_frag = index_keys 0 [] (map head fragments) in
    let id_to_loose = index_keys 0 [] (map (λ c. c.head) loose) in
    commit_edges head_to_frag id_to_loose (length fragments) 0 loose
      (fragment_edges head_to_frag 0 fragments empty)

-- Each round takes an index off the queue, and an index is queued once: `n_total` rounds.
unfoldable pub topsorted_blob_order :
    Sedimentree → Option (Result CycleError (List SedimentreeItem))
topsorted_blob_order self =
    let fragments = values self.fragments in
    let loose = values self.commits in
    let n_total = length fragments + length loose in
    if n_total == 0
    then some (ok [])
    else (let g = graph_of fragments loose in
        elim (kahn (length fragments) g.dependents n_total g.in_degree (ready g.in_degree 0 n_total)
          []) [
            | none ↦ none
            | some order ↦ some (
                if length order == n_total
                then ok order
                else err (record { total = n_total; sorted = length order }))
          ])
