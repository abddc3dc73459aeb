-- ===== src/CommitDag/Simplify/Collected.antt =====
-- commit_dag.rs, `simplify`: what the collected ranges keep, by the pairs that were visited.
use subduction.Identity.{CommitId, Checkpoint, checkpoint}
use subduction.Fragment.{Fragment, head}
use subduction.Collections.Map
use subduction.Collections.Map.{Map}
use subduction.Collections.Set.{
  contains, insert, extend, contains-insert, contains-extend, contains-append,
}
use subduction.CommitDag.Simplify.{
  id_at, record_range, Ranges, Visit, DepthMetric, CommitDag, visit_eq, push_range, cover,
  is_covered, uncovered,
}
use subduction.CommitDag.Simplify.Partition.{collect, nothing}
use subduction.Prelude.{
  refl, false, ◌≡◌, inl, inr, Bool, true, not, ◌&&◌, ◌||◌, Option, none, some, List, [], ◌∷◌, ◌++◌,
  arith, ◌==◌, nat_eq, ==_iff, Bool-cases, Option-cases, any, all, bytes_eq, bytes_list_eq,
}

-- Some fragment has the range head as its head, or its checkpoint among its checkpoints.
abbrev pub covers : List Fragment → CommitId → Bool
covers fs range = any (λ f. head f == range || contains f.checkpoints (checkpoint range)) fs

-- A pair that keeps its commit: without a range head, or with one that no fragment covers.
abbrev pub keeps : List Fragment → Option CommitId → Bool
keeps fs none = true
keeps fs (some range) = not (covers fs range)

is_covered-cover :
    (fs : List Fragment) (heads : List CommitId) (checkpoints : List Checkpoint) (range : CommitId)
    → is_covered (cover fs (heads, checkpoints)) range
      ≡ (is_covered (heads, checkpoints) range || covers fs range)
unfolding is_covered cover
is_covered-cover [] heads checkpoints range = ground arith
is_covered-cover (f ∷ fs) heads checkpoints range = ground (
  arith,
  is_covered-cover fs (insert heads (head f)).0 (extend checkpoints f.checkpoints) range,
  contains-insert heads (head f) range,
  contains-extend f.checkpoints checkpoints (checkpoint range),
)

pub is_covered-covers :
    (fs : List Fragment) (range : CommitId) → is_covered (cover fs ([], [])) range ≡ covers fs range
unfolding is_covered contains
is_covered-covers fs range = ground (arith, is_covered-cover fs [] [] range)

all-snoc {ℓ} :
    {A : Type ℓ} (p : A → Bool) (xs : List A) (x : A) → all p (xs ++ (x ∷ [])) ≡ (all p xs && p x)
all-snoc p [] x = ground arith
all-snoc p (y ∷ ys) x = ground (arith, all-snoc p ys x)

module _ (sets : List CommitId × List Checkpoint) where
  uncovered-insert_new :
      (m : Map CommitId (List CommitId)) (id range other : CommitId)
      → Map.get m id ≡ none
      → contains (uncovered sets (Map.insert m id (range ∷ []))) other
        ≡ (contains (uncovered sets m) other || (id == other && not (is_covered sets range)))
  unfolding uncovered contains Map.get Map.insert
  uncovered-insert_new [] id range other h = ground arith
  uncovered-insert_new ((k, rs) ∷ m) id range other h =
      ground (arith, h, uncovered-insert_new m id range other)

  uncovered-insert_old :
      (m : Map CommitId (List CommitId)) (id range other : CommitId) (ranges : List CommitId)
      → Map.get m id ≡ some ranges
      → contains (uncovered sets (Map.insert m id (ranges ++ (range ∷ [])))) other
        ≡ (contains (uncovered sets m) other || (id == other && not (is_covered sets range)))
  unfolding uncovered contains Map.get Map.insert
  uncovered-insert_old [] id range other ranges h = cc
  uncovered-insert_old ((k, rs) ∷ m) id range other ranges h = elim (Bool-cases (k == id)) [
    | inl hit ↦
        let same : rs ≡ ranges = ground (arith, h, hit) in
        ground (arith, hit, same, (==_iff k id).0 hit, all-snoc (is_covered sets) ranges range)
    | inr miss ↦ ground (arith, h, miss, uncovered-insert_old m id range other ranges)
  ]

  uncovered-push_range :
      (m : Map CommitId (List CommitId)) (id range other : CommitId)
      → contains (uncovered sets (push_range m id range)) other
        ≡ (contains (uncovered sets m) other || (id == other && not (is_covered sets range)))
  unfolding push_range
  uncovered-push_range m id range other = elim (Option-cases (Map.get m id)) [
    | inl miss ↦ rw (miss, push_range) (uncovered-insert_new m id range other miss)
    | inr (ranges, hit) ↦ rw (hit, push_range) (uncovered-insert_old m id range other ranges hit)
  ]

module _ (dag : CommitDag) (metric : DepthMetric) (fs : List Fragment) where
  abbrev sets : List CommitId × List Checkpoint
  sets = cover fs ([], [])

  abbrev pub kept : Ranges → List CommitId
  kept acc = uncovered sets acc.commits_to_ranges ++ acc.rangeless_commits

  record_range-kept :
      (id other : CommitId) (r : Option CommitId) (acc : Ranges)
      → contains (kept (record_range id r acc)) other
        ≡ (contains (kept acc) other || (id == other && keeps fs r))
  unfolding record_range
  record_range-kept id other none acc =
      let m = uncovered sets acc.commits_to_ranges in
      ground (
        arith,
        contains-append m (insert acc.rangeless_commits id).0 other,
        contains-append m acc.rangeless_commits other,
        contains-insert acc.rangeless_commits id other,
      )
  record_range-kept id other (some range) acc =
      let m = acc.commits_to_ranges in
      ground (
        arith,
        contains-append (uncovered sets (push_range m id range)) acc.rangeless_commits other,
        contains-append (uncovered sets m) acc.rangeless_commits other,
        uncovered-push_range sets m id range other,
        is_covered-covers fs range,
      )

  kept-nothing : (id : CommitId) → contains (kept nothing) id ≡ false
  unfolding uncovered contains
  kept-nothing id = refl

  pub contains-kept :
      (visited : List Visit) (id : CommitId)
      → contains (kept (collect dag metric visited)) id
        ≡ any (λ v. id_at dag.nodes v.0 == id && keeps fs v.1) visited
  contains-kept [] id = kept-nothing id
  contains-kept (v ∷ vs) id = ground (
    arith,
    record_range-kept (id_at dag.nodes v.0) id v.1 (collect dag metric vs),
    contains-kept vs id,
  )
