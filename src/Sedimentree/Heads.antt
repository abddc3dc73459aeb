-- ===== src/Sedimentree/Heads.antt =====
-- `heads_assuming_minimal` of sedimentree.rs.
use subduction.Identity.{CommitId, Checkpoint, checkpoint}
use subduction.Fragment.{Fragment, boundary}
use subduction.Collections.Map.{keys, values, contains-keys}
use subduction.Collections.Set.{
  contains, extend, from_iter, contains-extend, contains-from_iter, contains-append,
  contains-filter,
}
use subduction.Sedimentree.{Sedimentree, has_loose_commit, has_fragment}
use subduction.Prelude.{
  ◌≡◌, refl, ◌∙◌, Bool, false, not, ◌&&◌, ◌||◌, List, [], ◌∷◌, ◌++◌, arith, nat_eq, filter, any,
  bytes_eq, bytes_list_eq,
}

abbrev flat_map : {A B : Type 0} → (A → List B) → List A → List B
flat_map f [] = []
flat_map f (x ∷ xs) = f x ++ flat_map f xs

-- `for fragment in self.fragments.values() { referenced_ids.extend(…); referenced_checkpoints.extend(…); }`
unfoldable pub add_references :
    List CommitId × List Checkpoint → List Fragment → List CommitId × List Checkpoint
add_references seen [] = seen
add_references (ids, checkpoints) (f ∷ fs) =
    add_references (extend ids (boundary f), extend checkpoints f.checkpoints) fs

unfoldable pub references : Sedimentree → List CommitId × List Checkpoint
references self =
    add_references (from_iter (flat_map (λ c. c.parents) (values self.commits)), [])
      (values self.fragments)

unfoldable pub heads_assuming_minimal : Sedimentree → List CommitId
heads_assuming_minimal self = from_iter (
    filter
      (λ id.
        not (contains (references self).0 id) && not (contains (references self).1 (checkpoint id)))
      (keys self.fragments ++ keys self.commits))

contains-flat_map :
    {A : Type 0} (f : A → List CommitId) (xs : List A) (id : CommitId)
    → contains (flat_map f xs) id ≡ any (λ x. contains (f x) id) xs
unfolding contains
contains-flat_map f [] id = refl
contains-flat_map f (x ∷ xs) id =
    ground (arith, contains-append (f x) (flat_map f xs) id, contains-flat_map f xs id)

contains-add_references :
    (fs : List Fragment) (seen : List CommitId × List Checkpoint) (id : CommitId) (c : Checkpoint)
    → (contains (add_references seen fs).0 id
        ≡ (contains seen.0 id || any (λ f. contains (boundary f) id) fs))
      × (contains (add_references seen fs).1 c
          ≡ (contains seen.1 c || any (λ f. contains f.checkpoints c) fs))
unfolding add_references
contains-add_references [] seen id c = (ground arith, ground arith)
contains-add_references (f ∷ fs) (ids, checkpoints) id c =
    let (p, q) =
      contains-add_references fs (extend ids (boundary f), extend checkpoints f.checkpoints) id c in
    (
      ground (arith, p, contains-extend (boundary f) ids id),
      ground (arith, q, contains-extend f.checkpoints checkpoints c),
    )

-- A head is an item of the tree that is no parent of a commit, and neither a boundary nor, cut to
-- a checkpoint, a checkpoint of a fragment.
pub heads_assuming_minimal_lem :
    (self : Sedimentree) (id : CommitId)
    → contains (heads_assuming_minimal self) id ≡ (
        (has_fragment self id || has_loose_commit self id)
        && not (any (λ c. contains c.parents id) (values self.commits))
        && not (any (λ f. contains (boundary f) id) (values self.fragments))
        && not (any (λ f. contains f.checkpoints (checkpoint id)) (values self.fragments)))
unfolding heads_assuming_minimal references has_fragment has_loose_commit
heads_assuming_minimal_lem self id =
    let parents = flat_map (λ c. c.parents) (values self.commits) in
    let (p, q) =
      contains-add_references (values self.fragments) (from_iter parents, []) id (checkpoint id) in
    let wanted : CommitId → Bool = λ id.
      not (contains (references self).0 id) && not (contains (references self).1 (checkpoint id)) in
    let items = keys self.fragments ++ keys self.commits in
    contains-from_iter (filter wanted items) id
    ∙ contains-filter wanted items id
    ∙ ground (
      arith,
      p,
      q,
      contains-from_iter parents id,
      contains-flat_map (λ c. c.parents) (values self.commits) id,
      contains-append (keys self.fragments) (keys self.commits) id,
      contains-keys self.fragments id,
      contains-keys self.commits id,
      contains_nothing (checkpoint id),
    )
  where
    contains_nothing : (c : Checkpoint) → contains [] c ≡ false
    contains_nothing c = unfold contains in refl
