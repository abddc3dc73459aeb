-- ===== src/Tests/Minimal.antt =====
-- The theorems on minimization, at a small tree.
use subduction.Identity.{CommitId}
use subduction.Depth.{count_leading_zero_bytes}
use subduction.Collections.Map
use subduction.Collections.Map.{values}
use subduction.Collections.Set.{contains}
use subduction.LooseCommit.{LooseCommit}
use subduction.CommitDag.{CommitDag, from_commits}
use subduction.CommitDag.Simplify.{simplify}
use subduction.Collections.Index.{Distinct}
use subduction.CommitDag.Simplify.Links.{heads}
use subduction.CommitDag.Simplify.Collected.{keeps}
use subduction.CommitDag.Simplify.Reached.{InRange}
use subduction.CommitDag.Simplify.Kept.{simplify_lem}
use subduction.Sedimentree.{Sedimentree}
use subduction.Sedimentree.Merge.{IsValid}
use subduction.Sedimentree.KeepSets
use subduction.Sedimentree.KeepSets.{minimize, minimize_in_place}
use subduction.Sedimentree.KeepSets.Agree.{minimize-minimize_in_place}
use subduction.Sedimentree.KeepSets.Again.{minimize_in_place_idem}
use subduction.Sedimentree.Minimized.{
  MinimizedSedimentree, new, add_commit, is_dirty, into_tree, already_minimal, default,
}
use subduction.Sedimentree.Minimized
use subduction.Sedimentree.Minimized.Lazy.{Ranked, wrapped, commit, heads-heads}
use subduction.Tests.Fixtures.{plain_digests, loose, piece, id_a, id_b, id_c}
use subduction.Prelude.{
  ℕ, ◌<◌, ◌≡◌, refl, subst, ◌↔◌, inl, inr, true, false, ◌&&◌, Option, some, List, [], ◌∷◌, arith,
  if◌then◌else◌, ◌==◌, nat_eq, ==_iff, Bool-cases, bytes_eq, bytes_list_eq,
}

-- c has the parent b, and b the parent a; the first two are boundaries.
abbrev line : List LooseCommit
line = loose id_a [] ∷ loose id_b (id_a ∷ []) ∷ loose id_c (id_b ∷ []) ∷ []

abbrev line_tree : Sedimentree
line_tree = record {
  fragments = (id_b, piece id_b []) ∷ [];
  commits =
      (id_a, loose id_a []) ∷ (id_b, loose id_b (id_a ∷ [])) ∷ (id_c, loose id_c (id_b ∷ [])) ∷ [];
}

line_tree-IsValid : IsValid plain_digests line_tree
unfolding Map.get
line_tree-IsValid = record {
  fragments_distinct = (refl, tt);
  commits_distinct = (ground arith, (ground arith, (refl, tt)));
  fragments_keyed = (refl, tt);
  commits_keyed = (refl, (refl, (refl, tt)));
}

rank : CommitId → ℕ
rank id = if id == id_a then 2 else if id == id_b then 1 else 0

rank_down :
    (older newer parent id : CommitId)
    → rank newer < rank older
    → (newer == id && contains (older ∷ []) parent) ≡ true
    → rank id < rank parent
unfolding contains
rank_down older newer parent id lt h =
    let at_id : newer ≡ id = (==_iff newer id).0 (ground (arith, h)) in
    let at_parent : older ≡ parent = (==_iff older parent).0 (ground (arith, h)) in
    subst (λ x. rank x < rank parent) at_id (subst (λ x. rank newer < rank x) at_parent lt)

line_tree-Ranked : Ranked line_tree rank
unfolding rank contains
line_tree-Ranked parent id h = elim (Bool-cases (id_b == id && contains (id_a ∷ []) parent)) [
  | inl second ↦ rank_down id_a id_b parent id (ground arith) second
  | inr other ↦ rank_down id_b id_c parent id (ground arith) (ground (arith, h, other))
]

line-Distinct : Distinct (heads line)
unfolding contains
line-Distinct = (ground arith, (ground arith, (ground arith, tt)))

simplify_lem_example :
    (dag : CommitDag) × (r : List CommitId) × (from_commits line ≡ some dag)
    × (simplify dag (piece id_b [] ∷ []) count_leading_zero_bytes ≡ some r)
    × ((id : CommitId)
        → (contains r id ≡ true) ↔ (
            (range : Option CommitId) × InRange line count_leading_zero_bytes id range
            × (keeps (piece id_b [] ∷ []) range ≡ true)))
simplify_lem_example = simplify_lem line (piece id_b [] ∷ []) count_leading_zero_bytes line-Distinct

minimize-minimize_in_place_example :
    (t' : Sedimentree) × (minimize count_leading_zero_bytes plain_digests line_tree ≡ some t')
    × (minimize_in_place count_leading_zero_bytes line_tree ≡ some t')
    × IsValid plain_digests t'
minimize-minimize_in_place_example =
    minimize-minimize_in_place plain_digests count_leading_zero_bytes line_tree line_tree-IsValid

heads-heads_example :
    (s' : MinimizedSedimentree) × (hs : List CommitId) × (Minimized.heads count_leading_zero_bytes
        (add_commit plain_digests (new line_tree) (loose id_c [])).0
      ≡ some (s', hs))
    × (KeepSets.heads count_leading_zero_bytes plain_digests
          (add_commit plain_digests (new line_tree) (loose id_c [])).0.tree
        ≡ some hs)
    × (s'.dirty ≡ false)
heads-heads_example =
    heads-heads plain_digests count_leading_zero_bytes
      (add_commit plain_digests (new line_tree) (loose id_c [])).0
      (commit (wrapped line_tree line_tree-IsValid) (loose id_c []))

flags :
    (is_dirty (new line_tree) ≡ true)
    × (is_dirty (already_minimal line_tree) ≡ false)
    × (is_dirty default ≡ false)
    × (into_tree (new line_tree) ≡ line_tree)
unfolding is_dirty new already_minimal default into_tree
flags = (refl, refl, refl, refl)

minimize_in_place_idem_example :
    (t' : Sedimentree) × (minimize_in_place count_leading_zero_bytes line_tree ≡ some t')
    × (minimize_in_place count_leading_zero_bytes t' ≡ some t')
minimize_in_place_idem_example =
    minimize_in_place_idem plain_digests count_leading_zero_bytes line_tree line_tree-IsValid rank
      line_tree-Ranked
