-- ===== src/Tests/Orders.antt =====
-- `topsorted_blob_order`, at small trees.
use subduction.Codec.{Result, ok, err}
use subduction.Collections.Map
use subduction.Collections.Map.{values}
use subduction.Collections.Set.{contains}
use subduction.Sedimentree.{Sedimentree}
use subduction.Sedimentree.Merge.{IsValid}
use subduction.Sedimentree.Topsort.{
  SedimentreeItem, fragment, loose_commit, CycleError, graph_of, topsorted_blob_order, kahn, ready,
  release, item, fragment_edges, boundary_edges, commit_edges, parent_edges, depend_once, depend,
  empty,
}
use subduction.Collections.Index.{index_keys}
use subduction.Sedimentree.Topsort.Depends.{depends_on}
use subduction.Sedimentree.Topsort.Items.{IsItem}
use subduction.Sedimentree.Topsort.Outcome.{IsSorted, IsOutcome}
use subduction.Sedimentree.Topsort.Sorted.{topsorted_blob_order_lem, topsorted_blob_order_acyclic}
use subduction.Tests.Fixtures.{plain_digests, loose, piece, id_a, id_b, id_c}
use subduction.Prelude.{
  ℕ_discrete, Bytes-discrete, ℕ, zero, suc, ◌+◌, ◌-◌, ◌*◌, ◌/◌, ◌%◌, ◌^◌, ◌≤◌, ◌<◌, min, ◌≡◌, refl,
  sym, ap, ◌∙◌, subst, ◌≢◌, ◌↔◌, ◌⊎◌, inl, inr, Bool, true, false, not, ◌&&◌, ◌||◌, Option, none,
  some, List, [], ◌∷◌, ◌++◌, map, append_assoc, append-nil, arith, dec_lt, dec_le, ℕ_discrete, ltb,
  leb, if◌then◌else◌, Eq, ◌==◌, nat_eq, ==_iff, ==-refl, Bool-cases, Option-cases, length, take,
  drop, get_elem?, filter, any, all, All, length-append, take-append, drop-append, Bytes, IsByte,
  IsArray, bytes_eq, Bytes-discrete, bytes_ltb, bytes_ltb_irrefl, bytes_ltb_trans, bytes_ltb-total,
  bytes_ltb-asymm, take-append-drop, length-take, length-drop, All-append, All-drop, zero-add,
  add-zero, suc-add, add_assoc, add_comm, ltb_of_le, ltb_of_lt, le_of_ltb, lt_of_ltb,
  length-drop_fits, drop-drop, add-one, list_discrete, bytes_list_eq, filter_none, List-cases,
  All-imp, All-snoc, append-All, length-map,
}

-- c has the parent b, and b the parent a; a fragment has the head b.
abbrev line_tree : Sedimentree
line_tree = record {
  fragments = (id_b, piece id_b []) ∷ [];
  commits =
      (id_c, loose id_c (id_b ∷ [])) ∷ (id_a, loose id_a []) ∷ (id_b, loose id_b (id_a ∷ [])) ∷ [];
}

line_tree-IsValid : IsValid plain_digests line_tree
unfolding Map.get
line_tree-IsValid = record {
  fragments_distinct = (refl, tt);
  commits_distinct = (ground arith, (ground arith, (refl, tt)));
  fragments_keyed = (refl, tt);
  commits_keyed = (refl, (refl, (refl, tt)));
}

-- Two commits that have each other as a parent, and one apart.
abbrev ring_tree : Sedimentree
ring_tree = record {
  fragments = [];
  commits =
      (id_a, loose id_a (id_b ∷ [])) ∷ (id_b, loose id_b (id_a ∷ [])) ∷ (id_c, loose id_c []) ∷ [];
}

line_tree_order :
    topsorted_blob_order line_tree
    ≡ some (ok (fragment 0 ∷ loose_commit 1 ∷ loose_commit 2 ∷ loose_commit 0 ∷ []))
unfolding topsorted_blob_order graph_of kahn ready release item fragment_edges boundary_edges
    commit_edges parent_edges depend_once depend empty index_keys Map.get Map.insert contains
    ℕ_discrete subduction.Prelude.Order.Bytes-discrete
line_tree_order = refl

ring_tree_order : topsorted_blob_order ring_tree ≡ some (err (record { total = 3; sorted = 1 }))
unfolding topsorted_blob_order graph_of kahn ready release item fragment_edges boundary_edges
    commit_edges parent_edges depend_once depend empty index_keys Map.get Map.insert contains
    ℕ_discrete subduction.Prelude.Order.Bytes-discrete
ring_tree_order = refl

topsorted_blob_order_lem_example :
    (r : Result CycleError (List SedimentreeItem)) × (topsorted_blob_order line_tree ≡ some r)
    × IsOutcome (values line_tree.fragments) (values line_tree.commits) r
topsorted_blob_order_lem_example =
    topsorted_blob_order_lem plain_digests line_tree line_tree-IsValid

-- Commit 0 is above commit 2, which is above commit 1.
rank : SedimentreeItem → ℕ
rank (fragment i) = 0
rank (loose_commit zero) = 3
rank (loose_commit (suc zero)) = 1
rank (loose_commit (suc (suc i))) = 2

falls :
    (x y : SedimentreeItem)
    → IsItem (values line_tree.fragments) (values line_tree.commits) x
    → IsItem (values line_tree.fragments) (values line_tree.commits) y
    → depends_on (values line_tree.fragments) (values line_tree.commits) x y ≡ true
    → rank y < rank x
unfolding rank contains
falls (fragment zero) (fragment s) hx hy h = ground (arith, h)
falls (fragment (suc t)) (fragment s) hx hy h = absurd (omega (arith, hx))
falls (fragment t) (loose_commit s) hx hy h = cc
falls (loose_commit zero) (fragment s) hx hy h = omega arith
falls (loose_commit (suc zero)) (fragment s) hx hy h = omega arith
falls (loose_commit (suc (suc zero))) (fragment s) hx hy h = omega arith
falls (loose_commit (suc (suc (suc t)))) y hx hy h = absurd (omega (arith, hx))
falls (loose_commit zero) (loose_commit zero) hx hy h = ground (arith, h)
falls (loose_commit zero) (loose_commit (suc zero)) hx hy h = omega arith
falls (loose_commit zero) (loose_commit (suc (suc s))) hx hy h = omega arith
falls (loose_commit (suc zero)) (loose_commit zero) hx hy h = ground (arith, h)
falls (loose_commit (suc zero)) (loose_commit (suc zero)) hx hy h = ground (arith, h)
falls (loose_commit (suc zero)) (loose_commit (suc (suc zero))) hx hy h = ground (arith, h)
falls (loose_commit (suc (suc zero))) (loose_commit zero) hx hy h = ground (arith, h)
falls (loose_commit (suc (suc zero))) (loose_commit (suc zero)) hx hy h = omega arith
falls (loose_commit (suc (suc zero))) (loose_commit (suc (suc zero))) hx hy h = ground (arith, h)
falls (loose_commit t) (loose_commit (suc (suc (suc s)))) hx hy h = absurd (omega (arith, hy))

topsorted_blob_order_acyclic_example :
    (order : List SedimentreeItem) × (topsorted_blob_order line_tree ≡ some (ok order))
    × IsSorted (values line_tree.fragments) (values line_tree.commits) order
topsorted_blob_order_acyclic_example =
    topsorted_blob_order_acyclic plain_digests line_tree line_tree-IsValid rank falls
