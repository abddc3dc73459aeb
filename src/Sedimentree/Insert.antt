-- ===== src/Sedimentree/Insert.antt =====
-- `add_commit` and `add_fragment` of sedimentree.rs: each is a merge of a tree of one item.
use subduction.LooseCommit.{LooseCommit}
use subduction.Fragment.{Fragment, head}
use subduction.Collections.Map
use subduction.Collections.Map.{get-insert}
use subduction.Sedimentree.{
  Sedimentree, Digests, default, insert_or_tiebreak, insert_all, merge, add_commit, add_fragment,
  has_loose_commit, has_fragment,
}
use subduction.Sedimentree.Tiebreak.{join_swap}
use subduction.Sedimentree.Merge.{
  IsValid, SameTree, CollisionFree, merge-IsValid, get-merge_fragments, get-merge_commits,
  same_refl, same_trans,
}
use mathlib.Core.List.{Permᴰ}
use mathlib.Core.Path.{subst₂}
use subduction.Prelude.{
  ◌≡◌, refl, sym, ap, ◌∙◌, subst, Bool, not, List, [], ◌∷◌, arith, nat_eq, bytes_eq, bytes_list_eq,
}

abbrev pub one_commit : LooseCommit → Sedimentree
one_commit c = record default { commits = (c.head, c) ∷ [] }

abbrev pub one_fragment : Fragment → Sedimentree
one_fragment f = record default { fragments = (head f, f) ∷ [] }

-- An item that comes from outside, and the tree that holds just it.
pub data Item : Type 0 where
  commit : LooseCommit → Item
  fragment : Fragment → Item

abbrev pub one : Item → Sedimentree
one (commit c) = one_commit c
one (fragment f) = one_fragment f

module _ (digests : Digests) where
  -- Adding a commit is merging the tree that holds just it, and the flag says whether the
  -- identifier was absent.
  pub add_commit-merge :
      (s : Sedimentree) (c : LooseCommit)
      → add_commit digests s c ≡ (merge digests s (one_commit c), not (has_loose_commit s c.head))
  unfolding add_commit merge insert_all insert_or_tiebreak has_loose_commit
  add_commit-merge s c = ground arith

  -- Adding a fragment is merging the tree that holds just it, and the flag says whether the
  -- identifier was absent.
  pub add_fragment-merge :
      (s : Sedimentree) (f : Fragment)
      → add_fragment digests s f ≡ (merge digests s (one_fragment f), not (has_fragment s (head f)))
  unfolding add_fragment merge insert_all insert_or_tiebreak has_fragment
  add_fragment-merge s f = ground arith

  one_commit-IsValid : (c : LooseCommit) → IsValid digests (one_commit c)
  unfolding Map.get
  one_commit-IsValid c = record {
    fragments_distinct = tt;
    commits_distinct = (refl, tt);
    fragments_keyed = tt;
    commits_keyed = (refl, tt);
  }

  one_fragment-IsValid : (f : Fragment) → IsValid digests (one_fragment f)
  unfolding Map.get
  one_fragment-IsValid f = record {
    fragments_distinct = (refl, tt);
    commits_distinct = tt;
    fragments_keyed = (refl, tt);
    commits_keyed = tt;
  }

  abbrev pub add : Sedimentree → Item → Sedimentree
  add s (commit c) = (add_commit digests s c).0
  add s (fragment f) = (add_fragment digests s f).0

  abbrev pub add_all : Sedimentree → List Item → Sedimentree
  add_all s [] = s
  add_all s (i ∷ is) = add_all (add s i) is

  add-merge : (s : Sedimentree) (i : Item) → add s i ≡ merge digests s (one i)
  add-merge s (commit c) = ap (λ (p : Sedimentree × Bool). p.0) (add_commit-merge s c)
  add-merge s (fragment f) = ap (λ (p : Sedimentree × Bool). p.0) (add_fragment-merge s f)

  one-IsValid : (i : Item) → IsValid digests (one i)
  one-IsValid (commit c) = one_commit-IsValid c
  one-IsValid (fragment f) = one_fragment-IsValid f

  -- Adding a commit or a fragment keeps a valid tree valid.
  pub add-IsValid : (s : Sedimentree) (i : Item) → IsValid digests s → IsValid digests (add s i)
  add-IsValid s i v =
      subst (IsValid digests) (sym (add-merge s i))
        (merge-IsValid digests s (one i) v (one-IsValid i))

  module _ (free : CollisionFree digests) where
    merge_swap :
        (s t u : Sedimentree)
        → IsValid digests t
        → IsValid digests u
        → SameTree (merge digests (merge digests s t) u) (merge digests (merge digests s u) t)
    merge_swap s t u v w = record {
      fragments = λ id.
          rw
            (
              get-merge_fragments digests (merge digests s t) u w id,
              get-merge_fragments digests s t v id,
              get-merge_fragments digests (merge digests s u) t v id,
              get-merge_fragments digests s u w id,
            )
            (join_swap digests.fragment free.fragment _ _ _);
      commits = λ id.
          rw
            (
              get-merge_commits digests (merge digests s t) u w id,
              get-merge_commits digests s t v id,
              get-merge_commits digests (merge digests s u) t v id,
              get-merge_commits digests s u w id,
            )
            (join_swap digests.commit free.commit _ _ _);
    }

    add_swap : (s : Sedimentree) (i j : Item) → SameTree (add (add s i) j) (add (add s j) i)
    add_swap s i j =
        subst₂ SameTree
          (sym (add-merge (add s i) j ∙ ap (λ t. merge digests t (one j)) (add-merge s i)))
          (sym (add-merge (add s j) i ∙ ap (λ t. merge digests t (one i)) (add-merge s j)))
          (merge_swap s (one i) (one j) (one-IsValid i) (one-IsValid j))

    add_same : (s t : Sedimentree) (i : Item) → SameTree s t → SameTree (add s i) (add t i)
    add_same s t i e = subst₂ SameTree (sym (add-merge s i)) (sym (add-merge t i)) (record {
      fragments = λ id. rw (
        get-merge_fragments digests s (one i) (one-IsValid i) id,
        get-merge_fragments digests t (one i) (one-IsValid i) id,
        e.fragments id,
      );
      commits = λ id. rw (
        get-merge_commits digests s (one i) (one-IsValid i) id,
        get-merge_commits digests t (one i) (one-IsValid i) id,
        e.commits id,
      );
    })

    add_all_same :
        (is : List Item) (s t : Sedimentree) → SameTree s t → SameTree (add_all s is) (add_all t is)
    add_all_same [] s t e = e
    add_all_same (i ∷ is) s t e = add_all_same is (add s i) (add t i) (add_same s t i e)

    -- With digests that have no collision, replicas that start with the same items and receive
    -- the same commits and fragments, in any order, answer every lookup alike.
    pub add_all-perm :
        {is js : List Item} (s t : Sedimentree)
        → Permᴰ is js
        → SameTree s t
        → SameTree (add_all s is) (add_all t js)
    add_all-perm s t Permᴰ.nil e = e
    add_all-perm s t (Permᴰ.cons {a = i} {b = j} same p) e =
        add_all-perm (add s i) (add t j) p
          (subst (λ k. SameTree (add s i) (add t k)) same (add_same s t i e))
    add_all-perm s t (Permᴰ.swap {a = i} {b = j} {a' = j'} {b' = i'} {l = l} e1 e2) e =
        subst₂ (λ (x y : Item). SameTree (add_all s (i ∷ j ∷ l)) (add_all t (x ∷ y ∷ l))) e2 e1
          (add_all_same l (add (add s i) j) (add (add t j) i)
            (same_trans (add_swap s i j) (add_same (add s j) (add t j) i (add_same s t j e))))
    add_all-perm s t (Permᴰ.trans {l₂ = ks} p q) e =
        same_trans (add_all-perm s t p e) (add_all-perm t t q (same_refl t))
