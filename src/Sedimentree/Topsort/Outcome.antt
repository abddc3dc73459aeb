-- ===== src/Sedimentree/Topsort/Outcome.antt =====
-- `topsorted_blob_order`: what an order, and a set of items left out of it, is to be.
use subduction.LooseCommit.{LooseCommit}
use subduction.Fragment.{Fragment}
use subduction.Codec.{Result, ok, err}
use subduction.Collections.Set.{contains}
use subduction.Collections.Index.{Distinct}
use subduction.Collections.Members.{In, In-All}
use subduction.Sedimentree.Topsort.{SedimentreeItem, CycleError, item}
use subduction.Sedimentree.Topsort.Counting.{all_of_length, length_of_all}
use subduction.Sedimentree.Topsort.Loop.{Edges, has_edge, open_in, open_in-some, IsOrdered, Inv}
use subduction.Sedimentree.Topsort.Depends.{fragment_heads, commit_heads, depends_on}
use subduction.Sedimentree.Topsort.Left.{picked, picked-none, In-picked, picked-In, picked-length}
use subduction.Sedimentree.Topsort.Items.{
  IsItem, index, n_total, item-index, item-IsItem, dep, dep_within, dep_items, index-lt,
}
use subduction.Prelude.{
  Bool, ◌+◌, ◌⊎◌, ℕ, ◌<◌, ◌≡◌, refl, sym, ap, ◌∙◌, subst, inl, inr, true, false, not, List, [], ◌∷◌,
  ◌++◌, map, append-nil, arith, ◌==◌, nat_eq, ==_iff, Bool-cases, length, All, bytes_eq,
  bytes_list_eq, List-cases, length-map,
}

In-map : {A B : Type 0} (f : A → B) (xs : List A) (x : A) → In x xs → In (f x) (map f xs)
In-map f [] x m = absurd m
In-map f (y ∷ ys) x (inl e) = inl (ap f e)
In-map f (y ∷ ys) x (inr m) = inr (In-map f ys x m)

contains-In : (xs : List ℕ) (x : ℕ) → contains xs x ≡ true → In x xs
unfolding contains
contains-In [] x h = cc
contains-In (y ∷ ys) x h = elim (Bool-cases (y == x)) [
  | inl hit ↦ inl ((==_iff y x).0 hit)
  | inr miss ↦ inr (contains-In ys x (ground (arith, h, miss)))
]

module _ (fs : List Fragment) (cs : List LooseCommit) where
  -- Each item stands behind the items that it depends on.
  abbrev pub Behind : List SedimentreeItem → List SedimentreeItem → Type 0
  Behind seen [] = Unit
  Behind seen (x ∷ xs) =
      ((y : SedimentreeItem) → IsItem fs cs y → depends_on fs cs x y ≡ true → In y seen)
      × Behind (x ∷ seen) xs

  -- All items, once each, dependencies first.
  pub record IsSorted (order : List SedimentreeItem) : Type 0 where
    pub items : All (IsItem fs cs) order
    pub every : (x : SedimentreeItem) → IsItem fs cs x → In x order
    pub once : length order ≡ n_total fs cs
    pub behind : Behind [] order

  -- Items of which each depends on one of them.
  pub record IsStuck (stuck : List SedimentreeItem) : Type 0 where
    pub items : All (IsItem fs cs) stuck
    pub waits :
        (x : SedimentreeItem)
        → In x stuck
        → (y : SedimentreeItem) × In y stuck × (depends_on fs cs x y ≡ true)

  -- An order that cannot go on: some items stand behind those they depend on, and the others, as many
  -- as are missing, are stuck.
  pub record IsPartial (order stuck : List SedimentreeItem) : Type 0 where
    pub items : All (IsItem fs cs) order
    pub behind : Behind [] order
    pub rest : IsStuck stuck
    pub every : (x : SedimentreeItem) → IsItem fs cs x → In x order ⊎ In x stuck
    pub once : length order + length stuck ≡ n_total fs cs

  abbrev pub IsOutcome : Result CycleError (List SedimentreeItem) → Type 0
  IsOutcome (ok order) = IsSorted order
  IsOutcome (err e) =
      (e.total ≡ n_total fs cs)
      × (e.sorted < e.total)
      × ((order : List SedimentreeItem) × (x : SedimentreeItem) × (stuck : List SedimentreeItem)
          × (e.sorted ≡ length order)
          × IsPartial order (x ∷ stuck))

  module _ (once_f : Distinct (fragment_heads fs)) (once_c : Distinct (commit_heads cs))
      (es : Edges) (edges : (s t : ℕ) → has_edge es s t ≡ dep fs cs s t) where
    abbrev at_index : ℕ → SedimentreeItem
    at_index = item (length fs)

    edge_of :
        (i : ℕ) (y : SedimentreeItem)
        → i < n_total fs cs
        → IsItem fs cs y
        → has_edge es (index fs cs y) i ≡ depends_on fs cs (at_index i) y
    edge_of i y lt hy =
        let (hx, e) = item-IsItem fs cs i lt in
        edges (index fs cs y) i
        ∙ ap (dep fs cs (index fs cs y)) (sym e)
        ∙ dep_items fs cs once_f once_c (at_index i) y hx hy

    pub Behind-of :
        (seen xs : List ℕ)
        → All (λ i. i < n_total fs cs) xs
        → IsOrdered es seen xs
        → Behind (map at_index seen) (map at_index xs)
    Behind-of seen [] below o = tt
    Behind-of seen (x ∷ xs) below o = (
      λ y hy h.
          subst (λ z. In z (map at_index seen)) (item-index fs cs y hy)
            (In-map at_index seen (index fs cs y) (
              contains-In seen (index fs cs y) (o.0 (index fs cs y) (edge_of x y below.0 hy ∙ h)))),
      Behind-of (x ∷ seen) xs below.1 o.1,
    )

    All-items :
        (xs : List ℕ) → All (λ i. i < n_total fs cs) xs → All (IsItem fs cs) (map at_index xs)
    All-items [] h = tt
    All-items (x ∷ xs) h = ((item-IsItem fs cs x h.0).0, All-items xs h.1)

    In-items :
        (xs : List ℕ) (x : SedimentreeItem)
        → In x (map at_index xs)
        → (i : ℕ) × In i xs × (at_index i ≡ x)
    In-items [] x m = absurd m
    In-items (y ∷ ys) x (inl e) = (y, inl refl, e)
    In-items (y ∷ ys) x (inr m) = let (i, n, e) = In-items ys x m in (i, inr n, e)

    module _ (inside : All (λ (e : ℕ × ℕ). (e.0 < n_total fs cs) × (e.1 < n_total fs cs)) es)
        (order : List ℕ) (deg : ℕ → ℕ) (v : Inv (n_total fs cs) es inside order [] deg) where
      below : All (λ i. i < n_total fs cs) order
      below = subst (All (λ i. i < n_total fs cs)) (append-nil order) v.below

      once : Distinct order
      once = subst Distinct (append-nil order) v.once

      pub ordered_all : length order ≡ n_total fs cs → IsSorted (map at_index order)
      ordered_all full = record {
        items = All-items order below;
        every = λ x hx.
            subst (λ z. In z (map at_index order)) (item-index fs cs x hx)
              (In-map at_index order (index fs cs x) (
                contains-In order (index fs cs x) (
                  all_of_length (n_total fs cs) order once below full (index fs cs x)
                    (index-lt fs cs x hx))));
        once = length-map at_index order ∙ full;
        behind = Behind-of [] order below v.ordered;
      }

      abbrev left_out : List ℕ
      left_out = picked (λ i. not (contains order i)) (n_total fs cs)

      waits_for :
          (i : ℕ)
          → In i left_out
          → (s : ℕ) × In s left_out × (depends_on fs cs (at_index i) (at_index s) ≡ true)
      waits_for i m =
          let n = n_total fs cs in
          let (lt, out) = In-picked (λ i. not (contains order i)) n i m in
          let out' : contains (order ++ []) i ≡ false =
            ap (λ l. contains l i) (append-nil order) ∙ ground (arith, out) in
          let is_open : 0 < open_in es order i = ground (arith, out', v.queued i lt, v.degrees i) in
          let (s, e, missing) = open_in-some es order i is_open in
          let (ls, _) = dep_within fs cs s i (sym (edges s i) ∙ e) in
          let (hs, at_s) = item-IsItem fs cs s ls in
          (
            s,
            picked-In (λ i. not (contains order i)) n s ls (ground (arith, missing)),
            sym (edge_of i (at_index s) lt hs) ∙ ap (λ z. has_edge es z i) at_s ∙ e,
          )

      left-IsStuck : IsStuck (map at_index left_out)
      left-IsStuck = record {
        items = All-items left_out (
            In-All _ left_out
              (λ i m. (In-picked (λ i. not (contains order i)) (n_total fs cs) i m).0));
        waits = λ x m.
            let (i, mi, ei) = In-items left_out x m in
            let (s, ms, d) = waits_for i mi in
            (
              at_index s,
              In-map at_index left_out s ms,
              subst (λ z. depends_on fs cs z (at_index s) ≡ true) ei d,
            );
      }

      ordered_or_left :
          (x : SedimentreeItem)
          → IsItem fs cs x
          → In x (map at_index order) ⊎ In x (map at_index left_out)
      ordered_or_left x hx =
          let at = index fs cs x in
          let p : ℕ → Bool = λ i. not (contains order i) in
          subst (λ z. In z (map at_index order) ⊎ In z (map at_index left_out))
            (item-index fs cs x hx)
            (elim (Bool-cases (contains order at)) [
              | inl hit ↦ inl (In-map at_index order at (contains-In order at hit))
              | inr miss ↦ inr (
                  In-map at_index left_out at
                    (picked-In p (n_total fs cs) at (index-lt fs cs x hx) (ground (arith, miss))))
            ])

      left-IsPartial : IsPartial (map at_index order) (map at_index left_out)
      left-IsPartial = record {
        items = All-items order below;
        behind = Behind-of [] order below v.ordered;
        rest = left-IsStuck;
        every = ordered_or_left;
        once = omega (
          arith,
          length-map at_index order,
          length-map at_index left_out,
          picked-length order (n_total fs cs) once below,
        );
      }

      pub stuck_some :
          ¬ (length order ≡ n_total fs cs)
          → (x : SedimentreeItem) × (stuck : List SedimentreeItem) × IsPartial
              (map at_index order)
              (x ∷ stuck)
      stuck_some short = elim (List-cases left_out) [
        | inl empty ↦ absurd (
            short (
              length_of_all (n_total fs cs) order once below (λ i lt.
                ground
                  (arith, picked-none (λ i. not (contains order i)) (n_total fs cs) empty i lt))))
        | inr (i, rest, e) ↦ (
          at_index i,
          map at_index rest,
          subst (λ l. IsPartial (map at_index order) (map at_index l)) e left-IsPartial,
        )
      ]
